-- ===== src/Migrate/Dirs/Names.antt =====
-- How the entries of a directory change.
use gnosis_vpn_toolkit.Prelude.{
  ◌<◌, ◌≤◌, true, none, [], ◌∷◌, ◌≡◌, ◌≢◌, refl, sym, ◌∙◌, inl, inr, arith, length, Bool-cases,
}
use gnosis_vpn_toolkit.Prelude.Text.{Text, text_eq, text_eq_iff}
use gnosis_vpn_toolkit.Migrate.Dirs.{Dir, lookup, delete, is_some}

pub lookup-delete_same : (name : Text) (d : Dir) → lookup name (delete name d) ≡ none
lookup-delete_same name [] = refl
lookup-delete_same name ((n, node) ∷ d) = elim (Bool-cases (text_eq n name)) [
  | inl same ↦ rw same (lookup-delete_same name d)
  | inr other ↦ rw (other, other) (lookup-delete_same name d)
]

pub lookup-delete_other :
    (x name : Text) (d : Dir) → x ≢ name → lookup x (delete name d) ≡ lookup x d
lookup-delete_other x name [] other = refl
lookup-delete_other x name ((n, node) ∷ d) other = elim (Bool-cases (text_eq n name)) [
  | inl same ↦ elim (Bool-cases (text_eq n x)) [
    | inl here ↦ absurd (other (sym ((text_eq_iff n x).0 here) ∙ (text_eq_iff n name).0 same))
    | inr there ↦ rw (same, there) (lookup-delete_other x name d other)
  ]
  | inr kept ↦ rw kept (elim (Bool-cases (text_eq n x)) [
    | inl here ↦ rw here refl
    | inr there ↦ rw there (lookup-delete_other x name d other)
  ])
]

length-delete_le : (name : Text) (d : Dir) → length (delete name d) ≤ length d
length-delete_le name [] = omega arith
length-delete_le name ((n, node) ∷ d) =
    let le = length-delete_le name d in
    elim (Bool-cases (text_eq n name)) [
      | inl same ↦ rw same (omega arith)
      | inr other ↦ rw other (omega arith)
    ]

-- Deleting a name that is there makes the directory smaller.
pub length-delete_lt :
    (name : Text) (d : Dir) → is_some (lookup name d) ≡ true → length (delete name d) < length d
length-delete_lt name [] h = ground arith
length-delete_lt name ((n, node) ∷ d) h =
    let le = length-delete_le name d in
    elim (Bool-cases (text_eq n name)) [
      | inl same ↦ rw same (omega arith)
      | inr other ↦ let lt = length-delete_lt name d (rw other at h) in rw other (omega arith)
    ]
