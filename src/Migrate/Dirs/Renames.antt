-- ===== src/Migrate/Dirs/Renames.antt =====
-- What a rename does to the names of a directory.
use gnosis_vpn_toolkit.Prelude.{
  ℕ, true, false, none, some, ◌∷◌, ◌≡◌, ◌≢◌, refl, sym, subst, ◌∙◌, inl, inr, arith, Bool-cases,
  Option-cases, ok,
}
use gnosis_vpn_toolkit.Prelude.Text.{Text, text_eq, text_eq_iff, text_eq_refl}
use gnosis_vpn_toolkit.Migrate.Dirs.{Dir, lookup, delete, Host, is_some, rename}
use gnosis_vpn_toolkit.Migrate.Dirs.Names.{lookup-delete_same, lookup-delete_other}

-- One name has become another: what stood there stands at the new one, and nothing else changed.
pub record Renamed (from to : Text) (d d' : Dir) : Type 0 where
  pub here : is_some (lookup from d) ≡ true
  pub there : lookup to d' ≡ lookup from d
  pub gone : lookup from d' ≡ none
  pub others : (x : Text) → x ≢ from → x ≢ to → lookup x d' ≡ lookup x d

not_text_eq : (s t : Text) → s ≢ t → text_eq s t ≡ false
not_text_eq s t other = elim (Bool-cases (text_eq s t)) [
  | inl same ↦ absurd (other ((text_eq_iff s t).0 same))
  | inr different ↦ different
]

replaced-Renamed :
    (d : Dir) (from to : Text) {node : ℕ}
    → from ≢ to
    → lookup from d ≡ some node
    → Renamed from to d ((to, node) ∷ delete to (delete from d))
replaced-Renamed d from to {node} apart found = record {
  here = rw found refl;
  there = rw (text_eq_refl to) (sym found);
  gone =
      rw (not_text_eq to from (λ e. apart (sym e)))
        (lookup-delete_other from to (delete from d) apart ∙ lookup-delete_same from d);
  others = λ x not_from not_to.
      rw (not_text_eq to x (λ e. not_to (sym e)))
        (lookup-delete_other x to (delete from d) not_to ∙ lookup-delete_other x from d not_from);
}

pub rename-Renamed :
    (h : Host) (d : Dir) (from to : Text) {d' : Dir}
    → from ≢ to
    → rename h d from to ≡ ok d'
    → Renamed from to d d'
unfolding rename
rename-Renamed h d from to {d'} apart done = elim (Option-cases (h.rename_error from to)) [
  | inr (e, refused) ↦ ground arith
  | inl fine ↦ elim (Option-cases (lookup from d)) [
    | inl nothing ↦ ground arith
    | inr (node, found) ↦
        let e : (to, node) ∷ delete to (delete from d) ≡ d' = ground arith in
        subst (Renamed from to d) e (replaced-Renamed d from to apart found)
  ]
]

-- A rename of something that is there, which the host does not refuse, succeeds.
pub rename-succeeds :
    (h : Host) (d : Dir) (from to : Text)
    → h.rename_error from to ≡ none
    → is_some (lookup from d) ≡ true
    → (d' : Dir) × (rename h d from to ≡ ok d')
unfolding rename
rename-succeeds h d from to fine here = elim (Option-cases (lookup from d)) [
  | inl nothing ↦ ground arith
  | inr (node, found) ↦ ((to, node) ∷ delete to (delete from d), ground arith)
]

-- Two directories with the same entries.
abbrev pub Same : Dir → Dir → Type 0
Same d d' = (x : Text) → lookup x d' ≡ lookup x d

-- Renaming there and back, to a name that was free, leaves the directory as it was.
pub Renamed-back :
    {from to : Text} {d d' d'' : Dir}
    → from ≢ to
    → lookup to d ≡ none
    → Renamed from to d d'
    → Renamed to from d' d''
    → Same d d''
Renamed-back {from} {to} {d} {d'} {d''} apart free there back x =
    elim (Bool-cases (text_eq x from)) [
      | inl e ↦
          let same = (text_eq_iff x from).0 e in
          subst (λ t. lookup t d'' ≡ lookup t d) (sym same) (back.there ∙ there.there)
      | inr f ↦ elim (Bool-cases (text_eq x to)) [
        | inl e ↦
            let same = (text_eq_iff x to).0 e in
            subst (λ t. lookup t d'' ≡ lookup t d) (sym same) (back.gone ∙ sym free)
        | inr g ↦
            let not_from : x ≢ from = λ e. cc (f, (text_eq_iff x from).1 e) in
            let not_to : x ≢ to = λ e. cc (g, (text_eq_iff x to).1 e) in
            back.others x not_to not_from ∙ there.others x not_from not_to
      ]
    ]
