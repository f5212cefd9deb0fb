-- ===== src/Migrate/Nofollow/Reach.antt =====
-- What lies below a node, by the names of directories alone.
use gnosis_vpn_toolkit.Prelude.{
  ℕ, ◌<◌, false, none, some, List, [], ◌∷◌, ◌≡◌, refl, subst, ◌⊎◌, inl, inr, arith, Bool-cases,
}
use gnosis_vpn_toolkit.Prelude.Text.{Text, text_eq, text_eq_iff}
use gnosis_vpn_toolkit.Migrate.Dirs.{Dir, lookup}
use gnosis_vpn_toolkit.Migrate.Store.{Kind, Store, Process, lookup_in, is_directory, names_in}
use gnosis_vpn_toolkit.Migrate.Store.Calls.{listed, listing}
use gnosis_vpn_toolkit.Migrate.Nofollow.{is_dots, without_dots}

-- Reached by going through directories; a symlink has no names, so nothing lies below it.
pub data Below (s : Store) : ℕ → ℕ → Type 0 where
  self : {i j : ℕ} → i ≡ j → Below s i j
  inside :
      {i c j : ℕ} (name : Text)
      → is_dots name ≡ false
      → lookup_in s i name ≡ some c
      → Below s c j
      → Below s i j

abbrev pub Under : Store → ℕ → Text → ℕ → Type 0
Under s d name j = (c : ℕ) × (lookup_in s d name ≡ some c) × Below s c j

-- The directories form a forest: each name leads to a smaller rank.
abbrev pub Ranked : Store → (ℕ → ℕ) → Type 0
Ranked s rank = (d : ℕ) (name : Text) (c : ℕ) → lookup_in s d name ≡ some c → rank c < rank d

-- A file, a link or a special file has no names.
pub lookup_in-none :
    (k : Kind) (name : Text) → is_directory k ≡ false → lookup name (names_in k) ≡ none
lookup_in-none k name h = ground arith

abbrev pub Among : Text → List Text → Type 0
Among name [] = ⊥
Among name (x ∷ xs) = (x ≡ name) ⊎ Among name xs

module _ (p : Process) (s : Store) where
  listed-Among :
      (entries : Dir) (name : Text) {c : ℕ}
      → is_dots name ≡ false
      → lookup name entries ≡ some c
      → Among name (without_dots (listed p s entries))
  unfolding without_dots
  listed-Among [] name plain found = cc
  listed-Among ((n, i) ∷ entries) name plain found = elim (Bool-cases (text_eq n name)) [
    | inl same ↦ let e = (text_eq_iff n name).0 same in rw e (rw plain (inl refl))
    | inr other ↦
        let rest = listed-Among entries name plain (rw other at found) in
        elim (Bool-cases (is_dots n)) [ inl dots ↦ rw dots rest | inr named ↦ rw named (inr rest) ]
  ]

  Among-listed :
      (entries : Dir) (name : Text)
      → Among name (without_dots (listed p s entries))
      → (c : ℕ) × (lookup name entries ≡ some c) × (is_dots name ≡ false)
  unfolding without_dots
  Among-listed [] name h = elim h [ ]
  Among-listed ((n, i) ∷ entries) name h = elim (Bool-cases (is_dots n)) [
    | inl dots ↦
        let (c, found, plain) = Among-listed entries name (rw dots at h) in
        elim (Bool-cases (text_eq n name)) [
          | inl same ↦ (i, rw same refl, plain)
          | inr other ↦ (c, rw other found, plain)
        ]
    | inr named ↦
        let here : (n ≡ name) ⊎ Among name (without_dots (listed p s entries)) = rw named at h in
        elim (Bool-cases (text_eq n name)) [
          | inl same ↦
              (i, rw same refl, subst (λ t. is_dots t ≡ false) ((text_eq_iff n name).0 same) named)
          | inr other ↦ elim here [
            | inl e ↦ absurd (ground (arith, (text_eq_iff n name).1 e))
            | inr later ↦
                let (c, found, plain) = Among-listed entries name later in
                (c, rw other found, plain)
          ]
        ]
  ]

-- What a listing without its dots names is exactly what is there.
pub Among-listing :
    (p : Process) (s : Store) (d : ℕ) (name : Text)
    → Among name (without_dots (listing p d s))
    → (c : ℕ) × (lookup_in s d name ≡ some c) × (is_dots name ≡ false)
unfolding without_dots
Among-listing p s d name h = Among-listed p s (names_in (s.node_at d).kind) name h

pub listing-Among :
    (p : Process) (s : Store) (d : ℕ) (name : Text) {c : ℕ}
    → is_dots name ≡ false
    → lookup_in s d name ≡ some c
    → Among name (without_dots (listing p d s))
unfolding without_dots
listing-Among p s d name plain found =
    listed-Among p s (names_in (s.node_at d).kind) name plain found
