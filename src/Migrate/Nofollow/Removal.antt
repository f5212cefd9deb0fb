-- ===== src/Migrate/Nofollow/Removal.antt =====
-- What removing a tree leaves: the state between the steps.
pub mod Contents
pub mod Whole
use gnosis_vpn_toolkit.Prelude.{
  ℕ, ◌-◌, Bool, true, false, Option, none, some, List, [], ◌∷◌, ◌≡◌, refl, sym, ◌∙◌, ap, subst, ◌⊎◌,
  inl, inr, arith, ◌==◌, ==_iff, if◌then◌else◌, Bool-cases,
}
use gnosis_vpn_toolkit.Prelude.Text.{Text, text_eq, text_eq_iff}
use gnosis_vpn_toolkit.Migrate.Dirs.{Dir, lookup, delete}
use gnosis_vpn_toolkit.Migrate.Dirs.Names.{lookup-delete_same, lookup-delete_other}
use gnosis_vpn_toolkit.Migrate.Nofollow.{is_dots}
use gnosis_vpn_toolkit.Migrate.Store.{
  Node, Store, lookup_in, is_directory, names_in, set_node, set_entries,
}
use gnosis_vpn_toolkit.Migrate.Store.Calls.{take_name, drop_link}

-- Only nodes of a region have changed, and names have only been taken away.
pub record Shrunk (start : Store) (R : ℕ → Type 0) (s : Store) : Type 0 where
  pub outside : (j : ℕ) → R j ⊎ (s.node_at j ≡ start.node_at j)
  pub fewer :
      (d : ℕ) (name : Text) (c : ℕ) → lookup_in s d name ≡ some c → lookup_in start d name ≡ some c

-- A region that has what its directories name.
abbrev pub Closed : Store → (ℕ → Type 0) → Type 0
Closed start R =
    (d : ℕ) (name : Text) (c : ℕ)
    → R d
    → is_dots name ≡ false
    → lookup_in start d name ≡ some c
    → R c

lookup-delete-some :
    (x name : Text) (d : Dir) {c : ℕ} → lookup x (delete name d) ≡ some c → lookup x d ≡ some c
lookup-delete-some x name d {c} h = elim (Bool-cases (text_eq x name)) [
  | inl same ↦
      let e = (text_eq_iff x name).0 same in
      let gone = subst (λ t. lookup t (delete name d) ≡ none) (sym e) (lookup-delete_same name d) in
      cc (h, gone)
  | inr other ↦ sym (lookup-delete_other x name d (λ e. cc ((text_eq_iff x name).1 e, other))) ∙ h
]

module _ (start : Store) (R : ℕ → Type 0) {s : Store} (h : Shrunk start R s) where
  -- A node of the region changes without new names.
  pub Shrunk-set :
      (i : ℕ) (n : Node)
      → R i
      → ((name : Text) (c : ℕ)
          → lookup name (names_in n.kind) ≡ some c
          → lookup_in s i name ≡ some c)
      → Shrunk start R (set_node i n s)
  Shrunk-set i n within less = record {
    outside = λ j. elim (Bool-cases (j == i)) [
      | inl same ↦ inl (subst R (sym ((==_iff j i).0 same)) within)
      | inr other ↦ rw other (h.outside j)
    ];
    fewer = λ d name c found. elim (Bool-cases (d == i)) [
      | inl same ↦
          let e = (==_iff d i).0 same in
          let here = less name c (rw same at found) in
          subst (λ k. lookup_in start k name ≡ some c) (sym e) (h.fewer i name c here)
      | inr other ↦ h.fewer d name c (rw other at found)
    ];
  }

  pub Shrunk-take_name : (d : ℕ) (name : Text) → R d → Shrunk start R (take_name d name s)
  Shrunk-take_name d name within =
      Shrunk-set d _ within
        (λ x c found. lookup-delete-some x name (names_in (s.node_at d).kind) found)

  pub Shrunk-drop_link : (i : ℕ) → R i → Shrunk start R (drop_link i s)
  Shrunk-drop_link i within = Shrunk-set i _ within (λ x c found. found)
