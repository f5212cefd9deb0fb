-- ===== src/Migrate/Sweep/Locking.antt =====
-- Locking a directory down changes its owner and mode alone.
use gnosis_vpn_toolkit.Prelude.{
  ℕ, Bool, true, false, not, ◌≡◌, refl, sym, ◌∙◌, ap, subst, ◌⊎◌, inl, inr, arith, Bool-cases, ok,
  ◌==◌, ==_iff,
}
use gnosis_vpn_toolkit.Prelude.Text.{Text, starts_with}
use gnosis_vpn_toolkit.Migrate.Dirs.{lookup}
use gnosis_vpn_toolkit.Migrate.Layout.{dir_mode, legacy_config_dir}
use gnosis_vpn_toolkit.Migrate.Store.{
  Node, Store, Process, Io, pure, ◌>>◌, lookup_in, is_directory, names_in, set_node,
}
use gnosis_vpn_toolkit.Migrate.Store.Calls.{
  change_mode, change_owner, status_at, open_directory, give_to, owned,
}
use gnosis_vpn_toolkit.Migrate.Store.Triples.{
  Triple, Triple-pure, Triple-if, Triple-bind, Triple-syscall, Triple-weaken,
}
use gnosis_vpn_toolkit.Migrate.Store.Steady.{
  Leads, StatusOf, open_directory-Triple, status_at-Triple,
}
use gnosis_vpn_toolkit.Migrate.Nofollow.Owners.{Handed}
use gnosis_vpn_toolkit.Migrate.Sweep.{lock_down, lock_if_dir, lock_config_dir}

-- What a node holds and its links stay, and its owner stays or is the process.
abbrev pub Swept : Process → Node → Node → Type 0
Swept p n n' = (n'.kind ≡ n.kind) × (n'.nlink ≡ n.nlink) × ((n'.uid ≡ n.uid) ⊎ (n'.uid ≡ p.euid))

pub Swept-trans : (p : Process) (n n' n'' : Node) → Swept p n n' → Swept p n' n'' → Swept p n n''
Swept-trans p n n' n'' (k, l, inl u) (k', l', inl u') = (k' ∙ k, l' ∙ l, inl (u' ∙ u))
Swept-trans p n n' n'' (k, l, inr u) (k', l', inl u') = (k' ∙ k, l' ∙ l, inr (u' ∙ u))
Swept-trans p n n' n'' (k, l, u) (k', l', inr u') = (k' ∙ k, l' ∙ l, inr u')

pub Handed-Swept : (p : Process) (from : ℕ) (n n' : Node) → Handed p from n n' → Swept p n n'
Handed-Swept p from n n' (inl e) =
    (ap (λ m. m.kind) e, ap (λ m. m.nlink) e, inl (ap (λ m. m.uid) e))
Handed-Swept p from n n' (inr (_, _, e)) =
    (ap (λ m. m.kind) e, ap (λ m. m.nlink) e, inr (ap (λ m. m.uid) e))

module _ (p : Process) (start : Store) where
  abbrev pub Clean : Store → Type 0
  Clean s = (j : ℕ) → Swept p (start.node_at j) (s.node_at j)

  abbrev pub NoEnd : Store → Type 0
  NoEnd s = ⊥

  abbrev pub Keeps : {A : Type 0} → Io A → Type 0
  Keeps m = Triple Clean NoEnd Clean m (λ _ s. Clean s)

  Clean-set :
      (i : ℕ) (n : Node) (s : Store) → Clean s → Swept p (s.node_at i) n → Clean (set_node i n s)
  Clean-set i n s h swept j = elim (Bool-cases (j == i)) [
    | inl same ↦
        let e = (==_iff j i).0 same in
        rw same (
          Swept-trans p (start.node_at j) (s.node_at j) n (h j)
            (subst (λ k. Swept p (s.node_at k) n) (sym e) swept))
    | inr other ↦ rw other (h j)
  ]

  lock_down-Keeps : (dir : ℕ) → Keeps (lock_down p dir)
  unfolding lock_down change_owner change_mode
  lock_down-Keeps dir =
      Triple-bind Clean NoEnd Clean (λ _ s. Clean s) (λ _ s. Clean s)
        (change_owner dir p.euid p.egid) (λ _. change_mode dir dir_mode)
        (Triple-syscall Clean NoEnd Clean (λ _ s. Clean s) (give_to p.euid p.egid dir) (λ s h. h)
          (λ s a s' h ends.
            let e : set_node dir (owned p.euid p.egid (s.node_at dir)) s ≡ s' = ground arith in
            subst Clean e
              (Clean-set dir (owned p.euid p.egid (s.node_at dir)) s h (refl, refl, inr refl))))
        (λ _.
          Triple-syscall Clean NoEnd Clean (λ _ s. Clean s)
            (λ s. ok (tt, set_node dir (record (s.node_at dir) { mode = dir_mode }) s)) (λ s h. h)
            (λ s a s' h ends.
              let e : set_node dir (record (s.node_at dir) { mode = dir_mode }) s ≡ s' =
                ground arith in
              subst Clean e (
                Clean-set dir (record (s.node_at dir) { mode = dir_mode }) s h
                  (refl, refl, inl refl))))

  lock_if_dir-Keeps : (home : ℕ) (name : Text) (b : Bool) → Keeps (lock_if_dir p home name b)
  unfolding lock_if_dir
  lock_if_dir-Keeps home name false =
      Triple-pure Clean NoEnd Clean (λ _ s. Clean s) false (λ s h. h)
  lock_if_dir-Keeps home name true =
      Triple-bind Clean NoEnd Clean
        (λ c s. Leads Clean NoEnd Clean (λ s h. h) home name c s × Clean s) (λ _ s. Clean s)
        (open_directory home name) (λ dir. lock_down p dir >> pure true)
        (open_directory-Triple Clean NoEnd Clean (λ s h. h) home name)
        (λ dir.
          Triple-bind Clean NoEnd
            (λ s. Leads Clean NoEnd Clean (λ s h. h) home name dir s × Clean s) (λ _ s. Clean s)
            (λ _ s. Clean s) (lock_down p dir) (λ _. pure true)
            (Triple-weaken Clean NoEnd Clean
              (λ s. Leads Clean NoEnd Clean (λ s h. h) home name dir s × Clean s) (λ _ s. Clean s)
              (λ _ s. Clean s) (lock_down p dir) (λ s h. h.1) (λ a s h. h) (lock_down-Keeps dir))
            (λ _. Triple-pure Clean NoEnd Clean (λ _ s. Clean s) true (λ s h. h)))

  pub lock_config_dir-Keeps : (home : ℕ) (name : Text) → Keeps (lock_config_dir p home name)
  unfolding lock_config_dir
  lock_config_dir-Keeps home name =
      Triple-if Clean NoEnd Clean (λ _ s. Clean s) (not (starts_with name legacy_config_dir))
        (pure false) _ (λ e. Triple-pure Clean NoEnd Clean (λ _ s. Clean s) false (λ s h. h))
        (λ e.
          Triple-bind Clean NoEnd Clean
            (λ stat s. StatusOf Clean NoEnd Clean (λ s h. h) home name stat s × Clean s)
            (λ _ s. Clean s) (status_at home name)
            (λ stat. lock_if_dir p home name (is_directory stat.kind))
            (status_at-Triple Clean NoEnd Clean (λ s h. h) home name)
            (λ stat.
              Triple-weaken Clean NoEnd Clean
                (λ s. StatusOf Clean NoEnd Clean (λ s h. h) home name stat s × Clean s)
                (λ _ s. Clean s) (λ _ s. Clean s) _ (λ s h. h.1) (λ a s h. h)
                (lock_if_dir-Keeps home name (is_directory stat.kind))))

  pub Clean-lookup :
      (s : Store) → Clean s → (d : ℕ) (name : Text) → lookup_in s d name ≡ lookup_in start d name
  Clean-lookup s h d name = ap (λ k. lookup name (names_in k)) (h d).0
