-- ===== src/Migrate/Nofollow/Owners.antt =====
-- What `reown_tree` does to the owners of nodes: the state between its steps, and one entry.
pub mod Entry
pub mod Listing
pub mod Held
pub mod Tree
use gnosis_vpn_toolkit.Prelude.{
  ℕ, Bool, true, false, ◌≡◌, ◌≢◌, refl, sym, ◌∙◌, ap, subst, ◌⊎◌, inl, inr, arith, some-injective,
  ◌==◌, if◌then◌else◌, Bool-cases, ==_iff,
}
use gnosis_vpn_toolkit.Prelude.Text.{Text}
use gnosis_vpn_toolkit.Migrate.Dirs.{lookup}
use gnosis_vpn_toolkit.Migrate.Store.{
  Node, Store, Process, lookup_in, is_directory, names_in, set_node,
}
use gnosis_vpn_toolkit.Migrate.Store.Calls.{owned}

-- Only a directory, or a node of one name, changes its owner.
abbrev pub MayChange : Node → Type 0
MayChange n = (is_directory n.kind ≡ true) ⊎ (n.nlink ≡ 1)

-- Only the owner changes, from the given account to the process's.
abbrev pub Handed : Process → ℕ → Node → Node → Type 0
Handed p from n n' = (n' ≡ n) ⊎ ((n.uid ≡ from) × MayChange n × (n' ≡ owned p.euid p.egid n))

-- Every node is as it was at the start or has been handed over; of those in `C`, the ones that may
-- change no longer belong to the account.
pub record Progress (p : Process) (from : ℕ) (start : Store) (C : ℕ → Type 0) (s : Store)
    : Type 0 where
  pub changed : (j : ℕ) → Handed p from (start.node_at j) (s.node_at j)
  pub clean : (j : ℕ) → C j → MayChange (start.node_at j) → (s.node_at j).uid ≢ from

abbrev pub Also : (ℕ → Type 0) → (ℕ → Type 0) → ℕ → Type 0
Also C D j = C j ⊎ D j

module _ (p : Process) (from : ℕ) (apart : from ≢ p.euid) (start : Store) where
  -- What is being handed over has not been before.
  pub Handed-owned :
      (n n' : Node)
      → Handed p from n n'
      → n'.uid ≡ from
      → MayChange n
      → Handed p from n (owned p.euid p.egid n')
  Handed-owned n n' (inl e) uid may =
      inr (subst (λ m. m.uid ≡ from) e uid, may, ap (owned p.euid p.egid) e)
  Handed-owned n n' (inr (_, _, e)) uid may = absurd (apart (sym uid ∙ ap (λ m. m.uid) e))

  pub Handed-kind : (n n' : Node) → Handed p from n n' → n'.kind ≡ n.kind
  Handed-kind n n' (inl e) = ap (λ m. m.kind) e
  Handed-kind n n' (inr (_, _, e)) = ap (λ m. m.kind) e

  pub Handed-nlink : (n n' : Node) → Handed p from n n' → n'.nlink ≡ n.nlink
  Handed-nlink n n' (inl e) = ap (λ m. m.nlink) e
  Handed-nlink n n' (inr (_, _, e)) = ap (λ m. m.nlink) e

  -- The names stay.
  pub Progress-lookup :
      {C : ℕ → Type 0} {s : Store}
      → Progress p from start C s
      → (d : ℕ) (name : Text) → lookup_in s d name ≡ lookup_in start d name
  Progress-lookup {C} {s} h d name =
      ap (λ k. lookup name (names_in k)) (Handed-kind (start.node_at d) (s.node_at d) (h.changed d))

  pub Progress-kind :
      {C : ℕ → Type 0} {s : Store}
      → Progress p from start C s
      → (d : ℕ) → (s.node_at d).kind ≡ (start.node_at d).kind
  Progress-kind {C} {s} h d = Handed-kind (start.node_at d) (s.node_at d) (h.changed d)

  -- More is known to be clean.
  pub Progress-also :
      {C : ℕ → Type 0} {s : Store} (D : ℕ → Type 0)
      → Progress p from start C s
      → ((j : ℕ) → D j → MayChange (start.node_at j) → (s.node_at j).uid ≢ from)
      → Progress p from start (Also C D) s
  Progress-also {C} {s} D h more = record {
    changed = h.changed;
    clean = λ j c. elim c [ inl old ↦ h.clean j old | inr new ↦ more j new ];
  }

  -- A node that is handed over is clean.
  pub Progress-give :
      {C : ℕ → Type 0} {s : Store} (i : ℕ)
      → Progress p from start C s
      → (s.node_at i).uid ≡ from
      → MayChange (start.node_at i)
      → Progress p from start
          (Also C (λ j. i ≡ j))
          (set_node i (owned p.euid p.egid (s.node_at i)) s)
  Progress-give {C} {s} i h uid may = record {
    changed = λ j. elim (Bool-cases (j == i)) [
      | inl same ↦
          let e : j ≡ i = (==_iff j i).0 same in
          rw same (
            subst (λ k. Handed p from (start.node_at k) (owned p.euid p.egid (s.node_at i))) (sym e)
              (Handed-owned (start.node_at i) (s.node_at i) (h.changed i) uid may))
      | inr other ↦ rw other (h.changed j)
    ];
    clean = λ j c m. elim (Bool-cases (j == i)) [
      | inl same ↦ rw same (λ e. apart (sym e))
      | inr other ↦
          rw other (elim c [ inl old ↦ h.clean j old m | inr new ↦ absurd (ground arith) ])
    ];
  }

  -- Less is claimed to be clean.
  pub Progress-narrow :
      {C : ℕ → Type 0} {s : Store} (D : ℕ → Type 0)
      → ((j : ℕ) → D j → C j)
      → Progress p from start C s
      → Progress p from start D s
  Progress-narrow {C} {s} D within h = record {
    changed = h.changed;
    clean = λ j d. h.clean j (within j d);
  }
