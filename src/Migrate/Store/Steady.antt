-- ===== src/Migrate/Store/Steady.antt =====
-- The calls that change nothing, and what their answers say.
use gnosis_vpn_toolkit.Prelude.{
  none, ◌⊎◌, inl, inr, Option-cases, ℕ, true, Option, some, List, ◌≡◌, sym, ◌∙◌, subst, arith, ok,
}
use gnosis_vpn_toolkit.Prelude.Text.{Text}
use gnosis_vpn_toolkit.Migrate.Store.{
  IoError, no_entry, other, World, done, failed, Node, Store, Process, lookup_in, is_directory,
}
use gnosis_vpn_toolkit.Migrate.Store.Calls.{
  entry, directory_handle, open_directory, status_at, listing, read_directory, synchronise,
  duplicate,
}
use gnosis_vpn_toolkit.Migrate.Store.Endings.{syscall-Called, entry-ok, open_as_directory-ok}
use gnosis_vpn_toolkit.Migrate.Store.Triples.{Triple, Triple-syscall}

module _ (E U P : Store → Type 0) (refused : (s : Store) → P s → E s) where
  -- The handle is that of the directory at the name.
  abbrev pub Leads : ℕ → Text → ℕ → Store → Type 0
  Leads d name c s = (lookup_in s d name ≡ some c) × (is_directory (s.node_at c).kind ≡ true)

  pub open_directory-Triple :
      (d : ℕ) (name : Text) → Triple E U P (open_directory d name) (λ c s. Leads d name c s × P s)
  unfolding open_directory
  open_directory-Triple d name =
      Triple-syscall E U P (λ c s. Leads d name c s × P s) (entry d name directory_handle) refused
        (λ s c s' h ends.
          let (i, found, same) = entry-ok d name directory_handle s ends in
          let (e, e', dir) = open_as_directory-ok (s.node_at i).kind i s same in
          subst (λ t. Leads d name c t × P t) e'
            (subst (λ k. Leads d name k s × P s) e ((found, dir), h)))

  -- The status is that of the node at the name.
  abbrev pub StatusOf : ℕ → Text → Node → Store → Type 0
  StatusOf d name stat s = (c : ℕ) × (lookup_in s d name ≡ some c) × (stat ≡ s.node_at c)

  pub status_at-Triple :
      (d : ℕ) (name : Text)
      → Triple E U P (status_at d name) (λ stat s. StatusOf d name stat s × P s)
  unfolding status_at
  status_at-Triple d name =
      Triple-syscall E U P (λ stat s. StatusOf d name stat s × P s)
        (entry d name (λ i s. ok (s.node_at i, s))) refused
        (λ s stat s' h ends.
          let (i, found, same) = entry-ok d name (λ i s. ok (s.node_at i, s)) s ends in
          let e : s.node_at i ≡ stat = ground arith in
          let e' : s ≡ s' = ground arith in
          subst (λ t. StatusOf d name stat t × P t) e' ((i, found, sym e), h))

  pub read_directory-Triple :
      (p : Process) (d : ℕ)
      → Triple E U P (read_directory p d) (λ names s. (names ≡ listing p d s) × P s)
  unfolding read_directory
  read_directory-Triple p d =
      Triple-syscall E U P (λ names s. (names ≡ listing p d s) × P s) (λ s. ok (listing p d s, s))
        refused
        (λ s names s' h ends.
          let e : listing p d s ≡ names = ground arith in
          let e' : s ≡ s' = ground arith in
          subst (λ t. (names ≡ listing p d t) × P t) e' (sym e, h))

  pub synchronise-Triple : (d : ℕ) → Triple E U P (synchronise d) (λ _ s. P s)
  unfolding synchronise
  synchronise-Triple d =
      Triple-syscall E U P (λ _ s. P s) (λ s. ok (tt, s)) refused
        (λ s a s' h ends. let e : s ≡ s' = ground arith in subst P e h)

  pub duplicate-Triple : (d : ℕ) → Triple E U P (duplicate d) (λ c s. (d ≡ c) × P s)
  unfolding duplicate
  duplicate-Triple d =
      Triple-syscall E U P (λ c s. (d ≡ c) × P s) (λ s. ok (d, s)) refused
        (λ s c s' h ends. let e : s ≡ s' = ground arith in (ground arith, subst P e h))

-- The end of a status, by what stands at the name.
pub status_at-Ends :
    (d : ℕ) (name : Text) (w : World)
    → ((c : ℕ) × (faults : List (Option Text)) × (lookup_in w.store d name ≡ some c)
        × (status_at d name w
            ≡ (done (w.store.node_at c), record { store = w.store; faults = faults })))
      ⊎ ((e : IoError) × (faults : List (Option Text)) × (((message : Text) × (e ≡ other message))
            ⊎ ((e ≡ no_entry) × (lookup_in w.store d name ≡ none)))
          × (status_at d name w ≡ (failed e, record { store = w.store; faults = faults })))
unfolding status_at entry
status_at-Ends d name w = elim (syscall-Called (entry d name (λ i s. ok (s.node_at i, s))) w) [
  | inl (e, faults, inl (m, why), r) ↦ inr (e, faults, inl (m, why), r)
  | inl (e, faults, inr why, r) ↦ elim (Option-cases (lookup_in w.store d name)) [
    | inl nothing ↦ inr (e, faults, inr (ground arith, nothing), r)
    | inr (c, found) ↦ absurd (ground arith)
  ]
  | inr (stat, s', faults, ends, r) ↦ elim (Option-cases (lookup_in w.store d name)) [
    | inl nothing ↦ absurd (ground arith)
    | inr (c, found) ↦
        let (i, found', same) = entry-ok d name (λ i s. ok (s.node_at i, s)) w.store ends in
        let here : i ≡ c = cc (sym found' ∙ found) in
        let e : stat ≡ w.store.node_at c =
          subst (λ k. stat ≡ w.store.node_at k) here (ground arith) in
        let e' : s' ≡ w.store = ground arith in
        inl (
          c,
          faults,
          found,
          subst (λ t. status_at d name w ≡ (done t, record { store = w.store; faults = faults })) e
              (subst (λ t. status_at d name w ≡ (done stat, record { store = t; faults = faults }))
                e' r),
        )
  ]
]
