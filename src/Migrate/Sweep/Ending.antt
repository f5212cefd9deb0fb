-- ===== src/Migrate/Sweep/Ending.antt =====
-- The sweep of the legacy home ends, and touches owners and modes alone.
use gnosis_vpn_toolkit.Prelude.{
  ℕ, ◌<◌, ◌≤◌, List, [], ◌∷◌, ◌++◌, ◌≡◌, ◌≢◌, refl, sym, ◌∙◌, inl, arith, Result, ok, err, ◌==◌,
  ==_iff,
}
use gnosis_vpn_toolkit.Prelude.Text.{Text}
use gnosis_vpn_toolkit.Migrate.Store.{
  IoError, Store, World, Process, Answer, done, failed, unfinished, Io, pure, attempt,
}
use gnosis_vpn_toolkit.Migrate.Store.Calls.{read_directory, listing}
use gnosis_vpn_toolkit.Migrate.Store.Triples.{
  Meets, Triple, Triple-pure, Triple-if, Triple-bind, Triple-weaken, Triple-attempt, Either,
}
use gnosis_vpn_toolkit.Migrate.Store.Steady.{read_directory-Triple}
use gnosis_vpn_toolkit.Migrate.Nofollow.{entries, without_dots, reown_tree}
use gnosis_vpn_toolkit.Migrate.Nofollow.Reach.{Ranked}
use gnosis_vpn_toolkit.Migrate.Nofollow.Owners.Tree.{HandedOver, reown_tree-HandedOver}
use gnosis_vpn_toolkit.Migrate.Sweep.{
  lock_config_dir, secure_entry, secured_path, secure_each, secure_listed, secure_leftovers,
}
use gnosis_vpn_toolkit.Migrate.Sweep.Locking.{
  Swept, Swept-trans, Handed-Swept, Clean, NoEnd, Keeps, lock_config_dir-Keeps, Clean-lookup,
}

module _ (p : Process) (start : Store) where
  module _ (rank : ℕ → ℕ) (ranked : Ranked start rank) (rounds home : ℕ) (some_round : 0 < rounds)
      (enough : rank home ≤ rounds) where
    handed_over :
        (from : ℕ) (s : Store) (name : Text) (r : Answer ℕ × World)
        → Clean p start s
        → HandedOver p from s home name r
        → Meets (λ _ t. Clean p start t) (Clean p start) (NoEnd p start) r
    handed_over from s name (done n, w) h (changed, _) = λ j.
        Swept-trans p (start.node_at j) (s.node_at j) (w.store.node_at j) (h j)
          (Handed-Swept p from (s.node_at j) (w.store.node_at j) (changed j))
    handed_over from s name (failed e, w) h changed = λ j.
        Swept-trans p (start.node_at j) (s.node_at j) (w.store.node_at j) (h j)
          (Handed-Swept p from (s.node_at j) (w.store.node_at j) (changed j))
    handed_over from s name (unfinished, w) h never = never

    reown_tree-Keeps :
        (from : ℕ) (name : Text)
        → from ≢ p.euid
        → Keeps p start (reown_tree p rounds home name from)
    reown_tree-Keeps from name apart = record {
      at = λ w h. handed_over from w.store name (reown_tree p rounds home name from w) h (
          reown_tree-HandedOver p from rank rounds home name w apart
            (λ d n c found. ranked d n c (sym (Clean-lookup p start w.store h d n) ∙ found))
            some_round
            (λ c found.
              let lower =
                ranked home name c (sym (Clean-lookup p start w.store h home name) ∙ found) in
              omega arith));
    }

    secure_entry-Keeps :
        (name : Text) (legacy_uid : ℕ)
        → p.euid ≡ 0
        → Keeps p start (secure_entry p rounds home name legacy_uid)
    unfolding secure_entry
    secure_entry-Keeps name legacy_uid root =
        Triple-bind (Clean p start) (NoEnd p start) (Clean p start) (λ _ s. Clean p start s)
          (λ _ s. Clean p start s) (lock_config_dir p home name) _
          (lock_config_dir-Keeps p start home name)
          (λ locked.
            Triple-if (Clean p start) (NoEnd p start) (Clean p start) (λ _ s. Clean p start s)
              (legacy_uid == 0) (pure (locked, 0)) _
              (λ e.
                Triple-pure (Clean p start) (NoEnd p start) (Clean p start) (λ _ s. Clean p start s)
                  (locked, 0) (λ s h. h))
              (λ e.
                Triple-bind (Clean p start) (NoEnd p start) (Clean p start) (λ _ s. Clean p start s)
                  (λ _ s. Clean p start s) (reown_tree p rounds home name legacy_uid)
                  (λ reowned. pure (locked, reowned))
                  (reown_tree-Keeps legacy_uid name
                    (λ same. cc ((==_iff legacy_uid 0).1 (same ∙ root), e)))
                  (λ reowned.
                    Triple-pure (Clean p start) (NoEnd p start) (Clean p start)
                      (λ _ s. Clean p start s) (locked, reowned) (λ s h. h))))

    -- No error gets out.
    abbrev Calm : {A : Type 0} → Io A → Type 0
    Calm m = Triple (NoEnd p start) (NoEnd p start) (Clean p start) m (λ _ s. Clean p start s)

    attempt-Calm : {A : Type 0} (m : Io A) → Keeps p start m → Calm (attempt m)
    attempt-Calm {A} m keeps =
        Triple-weaken (NoEnd p start) (NoEnd p start) (Clean p start) (Clean p start)
          (Either (NoEnd p start) (NoEnd p start) (λ _ s. Clean p start s) (Clean p start))
          (λ _ s. Clean p start s) (attempt m) (λ s h. h) (λ r s h. either r s h)
          (Triple-attempt (NoEnd p start) (Clean p start) (NoEnd p start) (Clean p start)
            (λ _ s. Clean p start s) m keeps)
      where
        either :
            (r : Result IoError A) (s : Store)
            → Either (NoEnd p start) (NoEnd p start) (λ _ s. Clean p start s) (Clean p start) r s
            → Clean p start s
        either (ok a) s h = h
        either (err e) s h = h

    secure_each-Calm :
        (home_path : Text) (legacy_uid : ℕ) (names secured : List Text)
        → p.euid ≡ 0
        → Calm (secure_each p rounds home home_path legacy_uid names secured)
    unfolding secure_each
    secure_each-Calm home_path legacy_uid [] secured root =
        Triple-pure (NoEnd p start) (NoEnd p start) (Clean p start) (λ _ s. Clean p start s) secured
          (λ s h. h)
    secure_each-Calm home_path legacy_uid (name ∷ names) secured root =
        Triple-bind (NoEnd p start) (NoEnd p start) (Clean p start) (λ _ s. Clean p start s)
          (λ _ s. Clean p start s) (attempt (secure_entry p rounds home name legacy_uid))
          (λ result.
            secure_each p rounds home home_path legacy_uid names
              (secured ++ secured_path home_path name result))
          (attempt-Calm (secure_entry p rounds home name legacy_uid)
            (secure_entry-Keeps name legacy_uid root))
          (λ result.
            secure_each-Calm home_path legacy_uid names
              (secured ++ secured_path home_path name result) root)

    entries-Keeps : Keeps p start (entries p home)
    unfolding entries
    entries-Keeps =
        Triple-bind (Clean p start) (NoEnd p start) (Clean p start)
          (λ names s. (names ≡ listing p home s) × Clean p start s) (λ _ s. Clean p start s)
          (read_directory p home) (λ names. pure (without_dots names))
          (read_directory-Triple (Clean p start) (NoEnd p start) (Clean p start) (λ s h. h) p home)
          (λ names.
            Triple-pure (Clean p start) (NoEnd p start)
              (λ s. (names ≡ listing p home s) × Clean p start s) (λ _ s. Clean p start s)
              (without_dots names) (λ s h. h.1))

    secure_listed-Calm :
        (home_path : Text) (legacy_uid : ℕ) (r : Result IoError (List Text))
        → p.euid ≡ 0
        → Calm (secure_listed p rounds home home_path legacy_uid r)
    unfolding secure_listed
    secure_listed-Calm home_path legacy_uid (err e) root =
        Triple-pure (NoEnd p start) (NoEnd p start) (Clean p start) (λ _ s. Clean p start s) []
          (λ s h. h)
    secure_listed-Calm home_path legacy_uid (ok names) root =
        secure_each-Calm home_path legacy_uid names [] root

    secure_leftovers-Calm :
        (home_path : Text) (legacy_uid : ℕ)
        → p.euid ≡ 0
        → Calm (secure_leftovers p rounds home home_path legacy_uid)
    unfolding secure_leftovers
    secure_leftovers-Calm home_path legacy_uid root =
        Triple-bind (NoEnd p start) (NoEnd p start) (Clean p start) (λ _ s. Clean p start s)
          (λ _ s. Clean p start s) (attempt (entries p home))
          (secure_listed p rounds home home_path legacy_uid)
          (attempt-Calm (entries p home) entries-Keeps)
          (λ r. secure_listed-Calm home_path legacy_uid r root)

-- The only end of a call: it returns.
abbrev pub SweepEnds : Process → Store → Answer (List Text) × World → Type 0
SweepEnds p start (done paths, w) = (j : ℕ) → Swept p (start.node_at j) (w.store.node_at j)
SweepEnds p start (failed e, w) = ⊥
SweepEnds p start (unfinished, w) = ⊥

Meets-SweepEnds :
    (p : Process) (start : Store) (r : Answer (List Text) × World)
    → Meets (λ _ s. (j : ℕ) → Swept p (start.node_at j) (s.node_at j)) (λ s. ⊥) (λ s. ⊥) r
    → SweepEnds p start r
Meets-SweepEnds p start (done paths, w) h = h
Meets-SweepEnds p start (failed e, w) h = h
Meets-SweepEnds p start (unfinished, w) h = h

-- The sweep of the legacy home by root always returns, whatever calls the kernel refuses. No node's
-- contents, names or number of links change, and its owner stays or becomes root. The names lead from
-- a node to one of smaller rank, and there are as many rounds, and not none, as the home's rank.
pub secure_leftovers-Ends :
    (p : Process) (rank : ℕ → ℕ) (rounds home : ℕ) (home_path : Text) (legacy_uid : ℕ) (w : World)
    → p.euid ≡ 0
    → Ranked w.store rank
    → 0 < rounds
    → rank home ≤ rounds
    → SweepEnds p w.store (secure_leftovers p rounds home home_path legacy_uid w)
secure_leftovers-Ends p rank rounds home home_path legacy_uid w root ranked some_round enough =
    Meets-SweepEnds p w.store (secure_leftovers p rounds home home_path legacy_uid w) (
      (secure_leftovers-Calm p w.store rank ranked rounds home some_round enough home_path
          legacy_uid root).at
        w (λ j. (refl, refl, inl refl)))
