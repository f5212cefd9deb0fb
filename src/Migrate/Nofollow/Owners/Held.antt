-- ===== src/Migrate/Nofollow/Owners/Held.antt =====
-- Handing over an opened directory and what lies below its names.
use gnosis_vpn_toolkit.Prelude.{
  ℕ, ◌+◌, true, some, List, [], ◌∷◌, ◌≡◌, ◌≢◌, refl, sym, ◌∙◌, subst, inl, inr,
}
use gnosis_vpn_toolkit.Prelude.Text.{Text}
use gnosis_vpn_toolkit.Migrate.Store.{Store, Process, Io, ◌>>=◌, lookup_in, is_directory}
use gnosis_vpn_toolkit.Migrate.Store.Calls.{status, open_directory}
use gnosis_vpn_toolkit.Migrate.Store.Triples.{Triple-pure, Triple-bind, Triple-weaken, Triple-fact}
use gnosis_vpn_toolkit.Migrate.Nofollow.{entries, reown_dir, sum_over, reown_held}
use gnosis_vpn_toolkit.Migrate.Nofollow.Reach.{self, inside, Under, Among}
use gnosis_vpn_toolkit.Migrate.Nofollow.Owners.{Also, Progress-narrow}
use gnosis_vpn_toolkit.Migrate.Nofollow.Owners.Listing.{
  At, Lists, open_directory-Step, status-Step, entries-Step,
}
use gnosis_vpn_toolkit.Migrate.Nofollow.Owners.Entry.{Stopped, Never, Step, reown_dir-Step}

module _ (p : Process) (from : ℕ) (apart : from ≢ p.euid) (start : Store) where
  -- What lies below the names of a list.
  abbrev Within : ℕ → List Text → ℕ → Type 0
  Within d names j = (name : Text) × Among name names × Under start d name j

  split_names :
      (C : ℕ → Type 0) (d : ℕ) (name : Text) (names : List Text) (j : ℕ)
      → Also C (Within d (name ∷ names)) j
      → Also (Also C (Under start d name)) (Within d names) j
  split_names C d name names j (inl old) = inl (inl old)
  split_names C d name names j (inr (other, inl e, under)) =
      inl (inr (subst (λ t. Under start d t j) (sym e) under))
  split_names C d name names j (inr (other, inr later, under)) = inr (other, later, under)

  -- The loop over the names: what lies below each of them.
  sum_over-Step :
      (act : Text → Io ℕ) (d : ℕ) (names : List Text) (C : ℕ → Type 0) (n : ℕ)
      → ((D : ℕ → Type 0) (name : Text)
          → Among name names
          → Step p from apart start
              (At p from apart start D)
              (act name)
              (λ _ s. At p from apart start (Also D (Under start d name)) s))
      → Step p from apart start
          (At p from apart start C)
          (sum_over act n names)
          (λ _ s. At p from apart start (Also C (Within d names)) s)
  unfolding sum_over
  sum_over-Step act d [] C n deeper =
      Triple-pure (Stopped p from apart start) (Never p from apart start) (At p from apart start C)
        (λ _ s. At p from apart start (Also C (Within d [])) s) n
        (λ s h.
          Progress-narrow p from apart start (Also C (Within d []))
            (λ j c. elim c [ inl old ↦ old | inr (name, none_there, _) ↦ elim none_there [ ] ]) h)
  sum_over-Step act d (name ∷ names) C n deeper =
      Triple-bind (Stopped p from apart start) (Never p from apart start) (At p from apart start C)
        (λ _ s. At p from apart start (Also C (Under start d name)) s)
        (λ _ s. At p from apart start (Also C (Within d (name ∷ names))) s) (act name)
        (λ more. sum_over act (n + more) names) (deeper C name (inl refl))
        (λ more.
          Triple-weaken (Stopped p from apart start) (Never p from apart start)
            (At p from apart start (Also C (Under start d name)))
            (At p from apart start (Also C (Under start d name)))
            (λ _ s. At p from apart start (Also (Also C (Under start d name)) (Within d names)) s)
            (λ _ s. At p from apart start (Also C (Within d (name ∷ names))) s)
            (sum_over act (n + more) names) (λ s h. h)
            (λ a s h.
              Progress-narrow p from apart start (Also C (Within d (name ∷ names)))
                (split_names C d name names) h)
            (sum_over-Step act d names (Also C (Under start d name)) (n + more)
              (λ D other among. deeper D other (inr among))))

  module _ (d c : ℕ) (name : Text) (act : Text → Io ℕ) (there : lookup_in start d name ≡ some c)
      (dir : is_directory (start.node_at c).kind ≡ true)
      (deeper : (D : ℕ → Type 0) (child : Text) (i : ℕ)
        → lookup_in start c child ≡ some i
        → Step p from apart start
            (At p from apart start D)
            (act child)
            (λ _ s. At p from apart start (Also D (Under start c child)) s))
      (C : ℕ → Type 0) where
    abbrev Done : ℕ → Store → Type 0
    Done _ s = At p from apart start (Also C (Under start d name)) s

    -- The directory itself, and then what lies below its names.
    parts :
        (names : List Text)
        → Lists p from apart start c names
        → (j : ℕ) → Also C (Under start d name) j
        → Also (Also C (λ j. c ≡ j)) (Within c names) j
    parts names lists j (inl old) = inl (inl old)
    parts names lists j (inr (i, found, self e)) = inl (inr (cc (sym there ∙ found) ∙ e))
    parts names lists j (inr (i, found, inside {c = k} child plain at below)) =
        let e : i ≡ c = cc (sym found ∙ there) in
        let at' = subst (λ t. lookup_in start t child ≡ some k) e at in
        inr (child, lists.1 child k plain at', (k, at', below))

    children-Step :
        (n : ℕ)
        → Step p from apart start
            (At p from apart start (Also C (λ j. c ≡ j)))
            (entries p c >>= λ children. sum_over act n children)
            Done
    children-Step n =
        Triple-bind (Stopped p from apart start) (Never p from apart start)
          (At p from apart start (Also C (λ j. c ≡ j)))
          (λ names s.
            Lists p from apart start c names × At p from apart start (Also C (λ j. c ≡ j)) s)
          Done (entries p c) (λ children. sum_over act n children)
          (entries-Step p from apart start (Also C (λ j. c ≡ j)) c)
          (λ names.
            Triple-fact (Stopped p from apart start) (Never p from apart start)
              (Lists p from apart start c names) (At p from apart start (Also C (λ j. c ≡ j))) Done
              (sum_over act n names)
              (λ lists.
                Triple-weaken (Stopped p from apart start) (Never p from apart start)
                  (At p from apart start (Also C (λ j. c ≡ j)))
                  (At p from apart start (Also C (λ j. c ≡ j)))
                  (λ _ s. At p from apart start (Also (Also C (λ j. c ≡ j)) (Within c names)) s)
                  Done (sum_over act n names) (λ s h. h)
                  (λ a s h.
                    Progress-narrow p from apart start (Also C (Under start d name))
                      (parts names lists) h)
                  (sum_over-Step act c names (Also C (λ j. c ≡ j)) n (λ D child among.
                    let (i, found) = lists.0 child among in deeper D child i found))))

    held_dir-Step :
        Step p from apart start
          (At p from apart start C)
          (status c >>= λ held.
            reown_dir p c held from >>= λ n. entries p c >>= λ children. sum_over act n children)
          Done
    held_dir-Step =
        Triple-bind (Stopped p from apart start) (Never p from apart start)
          (At p from apart start C) (λ n s. (n ≡ s.node_at c) × At p from apart start C s) Done
          (status c)
          (λ held.
            reown_dir p c held from >>= λ n. entries p c >>= λ children. sum_over act n children)
          (status-Step p from apart start C c)
          (λ held.
            Triple-bind (Stopped p from apart start) (Never p from apart start)
              (λ s. (held ≡ s.node_at c) × At p from apart start C s)
              (λ _ s. At p from apart start (Also C (λ j. c ≡ j)) s) Done (reown_dir p c held from)
              (λ n. entries p c >>= λ children. sum_over act n children)
              (reown_dir-Step p from apart start C d name c there held dir) children-Step)

  pub reown_held-Step :
      (C : ℕ → Type 0) (d : ℕ) (name : Text) (c : ℕ) (act : ℕ → Text → Io ℕ)
      → lookup_in start d name ≡ some c
      → is_directory (start.node_at c).kind ≡ true
      → ((D : ℕ → Type 0) (child : Text) (i : ℕ)
          → lookup_in start c child ≡ some i
          → Step p from apart start
              (At p from apart start D)
              (act c child)
              (λ _ s. At p from apart start (Also D (Under start c child)) s))
      → Step p from apart start
          (At p from apart start C)
          (reown_held p d name from act)
          (λ _ s. At p from apart start (Also C (Under start d name)) s)
  unfolding reown_held
  reown_held-Step C d name c act there dir deeper =
      Triple-bind (Stopped p from apart start) (Never p from apart start) (At p from apart start C)
        (λ i s. (lookup_in start d name ≡ some i) × At p from apart start C s)
        (λ _ s. At p from apart start (Also C (Under start d name)) s) (open_directory d name)
        (λ i. status i >>= λ held.
          reown_dir p i held from >>= λ n. entries p i >>= λ children. sum_over (act i) n children)
        (open_directory-Step p from apart start C d name)
        (λ i.
          Triple-fact (Stopped p from apart start) (Never p from apart start)
            (lookup_in start d name ≡ some i) (At p from apart start C)
            (λ _ s. At p from apart start (Also C (Under start d name)) s)
            (status i >>= λ held. reown_dir p i held from >>= λ n.
              entries p i >>= λ children. sum_over (act i) n children)
            (λ found.
              let e : c ≡ i = cc (sym there ∙ found) in
              subst
                (λ k.
                  Step p from apart start (At p from apart start C)
                    (status k >>= λ held. reown_dir p k held from >>= λ n.
                      entries p k >>= λ children. sum_over (act k) n children)
                    (λ _ s. At p from apart start (Also C (Under start d name)) s))
                e (held_dir-Step d c name (act c) there dir deeper C)))
