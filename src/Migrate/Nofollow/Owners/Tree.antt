-- ===== src/Migrate/Nofollow/Owners/Tree.antt =====
-- Handing over a tree.
use gnosis_vpn_toolkit.Prelude.{
  ℕ, zero, suc, ◌<◌, true, false, not, some, ◌≡◌, ◌≢◌, refl, sym, ◌∙◌, ap, subst, inl, inr, arith,
  if◌then◌else◌,
}
use gnosis_vpn_toolkit.Prelude.Text.{Text}
use gnosis_vpn_toolkit.Migrate.Store.{
  Node, Store, World, Process, Io, Answer, done, failed, unfinished, lookup_in, is_directory,
}
use gnosis_vpn_toolkit.Migrate.Store.Calls.{status_at}
use gnosis_vpn_toolkit.Migrate.Store.Triples.{
  Meets, Triple-if, Triple-bind, Triple-weaken, Triple-from,
}
use gnosis_vpn_toolkit.Migrate.Nofollow.{reown_entry, reown_held, reown_tree}
use gnosis_vpn_toolkit.Migrate.Nofollow.Reach.{Under, Ranked}
use gnosis_vpn_toolkit.Migrate.Nofollow.Owners.{MayChange, Handed, Also, Progress-kind}
use gnosis_vpn_toolkit.Migrate.Nofollow.Owners.Listing.{At}
use gnosis_vpn_toolkit.Migrate.Nofollow.Owners.Entry.{
  Stopped, Never, Step, Seen, status_at-Step, reown_entry-Step,
}
use gnosis_vpn_toolkit.Migrate.Nofollow.Owners.Held.{reown_held-Step}

module _ (p : Process) (from : ℕ) (apart : from ≢ p.euid) (start : Store) where
  module _ (rank : ℕ → ℕ) (ranked : Ranked start rank) where
    -- What is done once the status is known.
    module _ (C : ℕ → Type 0) (d : ℕ) (name : Text) (c : ℕ)
        (there : lookup_in start d name ≡ some c) (stat : Node)
        (same : stat.kind ≡ (start.node_at c).kind) (act : ℕ → Text → Io ℕ)
        (deeper : is_directory (start.node_at c).kind ≡ true
          → (D : ℕ → Type 0) (child : Text) (i : ℕ) → lookup_in start c child ≡ some i
          → Step p from apart start
              (At p from apart start D)
              (act c child)
              (λ _ s. At p from apart start (Also D (Under start c child)) s)) where
      abbrev Known : Store → Type 0
      Known s = Seen p from apart start d name stat s × At p from apart start C s

      Known-At : (s : Store) → Known s → (stat ≡ s.node_at c) × At p from apart start C s
      Known-At s ((i, found, e), h) =
          (subst (λ k. stat ≡ s.node_at k) (cc (sym found ∙ there)) e, h)

      entry_or_dir-Step :
          Step p from apart start Known
            (if not (is_directory stat.kind)
              then reown_entry p d name stat from
              else reown_held p d name from act)
            (λ _ s. At p from apart start (Also C (Under start d name)) s)
      entry_or_dir-Step =
          Triple-if (Stopped p from apart start) (Never p from apart start) Known
            (λ _ s. At p from apart start (Also C (Under start d name)) s)
            (not (is_directory stat.kind)) (reown_entry p d name stat from)
            (reown_held p d name from act)
            (λ leaf.
              Triple-weaken (Stopped p from apart start) (Never p from apart start)
                (λ s. (stat ≡ s.node_at c) × At p from apart start C s) Known
                (λ _ s. At p from apart start (Also C (Under start d name)) s)
                (λ _ s. At p from apart start (Also C (Under start d name)) s)
                (reown_entry p d name stat from) Known-At (λ a s h. h)
                (reown_entry-Step p from apart start C d name c there stat
                  (subst (λ k. is_directory k ≡ false) same (ground arith))))
            (λ tree.
              let dir = subst (λ k. is_directory k ≡ true) same (ground arith) in
              Triple-weaken (Stopped p from apart start) (Never p from apart start)
                (At p from apart start C) Known
                (λ _ s. At p from apart start (Also C (Under start d name)) s)
                (λ _ s. At p from apart start (Also C (Under start d name)) s)
                (reown_held p d name from act) (λ s k. k.1) (λ a s h. h)
                (reown_held-Step p from apart start C d name c act there dir (deeper dir)))

    -- With a round for each rank below, and one more.
    reown_tree-Step :
        (rounds : ℕ) (C : ℕ → Type 0) (d : ℕ) (name : Text)
        → 0 < rounds
        → ((c : ℕ) → lookup_in start d name ≡ some c → rank c < rounds)
        → Step p from apart start
            (At p from apart start C)
            (reown_tree p rounds d name from)
            (λ _ s. At p from apart start (Also C (Under start d name)) s)
    unfolding reown_tree
    reown_tree-Step zero C d name some_round enough = absurd (omega arith)
    reown_tree-Step (suc rounds) C d name some_round enough =
        Triple-bind (Stopped p from apart start) (Never p from apart start)
          (At p from apart start C)
          (λ stat s. Seen p from apart start d name stat s × At p from apart start C s)
          (λ _ s. At p from apart start (Also C (Under start d name)) s) (status_at d name) _
          (status_at-Step p from apart start C d name)
          (λ stat.
            Triple-from (Stopped p from apart start) (Never p from apart start)
              (λ s. Seen p from apart start d name stat s × At p from apart start C s)
              (λ _ s. At p from apart start (Also C (Under start d name)) s) _
              (λ s ((c, there, same), h).
                entry_or_dir-Step C d name c there stat
                  (ap (λ n. n.kind) same ∙ Progress-kind p from apart start h c)
                  (λ dir child. reown_tree p rounds dir child from)
                  (λ dir D child i found.
                    let lower = ranked c child i found in
                    let top = enough c there in
                    reown_tree-Step rounds D c child (omega arith)
                      (λ k found'. let lower' = ranked c child k found' in omega arith))))

-- The ends of a call: done, with everything that may change below the name handed over; or an error,
-- with nodes handed over as far as it came.
abbrev pub HandedOver : Process → ℕ → Store → ℕ → Text → Answer ℕ × World → Type 0
HandedOver p from start d name (done n, w) =
    ((j : ℕ) → Handed p from (start.node_at j) (w.store.node_at j))
    × ((j : ℕ)
        → Under start d name j
        → MayChange (start.node_at j)
        → (w.store.node_at j).uid ≢ from)
HandedOver p from start d name (failed e, w) =
    (j : ℕ) → Handed p from (start.node_at j) (w.store.node_at j)
HandedOver p from start d name (unfinished, w) = ⊥

Meets-HandedOver :
    (p : Process) (from : ℕ) (apart : from ≢ p.euid) (start : Store) (d : ℕ) (name : Text)
    (r : Answer ℕ × World)
    → Meets
        (λ _ s. At p from apart start (Also (λ _. ⊥) (Under start d name)) s)
        (Stopped p from apart start)
        (Never p from apart start)
        r
    → HandedOver p from start d name r
Meets-HandedOver p from apart start d name (done n, w) h = (h.changed, λ j u. h.clean j (inr u))
Meets-HandedOver p from apart start d name (failed e, w) h = h
Meets-HandedOver p from apart start d name (unfinished, w) h = h

-- Handing a tree over ends, whatever calls the kernel refuses. Any node is then as it was or has
-- changed its owner alone, from the given account to the process, and is a directory or has a single
-- name. After a success no node of the kind below the name belongs to the account, which is not the
-- process's own. The names lead from a node to one of smaller rank, and there are more rounds than
-- the rank of what stands at the name.
pub reown_tree-HandedOver :
    (p : Process) (from : ℕ) (rank : ℕ → ℕ) (rounds d : ℕ) (name : Text) (w : World)
    → from ≢ p.euid
    → Ranked w.store rank
    → 0 < rounds
    → ((c : ℕ) → lookup_in w.store d name ≡ some c → rank c < rounds)
    → HandedOver p from w.store d name (reown_tree p rounds d name from w)
reown_tree-HandedOver p from rank rounds d name w apart ranked some_round enough =
    Meets-HandedOver p from apart w.store d name (reown_tree p rounds d name from w) (
      (reown_tree-Step p from apart w.store rank ranked rounds (λ _. ⊥) d name some_round enough).at
        w (record { changed = λ j. inl refl; clean = λ j h. absurd h }))
