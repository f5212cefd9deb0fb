-- ===== src/Migrate/Nofollow/Removal/Whole.antt =====
-- Removing a whole tree, or what else stands at a name.
use gnosis_vpn_toolkit.Prelude.{
  ℕ, zero, suc, ◌<◌, ◌≤◌, false, none, some, ◌≡◌, ◌≢◌, refl, sym, ◌∙◌, ap, subst, ◌⊎◌, inl, inr,
  arith, if◌then◌else◌, Bool-cases, ◌==◌, ==_iff, ==-refl,
}
use gnosis_vpn_toolkit.Prelude.Text.{Text}
use gnosis_vpn_toolkit.Migrate.Dirs.{lookup}
use gnosis_vpn_toolkit.Migrate.Dirs.Names.{lookup-delete_same, lookup-delete_other}
use gnosis_vpn_toolkit.Migrate.Store.{
  Store, World, Process, Answer, done, failed, unfinished, lookup_in, is_directory, names_in,
}
use gnosis_vpn_toolkit.Migrate.Store.Calls.{
  entry, status_at, open_directory, unlink, unlink_kind, remove_directory, rmdir_kind, take_name,
  drop_link,
}
use gnosis_vpn_toolkit.Migrate.Store.Endings.{entry-ok}
use gnosis_vpn_toolkit.Migrate.Store.Triples.{
  Meets, Triple, Triple-if, Triple-bind, Triple-syscall, Triple-weaken, Triple-fact,
}
use gnosis_vpn_toolkit.Migrate.Store.Steady.{
  Leads, StatusOf, open_directory-Triple, status_at-Triple,
}
use gnosis_vpn_toolkit.Migrate.Nofollow.{is_dots, remove_tree, remove}
use gnosis_vpn_toolkit.Migrate.Nofollow.Reach.{Ranked, Below, self, inside, Under}
use gnosis_vpn_toolkit.Migrate.Nofollow.Removal.{Shrunk, Closed, Shrunk-drop_link}
use gnosis_vpn_toolkit.Migrate.Nofollow.Removal.Contents.{
  rmdir_kind-ok, unlink_kind-ok, contents_then, remove_tree-Keeps,
}

Below-step :
    (s : Store) {i j k : ℕ} (name : Text)
    → Below s i j
    → is_dots name ≡ false
    → lookup_in s j name ≡ some k
    → Below s i k
Below-step s {i} {j} {k} name (self e) plain found =
    inside name plain (subst (λ t. lookup_in s t name ≡ some k) (sym e) found) (self refl)
Below-step s name (inside child plain' at below) plain found =
    inside child plain' at (Below-step s name below plain found)

Below-rank : (s : Store) (rank : ℕ → ℕ) → Ranked s rank → {i j : ℕ} → Below s i j → rank j ≤ rank i
Below-rank s rank ranked (self e) = rw e (omega arith)
Below-rank s rank ranked {i} (inside {c = c} child plain at below) =
    omega (arith, Below-rank s rank ranked below, ranked i child c at)

module _ (start : Store) (d : ℕ) (name : Text) where
  Under-Closed : Closed start (Under start d name)
  Under-Closed i child k (c, found, below) plain at =
      (c, found, Below-step start child below plain at)

  -- What is below the name may be gone; nothing else has changed, the directory neither.
  abbrev pub Confined : Store → Type 0
  Confined s =
      (s.node_at d ≡ start.node_at d)
      × ((j : ℕ) → Under start d name j ⊎ (s.node_at j ≡ start.node_at j))

  -- The name is gone from its directory, which is as it was otherwise; beyond what was below the
  -- name, nothing has changed.
  pub record Gone (s : Store) : Type 0 where
    pub gone : lookup_in s d name ≡ none
    pub others : (x : Text) → x ≢ name → lookup_in s d x ≡ lookup_in start d x
    pub beyond : (j : ℕ) → j ≢ d → Under start d name j ⊎ (s.node_at j ≡ start.node_at j)

  module _ (rank : ℕ → ℕ) (ranked : Ranked start rank) where
    abbrev pub Part : Store → Type 0
    Part s = Shrunk start (Under start d name) s

    abbrev pub NoEnd : Store → Type 0
    NoEnd s = ⊥

    outside : Under start d name d → ⊥
    outside (c, found, below) =
        absurd (omega (arith, Below-rank start rank ranked below, ranked d name c found))

    -- The directory itself is as it was until its name goes.
    pub same_directory :
        (s : Store) → Shrunk start (Under start d name) s → s.node_at d ≡ start.node_at d
    same_directory s h = elim (h.outside d) [ inl below ↦ absurd (outside below) | inr same ↦ same ]

    taken-Gone : (s : Store) → Shrunk start (Under start d name) s → Gone (take_name d name s)
    taken-Gone s h = record {
      gone = rw (==-refl d) (lookup-delete_same name (names_in (s.node_at d).kind));
      others = λ x other. rw (==-refl d) (
          lookup-delete_other x name (names_in (s.node_at d).kind) other
          ∙ ap (λ n. lookup x (names_in n.kind)) (same_directory s h));
      beyond = λ j apart. elim (Bool-cases (j == d)) [
        | inl same ↦ absurd (apart ((==_iff j d).0 same))
        | inr other ↦ rw other (h.outside j)
      ];
    }

    abbrev pub Q : Unit {0} → Store → Type 0
    Q _ s = Gone s

    last-Gone : Triple Part NoEnd Part (remove_directory d name) Q
    unfolding remove_directory
    last-Gone =
        Triple-syscall Part NoEnd Part Q
          (entry d name (λ i s. rmdir_kind (s.node_at i).kind d name s)) (λ s h. h)
          (λ s a s' h ends.
            let (i, found, same) =
              entry-ok d name (λ i s. rmdir_kind (s.node_at i).kind d name s) s ends in
            subst Gone (rmdir_kind-ok (s.node_at i).kind d name s same) (taken-Gone s h))

    remove_tree-Gone :
        (p : Process) (rounds : ℕ)
        → 0 < rounds
        → ((c : ℕ) → lookup_in start d name ≡ some c → rank c < rounds)
        → Triple Part NoEnd Part (remove_tree p rounds d name) Q
    unfolding remove_tree
    remove_tree-Gone p zero some_round enough = absurd (omega arith)
    remove_tree-Gone p (suc rounds) some_round enough =
        Triple-bind Part NoEnd Part (λ c s. (lookup_in start d name ≡ some c) × Part s) Q
          (open_directory d name) _
          (Triple-weaken Part NoEnd Part Part
            (λ c s. Leads Part NoEnd Part (λ s h. h) d name c s × Part s)
            (λ c s. (lookup_in start d name ≡ some c) × Part s) (open_directory d name) (λ s h. h)
            (λ c s (leads, h). (h.fewer d name c leads.0, h))
            (open_directory-Triple Part NoEnd Part (λ s h. h) d name))
          (λ c. Triple-fact Part NoEnd (lookup_in start d name ≡ some c) Part Q _ (λ at.
            let within : Under start d name c = (c, at, self refl) in
            contents_then start (Under start d name) Under-Closed p rank ranked rounds c Q
              (remove_directory d name) within (enough c at)
              (λ child plain more lower.
                remove_tree-Keeps start (Under start d name) Under-Closed p rank ranked rounds c
                  child within plain more lower)
              last-Gone))

    unlink-Gone : Triple Part NoEnd Part (unlink d name) Q
    unfolding unlink
    unlink-Gone =
        Triple-syscall Part NoEnd Part Q
          (entry d name (λ i s. unlink_kind (s.node_at i).kind d name i s)) (λ s h. h)
          (λ s a s' h ends.
            let (i, found, same) =
              entry-ok d name (λ i s. unlink_kind (s.node_at i).kind d name i s) s ends in
            let within : Under start d name i = (i, h.fewer d name i found, self refl) in
            subst Gone (unlink_kind-ok (s.node_at i).kind d name i s same)
              (taken-Gone (drop_link i s) (Shrunk-drop_link start (Under start d name) h i within)))

    pub remove-Gone :
        (p : Process) (rounds : ℕ)
        → 0 < rounds
        → ((c : ℕ) → lookup_in start d name ≡ some c → rank c < rounds)
        → Triple Part NoEnd Part (remove p rounds d name) Q
    unfolding remove
    remove-Gone p rounds some_round enough =
        Triple-bind Part NoEnd Part
          (λ stat s. StatusOf Part NoEnd Part (λ s h. h) d name stat s × Part s) Q
          (status_at d name)
          (λ stat. if is_directory stat.kind then remove_tree p rounds d name else unlink d name)
          (status_at-Triple Part NoEnd Part (λ s h. h) d name)
          (λ stat.
            Triple-weaken Part NoEnd Part
              (λ s. StatusOf Part NoEnd Part (λ s h. h) d name stat s × Part s) Q Q
              (if is_directory stat.kind then remove_tree p rounds d name else unlink d name)
              (λ s h. h.1) (λ a s h. h)
              (Triple-if Part NoEnd Part Q (is_directory stat.kind) (remove_tree p rounds d name)
                (unlink d name) (λ e. remove_tree-Gone p rounds some_round enough)
                (λ e. unlink-Gone)))

-- The ends of a call.
abbrev pub RemoveEnds : Store → ℕ → Text → Answer (Unit {0}) × World → Type 0
RemoveEnds start d name (done _, w) = Gone start d name w.store
RemoveEnds start d name (failed e, w) = Confined start d name w.store
RemoveEnds start d name (unfinished, w) = ⊥

Meets-RemoveEnds :
    (rank : ℕ → ℕ) (start : Store) (ranked : Ranked start rank) (d : ℕ) (name : Text)
    (r : Answer (Unit {0}) × World)
    → Meets (λ _ s. Gone start d name s) (λ s. Shrunk start (Under start d name) s) (λ s. ⊥) r
    → RemoveEnds start d name r
Meets-RemoveEnds rank start ranked d name (done a, w) h = h
Meets-RemoveEnds rank start ranked d name (failed e, w) h =
    (same_directory start d name rank ranked w.store h, h.outside)
Meets-RemoveEnds rank start ranked d name (unfinished, w) h = h

pub remove-Ends :
    (p : Process) (rank : ℕ → ℕ) (rounds d : ℕ) (name : Text) (w : World)
    → Ranked w.store rank
    → 0 < rounds
    → ((c : ℕ) → lookup_in w.store d name ≡ some c → rank c < rounds)
    → RemoveEnds w.store d name (remove p rounds d name w)
remove-Ends p rank rounds d name w ranked some_round enough =
    Meets-RemoveEnds rank w.store ranked d name (remove p rounds d name w) (
      (remove-Gone w.store d name rank ranked p rounds some_round enough).at w
        (record { outside = λ j. inr refl; fewer = λ d x c found. found }))

-- Removing a tree ends, whatever calls the kernel refuses. After a success the name is gone and its
-- directory has its other names as before; after an error the directory is as it was. Either way no
-- node has changed beyond the directory and what lies below the name, which no symlink adds to. The
-- names lead from a node to one of smaller rank, and there are more rounds than the rank of what
-- stands at the name.
pub remove_tree-Ends :
    (p : Process) (rank : ℕ → ℕ) (rounds d : ℕ) (name : Text) (w : World)
    → Ranked w.store rank
    → 0 < rounds
    → ((c : ℕ) → lookup_in w.store d name ≡ some c → rank c < rounds)
    → RemoveEnds w.store d name (remove_tree p rounds d name w)
remove_tree-Ends p rank rounds d name w ranked some_round enough =
    Meets-RemoveEnds rank w.store ranked d name (remove_tree p rounds d name w) (
      (remove_tree-Gone w.store d name rank ranked p rounds some_round enough).at w
        (record { outside = λ j. inr refl; fewer = λ d x c found. found }))
