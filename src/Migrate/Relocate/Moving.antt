-- ===== src/Migrate/Relocate/Moving.antt =====
-- The move of one entry: what is at the destination stays.
use gnosis_vpn_toolkit.Prelude.{
  ℕ, ◌<◌, true, false, Option, none, some, ◌≡◌, ◌≢◌, refl, sym, ◌∙◌, ap, subst, ◌⊎◌, inl, inr,
  arith, ok, ◌==◌, ==-refl,
}
use gnosis_vpn_toolkit.Prelude.Text.{Text, text_eq_refl}
use gnosis_vpn_toolkit.Migrate.Dirs.{is_some}
use gnosis_vpn_toolkit.Migrate.Dirs.Names.{lookup-delete_same}
use gnosis_vpn_toolkit.Migrate.Store.{
  Store, World, Process, Answer, done, failed, unfinished, pure, ◌>>◌, lookup_in, names_in,
}
use gnosis_vpn_toolkit.Migrate.Store.Calls.{entry, rename_at, rename_onto, move_name, synchronise}
use gnosis_vpn_toolkit.Migrate.Store.Endings.{entry-ok}
use gnosis_vpn_toolkit.Migrate.Store.Triples.{
  Meets, Triple, Triple-pure, Triple-if, Triple-bind, Triple-syscall, Triple-weaken, Triple-from,
}
use gnosis_vpn_toolkit.Migrate.Store.Steady.{synchronise-Triple}
use gnosis_vpn_toolkit.Migrate.Nofollow.{exists, remove}
use gnosis_vpn_toolkit.Migrate.Nofollow.Existing.{exists-Triple}
use gnosis_vpn_toolkit.Migrate.Nofollow.Reach.{Ranked, Under}
use gnosis_vpn_toolkit.Migrate.Nofollow.Removal.{Shrunk}
use gnosis_vpn_toolkit.Migrate.Nofollow.Removal.Whole.{Confined, Gone, same_directory, remove-Gone}
use gnosis_vpn_toolkit.Migrate.Relocate.{Done, nothing, moved_to, removed, move_between}

rename_onto-free :
    (o : Option ℕ) (d : ℕ) (name : Text) (d' : ℕ) (name' : Text) (i : ℕ) (s : Store) {a : Unit {0}}
    {s' : Store}
    → o ≡ none
    → rename_onto o d name d' name' i s ≡ ok (a, s')
    → move_name d name d' name' i s ≡ s'
rename_onto-free none d name d' name' i s free ends = ground arith
rename_onto-free (some j) d name d' name' i s free ends = cc

is_some-false : (o : Option ℕ) → is_some o ≡ false → o ≡ none
is_some-false none h = refl
is_some-false (some a) h = cc

module _ (start : Store) (d : ℕ) (name : Text) (d' : ℕ) (name' : Text) where
  -- The destination was free, and has what stood at the source, where nothing is left.
  pub record Moved (s : Store) : Type 0 where
    pub free : lookup_in start d' name' ≡ none
    pub there : lookup_in s d' name' ≡ lookup_in start d name
    pub left : lookup_in s d name ≡ none

  abbrev pub Stale : Store → Type 0
  Stale s = (is_some (lookup_in start d' name') ≡ true) × Gone start d name s

  abbrev pub Broken : Store → Type 0
  Broken s =
      ((is_some (lookup_in start d' name') ≡ true) × Confined start d name s)
      ⊎ ((s ≡ start) ⊎ Moved s)

  abbrev pub NoEnd : Store → Type 0
  NoEnd s = ⊥

  abbrev pub MoveDone : Text → Done → Store → Type 0
  MoveDone to nothing s = ⊥
  MoveDone to removed s = Stale s
  MoveDone to (moved_to t) s = (t ≡ to) × Moved s

  module _ (apart : d ≢ d') where
    move_name-Moved :
        (i : ℕ)
        → lookup_in start d' name' ≡ none
        → lookup_in start d name ≡ some i
        → Moved (move_name d name d' name' i start)
    move_name-Moved i free found = record {
      free = free;
      there = rw (==-refl d', text_eq_refl name') (sym found);
      left =
          let e : d == d' ≡ false = ground (arith, apart) in
          rw (e, ==-refl d) (lookup-delete_same name (names_in (start.node_at d).kind));
    }

    rename_at-Moved :
        lookup_in start d' name' ≡ none
        → Triple Broken NoEnd (λ s. s ≡ start) (rename_at d name d' name') (λ _ s. Moved s)
    unfolding rename_at
    rename_at-Moved free =
        Triple-syscall Broken NoEnd (λ s. s ≡ start) (λ _ s. Moved s)
          (entry d name (λ i s. rename_onto (lookup_in s d' name') d name d' name' i s))
          (λ s h. inr (inl h))
          (λ s a s' h ends.
            let ends' =
              subst
                (λ t.
                  entry d name (λ i s. rename_onto (lookup_in s d' name') d name d' name' i s) t
                  ≡ ok (a, s'))
                h ends in
            let (i, found, same) =
              entry-ok d name (λ i s. rename_onto (lookup_in s d' name') d name d' name' i s) start
                ends' in
            let e : move_name d name d' name' i start ≡ s' =
              rename_onto-free (lookup_in start d' name') d name d' name' i start free same in
            subst Moved e (move_name-Moved i free found))

    module _ (rank : ℕ → ℕ) (ranked : Ranked start rank) (p : Process) (rounds : ℕ)
        (some_round : 0 < rounds)
        (enough : (c : ℕ) → lookup_in start d name ≡ some c → rank c < rounds) (to : Text) where
      stale_removed :
          is_some (lookup_in start d' name') ≡ true
          → Triple Broken NoEnd
              (λ s. s ≡ start)
              (remove p rounds d name >> pure removed)
              (MoveDone to)
      stale_removed taken =
          Triple-bind Broken NoEnd (λ s. s ≡ start) (λ _ s. Gone start d name s) (MoveDone to)
            (remove p rounds d name) (λ _. pure removed)
            (record {
              at = λ w h. worse taken (remove p rounds d name w) (
                  (remove-Gone start d name rank ranked p rounds some_round enough).at w (record {
                    outside = λ j. inr (ap (λ t. t.node_at j) h);
                    fewer = λ x n c found. subst (λ t. lookup_in t x n ≡ some c) h found;
                  }));
            })
            (λ _.
              Triple-pure Broken NoEnd (λ s. Gone start d name s) (MoveDone to) removed
                (λ s g. (taken, g)))
        where
          worse :
              is_some (lookup_in start d' name') ≡ true
              → (r : Answer (Unit {0}) × World)
              → Meets
                  (λ _ s. Gone start d name s)
                  (λ s. Shrunk start (Under start d name) s)
                  (λ s. ⊥)
                  r
              → Meets (λ _ s. Gone start d name s) Broken NoEnd r
          worse taken (done a, w) h = h
          worse taken (failed e, w) h =
              inl (taken, (same_directory start d name rank ranked w.store h, h.outside))
          worse taken (unfinished, w) h = h

      renamed :
          lookup_in start d' name' ≡ none
          → Triple Broken NoEnd
              (λ s. s ≡ start)
              (rename_at d name d' name'
                >> (synchronise d' >> (synchronise d >> pure (moved_to to))))
              (MoveDone to)
      renamed free =
          Triple-bind Broken NoEnd (λ s. s ≡ start) (λ _ s. Moved s) (MoveDone to)
            (rename_at d name d' name')
            (λ _. synchronise d' >> (synchronise d >> pure (moved_to to))) (rename_at-Moved free)
            (λ _.
              Triple-bind Broken NoEnd Moved (λ _ s. Moved s) (MoveDone to) (synchronise d')
                (λ _. synchronise d >> pure (moved_to to))
                (synchronise-Triple Broken NoEnd Moved (λ s h. inr (inr h)) d')
                (λ _.
                  Triple-bind Broken NoEnd Moved (λ _ s. Moved s) (MoveDone to) (synchronise d)
                    (λ _. pure (moved_to to))
                    (synchronise-Triple Broken NoEnd Moved (λ s h. inr (inr h)) d)
                    (λ _.
                      Triple-pure Broken NoEnd Moved (MoveDone to) (moved_to to)
                        (λ s h. (refl, h)))))

      move_between-Step :
          Triple Broken NoEnd
            (λ s. s ≡ start)
            (move_between p rounds d name d' name' to)
            (MoveDone to)
      unfolding move_between
      move_between-Step =
          Triple-bind Broken NoEnd (λ s. s ≡ start)
            (λ taken s. (taken ≡ is_some (lookup_in s d' name')) × (s ≡ start)) (MoveDone to)
            (exists d' name') _
            (exists-Triple Broken NoEnd (λ s. s ≡ start) (λ s h. inr (inl h)) d' name')
            (λ taken.
              Triple-from Broken NoEnd (λ s. (taken ≡ is_some (lookup_in s d' name')) × (s ≡ start))
                (MoveDone to) _
                (λ s0 (known, same).
                  let e : taken ≡ is_some (lookup_in start d' name') =
                    known ∙ ap (λ t. is_some (lookup_in t d' name')) same in
                  Triple-weaken Broken NoEnd (λ s. s ≡ start)
                    (λ s. (taken ≡ is_some (lookup_in s d' name')) × (s ≡ start)) (MoveDone to)
                    (MoveDone to) _ (λ s h. h.1) (λ a s h. h)
                    (Triple-if Broken NoEnd (λ s. s ≡ start) (MoveDone to) taken
                      (remove p rounds d name >> pure removed) _
                      (λ yes_taken. stale_removed (sym e ∙ yes_taken))
                      (λ not_taken.
                        renamed (is_some-false (lookup_in start d' name') (sym e ∙ not_taken))))))

-- The ends of a move.
abbrev pub MoveEnds : Store → ℕ → Text → ℕ → Text → Text → Answer Done × World → Type 0
MoveEnds start d name d' name' to (done result, w) =
    MoveDone start d name d' name' to result w.store
MoveEnds start d name d' name' to (failed e, w) = Broken start d name d' name' w.store
MoveEnds start d name d' name' to (unfinished, w) = ⊥

Meets-MoveEnds :
    (start : Store) (d : ℕ) (name : Text) (d' : ℕ) (name' to : Text) (r : Answer Done × World)
    → Meets
        (MoveDone start d name d' name' to)
        (Broken start d name d' name')
        (NoEnd start d name d' name')
        r
    → MoveEnds start d name d' name' to r
Meets-MoveEnds start d name d' name' to (done a, w) h = h
Meets-MoveEnds start d name d' name' to (failed e, w) h = h
Meets-MoveEnds start d name d' name' to (unfinished, w) h = h

-- A move between two directories ends, and never writes over what is at the destination. Reported as
-- moved, the destination was free and has what stood at the source, which is gone; reported as
-- removed, the destination was taken and what was at the source is gone, with nothing else changed
-- but what was below it. After an error nothing has changed, or the entry has moved to a free name,
-- or, with the destination taken, only what was below the source has changed. The names lead to
-- smaller ranks, and there are more rounds than the rank of what stands at the source.
pub move_between-Ends :
    (p : Process) (rank : ℕ → ℕ) (rounds d : ℕ) (name : Text) (d' : ℕ) (name' to : Text) (w : World)
    → d ≢ d'
    → Ranked w.store rank
    → 0 < rounds
    → ((c : ℕ) → lookup_in w.store d name ≡ some c → rank c < rounds)
    → MoveEnds w.store d name d' name' to (move_between p rounds d name d' name' to w)
move_between-Ends p rank rounds d name d' name' to w apart ranked some_round enough =
    Meets-MoveEnds w.store d name d' name' to (move_between p rounds d name d' name' to w) (
      (move_between-Step w.store d name d' name' apart rank ranked p rounds some_round enough to).at
        w refl)
