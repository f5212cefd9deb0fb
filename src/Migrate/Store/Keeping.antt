-- ===== src/Migrate/Store/Keeping.antt =====
-- Commands that leave the store as it is, however they end, and that end.
use gnosis_vpn_toolkit.Prelude.{
  Bool, true, false, ◌≡◌, refl, sym, ◌∙◌, ap, subst, inl, inr, Result, ok, err, if◌then◌else◌,
}
use gnosis_vpn_toolkit.Migrate.Outcome.{Failure}
use gnosis_vpn_toolkit.Migrate.Store.{
  IoError, Store, World, Answer, done, failed, unfinished, Io, attempt, caught, syscall, and_then,
}
use gnosis_vpn_toolkit.Migrate.Store
use gnosis_vpn_toolkit.Migrate.Store.Failing.{Fio, or_fail, judged, next_or_fail}
use gnosis_vpn_toolkit.Migrate.Store.Failing
use gnosis_vpn_toolkit.Migrate.Store.Endings.{syscall-Called}

-- An end with a result, or with an error where errors may be.
abbrev pub Ended : {A : Type 0} → Bool → Answer A → Type 0
Ended may_fail (done a) = Unit
Ended true (failed e) = Unit
Ended false (failed e) = ⊥
Ended may_fail unfinished = ⊥

pub record Keeps {A : Type 0} (may_fail : Bool) (m : Io A) : Type 0 where
  pub at : (w : World) → (m w).1.store ≡ w.store
  pub ends : (w : World) → Ended may_fail (m w).0

-- The end of what is made of an answer, with the store of the answer.
abbrev Follows : {A : Type 0} → Bool → World → Answer A × World → Type 0
Follows may_fail w r = (r.1.store ≡ w.store) × Ended may_fail r.0

module _ {A : Type 0} where
  pub Keeps-done : {b : Bool} (a : A) → Keeps b (λ w. (done a, w))
  Keeps-done a = record { at = λ w. refl; ends = λ w. tt }

  pub Keeps-failed : (e : IoError) → Keeps {A = A} true (λ w. (failed e, w))
  Keeps-failed e = record { at = λ w. refl; ends = λ w. tt }

  -- What a call returns, it returns of the store that it found.
  pub syscall-Keeps :
      (f : Store → Result IoError (A × Store))
      → ((s : Store) (a : A) (s' : Store) → f s ≡ ok (a, s') → s' ≡ s)
      → Keeps true (syscall f)
  syscall-Keeps f reads = record {
    at = λ w. elim (syscall-Called f w) [
      | inl (e, faults, why, r) ↦ ap (λ x. x.1.store) r
      | inr (a, s', faults, ends, r) ↦ ap (λ x. x.1.store) r ∙ reads w.store a s' ends
    ];
    ends = λ w. elim (syscall-Called f w) [
      | inl (e, faults, why, r) ↦ subst (λ x. Ended true x.0) (sym r) tt
      | inr (a, s', faults, ends, r) ↦ subst (λ x. Ended true x.0) (sym r) tt
    ];
  }

  pub if-Keeps :
      {b : Bool} (c : Bool) {m m' : Io A} → Keeps b m → Keeps b m' → Keeps b (if c then m else m')
  if-Keeps true here there = here
  if-Keeps false here there = there

  caught-Follows : (b : Bool) (r : Answer A × World) → Ended true r.0 → Follows b r.1 (caught r)
  caught-Follows b (done a, w) h = (refl, tt)
  caught-Follows b (failed e, w) h = (refl, tt)
  caught-Follows b (unfinished, w) h = absurd h

  pub attempt-Keeps : {b : Bool} {m : Io A} → Keeps true m → Keeps b (attempt m)
  attempt-Keeps {b} {m} keeps = record {
    at = λ w. (caught-Follows b (m w) (keeps.ends w)).0 ∙ keeps.at w;
    ends = λ w. (caught-Follows b (m w) (keeps.ends w)).1;
  }

  judged-Follows :
      (b : Bool) (f : IoError → Failure) (r : Answer A × World)
      → Ended true r.0
      → Follows b r.1 (judged f r)
  judged-Follows b f (done a, w) h = (refl, tt)
  judged-Follows b f (failed e, w) h = (refl, tt)
  judged-Follows b f (unfinished, w) h = absurd h

  pub or_fail-Keeps :
      {b : Bool} (f : IoError → Failure) {m : Io A} → Keeps true m → Keeps b (or_fail f m)
  or_fail-Keeps {b} f {m} keeps = record {
    at = λ w. (judged-Follows b f (m w) (keeps.ends w)).0 ∙ keeps.at w;
    ends = λ w. (judged-Follows b f (m w) (keeps.ends w)).1;
  }

module _ {A B : Type 0} where
  and_then-Follows :
      (b : Bool) (r : Answer A × World) (k : A → Io B)
      → ((a : A) → Keeps b (k a))
      → Ended b r.0
      → Follows b r.1 (and_then r k)
  and_then-Follows b (done a, w) k next h = ((next a).at w, (next a).ends w)
  and_then-Follows true (failed e, w) k next h = (refl, tt)
  and_then-Follows false (failed e, w) k next h = absurd h
  and_then-Follows b (unfinished, w) k next h = absurd h

  pub bind-Keeps :
      {b : Bool} {m : Io A} {k : A → Io B}
      → Keeps b m
      → ((a : A) → Keeps b (k a))
      → Keeps b (Store.◌>>=◌ m k)
  bind-Keeps {b} {m} {k} keeps next = record {
    at = λ w. (and_then-Follows b (m w) k next (keeps.ends w)).0 ∙ keeps.at w;
    ends = λ w. (and_then-Follows b (m w) k next (keeps.ends w)).1;
  }

  next_or_fail-Follows :
      (b : Bool) (r : Answer (Result Failure A) × World) (k : A → Fio B)
      → ((a : A) → Keeps b (k a))
      → Ended b r.0
      → Follows b r.1 (next_or_fail r k)
  next_or_fail-Follows b (done (ok a), w) k next h = ((next a).at w, (next a).ends w)
  next_or_fail-Follows b (done (err f), w) k next h = (refl, tt)
  next_or_fail-Follows true (failed e, w) k next h = (refl, tt)
  next_or_fail-Follows false (failed e, w) k next h = absurd h
  next_or_fail-Follows b (unfinished, w) k next h = absurd h

  pub chain-Keeps :
      {b : Bool} {m : Fio A} {k : A → Fio B}
      → Keeps b m
      → ((a : A) → Keeps b (k a))
      → Keeps b (Failing.◌>>=◌ m k)
  chain-Keeps {b} {m} {k} keeps next = record {
    at = λ w. (next_or_fail-Follows b (m w) k next (keeps.ends w)).0 ∙ keeps.at w;
    ends = λ w. (next_or_fail-Follows b (m w) k next (keeps.ends w)).1;
  }
