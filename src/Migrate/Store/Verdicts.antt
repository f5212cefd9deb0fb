-- ===== src/Migrate/Store/Verdicts.antt =====
-- Rules for commands that return a `Failure`: they raise no error of the kernel's themselves.
use gnosis_vpn_toolkit.Prelude.{Result, ok, err}
use gnosis_vpn_toolkit.Migrate.Outcome.{Failure}
use gnosis_vpn_toolkit.Migrate.Store.{IoError, Store, World, Answer, done, failed, unfinished, Io}
use gnosis_vpn_toolkit.Migrate.Store.Failing.{Fio, or_fail, judged, next_or_fail, ◌>>=◌}
use gnosis_vpn_toolkit.Migrate.Store.Triples.{Meets, Triple}

abbrev pub Any : Store → Type 0
Any s = Unit

abbrev pub Never : Store → Type 0
Never s = ⊥

module _ {A : Type 0} where
  -- A success meets `Q`.
  abbrev pub Verdict : (A → Store → Type 0) → Result Failure A → Store → Type 0
  Verdict Q (ok a) s = Q a s
  Verdict Q (err f) s = Unit

  abbrev pub Returns : (Store → Type 0) → Fio A → (A → Store → Type 0) → Type 0
  Returns P m Q = Triple Never Never P m (Verdict Q)

  judged-Meets :
      (Q : A → Store → Type 0) (f : IoError → Failure) (r : Answer A × World)
      → Meets Q Any Never r
      → Meets (Verdict Q) Never Never (judged f r)
  judged-Meets Q f (done a, w) h = h
  judged-Meets Q f (failed e, w) h = tt
  judged-Meets Q f (unfinished, w) h = h

  pub Returns-or_fail :
      (P : Store → Type 0) (Q : A → Store → Type 0) (f : IoError → Failure) (m : Io A)
      → Triple Any Never P m Q
      → Returns P (or_fail f m) Q
  Returns-or_fail P Q f m t = record { at = λ w p. judged-Meets Q f (m w) (t.at w p) }

module _ {A B : Type 0} where
  next-Meets :
      (Q : A → Store → Type 0) (R : B → Store → Type 0) (k : A → Fio B)
      (r : Answer (Result Failure A) × World)
      → ((a : A) → Returns (Q a) (k a) R)
      → Meets (Verdict Q) Never Never r
      → Meets (Verdict R) Never Never (next_or_fail r k)
  next-Meets Q R k (done (ok a), w) h q = (h a).at w q
  next-Meets Q R k (done (err f), w) h q = tt
  next-Meets Q R k (failed e, w) h q = absurd q
  next-Meets Q R k (unfinished, w) h q = absurd q

  pub Returns-bind :
      (P : Store → Type 0) (Q : A → Store → Type 0) (R : B → Store → Type 0) (m : Fio A)
      (k : A → Fio B)
      → Returns P m Q
      → ((a : A) → Returns (Q a) (k a) R)
      → Returns P (m >>= k) R
  Returns-bind P Q R m k first next = record {
    at = λ w p. next-Meets Q R k (m w) next (first.at w p);
  }
