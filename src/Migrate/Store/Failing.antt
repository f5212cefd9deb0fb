-- ===== src/Migrate/Store/Failing.antt =====
-- Commands that return a `Failure` of the program, with its `?`.
use gnosis_vpn_toolkit.Prelude.{Result, ok, err}
use gnosis_vpn_toolkit.Migrate.Outcome.{Failure}
use gnosis_vpn_toolkit.Migrate.Store.{IoError, World, Answer, done, failed, unfinished, Io}

abbrev pub Fio : Type 0 → Type 0
Fio A = Io (Result Failure A)

module _ {A : Type 0} where
  abbrev pub succeed : A → Fio A
  succeed a w = (done (ok a), w)

  abbrev pub refuse : Failure → Fio A
  refuse f w = (done (err f), w)

  abbrev pub judged : (IoError → Failure) → Answer A × World → Answer (Result Failure A) × World
  judged f (done a, w) = (done (ok a), w)
  judged f (failed e, w) = (done (err (f e)), w)
  judged f (unfinished, w) = (unfinished, w)

  -- `.map_err(f)?`
  abbrev pub or_fail : (IoError → Failure) → Io A → Fio A
  or_fail f m w = judged f (m w)

module _ {A B : Type 0} where
  abbrev pub next_or_fail :
      Answer (Result Failure A) × World → (A → Fio B) → Answer (Result Failure B) × World
  next_or_fail (done (ok a), w) k = k a w
  next_or_fail (done (err f), w) k = (done (err f), w)
  next_or_fail (failed e, w) k = (failed e, w)
  next_or_fail (unfinished, w) k = (unfinished, w)

  infixl 5 ◌>>=◌ ◌>>◌
  abbrev pub ◌>>=◌ : Fio A → (A → Fio B) → Fio B
  ◌>>=◌ m k w = next_or_fail (m w) k

  abbrev pub ◌>>◌ : Fio A → Fio B → Fio B
  m >> k = m >>= λ _. k
