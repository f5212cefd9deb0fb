-- ===== src/Migrate/Store/Triples.antt =====
-- What a command makes of a file system, with a rule for each way to build a command.
use gnosis_vpn_toolkit.Prelude.{
  Bool, true, false, ◌≡◌, refl, sym, subst, inl, inr, Result, ok, err, if◌then◌else◌,
}
use gnosis_vpn_toolkit.Migrate.Store.{
  IoError, Store, World, Answer, done, failed, unfinished, Io, pure, fail, give_up, attempt, caught,
  ◌>>=◌, and_then, syscall,
}
use gnosis_vpn_toolkit.Migrate.Store.Endings.{syscall-Called}

-- A result meets `Q` with its value; an error leaves what `E` says, and running out of rounds `U`.
abbrev pub Meets :
    {A : Type 0}
    → (A → Store → Type 0)
    → (Store → Type 0)
    → (Store → Type 0)
    → Answer A × World
    → Type 0
Meets Q E U (done a, w) = Q a w.store
Meets Q E U (failed e, w) = E w.store
Meets Q E U (unfinished, w) = U w.store

module _ (E U : Store → Type 0) where
  -- From `P`, the command ends in `Q`.
  pub record Triple {A : Type 0} (P : Store → Type 0) (m : Io A) (Q : A → Store → Type 0)
      : Type 0 where
    pub at : (w : World) → P w.store → Meets Q E U (m w)

  module _ {A : Type 0} where
    pub Triple-pure :
        (P : Store → Type 0) (Q : A → Store → Type 0) (a : A)
        → ((s : Store) → P s → Q a s)
        → Triple P (pure a) Q
    Triple-pure P Q a h = record { at = λ w p. h w.store p }

    pub Triple-fail :
        (P : Store → Type 0) (Q : A → Store → Type 0) (e : IoError)
        → ((s : Store) → P s → E s)
        → Triple P (fail e) Q
    Triple-fail P Q e h = record { at = λ w p. h w.store p }

    pub Triple-give_up :
        (P : Store → Type 0) (Q : A → Store → Type 0)
        → ((s : Store) → P s → U s)
        → Triple P give_up Q
    Triple-give_up P Q h = record { at = λ w p. h w.store p }

    pub Triple-if :
        (P : Store → Type 0) (Q : A → Store → Type 0) (b : Bool) (m n : Io A)
        → (b ≡ true → Triple P m Q)
        → (b ≡ false → Triple P n Q)
        → Triple P (if b then m else n) Q
    Triple-if P Q true m n hm hn = hm refl
    Triple-if P Q false m n hm hn = hn refl

    -- A precondition may be strengthened and a postcondition weakened.
    Meets-weaken :
        (Q R : A → Store → Type 0) (r : Answer A × World)
        → ((a : A) (s : Store) → Q a s → R a s)
        → Meets Q E U r
        → Meets R E U r
    Meets-weaken Q R (done a, w) h q = h a w.store q
    Meets-weaken Q R (failed e, w) h q = q
    Meets-weaken Q R (unfinished, w) h q = q

    pub Triple-weaken :
        (P P' : Store → Type 0) (Q Q' : A → Store → Type 0) (m : Io A)
        → ((s : Store) → P' s → P s)
        → ((a : A) (s : Store) → Q a s → Q' a s)
        → Triple P m Q
        → Triple P' m Q'
    Triple-weaken P P' Q Q' m before after t = record {
      at = λ w p. Meets-weaken Q Q' (m w) after (t.at w (before w.store p));
    }

    -- What the precondition says of the file system at the start may be used.
    pub Triple-from :
        (P : Store → Type 0) (Q : A → Store → Type 0) (m : Io A)
        → ((s : Store) → P s → Triple P m Q)
        → Triple P m Q
    Triple-from P Q m h = record { at = λ w p. (h w.store p).at w p }

    -- A fact that does not depend on the file system may be assumed.
    pub Triple-fact :
        (F : Type 0) (P : Store → Type 0) (Q : A → Store → Type 0) (m : Io A)
        → (F → Triple P m Q)
        → Triple (λ s. F × P s) m Q
    Triple-fact F P Q m h = record { at = λ w p. (h p.0).at w p.1 }

    pub Triple-syscall :
        (P : Store → Type 0) (Q : A → Store → Type 0) (f : Store → Result IoError (A × Store))
        → ((s : Store) → P s → E s)
        → ((s : Store) (a : A) (s' : Store) → P s → f s ≡ ok (a, s') → Q a s')
        → Triple P (syscall f) Q
    Triple-syscall P Q f refused kept = record {
      at = λ w p. elim (syscall-Called f w) [
        | inl (e, faults, why, r) ↦ subst (Meets Q E U) (sym r) (refused w.store p)
        | inr (a, s', faults, ends, r) ↦ subst (Meets Q E U) (sym r) (kept w.store a s' p ends)
      ];
    }

    -- What is tried has no error of its own.
    abbrev pub Either : (A → Store → Type 0) → (Store → Type 0) → Result IoError A → Store → Type 0
    Either Q F (ok a) s = Q a s
    Either Q F (err e) s = F s

  module _ {A B : Type 0} where
    and_then-Meets :
        (Q : A → Store → Type 0) (R : B → Store → Type 0) (k : A → Io B) (r : Answer A × World)
        → ((a : A) → Triple (Q a) (k a) R)
        → Meets Q E U r
        → Meets R E U (and_then r k)
    and_then-Meets Q R k (done a, w) h q = (h a).at w q
    and_then-Meets Q R k (failed e, w) h q = q
    and_then-Meets Q R k (unfinished, w) h q = q

    pub Triple-bind :
        (P : Store → Type 0) (Q : A → Store → Type 0) (R : B → Store → Type 0) (m : Io A)
        (k : A → Io B)
        → Triple P m Q
        → ((a : A) → Triple (Q a) (k a) R)
        → Triple P (m >>= k) R
    Triple-bind P Q R m k first next = record {
      at = λ w p. and_then-Meets Q R k (m w) next (first.at w p);
    }

module _ {A : Type 0} (E F U : Store → Type 0) where
  caught-Meets :
      (Q : A → Store → Type 0) (r : Answer A × World)
      → Meets Q F U r
      → Meets (Either E U Q F) E U (caught r)
  caught-Meets Q (done a, w) q = q
  caught-Meets Q (failed e, w) q = q
  caught-Meets Q (unfinished, w) q = q

  pub Triple-attempt :
      (P : Store → Type 0) (Q : A → Store → Type 0) (m : Io A)
      → Triple F U P m Q
      → Triple E U P (attempt m) (Either E U Q F)
  Triple-attempt P Q m t = record { at = λ w p. caught-Meets Q (m w) (t.at w p) }
