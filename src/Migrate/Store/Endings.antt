-- ===== src/Migrate/Store/Endings.antt =====
-- The ends of a system call.
use gnosis_vpn_toolkit.Prelude.{
  true, ℕ, Option-cases, arith, Option, none, some, List, [], ◌∷◌, ◌≡◌, refl, ◌⊎◌, inl, inr, Result,
  ok, err,
}
use gnosis_vpn_toolkit.Prelude.Text.{Text}
use gnosis_vpn_toolkit.Migrate.Store.Calls.{entry, open_as_directory, directory_handle}
use gnosis_vpn_toolkit.Migrate.Store.{
  IoError, other, Store, World, Answer, done, failed, called, perform, syscall, lookup_in, Kind,
  directory, regular, symlink, special, is_directory,
}

module _ {A : Type 0} (f : Store → Result IoError (A × Store)) where
  -- A call fails without a change, for a reason of the kernel's own or for what the store holds, or
  -- does what the kernel does.
  abbrev pub Refused : Store → Answer A × World → Type 0
  Refused s r =
      (e : IoError) × (faults : List (Option Text)) × (((message : Text) × (e ≡ other message))
        ⊎ (f s ≡ err e))
      × (r ≡ (failed e, record { store = s; faults = faults }))

  abbrev pub Obeyed : Store → Answer A × World → Type 0
  Obeyed s r =
      (a : A) × (s' : Store) × (faults : List (Option Text)) × (f s ≡ ok (a, s'))
      × (r ≡ (done a, record { store = s'; faults = faults }))

  perform-Called :
      (s : Store) (faults : List (Option Text)) (r : Result IoError (A × Store))
      → f s ≡ r
      → Refused s (perform s faults r) ⊎ Obeyed s (perform s faults r)
  unfolding perform
  perform-Called s faults (ok (a, s')) e = inr (a, s', faults, e, refl)
  perform-Called s faults (err x) e = inl (x, faults, inr e, refl)

  called-Called :
      (s : Store) (faults : List (Option Text))
      → Refused s (called f s faults) ⊎ Obeyed s (called f s faults)
  unfolding called
  called-Called s [] = perform-Called s [] (f s) refl
  called-Called s (none ∷ faults) = perform-Called s faults (f s) refl
  called-Called s (some m ∷ faults) = inl (other m, faults, inl (m, refl), refl)

  pub syscall-Called : (w : World) → Refused w.store (syscall f w) ⊎ Obeyed w.store (syscall f w)
  unfolding syscall
  syscall-Called w = called-Called w.store w.faults

-- A call on a name does its work on what stands there.
pub entry-ok :
    {A : Type 0} (d : ℕ) (name : Text) (k : ℕ → Store → Result IoError A) (s : Store) {a : A}
    → entry d name k s ≡ ok a
    → (i : ℕ) × (lookup_in s d name ≡ some i) × (k i s ≡ ok a)
unfolding entry
entry-ok d name k s ends = elim (Option-cases (lookup_in s d name)) [
  | inl nothing ↦ absurd (ground arith)
  | inr (i, found) ↦ (i, found, rw (found, entry) at ends)
]

pub open_as_directory-ok :
    (k : Kind) (i : ℕ) (s : Store) {c : ℕ} {s' : Store}
    → open_as_directory k i s ≡ ok (c, s')
    → (i ≡ c) × (s ≡ s') × (is_directory k ≡ true)
open_as_directory-ok (directory entries) i s ends = ground arith
open_as_directory-ok (regular bytes) i s ends = cc
open_as_directory-ok (symlink target) i s ends = cc
open_as_directory-ok special i s ends = cc

open_as_directory-succeeds :
    (k : Kind) (i : ℕ) (s : Store) → is_directory k ≡ true → open_as_directory k i s ≡ ok (i, s)
open_as_directory-succeeds (directory entries) i s dir = refl
open_as_directory-succeeds (regular bytes) i s dir = cc
open_as_directory-succeeds (symlink target) i s dir = cc
open_as_directory-succeeds special i s dir = cc

-- What is a directory is opened.
pub directory_handle-succeeds :
    (s : Store) (d : ℕ) (name : Text) {c : ℕ}
    → lookup_in s d name ≡ some c
    → is_directory (s.node_at c).kind ≡ true
    → entry d name directory_handle s ≡ ok (c, s)
unfolding entry
directory_handle-succeeds s d name {c} at dir =
    rw (at, entry) (open_as_directory-succeeds (s.node_at c).kind c s dir)
