-- ===== src/Migrate/Store.antt =====
-- A file system as numbered nodes, and the system calls that gnosis_vpn-migrate/src/nofollow.rs makes
-- on handles. A handle is the number of its node, so it stays valid when the node is renamed. Before
-- each call the list of faults says whether the kernel refuses it, for a reason that the code does not
-- tell from others; a refused call changes nothing.
pub mod Endings
pub mod Failing
pub mod Triples
pub mod Verdicts
pub mod Steady
pub mod Keeping
pub mod Calls
pub mod Sample
use gnosis_vpn_toolkit.Prelude.{
  ℕ, suc, ◌+◌, ◌-◌, Bool, true, false, Option, none, some, List, [], ◌∷◌, Result, ok, err, ◌==◌,
  if◌then◌else◌,
}
use gnosis_vpn_toolkit.Prelude.Text.{Text, codes}
use gnosis_vpn_toolkit.Migrate.Dirs.{Dir, lookup, delete, is_some}

pub data IoError : Type 0 where
  no_entry already_exists not_empty not_a_directory is_a_directory symlink_loop : IoError
  other : Text → IoError

unfoldable pub show_io_error : IoError → Text
show_io_error no_entry = codes "No such file or directory (os error 2)"
show_io_error already_exists = codes "File exists (os error 17)"
show_io_error not_empty = codes "Directory not empty (os error 39)"
show_io_error not_a_directory = codes "Not a directory (os error 20)"
show_io_error is_a_directory = codes "Is a directory (os error 21)"
show_io_error symlink_loop = codes "Too many levels of symbolic links (os error 40)"
show_io_error (other message) = message

-- What stands at a node: a file's bytes, a directory's names, where a link points, or a FIFO, socket
-- or device.
pub data Kind : Type 0 where
  regular : Text → Kind
  directory : Dir → Kind
  symlink : Text → Kind
  special : Kind

pub record Node : Type 0 where
  pub kind : Kind
  pub uid : ℕ
  pub gid : ℕ
  pub mode : ℕ
  pub nlink : ℕ

-- The numbers from `fresh` on are not in use.
pub record Store : Type 0 where
  pub node_at : ℕ → Node
  pub fresh : ℕ

pub record World : Type 0 where
  pub store : Store
  pub faults : List (Option Text)

-- The process and its kernel: the effective ids, the umask, where an absolute path to a directory
-- leads, and whether listings report the types of the entries.
pub record Process : Type 0 where
  pub euid : ℕ
  pub egid : ℕ
  pub masked : ℕ → ℕ
  pub directory_at : Store → Text → Result IoError ℕ
  pub reports_types : Bool

-- A recursion that is out of rounds is `unfinished`.
pub data Answer (A : Type 0) : Type 0 where
  done : A → Answer A
  failed : IoError → Answer A
  unfinished : Answer A

abbrev pub Io : Type 0 → Type 0
Io A = World → Answer A × World

module _ {A : Type 0} where
  abbrev pub pure : A → Io A
  pure a w = (done a, w)

  abbrev pub fail : IoError → Io A
  fail e w = (failed e, w)

  abbrev pub give_up : Io A
  give_up w = (unfinished, w)

  abbrev pub caught : Answer A × World → Answer (Result IoError A) × World
  caught (done a, w) = (done (ok a), w)
  caught (failed e, w) = (done (err e), w)
  caught (unfinished, w) = (unfinished, w)

  -- A call whose error the caller looks at.
  abbrev pub attempt : Io A → Io (Result IoError A)
  attempt m w = caught (m w)

  perform : Store → List (Option Text) → Result IoError (A × Store) → Answer A × World
  perform s faults (ok (a, s')) = (done a, record { store = s'; faults = faults })
  perform s faults (err e) = (failed e, record { store = s; faults = faults })

  unfoldable pub called :
      (Store → Result IoError (A × Store)) → Store → List (Option Text) → Answer A × World
  unfolding perform
  called f s [] = perform s [] (f s)
  called f s (none ∷ faults) = perform s faults (f s)
  called f s (some message ∷ faults) =
      (failed (other message), record { store = s; faults = faults })

  unfoldable pub syscall : (Store → Result IoError (A × Store)) → Io A
  unfolding called
  syscall f w = called f w.store w.faults

module _ {A B : Type 0} where
  abbrev pub and_then : Answer A × World → (A → Io B) → Answer B × World
  and_then (done a, w) k = k a w
  and_then (failed e, w) k = (failed e, w)
  and_then (unfinished, w) k = (unfinished, w)

  infixl 5 ◌>>=◌ ◌>>◌
  abbrev pub ◌>>=◌ : Io A → (A → Io B) → Io B
  ◌>>=◌ m k w = and_then (m w) k

  abbrev pub ◌>>◌ : Io A → Io B → Io B
  m >> k = m >>= λ _. k

abbrev pub names_in : Kind → Dir
names_in (directory entries) = entries
names_in _ = []

abbrev pub is_directory : Kind → Bool
is_directory (directory _) = true
is_directory _ = false

abbrev pub lookup_in : Store → ℕ → Text → Option ℕ
lookup_in s d name = lookup name (names_in (s.node_at d).kind)

abbrev pub set_node : ℕ → Node → Store → Store
set_node i n s = record s { node_at = λ j. if j == i then n else s.node_at j }

abbrev pub set_entries : ℕ → Dir → Store → Store
set_entries d entries s = set_node d (record (s.node_at d) { kind = directory entries }) s
