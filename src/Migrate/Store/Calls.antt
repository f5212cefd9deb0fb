-- ===== src/Migrate/Store/Calls.antt =====
-- The system calls on a handle and a name, as the kernel answers them when it does not refuse.
use gnosis_vpn_toolkit.Prelude.{
  ℕ, suc, ◌-◌, Bool, true, false, Option, none, some, List, [], ◌∷◌, ◌++◌, Result, ok, err, ◌==◌,
  if◌then◌else◌,
}
use gnosis_vpn_toolkit.Prelude.Text.{Text, codes}
use gnosis_vpn_toolkit.Migrate.Dirs.{Dir, lookup, delete, is_some}
use gnosis_vpn_toolkit.Migrate.Store.{
  IoError, no_entry, already_exists, not_empty, not_a_directory, is_a_directory, symlink_loop,
  other, Kind, regular, directory, symlink, Node, Store, Process, Io, syscall, lookup_in, names_in,
  set_node, set_entries,
}

-- What stands at a name; a link is not followed.
unfoldable pub entry :
    {A : Type 0} → ℕ → Text → (ℕ → Store → Result IoError A) → Store → Result IoError A
entry d name k s = elim (lookup_in s d name) [ none ↦ err no_entry | some i ↦ k i s ]

abbrev pub open_as_directory : Kind → ℕ → Store → Result IoError (ℕ × Store)
open_as_directory (directory _) i s = ok (i, s)
open_as_directory _ i s = err not_a_directory

abbrev pub directory_handle : ℕ → Store → Result IoError (ℕ × Store)
directory_handle i s = open_as_directory (s.node_at i).kind i s

-- `openat` with O_DIRECTORY and O_NOFOLLOW.
unfoldable pub open_directory : ℕ → Text → Io ℕ
unfolding syscall entry
open_directory d name = syscall (entry d name directory_handle)

abbrev pub open_unless_symlink : Kind → ℕ → Store → Result IoError (ℕ × Store)
open_unless_symlink (symlink _) i s = err symlink_loop
open_unless_symlink _ i s = ok (i, s)

abbrev pub read_handle : ℕ → Store → Result IoError (ℕ × Store)
read_handle i s = open_unless_symlink (s.node_at i).kind i s

-- `openat` with O_RDONLY, O_NOFOLLOW and O_NONBLOCK.
unfoldable pub open_reading : ℕ → Text → Io ℕ
unfolding syscall entry
open_reading d name = syscall (entry d name read_handle)

-- `dup`, `fsync`, `fstat` and `fstatat` without following.
unfoldable pub duplicate : ℕ → Io ℕ
unfolding syscall
duplicate d = syscall (λ s. ok (d, s))

unfoldable pub synchronise : ℕ → Io (Unit {0})
unfolding syscall
synchronise d = syscall (λ s. ok (tt, s))

-- `lseek` to the start.
unfoldable pub rewind : ℕ → Io (Unit {0})
unfolding syscall
rewind i = syscall (λ s. ok (tt, s))

unfoldable pub status : ℕ → Io Node
unfolding syscall
status i = syscall (λ s. ok (s.node_at i, s))

unfoldable pub status_at : ℕ → Text → Io Node
unfolding syscall entry
status_at d name = syscall (entry d name (λ i s. ok (s.node_at i, s)))

-- `fchmod`, `fchown`, and `fchownat` of the entry itself. Whether a change of owner by root clears the
-- set-user-id and set-group-id bits is up to the system; here the mode stays.
unfoldable pub change_mode : ℕ → ℕ → Io (Unit {0})
unfolding syscall
change_mode i mode = syscall (λ s. ok (tt, set_node i (record (s.node_at i) { mode = mode }) s))

abbrev pub owned : ℕ → ℕ → Node → Node
owned uid gid n = record n { uid = uid; gid = gid }

abbrev pub give_to : ℕ → ℕ → ℕ → Store → Result IoError (Unit {0} × Store)
give_to uid gid i s = ok (tt, set_node i (owned uid gid (s.node_at i)) s)

unfoldable pub change_owner : ℕ → ℕ → ℕ → Io (Unit {0})
unfolding syscall
change_owner i uid gid = syscall (give_to uid gid i)

unfoldable pub change_owner_at : ℕ → Text → ℕ → ℕ → Io (Unit {0})
unfolding syscall entry
change_owner_at d name uid gid = syscall (entry d name (give_to uid gid))

-- A new node under a name that is free.
abbrev pub fresh_node : Process → Kind → ℕ → Node
fresh_node p kind mode = record {
  kind = kind;
  uid = p.euid;
  gid = p.egid;
  mode = p.masked mode;
  nlink = 1;
}

abbrev pub with_fresh : Node → Store → Store
with_fresh n s = record (set_node s.fresh n s) { fresh = suc s.fresh }

abbrev pub add_to : Kind → ℕ → Text → Node → Store → Result IoError (ℕ × Store)
add_to (directory entries) d name n s =
    if is_some (lookup name entries)
    then err already_exists
    else ok (s.fresh, set_entries d ((name, s.fresh) ∷ entries) (with_fresh n s))
add_to _ d name n s = err not_a_directory

abbrev pub add_node : ℕ → Text → Node → Store → Result IoError (ℕ × Store)
add_node d name n s = add_to (s.node_at d).kind d name n s

-- `mkdirat`, and `openat` with O_CREAT and O_EXCL.
unfoldable pub make_directory : Process → ℕ → Text → ℕ → Io ℕ
unfolding syscall
make_directory p d name mode = syscall (add_node d name (fresh_node p (directory []) mode))

unfoldable pub create_exclusive : Process → ℕ → Text → ℕ → Io ℕ
unfolding syscall
create_exclusive p d name mode = syscall (add_node d name (fresh_node p (regular []) mode))

-- A name is taken from a directory, and its node loses a link.
abbrev pub take_name : ℕ → Text → Store → Store
take_name d name s = set_entries d (delete name (names_in (s.node_at d).kind)) s

abbrev pub drop_link : ℕ → Store → Store
drop_link i s = set_node i (record (s.node_at i) { nlink = (s.node_at i).nlink - 1 }) s

abbrev pub unlink_kind : Kind → ℕ → Text → ℕ → Store → Result IoError (Unit {0} × Store)
unlink_kind (directory _) d name i s = err is_a_directory
unlink_kind _ d name i s = ok (tt, take_name d name (drop_link i s))

-- `unlinkat`, and `unlinkat` with AT_REMOVEDIR.
unfoldable pub unlink : ℕ → Text → Io (Unit {0})
unfolding syscall entry
unlink d name = syscall (entry d name (λ i s. unlink_kind (s.node_at i).kind d name i s))

abbrev pub rmdir_kind : Kind → ℕ → Text → Store → Result IoError (Unit {0} × Store)
rmdir_kind (directory []) d name s = ok (tt, take_name d name s)
rmdir_kind (directory (_ ∷ _)) d name s = err not_empty
rmdir_kind _ d name s = err not_a_directory

unfoldable pub remove_directory : ℕ → Text → Io (Unit {0})
unfolding syscall entry
remove_directory d name = syscall (entry d name (λ i s. rmdir_kind (s.node_at i).kind d name s))

-- `renameat`: a directory replaces only an empty directory, anything else no directory; two names
-- of one node stay. That a directory is not moved below itself is left to the faults.
abbrev pub put_name : ℕ → Text → ℕ → Store → Store
put_name d name i s = set_entries d ((name, i) ∷ delete name (names_in (s.node_at d).kind)) s

abbrev pub move_name : ℕ → Text → ℕ → Text → ℕ → Store → Store
move_name d name d' name' i s = put_name d' name' i (take_name d name s)

abbrev pub replace_kind : Kind → Kind → ℕ → ℕ → Store → Result IoError Store
replace_kind (directory _) (directory []) i j s = ok s
replace_kind (directory _) (directory (_ ∷ _)) i j s = err not_empty
replace_kind (directory _) _ i j s = err not_a_directory
replace_kind _ (directory _) i j s = err is_a_directory
replace_kind _ _ i j s = ok (drop_link j s)

abbrev pub rename_onto :
    Option ℕ → ℕ → Text → ℕ → Text → ℕ → Store → Result IoError (Unit {0} × Store)
rename_onto none d name d' name' i s = ok (tt, move_name d name d' name' i s)
rename_onto (some j) d name d' name' i s =
    if i == j then ok (tt, s) else elim (replace_kind (s.node_at i).kind (s.node_at j).kind i j s) [
      | err e ↦ err e
      | ok s' ↦ ok (tt, move_name d name d' name' i s')
    ]

unfoldable pub rename_at : ℕ → Text → ℕ → Text → Io (Unit {0})
unfolding syscall entry
rename_at d name d' name' =
    syscall (entry d name (λ i s. rename_onto (lookup_in s d' name') d name d' name' i s))

-- `getdents`: the names with the types of their nodes, if the file system reports them, and the two
-- dots.
abbrev pub reported : Bool → Store → ℕ → Option Kind
reported true s i = some (s.node_at i).kind
reported false s i = none

abbrev pub listed : Process → Store → Dir → List (Text × Option Kind)
listed p s [] = []
listed p s ((name, i) ∷ entries) = (name, reported p.reports_types s i) ∷ listed p s entries

abbrev pub listing : Process → ℕ → Store → List (Text × Option Kind)
listing p d s = (codes ".", none) ∷ (codes "..", none) ∷ listed p s (names_in (s.node_at d).kind)

unfoldable pub read_directory : Process → ℕ → Io (List (Text × Option Kind))
unfolding syscall
read_directory p d = syscall (λ s. ok (listing p d s, s))

-- The bytes of an open file from its start, and bytes written at its end.
abbrev pub bytes_of : Kind → Store → Result IoError (Text × Store)
bytes_of (regular bytes) s = ok (bytes, s)
bytes_of (directory _) s = err is_a_directory
bytes_of _ s = err (other (codes "Invalid argument (os error 22)"))

unfoldable pub read_file : ℕ → Io Text
unfolding syscall
read_file i = syscall (λ s. bytes_of (s.node_at i).kind s)

abbrev pub appended : Kind → Text → Kind
appended (regular old) bytes = regular (old ++ bytes)
appended k bytes = k

unfoldable pub write_file : ℕ → Text → Io (Unit {0})
unfolding syscall
write_file i bytes =
    syscall (λ s.
      ok (tt, set_node i (record (s.node_at i) { kind = appended (s.node_at i).kind bytes }) s))
