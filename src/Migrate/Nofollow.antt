-- ===== src/Migrate/Nofollow.antt =====
-- Root's walks and changes in a tree that a user controls, through held handles and never along a
-- symlink (gnosis_vpn-migrate/src/nofollow.rs). The recursions have a number of rounds, one for each
-- level of the tree and one more.
pub mod Reach
pub mod Reading
pub mod Existing
pub mod Finishing
pub mod Owners
pub mod Removal
pub mod Walks
mod Tests
use gnosis_vpn_toolkit.Prelude.{
  ℕ, zero, suc, ◌+◌, Bool, true, false, not, ◌||◌, Option, none, some, List, [], ◌∷◌, Result, ok,
  err, ◌==◌, if◌then◌else◌,
}
use gnosis_vpn_toolkit.Prelude.Text.{Text, codes, text_eq}
use gnosis_vpn_toolkit.FilePath.{
  Component, root_dir, cur_dir, parent_dir, normal, components, file_name,
}
use gnosis_vpn_toolkit.Migrate.Store.{
  IoError, no_entry, already_exists, not_empty, not_a_directory, is_a_directory, symlink_loop,
  other, Kind, regular, directory, symlink, special, Node, Process, Io, pure, fail, give_up,
  attempt, ◌>>=◌, ◌>>◌, is_directory, syscall,
}
use gnosis_vpn_toolkit.Migrate.Store.Calls.{
  open_directory, open_reading, duplicate, synchronise, status, status_at, change_mode,
  change_owner, change_owner_at, make_directory, create_exclusive, unlink, remove_directory,
  rename_at, read_directory,
}
use gnosis_vpn_toolkit.Migrate.User.{Account, chown}

abbrev names_of : Component → List Text → List Text
names_of (normal name) rest = name ∷ rest
names_of _ rest = rest

unfoldable pub names : List Component → List Text
names [] = []
names (c ∷ rest) = names_of c (names rest)

unfoldable pub open_home : Process → Text → Io ℕ
open_home p path = syscall (λ s. elim (p.directory_at s path) [ err e ↦ err e | ok d ↦ ok (d, s) ])

abbrev pub open_dir : ℕ → Text → Io ℕ
open_dir = open_directory

abbrev pub absent : {A : Type 0} → IoError → Io (Option A)
absent no_entry = pure none
absent e = fail e

unfoldable pub find_from : ℕ → List Text → Io (Option ℕ)
find_from dir [] = pure (some dir)
find_from dir (name ∷ rest) = do
  opened ← attempt (open_dir dir name)
  elim opened [ ok child ↦ find_from child rest | err e ↦ absent e ]

unfoldable pub find_dir : ℕ → List Component → Io (Option ℕ)
unfolding find_from
find_dir root rel = do dir ← duplicate root; find_from dir (names rel)

-- `mkdirat` is subject to the umask, so the mode is set again.
unfoldable pub create_dir : Process → ℕ → Text → ℕ → Io ℕ
create_dir p parent name mode = do
  made ← make_directory p parent name mode
  dir ← open_dir parent name
  change_mode dir mode
  pure dir

abbrev pub created_for : Process → Account → ℕ → Text → ℕ → Io ℕ
created_for p account dir name mode = do
  child ← create_dir p dir name mode
  chown child account
  pure child

abbrev pub child_or_created : Process → Account → ℕ → Text → ℕ → Result IoError ℕ → Io ℕ
child_or_created p account dir name mode (ok child) = pure child
child_or_created p account dir name mode (err no_entry) = created_for p account dir name mode
child_or_created p account dir name mode (err e) = fail e

unfoldable pub ensure_from : Process → Account → ℕ → ℕ → List Text → Io ℕ
ensure_from p account mode dir [] = pure dir
ensure_from p account mode dir (name ∷ rest) = do
  opened ← attempt (open_dir dir name)
  child ← child_or_created p account dir name mode opened
  ensure_from p account mode child rest

unfoldable pub ensure_dir : Process → ℕ → List Component → ℕ → Account → Io ℕ
unfolding ensure_from
ensure_dir p root rel mode account = do
  dir ← duplicate root
  ensure_from p account mode dir (names rel)

unfoldable pub create_file : Process → ℕ → Text → ℕ → Io ℕ
create_file p dir name mode = do
  file ← create_exclusive p dir name mode
  change_mode file mode
  pure file

abbrev pub is_regular : Kind → Bool
is_regular (regular _) = true
is_regular _ = false

unfoldable pub open_regular_file : ℕ → Text → Io ℕ
open_regular_file dir name = do
  file ← open_reading dir name
  stat ← status file
  if not (is_regular stat.kind)
      then fail (other (codes "not a regular file"))
      else if not (stat.nlink == 1)
      then fail (other (codes "has more than one hard link"))
      else pure file

abbrev pub present_or : {A : Type 0} → Result IoError A → Io Bool
present_or (ok _) = pure true
present_or (err no_entry) = pure false
present_or (err e) = fail e

unfoldable pub exists : ℕ → Text → Io Bool
exists dir name = attempt (status_at dir name) >>= present_or

abbrev pub rename_across : ℕ → Text → ℕ → Text → Io (Unit {0})
rename_across = rename_at

abbrev pub sync : ℕ → Io (Unit {0})
sync = synchronise

abbrev removed_or : Result IoError (Unit {0}) → Io Bool
removed_or (ok _) = pure true
removed_or (err no_entry) = pure false
removed_or (err not_empty) = pure false
removed_or (err already_exists) = pure false
removed_or (err e) = fail e

unfoldable pub remove_empty_dir : ℕ → Text → Io Bool
remove_empty_dir parent name = attempt (remove_directory parent name) >>= removed_or

abbrev pub is_dots : Text → Bool
is_dots name = text_eq name (codes ".") || text_eq name (codes "..")

-- Some file systems report no type in the entry.
unfoldable pub is_dir : ℕ → Text → Option Kind → Io Bool
is_dir dir name (some kind) = pure (is_directory kind)
is_dir dir name none = do stat ← status_at dir name; pure (is_directory stat.kind)

-- The loop over a listing, with what to do with a child.
unfoldable pub each_child :
    (Text → Option Kind → Io (Unit {0})) → List (Text × Option Kind) → Io (Unit {0})
each_child act [] = pure tt
each_child act ((name, kind) ∷ rest) =
    if is_dots name then each_child act rest else act name kind >> each_child act rest

unfoldable pub remove_tree : Process → ℕ → ℕ → Text → Io (Unit {0})
unfolding each_child
remove_tree p zero parent name = give_up
remove_tree p (suc rounds) parent name = do
  dir ← open_dir parent name
  listing ← read_directory p dir
  each_child
      (λ child kind. do
        deeper ← is_dir dir child kind
        if deeper then remove_tree p rounds dir child else unlink dir child)
      listing
  remove_directory parent name

-- Removes a file, a symlink or a whole tree.
unfoldable pub remove : Process → ℕ → ℕ → Text → Io (Unit {0})
remove p rounds parent name = do
  stat ← status_at parent name
  if is_directory stat.kind then remove_tree p rounds parent name else unlink parent name

-- The names in a directory without the dots.
unfoldable pub without_dots : List (Text × Option Kind) → List Text
without_dots [] = []
without_dots ((name, kind) ∷ rest) =
    let others = without_dots rest in if is_dots name then others else name ∷ others

unfoldable pub entries : Process → ℕ → Io (List Text)
unfolding without_dots
entries p dir = do listing ← read_directory p dir; pure (without_dots listing)

-- Only the link itself for a symlink; a node of more than one name is left as it is.
unfoldable pub reown_entry : Process → ℕ → Text → Node → ℕ → Io ℕ
reown_entry p dir name stat from_uid =
    if not (stat.uid == from_uid)
    then pure 0
    else if not (stat.nlink == 1)
    then pure 0
    else (change_owner_at dir name p.euid p.egid >> pure 1)

abbrev pub reown_dir : Process → ℕ → Node → ℕ → Io ℕ
reown_dir p dir stat from_uid =
    if stat.uid == from_uid then (change_owner dir p.euid p.egid >> pure 1) else pure 0

-- The loop over the names, with the call for a child.
unfoldable pub sum_over : (Text → Io ℕ) → ℕ → List Text → Io ℕ
sum_over act reowned [] = pure reowned
sum_over act reowned (child ∷ rest) = do more ← act child; sum_over act (reowned + more) rest

-- The directory by its open handle, and what is in it.
unfoldable pub reown_held : Process → ℕ → Text → ℕ → (ℕ → Text → Io ℕ) → Io ℕ
unfolding sum_over
reown_held p parent name from_uid act = do
  dir ← open_dir parent name
  held ← status dir
  reowned ← reown_dir p dir held from_uid
  children ← entries p dir
  sum_over (act dir) reowned children

unfoldable pub reown_tree : Process → ℕ → ℕ → Text → ℕ → Io ℕ
unfolding reown_entry reown_held
reown_tree p zero parent name from_uid = give_up
reown_tree p (suc rounds) parent name from_uid = do
  stat ← status_at parent name
  if not (is_directory stat.kind)
      then reown_entry p parent name stat from_uid
      else reown_held p parent name from_uid (λ dir child. reown_tree p rounds dir child from_uid)
