-- ===== src/Migrate/Logging.antt =====
-- The log file of a run (`setup`, `open_append` and `ensure_dir_nofollow` of
-- gnosis_vpn-toolkit-common/src/logging.rs). The lines that a run then appends to it are not modelled.
pub mod Growing
pub mod Ending
use gnosis_vpn_toolkit.Prelude.{
  ℕ, Bool, not, Option, none, some, List, [], ◌∷◌, ◌≡◌, Result, ok, err, ◌==◌, if◌then◌else◌,
}
use gnosis_vpn_toolkit.Prelude.Text.{Text, codes, strip_prefix}
use gnosis_vpn_toolkit.FilePath.{Component, components, parent, file_name}
use gnosis_vpn_toolkit.Migrate.Store.{
  IoError, no_entry, symlink_loop, is_a_directory, other, Kind, regular, directory, symlink,
  special, Store, Process, Io, pure, fail, attempt, syscall, lookup_in, ◌>>=◌, ◌>>◌,
}
use gnosis_vpn_toolkit.Migrate.Store.Calls.{
  open_directory, make_directory, status, add_node, fresh_node,
}
use gnosis_vpn_toolkit.Migrate.Nofollow.{open_home, names, is_regular}

-- 0o644 and 0o755.
abbrev pub log_mode : ℕ
log_mode = 420

abbrev pub log_dir_mode : ℕ
log_dir_mode = 493

abbrev pub append_handle : Kind → ℕ → Store → Result IoError (ℕ × Store)
append_handle (symlink _) i s = err symlink_loop
append_handle (directory _) i s = err is_a_directory
append_handle _ i s = ok (i, s)

abbrev pub appending : Process → ℕ → Text → Option ℕ → Store → Result IoError (ℕ × Store)
appending p d name none s = add_node d name (fresh_node p (regular []) log_mode) s
appending p d name (some i) s = append_handle (s.node_at i).kind i s

-- `openat` with O_WRONLY, O_APPEND, O_CREAT, O_NOFOLLOW and O_NONBLOCK.
unfoldable pub open_appending : Process → ℕ → Text → Io ℕ
open_appending p d name = syscall (λ s. appending p d name (lookup_in s d name) s)

abbrev pub child_or_made : Process → ℕ → Text → Result IoError ℕ → Io ℕ
child_or_made p dir name (ok child) = pure child
child_or_made p dir name (err no_entry) =
    make_directory p dir name log_dir_mode >> open_directory dir name
child_or_made p dir name (err e) = fail e

unfoldable pub ensure_each : Process → ℕ → List Text → Io ℕ
ensure_each p dir [] = pure dir
ensure_each p dir (name ∷ rest) = do
  opened ← attempt (open_directory dir name)
  child ← child_or_made p dir name opened
  ensure_each p child rest

-- From the root of an absolute path, or from the working directory.
abbrev pub start_of : List Component → Text
start_of (Component.root_dir ∷ _) = codes "/"
start_of _ = codes "."

unfoldable pub ensure_dir_nofollow : Process → List Component → Io ℕ
unfolding ensure_each
ensure_dir_nofollow p path = do dir ← open_home p (start_of path); ensure_each p dir (names path)

unfoldable pub open_in : Process → Option (List Component) → Option Text → Io ℕ
open_in p (some dir_path) (some name) = do
  dir ← ensure_dir_nofollow p dir_path
  file ← open_appending p dir name
  stat ← status file
  if not (is_regular stat.kind)
      then fail (other (codes "not a regular file"))
      else if not (stat.nlink == 1)
      then fail (other (codes "has more than one hard link"))
      else pure file
open_in p _ _ = fail (other (codes "not a file path"))

unfoldable pub open_append : Process → Text → Io ℕ
unfolding open_in parent file_name
open_append p path = open_in p (parent path) (file_name path)

-- The log file, or none when it cannot be opened.
abbrev pub log_handle : Result IoError ℕ → Option ℕ
log_handle (ok file) = some file
log_handle (err e) = none

unfoldable pub setup : Process → Text → Io (Option ℕ)
unfolding open_append
setup p path = attempt (open_append p path) >>= λ opened. pure (log_handle opened)
