-- ===== src/Migrate/Target.antt =====
-- Where a user's identity for a network stands, and how it compares with the legacy one (`Target` of
-- gnosis_vpn-migrate/src/migrate.rs).
pub mod Comparing
pub mod Matching
mod Tests
use gnosis_vpn_toolkit.Prelude.{
  ℕ, Bool, true, false, not, Option, none, some, List, [], ◌∷◌, ◌++◌, Result, ok, err,
  if◌then◌else◌,
}
use gnosis_vpn_toolkit.Prelude.Text.{Text, join, text_eq}
use gnosis_vpn_toolkit.FilePath.{Component, components, parent, file_name}
use gnosis_vpn_toolkit.Migrate.Outcome.{Failure, Mismatch, Difference, missing, differs}
use gnosis_vpn_toolkit.Migrate.Layout.{UserLayout, network_dir}
use gnosis_vpn_toolkit.Migrate.Networks.{Place, on_data, on_cache, destination_failure}
use gnosis_vpn_toolkit.Migrate.Store
use gnosis_vpn_toolkit.Migrate.Store.{IoError, show_io_error, Process, Io, pure, attempt}
use gnosis_vpn_toolkit.Migrate.Store.Failing.{Fio, succeed, or_fail, ◌>>=◌, ◌>>◌}
use gnosis_vpn_toolkit.Migrate.Store.Calls.{read_file}
use gnosis_vpn_toolkit.Migrate.Nofollow.{open_home, find_dir, exists, open_regular_file}
use gnosis_vpn_toolkit.Migrate.Legacy.{Planned}

pub record Target : Type 0 where
  pub home : Text
  pub data_rel : Text
  pub cache_rel : Text
  pub data_path : Text
  pub cache_path : Text

unfoldable pub destination_error : Text → IoError → Failure
destination_error path e = destination_failure path (show_io_error e)

unfoldable pub new : Text → UserLayout → Text → Target
unfolding network_dir join
new home layout network =
    let data_rel = network_dir layout.data_root network in
    let cache_rel = network_dir layout.cache_root network in
    record {
      home = home;
      data_rel = data_rel;
      cache_rel = cache_rel;
      data_path = join home data_rel;
      cache_path = join home cache_rel;
    }

-- Whether a directory has an entry, if the directory is there.
unfoldable pub entry_in : Text → Text → Option ℕ → Fio Bool
unfolding destination_error
entry_in path name none = succeed false
entry_in path name (some dir) = or_fail (destination_error path) (exists dir name)

unfoldable pub present_at : ℕ → Text → Option (List Component) → Option Text → Fio Bool
unfolding entry_in
present_at home path (some dir) (some name) = do
  found ← or_fail (destination_error path) (find_dir home dir)
  entry_in path name found
present_at home path _ _ = succeed false

unfoldable pub target_exists : Process → Target → Fio Bool
unfolding present_at parent file_name destination_error
target_exists p t = do
  home ← or_fail (destination_error t.home) (open_home p t.home)
  here ← present_at home t.data_path (parent t.data_rel) (file_name t.data_rel)
  if here
      then succeed true
      else present_at home t.cache_path (parent t.cache_rel) (file_name t.cache_rel)

abbrev pub base_path : Target → Place → Text
base_path t on_data = t.data_path
base_path t on_cache = t.cache_path

abbrev pub base_rel : Target → Place → Text
base_rel t on_data = t.data_rel
base_rel t on_cache = t.cache_rel

unfoldable pub path : Target → Planned → Text
unfolding join
path t planned = join (base_path t planned.place) planned.rel

-- What cannot be opened as a plain file reads as missing.
abbrev pub opened_or_none : Result IoError ℕ → Io (Option ℕ)
opened_or_none (ok file) = pure (some file)
opened_or_none (err e) = pure none

abbrev pub file_in : Text → Result IoError (Option ℕ) → Io (Option ℕ)
file_in name (ok (some dir)) = Store.◌>>=◌ (attempt (open_regular_file dir name)) opened_or_none
file_in name (ok none) = pure none
file_in name (err e) = pure none

abbrev pub open_at : ℕ → Option (List Component) → Option Text → Io (Option ℕ)
open_at home (some dir) (some name) = Store.◌>>=◌ (attempt (find_dir home dir)) (file_in name)
open_at home _ _ = pure none

unfoldable pub open_target : Target → ℕ → Planned → Io (Option ℕ)
unfolding parent file_name join
open_target t home planned =
    let rel = join (base_rel t planned.place) planned.rel in
    open_at home (parent rel) (file_name rel)

abbrev pub mismatch : Target → Planned → Difference → List Mismatch
unfolding path
mismatch t planned difference =
    record { legacy = planned.from; target = path t planned; difference = difference } ∷ []

unfoldable pub compare_file : (Text → Text) → Target → Planned → Option ℕ → Fio (List Mismatch)
unfolding mismatch destination_error path
compare_file sha256 t planned none = succeed (mismatch t planned missing)
compare_file sha256 t planned (some file) = do
  bytes ← or_fail (destination_error (path t planned)) (read_file file)
  succeed (if not (text_eq (sha256 bytes) planned.sha256) then mismatch t planned differs else [])

unfoldable pub compare_each :
    (Text → Text) → Target → ℕ → List Planned → List Mismatch → Fio (List Mismatch)
unfolding compare_file open_target
compare_each sha256 t home [] mismatches = succeed mismatches
compare_each sha256 t home (planned ∷ rest) mismatches =
    Store.◌>>=◌ (open_target t home planned) (λ file. do
      more ← compare_file sha256 t planned file
      compare_each sha256 t home rest (mismatches ++ more))

unfoldable pub compare : (Text → Text) → Process → Target → List Planned → Fio (List Mismatch)
unfolding compare_each destination_error
compare sha256 p t plan = do
  home ← or_fail (destination_error t.home) (open_home p t.home)
  compare_each sha256 t home plan []
