-- ===== src/Migrate/Staging.antt =====
-- The verified copy of the legacy files into staging directories (`Networks::create`, `remove`,
-- `stage`, `copy_verified` and `write_marker` of gnosis_vpn-migrate/src/migrate.rs).
pub mod Copying
pub mod Verified
mod Tests
use gnosis_vpn_toolkit.Prelude.{
  ℕ, Bool, true, false, not, Option, none, some, List, [], ◌∷◌, ◌++◌, Result, ok, err, unwrap_or,
  if◌then◌else◌,
}
use gnosis_vpn_toolkit.Prelude.Text.{Text, codes, join, text_eq}
use gnosis_vpn_toolkit.FilePath.{Component, components, parent, file_name}
use gnosis_vpn_toolkit.Migrate.Outcome.{Failure, Stage, destination}
use gnosis_vpn_toolkit.Migrate.Layout.{
  UserLayout, networks_dir, dir_mode, file_mode, migrated_from_file,
}
use gnosis_vpn_toolkit.Migrate.Networks.{Place, on_data, on_cache}
use gnosis_vpn_toolkit.Migrate.Store
use gnosis_vpn_toolkit.Migrate.Store.{IoError, Process, Io, pure, attempt}
use gnosis_vpn_toolkit.Migrate.Store.Failing.{Fio, succeed, refuse, or_fail, ◌>>=◌, ◌>>◌}
use gnosis_vpn_toolkit.Migrate.Store.Calls.{duplicate, read_file, write_file, rewind}
use gnosis_vpn_toolkit.Migrate.User.{Account, chown}
use gnosis_vpn_toolkit.Migrate.Nofollow.{
  open_home, ensure_dir, create_dir, create_file, remove_tree, sync,
}
use gnosis_vpn_toolkit.Migrate.Legacy.{Legacy, Planned, legacy_failure}
use gnosis_vpn_toolkit.Migrate.Target.{destination_error}

-- The two `networks/` directories, held open.
pub record Held : Type 0 where
  pub data_handle : ℕ
  pub cache_handle : ℕ
  pub data_path : Text
  pub cache_path : Text

unfoldable pub ensure_parents : Process → ℕ → Account → List (Text × ℕ) → Fio (Unit {0})
unfolding destination_error join components
ensure_parents p home account [] = succeed tt
ensure_parents p home account ((dir, mode) ∷ rest) = do
  or_fail (destination_error (join account.home dir))
      (Store.◌>>=◌ (ensure_dir p home (components dir) mode account) (λ _. pure tt))
  ensure_parents p home account rest

unfoldable pub create : Process → Account → UserLayout → Fio Held
unfolding ensure_parents destination_error join components
create p account layout = do
  home ← or_fail (destination_error account.home) (open_home p account.home)
  ensure_parents p home account layout.parents
  let data_rel = join layout.data_root networks_dir
  let cache_rel = join layout.cache_root networks_dir
  let data_path = join account.home data_rel
  let cache_path = join account.home cache_rel
  data_handle ←
      or_fail (destination_error data_path)
        (ensure_dir p home (components data_rel) dir_mode account)
  cache_handle ←
      or_fail (destination_error cache_path)
        (ensure_dir p home (components cache_rel) dir_mode account)
  succeed (record {
    data_handle = data_handle;
    cache_handle = cache_handle;
    data_path = data_path;
    cache_path = cache_path;
  })

abbrev pub side_of : Held → Place → ℕ × Text
side_of held on_data = (held.data_handle, held.data_path)
side_of held on_cache = (held.cache_handle, held.cache_path)

-- A failed removal is only logged.
unfoldable pub remove_staging : Process → ℕ → Held → Text → Io (Unit {0})
remove_staging p rounds held staging =
    Store.◌>>=◌ (attempt (remove_tree p rounds held.data_handle staging))
      (λ _. Store.◌>>=◌ (attempt (remove_tree p rounds held.cache_handle staging)) (λ _. pure tt))

-- The directory of a file below the staging one.
abbrev pub subdir : Process → Account → ℕ → Option (List Component) → Io ℕ
subdir p account staging (some (c ∷ cs)) = ensure_dir p staging (c ∷ cs) dir_mode account
subdir p account staging _ = duplicate staging

abbrev pub differs_after_copy : Text → Planned → Failure
differs_after_copy to planned = record {
  stage = destination;
  error = to ++ (codes " differs from " ++ (planned.from ++ codes " after copy"));
}

unfoldable pub copy_verified :
    (Text → Text) → Process → Planned → ℕ → Text → Account → Fio (Unit {0})
unfolding destination_error join parent file_name
copy_verified sha256 p planned staging staging_path account = do
  let to = join staging_path planned.rel
  let dest = destination_error to
  dir ← or_fail dest (subdir p account staging (parent planned.rel))
  let name = unwrap_or (file_name planned.rel) []
  or_fail (legacy_failure planned.from) (rewind planned.source)
  copy ← or_fail dest (create_file p dir name file_mode)
  bytes ← or_fail dest (read_file planned.source)
  or_fail dest (write_file copy bytes)
  or_fail dest (chown copy account)
  or_fail dest (sync copy)
  or_fail dest (sync dir)
  or_fail dest (rewind copy)
  copied ← or_fail dest (read_file copy)
  if text_eq (sha256 copied) planned.sha256
      then succeed tt
      else refuse (differs_after_copy to planned)

unfoldable pub marker_content : Legacy → Text → Text → Text
marker_content legacy now toolkit_version =
    codes "source = "
    ++ (legacy.config_dir
        ++ (codes "\nmigrated_at = "
            ++ (now ++ (codes "\ntoolkit_version = " ++ (toolkit_version ++ codes "\n")))))

unfoldable pub write_marker : Process → ℕ → Text → Text → Account → Fio (Unit {0})
unfolding destination_error join
write_marker p staging staging_path content account = do
  let dest = destination_error (join staging_path migrated_from_file)
  marker ← or_fail dest (create_file p staging migrated_from_file file_mode)
  or_fail dest (write_file marker content)
  or_fail dest (chown marker account)
  or_fail dest (sync marker)

abbrev pub same_place : Place → Place → Bool
same_place on_data on_data = true
same_place on_cache on_cache = true
same_place _ _ = false

unfoldable pub copy_each :
    (Text → Text) → Process → Place → ℕ → Text → Account → List Planned → Fio (Unit {0})
unfolding copy_verified
copy_each sha256 p place dir dir_path account [] = succeed tt
copy_each sha256 p place dir dir_path account (planned ∷ rest) =
    if same_place planned.place place
    then copy_verified sha256 p planned dir dir_path account
      >> copy_each sha256 p place dir dir_path account rest
    else copy_each sha256 p place dir dir_path account rest

abbrev pub marker_for : Process → Place → ℕ → Text → Text → Account → Fio (Unit {0})
unfolding write_marker
marker_for p on_data dir dir_path marker account = write_marker p dir dir_path marker account
marker_for p on_cache dir dir_path marker account = succeed tt

unfoldable pub stage_place :
    (Text → Text) → Process → Held → Text → List Planned → Text → Account → Place → Fio (Unit {0})
unfolding copy_each marker_for destination_error join
stage_place sha256 p held name plan marker account place = do
  let dir_path = join (side_of held place).1 name
  let dest = destination_error dir_path
  dir ← or_fail dest (create_dir p (side_of held place).0 name dir_mode)
  copy_each sha256 p place dir dir_path account plan
  marker_for p place dir dir_path marker account
  or_fail dest (chown dir account)
  or_fail dest (sync dir)

-- Data first, then cache.
unfoldable pub stage :
    (Text → Text) → Process → Held → Text → List Planned → Text → Account → Fio (Unit {0})
unfolding stage_place
stage sha256 p held name plan marker account =
    stage_place sha256 p held name plan marker account on_data
    >> stage_place sha256 p held name plan marker account on_cache
