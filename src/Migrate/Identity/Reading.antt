-- ===== src/Migrate/Identity/Reading.antt =====
-- The legacy files and the destination are looked at without a change.
use gnosis_vpn_toolkit.Prelude.{false, ℕ, Option, none, some, List, [], ◌∷◌, ◌++◌, Result, ok, err}
use gnosis_vpn_toolkit.Prelude.Text.{Text, join}
use gnosis_vpn_toolkit.FilePath.{Component, components, parent, file_name}
use gnosis_vpn_toolkit.Migrate.Outcome.{Mismatch}
use gnosis_vpn_toolkit.Migrate.Layout.{
  legacy_config_dir, legacy_identity_file, legacy_password_file, legacy_safe_file, pix_db_file,
}
use gnosis_vpn_toolkit.Migrate.Store.{
  IoError, no_entry, already_exists, not_empty, not_a_directory, is_a_directory, symlink_loop,
  other, Process,
}
use gnosis_vpn_toolkit.Migrate.Store.Keeping.{
  Keeps, Keeps-done, if-Keeps, attempt-Keeps, or_fail-Keeps, bind-Keeps, chain-Keeps,
}
use gnosis_vpn_toolkit.Migrate.Nofollow.Reading.{
  open_home-Keeps, find_dir-Keeps, status-Keeps, exists-Keeps, open_regular_file-Keeps,
  read_file-Keeps,
}
use gnosis_vpn_toolkit.Migrate.Legacy.{
  Legacy, Source, Planned, open_or_none, open_legacy_home, config_has, with_identity, with_config,
  config_or_none, in_home, find, plan_source, plan_sources, plan,
}
use gnosis_vpn_toolkit.Migrate.Target.{
  Target, entry_in, present_at, target_exists, opened_or_none, file_in, open_at, open_target,
  compare_file, compare_each, compare,
}

open_or_none-Keeps : (path : Text) (r : Result IoError ℕ) → Keeps false (open_or_none path r)
open_or_none-Keeps path (ok home) = Keeps-done _
open_or_none-Keeps path (err no_entry) = Keeps-done _
open_or_none-Keeps path (err already_exists) = Keeps-done _
open_or_none-Keeps path (err not_empty) = Keeps-done _
open_or_none-Keeps path (err not_a_directory) = Keeps-done _
open_or_none-Keeps path (err is_a_directory) = Keeps-done _
open_or_none-Keeps path (err symlink_loop) = Keeps-done _
open_or_none-Keeps path (err (other m)) = Keeps-done _

config_has-Keeps : (config : ℕ) (dir name : Text) → Keeps false (config_has config dir name)
unfolding config_has
config_has-Keeps config dir name = or_fail-Keeps _ (exists-Keeps config name)

with_identity-Keeps :
    (home : ℕ) (home_path : Text) (config : ℕ) (config_dir : Text) (owner_uid : ℕ)
    → Keeps false (with_identity home home_path config config_dir owner_uid)
unfolding with_identity
with_identity-Keeps home home_path config config_dir owner_uid =
    chain-Keeps (config_has-Keeps config config_dir legacy_password_file) (λ has_pass.
      chain-Keeps (config_has-Keeps config config_dir legacy_safe_file) (λ has_safe.
        chain-Keeps (or_fail-Keeps _ (exists-Keeps home pix_db_file)) (λ has_redb. Keeps-done _)))

config_or_none-Keeps :
    (home : ℕ) (home_path config_dir : Text) (found : Option ℕ)
    → Keeps false (config_or_none home home_path config_dir found)
unfolding with_config config_or_none
config_or_none-Keeps home home_path config_dir none = Keeps-done _
config_or_none-Keeps home home_path config_dir (some config) =
    chain-Keeps (or_fail-Keeps _ (status-Keeps config)) (λ stat.
      chain-Keeps (config_has-Keeps config config_dir legacy_identity_file) (λ has_id.
        if-Keeps has_id (with_identity-Keeps home home_path config config_dir stat.uid)
          (Keeps-done _)))

in_home-Keeps :
    (home_path config_dir : Text) (home : Option ℕ)
    → Keeps false (in_home home_path config_dir home)
unfolding in_home
in_home-Keeps home_path config_dir none = Keeps-done _
in_home-Keeps home_path config_dir (some home) =
    chain-Keeps (or_fail-Keeps _ (find_dir-Keeps home (components legacy_config_dir)))
      (config_or_none-Keeps home home_path config_dir)

pub find-Keeps : (p : Process) (home_path : Text) → Keeps false (find p home_path)
unfolding find open_legacy_home
find-Keeps p home_path =
    chain-Keeps
      (bind-Keeps (attempt-Keeps (open_home-Keeps p home_path)) (open_or_none-Keeps home_path))
      (in_home-Keeps home_path (join home_path legacy_config_dir))

module _ (sha256 : Text → Text) where
  plan_sources-Keeps :
      (legacy : Legacy) (sources : List Source) → Keeps false (plan_sources sha256 legacy sources)
  unfolding plan_sources plan_source
  plan_sources-Keeps legacy [] = Keeps-done _
  plan_sources-Keeps legacy (s ∷ rest) =
      chain-Keeps
        (chain-Keeps (or_fail-Keeps _ (open_regular_file-Keeps _ s.name))
          (λ file. chain-Keeps (or_fail-Keeps _ (read_file-Keeps file)) (λ bytes. Keeps-done _)))
        (λ planned. chain-Keeps (plan_sources-Keeps legacy rest) (λ more. Keeps-done _))

  pub plan-Keeps : (legacy : Legacy) → Keeps false (plan sha256 legacy)
  unfolding plan
  plan-Keeps legacy = plan_sources-Keeps legacy legacy.sources

entry_in-Keeps : (path name : Text) (dir : Option ℕ) → Keeps false (entry_in path name dir)
unfolding entry_in
entry_in-Keeps path name none = Keeps-done _
entry_in-Keeps path name (some dir) = or_fail-Keeps _ (exists-Keeps dir name)

present_at-Keeps :
    (home : ℕ) (path : Text) (dir : Option (List Component)) (name : Option Text)
    → Keeps false (present_at home path dir name)
unfolding present_at
present_at-Keeps home path (some dir) (some name) =
    chain-Keeps (or_fail-Keeps _ (find_dir-Keeps home dir)) (entry_in-Keeps path name)
present_at-Keeps home path (some dir) none = Keeps-done _
present_at-Keeps home path none name = Keeps-done _

pub target_exists-Keeps : (p : Process) (t : Target) → Keeps false (target_exists p t)
unfolding target_exists
target_exists-Keeps p t = chain-Keeps (or_fail-Keeps _ (open_home-Keeps p t.home)) (λ home.
    chain-Keeps (present_at-Keeps home t.data_path (parent t.data_rel) (file_name t.data_rel))
      (λ here.
        if-Keeps here (Keeps-done _)
          (present_at-Keeps home t.cache_path (parent t.cache_rel) (file_name t.cache_rel))))

opened_or_none-Keeps : (r : Result IoError ℕ) → Keeps false (opened_or_none r)
opened_or_none-Keeps (ok file) = Keeps-done _
opened_or_none-Keeps (err e) = Keeps-done _

file_in-Keeps : (name : Text) (r : Result IoError (Option ℕ)) → Keeps false (file_in name r)
file_in-Keeps name (ok (some dir)) =
    bind-Keeps (attempt-Keeps (open_regular_file-Keeps dir name)) opened_or_none-Keeps
file_in-Keeps name (ok none) = Keeps-done _
file_in-Keeps name (err e) = Keeps-done _

open_at-Keeps :
    (home : ℕ) (dir : Option (List Component)) (name : Option Text)
    → Keeps false (open_at home dir name)
open_at-Keeps home (some dir) (some name) =
    bind-Keeps (attempt-Keeps (find_dir-Keeps home dir)) (file_in-Keeps name)
open_at-Keeps home (some dir) none = Keeps-done _
open_at-Keeps home none name = Keeps-done _

module _ (sha256 : Text → Text) (t : Target) where
  compare_file-Keeps :
      (planned : Planned) (file : Option ℕ) → Keeps false (compare_file sha256 t planned file)
  unfolding compare_file
  compare_file-Keeps planned none = Keeps-done _
  compare_file-Keeps planned (some file) =
      chain-Keeps (or_fail-Keeps _ (read_file-Keeps file)) (λ bytes. Keeps-done _)

  compare_each-Keeps :
      (home : ℕ) (plan : List Planned) (ms : List Mismatch)
      → Keeps false (compare_each sha256 t home plan ms)
  unfolding compare_each open_target
  compare_each-Keeps home [] ms = Keeps-done _
  compare_each-Keeps home (planned ∷ rest) ms = bind-Keeps (open_at-Keeps home _ _) (λ file.
      chain-Keeps (compare_file-Keeps planned file)
        (λ more. compare_each-Keeps home rest (ms ++ more)))

  pub compare-Keeps : (p : Process) (plan : List Planned) → Keeps false (compare sha256 p t plan)
  unfolding compare
  compare-Keeps p plan =
      chain-Keeps (or_fail-Keeps _ (open_home-Keeps p t.home))
        (λ home. compare_each-Keeps home plan [])
