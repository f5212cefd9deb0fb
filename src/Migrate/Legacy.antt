-- ===== src/Migrate/Legacy.antt =====
-- The legacy identity: finding it, hashing it, and locking down what stays of it
-- (`Legacy::find`, `plan`, `lock_down` and the sweep of gnosis_vpn-migrate/src/migrate.rs).
use gnosis_vpn_toolkit.Prelude.{
  ℕ, Bool, true, false, Option, none, some, List, [], ◌∷◌, ◌++◌, Result, ok, err, if◌then◌else◌,
}
use gnosis_vpn_toolkit.Prelude.Text.{Text, codes, join}
use gnosis_vpn_toolkit.FilePath.{components}
use gnosis_vpn_toolkit.Migrate.Outcome.{Stage, Failure}
use gnosis_vpn_toolkit.Migrate.Outcome
use gnosis_vpn_toolkit.Migrate.Layout.{
  identity_file, password_file, safe_file, pix_dir, pix_db_file, legacy_config_dir,
  legacy_identity_file, legacy_password_file, legacy_safe_file,
}
use gnosis_vpn_toolkit.Migrate.Networks.{Place, on_data, on_cache}
use gnosis_vpn_toolkit.Migrate.Store.{
  IoError, no_entry, show_io_error, Process, Io, pure, attempt, is_directory,
}
use gnosis_vpn_toolkit.Migrate.Store
use gnosis_vpn_toolkit.Migrate.Store.Failing.{Fio, succeed, refuse, or_fail, ◌>>=◌}
use gnosis_vpn_toolkit.Migrate.Store.Calls.{status, read_file}
use gnosis_vpn_toolkit.Migrate.Nofollow.{open_home, find_dir, exists, open_regular_file}

pub record Source : Type 0 where
  pub from : Text
  pub in_config : Bool
  pub name : Text
  pub place : Place
  pub rel : Text

pub record Legacy : Type 0 where
  pub home : ℕ
  pub home_path : Text
  pub config : ℕ
  pub config_dir : Text
  pub owner_uid : ℕ
  pub has_redb : Bool
  pub sources : List Source

unfoldable pub legacy_failure : Text → IoError → Failure
legacy_failure path e = record {
  stage = Outcome.legacy;
  error = path ++ (codes ": " ++ show_io_error e);
}

abbrev pub open_or_none : Text → Result IoError ℕ → Fio (Option ℕ)
open_or_none path (ok home) = succeed (some home)
open_or_none path (err no_entry) = succeed none
open_or_none path (err e) = refuse (legacy_failure path e)

-- The legacy home, if there is one.
unfoldable pub open_legacy_home : Process → Text → Fio (Option ℕ)
open_legacy_home p path = Store.◌>>=◌ (attempt (open_home p path)) (open_or_none path)

abbrev source : Text → Text → Bool → Text → Place → Text → Source
unfolding join
source home_path config_dir in_config name place rel = record {
  from = if in_config then join config_dir name else join home_path name;
  in_config = in_config;
  name = name;
  place = place;
  rel = rel;
}

abbrev only_if : Bool → Source → List Source
only_if true s = s ∷ []
only_if false s = []

-- The identity, and those of the other files that are there.
unfoldable pub found_sources : Text → Text → Bool → Bool → Bool → List Source
unfolding source join
found_sources home_path config_dir has_pass has_safe has_redb =
    source home_path config_dir true legacy_identity_file on_data identity_file
    ∷ (only_if has_pass
          (source home_path config_dir true legacy_password_file on_data password_file)
        ++ (only_if has_safe (source home_path config_dir true legacy_safe_file on_cache safe_file)
            ++ only_if has_redb
                (source home_path config_dir false pix_db_file on_data (join pix_dir pix_db_file))))

unfoldable pub config_has : ℕ → Text → Text → Fio Bool
unfolding join
config_has config config_dir name =
    or_fail (legacy_failure (join config_dir name)) (exists config name)

unfoldable pub with_identity : ℕ → Text → ℕ → Text → ℕ → Fio (Option Legacy)
unfolding config_has found_sources join
with_identity home home_path config config_dir owner_uid = do
  has_pass ← config_has config config_dir legacy_password_file
  has_safe ← config_has config config_dir legacy_safe_file
  has_redb ← or_fail (legacy_failure (join home_path pix_db_file)) (exists home pix_db_file)
  succeed (
      some (record {
        home = home;
        home_path = home_path;
        config = config;
        config_dir = config_dir;
        owner_uid = owner_uid;
        has_redb = has_redb;
        sources = found_sources home_path config_dir has_pass has_safe has_redb;
      }))

unfoldable pub with_config : ℕ → Text → ℕ → Text → Fio (Option Legacy)
unfolding config_has with_identity
with_config home home_path config config_dir = do
  stat ← or_fail (legacy_failure config_dir) (status config)
  has_id ← config_has config config_dir legacy_identity_file
  if has_id then with_identity home home_path config config_dir stat.uid else succeed none

unfoldable pub config_or_none : ℕ → Text → Text → Option ℕ → Fio (Option Legacy)
unfolding with_config
config_or_none home home_path config_dir none = succeed none
config_or_none home home_path config_dir (some config) =
    with_config home home_path config config_dir

unfoldable pub in_home : Text → Text → Option ℕ → Fio (Option Legacy)
unfolding components config_or_none
in_home home_path config_dir none = succeed none
in_home home_path config_dir (some home) = do
  config ← or_fail (legacy_failure config_dir) (find_dir home (components legacy_config_dir))
  config_or_none home home_path config_dir config

unfoldable pub find : Process → Text → Fio (Option Legacy)
unfolding open_legacy_home in_home join
find p home_path = do
  home ← open_legacy_home p home_path
  in_home home_path (join home_path legacy_config_dir) home

unfoldable pub legacy_identity_exists : Process → Text → Fio Bool
unfolding find
legacy_identity_exists p home_path = do
  legacy ← find p home_path
  succeed (elim legacy [ none ↦ false | some _ ↦ true ])

pub record Planned : Type 0 where
  pub from : Text
  pub source : ℕ
  pub place : Place
  pub rel : Text
  pub sha256 : Text

-- A legacy file is opened and hashed before anything is created.
unfoldable pub plan_source : (Text → Text) → Legacy → Source → Fio Planned
plan_source sha256 legacy s = do
  file ←
      or_fail (legacy_failure s.from)
        (open_regular_file (if s.in_config then legacy.config else legacy.home) s.name)
  bytes ← or_fail (legacy_failure s.from) (read_file file)
  succeed
      (record { from = s.from; source = file; place = s.place; rel = s.rel; sha256 = sha256 bytes })

unfoldable pub plan_sources : (Text → Text) → Legacy → List Source → Fio (List Planned)
unfolding plan_source
plan_sources sha256 legacy [] = succeed []
plan_sources sha256 legacy (s ∷ rest) = do
  planned ← plan_source sha256 legacy s
  others ← plan_sources sha256 legacy rest
  succeed (planned ∷ others)

unfoldable pub plan : (Text → Text) → Legacy → Fio (List Planned)
unfolding plan_sources
plan sha256 legacy = plan_sources sha256 legacy legacy.sources
