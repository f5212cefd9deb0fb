-- ===== src/Migrate/Sweep.antt =====
-- Locking down what is left in the legacy home (`lock_down`, `secure_leftovers`, `secure_entry` and
-- `lock_config_dir` of gnosis_vpn-migrate/src/migrate.rs).
pub mod Locking
pub mod Ending
mod Tests
use gnosis_vpn_toolkit.Prelude.{
  ℕ, Bool, true, false, not, ◌&&◌, List, [], ◌∷◌, ◌++◌, Result, ok, err, ◌==◌, if◌then◌else◌,
}
use gnosis_vpn_toolkit.Prelude.Text.{Text, starts_with, join}
use gnosis_vpn_toolkit.Migrate.Layout.{dir_mode, legacy_config_dir}
use gnosis_vpn_toolkit.Migrate.Store.{
  IoError, Process, Io, pure, attempt, is_directory, ◌>>=◌, ◌>>◌,
}
use gnosis_vpn_toolkit.Migrate.Store.Calls.{change_mode, change_owner, status_at}
use gnosis_vpn_toolkit.Migrate.Nofollow.{open_dir, entries, reown_tree}

unfoldable pub lock_down : Process → ℕ → Io (Unit {0})
lock_down p dir = change_owner dir p.euid p.egid >> change_mode dir dir_mode

abbrev pub lock_if_dir : Process → ℕ → Text → Bool → Io Bool
unfolding lock_down
lock_if_dir p home name false = pure false
lock_if_dir p home name true = do dir ← open_dir home name; lock_down p dir; pure true

unfoldable pub lock_config_dir : Process → ℕ → Text → Io Bool
unfolding lock_if_dir
lock_config_dir p home name =
    if not (starts_with name legacy_config_dir)
    then pure false
    else (status_at home name >>= λ stat. lock_if_dir p home name (is_directory stat.kind))

unfoldable pub secure_entry : Process → ℕ → ℕ → Text → ℕ → Io (Bool × ℕ)
unfolding lock_config_dir
secure_entry p rounds home name legacy_uid = do
  locked ← lock_config_dir p home name
  if legacy_uid == 0
      then pure (locked, 0)
      else (reown_tree p rounds home name legacy_uid >>= λ reowned. pure (locked, reowned))

abbrev pub secured_path : Text → Text → Result IoError (Bool × ℕ) → List Text
unfolding join
secured_path home_path name (ok (locked, reowned)) =
    if not locked && reowned == 0 then [] else join home_path name ∷ []
secured_path home_path name (err e) = []

-- The loop over the names, each on its own.
unfoldable pub secure_each : Process → ℕ → ℕ → Text → ℕ → List Text → List Text → Io (List Text)
unfolding secure_entry secured_path
secure_each p rounds home home_path legacy_uid [] secured = pure secured
secure_each p rounds home home_path legacy_uid (name ∷ names) secured = do
  result ← attempt (secure_entry p rounds home name legacy_uid)
  secure_each p rounds home home_path legacy_uid names
      (secured ++ secured_path home_path name result)

abbrev pub secure_listed : Process → ℕ → ℕ → Text → ℕ → Result IoError (List Text) → Io (List Text)
unfolding secure_each
secure_listed p rounds home home_path legacy_uid (err e) = pure []
secure_listed p rounds home home_path legacy_uid (ok names) =
    secure_each p rounds home home_path legacy_uid names []

unfoldable pub secure_leftovers : Process → ℕ → ℕ → Text → ℕ → Io (List Text)
unfolding secure_listed
secure_leftovers p rounds home home_path legacy_uid =
    attempt (entries p home) >>= secure_listed p rounds home home_path legacy_uid
