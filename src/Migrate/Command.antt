-- ===== src/Migrate/Command.antt =====
-- The commands on the file system (gnosis_vpn-migrate/src/main.rs), from the opening of the log file
-- and the parsed arguments to the exit code.
pub mod Ending
mod Tests
use gnosis_vpn_toolkit.Prelude.{
  ℕ, Bool, true, false, Option, none, some, Result, ok, err, ◌==◌, if◌then◌else◌,
}
use gnosis_vpn_toolkit.Prelude.Exit.{ExitCode}
use gnosis_vpn_toolkit.Prelude.Text.{Text, codes}
use gnosis_vpn_toolkit.Migrate.Outcome
use gnosis_vpn_toolkit.Migrate.Outcome.{
  Failure, Stage, Outcome, Report, extend, nothing_to_migrate, relocated, from_failure,
  exit_code_of,
}
use gnosis_vpn_toolkit.Migrate.Network.{from_config_link}
use gnosis_vpn_toolkit.Migrate.Layout.{migrate_log}
use gnosis_vpn_toolkit.Migrate.Logging.{setup}
use gnosis_vpn_toolkit.Migrate.Store
use gnosis_vpn_toolkit.Migrate.Store.{Io, pure}
use gnosis_vpn_toolkit.Migrate.Store.Failing.{Fio, succeed, refuse, ◌>>=◌, ◌>>◌}
use gnosis_vpn_toolkit.Migrate.User.{Account, Accounts, resolve}
use gnosis_vpn_toolkit.Migrate.Legacy.{legacy_identity_exists}
use gnosis_vpn_toolkit.Migrate.Aside
use gnosis_vpn_toolkit.Migrate.Identity.{IdentityRequest, Setting, migrate_identity}
use gnosis_vpn_toolkit.Migrate.Relocate.{run, system_steps, user_steps}

pub record IdentityArgs : Type 0 where
  pub user : Text
  pub legacy_home : Text
  pub config_link : Text
  pub dry_run : Bool
  pub replace : Bool

pub record StartCleanArgs : Type 0 where
  pub user : Option Text
  pub legacy_home : Text
  pub config_link : Text

pub record LayoutArgs : Type 0 where
  pub user : Option Text
  pub legacy_home : Text

pub data Command : Type 0 where
  identity : IdentityArgs → Command
  start_clean : StartCleanArgs → Command
  layout : LayoutArgs → Command

-- What a run is given: the setting, the accounts, what links point at, and the version of the program.
pub record Machine : Type 0 where
  pub setting : Setting
  pub accounts : Accounts
  pub read_link : Text → Result Text Text
  pub version : Text

-- `.map_err(|e| Failure::new(stage, e))?`
abbrev pub at_stage : {A : Type 0} → Stage → Result Text A → Fio A
at_stage stage (ok a) = succeed a
at_stage stage (err e) = refuse (record { stage = stage; error = e })

module _ (m : Machine) where
  abbrev pub found_account : Text → Text → Fio Account
  found_account name legacy_home = at_stage Outcome.user (resolve m.accounts name legacy_home)

  unfoldable pub require_root : Fio (Unit {0})
  require_root =
      if m.setting.process.euid == 0
      then succeed tt
      else refuse (record { stage = Outcome.privileges; error = codes "must run as root" })

  abbrev pub request : IdentityArgs → Account → Text → IdentityRequest
  request args account network = record {
    account = account;
    network = network;
    legacy_home = args.legacy_home;
    dry_run = args.dry_run;
    replace = args.replace;
    toolkit_version = m.version;
  }

  unfoldable pub migrate_for : IdentityArgs → Fio Outcome
  migrate_for args = do
    account ← found_account args.user args.legacy_home
    network ←
        at_stage Outcome.network (from_config_link args.config_link (m.read_link args.config_link))
    migrate_identity m.setting (request args account network)

  unfoldable pub run_identity : IdentityArgs → Fio Outcome
  unfolding migrate_for
  run_identity args = do
    present ← legacy_identity_exists m.setting.process args.legacy_home
    if present then migrate_for args else succeed (nothing_to_migrate args.legacy_home)

  abbrev pub clean : Text → Option (Account × Text) → Fio Outcome
  clean legacy_home user_dirs =
      Aside.start_clean m.setting.process m.setting.rounds m.setting.os m.setting.ts legacy_home
        user_dirs

  -- Without a usable link there is no chosen network, so only the legacy part runs.
  abbrev pub clean_network : Text → Account → Result Text Text → Fio Outcome
  clean_network legacy_home account (ok network) = clean legacy_home (some (account, network))
  clean_network legacy_home account (err e) = clean legacy_home none

  unfoldable pub run_start_clean : StartCleanArgs → Fio Outcome
  run_start_clean args = elim args.user [
    | none ↦ clean args.legacy_home none
    | some name ↦ found_account name args.legacy_home >>= λ account.
        clean_network args.legacy_home account
          (from_config_link args.config_link (m.read_link args.config_link))
  ]

  abbrev pub root_account : Account
  root_account = record { name = codes "root"; uid = 0; gid = 0; home = codes "/" }

  unfoldable pub user_layout_run : Option Text → Text → Fio (Option Report)
  user_layout_run none legacy_home = succeed none
  user_layout_run (some name) legacy_home = do
    account ← found_account name legacy_home
    report ← run m.setting.process m.setting.rounds account.home (user_steps m.setting.os) account
    succeed (some report)

  abbrev pub extended : Report → Option Report → Report
  extended report none = report
  extended report (some more) = extend report more

  -- The system's files first, then the user's.
  unfoldable pub run_layout : LayoutArgs → Fio Outcome
  unfolding user_layout_run
  run_layout args = do
    report ←
        run m.setting.process m.setting.rounds (codes "/") (system_steps m.setting.os) root_account
    more ← user_layout_run args.user args.legacy_home
    succeed (relocated (extended report more))

  abbrev pub run_command : Command → Fio Outcome
  run_command (identity args) = run_identity args
  run_command (start_clean args) = run_start_clean args
  run_command (layout args) = run_layout args

  abbrev pub outcome_of : Result Failure Outcome → Outcome
  outcome_of (ok o) = o
  outcome_of (err f) = from_failure f

  abbrev pub ended_with : Result Failure Outcome → Io (Outcome × ExitCode)
  ended_with r = pure (outcome_of r, exit_code_of (outcome_of r))

  -- The outcome that is printed, with its exit code. A log file that cannot be opened is done without.
  unfoldable pub main : Command → Io (Outcome × ExitCode)
  unfolding require_root
  main command =
      Store.◌>>=◌ (setup m.setting.process (migrate_log m.setting.os))
        (λ _. Store.◌>>=◌ (require_root >> run_command command) ended_with)
