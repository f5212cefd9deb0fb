-- ===== src/Engine/Command.antt =====
-- The command `update` (`run_update` and `exit_for_update` in gnosis_vpn-update/src/main.rs).
use gnosis_vpn_toolkit.Prelude.{
  Bool, Option, none, some, List, [], ◌∷◌, ◌++◌, ◌≡◌, arith, Result, ok, err, unwrap_or,
  if◌then◌else◌,
}
use gnosis_vpn_toolkit.Prelude.Text.{Text, codes}
use gnosis_vpn_toolkit.Prelude.Exit.{ExitCode, success, software}
use gnosis_vpn_toolkit.Version.{Channel, channel_of_version}
use gnosis_vpn_toolkit.Engine.{
  UpdateStage, check, install, UpdateStatus, failed, is_terminal, is_failure, macos, linux,
  EngineInput, World,
}
use gnosis_vpn_toolkit.Engine.Run.{manual_update_hint, run_engine, drive_engine}
use gnosis_vpn_toolkit.Engine.Installs.{is_ok_run}
use gnosis_vpn_toolkit.Engine.Streams.{statuses}

unfoldable pub exit_for_update : UpdateStatus → ExitCode
exit_for_update s = if is_failure s then software else success

-- The loop over the channel: the statuses printed, and the last one. It stops at a terminal status
-- or when the channel closes.
receive : List UpdateStatus → Option UpdateStatus → List UpdateStatus × Option UpdateStatus
receive [] last = ([], last)
receive (s ∷ ss) last =
    let rest = receive ss (some s) in
    if is_terminal s then (s ∷ [], some s) else (s ∷ rest.0, rest.1)

exit_for_last : Option UpdateStatus → ExitCode
unfolding exit_for_update
exit_for_last none = software
exit_for_last (some s) = exit_for_update s

failed_early : UpdateStage → Text → List UpdateStatus × ExitCode
unfolding exit_for_update
failed_early stage error = (failed stage error ∷ [], exit_for_update (failed stage error))

abbrev pub state_dir : Text
state_dir = codes "/Library/Application Support/GnosisVPN"

-- The engine's input, with the fixed paths of gnosis_vpn-update/src/update/paths.rs.
pub engine_input : Option Channel → Bool → Text → EngineInput
engine_input asked allow_downgrade current = record {
  channel = unwrap_or asked (channel_of_version current);
  allow_downgrade = allow_downgrade;
  current_app_version = current;
  download_dir = codes "/Library/Caches/GnosisVPN/updates";
  attempt_state_path = some (state_dir ++ codes "/last_update_attempt.json");
  audit_log_path = some (codes "/Library/Logs/GnosisVPN/updates.log");
}

-- What is printed, and the exit code.
unfoldable pub run_update :
    World
    → Result Text Text
    → Result Text (Unit {0})
    → Option Channel
    → Bool
    → List UpdateStatus × ExitCode
unfolding receive exit_for_last failed_early engine_input
run_update w installed_version client asked allow_downgrade = elim w.os [
  | linux ↦ failed_early install manual_update_hint
  | macos ↦ elim installed_version [
    | err e ↦ failed_early check e
    | ok current ↦ elim client [
      | err e ↦ failed_early check e
      | ok _ ↦
          let (printed, last) =
            receive (statuses (run_engine w (engine_input asked allow_downgrade current))) none in
          (printed, exit_for_last last)
    ]
  ]
]

-- With a version and a client on macOS, the command prints every status of the engine's stream, and
-- its exit code is success exactly when the pipeline succeeded.
pub run_update-macos :
    (w : World) (current : Text) (asked : Option Channel) (allow_downgrade : Bool)
    → w.os ≡ macos
    → run_update w (ok current) (ok tt) asked allow_downgrade ≡ (
      statuses (run_engine w (engine_input asked allow_downgrade current)),
      if is_ok_run (drive_engine w (engine_input asked allow_downgrade current))
          then success
          else software,
    )
unfolding run_update run_engine drive_engine
run_update-macos w current asked allow_downgrade on_macos = ground arith
