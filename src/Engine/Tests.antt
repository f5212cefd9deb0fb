-- ===== src/Engine/Tests.antt =====
-- Runs of the engine on both platforms, and the theorems at them.
use gnosis_vpn_toolkit.Prelude.{
  true, false, Option, some, none, [], ◌∷◌, ◌≡◌, refl, ◌⊎◌, Result, ok, err, if◌then◌else◌,
}
use gnosis_vpn_toolkit.Prelude.Text.{Text, codes, split}
use gnosis_vpn_toolkit.Prelude.Exit.{success, software}
use gnosis_vpn_toolkit.Version.{stable, compare_components, channel_of_version}
use gnosis_vpn_toolkit.Manifest.{ChannelRelease, pick}
use gnosis_vpn_toolkit.Gate.{ensure_installable}
use gnosis_vpn_toolkit.Samples.{installed, manifest}
use gnosis_vpn_toolkit.Engine.{
  checking, downloading, installing, completed, Os, macos, EngineInput, World,
}
use gnosis_vpn_toolkit.Engine.Run.{is_ok, drive_engine, run_engine}
use gnosis_vpn_toolkit.Engine.Streams.{over, statuses, follows_protocol, run_engine-protocol}
use gnosis_vpn_toolkit.Engine.Installs.{
  install_steps, Cleared, one_install, is_ok_run, run_engine-install,
}
use gnosis_vpn_toolkit.Engine.Command.{engine_input, run_update, run_update-macos}

abbrev package_path : Text
package_path = codes "/Library/Caches/GnosisVPN/updates/gnosisvpn-0.10.0-arm64.pkg"

abbrev world : Os → Result Text (Unit {0}) → World
world os installs = record {
  os = os;
  manifest = ok manifest;
  download_artifact = λ r. ok package_path;
  verify_sha256 = λ p r. ok tt;
  choices_xml = none;
  write = ok tt;
  install = λ p c. installs;
  updater_version = λ installed. if installed then some (codes "1.0") else none;
}

abbrev input : EngineInput
input = record {
  channel = stable;
  allow_downgrade = false;
  current_app_version = installed;
  download_dir = codes "/Library/Caches/GnosisVPN/updates";
  attempt_state_path = none;
  audit_log_path = none;
}

updated :
    statuses (run_engine (world macos (ok tt)) input)
    ≡ checking ∷ downloading ∷ installing ∷ completed (codes "0.10.0") ∷ []
unfolding run_engine drive_engine ensure_installable pick compare_components channel_of_version
    split
updated = refl

run_engine-protocol_example :
    follows_protocol (statuses (run_engine (world macos (ok tt)) input)) ≡ over
run_engine-protocol_example = run_engine-protocol (world macos (ok tt)) input

-- The installer fails.
run_engine-install_example :
    ((install_steps (run_engine (world macos (err (codes "disk full"))) input) ≡ [])
      × (is_ok_run (drive_engine (world macos (err (codes "disk full"))) input) ≡ false))
    ⊎ ((r : ChannelRelease) × (path : Text) × (changes : Option Text) × Cleared
          (world macos (err (codes "disk full")))
          input
          r
          path
        × (install_steps (run_engine (world macos (err (codes "disk full"))) input)
            ≡ one_install (world macos (err (codes "disk full"))) path changes)
        × (is_ok_run (drive_engine (world macos (err (codes "disk full"))) input)
            ≡ is_ok ((world macos (err (codes "disk full"))).install path changes)))
run_engine-install_example = run_engine-install (world macos (err (codes "disk full"))) input refl

succeeded : is_ok_run (drive_engine (world macos (ok tt)) input) ≡ true
unfolding drive_engine ensure_installable pick compare_components channel_of_version split
succeeded = refl

run_update-macos_example : run_update (world macos (ok tt)) (ok installed) (ok tt) none true ≡ (
  statuses (run_engine (world macos (ok tt)) (engine_input none true installed)),
  if is_ok_run (drive_engine (world macos (ok tt)) (engine_input none true installed))
      then success
      else software,
)
run_update-macos_example = run_update-macos (world macos (ok tt)) installed none true refl
