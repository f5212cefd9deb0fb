-- ===== src/Engine/Run.antt =====
-- The pipeline of the engine, as a monad of effects and failures.
use gnosis_vpn_toolkit.Prelude.{
  Bool, true, false, Option, none, some, List, [], ◌∷◌, ◌++◌, Result, ok, err, map_err, ok_or,
}
use gnosis_vpn_toolkit.Prelude.Text.{Text, codes, join}
use gnosis_vpn_toolkit.Manifest.{ChannelRelease, show_manifest_error, pick}
use gnosis_vpn_toolkit.Gate.{no_release_for_channel, show_gate_error, ensure_installable}
use gnosis_vpn_toolkit.Engine.{
  UpdateStage, check, download, verify, install, UpdateStatus, checking, downloading, installing,
  completed, failed, show_download_error, Os, macos, linux, Effect, sent, wrote_choices, shielded,
  loader_shown, aside_renamed, installer_ran, loader_dismissed, settled, removed, persisted,
  audited, EngineInput, World, EngineOutcome,
}

abbrev pub Engine : Type 0 → Type 0
Engine A = List Effect × Result (UpdateStage × Text) A

abbrev pub before : {A : Type 0} → List Effect → Engine A → Engine A
before es (fs, r) = (es ++ fs, r)

infixl 5 ◌>>=◌ ◌>>◌
abbrev pub ◌>>=◌ : {A B : Type 0} → Engine A → (A → Engine B) → Engine B
(es, ok a) >>= f = before es (f a)
(es, err e) >>= f = (es, err e)

abbrev pub ◌>>◌ : {A B : Type 0} → Engine A → Engine B → Engine B
m >> k = m >>= λ _. k

abbrev pub pure : {A : Type 0} → A → Engine A
pure a = ([], ok a)

abbrev pub effect : Effect → Engine (Unit {0})
effect e = (e ∷ [], ok tt)

abbrev pub send : UpdateStatus → Engine (Unit {0})
send s = effect (sent s)

-- `.map_err(|e| (stage, e))?`
abbrev pub at_stage : {A : Type 0} → UpdateStage → Result Text A → Engine A
at_stage stage r = ([], map_err (λ e. (stage, e)) r)

abbrev pub is_ok : {A : Type 0} → Result Text A → Bool
is_ok (ok _) = true
is_ok (err _) = false

-- `MANUAL_UPDATE_HINT`
abbrev pub manual_update_hint : Text
manual_update_hint =
    codes
      "Automatic updates are macOS-only. Run the following in a terminal to update Gnosis VPN on Linux:\nsudo apt-get update\nsudo apt-get install -y gnosisvpn"

module _ (w : World) (input : EngineInput) where
  write_choice_changes : Option Text → Engine (Option Text)
  write_choice_changes none = pure none
  write_choice_changes (some xml) = do
    let path = join input.download_dir (codes "choice_changes.xml")
    effect (wrote_choices path)
    at_stage install (map_err (λ e. codes "cannot write installer choice changes: " ++ e) w.write)
    pure (some path)

  remove_changes : Option Text → Engine (Unit {0})
  remove_changes none = pure tt
  remove_changes (some path) = effect (removed path)

  -- From the shield to the end, on each platform; `installer(8)` is refused on Linux.
  unfoldable pub install_release : Os → ChannelRelease → Text → Option Text → Engine EngineOutcome
  unfolding remove_changes
  install_release macos release path changes = do
    effect shielded
    effect loader_shown
    send installing
    effect aside_renamed
    let result = w.install path changes
    effect (installer_ran path changes)
    effect loader_dismissed
    effect (settled (is_ok result))
    at_stage install result
    effect (removed path)
    remove_changes changes
    pure (record { version = release.version; updater_version = w.updater_version true })
  install_release linux release path changes = do
    send installing
    at_stage install (err manual_update_hint)

  pub install_checked : ChannelRelease → Engine EngineOutcome
  unfolding install_release write_choice_changes
  install_checked release = do
    send downloading
    path ← at_stage download (map_err show_download_error (w.download_artifact release))
    at_stage verify (w.verify_sha256 path release)
    changes ← write_choice_changes w.choices_xml
    install_release w.os release path changes

  unfoldable pub drive_engine : Engine EngineOutcome
  unfolding install_checked
  drive_engine = do
    send checking
    manifest ← at_stage check (map_err show_manifest_error w.manifest)
    release ← at_stage check (
        ok_or (show_gate_error (no_release_for_channel input.channel))
          (pick manifest input.channel))
    _ ← at_stage check (
        map_err show_gate_error (
          ensure_installable release input.current_app_version input.channel input.allow_downgrade))
    install_checked release

  persist_attempt : UpdateStatus → List Effect
  persist_attempt last = elim input.attempt_state_path [
    | none ↦ []
    | some path ↦ persisted path last ∷ []
  ]

  audit_log : UpdateStatus → Option Text → List Effect
  audit_log last updater_version = elim input.audit_log_path [
    | none ↦ []
    | some path ↦ audited path last updater_version ∷ []
  ]

  last_status : Result (UpdateStage × Text) EngineOutcome → UpdateStatus
  last_status (ok outcome) = completed outcome.version
  last_status (err (stage, error)) = failed stage error

  last_version : Result (UpdateStage × Text) EngineOutcome → Option Text
  last_version (ok outcome) = outcome.updater_version
  last_version (err _) = none

  unfoldable pub run_engine : List Effect
  unfolding persist_attempt audit_log last_status last_version
  run_engine =
      let (effects, result) = drive_engine in
      let last = last_status result in
      effects
      ++ (persist_attempt last ++ (audit_log last (last_version result) ++ (sent last ∷ [])))
