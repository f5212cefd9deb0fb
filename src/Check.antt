-- ===== src/Check.antt =====
-- `check-update`: the decision, its exit code and its plain output (`check`, `CheckOutcome`,
-- `CheckResult` in gnosis_vpn-update/src/update/mod.rs; `run_check` and
-- `exit_for_check` in gnosis_vpn-update/src/main.rs).
pub mod Decision
pub mod Command
mod Tests
use gnosis_vpn_toolkit.Prelude.{
  ℕ, Bool, true, false, Option, none, some, String, [], ◌++◌, Result, ok, err, if◌then◌else◌,
}
use gnosis_vpn_toolkit.Prelude.Text.{Text, codes, trim, is_empty}
use gnosis_vpn_toolkit.Prelude.Exit.{ExitCode, success, unavailable, software}
use gnosis_vpn_toolkit.Version.{Channel, title, channel_of_version}
use gnosis_vpn_toolkit.Manifest.{
  EndOfLife, ChannelRelease, Manifest, ManifestError, integrity, other, show_manifest_error, pick,
}
use gnosis_vpn_toolkit.Gate.{
  GateError, already_installed, downgrade, show_gate_error, ensure_installable, end_of_life_for,
}

pub data CheckOutcome : Type 0 where
  up_to_date : Text → CheckOutcome
  available : Text → ChannelRelease → CheckOutcome
  no_release : Text → Channel → CheckOutcome
  integrity_error : Text → CheckOutcome
  error : Text → CheckOutcome

pub record CheckResult : Type 0 where
  pub channel : Channel
  pub outcome : CheckOutcome
  pub end_of_life : Option EndOfLife
  pub manifest : Option Manifest

-- The closure `bare` of `check`.
abbrev pub bare : Channel → CheckOutcome → CheckResult
bare c o = record { channel = c; outcome = o; end_of_life = none; manifest = none }

-- The `match` on the gate's verdict.
unfoldable pub outcome_of_gate {ℓ} :
    {A : Type ℓ} → Text → ChannelRelease → Result GateError A → CheckOutcome
outcome_of_gate current release (ok _) = available current release
outcome_of_gate current release (err (already_installed _)) = up_to_date current
outcome_of_gate current release (err (downgrade _ _)) = up_to_date current
outcome_of_gate current release (err e) = error (show_gate_error e)

outcome_of_pick : Channel → Text → Option ChannelRelease → CheckOutcome
unfolding outcome_of_gate
outcome_of_pick channel current none = no_release current channel
outcome_of_pick channel current (some release) =
    outcome_of_gate current release (ensure_installable release current channel false)

-- `check`, from what `manifest::download` returned.
unfoldable pub check : Result ManifestError Manifest → Channel → Text → CheckResult
unfolding outcome_of_pick
check (err (integrity msg)) channel current = bare channel (integrity_error msg)
check (err e) channel current = bare channel (error (show_manifest_error e))
check (ok manifest) channel current = record {
  channel = channel;
  outcome = outcome_of_pick channel current (pick manifest channel);
  end_of_life = end_of_life_for manifest current;
  manifest = some manifest;
}

unfoldable pub exit_for_check : CheckOutcome → ExitCode
exit_for_check (up_to_date _) = success
exit_for_check (available _ _) = success
exit_for_check (no_release _ _) = unavailable
exit_for_check (integrity_error _) = software
exit_for_check (error _) = unavailable

-- The decision part of `Display for CheckResult`.
show_outcome : Channel → CheckOutcome → Text
show_outcome channel (available current release) =
    codes "Update needed to "
    ++ (release.version
        ++ (codes "\nCurrent installed version: "
            ++ (current ++ (codes "\nChannel: " ++ title channel))))
show_outcome channel (up_to_date current) =
    codes "Currently on latest version\nCurrent installed version: "
    ++ (current ++ (codes "\nChannel: " ++ title channel))
show_outcome channel (no_release current c) =
    codes "No release published on "
    ++ (title c ++ (codes "\nCurrent installed version: " ++ current))
show_outcome channel (integrity_error e) = codes "Integrity error: " ++ e
show_outcome channel (error e) = codes "Error: " ++ e

-- A labelled line, left out when its text is blank.
abbrev pub labelled : String → Text → Text
labelled label text =
    let trimmed = trim text in if is_empty trimmed then [] else codes label ++ trimmed

show_changelog : CheckOutcome → Text
show_changelog (available _ release) = labelled "\nChangelog: " release.release_notes
show_changelog _ = []

-- The display of an instant is that of the crate `chrono`.
module _ (show_time : ℕ → Text) where
  show_end_of_life : Option EndOfLife → Text
  show_end_of_life none = []
  show_end_of_life (some eol) =
      codes "\nEnd of life: " ++ (show_time eol.ends_at ++ labelled "\nReason: " eol.reason)

  unfoldable pub show_check : CheckResult → Text
  unfolding show_outcome show_end_of_life show_changelog
  show_check r =
      show_outcome r.channel r.outcome
      ++ (show_end_of_life r.end_of_life ++ show_changelog r.outcome)
