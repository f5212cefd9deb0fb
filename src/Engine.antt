-- ===== src/Engine.antt =====
-- The install engine (`UpdateStatus`, `run_engine`, `drive_engine`, `write_choice_changes`,
-- `persist_attempt`, `audit_log` in gnosis_vpn-update/src/update/mod.rs) and the command that drives
-- it (`run_update` in gnosis_vpn-update/src/main.rs). A run is the list of its effects with its
-- result; the environment's answers are given.
pub mod Run
pub mod Streams
pub mod Installs
pub mod Command
mod Tests
use gnosis_vpn_toolkit.Prelude.{
  ℕ, Bool, true, false, Option, none, some, List, [], ◌∷◌, ◌++◌, Result, ok, err,
}
use gnosis_vpn_toolkit.Prelude.Text.{Text, codes, show_nat}
use gnosis_vpn_toolkit.Version.{Channel}
use gnosis_vpn_toolkit.Manifest.{ChannelRelease, Manifest, ManifestError}
use gnosis_vpn_toolkit.Resume.Session.{
  DownloadError, http, io, insufficient_space, symlink_download_path, size_mismatch, insecure_url,
  invalid_filename, connection_lost, unexpected_status,
}

pub data UpdateStage : Type 0 where
  check download verify install : UpdateStage

unfoldable pub show_stage : UpdateStage → Text
show_stage check = codes "check"
show_stage download = codes "download"
show_stage verify = codes "verify"
show_stage install = codes "install"

pub data UpdateStatus : Type 0 where
  checking downloading installing : UpdateStatus
  completed : Text → UpdateStatus
  failed : UpdateStage → Text → UpdateStatus

abbrev pub is_terminal : UpdateStatus → Bool
is_terminal (completed _) = true
is_terminal (failed _ _) = true
is_terminal _ = false

abbrev pub is_failure : UpdateStatus → Bool
is_failure (failed _ _) = true
is_failure _ = false

unfoldable pub show_status : UpdateStatus → Text
unfolding show_stage
show_status checking = codes "checking for updates"
show_status downloading = codes "downloading update"
show_status installing = codes "installing update"
show_status (completed v) = codes "completed: " ++ v
show_status (failed stage error) = codes "failed at " ++ (show_stage stage ++ (codes ": " ++ error))

-- The messages of `DownloadError`.
unfoldable pub show_download_error : DownloadError → Text
unfolding show_nat
show_download_error (http e) = codes "http: " ++ e.text
show_download_error (io e) = codes "io: " ++ e
show_download_error (insufficient_space needed free) =
    codes "not enough disk space: need " ++ (show_nat needed ++ (codes ", free " ++ show_nat free))
show_download_error symlink_download_path = codes "download path is a symlink — refusing to write"
show_download_error (size_mismatch expected actual) =
    codes "manifest size " ++ (show_nat expected ++ (codes " but downloaded " ++ show_nat actual))
show_download_error (insecure_url scheme) =
    codes "refusing to download artifact over insecure scheme: " ++ scheme
show_download_error (invalid_filename url) =
    codes "manifest download URL has no safe artifact filename: " ++ url
show_download_error (connection_lost offline_secs bytes_done expected last_error) =
    codes "connection lost: gave up after "
    ++ (show_nat offline_secs
        ++ (codes "s offline at byte "
            ++ (show_nat bytes_done
                ++ (codes " of " ++ (show_nat expected ++ (codes ": " ++ last_error))))))
show_download_error (unexpected_status status) = codes "unexpected http status: " ++ show_nat status

pub data Os : Type 0 where
  macos linux : Os

-- What a run does, in order.
pub data Effect : Type 0 where
  sent : UpdateStatus → Effect
  wrote_choices : Text → Effect
  shielded : Effect
  loader_shown : Effect
  aside_renamed : Effect
  installer_ran : Text → Option Text → Effect
  loader_dismissed : Effect
  settled : Bool → Effect
  removed : Text → Effect
  persisted : Text → UpdateStatus → Effect
  audited : Text → UpdateStatus → Option Text → Effect

-- `EngineInput`, without the HTTP client.
pub record EngineInput : Type 0 where
  pub channel : Channel
  pub allow_downgrade : Bool
  pub current_app_version : Text
  pub download_dir : Text
  pub attempt_state_path : Option Text
  pub audit_log_path : Option Text

-- The answers of the environment: the manifest of the channel, the download of a release, the
-- digest check, the choice changes and their writing, `installer(8)`, and what the self-update
-- reports after an install that succeeded or not.
pub record World : Type 0 where
  pub os : Os
  pub manifest : Result ManifestError Manifest
  pub download_artifact : ChannelRelease → Result DownloadError Text
  pub verify_sha256 : Text → ChannelRelease → Result Text (Unit {0})
  pub choices_xml : Option Text
  pub write : Result Text (Unit {0})
  pub install : Text → Option Text → Result Text (Unit {0})
  pub updater_version : Bool → Option Text

pub record EngineOutcome : Type 0 where
  pub version : Text
  pub updater_version : Option Text
