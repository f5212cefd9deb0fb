-- ===== src/Resume/Session.antt =====
-- The data of the resumable download: its errors and policy, the environment's answers, and the
-- variables of the loop (`DownloadError` in gnosis_vpn-update/src/update/mod.rs, `RetryPolicy` and
-- `Outage` in gnosis_vpn-update/src/update/download.rs).
use gnosis_vpn_toolkit.Prelude.{ℕ, ◌*◌, ◌^◌, Option, List, Result}
use gnosis_vpn_toolkit.Prelude.Text.{Text}
use gnosis_vpn_toolkit.Manifest.Download.{HttpError}
use gnosis_vpn_toolkit.Resume.File.{File}

-- `DownloadError` of gnosis_vpn-update/src/update/mod.rs.
pub data DownloadError : Type 0 where
  http : HttpError → DownloadError
  io : Text → DownloadError
  insufficient_space : ℕ → ℕ → DownloadError
  symlink_download_path : DownloadError
  size_mismatch : ℕ → ℕ → DownloadError
  insecure_url : Text → DownloadError
  invalid_filename : Text → DownloadError
  connection_lost : ℕ → ℕ → ℕ → Text → DownloadError
  unexpected_status : ℕ → DownloadError

pub record RetryPolicy : Type 0 where
  pub retry_interval : ℕ
  pub reconnect_budget : ℕ

abbrev pub second : ℕ
second = 10 ^ 9

abbrev pub prod : RetryPolicy
prod = record { retry_interval = second; reconnect_budget = 120 * second }

pub record Outage : Type 0 where
  pub since : ℕ
  pub attempts : ℕ
  pub last_error : Text

-- The headers of a request that vary: `Range: bytes=<n>-` and `If-Range`.
pub record Request : Type 0 where
  pub range : Option ℕ
  pub if_range : Option Text

-- A piece of a body: when it comes, its bytes, and the outcome of writing them.
pub record Chunk : Type 0 where
  pub takes : ℕ
  pub bytes : List ℕ
  pub written : Result Text (Unit {0})

pub data Ending : Type 0 where
  finished : Ending
  broken : ℕ → HttpError → Ending

pub record Response : Type 0 where
  pub status : ℕ
  pub status_error : HttpError
  pub etag : Option Text
  pub last_modified : Option Text
  -- the outcome of truncating and rewinding the file, where that is done
  pub reset : Result Text (Unit {0})
  pub chunks : List Chunk
  pub ending : Ending

-- What the environment does in one round: the time lost outside the waits, and for each request
-- how long the answer takes and what it is.
pub record Attempt : Type 0 where
  pub lag : ℕ
  pub takes : Request → ℕ
  pub reply : Request → Result HttpError Response

-- The variables of the loop, with the file and the clock.
pub record Session : Type 0 where
  pub bytes_done : ℕ
  pub validator : Option Text
  pub outage : Option Outage
  pub file : File
  pub now : ℕ

-- A round returns from the function or goes on with the next one.
pub data Turn : Type 0 where
  returned : Session → Result DownloadError ℕ → Turn
  going : Session → Turn
