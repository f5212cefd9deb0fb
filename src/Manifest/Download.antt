-- ===== src/Manifest/Download.antt =====
-- `download`, `download_from`, `fetch` and `verify_and_parse` of gnosis_vpn-update/src/manifest.rs.
use gnosis_vpn_toolkit.Prelude.{ℕ, Bool, not, ◌||◌, List, Result, ok, err, map_err, if◌then◌else◌}
use gnosis_vpn_toolkit.Prelude.Text.{Text, codes, replace}
use gnosis_vpn_toolkit.Version.{Channel}
use gnosis_vpn_toolkit.Manifest.{Url, Manifest, ManifestError, integrity, other, base_url}

-- What the accessors of a `reqwest::Error` return, and its `Display` form.
pub record HttpError : Type 0 where
  pub is_status : Bool
  pub is_builder : Bool
  pub is_redirect : Bool
  pub is_timeout : Bool
  pub text : Text
  pub text_without_url : Text

abbrev pub Answer : Type 0 → Type 0
Answer S = Result HttpError (List ℕ) × S

-- The crates under the download: `url`, `reqwest` (`send` is a GET with its status check and its
-- body), `backon` (`retry` repeats a request while the predicate accepts its error), `tokio`
-- (`within` says whether a future that took one state to another beat the deadline) and
-- `serde_json`.
pub record Transport : Type 1 where
  pub State : Type 0
  pub parse_url : Text → Result Text Url
  pub join : Url → Text → Result Text Url
  pub send : Url → State → Answer State
  pub retry : (State → Answer State) → (HttpError → Bool) → State → Answer State
  pub within : State → State → ℕ → Bool
  pub from_slice : List ℕ → Result Text Manifest

pub data Platform : Type 0 where
  macos_arm64 linux_amd64 linux_arm64 : Platform

pub manifest_filename : Platform → Text
manifest_filename macos_arm64 = codes "macos-arm64.json"
manifest_filename linux_amd64 = codes "linux-amd64.json"
manifest_filename linux_arm64 = codes "linux-arm64.json"

-- The budget of both fetches together, in seconds.
abbrev pub budget : ℕ
budget = 60

unfoldable pub is_retryable : HttpError → Bool
is_retryable e = not (e.is_builder || e.is_redirect)

module _ (t : Transport) where
  open t use {State, parse_url, join, send, retry, within, from_slice}

  abbrev Fetched : Type 0 → Type 0
  Fetched A = Result ManifestError A × State

  -- The signature is fetched and not read.
  verify_and_parse : List ℕ → List ℕ → Result ManifestError Manifest
  verify_and_parse manifest_bytes sig_bytes = map_err integrity (from_slice manifest_bytes)

  fetch : Url → State → Fetched (List ℕ)
  fetch url s = let (r, s') = retry (send url) is_retryable s in (map_err (λ e. other e.text) r, s')

  abbrev with_signature : List ℕ → Fetched (List ℕ) → Fetched Manifest
  with_signature manifest_bytes (err e, s) = (err e, s)
  with_signature manifest_bytes (ok sig_bytes, s) = (verify_and_parse manifest_bytes sig_bytes, s)

  abbrev with_manifest : Url → Fetched (List ℕ) → Fetched Manifest
  with_manifest sig_url (err e, s) = (err e, s)
  with_manifest sig_url (ok manifest_bytes, s) = with_signature manifest_bytes (fetch sig_url s)

  download_from : Url → Url → ℕ → State → Fetched Manifest
  unfolding verify_and_parse fetch
  download_from manifest_url sig_url seconds s =
      let (r, s') = with_manifest sig_url (fetch manifest_url s) in
      if within s s' seconds then (r, s') else (err (other (codes "manifest fetch timed out")), s')

  -- The three URLs, each of which may fail to parse.
  abbrev urls : Platform → Channel → Result ManifestError (Url × Url)
  urls platform channel = elim (parse_url (base_url channel)) [
    | err e ↦ err (other e)
    | ok base ↦ elim (join base (manifest_filename platform)) [
      | err e ↦ err (other e)
      | ok manifest_url ↦
          elim (join base
            (replace (manifest_filename platform) (codes ".json") (codes ".json.asc"))) [
              | err e ↦ err (other e)
              | ok sig_url ↦ ok (manifest_url, sig_url)
            ]
    ]
  ]

  unfoldable pub download : Platform → Channel → State → Fetched Manifest
  unfolding download_from manifest_filename
  download platform channel s = elim (urls platform channel) [
    | err e ↦ (err e, s)
    | ok (manifest_url, sig_url) ↦ download_from manifest_url sig_url budget s
  ]
