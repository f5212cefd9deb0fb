-- ===== src/Manifest.antt =====
-- The update manifest and its download (gnosis_vpn-update/src/manifest.rs). The transport and the
-- JSON parser are parameters. An instant is a number, since only the order of instants is used.
pub mod Download
use gnosis_vpn_toolkit.Prelude.{ℕ, Option, some, none, List, ◌++◌}
use gnosis_vpn_toolkit.Prelude.Text.{Text, codes}
use gnosis_vpn_toolkit.Version.{Channel, stable, snapshot, experimental}

-- What the accessors of a parsed `url::Url` return.
pub record Url : Type 0 where
  pub text : Text
  pub scheme : Text
  pub path_segments : Option (List Text)

pub record EndOfLife : Type 0 where
  pub version : Text
  pub ends_at : ℕ
  pub reason : Text

pub record ChannelRelease : Type 0 where
  pub version : Text
  pub published_at : ℕ
  pub download_url : Url
  pub size_bytes : ℕ
  pub sha256 : List ℕ
  pub artifact_signature : Text
  pub release_notes : Text
  pub min_os_version : Text
  pub min_app_version : Text
  pub end_of_life : List EndOfLife

pub record ManifestChannels : Type 0 where
  pub stable : Option ChannelRelease
  pub snapshot : Option ChannelRelease
  pub experimental : Option ChannelRelease

pub record Manifest : Type 0 where
  pub schema_version : ℕ
  pub generated_at : Text
  pub channels : ManifestChannels

-- `manifest::Error` and its messages.
pub data ManifestError : Type 0 where
  integrity : Text → ManifestError
  other : Text → ManifestError

unfoldable pub show_manifest_error : ManifestError → Text
show_manifest_error (integrity m) = codes "Manifest integrity error: " ++ m
show_manifest_error (other m) = codes "Update check error: " ++ m

unfoldable pub pick : Manifest → Channel → Option ChannelRelease
pick m stable = m.channels.stable
pick m snapshot = m.channels.snapshot
pick m experimental = m.channels.experimental

abbrev pub manifest_base_url_stable : Text
manifest_base_url_stable = codes "https://download.vpn.gnosis.eth.limo/manifests/"

abbrev pub manifest_base_url_prerelease : Text
manifest_base_url_prerelease = codes "https://download.gnosisvpn.io/manifests/"

unfoldable pub base_url : Channel → Text
base_url stable = manifest_base_url_stable
base_url snapshot = manifest_base_url_prerelease
base_url experimental = manifest_base_url_prerelease
