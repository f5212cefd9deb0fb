-- ===== src/Samples.antt =====
-- A manifest with one stable release and three ends of life: the data of the tests.
use gnosis_vpn_toolkit.Prelude.{some, none, [], ◌∷◌}
use gnosis_vpn_toolkit.Prelude.Text.{Text, codes}
use gnosis_vpn_toolkit.Manifest.{Url, EndOfLife, ChannelRelease, Manifest}

abbrev pub installed : Text
installed = codes "0.9.0"

abbrev pub url : Url
url = record {
  text = codes "https://download.gnosisvpn.io/artifacts/gnosisvpn-0.10.0-arm64.pkg";
  scheme = codes "https";
  path_segments = some (codes "artifacts" ∷ codes "gnosisvpn-0.10.0-arm64.pkg" ∷ []);
}

-- Two ends of life that cover the installed version, and one that it is past.
abbrev pub soon : EndOfLife
soon = record { version = codes "0.9.4"; ends_at = 200; reason = codes "unsafe" }

abbrev pub later : EndOfLife
later = record { version = codes "0.9.9"; ends_at = 300; reason = codes "old" }

abbrev pub past : EndOfLife
past = record { version = codes "0.8"; ends_at = 100; reason = codes "gone" }

abbrev pub release : ChannelRelease
release = record {
  version = codes "0.10.0";
  published_at = 50;
  download_url = url;
  size_bytes = 3;
  sha256 = 0xab ∷ [];
  artifact_signature = [];
  release_notes = codes "faster";
  min_os_version = codes "13";
  min_app_version = codes "0.8";
  end_of_life = later ∷ past ∷ soon ∷ [];
}

abbrev pub manifest : Manifest
manifest = record {
  schema_version = 2;
  generated_at = codes "2026-06-01";
  channels = record { stable = some release; snapshot = none; experimental = none };
}
