-- ===== src/Artifact/Tests.antt =====
-- Downloads of the sample release to a disk, and the theorems at them.
use gnosis_vpn_toolkit.Prelude.{
  ℕ, true, false, some, none, List, [], ◌∷◌, ◌++◌, append_assoc, append-nil, All, ◌≡◌, ◌≢◌, refl,
  ◌↔◌, ◌⊎◌, arith, Result, ok, err,
}
use gnosis_vpn_toolkit.Prelude.Text.{Text, codes, join, split}
use gnosis_vpn_toolkit.Manifest.{ChannelRelease}
use gnosis_vpn_toolkit.Resume.Session.{
  DownloadError, size_mismatch, symlink_download_path, prod, finished, Response, Attempt,
}
use gnosis_vpn_toolkit.Resume.Loop.{fetch_with_resume, start}
use gnosis_vpn_toolkit.Resume.Loop.Serving.{Serves}
use gnosis_vpn_toolkit.Samples.{release}
use gnosis_vpn_toolkit.Artifact.{
  Node, absent, symlink, file, Answers, Disk, safe_artifact_filename, needed_space,
  download_artifact,
}
use gnosis_vpn_toolkit.FilePath.Plain.{IsPlainName}
use gnosis_vpn_toolkit.Artifact.Naming.{safe_artifact_filename-IsPlainName}
use gnosis_vpn_toolkit.Artifact.Outcome.{
  Written, download_artifact-ok, download_artifact-clean, download_artifact-symlink,
  download_artifact-content,
}
use gnosis_vpn_toolkit.Artifact.Digest.{
  Hasher, IsStreaming, digest, verify_sha256, reads_of, joined, verify_sha256-ok_iff,
}

abbrev artifact : List ℕ
artifact = 7 ∷ 8 ∷ 9 ∷ []

abbrev file_name : Text
file_name = codes "gnosisvpn-0.10.0-arm64.pkg"

named : safe_artifact_filename release.download_url ≡ some file_name
unfolding safe_artifact_filename split
named = refl

safe_artifact_filename-IsPlainName_example : IsPlainName file_name
safe_artifact_filename-IsPlainName_example =
    safe_artifact_filename-IsPlainName release.download_url named

abbrev answers : Answers
answers = record {
  create_dir = ok tt;
  chmod_dir = true;
  stat = true;
  remove_old = true;
  free = some 1000000000;
  open_new = ok tt;
  chmod_file = true;
  remove_partial = true;
  flush = ok tt;
}

abbrev downloads : Text
downloads = codes "/Library/Caches/GnosisVPN/updates"

abbrev disk : Node → Disk
disk node = record { target = node; dir_mode = 0o755; file_mode = 0o644 }

abbrev whole_response : Response
whole_response = record {
  status = 200;
  status_error = record {
    is_status = true;
    is_builder = false;
    is_redirect = false;
    is_timeout = false;
    text = [];
    text_without_url = [];
  };
  etag = none;
  last_modified = none;
  reset = ok tt;
  chunks = record { takes = 1; bytes = artifact; written = ok tt } ∷ [];
  ending = finished;
}

abbrev attempt : Attempt
attempt = record { lag = 0; takes = λ q. 1; reply = λ q. ok whole_response }

attempt-Serves : Serves artifact attempt
attempt-Serves = record {
  whole = λ q r e h. ([], ground arith);
  partial = λ q r k e h asked. absurd (ground arith);
}

abbrev stored : Disk
stored = record { target = file artifact; dir_mode = 0o700; file_mode = 0o600 }

fetched :
    download_artifact answers downloads release
      (disk absent)
      (fetch_with_resume prod release.size_bytes (attempt ∷ []) (start 0))
    ≡ some (ok (join downloads file_name), stored)
unfolding download_artifact safe_artifact_filename fetch_with_resume needed_space split
fetched = refl

download_artifact-ok_example :
    (release.download_url.scheme ≡ codes "https")
    × ((name : Text) × (safe_artifact_filename release.download_url ≡ some name)
        × (join downloads file_name ≡ join downloads name))
    × (absent ≢ symlink)
    × Written release.size_bytes
        (fetch_with_resume prod release.size_bytes (attempt ∷ []) (start 0))
        (file artifact)
download_artifact-ok_example =
    download_artifact-ok answers downloads release (disk absent)
      (fetch_with_resume prod release.size_bytes (attempt ∷ []) (start 0)) fetched

download_artifact-content_example : file artifact ≡ file artifact
download_artifact-content_example =
    download_artifact-content artifact answers downloads release (disk absent) 0 (attempt ∷ [])
      (attempt-Serves, tt) refl (omega arith) fetched

-- The manifest states one byte more than the server has.
abbrev longer : ChannelRelease
longer = record release { size_bytes = 4 }

short :
    download_artifact answers downloads longer
      (disk (file (1 ∷ [])))
      (fetch_with_resume prod longer.size_bytes (attempt ∷ []) (start 0))
    ≡ some
        (err (size_mismatch 4 3), record { target = absent; dir_mode = 0o700; file_mode = 0o600 })
unfolding download_artifact safe_artifact_filename fetch_with_resume needed_space split
short = refl

download_artifact-clean_example : (absent ≡ file (1 ∷ [])) ⊎ (absent ≡ absent)
download_artifact-clean_example =
    download_artifact-clean answers downloads longer (disk (file (1 ∷ [])))
      (fetch_with_resume prod longer.size_bytes (attempt ∷ []) (start 0)) refl refl short

abbrev refused : Result DownloadError Text
refused = err symlink_download_path

planted :
    download_artifact answers downloads release
      (disk symlink)
      (fetch_with_resume prod release.size_bytes (attempt ∷ []) (start 0))
    ≡ some (
      err symlink_download_path,
      record { target = symlink; dir_mode = 0o700; file_mode = 0o644 },
    )
unfolding download_artifact safe_artifact_filename split
planted = refl

download_artifact-symlink_example : (symlink ≡ symlink) × ((e : DownloadError) × (refused ≡ err e))
download_artifact-symlink_example =
    download_artifact-symlink answers downloads release (disk symlink)
      (fetch_with_resume prod release.size_bytes (attempt ∷ []) (start 0)) refl planted

-- A hash that is its own message.
abbrev identity_hasher : Hasher
identity_hasher = record {
  State = List ℕ;
  init = [];
  update = λ s bytes. s ++ bytes;
  finalize = λ s. s;
}

identity_hasher-IsStreaming : IsStreaming identity_hasher
identity_hasher-IsStreaming = record {
  update_nil = λ s. append-nil s;
  update_append = λ s a b. append_assoc s a b;
}

abbrev pieces : List (List ℕ)
pieces = (7 ∷ []) ∷ (8 ∷ 9 ∷ []) ∷ []

pieces_not_empty : All (λ p. p ≢ []) pieces
pieces_not_empty = (ground arith, (ground arith, tt))

verify_sha256-ok_iff_example :
    (verify_sha256 identity_hasher (ok (reads_of identity_hasher pieces)) artifact ≡ ok tt)
    ↔ (digest identity_hasher (joined identity_hasher pieces) ≡ artifact)
verify_sha256-ok_iff_example =
    verify_sha256-ok_iff identity_hasher identity_hasher-IsStreaming pieces artifact
      pieces_not_empty
