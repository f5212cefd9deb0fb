-- ===== src/Migrate/Tests.antt =====
-- Runs of the migration's parts on concrete names and directories, and the theorems at them.
use gnosis_vpn_toolkit.Prelude.{
  true, Option, some, none, [], ◌∷◌, ◌≡◌, ◌≢◌, ◌↔◌, refl, arith, Result, ok,
}
use gnosis_vpn_toolkit.Prelude.Text.{Text, codes, show_digits, show_nat, split, strip_prefix}
use gnosis_vpn_toolkit.Prelude.Exit.{temp_fail, success}
use gnosis_vpn_toolkit.FilePath.{file_stem}
use gnosis_vpn_toolkit.FilePath.Plain.{IsSlashFree, IsPlainName}
use gnosis_vpn_toolkit.Migrate.Outcome.{
  legacy, failed, exit_code, exit_code_of, IsConflict, IsFailed, exit_code_of-tells,
}
use gnosis_vpn_toolkit.Migrate.Network.{valid_name, from_config_link, from_config_link-IsPlainName}
use gnosis_vpn_toolkit.Migrate.Dirs.{Dir, Host, unique_name, next_name, exists}
use gnosis_vpn_toolkit.Migrate.Dirs.Unique.{IsFresh, unique_name-IsFresh}
use gnosis_vpn_toolkit.Migrate.Networks.{Networks, Hosts, MovedAside, publish, move_aside}
use gnosis_vpn_toolkit.Migrate.Networks.Restore.{AllOrNothing, move_aside-AllOrNothing}
use gnosis_vpn_toolkit.Migrate.Networks.Publish.{Settled, publish-Settled}
use gnosis_vpn_toolkit.Prelude.{ℕ, List, if◌then◌else◌, All, take, length}
use gnosis_vpn_toolkit.Prelude.Text.{starts_with}
use gnosis_vpn_toolkit.Migrate.Upload.{
  UploadResponse, SignedUpload, Services, posted, put_to, head_bytes, reject_transport_downgrade,
  parse_upload_response, send,
}
use gnosis_vpn_toolkit.Migrate.Upload.Transport.{
  IsSecure, Stored, first_answer, send-IsSecure, send-uploaded,
}

exit_code_of-tells_example :
    ((exit_code_of (failed legacy (codes "denied")) ≡ exit_code legacy)
      ↔ ((error : Text) × (failed legacy (codes "denied") ≡ failed legacy error)))
    × ((exit_code_of (failed legacy (codes "denied")) ≡ temp_fail)
        ↔ IsConflict (failed legacy (codes "denied")))
    × ((exit_code_of (failed legacy (codes "denied")) ≡ success) ↔ (
        (¬ IsFailed (failed legacy (codes "denied")))
        × (¬ IsConflict (failed legacy (codes "denied")))))
exit_code_of-tells_example = exit_code_of-tells (failed legacy (codes "denied")) legacy

abbrev config : Text
config = codes "/etc/gnosisvpn/config.toml"

jura_chosen : from_config_link config (ok (codes "config-jura.toml")) ≡ ok (codes "jura")
unfolding from_config_link valid_name file_stem split strip_prefix
jura_chosen = refl

from_config_link-IsPlainName_example :
    (valid_name (codes "jura") ≡ true) × IsPlainName (codes "jura")
from_config_link-IsPlainName_example =
    from_config_link-IsPlainName config (ok (codes "config-jura.toml")) jura_chosen

abbrev host : Host
host = record { stat_error = λ name. none; rename_error = λ from to. none; sync_error = none }

-- A directory with a network and two that were moved aside within the same second.
abbrev networks : Dir
networks =
    (codes "jura", 1)
    ∷ (codes "jura.replaced-20260601120000", 2)
    ∷ (codes "jura.replaced-20260601120000.1", 3)
    ∷ []

third_name :
    unique_name host networks (codes "jura.replaced-20260601120000")
    ≡ some (ok (codes "jura.replaced-20260601120000.2"))
unfolding unique_name next_name exists show_nat show_digits
third_name = refl

unique_name-IsFresh_example :
    (r : Result Text Text) × (unique_name host networks (codes "jura.replaced-20260601120000")
      ≡ some r)
    × ((name : Text) → r ≡ ok name → IsFresh networks (codes "jura.replaced-20260601120000") name)
unique_name-IsFresh_example =
    unique_name-IsFresh host networks (codes "jura.replaced-20260601120000")

abbrev path : Text
path = codes "/home/alice/.local/share/gnosisvpn/networks"

-- A cache directory that refuses the rename.
abbrev refusing : Host
refusing = record {
  stat_error = λ name. none;
  rename_error = λ from to. some (codes "Permission denied (os error 13)");
  sync_error = none;
}

abbrev hosts : Hosts
hosts = record { data_host = host; cache_host = refusing }

abbrev both : Networks
both = record {
  data_dir = (codes "jura.migrating-1", 4) ∷ [];
  cache_dir = (codes "jura.migrating-1", 5) ∷ [];
  data_path = path;
  cache_path = codes "/home/alice/.cache/gnosisvpn/networks";
}

other_name : codes "jura.migrating-1" ≢ codes "jura"
other_name = λ e. ground arith

publish-Settled_example :
    Settled hosts both
      (codes "jura.migrating-1")
      (codes "jura")
      (publish hosts both (codes "jura.migrating-1") (codes "jura"))
publish-Settled_example =
    publish-Settled hosts both (codes "jura.migrating-1") (codes "jura") other_name refl refl

jura_valid : valid_name (codes "jura") ≡ true
unfolding valid_name
jura_valid = refl

replaced-IsSlashFree : IsSlashFree (codes "replaced")
replaced-IsSlashFree = (refl, (refl, (refl, (refl, (refl, (refl, (refl, (refl, tt))))))))

-- Both sides have the network, and the cache side refuses to move it.
abbrev current : Networks
current = record {
  data_dir = networks;
  cache_dir = (codes "jura", 6) ∷ [];
  data_path = path;
  cache_path = codes "/home/alice/.cache/gnosisvpn/networks";
}

move_aside-AllOrNothing_example :
    (r : MovedAside) × (move_aside hosts current (codes "jura") (codes "replaced") (codes "1")
      ≡ some r)
    × AllOrNothing (codes "jura") (codes "replaced") (codes "1") current r
move_aside-AllOrNothing_example =
    move_aside-AllOrNothing (codes "jura") (codes "replaced") (codes "1") jura_valid
      replaced-IsSlashFree (refl, tt) hosts (λ aside. refl) current

-- An uploader that signs a URL, and a storage that takes the bundle.
abbrev signed_response : UploadResponse
signed_response = record {
  uuid = some (codes "3f2b8c1e");
  upload_url = some (codes "https://storage/obj");
  upload_headers = some ((codes "x-goog-meta", codes "1") ∷ []);
  error = none;
}

abbrev scheme_of : Text → Option Text
scheme_of url =
    if starts_with url (codes "https:") then some (codes "https") else some (codes "http")

abbrev services : Services
services = record {
  scheme = scheme_of;
  from_str = λ body. ok signed_response;
  mime_str = ok tt;
  post = λ url name head size. ok (200, ok (codes "{}"));
  put = λ url headers body. ok (200, none);
}

abbrev api : Text
api = codes "https://log-uploader.gnosisvpn.com/api/upload"

abbrev bundle_name : Text
bundle_name = codes "gnosis_vpn-20260601-120000.log.zst"

abbrev bundle : List ℕ
bundle = 40 ∷ 181 ∷ []

send-IsSecure_example : All (IsSecure services) (send services api bundle_name bundle).0
send-IsSecure_example = send-IsSecure services api bundle_name bundle refl

bundle_uploaded : (send services api bundle_name bundle).1 ≡ ok (codes "3f2b8c1e")
unfolding send parse_upload_response reject_transport_downgrade
bundle_uploaded = refl

send-uploaded_example :
    (status : ℕ) × (body : Text) × (signed : SignedUpload) × (first_answer services api bundle_name
        bundle
      ≡ ok (status, ok body))
    × (parse_upload_response services status body ≡ ok signed)
    × (signed.uuid ≡ codes "3f2b8c1e")
    × Stored services api bundle_name bundle signed
    × ((send services api bundle_name bundle).0
        ≡ posted api bundle_name (take head_bytes bundle) (show_nat (length bundle))
          ∷ put_to signed.url signed.headers bundle
          ∷ [])
send-uploaded_example = send-uploaded services api bundle_name bundle bundle_uploaded
