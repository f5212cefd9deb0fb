-- ===== src/Check/Command.antt =====
-- The subcommand `check-update` and the version file under it (`run_check` in
-- gnosis_vpn-update/src/main.rs, `read_installed_version` in
-- gnosis_vpn-toolkit-common/src/package_version.rs).
use gnosis_vpn_toolkit.Prelude.{
  Ordering, Option, none, ◌≡◌, refl, inl, inr, ◌≢◌, ◌++◌, Result, ok, err, unwrap_or, if◌then◌else◌,
}
use gnosis_vpn_toolkit.Prelude.Text.{Text, codes, trim, is_empty}
use gnosis_vpn_toolkit.Prelude.Exit.{ExitCode}
use gnosis_vpn_toolkit.Version.{Channel, stable, compare_components, channel_of_version}
use gnosis_vpn_toolkit.Manifest.{ChannelRelease, Manifest, ManifestError}
use gnosis_vpn_toolkit.Check.Decision.{check-available}
use gnosis_vpn_toolkit.Check.{CheckResult, available, error, bare, check, exit_for_check}

abbrev pub installed_version_path : Text
installed_version_path = codes "/etc/gnosisvpn/version.txt"

-- From what `std::fs::read_to_string` returned: the text, or an I/O error by its message.
unfoldable pub read_installed_version : Text → Result Text Text → Result Text Text
read_installed_version path (err e) =
    err (codes "cannot read installed version from " ++ (path ++ (codes ": " ++ e)))
read_installed_version path (ok raw) =
    let version = trim raw in
    if is_empty version
    then err (codes "installed version file " ++ (path ++ codes " is empty"))
    else ok version

-- `args.channel`, or the channel of the installed version.
abbrev pub chosen_channel : Option Channel → Text → Channel
chosen_channel asked current = unwrap_or asked (channel_of_version current)

-- From the version file, the HTTP client's construction, and the download of a channel's manifest.
unfoldable pub run_check {ℓ} :
    {Client : Type ℓ}
    → Result Text Text
    → Result Text Client
    → (Client → Channel → Result ManifestError Manifest)
    → Option Channel
    → CheckResult × ExitCode
run_check (err e) client download asked =
    let r = bare (unwrap_or asked stable) (error e) in (r, exit_for_check r.outcome)
run_check (ok current) (err e) download asked =
    let r = bare (unwrap_or asked stable) (error e) in (r, exit_for_check r.outcome)
run_check (ok current) (ok client) download asked =
    let channel = chosen_channel asked current in
    let r = check (download client channel) channel current in (r, exit_for_check r.outcome)

-- Without `--channel` a run that offers a release offers a newer one, whose minimum the installed
-- version meets: staying on a channel never leads back or to the same version.
pub run_check-newer {ℓ} :
    {Client : Type ℓ} (current : Text) (client : Client)
    (download : Client → Channel → Result ManifestError Manifest) {c : Text}
    {release : ChannelRelease}
    → (run_check (ok current) (ok client) download none).0.outcome ≡ available c release
    → (compare_components release.version current ≡ Ordering.gt)
      × (compare_components current release.min_app_version ≢ Ordering.lt)
unfolding run_check
run_check-newer current client download {release = release} h =
    let channel = channel_of_version current in
    elim ((check-available channel current (download client channel) h).2) [
      | inl other ↦ absurd (other refl)
      | inr (met, inl newer) ↦ (newer, met)
      | inr (met, inr (_, allowed)) ↦ cc
    ]
