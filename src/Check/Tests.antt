-- ===== src/Check/Tests.antt =====
-- The check command over the sample manifest, and its theorems at it.
use gnosis_vpn_toolkit.Prelude.{
  Ordering, false, some, none, ◌≡◌, ◌≢◌, refl, inr, inl, arith, Result, ok,
}
use gnosis_vpn_toolkit.Prelude.Text.{Text, codes, split}
use gnosis_vpn_toolkit.Prelude.Exit.{success}
use gnosis_vpn_toolkit.Version.{Channel, stable, compare_components, channel_of_version}
use gnosis_vpn_toolkit.Manifest.{Manifest, ManifestError, pick}
use gnosis_vpn_toolkit.Gate.{ensure_installable}
use gnosis_vpn_toolkit.Gate.Accepts.{MayInstall}
use gnosis_vpn_toolkit.Samples.{installed, release, manifest}
use gnosis_vpn_toolkit.Check.{available, check, exit_for_check}
use gnosis_vpn_toolkit.Check.Decision.{check-available, check-offers}
use gnosis_vpn_toolkit.Check.Command.{run_check, run_check-newer}

abbrev fetched : Result ManifestError Manifest
fetched = ok manifest

picked : pick manifest stable ≡ some release
unfolding pick
picked = refl

offered : (check (ok manifest) stable installed).outcome ≡ available installed release
unfolding check ensure_installable pick compare_components channel_of_version split
offered = refl

check-available_example :
    (installed ≡ installed)
    × ((m : Manifest) × (fetched ≡ ok m) × (pick m stable ≡ some release))
    × MayInstall release installed stable false
check-available_example = check-available stable installed fetched offered

may_install : MayInstall release installed stable false
unfolding compare_components channel_of_version split
may_install = inr (ground arith, inl refl)

check-offers_example :
    ((check (ok manifest) stable installed).outcome ≡ available installed release)
    × (exit_for_check (check (ok manifest) stable installed).outcome ≡ success)
check-offers_example = check-offers stable installed manifest release picked may_install

release_is_stable : channel_of_version release.version ≡ stable
unfolding channel_of_version split
release_is_stable = refl

release_meets_itself : compare_components release.version release.min_app_version ≢ Ordering.lt
unfolding compare_components split
release_meets_itself = ground arith

abbrev fetch_sample : Text → Channel → Result ManifestError Manifest
fetch_sample client channel = ok manifest

offered_by_run :
    (run_check (ok installed) (ok (codes "client")) fetch_sample none).0.outcome
    ≡ available installed release
unfolding run_check check ensure_installable pick compare_components channel_of_version split
offered_by_run = refl

run_check-newer_example :
    (compare_components release.version installed ≡ Ordering.gt)
    × (compare_components installed release.min_app_version ≢ Ordering.lt)
run_check-newer_example = run_check-newer installed (codes "client") fetch_sample offered_by_run
