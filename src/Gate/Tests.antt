-- ===== src/Gate/Tests.antt =====
-- The theorems of the gate at the sample releases.
use mathlib.Core.List.{Memᴰ}
use gnosis_vpn_toolkit.Prelude.{
  Ordering, true, false, some, ◌≡◌, ◌≢◌, refl, ◌↔◌, ◌≤◌, arith, ok, err,
}
use gnosis_vpn_toolkit.Prelude.Text.{codes, split}
use gnosis_vpn_toolkit.Version.{stable, compare_components, channel_of_version}
use gnosis_vpn_toolkit.Manifest.{pick}
use gnosis_vpn_toolkit.Samples.{installed, soon, release, manifest}
use gnosis_vpn_toolkit.Gate.{
  app_too_old, downgrade, already_installed, ensure_installable, end_of_life_for,
}
use gnosis_vpn_toolkit.Gate.Accepts.{
  MayInstall, ensure_installable-ok_iff, ensure_installable-err_iff, ensure_installable-installed,
}
use gnosis_vpn_toolkit.Manifest.{EndOfLife}
use gnosis_vpn_toolkit.Gate.Ending.{Covers, end_of_life_for-Covers}

ensure_installable-ok_iff_example :
    (ensure_installable release installed stable false
      ≡ ok (compare_components release.version installed))
    ↔ MayInstall release installed stable false
ensure_installable-ok_iff_example = ensure_installable-ok_iff release installed stable false

accepted : ensure_installable release installed stable false ≡ ok Ordering.gt
unfolding ensure_installable compare_components channel_of_version split
accepted = refl

ensure_installable-err_iff_example :
    ((ensure_installable release (codes "0.7") stable true
        ≡ err (app_too_old (codes "0.7") release.min_app_version release.version))
      ↔ ((channel_of_version (codes "0.7") ≡ stable)
          × (compare_components (codes "0.7") release.min_app_version ≡ Ordering.lt)))
    × ((ensure_installable release (codes "0.7") stable true
          ≡ err (already_installed release.version))
        ↔ ((channel_of_version (codes "0.7") ≡ stable)
            × (compare_components (codes "0.7") release.min_app_version ≢ Ordering.lt)
            × (compare_components release.version (codes "0.7") ≡ Ordering.eq)))
    × ((ensure_installable release (codes "0.7") stable true
          ≡ err (downgrade (codes "0.7") release.version))
        ↔ ((channel_of_version (codes "0.7") ≡ stable)
            × (compare_components (codes "0.7") release.min_app_version ≢ Ordering.lt)
            × (compare_components release.version (codes "0.7") ≡ Ordering.lt)
            × (true ≡ false)))
ensure_installable-err_iff_example = ensure_installable-err_iff release (codes "0.7") stable true

release_is_stable : channel_of_version release.version ≡ stable
unfolding channel_of_version split
release_is_stable = refl

release_meets_itself : compare_components release.version release.min_app_version ≢ Ordering.lt
unfolding compare_components split
release_meets_itself = ground arith

ensure_installable-installed_example :
    ensure_installable release release.version stable true ≡ err (already_installed release.version)
ensure_installable-installed_example =
    ensure_installable-installed release stable true release_is_stable release_meets_itself

picked : pick manifest (channel_of_version installed) ≡ some release
unfolding pick channel_of_version split
picked = refl

ends_soon : end_of_life_for manifest installed ≡ some soon
unfolding end_of_life_for pick compare_components channel_of_version split
ends_soon = refl

end_of_life_for-Covers_example :
    Memᴰ soon release.end_of_life
    × Covers installed soon
    × ((x : EndOfLife) → Memᴰ x release.end_of_life → Covers installed x → 200 ≤ x.ends_at)
end_of_life_for-Covers_example = end_of_life_for-Covers manifest installed picked ends_soon
