-- ===== src/Check/Decision.antt =====
-- What `check-update` decides.
use mathlib.Core.Option
use gnosis_vpn_toolkit.Prelude.{
  Ordering, false, ◌≡◌, refl, ap, ◌≢◌, ◌∙◌, subst, inl, inr, Option-cases, some, Result, ok, err,
  to_option, arith,
}
use gnosis_vpn_toolkit.Prelude.Text.{Text}
use gnosis_vpn_toolkit.Prelude.Exit.{success}
use gnosis_vpn_toolkit.Version.{Channel, compare_components, channel_of_version}
use gnosis_vpn_toolkit.Manifest.{ChannelRelease, Manifest, ManifestError, integrity, other, pick}
use gnosis_vpn_toolkit.Gate.{ensure_installable, end_of_life_for}
use gnosis_vpn_toolkit.Gate.Accepts.{
  channel_eq_iff, MayInstall, ensure_installable-ok_iff, ensure_installable-installed,
}
use gnosis_vpn_toolkit.Check.{
  up_to_date, available, outcome_of_gate, outcome_of_pick, check, exit_for_check,
}

module _ (channel : Channel) (current : Text) where
  outcome_of_gate-available :
      (picked : ChannelRelease) {c : Text} {release : ChannelRelease}
      → outcome_of_gate current picked (ensure_installable picked current channel false)
        ≡ available c release
      → (c ≡ current) × (picked ≡ release) × MayInstall picked current channel false
  unfolding outcome_of_gate ensure_installable
  outcome_of_gate-available picked h =
      ground (arith, channel_eq_iff (channel_of_version current) channel)

  outcome_of_gate-accepted :
      (picked : ChannelRelease)
      → MayInstall picked current channel false
      → outcome_of_gate current picked (ensure_installable picked current channel false)
        ≡ available current picked
  unfolding outcome_of_gate
  outcome_of_gate-accepted picked h =
      rw ((ensure_installable-ok_iff picked current channel false).1 h)

  -- A check that offers a release offers the one that the fetched manifest lists for the checked
  -- channel, names the installed version with it, and that release may be installed without
  -- downgrades.
  pub check-available :
      (fetched : Result ManifestError Manifest) {c : Text} {release : ChannelRelease}
      → (check fetched channel current).outcome ≡ available c release
      → (c ≡ current)
        × ((m : Manifest) × (fetched ≡ ok m) × (pick m channel ≡ some release))
        × MayInstall release current channel false
  unfolding check outcome_of_pick
  check-available (err (integrity msg)) h = cc
  check-available (err (other msg)) h = cc
  check-available (ok m) {release = release} h = elim (Option-cases (pick m channel)) [
    | inl missing ↦ cc (rw missing at h)
    | inr (picked, e) ↦
        let (named, same, may) = outcome_of_gate-available picked (rw e at h) in
        (
          named,
          (m, refl, e ∙ ap some same),
          subst (λ r. MayInstall r current channel false) same may,
        )
  ]

  -- Every release that the manifest lists for the checked channel and that may be installed without
  -- downgrades is offered, and the exit code is then the one of success.
  pub check-offers :
      (m : Manifest) (release : ChannelRelease)
      → pick m channel ≡ some release
      → MayInstall release current channel false
      → ((check (ok m) channel current).outcome ≡ available current release)
        × (exit_for_check (check (ok m) channel current).outcome ≡ success)
  unfolding check outcome_of_pick exit_for_check
  check-offers m release e may = (
    rw (e, outcome_of_pick) (outcome_of_gate-accepted release may),
    rw (e, outcome_of_pick) (rw (outcome_of_gate-accepted release may)),
  )

  -- The fetched manifest is reported with every outcome, and the end of life that it holds for the
  -- installed version; without a manifest both are absent.
  pub check-manifest :
      (fetched : Result ManifestError Manifest)
      → ((check fetched channel current).manifest ≡ to_option fetched)
        × ((check fetched channel current).end_of_life
            ≡ Option.bind (to_option fetched) (λ m. end_of_life_for m current))
  unfolding check Option.bind
  check-manifest (err (integrity msg)) = (refl, refl)
  check-manifest (err (other msg)) = (refl, refl)
  check-manifest (ok m) = (refl, refl)

-- After the offered release has been installed from the version's own channel, the same manifest
-- yields "up to date", if the release does not ask for more than itself.
pub check-installed :
    (m : Manifest) (channel : Channel) (release : ChannelRelease)
    → pick m channel ≡ some release
    → channel_of_version release.version ≡ channel
    → compare_components release.version release.min_app_version ≢ Ordering.lt
    → (check (ok m) channel release.version).outcome ≡ up_to_date release.version
unfolding check outcome_of_pick outcome_of_gate
check-installed m channel release e same met =
    rw (e, outcome_of_pick) (rw (ensure_installable-installed release channel false same met))
