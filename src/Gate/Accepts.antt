-- ===== src/Gate/Accepts.antt =====
-- What the install gate accepts.
use gnosis_vpn_toolkit.Prelude.{Ordering, Bool, true, false, ◌≡◌, ◌≢◌, ◌↔◌, ◌⊎◌, ok, err, arith}
use gnosis_vpn_toolkit.Prelude.Text.{Text}
use gnosis_vpn_toolkit.Version.{Channel, channel_eq, compare_components, channel_of_version}
use gnosis_vpn_toolkit.Version.Order.{compare_components_refl}
use gnosis_vpn_toolkit.Manifest.{ChannelRelease}
use gnosis_vpn_toolkit.Gate.{app_too_old, downgrade, already_installed, ensure_installable}

pub channel_eq_iff : (a b : Channel) → (channel_eq a b ≡ true) ↔ (a ≡ b)
channel_eq_iff a b = (λ h. ground arith, λ h. ground arith)

-- What lets a release pass, said without the order of the tests: it comes from another channel
-- than the installed version, or the installed version meets the release's minimum and the release
-- is newer, or older with downgrades allowed.
abbrev pub MayInstall : ChannelRelease → Text → Channel → Bool → Type 0
MayInstall release current target allow =
    (channel_of_version current ≢ target)
    ⊎ ((compare_components current release.min_app_version ≢ Ordering.lt)
        × ((compare_components release.version current ≡ Ordering.gt)
            ⊎ ((compare_components release.version current ≡ Ordering.lt) × (allow ≡ true))))

module _ (release : ChannelRelease) (current : Text) (target : Channel) (allow : Bool) where
  -- The gate accepts a release, and then reports how it compares with the installed version,
  -- exactly when the release may be installed.
  pub ensure_installable-ok_iff :
      (ensure_installable release current target allow
        ≡ ok (compare_components release.version current))
      ↔ MayInstall release current target allow
  unfolding ensure_installable
  ensure_installable-ok_iff = (
    λ h. ground (arith, channel_eq_iff (channel_of_version current) target),
    λ h. ground (arith, channel_eq_iff (channel_of_version current) target),
  )

  -- Each refusal has its own cause, and the minimum version is judged first: on the installed
  -- version's own channel the gate answers "too old" exactly when the installed version is below the
  -- minimum, and past that "already installed" exactly for an equal version and "downgrade" exactly
  -- for an older one without permission.
  pub ensure_installable-err_iff :
      ((ensure_installable release current target allow
          ≡ err (app_too_old current release.min_app_version release.version))
        ↔ ((channel_of_version current ≡ target)
            × (compare_components current release.min_app_version ≡ Ordering.lt)))
      × ((ensure_installable release current target allow ≡ err (already_installed release.version))
          ↔ ((channel_of_version current ≡ target)
              × (compare_components current release.min_app_version ≢ Ordering.lt)
              × (compare_components release.version current ≡ Ordering.eq)))
      × ((ensure_installable release current target allow ≡ err (downgrade current release.version))
          ↔ ((channel_of_version current ≡ target)
              × (compare_components current release.min_app_version ≢ Ordering.lt)
              × (compare_components release.version current ≡ Ordering.lt)
              × (allow ≡ false)))
  unfolding ensure_installable
  ensure_installable-err_iff =
      let same = channel_eq_iff (channel_of_version current) target in
      (
        (λ h. ground (arith, same), λ h. ground (arith, same)),
        (λ h. ground (arith, same), λ h. ground (arith, same)),
        (λ h. ground (arith, same), λ h. ground (arith, same)),
      )

-- Once a release is the installed version, the gate of its channel refuses it as installed, with or
-- without downgrades, if the release does not ask for more than itself.
pub ensure_installable-installed :
    (release : ChannelRelease) (target : Channel) (allow : Bool)
    → channel_of_version release.version ≡ target
    → compare_components release.version release.min_app_version ≢ Ordering.lt
    → ensure_installable release release.version target allow
      ≡ err (already_installed release.version)
unfolding ensure_installable
ensure_installable-installed release target allow same met = ground (
  arith,
  channel_eq_iff (channel_of_version release.version) target,
  compare_components_refl release.version,
)
