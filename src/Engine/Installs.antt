-- ===== src/Engine/Installs.antt =====
-- When the installer runs, and what surrounds it.
use mathlib.Core.List.{append-nil}
use gnosis_vpn_toolkit.Prelude.{
  Ordering, Bool, true, false, Option, none, some, List, [], ◌∷◌, ◌++◌, ◌≡◌, refl, ap, ◌∙◌, ◌⊎◌,
  inl, inr, arith, ok, err, Option-cases, Result-cases,
}
use gnosis_vpn_toolkit.Prelude.Text.{Text, codes, join}
use gnosis_vpn_toolkit.Manifest.{ChannelRelease, Manifest, pick}
use gnosis_vpn_toolkit.Gate.{ensure_installable}
use gnosis_vpn_toolkit.Engine.{
  checking, downloading, Effect, sent, wrote_choices, shielded, loader_shown, aside_renamed,
  installer_ran, loader_dismissed, settled, macos, linux, EngineInput, World, EngineOutcome,
}
use gnosis_vpn_toolkit.Engine.Run.{Engine, before, is_ok, install_release, run_engine, drive_engine}

-- The effects of the install itself, in order.
abbrev pub install_steps : List Effect → List Effect
install_steps [] = []
install_steps (shielded ∷ es) = shielded ∷ install_steps es
install_steps (loader_shown ∷ es) = loader_shown ∷ install_steps es
install_steps (aside_renamed ∷ es) = aside_renamed ∷ install_steps es
install_steps (installer_ran p c ∷ es) = installer_ran p c ∷ install_steps es
install_steps (loader_dismissed ∷ es) = loader_dismissed ∷ install_steps es
install_steps (settled b ∷ es) = settled b ∷ install_steps es
install_steps (_ ∷ es) = install_steps es

-- Everything that must have held before `installer(8)` is run on a package: a manifest with that
-- release for the channel, an accepting gate, a completed download and a matching digest.
abbrev pub Cleared : World → EngineInput → ChannelRelease → Text → Type 0
Cleared w input release path =
    (m : Manifest) × (o : Ordering) × (w.manifest ≡ ok m)
    × (pick m input.channel ≡ some release)
    × (ensure_installable release input.current_app_version input.channel input.allow_downgrade
        ≡ ok o)
    × (w.download_artifact release ≡ ok path)
    × (w.verify_sha256 path release ≡ ok tt)

-- The install as one unit: signals shielded, the loader up, the running binary aside, the installer,
-- the loader down, the rename settled by the installer's result.
abbrev pub one_install : World → Text → Option Text → List Effect
one_install w path changes =
    shielded
    ∷ loader_shown
    ∷ aside_renamed
    ∷ installer_ran path changes
    ∷ loader_dismissed
    ∷ settled (is_ok (w.install path changes))
    ∷ []

abbrev pub is_ok_run : Engine EngineOutcome → Bool
is_ok_run (es, ok _) = true
is_ok_run (es, err _) = false

module _ (w : World) (input : EngineInput) where
  -- The run ended before the install.
  Stopped : Engine EngineOutcome → Type 0
  Stopped run = (install_steps run.0 ≡ []) × (is_ok_run run ≡ false)

  -- The run came to the install of a package, after these effects.
  Reached : Engine EngineOutcome → Type 0
  Reached run =
      (release : ChannelRelease) × (path : Text) × (changes : Option Text) × Cleared w input release
        path
      × (es : List Effect) × (install_steps es ≡ [])
      × (run ≡ before es (install_release w input w.os release path changes))

  install_checked-cases :
      (release : ChannelRelease) (path : Text)
      → Cleared w input release path
      → Stopped (drive_engine w input) ⊎ Reached (drive_engine w input)
  unfolding drive_engine Stopped Reached
  install_checked-cases release path cleared =
      let (m, o, hm, hr, ho, hp, hv) = cleared in
      elim (Option-cases w.choices_xml) [
        | inl nothing ↦ inr (
          release,
          path,
          none,
          cleared,
          sent checking ∷ sent downloading ∷ [],
          refl,
          ground arith,
        )
        | inr (xml, hx) ↦ elim (Result-cases w.write) [
          | inr (_, unwritten) ↦ inl (ground arith)
          | inl (_, hw) ↦
              let changes = join input.download_dir (codes "choice_changes.xml") in
              inr (
                release,
                path,
                some changes,
                cleared,
                sent checking ∷ sent downloading ∷ wrote_choices changes ∷ [],
                refl,
                ground arith,
              )
        ]
      ]

  drive_engine-cases : Stopped (drive_engine w input) ⊎ Reached (drive_engine w input)
  unfolding drive_engine Stopped
  drive_engine-cases = elim (Result-cases w.manifest) [
    | inr (_, unfetched) ↦ inl (ground arith)
    | inl (m, hm) ↦ elim (Option-cases (pick m input.channel)) [
      | inl missing ↦ inl (ground arith)
      | inr (release, hr) ↦
          elim (Result-cases (
            ensure_installable release input.current_app_version input.channel
              input.allow_downgrade)) [
                | inr (_, refused) ↦ inl (ground arith)
                | inl (o, ho) ↦ elim (Result-cases (w.download_artifact release)) [
                  | inr (_, lost) ↦ inl (ground arith)
                  | inl (path, hp) ↦ elim (Result-cases (w.verify_sha256 path release)) [
                    | inr (_, mismatch) ↦ inl (ground arith)
                    | inl (_, hv) ↦ install_checked-cases release path (m, o, hm, hr, ho, hp, hv)
                  ]
                ]
              ]
    ]
  ]

  install_steps-append :
      (es fs : List Effect) → install_steps (es ++ fs) ≡ install_steps es ++ install_steps fs
  install_steps-append [] fs = refl
  install_steps-append (shielded ∷ es) fs = ap (λ t. shielded ∷ t) (install_steps-append es fs)
  install_steps-append (loader_shown ∷ es) fs =
      ap (λ t. loader_shown ∷ t) (install_steps-append es fs)
  install_steps-append (aside_renamed ∷ es) fs =
      ap (λ t. aside_renamed ∷ t) (install_steps-append es fs)
  install_steps-append (installer_ran p c ∷ es) fs =
      ap (λ t. installer_ran p c ∷ t) (install_steps-append es fs)
  install_steps-append (loader_dismissed ∷ es) fs =
      ap (λ t. loader_dismissed ∷ t) (install_steps-append es fs)
  install_steps-append (settled b ∷ es) fs = ap (λ t. settled b ∷ t) (install_steps-append es fs)
  install_steps-append (_ ∷ es) fs = install_steps-append es fs

  install_steps-recorded :
      (es fs : List Effect) → install_steps fs ≡ [] → install_steps (es ++ fs) ≡ install_steps es
  install_steps-recorded es fs nothing =
      install_steps-append es fs
      ∙ ap (λ t. install_steps es ++ t) nothing
      ∙ append-nil (install_steps es)

  -- What is recorded after the pipeline is no part of an install.
  install_steps-run_engine :
      install_steps (run_engine w input) ≡ install_steps (drive_engine w input).0
  unfolding run_engine
  install_steps-run_engine = install_steps-recorded (drive_engine w input).0 _ (ground arith)

  steps_of_install :
      w.os ≡ macos
      → (release : ChannelRelease) (path : Text) (changes : Option Text) (es : List Effect)
      → install_steps es ≡ []
      → install_steps (before es (install_release w input w.os release path changes)).0
        ≡ one_install w path changes
  unfolding install_release
  steps_of_install on_macos release path changes es before_it =
      install_steps-append es ((install_release w input w.os release path changes).0)
      ∙ ground (arith, before_it)

  result_of_install :
      w.os ≡ macos
      → (release : ChannelRelease) (path : Text) (changes : Option Text) (es : List Effect)
      → is_ok_run (before es (install_release w input w.os release path changes))
        ≡ is_ok (w.install path changes)
  unfolding install_release
  result_of_install on_macos release path changes es = ground arith

  -- On macOS a run leaves the system alone and fails, or it runs one whole install.
  pub run_engine-install :
      w.os ≡ macos
      → ((install_steps (run_engine w input) ≡ []) × (is_ok_run (drive_engine w input) ≡ false))
        ⊎ ((release : ChannelRelease) × (path : Text) × (changes : Option Text) × Cleared w input
              release path
            × (install_steps (run_engine w input) ≡ one_install w path changes)
            × (is_ok_run (drive_engine w input) ≡ is_ok (w.install path changes)))
  unfolding Stopped Reached install_release
  run_engine-install on_macos = elim drive_engine-cases [
    | inl (nothing, lost) ↦ inl (install_steps-run_engine ∙ nothing, lost)
    | inr (release, path, changes, cleared, es, before_it, reached) ↦ inr (
      release,
      path,
      changes,
      cleared,
      install_steps-run_engine
          ∙ ap (λ r. install_steps r.0) reached
          ∙ steps_of_install on_macos release path changes es before_it,
      ap is_ok_run reached ∙ result_of_install on_macos release path changes es,
    )
  ]

  -- On Linux nothing is installed, and no run succeeds.
  pub run_engine-linux :
      w.os ≡ linux
      → (install_steps (run_engine w input) ≡ []) × (is_ok_run (drive_engine w input) ≡ false)
  unfolding Stopped Reached install_release
  run_engine-linux on_linux = elim drive_engine-cases [
    | inl (nothing, lost) ↦ (install_steps-run_engine ∙ nothing, lost)
    | inr (release, path, changes, cleared, es, before_it, reached) ↦ (
      install_steps-run_engine
          ∙ ap (λ r. install_steps r.0) reached
          ∙ install_steps-append es ((install_release w input w.os release path changes).0)
          ∙ ground (arith, before_it),
      ap is_ok_run reached ∙ ground (arith),
    )
  ]
