-- ===== src/SelfUpdate/Settling.antt =====
-- The rename-aside around an install, from start to end.
use gnosis_vpn_toolkit.Prelude.{ℕ, Bool, true, false, Option, none, some, ◌≡◌, arith}
use gnosis_vpn_toolkit.Prelude.Text.{Text}
use gnosis_vpn_toolkit.SelfUpdate.{Binaries, Probe, engage, finish}

-- The installer lands a new binary at the install path, or leaves the paths alone.
abbrev pub land : Option ℕ → Binaries → Binaries
land none b = b
land (some new) b = record b { path = some new }

-- The whole dance: rename aside, run the installer, settle. The three flags say which renames and
-- removals the file system permits.
abbrev pub dance :
    (Text → Option Text) → Bool → Option ℕ → Bool → Bool → Probe → Binaries → Option Text × Binaries
dance json may_rename landed succeeded may_settle probe b =
    let (aside, b') = engage may_rename b in
    finish json may_settle aside succeeded probe (land landed b')

module _ (json : Text → Option Text) (may_rename succeeded : Bool) (probe : Probe)
    (b : Binaries) where
  -- After a failed install that landed nothing, no version is reported and both paths are as before,
  -- if the settling rename is permitted and no old copy was left from before.
  pub dance-restores : b.old_path ≡ none → dance json may_rename none false true probe b ≡ (none, b)
  unfolding engage finish
  dance-restores clean = ground arith

  -- After an install that landed a binary, that binary is all there is, if the settling removal is
  -- permitted and no old copy was left from before.
  pub dance-no_leftover :
      (new : ℕ)
      → b.old_path ≡ none
      → (dance json may_rename (some new) succeeded true probe b).1
        ≡ record { path = some new; old_path = none }
  unfolding engage finish
  dance-no_leftover new clean = ground arith
