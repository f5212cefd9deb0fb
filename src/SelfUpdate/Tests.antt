-- ===== src/SelfUpdate/Tests.antt =====
-- The dance around the installer at concrete binaries.
use gnosis_vpn_toolkit.Prelude.{Option, some, none, true, false, ◌≡◌, refl}
use gnosis_vpn_toolkit.Prelude.Text.{Text}
use gnosis_vpn_toolkit.SelfUpdate.{Binaries, not_run}
use gnosis_vpn_toolkit.SelfUpdate.Settling.{dance, dance-restores}

abbrev old_format : Text → Option Text
old_format text = none

abbrev before : Binaries
before = record { path = some 1; old_path = none }

dance-restores_example : dance old_format true none false true not_run before ≡ (none, before)
dance-restores_example = dance-restores old_format true false not_run before refl
