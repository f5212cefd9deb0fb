-- ===== src/Version/Tests.antt =====
-- Versions from the unit tests of gnosis_vpn-update/src/update/mod.rs, and the theorems at them.
use gnosis_vpn_toolkit.Prelude.{Ordering, true, ◌≡◌, refl, ◌↔◌}
use gnosis_vpn_toolkit.Prelude.Text.{Text, codes, split}
use gnosis_vpn_toolkit.Version.{
  stable, snapshot, experimental, parts, compare_components, channel_of_version,
}
use gnosis_vpn_toolkit.Version.Order.{lex, is_le, compare_components-eq-lex}
use gnosis_vpn_toolkit.Version.Naming.{IsDotted, channel_of_version-stable_iff}

abbrev old_release : Text
old_release = codes "0.9.0"

abbrev new_release : Text
new_release = codes "0.10"

abbrev nightly : Text
nightly = codes "2026.06.01+build.143012"

abbrev branch_build : Text
branch_build = codes "2026.06.01-experimental.143012"

numeric_not_textual : compare_components new_release old_release ≡ Ordering.gt
unfolding compare_components split
numeric_not_textual = refl

padded_by_zeros : compare_components (codes "0.10.0") new_release ≡ Ordering.eq
unfolding compare_components split
padded_by_zeros = refl

three_channels :
    (channel_of_version old_release ≡ stable)
    × (channel_of_version nightly ≡ snapshot)
    × (channel_of_version branch_build ≡ experimental)
unfolding channel_of_version split
three_channels = (refl, refl, refl)

compare_components-eq-lex_example :
    compare_components new_release old_release ≡ lex (parts new_release) (parts old_release)
compare_components-eq-lex_example = compare_components-eq-lex new_release old_release

old_le_new : is_le (compare_components old_release new_release) ≡ true
unfolding compare_components split
old_le_new = refl

new_le_nightly : is_le (compare_components new_release nightly) ≡ true
unfolding compare_components split
new_le_nightly = refl

channel_of_version-stable_iff_example :
    (channel_of_version old_release ≡ stable) ↔ IsDotted true old_release
channel_of_version-stable_iff_example = channel_of_version-stable_iff old_release
