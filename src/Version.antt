-- ===== src/Version.antt =====
-- Version strings: the componentwise comparison and the channel that a version belongs to
-- (`compare_components`, `channel_of_version` in gnosis_vpn-update/src/update/mod.rs, `Channel` in
-- gnosis_vpn-update/src/manifest.rs).
pub mod Order
pub mod Naming
mod Tests
use gnosis_vpn_toolkit.Prelude.{
  ℕ, zero, suc, max, compare, Ordering, Bool, ◌&&◌, ◌||◌, not, List, [], ◌∷◌, map, ◌==◌,
  if◌then◌else◌, length, get_or, any, all, unwrap_or,
}
use gnosis_vpn_toolkit.Prelude.Text.{
  Text, codes, is_empty, text_eq, is_ascii_digit, split, parse_u64,
}

pub data Channel : Type 0 where
  stable snapshot experimental : Channel

abbrev pub is_separator : ℕ → Bool
is_separator c = c == b'.' || (c == b'-' || c == b'+')

-- The inner function `parts`.
pub parts : Text → List ℕ
unfolding parse_u64 split
parts s = map (λ p. unwrap_or (parse_u64 p) 0) (split is_separator s)

-- The loop `for i in 0..n` of the comparison, over the rounds left and the index.
pub compare_from : List ℕ → List ℕ → ℕ → ℕ → Ordering
compare_from a b zero i = Ordering.eq
compare_from a b (suc left) i =
    let rest = compare_from a b left (suc i) in
    elim (compare (get_or a i 0) (get_or b i 0)) [
      | Ordering.lt ↦ Ordering.lt
      | Ordering.gt ↦ Ordering.gt
      | Ordering.eq ↦ rest
    ]

unfoldable pub compare_components : Text → Text → Ordering
unfolding compare_from parts
compare_components a b =
    compare_from (parts a) (parts b) (max (length (parts a)) (length (parts b))) 0

abbrev pub experimental_segment : Text
experimental_segment = codes "experimental"

abbrev pub is_experimental_part : Text → Bool
is_experimental_part part = text_eq part experimental_segment

-- A part of a plain release: digits only, and at least one.
abbrev pub is_numeric_part : Text → Bool
is_numeric_part part = not (is_empty part) && all is_ascii_digit part

abbrev pub is_dot : ℕ → Bool
is_dot c = c == b'.'

unfoldable pub is_plain_release : Text → Bool
unfolding split
is_plain_release version = not (is_empty version) && all is_numeric_part (split is_dot version)

unfoldable pub channel_of_version : Text → Channel
unfolding is_plain_release split
channel_of_version version =
    if any is_experimental_part (split is_separator version)
    then experimental
    else if is_plain_release version
    then stable
    else snapshot

-- `Channel::title` and `Display for Channel`.
unfoldable pub title : Channel → Text
title stable = codes "Stable"
title snapshot = codes "Snapshot"
title experimental = codes "Experimental"

unfoldable pub show_channel : Channel → Text
show_channel stable = codes "stable"
show_channel snapshot = codes "snapshot"
show_channel experimental = codes "experimental"

-- `PartialEq for Channel`, which is derived.
abbrev pub channel_eq : Channel → Channel → Bool
channel_eq stable stable = Bool.true
channel_eq snapshot snapshot = Bool.true
channel_eq experimental experimental = Bool.true
channel_eq _ _ = Bool.false
