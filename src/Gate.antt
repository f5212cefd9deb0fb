-- ===== src/Gate.antt =====
-- Whether a release may be installed over the installed version, and the end of life that covers
-- it (`GateError`, `ensure_installable`, `end_of_life_for` in gnosis_vpn-update/src/update/mod.rs).
pub mod Accepts
pub mod Ending
mod Tests
use gnosis_vpn_toolkit.Prelude.{
  ℕ, Ordering, Bool, true, false, not, Option, none, some, List, [], ◌∷◌, ◌++◌, Result, ok, err,
  ltb, if◌then◌else◌, filter,
}
use gnosis_vpn_toolkit.Prelude.Text.{Text, codes}
use gnosis_vpn_toolkit.Version.{
  Channel, channel_eq, show_channel, compare_components, channel_of_version,
}
use gnosis_vpn_toolkit.Manifest.{EndOfLife, ChannelRelease, Manifest, pick}

pub data GateError : Type 0 where
  no_release_for_channel : Channel → GateError
  app_too_old : Text → Text → Text → GateError
  downgrade : Text → Text → GateError
  already_installed : Text → GateError

-- The messages; the fields are in the order current, required, candidate.
unfoldable pub show_gate_error : GateError → Text
show_gate_error (no_release_for_channel c) =
    codes "Channel " ++ (show_channel c ++ codes " has no release in this manifest")
show_gate_error (app_too_old current required candidate) =
    codes "Candidate "
    ++ (candidate
        ++ (codes " requires app "
            ++ (required
                ++ (codes " (have " ++ (current ++ codes "); upgrade to an intermediate first")))))
show_gate_error (downgrade current candidate) =
    codes "Candidate "
    ++ (candidate
        ++ (codes " is older than installed "
            ++ (current ++ codes "; pass --allow-downgrade to override")))
show_gate_error (already_installed candidate) =
    codes "Candidate " ++ (candidate ++ codes " is already installed")

-- The `match` on the ordering of the candidate against the installed version.
unfoldable pub judge : ChannelRelease → Text → Bool → Ordering → Result GateError Ordering
judge release current allow Ordering.eq = err (already_installed release.version)
judge release current allow Ordering.lt =
    if not allow then err (downgrade current release.version) else ok Ordering.lt
judge release current allow Ordering.gt = ok Ordering.gt

abbrev pub is_less : Ordering → Bool
is_less Ordering.lt = true
is_less _ = false

unfoldable pub ensure_installable :
    ChannelRelease → Text → Channel → Bool → Result GateError Ordering
unfolding judge
ensure_installable release current target_channel allow_downgrade =
    let ordering = compare_components release.version current in
    if not (channel_eq (channel_of_version current) target_channel)
    then ok ordering
    else if is_less (compare_components current release.min_app_version)
    then err (app_too_old current release.min_app_version release.version)
    else judge release current allow_downgrade ordering

-- The two filters of `end_of_life_for`.
abbrev pub same_channel : Channel → EndOfLife → Bool
same_channel channel eol = channel_eq (channel_of_version eol.version) channel

abbrev is_greater : Ordering → Bool
is_greater Ordering.gt = true
is_greater _ = false

abbrev pub not_past : Text → EndOfLife → Bool
not_past current eol = not (is_greater (compare_components current eol.version))

-- `Iterator::min_by_key`: the first of the entries that end earliest.
pub earliest_from : EndOfLife → List EndOfLife → EndOfLife
earliest_from best [] = best
earliest_from best (e ∷ es) = earliest_from (if ltb e.ends_at best.ends_at then e else best) es

pub min_by_ends_at : List EndOfLife → Option EndOfLife
unfolding earliest_from
min_by_ends_at [] = none
min_by_ends_at (e ∷ es) = some (earliest_from e es)

unfoldable pub end_of_life_for : Manifest → Text → Option EndOfLife
unfolding min_by_ends_at
end_of_life_for manifest current =
    let channel = channel_of_version current in
    elim (pick manifest channel) [
      | none ↦ none
      | some release ↦
          min_by_ends_at
            (filter (not_past current) (filter (same_channel channel) release.end_of_life))
    ]
