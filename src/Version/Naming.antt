-- ===== src/Version/Naming.antt =====
-- Which versions belong to which channel, and what the registry's slug of a version keeps.
use gnosis_vpn_toolkit.Prelude.{
  ℕ, Bool, true, false, ◌&&◌, ◌||◌, not, List, [], ◌∷◌, map, ◌≡◌, refl, ◌↔◌, ap, arith, ◌==◌,
  if◌then◌else◌, any, all, Bool-cases, inl, inr,
}
use gnosis_vpn_toolkit.Prelude.Text.{
  Text, is_empty, is_ascii_digit, split, split-cons, split-at_separator, split-at_other,
}
use gnosis_vpn_toolkit.Version.{
  stable, is_separator, parts, compare_components, is_experimental_part, is_numeric_part, is_dot,
  is_plain_release, channel_of_version,
}

-- A dotted-numeric text, read from the left: the flag says that a digit must come next.
pub data IsDotted : Bool → Text → Type 0 where
  end : IsDotted false []
  digit :
      {b : Bool} {c : ℕ} {s : Text}
      → is_ascii_digit c ≡ true
      → IsDotted false s
      → IsDotted b (c ∷ s)
  dot : {c : ℕ} {s : Text} → c ≡ b'.' → IsDotted true s → IsDotted false (c ∷ s)

-- The same as a test.
is_dotted : Bool → Text → Bool
is_dotted need [] = not need
is_dotted need (c ∷ s) =
    let after_dot = is_dotted true s in
    let after_digit = is_dotted false s in
    if is_ascii_digit c then after_digit else (c == b'.' && (not need && after_dot))

is_dotted-IsDotted : (need : Bool) (s : Text) → is_dotted need s ≡ true → IsDotted need s
unfolding is_dotted
is_dotted-IsDotted true [] h = cc
is_dotted-IsDotted false [] h = end
is_dotted-IsDotted true (c ∷ s) h = digit (ground arith) (is_dotted-IsDotted false s (ground arith))
is_dotted-IsDotted false (c ∷ s) h = elim (Bool-cases (is_ascii_digit c)) [
  | inl d ↦ digit d (is_dotted-IsDotted false s (ground arith))
  | inr d ↦ dot (ground arith) (is_dotted-IsDotted true s (ground arith))
]

IsDotted-is_dotted : {need : Bool} {s : Text} → IsDotted need s → is_dotted need s ≡ true
unfolding is_dotted
IsDotted-is_dotted end = refl
IsDotted-is_dotted (digit d h) = ground (arith, IsDotted-is_dotted h)
IsDotted-is_dotted (dot e h) = ground (arith, IsDotted-is_dotted h)

-- What the test of a plain release asks of the parts, where the first one may have begun already.
parts_numeric : Bool → List Text → Bool
parts_numeric need [] = not need
parts_numeric need (p ∷ ps) =
    (not need || not (is_empty p)) && (all is_ascii_digit p && all is_numeric_part ps)

parts_numeric-dot :
    (need : Bool) (p : Text) (ps : List Text)
    → parts_numeric need ([] ∷ p ∷ ps) ≡ (not need && parts_numeric true (p ∷ ps))
unfolding parts_numeric
parts_numeric-dot need p ps = ground arith

parts_numeric-other :
    (need : Bool) (c : ℕ) (p : Text) (ps : List Text)
    → parts_numeric need ((c ∷ p) ∷ ps) ≡ (is_ascii_digit c && parts_numeric false (p ∷ ps))
unfolding parts_numeric
parts_numeric-other need c p ps = ground arith

parts_numeric-split :
    (need : Bool) (s : Text) → parts_numeric need (split is_dot s) ≡ is_dotted need s
unfolding parts_numeric is_dotted
parts_numeric-split need [] = unfold split in ground arith
parts_numeric-split need (c ∷ s) =
    let (p, ps, e) = split-cons is_dot s in
    elim (Bool-cases (is_dot c)) [
      | inl h ↦
          rw (split-at_separator is_dot c s h, e)
            (ground (
              arith,
              parts_numeric-dot need p ps,
              ap (parts_numeric true) e,
              parts_numeric-split true s,
            ))
      | inr h ↦
          rw (split-at_other is_dot c s h, e)
            (ground (
              arith,
              parts_numeric-other need c p ps,
              ap (parts_numeric false) e,
              parts_numeric-split false s,
            ))
    ]

numeric_parts :
    (p : Text) (ps : List Text) → parts_numeric true (p ∷ ps) ≡ all is_numeric_part (p ∷ ps)
unfolding parts_numeric
numeric_parts p ps = ground arith

is_plain_release-is_dotted : (s : Text) → is_plain_release s ≡ is_dotted true s
unfolding is_plain_release
is_plain_release-is_dotted [] = unfold is_dotted in refl
is_plain_release-is_dotted (c ∷ s) =
    let (p, ps, e) = split-cons is_dot (c ∷ s) in
    ground (
      arith,
      e,
      parts_numeric-split true (c ∷ s),
      ap (parts_numeric true) e,
      ap (all is_numeric_part) e,
      numeric_parts p ps,
    )

is_dot-is_separator : (c : ℕ) → is_dot c ≡ true → is_separator c ≡ true
is_dot-is_separator c h = ground arith

-- A dotted text has no part that spells `experimental`, since no digit begins that word.
no_experimental :
    (c : ℕ) (p : Text) (ps : List Text)
    → is_ascii_digit c ≡ true
    → any is_experimental_part (p ∷ ps) ≡ false
    → any is_experimental_part ((c ∷ p) ∷ ps) ≡ false
no_experimental c p ps d h = ground arith

IsDotted-no_experimental :
    {need : Bool} {s : Text}
    → IsDotted need s
    → any is_experimental_part (split is_separator s) ≡ false
IsDotted-no_experimental end = unfold split in refl
IsDotted-no_experimental (digit {c = c} {s = s} d h) =
    let (p, ps, e) = split-cons is_separator s in
    rw (split-at_other is_separator c s (ground arith), e)
      (no_experimental c p ps d (rw e at (IsDotted-no_experimental h)))
IsDotted-no_experimental (dot {c = c} {s = s} q h) =
    rw (split-at_separator is_separator c s (ground arith)) (IsDotted-no_experimental h)

-- A version belongs to the stable channel exactly when it is dotted-numeric: groups of ASCII
-- digits, none of them empty, joined by single dots.
pub channel_of_version-stable_iff : (v : Text) → (channel_of_version v ≡ stable) ↔ IsDotted true v
unfolding channel_of_version
channel_of_version-stable_iff v = (
  λ h. is_dotted-IsDotted true v (ground (arith, is_plain_release-is_dotted v)),
  λ d.
      ground
        (arith, is_plain_release-is_dotted v, IsDotted-is_dotted d, IsDotted-no_experimental d),
)

-- The package registry's slug of a version: each `+` becomes `-`.
abbrev pub slug_char : ℕ → ℕ
slug_char c = if c == b'+' then b'-' else c

abbrev pub slug : Text → Text
slug = map slug_char

split-slug : (s : Text) → split is_separator (slug s) ≡ split is_separator s
split-slug [] = unfold split in refl
split-slug (c ∷ s) = elim (Bool-cases (is_separator c)) [
  | inl h ↦ rw (split-at_separator is_separator c s h) (
      rw (split-at_separator is_separator (slug_char c) (slug s) (ground arith))
        (rw (split-slug s)))
  | inr h ↦
      let e : slug_char c ≡ c = ground arith in
      rw (split-at_other is_separator c s h)
        (rw e (rw (split-at_other is_separator c (slug s) h) (rw (split-slug s))))
]

is_dotted-slug : (need : Bool) (s : Text) → is_dotted need (slug s) ≡ is_dotted need s
unfolding is_dotted
is_dotted-slug need [] = refl
is_dotted-slug need (c ∷ s) = ground (arith, is_dotted-slug true s, is_dotted-slug false s)

-- Slugging a version does not change its channel.
pub channel_of_version-slug : (v : Text) → channel_of_version (slug v) ≡ channel_of_version v
unfolding channel_of_version
channel_of_version-slug v = ground (
  arith,
  is_plain_release-is_dotted v,
  is_plain_release-is_dotted (slug v),
  is_dotted-slug true v,
  split-slug v,
)

parts-slug : (s : Text) → parts (slug s) ≡ parts s
unfolding parts
parts-slug s = rw split-slug

-- Slugging a version does not change how it compares with any other version.
pub compare_components-slug : (a b : Text) → compare_components (slug a) b ≡ compare_components a b
unfolding compare_components
compare_components-slug a b = rw parts-slug
