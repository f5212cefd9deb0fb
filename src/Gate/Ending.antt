-- ===== src/Gate/Ending.antt =====
-- The end of life that `end_of_life_for` reports.
use gnosis_vpn_toolkit.Prelude.{
  ◌≤◌, Ordering, Bool, true, none, some, List, [], ◌∷◌, ◌≡◌, refl, ap, ◌∙◌, ◌≢◌, subst,
  some-injective, ◌↔◌, inl, inr, arith, ltb, if◌then◌else◌, Bool-cases, filter, Memᴰ,
}
use gnosis_vpn_toolkit.Prelude.Text.{Text}
use gnosis_vpn_toolkit.Version.{compare_components, channel_of_version}
use gnosis_vpn_toolkit.Manifest.{EndOfLife, ChannelRelease, Manifest, pick}
use gnosis_vpn_toolkit.Gate.Accepts.{channel_eq_iff}
use gnosis_vpn_toolkit.Gate.{same_channel, not_past, earliest_from, min_by_ends_at, end_of_life_for}

module _ {ℓ} {A : Type ℓ} (p : A → Bool) where
  filter-keeps : (xs : List A) {x : A} → Memᴰ x xs → p x ≡ true → Memᴰ x (filter p xs)
  filter-keeps [] m h = elim m [ ]
  filter-keeps (y ∷ xs) (Memᴰ.head e) h = let k : p y ≡ true = rw (← ap p e) h in rw k (Memᴰ.head e)
  filter-keeps (y ∷ xs) (Memᴰ.tail m) h = elim (Bool-cases (p y)) [
    | inl k ↦ rw k (Memᴰ.tail (filter-keeps xs m h))
    | inr k ↦ rw k (filter-keeps xs m h)
  ]

  kept-member :
      (y : A) (xs : List A) {x : A}
      → p y ≡ true
      → (Memᴰ x (filter p xs) → Memᴰ x xs × (p x ≡ true))
      → Memᴰ x (y ∷ filter p xs)
      → Memᴰ x (y ∷ xs) × (p x ≡ true)
  kept-member y xs k ih (Memᴰ.head e) = (Memᴰ.head e, ap p e ∙ k)
  kept-member y xs k ih (Memᴰ.tail m) = let (n, h) = ih m in (Memᴰ.tail n, h)

  filter-member : (xs : List A) {x : A} → Memᴰ x (filter p xs) → Memᴰ x xs × (p x ≡ true)
  filter-member [] m = elim m [ ]
  filter-member (y ∷ xs) m = elim (Bool-cases (p y)) [
    | inl k ↦ kept-member y xs k (filter-member xs) (rw k at m)
    | inr k ↦ let (n, h) = filter-member xs (rw k at m) in (Memᴰ.tail n, h)
  ]

earliest_from-member :
    (best : EndOfLife) (es : List EndOfLife) → Memᴰ (earliest_from best es) (best ∷ es)
unfolding earliest_from
earliest_from-member best [] = Memᴰ.head refl
earliest_from-member best (e ∷ es) = elim (Bool-cases (ltb e.ends_at best.ends_at)) [
  | inl h ↦ rw h (Memᴰ.tail (earliest_from-member e es))
  | inr h ↦ rw h (skip e (earliest_from-member best es))
]
  where
    skip : (e : EndOfLife) {x : EndOfLife} → Memᴰ x (best ∷ es) → Memᴰ x (best ∷ e ∷ es)
    skip e (Memᴰ.head q) = Memᴰ.head q
    skip e (Memᴰ.tail m) = Memᴰ.tail (Memᴰ.tail m)

earliest_from-le_best :
    (best : EndOfLife) (es : List EndOfLife) → (earliest_from best es).ends_at ≤ best.ends_at
unfolding earliest_from
earliest_from-le_best best [] = omega arith
earliest_from-le_best best (e ∷ es) =
    ground (arith, earliest_from-le_best best es, earliest_from-le_best e es)

earliest_from-le :
    (best : EndOfLife) (es : List EndOfLife) {e : EndOfLife}
    → Memᴰ e es
    → (earliest_from best es).ends_at ≤ e.ends_at
unfolding earliest_from
earliest_from-le best [] m = elim m [ ]
earliest_from-le best (x ∷ es) {e} (Memᴰ.head q) = ground (
  arith,
  earliest_from-le_best best es,
  earliest_from-le_best x es,
  ap (λ (t : EndOfLife). t.ends_at) q,
)
earliest_from-le best (x ∷ es) (Memᴰ.tail m) =
    earliest_from-le (if ltb x.ends_at best.ends_at then x else best) es m

abbrev candidates : Text → ChannelRelease → List EndOfLife
candidates current release =
    filter (not_past current)
      (filter (same_channel (channel_of_version current)) release.end_of_life)

earliest_from-least :
    (best : EndOfLife) (es : List EndOfLife) {e : EndOfLife}
    → Memᴰ e (best ∷ es)
    → (earliest_from best es).ends_at ≤ e.ends_at
earliest_from-least best es (Memᴰ.head q) =
    omega (arith, earliest_from-le_best best es, ap (λ (t : EndOfLife). t.ends_at) q)
earliest_from-least best es (Memᴰ.tail m) = earliest_from-le best es m

min_by_ends_at-member :
    (es : List EndOfLife) {e : EndOfLife} → min_by_ends_at es ≡ some e → Memᴰ e es
unfolding min_by_ends_at
min_by_ends_at-member [] h = cc
min_by_ends_at-member (x ∷ es) h =
    subst (λ t. Memᴰ t (x ∷ es)) (some-injective _ _ h) (earliest_from-member x es)

min_by_ends_at-least :
    (es : List EndOfLife) {e x : EndOfLife}
    → min_by_ends_at es ≡ some e
    → Memᴰ x es
    → e.ends_at ≤ x.ends_at
unfolding min_by_ends_at
min_by_ends_at-least [] h m = elim m [ ]
min_by_ends_at-least (y ∷ es) {x = x} h m =
    subst (λ t. t.ends_at ≤ x.ends_at) (some-injective _ _ h) (earliest_from-least y es m)

min_by_ends_at-none : (es : List EndOfLife) {x : EndOfLife} → min_by_ends_at es ≡ none → ¬ Memᴰ x es
unfolding min_by_ends_at
min_by_ends_at-none [] h m = elim m [ ]
min_by_ends_at-none (y ∷ es) h m = cc

-- An entry covers an installed version: same version scheme, and the installed version is not past
-- the entry's.
abbrev pub Covers : Text → EndOfLife → Type 0
Covers current e =
    (channel_of_version e.version ≡ channel_of_version current)
    × (compare_components current e.version ≢ Ordering.gt)

Covers-tests :
    (current : Text) (e : EndOfLife)
    → Covers current e
      ↔ ((same_channel (channel_of_version current) e ≡ true) × (not_past current e ≡ true))
Covers-tests current e =
    let same = channel_eq_iff (channel_of_version e.version) (channel_of_version current) in
    (λ c. ground (arith, same), λ h. ground (arith, same))

module _ (manifest : Manifest) (current : Text) {release : ChannelRelease}
    (picked : pick manifest (channel_of_version current) ≡ some release) where
  candidates_lem : end_of_life_for manifest current ≡ min_by_ends_at (candidates current release)
  unfolding end_of_life_for
  candidates_lem = rw (picked, end_of_life_for)

  reported_Covers :
      {e : EndOfLife}
      → end_of_life_for manifest current ≡ some e
      → Memᴰ e release.end_of_life × Covers current e
  reported_Covers {e} found =
      let m = min_by_ends_at-member (candidates current release) (rw candidates_lem at found) in
      let (n, past) = filter-member (not_past current) _ m in
      let (k, same) = filter-member (same_channel (channel_of_version current)) _ n in
      (k, (Covers-tests current e).1 (same, past))

  covered_candidate :
      {x : EndOfLife}
      → Memᴰ x release.end_of_life
      → Covers current x
      → Memᴰ x (candidates current release)
  covered_candidate {x} m h =
      let (same, past) = (Covers-tests current x).0 h in
      filter-keeps (not_past current) _
        (filter-keeps (same_channel (channel_of_version current)) _ m same) past

  end_of_life_for-earliest :
      {e x : EndOfLife}
      → end_of_life_for manifest current ≡ some e
      → Memᴰ x release.end_of_life
      → Covers current x
      → e.ends_at ≤ x.ends_at
  end_of_life_for-earliest found m h =
      min_by_ends_at-least (candidates current release) (rw candidates_lem at found)
        (covered_candidate m h)

  -- When nothing is reported, no entry covers the installed version.
  pub end_of_life_for-none :
      {x : EndOfLife}
      → end_of_life_for manifest current ≡ none
      → Memᴰ x release.end_of_life
      → ¬ Covers current x
  end_of_life_for-none nothing m h =
      min_by_ends_at-none (candidates current release) (rw candidates_lem at nothing)
        (covered_candidate m h)

  -- The entry reported for the installed version is one of the manifest's entries for that version's
  -- channel and covers the installed version, and no covering entry of the channel ends before it.
  pub end_of_life_for-Covers :
      {e : EndOfLife}
      → end_of_life_for manifest current ≡ some e
      → Memᴰ e release.end_of_life
        × Covers current e
        × ((x : EndOfLife) → Memᴰ x release.end_of_life → Covers current x → e.ends_at ≤ x.ends_at)
  end_of_life_for-Covers found =
      let (listed, covers) = reported_Covers found in
      (listed, covers, λ x m c. end_of_life_for-earliest found m c)
