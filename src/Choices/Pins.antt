-- ===== src/Choices/Pins.antt =====
-- What the choice changes do, and when there are none.
use mathlib.Core.List.Memᴰ
use gnosis_vpn_toolkit.Prelude.{
  append-nil, ◌&&◌, Bool, true, false, Option, none, some, List, [], ◌∷◌, ◌++◌, ◌≡◌, refl, sym, ap,
  ◌∙◌, ◌↔◌, inl, inr, arith, Bool-cases, Memᴰ, subst, if◌then◌else◌,
}
use gnosis_vpn_toolkit.Prelude.Text.{Text, is_empty, text_eq, text_eq_iff}
use gnosis_vpn_toolkit.Choices.{
  network_ids, loglevel_ids, InstallerChoices, detect_from, choice_dict, deselections,
  group_entries, entries, render, to_choice_changes_xml,
}
use gnosis_vpn_toolkit.Choices.Known.{detect_from-network, detect_from-loglevel}

-- The installer's side: which members of a group may be changed, given what is selected, is a rule of
-- the package, the `exclusiveEnabled` of its Distribution.xml. A change of a member that may not be
-- changed has no effect.
abbrev pub Rule : Type 0
Rule = Text → (Text → Bool) → Bool

abbrev pub select : Text → Bool → (Text → Bool) → Text → Bool
select id value selected x = if text_eq x id then value else selected x

abbrev pub change : Rule → Text → Bool → (Text → Bool) → Text → Bool
change enabled id value selected =
    if enabled id selected then select id value selected else selected

abbrev pub settle : Rule → List (Text × Bool) → (Text → Bool) → Text → Bool
settle enabled [] selected = selected
settle enabled ((id, value) ∷ es) selected = settle enabled es (change enabled id value selected)

-- No member but this one is selected.
abbrev pub OnlyMaybe : List Text → (Text → Bool) → Text → Type 0
OnlyMaybe ids selected id = (x : Text) → Memᴰ x ids → text_eq x id ≡ false → selected x ≡ false

-- What is documented of the rule: a member may be changed while no other one is selected.
abbrev pub IsExclusive : List Text → Rule → Type 0
IsExclusive ids enabled =
    (id : Text) (selected : Text → Bool)
    → Memᴰ id ids
    → OnlyMaybe ids selected id
    → enabled id selected ≡ true

settle-append :
    (enabled : Rule) (es fs : List (Text × Bool)) (selected : Text → Bool)
    → settle enabled (es ++ fs) selected ≡ settle enabled fs (settle enabled es selected)
settle-append enabled [] fs selected = refl
settle-append enabled ((id, value) ∷ es) fs selected =
    settle-append enabled es fs (change enabled id value selected)

-- A deselection selects nothing.
change-deselects :
    (enabled : Rule) (id : Text) (selected : Text → Bool) (x : Text)
    → selected x ≡ false
    → change enabled id false selected x ≡ false
change-deselects enabled id selected x h = elim (Bool-cases (enabled id selected)) [
  | inr refused ↦ rw refused h
  | inl may ↦ rw may (elim (Bool-cases (text_eq x id)) [ inl e ↦ rw e | inr e ↦ rw e h ])
]

module _ (enabled : Rule) (chosen : Text) where
  stays_deselected :
      (es : List Text) (selected : Text → Bool) (x : Text)
      → selected x ≡ false
      → settle enabled (deselections chosen es) selected x ≡ false
  unfolding deselections
  stays_deselected [] selected x h = h
  stays_deselected (id ∷ es) selected x h = elim (Bool-cases (text_eq id chosen)) [
    | inl same ↦ rw same (stays_deselected es selected x h)
    | inr other ↦ rw other (
        stays_deselected es (change enabled id false selected) x
          (change-deselects enabled id selected x h))
  ]

  module _ (ids : List Text) (exclusive : IsExclusive ids enabled) where
    -- Deselecting a member has its effect while at most one member is selected.
    member_deselected :
        (id default : Text) (selected : Text → Bool)
        → Memᴰ id ids
        → OnlyMaybe ids selected default
        → change enabled id false selected id ≡ false
    member_deselected id default selected m only = elim (Bool-cases (text_eq id default)) [
      | inl same ↦
          let may : enabled id selected ≡ true =
            exclusive id selected m
              (subst (OnlyMaybe ids selected) (sym ((text_eq_iff id default).0 same)) only) in
          rw (may, (text_eq_iff id id).1 refl) refl
      | inr other ↦ change-deselects enabled id selected id (only id m other)
    ]

    deselected :
        (es : List Text) (default : Text) (selected : Text → Bool) (x : Text)
        → ((y : Text) → Memᴰ y es → Memᴰ y ids)
        → OnlyMaybe ids selected default
        → Memᴰ x es
        → text_eq x chosen ≡ false
        → settle enabled (deselections chosen es) selected x ≡ false
    unfolding deselections
    deselected [] default selected x within only m h = elim m [ ]
    deselected (id ∷ es) default selected x within only (Memᴰ.head e) h =
        let same : x ≡ id = e in
        let other : text_eq id chosen ≡ false = rw (← e) h in
        rw other (
          stays_deselected es (change enabled id false selected) x (
            subst (λ y. change enabled id false selected y ≡ false) (sym same)
              (member_deselected id default selected (within id (Memᴰ.head refl)) only)))
    deselected (id ∷ es) default selected x within only (Memᴰ.tail m) h =
        let later = λ (y : Text) (k : Memᴰ y es). within y (Memᴰ.tail k) in
        elim (Bool-cases (text_eq id chosen)) [
          | inl same ↦ rw same (deselected es default selected x later only m h)
          | inr other ↦ rw other (
              deselected es default (change enabled id false selected) x later
                (λ y k apart. change-deselects enabled id selected y (only y k apart)) m h)
        ]

    -- Making a group's changes in order selects the chosen member and no other member of the group,
    -- under every rule by which a member may be changed while no other one is selected, and from every
    -- selection of at most one member.
    pub group_entries-selects :
        (default : Text) (selected : Text → Bool) (x : Text)
        → OnlyMaybe ids selected default
        → Memᴰ chosen ids
        → Memᴰ x ids
        → settle enabled (group_entries (some chosen) ids) selected x ≡ text_eq x chosen
    unfolding group_entries
    group_entries-selects default selected x only offered m =
        let before = settle enabled (deselections chosen ids) selected in
        let cleared : OnlyMaybe ids before chosen =
          λ y k apart. deselected ids default selected y (λ z n. n) only k apart in
        let may : enabled chosen before ≡ true = exclusive chosen before offered cleared in
        ap (λ f. f x)
          (settle-append enabled (deselections chosen ids) ((chosen, true) ∷ []) selected)
        ∙ rw may (elim (Bool-cases (text_eq x chosen)) [
          | inl same ↦ rw same
          | inr other ↦ rw other (cleared x m other)
        ])

is_nil : List (Text × Bool) → Bool
is_nil [] = true
is_nil (_ ∷ _) = false

render-empty : (es : List (Text × Bool)) → is_empty (render es) ≡ is_nil es
unfolding render choice_dict is_nil
render-empty [] = refl
render-empty ((id, b) ∷ es) = refl

group_nil :
    (ids : List Text) (c : Text) (rest : List (Text × Bool))
    → is_nil ((deselections c ids ++ ((c, true) ∷ [])) ++ rest) ≡ false
unfolding deselections is_nil
group_nil [] c rest = refl
group_nil (id ∷ ids) c rest = elim (Bool-cases (text_eq id c)) [
  | inl same ↦ rw same (group_nil ids c rest)
  | inr other ↦ rw other
]

abbrev is_none : Option Text → Bool
is_none none = true
is_none (some _) = false

entries-nil :
    (network loglevel : Option Text)
    → is_nil (group_entries network network_ids ++ group_entries loglevel loglevel_ids)
      ≡ (is_none network && is_none loglevel)
unfolding group_entries is_nil
entries-nil none none = refl
entries-nil none (some l) = ap is_nil (sym (append-nil _)) ∙ group_nil loglevel_ids l []
entries-nil (some n) loglevel = group_nil network_ids n (group_entries loglevel loglevel_ids)

-- There are no choice changes exactly when neither a network nor a log level was detected.
pub to_choice_changes_xml-none_iff :
    (c : InstallerChoices)
    → (to_choice_changes_xml c ≡ none) ↔ ((c.network ≡ none) × (c.loglevel ≡ none))
unfolding to_choice_changes_xml
to_choice_changes_xml-none_iff c =
    let e : is_empty (render (entries c)) ≡ (is_none c.network && is_none c.loglevel) =
      render-empty (entries c) ∙ (unfold entries in entries-nil c.network c.loglevel) in
    (λ h. ground (arith, e), λ h. ground (arith, e))

deselections-member :
    (chosen : Text) (ids : List Text) {id : Text} {b : Bool}
    → Memᴰ (id, b) (deselections chosen ids)
    → Memᴰ id ids
unfolding deselections
deselections-member chosen [] m = elim m [ ]
deselections-member chosen (x ∷ ids) m = elim (Bool-cases (text_eq x chosen)) [
  | inl same ↦ Memᴰ.tail (deselections-member chosen ids (rw same at m))
  | inr other ↦ first (deselections-member chosen ids) (rw other at m)
]
  where
    first :
        {id : Text} {b : Bool}
        → (Memᴰ (id, b) (deselections chosen ids) → Memᴰ id ids)
        → Memᴰ (id, b) ((x, false) ∷ deselections chosen ids)
        → Memᴰ id (x ∷ ids)
    first later (Memᴰ.head e) = Memᴰ.head (ap (λ (t : Text × Bool). t.0) e)
    first later (Memᴰ.tail n) = Memᴰ.tail (later n)

group_entries-member :
    (o : Option Text) (ids : List Text) {id : Text} {b : Bool}
    → ((v : Text) → o ≡ some v → Memᴰ v ids)
    → Memᴰ (id, b) (group_entries o ids)
    → Memᴰ id ids
unfolding group_entries
group_entries-member none ids offered m = elim m [ ]
group_entries-member (some chosen) ids offered m =
    elim (Memᴰ.append_cases (deselections chosen ids) m) [
      | inl other ↦ deselections-member chosen ids other
      | inr last ↦
          subst (λ v. Memᴰ v ids) (sym (ap (λ (t : Text × Bool). t.0) (Memᴰ.eq_of_singleton last)))
            (offered chosen refl)
    ]

-- Whatever stands on disk, every choice that the changes set is one of the package's.
pub entries-offered :
    (config_target network_choice loglevel_choice : Option Text) {id : Text} {b : Bool}
    → Memᴰ (id, b) (entries (detect_from config_target network_choice loglevel_choice))
    → Memᴰ id (network_ids ++ loglevel_ids)
unfolding entries
entries-offered config_target network_choice loglevel_choice m =
    let c = detect_from config_target network_choice loglevel_choice in
    elim (Memᴰ.append_cases (group_entries c.network network_ids) m) [
      | inl n ↦ Memᴰ.append_left loglevel_ids (
          group_entries-member c.network network_ids
            (λ v. detect_from-network config_target network_choice loglevel_choice) n)
      | inr l ↦ Memᴰ.append_right network_ids (
          group_entries-member c.loglevel loglevel_ids
            (λ v. detect_from-loglevel config_target network_choice loglevel_choice) l)
    ]
