-- ===== src/FilePath/Joined.antt =====
-- The file name of a path to which a plain name was joined.
use gnosis_vpn_toolkit.Prelude.{
  ℕ, true, false, ◌||◌, some, List, [], ◌∷◌, ◌++◌, append_assoc, ◌≡◌, ◌≢◌, refl, ◌∙◌, ap, inl, inr,
  arith, ==_iff, Bool-cases,
}
use gnosis_vpn_toolkit.Prelude.Text.{
  Text, codes, is_empty, text_eq, text_eq_iff, split, split-cons, split-at_separator,
  split-at_other, strip_prefix, starts_with, ends_with_slash, join,
}
use gnosis_vpn_toolkit.FilePath.{
  Component, root_dir, cur_dir, parent_dir, normal, is_slash, named_part, later_parts, first_part,
  components, get_last?, file_name, bind_name,
}
use gnosis_vpn_toolkit.FilePath.Plain.{IsSlashFree, IsPlainName}

split-IsSlashFree_one : (name : Text) → IsSlashFree name → split is_slash name ≡ name ∷ []
unfolding split
split-IsSlashFree_one [] free = refl
split-IsSlashFree_one (c ∷ name) (h, free) =
    split-at_other is_slash c name h ∙ rw (split-IsSlashFree_one name free) refl

-- A name behind a slash is a part of its own, after the parts before it.
split-behind_slash :
    (base name : Text)
    → IsSlashFree name
    → split is_slash (base ++ (b'/' ∷ name)) ≡ split is_slash base ++ (name ∷ [])
unfolding split
split-behind_slash [] name free =
    split-at_separator is_slash b'/' name refl ∙ rw (split-IsSlashFree_one name free) refl
split-behind_slash (c ∷ base) name free = elim (Bool-cases (is_slash c)) [
  | inl slash ↦
      rw
        (
          split-at_separator is_slash c (base ++ (b'/' ∷ name)) slash,
          split-at_separator is_slash c base slash,
          split-behind_slash base name free,
        )
        refl
  | inr other ↦
      let (p, ps, e) = split-cons is_slash base in
      rw
        (
          split-at_other is_slash c (base ++ (b'/' ∷ name)) other,
          split-at_other is_slash c base other,
          split-behind_slash base name free,
          e,
        )
        refl
]

get_last?-later :
    {A : Type 0} (x : A) (xs : List A) {y : A} → get_last? xs ≡ some y → get_last? (x ∷ xs) ≡ some y
unfolding get_last?
get_last?-later x [] h = absurd (ground arith)
get_last?-later x (z ∷ zs) h = h

named_part-last :
    (p : Text) (cs : List Component) {c : Component}
    → get_last? cs ≡ some c
    → get_last? (named_part p cs) ≡ some c
unfolding named_part
named_part-last p cs h = elim (Bool-cases (is_empty p || text_eq p (codes "."))) [
  | inl skipped ↦ rw skipped h
  | inr kept ↦ rw kept (elim (Bool-cases (text_eq p (codes ".."))) [
    | inl up ↦ rw up (get_last?-later parent_dir cs h)
    | inr name ↦ rw name (get_last?-later (normal p) cs h)
  ])
]

not_text_eq : (s t : Text) → s ≢ t → text_eq s t ≡ false
not_text_eq s t other = elim (Bool-cases (text_eq s t)) [
  | inl same ↦ absurd (other ((text_eq_iff s t).0 same))
  | inr different ↦ different
]

is_empty-false : (s : Text) → s ≢ [] → is_empty s ≡ false
is_empty-false [] h = absurd (h refl)
is_empty-false (c ∷ s) h = refl

-- The last component of these parts is the name.
later_parts-last :
    (ps : List Text) {name : Text}
    → IsPlainName name
    → get_last? (later_parts (ps ++ (name ∷ []))) ≡ some (normal name)
unfolding later_parts get_last? named_part
later_parts-last [] {name} plain =
    rw
      (
        is_empty-false name plain.not_empty,
        not_text_eq name (codes ".") plain.not_here,
        not_text_eq name (codes "..") plain.not_up,
      )
      refl
later_parts-last (p ∷ ps) {name} plain =
    named_part-last p (later_parts (ps ++ (name ∷ []))) (later_parts-last ps plain)

first_part-last :
    (p : Text) (ps : List Text) {name : Text}
    → IsPlainName name
    → get_last? (first_part (p ∷ (ps ++ (name ∷ [])))) ≡ some (normal name)
unfolding first_part
first_part-last p ps {name} plain =
    let rest = later_parts-last ps plain in
    elim (Bool-cases (is_empty p)) [
      | inl empty ↦ rw empty (get_last?-later root_dir (later_parts (ps ++ (name ∷ []))) rest)
      | inr part ↦ rw part (elim (Bool-cases (text_eq p (codes "."))) [
        | inl here ↦ rw here (get_last?-later cur_dir (later_parts (ps ++ (name ∷ []))) rest)
        | inr named ↦ rw named (later_parts-last (p ∷ ps) plain)
      ])
    ]

components-cons : (c : ℕ) (s : Text) → components (c ∷ s) ≡ first_part (split is_slash (c ∷ s))
unfolding components
components-cons c s = refl

components-last :
    (base : Text) {name : Text}
    → IsPlainName name
    → get_last? (components (base ++ (b'/' ∷ name))) ≡ some (normal name)
unfolding first_part get_last? split
components-last [] {name} plain =
    ap get_last?
      (components-cons b'/' name ∙ ap first_part (split-behind_slash [] name plain.slash_free))
    ∙ first_part-last [] [] plain
components-last (c ∷ base) {name} plain =
    let (p, ps, e) = split-cons is_slash (c ∷ base) in
    ap get_last? (
      components-cons c (base ++ (b'/' ∷ name))
      ∙ ap first_part
          (split-behind_slash (c ∷ base) name plain.slash_free ∙ ap (λ t. t ++ (name ∷ [])) e))
    ∙ first_part-last p ps plain

file_name-behind_slash :
    (base : Text) {name : Text} → IsPlainName name → file_name (base ++ (b'/' ∷ name)) ≡ some name
unfolding file_name bind_name
file_name-behind_slash base plain = rw (components-last base plain) refl

first_part-one :
    (name : Text) → IsPlainName name → get_last? (first_part (name ∷ [])) ≡ some (normal name)
unfolding first_part
first_part-one [] plain = absurd (plain.not_empty refl)
first_part-one (c ∷ s) plain =
    rw (not_text_eq (c ∷ s) (codes ".") plain.not_here) (later_parts-last [] plain)

file_name-plain : (name : Text) → IsPlainName name → file_name name ≡ some name
unfolding file_name bind_name
file_name-plain [] plain = absurd (plain.not_empty refl)
file_name-plain (c ∷ s) plain = ap bind_name (
    ap get_last?
      (components-cons c s ∙ ap first_part (split-IsSlashFree_one (c ∷ s) plain.slash_free))
    ∙ first_part-one (c ∷ s) plain)

before_slash : (base : Text) → ends_with_slash base ≡ true → (q : Text) × (base ≡ q ++ (b'/' ∷ []))
before_slash [] h = absurd (ground arith)
before_slash (c ∷ []) h = ([], ap (λ t. t ∷ []) ((==_iff c b'/').0 h))
before_slash (c ∷ d ∷ s) h = let (q, e) = before_slash (d ∷ s) h in (c ∷ q, ap (λ t. c ∷ t) e)

relative : (name : Text) → IsSlashFree name → starts_with name (codes "/") ≡ false
unfolding strip_prefix
relative [] free = refl
relative (c ∷ s) (h, free) = rw h refl

pub file_name-join : (base name : Text) → IsPlainName name → file_name (join base name) ≡ some name
unfolding join
file_name-join base name plain =
    rw (relative name plain.slash_free) (elim (Bool-cases (is_empty base)) [
      | inl empty ↦ rw empty (file_name-plain name plain)
      | inr some_base ↦ rw some_base (elim (Bool-cases (ends_with_slash base)) [
        | inl ends ↦
            let (q, e) = before_slash base ends in
            rw (ends, e, append_assoc q (b'/' ∷ []) name) (file_name-behind_slash q plain)
        | inr open_end ↦ rw open_end (file_name-behind_slash base plain)
      ])
    ])
