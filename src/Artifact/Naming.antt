-- ===== src/Artifact/Naming.antt =====
-- The file names that `safe_artifact_filename` derives.
use gnosis_vpn_toolkit.Prelude.{
  ℕ, false, ◌||◌, some, List, [], ◌∷◌, ◌≡◌, inl, inr, All, Bool-cases, Option-cases, some-injective,
  subst,
}
use gnosis_vpn_toolkit.Prelude.Text.{
  Text, codes, is_empty, text_eq, split, split-cons, split-at_separator, split-at_other,
}
use gnosis_vpn_toolkit.Manifest.{Url}
use gnosis_vpn_toolkit.FilePath.{
  Component, root_dir, cur_dir, parent_dir, normal, is_slash, named_part, later_parts, first_part,
  components, get_last?,
}
use gnosis_vpn_toolkit.FilePath.Plain.{IsSlashFree, IsPlainName}
use gnosis_vpn_toolkit.Artifact.{single_normal, of_segment, safe_artifact_filename}

IsSlashFree-head :
    (c : ℕ) (p : Text) (ps : List Text)
    → is_slash c ≡ false
    → All IsSlashFree (p ∷ ps)
    → All IsSlashFree ((c ∷ p) ∷ ps)
IsSlashFree-head c p ps h (k, ks) = ((h, k), ks)

split-IsSlashFree : (s : Text) → All IsSlashFree (split is_slash s)
split-IsSlashFree [] = unfold split in (tt, tt)
split-IsSlashFree (c ∷ s) = elim (Bool-cases (is_slash c)) [
  | inl h ↦ rw (split-at_separator is_slash c s h) (tt, split-IsSlashFree s)
  | inr h ↦
      let (p, ps, e) = split-cons is_slash s in
      rw (split-at_other is_slash c s h, e)
        (IsSlashFree-head c p ps h (subst (All IsSlashFree) e (split-IsSlashFree s)))
]

AllNormal : List Component → Type 0
AllNormal [] = Unit
AllNormal (normal name ∷ cs) = IsPlainName name × AllNormal cs
AllNormal (_ ∷ cs) = AllNormal cs

named_part-plain :
    (p : Text) (cs : List Component) → IsSlashFree p → AllNormal cs → AllNormal (named_part p cs)
unfolding named_part AllNormal
named_part-plain p cs free h = elim (Bool-cases (is_empty p || text_eq p (codes "."))) [
  | inl skipped ↦ rw skipped h
  | inr kept ↦ rw kept (elim (Bool-cases (text_eq p (codes ".."))) [
    | inl up ↦ rw up h
    | inr name ↦ rw name (
      record {
        slash_free = free;
        not_empty = λ e. cc (rw e at kept);
        not_here = λ e. cc (rw e at kept);
        not_up = λ e. cc (rw e at name);
      },
      h,
    )
  ])
]

later_parts-plain : (ps : List Text) → All IsSlashFree ps → AllNormal (later_parts ps)
unfolding later_parts AllNormal
later_parts-plain [] h = tt
later_parts-plain (p ∷ ps) (free, h) =
    named_part-plain p (later_parts ps) free (later_parts-plain ps h)

first_part-plain : (ps : List Text) → All IsSlashFree ps → AllNormal (first_part ps)
unfolding first_part AllNormal
first_part-plain [] h = tt
first_part-plain (p ∷ ps) (free, h) = elim (Bool-cases (is_empty p)) [
  | inl root ↦ rw root (later_parts-plain ps h)
  | inr named ↦ rw named (elim (Bool-cases (text_eq p (codes "."))) [
    | inl cur ↦ rw cur (later_parts-plain ps h)
    | inr other ↦ rw other (later_parts-plain (p ∷ ps) (free, h))
  ])
]

components-plain : (s : Text) → AllNormal (components s)
unfolding components
components-plain [] = unfold AllNormal in tt
components-plain (c ∷ s) = first_part-plain _ (split-IsSlashFree (c ∷ s))

single_normal-plain :
    (cs : List Component) {name : Text}
    → AllNormal cs
    → single_normal cs ≡ some name
    → IsPlainName name
unfolding single_normal AllNormal
single_normal-plain [] h e = cc
single_normal-plain (normal x ∷ []) (plain, _) e = subst IsPlainName (some-injective _ _ e) plain
single_normal-plain (normal x ∷ c ∷ cs) h e = cc
single_normal-plain (root_dir ∷ cs) h e = cc
single_normal-plain (cur_dir ∷ cs) h e = cc
single_normal-plain (parent_dir ∷ cs) h e = cc

-- Whatever the manifest's URL, a file name derived from it is a plain name: it is not empty, holds
-- no path separator, and is neither `.` nor `..`.
pub safe_artifact_filename-IsPlainName :
    (url : Url) {name : Text} → safe_artifact_filename url ≡ some name → IsPlainName name
unfolding safe_artifact_filename of_segment
safe_artifact_filename-IsPlainName url h = elim (Option-cases url.path_segments) [
  | inl cannot ↦ cc (simp (cannot, safe_artifact_filename) at h)
  | inr (segments, has) ↦ elim (Option-cases (get_last? segments)) [
    | inl nothing ↦ cc (simp (has, safe_artifact_filename, nothing) at h)
    | inr (segment, last) ↦ elim (Bool-cases (is_empty segment)) [
      | inl blank ↦ cc (simp (has, safe_artifact_filename, last, blank) at h)
      | inr text ↦
          single_normal-plain (components segment) (components-plain segment)
            (simp (has, safe_artifact_filename, last, text) at h)
    ]
  ]
]
