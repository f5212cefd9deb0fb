-- ===== src/Migrate/Network.antt =====
-- `from_config_link` of gnosis_vpn-migrate/src/network.rs.
use gnosis_vpn_toolkit.Prelude.{
  ℕ, Bool, true, false, not, ◌&&◌, ◌||◌, none, some, [], ◌∷◌, ◌++◌, ◌≡◌, inl, inr, arith, all,
  unwrap_or, if◌then◌else◌, Result, ok, err, ◌==◌, &&-elim, Bool-cases, Option-cases, subst,
}
use gnosis_vpn_toolkit.Prelude.Text.{
  Text, codes, is_empty, is_ascii_lowercase, is_ascii_digit, strip_prefix,
}
use gnosis_vpn_toolkit.FilePath.{is_slash, file_stem}
use gnosis_vpn_toolkit.FilePath.Plain.{IsSlashFree, IsPlainName}

abbrev pub valid_char : ℕ → Bool
valid_char c = is_ascii_lowercase c || (is_ascii_digit c || (c == b'-'))

unfoldable pub valid_name : Text → Bool
valid_name name = not (is_empty name) && all valid_char name

abbrev points_at : Text → Text → Text
points_at link target = link ++ (codes " points at " ++ target)

-- From what `read_link` returned.
unfoldable pub from_config_link : Text → Result Text Text → Result Text Text
from_config_link link (err e) = err (
    link ++ (codes " is not a symlink (" ++ (e ++ codes "); cannot tell which network was chosen")))
from_config_link link (ok target) = elim (file_stem target) [
  | none ↦ err (points_at link target ++ codes " which has no file name")
  | some stem ↦
      let name = unwrap_or (strip_prefix (codes "config-") stem) stem in
      if not (valid_name name)
      then err (points_at link target ++ (codes "; '" ++ (name ++ codes "' is not a network name")))
      else ok name
]

is_slash-valid_char : (c : ℕ) → valid_char c ≡ true → is_slash c ≡ false
is_slash-valid_char c h = ground arith

all-IsSlashFree : (s : Text) → all valid_char s ≡ true → IsSlashFree s
all-IsSlashFree [] h = tt
all-IsSlashFree (c ∷ s) h =
    let (here, rest) = &&-elim (valid_char c) (all valid_char s) h in
    (is_slash-valid_char c here, all-IsSlashFree s rest)

pub valid_name-IsPlainName : (name : Text) → valid_name name ≡ true → IsPlainName name
unfolding valid_name
valid_name-IsPlainName name h = record {
  slash_free = all-IsSlashFree name ((&&-elim (not (is_empty name)) (all valid_char name) h).1);
  not_empty = λ e. cc (rw e at h);
  not_here = λ e. cc (rw e at h);
  not_up = λ e. cc (rw e at h);
}

-- A network name is not empty and consists of lower-case letters, digits and dashes, so it is a plain
-- path segment, whatever the link points at.
pub from_config_link-IsPlainName :
    (link : Text) (read : Result Text Text) {name : Text}
    → from_config_link link read ≡ ok name
    → (valid_name name ≡ true) × IsPlainName name
unfolding from_config_link
from_config_link-IsPlainName link (err e) h = ground arith
from_config_link-IsPlainName link (ok target) {name} h = elim (Option-cases (file_stem target)) [
  | inl nothing ↦ ground arith
  | inr (stem, e) ↦
      let n = unwrap_or (strip_prefix (codes "config-") stem) stem in
      elim (Bool-cases (valid_name n)) [
        | inl valid ↦
            let same : n ≡ name = ground arith in
            let good = subst (λ t. valid_name t ≡ true) same valid in
            (good, valid_name-IsPlainName name good)
        | inr other ↦ ground arith
      ]
]
