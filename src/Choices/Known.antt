-- ===== src/Choices/Known.antt =====
-- What `detect_from` detects.
use gnosis_vpn_toolkit.Prelude.{
  true, Option, none, some, List, [], ◌∷◌, ◌≡◌, sym, ◌∙◌, inl, inr, arith, Bool-cases, Option-cases,
  ||-elim, Memᴰ, subst, some-injective,
}
use gnosis_vpn_toolkit.Prelude.Text.{Text, codes, text_eq, text_eq_iff}
use gnosis_vpn_toolkit.FilePath.{file_stem}
use gnosis_vpn_toolkit.Choices.{
  network_ids, loglevel_ids, contains, known, network_from_symlink, choice_from_file, or_else,
  detect_from,
}

contains-member : (ids : List Text) (v : Text) → contains ids v ≡ true → Memᴰ v ids
contains-member [] v h = cc
contains-member (id ∷ ids) v h = elim (||-elim (text_eq id v) (contains ids v) h) [
  | inl same ↦ Memᴰ.head (sym ((text_eq_iff id v).0 same))
  | inr later ↦ Memᴰ.tail (contains-member ids v later)
]

known-member : (ids : List Text) (o : Option Text) {v : Text} → known ids o ≡ some v → Memᴰ v ids
unfolding known
known-member ids none h = cc
known-member ids (some w) h = elim (Bool-cases (contains ids w)) [
  | inl listed ↦
      subst (λ t. Memᴰ t ids) (some-injective _ _ (rw listed at h)) (contains-member ids w listed)
  | inr other ↦ cc (rw other at h)
]

or_else-member :
    (ids : List Text) (a b : Option Text) {v : Text}
    → or_else (known ids a) (known ids b) ≡ some v
    → Memᴰ v ids
unfolding or_else
or_else-member ids a b h = elim (Option-cases (known ids a)) [
  | inl nothing ↦ known-member ids b (rw (nothing, or_else) at h)
  | inr (w, found) ↦ known-member ids a (found ∙ rw (found, or_else) at h)
]

module _ (config_target network_choice loglevel_choice : Option Text) where
  -- Whatever the symlink and the files hold, a detected network or log level is one of those that
  -- the package offers.
  pub detect_from-network :
      {v : Text}
      → (detect_from config_target network_choice loglevel_choice).network ≡ some v
      → Memᴰ v network_ids
  unfolding detect_from
  detect_from-network h =
      or_else-member network_ids (network_from_symlink config_target)
        (choice_from_file network_choice (codes "INSTALLER_CHOICE_NETWORK")) h

  pub detect_from-loglevel :
      {v : Text}
      → (detect_from config_target network_choice loglevel_choice).loglevel ≡ some v
      → Memᴰ v loglevel_ids
  unfolding detect_from
  detect_from-loglevel h =
      known-member loglevel_ids
        (choice_from_file loglevel_choice (codes "INSTALLER_CHOICE_LOGLEVEL")) h

-- A network that the active configuration names is detected, whatever the choice files record.
pub detect_from-symlink_first :
    (target v : Text) (network_choice loglevel_choice : Option Text)
    → file_stem target ≡ some v
    → contains network_ids v ≡ true
    → (detect_from (some target) network_choice loglevel_choice).network ≡ some v
unfolding detect_from
detect_from-symlink_first target v network_choice loglevel_choice stem listed =
    ground (arith, stem, listed)
