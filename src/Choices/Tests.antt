-- ===== src/Choices/Tests.antt =====
-- The theorems of the installer choices at concrete files.
use mathlib.Core.List.{Memᴰ}
use gnosis_vpn_toolkit.Prelude.{
  Bool, true, false, not, ◌&&◌, ◌||◌, some, none, [], ◌∷◌, ◌++◌, ◌≡◌, refl, inl, inr, Bool-cases,
}
use gnosis_vpn_toolkit.Prelude.Text.{Text, codes, text_eq, split}
use gnosis_vpn_toolkit.FilePath.{file_stem}
use gnosis_vpn_toolkit.Choices.{
  network_ids, loglevel_ids, InstallerChoices, detect_from, group_entries, entries,
  choice_from_file,
}
use gnosis_vpn_toolkit.Choices.Pins.{
  settle, OnlyMaybe, IsExclusive, group_entries-selects, entries-offered,
}

abbrev target : Text
target = codes "/etc/gnosisvpn/jura.toml"

abbrev recorded : Text
recorded = codes "# written by the installer\nINSTALLER_CHOICE_LOGLEVEL=\"debug\"\n"

-- The network comes from the symlink, the log level from the file.
network_detected : (detect_from (some target) none (some recorded)).network ≡ some (codes "jura")
unfolding detect_from file_stem split
network_detected = refl

loglevel_detected : (detect_from (some target) none (some recorded)).loglevel ≡ some (codes "debug")
unfolding detect_from choice_from_file split
loglevel_detected = refl

-- The package preselects one network.
abbrev preselected : Text → Bool
preselected x = text_eq x (codes "jura")

-- `exclusiveEnabled`: a network may be changed while no other one is selected.
abbrev alone : Text → Text → (Text → Bool) → Bool
alone y id selected = text_eq y id || not (selected y)

abbrev exclusive_enabled : Text → (Text → Bool) → Bool
exclusive_enabled id selected =
    alone (codes "jura") id selected && alone (codes "rotsee") id selected

alone_lem :
    (y id : Text) (selected : Text → Bool)
    → Memᴰ y network_ids
    → OnlyMaybe network_ids selected id
    → alone y id selected ≡ true
alone_lem y id selected m only = elim (Bool-cases (text_eq y id)) [
  | inl same ↦ rw same refl
  | inr other ↦ rw (other, only y m other) refl
]

exclusive_enabled-IsExclusive : IsExclusive network_ids exclusive_enabled
exclusive_enabled-IsExclusive id selected m only =
    rw
      (
        alone_lem (codes "jura") id selected (Memᴰ.head refl) only,
        alone_lem (codes "rotsee") id selected (Memᴰ.tail (Memᴰ.head refl)) only,
      )
      refl

-- With the chosen network first, it would not be selected.
order_matters :
    settle exclusive_enabled
      ((codes "rotsee", true) ∷ (codes "jura", false) ∷ [])
      preselected
      (codes "rotsee")
    ≡ false
order_matters = refl

preselected-OnlyMaybe : OnlyMaybe network_ids preselected (codes "jura")
preselected-OnlyMaybe x m other = other

group_entries-selects_example :
    settle exclusive_enabled
      (group_entries (some (codes "rotsee")) network_ids)
      preselected
      (codes "jura")
    ≡ text_eq (codes "jura") (codes "rotsee")
group_entries-selects_example =
    group_entries-selects exclusive_enabled (codes "rotsee") network_ids
      exclusive_enabled-IsExclusive (codes "jura") preselected (codes "jura") preselected-OnlyMaybe
      (Memᴰ.tail (Memᴰ.head refl)) (Memᴰ.head refl)

abbrev only_level : InstallerChoices
only_level = record { network = none; loglevel = some (codes "debug") }

level_pinned : Memᴰ (codes "info", false) (entries (detect_from (some target) none (some recorded)))
unfolding entries group_entries detect_from file_stem choice_from_file split
level_pinned = Memᴰ.tail (Memᴰ.tail (Memᴰ.head refl))

entries-offered_example : Memᴰ (codes "info") (network_ids ++ loglevel_ids)
entries-offered_example = entries-offered (some target) none (some recorded) level_pinned
