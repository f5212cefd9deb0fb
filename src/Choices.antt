-- ===== src/Choices.antt =====
-- The installer choices that an update keeps (gnosis_vpn-update/src/update/choices.rs). What stands
-- on disk is given: the target of the symlink `config.toml`, and the texts of the choice files.
pub mod Known
pub mod Pins
mod Tests
use gnosis_vpn_toolkit.Prelude.{
  ℕ, Bool, true, false, not, ◌&&◌, ◌||◌, Option, none, some, String, List, [], ◌∷◌, ◌++◌, ◌==◌,
  if◌then◌else◌, any, filter,
}
use gnosis_vpn_toolkit.Prelude.Text.{
  Text, codes, is_empty, text_eq, split, trim, trim_by, strip_prefix,
}
use gnosis_vpn_toolkit.FilePath.{file_stem}

abbrev pub network_ids : List Text
network_ids = codes "jura" ∷ codes "rotsee" ∷ []

abbrev pub loglevel_ids : List Text
loglevel_ids = codes "info" ∷ codes "debug" ∷ []

pub record InstallerChoices : Type 0 where
  pub network : Option Text
  pub loglevel : Option Text

abbrev pub contains : List Text → Text → Bool
contains ids v = any (λ id. text_eq id v) ids

known : List Text → Option Text → Option Text
known ids none = none
known ids (some v) = if contains ids v then some v else none

-- From what `read_link` returned.
network_from_symlink : Option Text → Option Text
unfolding file_stem
network_from_symlink none = none
network_from_symlink (some target) = file_stem target

-- `str::lines`: the parts between line ends, without a last empty one; a `\r` before a line end
-- goes too.
strip_cr : Text → Text
strip_cr [] = []
strip_cr (c ∷ []) = if c == 13 then [] else c ∷ []
strip_cr (c ∷ s) = c ∷ strip_cr s

drop_last_empty : List Text → List Text
drop_last_empty [] = []
drop_last_empty (p ∷ []) = if is_empty p then [] else p ∷ []
drop_last_empty (p ∷ ps) = p ∷ drop_last_empty ps

map_strip : List Text → List Text
unfolding strip_cr
map_strip [] = []
map_strip (p ∷ []) = p ∷ []
map_strip (p ∷ ps) = strip_cr p ∷ map_strip ps

lines : Text → List Text
unfolding map_strip drop_last_empty split
lines content = drop_last_empty (map_strip (split (λ c. c == 10) content))

-- The value of a line `KEY=value`, without its quotes.
after_key : Text → Text → Option Text
unfolding strip_prefix
after_key key line = elim (strip_prefix key (trim line)) [
  | none ↦ none
  | some rest ↦ strip_prefix (codes "=") rest
]

unquote : Text → Text
unfolding trim_by
unquote raw = trim_by (λ c. c == 39) (trim_by (λ c. c == 34) (trim raw))

line_value : Text → Text → Option Text
unfolding after_key unquote
line_value key line = elim (after_key key line) [
  | none ↦ none
  | some raw ↦ if is_empty (unquote raw) then none else some (unquote raw)
]

first_value : Text → List Text → Option Text
unfolding line_value
first_value key [] = none
first_value key (l ∷ ls) = elim (line_value key l) [ some v ↦ some v | none ↦ first_value key ls ]

-- From what reading the file returned.
unfoldable pub choice_from_file : Option Text → Text → Option Text
unfolding first_value lines
choice_from_file none key = none
choice_from_file (some content) key = first_value key (lines content)

or_else : Option Text → Option Text → Option Text
or_else none b = b
or_else (some a) b = some a

-- `detect_from`, from the symlink's target and the texts of the two choice files.
unfoldable pub detect_from : Option Text → Option Text → Option Text → InstallerChoices
unfolding known network_from_symlink choice_from_file or_else
detect_from config_target network_choice loglevel_choice = record {
  network =
      or_else (known network_ids (network_from_symlink config_target))
        (known network_ids (choice_from_file network_choice (codes "INSTALLER_CHOICE_NETWORK")));
  loglevel =
      known loglevel_ids (choice_from_file loglevel_choice (codes "INSTALLER_CHOICE_LOGLEVEL"));
}

-- One entry of the plist.
unfoldable pub choice_dict : Text → Bool → Text
choice_dict id selected =
    codes "  <dict>\n    <key>choiceIdentifier</key>\n    <string>"
    ++ (id
        ++ (codes
              "</string>\n    <key>choiceAttribute</key>\n    <string>selected</string>\n    <key>attributeSetting</key>\n    <integer>"
            ++ ((if selected then codes "1" else codes "0") ++ codes "</integer>\n  </dict>\n")))

-- The entries of one group: the other members deselected, then the chosen one selected.
pub deselections : Text → List Text → List (Text × Bool)
deselections chosen [] = []
deselections chosen (id ∷ ids) =
    let rest = deselections chosen ids in
    if not (text_eq id chosen) then (id, false) ∷ rest else rest

pub group_entries : Option Text → List Text → List (Text × Bool)
unfolding deselections
group_entries none ids = []
group_entries (some chosen) ids = deselections chosen ids ++ ((chosen, true) ∷ [])

unfoldable pub entries : InstallerChoices → List (Text × Bool)
unfolding group_entries
entries c = group_entries c.network network_ids ++ group_entries c.loglevel loglevel_ids

unfoldable pub render : List (Text × Bool) → Text
unfolding choice_dict
render [] = []
render ((id, selected) ∷ es) = choice_dict id selected ++ render es

unfoldable pub to_choice_changes_xml : InstallerChoices → Option Text
unfolding entries render
to_choice_changes_xml c =
    let text = render (entries c) in
    if is_empty text
    then none
    else some (
        codes
          "<?xml version=\"1.0\" encoding=\"UTF-8\"?>\n<!DOCTYPE plist PUBLIC \"-//Apple//DTD PLIST 1.0//EN\" \"http://www.apple.com/DTDs/PropertyList-1.0.dtd\">\n<plist version=\"1.0\">\n<array>\n"
        ++ (text ++ codes "</array>\n</plist>\n"))
