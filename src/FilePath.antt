-- ===== src/FilePath.antt =====
-- `std::path` on Unix: the components of a path, its file name and the stem of that name.
pub mod Plain
pub mod Joined
use gnosis_vpn_toolkit.Prelude.{
  ℕ, Bool, ◌||◌, Option, none, some, List, [], ◌∷◌, ◌==◌, if◌then◌else◌,
}
use gnosis_vpn_toolkit.Prelude.Text.{Text, codes, is_empty, text_eq, split}

-- `std::path::Component` on Unix, and `Path::components`: empty parts and inner dots are skipped.
pub data Component : Type 0 where
  root_dir cur_dir parent_dir : Component
  normal : Text → Component

abbrev pub is_slash : ℕ → Bool
is_slash c = c == b'/'

unfoldable pub named_part : Text → List Component → List Component
named_part part rest =
    if is_empty part || text_eq part (codes ".")
    then rest
    else if text_eq part (codes "..")
    then parent_dir ∷ rest
    else normal part ∷ rest

unfoldable pub later_parts : List Text → List Component
unfolding named_part
later_parts [] = []
later_parts (p ∷ ps) = named_part p (later_parts ps)

unfoldable pub first_part : List Text → List Component
first_part [] = []
first_part (p ∷ ps) =
    if is_empty p
    then root_dir ∷ later_parts ps
    else if text_eq p (codes ".")
    then cur_dir ∷ later_parts ps
    else later_parts (p ∷ ps)

unfoldable pub components : Text → List Component
unfolding first_part later_parts split
components [] = []
components s = first_part (split is_slash s)

-- `slice::last`, `Iterator::last`.
unfoldable pub get_last? : {A : Type 0} → List A → Option A
get_last? [] = none
get_last? (x ∷ []) = some x
get_last? (x ∷ xs) = get_last? xs

name_of : Component → Option Text
name_of (normal name) = some name
name_of _ = none

bind_name : Option Component → Option Text
unfolding name_of
bind_name none = none
bind_name (some c) = name_of c

-- `Path::file_name`: the last component, if it is a name.
unfoldable pub file_name : Text → Option Text
unfolding bind_name components get_last?
file_name path = bind_name (get_last? (components path))

-- What stands before the last dot, if there is one.
before_last_dot : Text → Option Text
before_last_dot [] = none
before_last_dot (c ∷ s) = elim (before_last_dot s) [
  | some t ↦ some (c ∷ t)
  | none ↦ if c == b'.' then some [] else none
]

stem_of : Text → Text
unfolding before_last_dot
stem_of name = elim (before_last_dot name) [ none ↦ name | some [] ↦ name | some (c ∷ t) ↦ c ∷ t ]

-- `Path::file_stem`; a name that only begins with a dot has no extension.
unfoldable pub file_stem : Text → Option Text
unfolding file_name stem_of
file_stem path = elim (file_name path) [ none ↦ none | some name ↦ some (stem_of name) ]

-- `Path::parent`, as its components: none of the root and of the empty path.
before_last : List Component → Option (List Component)
before_last [] = none
before_last (root_dir ∷ []) = none
before_last (c ∷ []) = some []
before_last (c ∷ rest) = elim (before_last rest) [ none ↦ none | some cs ↦ some (c ∷ cs) ]

unfoldable pub parent : Text → Option (List Component)
unfolding before_last components
parent path = before_last (components path)
