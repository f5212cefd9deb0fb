-- ===== src/Prelude/Text.antt =====
-- Rust's `str` as its bytes, with the methods of the standard library that the program uses.
use Prim.Native.Nat.{ℕ, zero, suc, ◌+◌, ◌-◌, ◌*◌, ◌/◌, ◌%◌, ◌^◌}
use Prim.Native.Char.{code}
use Prim.Native.String.{String}
use mathlib.Core.Path.{◌≡◌, refl}
use mathlib.Core.Logic.{◌↔◌, inl, inr}
use mathlib.Core.Bool.{Bool, true, false, ◌&&◌, ◌||◌}
use mathlib.Core.Option.{Option, none, some}
use mathlib.Core.List.{List, [], ◌∷◌, ◌++◌}
use native.Mathlib.Omega.{arith}
use gnosis_vpn_toolkit.Prelude.Tests.{ltb, leb, ◌==◌, if◌then◌else◌, Bool-cases}
use gnosis_vpn_toolkit.Prelude.Lists.{length}

abbrev pub Text : Type 0
Text = List ℕ

-- A literal of the source; its literals are ASCII but for a dash in messages.
abbrev pub codes : String → Text
codes String.[] = []
codes (String.◌∷◌ c s) = code c ∷ codes s

abbrev pub is_empty : Text → Bool
is_empty [] = true
is_empty (_ ∷ _) = false

abbrev pub text_eq : Text → Text → Bool
text_eq [] [] = true
text_eq (a ∷ s) (b ∷ t) = (a == b) && text_eq s t
text_eq _ _ = false

abbrev pub is_ascii_digit : ℕ → Bool
is_ascii_digit c = leb b'0' c && leb c b'9'

abbrev pub is_ascii_lowercase : ℕ → Bool
is_ascii_lowercase c = leb b'a' c && leb c b'z'

abbrev pub cons_head : ℕ → List Text → List Text
cons_head c [] = (c ∷ []) ∷ []
cons_head c (p ∷ ps) = (c ∷ p) ∷ ps

-- `s.split(sep)`: one part more than there are separators.
unfoldable pub split : (ℕ → Bool) → Text → List Text
split sep [] = [] ∷ []
split sep (c ∷ s) = let rest = split sep s in if sep c then [] ∷ rest else cons_head c rest

abbrev pub u64_mod : ℕ
u64_mod = 2 ^ 64

parse_digits : Text → ℕ → Option ℕ
parse_digits [] acc = some acc
parse_digits (c ∷ s) acc =
    let next = acc * 10 + (c - b'0') in
    let rest = parse_digits s next in
    if is_ascii_digit c then (if ltb next u64_mod then rest else none) else none

-- `s.parse::<u64>().ok()`: an optional `+`, at least one digit, and no overflow.
unfoldable pub parse_u64 : Text → Option ℕ
unfolding parse_digits
parse_u64 [] = none
parse_u64 (c ∷ []) = if is_ascii_digit c then some (c - b'0') else none
parse_u64 (c ∷ s) = if c == b'+' then parse_digits s 0 else parse_digits (c ∷ s) 0

abbrev pub is_whitespace : ℕ → Bool
is_whitespace c = (c == 32) || (leb 9 c && leb c 13)

unfoldable pub trim_start : (ℕ → Bool) → Text → Text
trim_start p [] = []
trim_start p (c ∷ s) = let rest = trim_start p s in if p c then rest else c ∷ s

keep_or_drop : (ℕ → Bool) → ℕ → Text → Text
keep_or_drop p c [] = if p c then [] else c ∷ []
keep_or_drop p c rest = c ∷ rest

unfoldable pub trim_end : (ℕ → Bool) → Text → Text
unfolding keep_or_drop
trim_end p [] = []
trim_end p (c ∷ s) = keep_or_drop p c (trim_end p s)

-- `s.trim()` on ASCII white space, and `s.trim_matches(c)`.
unfoldable pub trim_by : (ℕ → Bool) → Text → Text
unfolding trim_start trim_end
trim_by p s = trim_end p (trim_start p s)

abbrev pub trim : Text → Text
trim = trim_by is_whitespace

unfoldable pub strip_prefix : Text → Text → Option Text
strip_prefix [] s = some s
strip_prefix (_ ∷ _) [] = none
strip_prefix (a ∷ p) (b ∷ s) = let rest = strip_prefix p s in if a == b then rest else none

abbrev pub starts_with : Text → Text → Bool
starts_with s [] = true
starts_with [] (_ ∷ _) = false
starts_with (c ∷ s) (d ∷ p) = (c == d) && starts_with s p

-- `Path::join`: an absolute path replaces the base, and a slash is put between where none is.
abbrev pub ends_with_slash : Text → Bool
ends_with_slash [] = false
ends_with_slash (c ∷ []) = c == b'/'
ends_with_slash (_ ∷ s) = ends_with_slash s

unfoldable pub join : Text → Text → Text
join base path =
    if starts_with path (codes "/") || is_empty base
    then path
    else if ends_with_slash base
    then base ++ path
    else base ++ (codes "/" ++ path)

-- `s.replace(from, to)` for a `from` that is not empty; the number counts what is left to skip.
replace_from : Text → Text → ℕ → Text → Text
replace_from from to skip [] = []
replace_from from to (suc skip) (c ∷ s) = replace_from from to skip s
replace_from from to zero (c ∷ s) =
    let hit = to ++ replace_from from to (length from - 1) s in
    let miss = c ∷ replace_from from to 0 s in if starts_with (c ∷ s) from then hit else miss

unfoldable pub replace : Text → Text → Text → Text
unfolding replace_from
replace s from to = replace_from from to 0 s

pub text_eq_refl : (s : Text) → text_eq s s ≡ true
text_eq_refl [] = refl
text_eq_refl (c ∷ s) = ground (arith, text_eq_refl s)

pub eq_of_text_eq : (s t : Text) → text_eq s t ≡ true → s ≡ t
eq_of_text_eq [] [] h = refl
eq_of_text_eq [] (b ∷ t) h = cc
eq_of_text_eq (a ∷ s) [] h = cc
eq_of_text_eq (a ∷ s) (b ∷ t) h = ground (arith, eq_of_text_eq s t)

pub text_eq_iff : (s t : Text) → (text_eq s t ≡ true) ↔ (s ≡ t)
text_eq_iff s t = (eq_of_text_eq s t, λ e. rw e (text_eq_refl t))

-- There is always a first part.
pub split-cons :
    (sep : ℕ → Bool) (s : Text) → (p : Text) × (ps : List Text) × (split sep s ≡ p ∷ ps)
unfolding split
split-cons sep [] = ([], [], refl)
split-cons sep (c ∷ s) = elim (Bool-cases (sep c)) [
  | inl h ↦ ([], split sep s, rw h)
  | inr h ↦ let (p, ps, e) = split-cons sep s in (c ∷ p, ps, rw (h, e))
]

pub split-at_separator :
    (sep : ℕ → Bool) (c : ℕ) (s : Text) → sep c ≡ true → split sep (c ∷ s) ≡ [] ∷ split sep s
unfolding split
split-at_separator sep c s h = rw h

pub split-at_other :
    (sep : ℕ → Bool) (c : ℕ) (s : Text)
    → sep c ≡ false
    → split sep (c ∷ s) ≡ cons_head c (split sep s)
unfolding split
split-at_other sep c s h = rw h

unfoldable pub show_digits : ℕ → ℕ → Text → Text
show_digits zero n acc = acc
show_digits (suc fuel) n acc =
    let digits = (n % 10 + b'0') ∷ acc in
    let rest = show_digits fuel (n / 10) digits in if n / 10 == 0 then digits else rest

-- The decimal form of a number; a number has no more digits than itself, but for 0.
unfoldable pub show_nat : ℕ → Text
unfolding show_digits
show_nat n = show_digits (suc n) n []
