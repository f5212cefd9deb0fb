-- ===== src/Migrate/Dirs.antt =====
-- A directory that the program holds open, and the operations on the names in it
-- (gnosis_vpn-migrate/src/nofollow.rs and `unique_name` of migrate.rs). What stands at a name is
-- known by a number; the answers of the system calls are given by a host.
pub mod Names
pub mod Digits
pub mod Unique
pub mod Renames
use gnosis_vpn_toolkit.Prelude.{
  ℕ, zero, suc, ◌+◌, Bool, true, false, Option, none, some, List, [], ◌∷◌, ◌++◌, length, Result, ok,
  err, if◌then◌else◌,
}
use gnosis_vpn_toolkit.Prelude.Text.{Text, codes, text_eq, show_nat}

abbrev pub Dir : Type 0
Dir = List (Text × ℕ)

abbrev pub lookup : Text → Dir → Option ℕ
lookup name [] = none
lookup name ((n, node) ∷ d) = let rest = lookup name d in if text_eq n name then some node else rest

abbrev pub delete : Text → Dir → Dir
delete name [] = []
delete name ((n, node) ∷ d) =
    let rest = delete name d in if text_eq n name then rest else (n, node) ∷ rest

-- The errors with which the system calls on one directory fail, if they do.
pub record Host : Type 0 where
  pub stat_error : Text → Option Text
  pub rename_error : Text → Text → Option Text
  pub sync_error : Option Text

abbrev pub is_some : Option ℕ → Bool
is_some none = false
is_some (some _) = true

unfoldable pub exists : Host → Dir → Text → Result Text Bool
exists h d name = elim (h.stat_error name) [ none ↦ ok (is_some (lookup name d)) | some e ↦ err e ]

-- `renameat` in one directory: what stood at the new name is gone.
unfoldable pub rename : Host → Dir → Text → Text → Result Text Dir
rename h d from to = elim (h.rename_error from to) [
  | some e ↦ err e
  | none ↦ elim (lookup from d) [
    | none ↦ err (codes "No such file or directory (os error 2)")
    | some node ↦ ok ((to, node) ∷ delete to (delete from d))
  ]
]

abbrev pub numbered : Text → ℕ → Text
numbered candidate n = candidate ++ (codes "." ++ show_nat n)

-- The loop of `unique_name`; `none` when the rounds run out.
unfoldable pub next_name : Host → Dir → Text → ℕ → ℕ → Option (Result Text Text)
next_name h d candidate n zero = none
next_name h d candidate n (suc rounds) =
    let rest = next_name h d candidate (suc n) rounds in
    elim (exists h d (numbered candidate n)) [
      | err e ↦ some (err e)
      | ok taken ↦ if taken then rest else some (ok (numbered candidate n))
    ]

-- A round for each entry and one more.
unfoldable pub unique_name : Host → Dir → Text → Option (Result Text Text)
unique_name h d candidate = elim (exists h d candidate) [
  | err e ↦ some (err e)
  | ok taken ↦
      let next = next_name h d candidate 1 (suc (length d)) in
      if taken then next else some (ok candidate)
]
