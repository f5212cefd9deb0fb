-- ===== src/SelfUpdate.antt =====
-- The rename-aside of the running updater around the installer
-- (gnosis_vpn-update/src/update/self_update.rs). A binary is known by a number.
pub mod Settling
mod Tests
use gnosis_vpn_toolkit.Prelude.{
  ℕ, Bool, true, false, not, ◌&&◌, Option, none, some, List, [], ◌∷◌, ◌==◌, if◌then◌else◌,
  unwrap_or,
}
use gnosis_vpn_toolkit.Prelude.Text.{Text, codes, trim}

-- What stands at the install path and at the path with `.old`.
pub record Binaries : Type 0 where
  pub path : Option ℕ
  pub old_path : Option ℕ

abbrev pub is_some : Option ℕ → Bool
is_some none = false
is_some (some _) = true

pub record RenameAside : Type 0 where
  pub renamed : Bool

-- A rename fails when its source is missing, and otherwise if the file system refuses it.
unfoldable pub engage : Bool → Binaries → RenameAside × Binaries
engage permitted b =
    if is_some b.path && permitted
    then (record { renamed = true }, record { path = none; old_path = b.path })
    else (record { renamed = false }, b)

remove_old : Bool → Binaries → Binaries
remove_old permitted b = if permitted then record b { old_path = none } else b

unfoldable pub finish_success : Bool → RenameAside → Binaries → Binaries
unfolding remove_old
finish_success permitted aside b = if not aside.renamed then b else remove_old permitted b

unfoldable pub finish_failure : Bool → RenameAside → Binaries → Binaries
unfolding remove_old
finish_failure permitted aside b =
    if not aside.renamed
    then b
    else if is_some b.path
    then remove_old permitted b
    else if is_some b.old_path && permitted
    then record { path = b.old_path; old_path = none }
    else b

-- Running the new binary's `version`: it cannot be run, or it exits with success or not and prints
-- a text.
pub data Probe : Type 0 where
  not_run : Probe
  exited : Bool → Text → Probe

first_line : Text → Text
first_line [] = []
first_line (c ∷ s) = let rest = first_line s in if c == 10 then [] else c ∷ rest

-- `json_version` reads the string field `version` of a JSON text.
module _ (json_version : Text → Option Text) where
  probe_version : Probe → Option Text
  unfolding first_line
  probe_version not_run = none
  probe_version (exited false stdout) = none
  probe_version (exited true stdout) =
      some (unwrap_or (json_version (trim stdout)) (trim (first_line stdout)))

  unfoldable pub finish : Bool → RenameAside → Bool → Probe → Binaries → Option Text × Binaries
  unfolding probe_version finish_success finish_failure
  finish permitted aside install_succeeded probe b =
      if not install_succeeded
      then (none, finish_failure permitted aside b)
      else (probe_version probe, finish_success permitted aside b)
