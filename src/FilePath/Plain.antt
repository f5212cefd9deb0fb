-- ===== src/FilePath/Plain.antt =====
-- Names that stay in their directory.
use gnosis_vpn_toolkit.Prelude.{false, [], ◌≡◌, ◌≢◌, All}
use gnosis_vpn_toolkit.Prelude.Text.{Text, codes}
use gnosis_vpn_toolkit.FilePath.{is_slash}

abbrev pub IsSlashFree : Text → Type 0
IsSlashFree = All (λ c. is_slash c ≡ false)

-- A name that stays in its directory: not empty, no separator, neither `.` nor `..`.
pub record IsPlainName (name : Text) : Type 0 where
  pub slash_free : IsSlashFree name
  pub not_empty : name ≢ []
  pub not_here : name ≢ codes "."
  pub not_up : name ≢ codes ".."
