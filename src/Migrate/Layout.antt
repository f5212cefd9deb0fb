-- ===== src/Migrate/Layout.antt =====
-- The paths of a user's directories and of the legacy files (gnosis_vpn-migrate/src/layout.rs).
use gnosis_vpn_toolkit.Prelude.{ℕ, List, [], ◌∷◌}
use gnosis_vpn_toolkit.Prelude.Text.{Text, codes, join}
pub use gnosis_vpn_toolkit.Engine.{Os, macos, linux}

-- 0o700, 0o600 and 0o755.
abbrev pub dir_mode : ℕ
dir_mode = 448

abbrev pub file_mode : ℕ
file_mode = 384

abbrev pub shared_dir_mode : ℕ
shared_dir_mode = 493

abbrev pub identity_file : Text
identity_file = codes "hopr.id"

abbrev pub password_file : Text
password_file = codes "hopr.pass"

abbrev pub safe_file : Text
safe_file = codes "hopr.safe"

abbrev pub pix_dir : Text
pix_dir = codes "pix"

abbrev pub pix_db_file : Text
pix_db_file = codes "curvy-pix.redb"

abbrev pub migrated_from_file : Text
migrated_from_file = codes "migrated-from"

abbrev pub app_id : Text
app_id = codes "com.gnosisvpn.gnosisvpnclient"

abbrev pub legacy_config_dir : Text
legacy_config_dir = codes ".config"

abbrev pub legacy_identity_file : Text
legacy_identity_file = codes "gnosisvpn-hopr.id"

abbrev pub legacy_password_file : Text
legacy_password_file = codes "gnosisvpn-hopr.pass"

abbrev pub legacy_safe_file : Text
legacy_safe_file = codes "gnosisvpn-hopr.safe"

abbrev pub networks_dir : Text
networks_dir = codes "networks"

-- What `upload-log` bundles.
pub record LogSources : Type 0 where
  pub migrate : Text
  pub extra : List Text

abbrev pub migrate_log : Os → Text
migrate_log macos = codes "/Library/Logs/GnosisVPN/installer/migrate.log"
migrate_log linux = codes "/var/log/gnosisvpn/migrate.log"

abbrev pub installer_logs : Text
installer_logs = codes "/Library/Logs/GnosisVPN/installer"

unfoldable pub log_sources : Os → LogSources
unfolding join
log_sources macos = record {
  migrate = migrate_log macos;
  extra =
      join installer_logs (codes "installer.log")
      ∷ join installer_logs (codes "postinstall.log")
      ∷ codes "/Library/Logs/GnosisVPN/updates.log"
      ∷ [];
}
log_sources linux = record { migrate = migrate_log linux; extra = [] }

-- The roots of a user's directories, and the parents that an account may lack, with their modes.
pub record UserLayout : Type 0 where
  pub data_root : Text
  pub cache_root : Text
  pub parents : List (Text × ℕ)

unfoldable pub user_layout : Os → UserLayout
user_layout macos = record {
  data_root = codes "Library/Application Support/GnosisVPN";
  cache_root = codes "Library/Caches/GnosisVPN";
  parents =
      (codes "Library", dir_mode)
      ∷ (codes "Library/Application Support", shared_dir_mode)
      ∷ (codes "Library/Caches", shared_dir_mode)
      ∷ [];
}
user_layout linux = record {
  data_root = codes ".local/share/gnosisvpn";
  cache_root = codes ".cache/gnosisvpn";
  parents =
      (codes ".local", shared_dir_mode)
      ∷ (codes ".local/share", shared_dir_mode)
      ∷ (codes ".cache", shared_dir_mode)
      ∷ [];
}

unfoldable pub network_dir : Text → Text → Text
unfolding join
network_dir base network = join (join base networks_dir) network
