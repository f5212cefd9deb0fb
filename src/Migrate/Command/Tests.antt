-- ===== src/Migrate/Command/Tests.antt =====
-- Runs on a small file system, and the theorem at one.
use gnosis_vpn_toolkit.Prelude.{true, false, some, [], ◌∷◌, ◌≡◌, refl, ok, ◌==◌, if◌then◌else◌}
use gnosis_vpn_toolkit.Prelude.Text.{codes}
use gnosis_vpn_toolkit.Migrate.Layout.{linux, migrate_log}
use gnosis_vpn_toolkit.Migrate.Logging.{setup}
use gnosis_vpn_toolkit.Migrate.Logging.Growing.{Grown}
use gnosis_vpn_toolkit.Migrate.Outcome.{Outcome, exit_code_of}
use gnosis_vpn_toolkit.Migrate.Store.{done, regular, directory, symlink, Store, World}
use gnosis_vpn_toolkit.Migrate.Store.Sample.{process, node}
use gnosis_vpn_toolkit.Migrate.Command.{Machine, IdentityArgs, identity, main}
use gnosis_vpn_toolkit.Migrate.Command.Ending.{main-dry}

-- A home with the old directory of the service, where the identity is.
abbrev store : Store
store = record {
  node_at = λ j.
      if j == 1
      then node (directory ((codes ".config", 2) ∷ [])) 7
      else if j == 2
      then node (directory ((codes "gnosisvpn-hopr.id", 3) ∷ [])) 7
      else if j == 3
      then node (regular (codes "key")) 7
      else node (symlink (codes "/etc/passwd")) 7;
  fresh = 6;
}

abbrev world : World
world = record { store = store; faults = [] }

abbrev machine : Machine
machine = record {
  setting = record {
    process = process;
    rounds = 9;
    os = linux;
    sha256 = λ bytes. bytes;
    ts = codes "20260101000000";
    now = codes "2026-01-01T00:00:00Z";
  };
  accounts = record {
    get_user_by_name =
        λ name. some (record { uid = 1000; primary_group_id = 1000; home_dir = codes "/home/ada" });
    is_dir = λ path. true;
    canonicalize = λ path. some path;
  };
  read_link = λ link. ok (codes "config-jura.toml");
  version = codes "1.2.0";
}

abbrev args : IdentityArgs
args = record {
  user = codes "ada";
  legacy_home = codes "/var/lib/gnosisvpn";
  config_link = codes "/etc/gnosisvpn/config.toml";
  dry_run = true;
  replace = false;
}

main-dry_example :
    (o : Outcome) × (w' : World) × (main machine (identity args) world
      ≡ (done (o, exit_code_of o), w'))
    × (w'.store ≡ (setup process (migrate_log linux) world).1.store)
    × Grown store w'.store
main-dry_example = main-dry machine args refl world
