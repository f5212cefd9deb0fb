-- ===== src/Migrate/Target/Tests.antt =====
-- A comparison on a small file system, and the theorem at it.
use gnosis_vpn_toolkit.Prelude.{[], ◌∷◌, ◌≡◌, refl, ok}
use gnosis_vpn_toolkit.Prelude.Text.{codes, join, split}
use gnosis_vpn_toolkit.FilePath.{parent, file_name}
use gnosis_vpn_toolkit.Migrate.Networks.{on_data}
use gnosis_vpn_toolkit.Migrate.Store.{done, syscall}
use gnosis_vpn_toolkit.Migrate.Store.Calls.{
  duplicate, open_directory, open_reading, status, read_file,
}
use gnosis_vpn_toolkit.Migrate.Store.Sample.{process, store, world}
use gnosis_vpn_toolkit.Migrate.Nofollow.{open_home, find_dir, names, open_regular_file}
use gnosis_vpn_toolkit.Migrate.Legacy.{Planned}
use gnosis_vpn_toolkit.Migrate.Target.{Target, compare}
use gnosis_vpn_toolkit.Migrate.Target.Matching.{CompareEnds, compare-Ends}

abbrev target : Target
target = record {
  home = codes "/home/ada";
  data_rel = codes ".config";
  cache_rel = codes "new";
  data_path = codes "/home/ada/.config";
  cache_path = codes "/home/ada/new";
}

-- A digest that is the text itself.
abbrev planned : Planned
planned = record {
  from = codes "/var/lib/gnosisvpn/.config/gnosisvpn-hopr.id";
  source = 3;
  place = on_data;
  rel = codes "hopr.id";
  sha256 = codes "key";
}

no_mismatch :
    (compare (λ bytes. bytes) process target (planned ∷ []) (record world { faults = [] })).0
    ≡ done (ok [])
unfolding compare open_home join parent file_name split find_dir names open_regular_file duplicate
    open_directory open_reading status read_file syscall
no_mismatch = refl

compare-Ends_example :
    CompareEnds
      (λ bytes. bytes)
      process
      store
      target
      (planned ∷ [])
      (compare (λ bytes. bytes) process target (planned ∷ []) world)
compare-Ends_example = compare-Ends (λ bytes. bytes) process target (planned ∷ []) world
