-- ===== src/Migrate/Sweep/Tests.antt =====
-- A sweep of a small home, and the theorem at it.
use gnosis_vpn_toolkit.Prelude.{[], ◌∷◌, ◌≡◌, refl, arith}
use gnosis_vpn_toolkit.Prelude.Text.{codes, join}
use gnosis_vpn_toolkit.Migrate.Store.{done}
use gnosis_vpn_toolkit.Migrate.Store.Calls.{
  status, status_at, open_directory, read_directory, change_owner, change_owner_at, change_mode,
}
use gnosis_vpn_toolkit.Migrate.Store.Sample.{process, store, world, depth, depth_falls}
use gnosis_vpn_toolkit.Migrate.Nofollow.{reown_tree, entries}
use gnosis_vpn_toolkit.Migrate.Sweep.{
  lock_down, lock_config_dir, secure_entry, secure_each, secure_listed, secure_leftovers,
}
use gnosis_vpn_toolkit.Migrate.Sweep.Ending.{SweepEnds, secure_leftovers-Ends}

both_secured :
    (secure_leftovers process 2 1 (codes "/home") 7 (record world { faults = [] })).0
    ≡ done (codes "/home/.config" ∷ codes "/home/new" ∷ [])
unfolding secure_leftovers secure_listed secure_each secure_entry lock_config_dir lock_down
    reown_tree status status_at open_directory read_directory change_owner change_owner_at
    change_mode entries join
both_secured = refl

secure_leftovers-Ends_example :
    SweepEnds process store (secure_leftovers process 2 1 (codes "/home") 7 world)
secure_leftovers-Ends_example =
    secure_leftovers-Ends process depth 2 1 (codes "/home") 7 world refl depth_falls (omega arith)
      (omega arith)
