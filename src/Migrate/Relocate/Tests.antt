-- ===== src/Migrate/Relocate/Tests.antt =====
-- A move between two directories of a small file system, and the theorem at it.
use gnosis_vpn_toolkit.Prelude.{ℕ, ◌<◌, some, ◌≡◌, ◌≢◌, refl, arith}
use gnosis_vpn_toolkit.Prelude.Text.{codes}
use gnosis_vpn_toolkit.Migrate.Store.{done, lookup_in}
use gnosis_vpn_toolkit.Migrate.Store.Calls.{status_at, rename_at, synchronise}
use gnosis_vpn_toolkit.Migrate.Store.Sample.{process, store, world, depth, depth_falls}
use gnosis_vpn_toolkit.Migrate.Nofollow.{exists}
use gnosis_vpn_toolkit.Migrate.Relocate.{moved_to, move_between}
use gnosis_vpn_toolkit.Migrate.Relocate.Moving.{MoveEnds, move_between-Ends}

key_moved :
    (move_between process 1 2 (codes "hopr.id") 5 (codes "id") (codes "new/id") world).0
    ≡ done (moved_to (codes "new/id"))
unfolding move_between exists status_at rename_at synchronise
key_moved = refl

apart : ◌≢◌ {A = ℕ} 2 5
apart e = absurd (omega arith)

leaf_below : (c : ℕ) → lookup_in store 2 (codes "hopr.id") ≡ some c → depth c < 1
leaf_below c found = ground arith

move_between-Ends_example :
    MoveEnds store 2
      (codes "hopr.id")
      5
      (codes "id")
      (codes "new/id")
      (move_between process 1 2 (codes "hopr.id") 5 (codes "id") (codes "new/id") world)
move_between-Ends_example =
    move_between-Ends process depth 1 2 (codes "hopr.id") 5 (codes "id") (codes "new/id") world
      apart depth_falls (omega arith) leaf_below
