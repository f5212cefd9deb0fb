-- ===== src/Migrate/Nofollow/Tests.antt =====
-- Walks, removals and changes of owner on a small file system, and the theorems at them.
use gnosis_vpn_toolkit.Prelude.{ℕ, ◌<◌, some, none, [], ◌∷◌, ◌≡◌, ◌≢◌, refl, arith}
use gnosis_vpn_toolkit.Prelude.Text.{Text, codes}
use gnosis_vpn_toolkit.FilePath.{normal}
use gnosis_vpn_toolkit.Migrate.Store.{done, failed, not_a_directory, lookup_in}
use gnosis_vpn_toolkit.Migrate.Store.Calls.{
  open_directory, status, status_at, read_directory, change_owner, change_owner_at, unlink,
  remove_directory, duplicate,
}
use gnosis_vpn_toolkit.Migrate.Store.Sample.{process, store, world, depth, depth_falls}
use gnosis_vpn_toolkit.Migrate.Nofollow.{find_dir, names, remove_tree, reown_tree, is_dir, entries}
use gnosis_vpn_toolkit.Migrate.Nofollow.Walks.{Walk}
use gnosis_vpn_toolkit.Migrate.Nofollow.Walks.Finding.{FindEnds, find_dir-FindEnds}
use gnosis_vpn_toolkit.Migrate.Nofollow.Removal.Whole.{RemoveEnds, remove_tree-Ends}
use gnosis_vpn_toolkit.Migrate.Nofollow.Owners.Tree.{HandedOver, reown_tree-HandedOver}

-- The link in the directory is not followed.
away_refused :
    (find_dir 1 (normal (codes ".config") ∷ normal (codes "away") ∷ []) world).0
    ≡ failed not_a_directory
unfolding find_dir duplicate open_directory names
away_refused = refl

config_handed_over :
    (reown_tree process 2 1 (codes ".config") 7 (record world { faults = [] })).0 ≡ done 3
unfolding reown_tree status_at status open_directory change_owner change_owner_at entries
    read_directory
config_handed_over = refl

config_removed :
    lookup_in
      (remove_tree process 2 1 (codes ".config") (record world { faults = [] })).1.store
      1
      (codes ".config")
    ≡ none
unfolding remove_tree open_directory read_directory is_dir unlink remove_directory
config_removed = refl

find_dir-FindEnds_example :
    FindEnds store 1
      (names (normal (codes ".config") ∷ []))
      (find_dir 1 (normal (codes ".config") ∷ []) world)
    × ((e : ℕ)
        → Walk store 1 (names (normal (codes ".config") ∷ [])) e
        → find_dir 1 (normal (codes ".config") ∷ []) (record { store = store; faults = [] })
          ≡ (done (some e), record { store = store; faults = [] }))
find_dir-FindEnds_example = find_dir-FindEnds 1 (normal (codes ".config") ∷ []) world

enough_rounds : (d : ℕ) (name : Text) (c : ℕ) → lookup_in store d name ≡ some c → depth c < 2
enough_rounds d name c found = ground arith

remove_tree-Ends_example :
    RemoveEnds store 1 (codes ".config") (remove_tree process 2 1 (codes ".config") world)
remove_tree-Ends_example =
    remove_tree-Ends process depth 2 1 (codes ".config") world depth_falls (omega arith)
      (enough_rounds 1 (codes ".config"))

other_account : 7 ≢ process.euid
other_account e = absurd (ground arith)

reown_tree-HandedOver_example :
    HandedOver process 7 store 1
      (codes ".config")
      (reown_tree process 2 1 (codes ".config") 7 world)
reown_tree-HandedOver_example =
    reown_tree-HandedOver process 7 depth 2 1 (codes ".config") world other_account depth_falls
      (omega arith) (enough_rounds 1 (codes ".config"))
