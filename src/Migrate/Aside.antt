-- ===== src/Migrate/Aside.antt =====
-- Moving directories aside under a name that is free (`unique_name`, `rename_aside`, `move_aside_in`,
-- `Legacy::move_aside` and `start_clean` of gnosis_vpn-migrate/src/migrate.rs), on the store. The search
-- for a free name has a number of rounds.
use gnosis_vpn_toolkit.Prelude.{
  ℕ, zero, suc, Bool, true, false, Option, none, some, List, [], ◌∷◌, ◌++◌, if◌then◌else◌,
}
use gnosis_vpn_toolkit.Prelude.Text.{Text, codes, join}
use gnosis_vpn_toolkit.FilePath.{components}
use gnosis_vpn_toolkit.Migrate.Outcome.{Move, Outcome, nothing_to_do, started_clean}
use gnosis_vpn_toolkit.Migrate.Layout.{
  Os, user_layout, networks_dir, legacy_config_dir, pix_db_file,
}
use gnosis_vpn_toolkit.Migrate.Dirs.{numbered}
use gnosis_vpn_toolkit.Migrate.Networks.{aside_name}
use gnosis_vpn_toolkit.Migrate.Store
use gnosis_vpn_toolkit.Migrate.Store.{Process, Io, give_up, pure}
use gnosis_vpn_toolkit.Migrate.Store.Failing.{Fio, succeed, or_fail, ◌>>=◌, ◌>>◌}
use gnosis_vpn_toolkit.Migrate.User.{Account}
use gnosis_vpn_toolkit.Migrate.Nofollow.{open_home, find_dir, exists, rename_across, sync}
use gnosis_vpn_toolkit.Migrate.Legacy.{Legacy, legacy_failure, open_legacy_home}
use gnosis_vpn_toolkit.Migrate.Sweep.{lock_down, secure_leftovers}
use gnosis_vpn_toolkit.Migrate.Target.{destination_error}

abbrev pub rename : ℕ → Text → Text → Io (Unit {0})
rename dir from to = rename_across dir from dir to

unfoldable pub next_name : ℕ → Text → ℕ → ℕ → Io Text
next_name dir candidate n zero = give_up
next_name dir candidate n (suc rounds) =
    Store.◌>>=◌ (exists dir (numbered candidate n)) (λ taken.
      if taken then next_name dir candidate (suc n) rounds else pure (numbered candidate n))

unfoldable pub unique_name : ℕ → ℕ → Text → Io Text
unfolding next_name
unique_name rounds dir candidate =
    Store.◌>>=◌ (exists dir candidate)
      (λ taken. if taken then next_name dir candidate 1 rounds else pure candidate)

unfoldable pub rename_aside : ℕ → ℕ → Text → Text → Text → Fio Move
unfolding unique_name join
rename_aside rounds home home_path name candidate = do
  let from = join home_path name
  aside ← or_fail (legacy_failure from) (unique_name rounds home candidate)
  or_fail (legacy_failure from) (rename home name aside)
  succeed (record { from = from; to = join home_path aside })

unfoldable pub move_aside_in : ℕ → ℕ → Text → Text → Text → Text → Fio (Option Move)
unfolding unique_name destination_error join
move_aside_in rounds dir path network reason ts = do
  let from = join path network
  present ← or_fail (destination_error from) (exists dir network)
  if present
      then (do
        aside ←
            or_fail (destination_error from) (unique_name rounds dir (aside_name network reason ts))
        or_fail (destination_error from) (rename dir network aside)
        succeed (some (record { from = from; to = join path aside })))
      else succeed none

-- `{name}.migrated-{ts}`
abbrev pub migrated_name : Text → Text → Text
migrated_name name ts = name ++ (codes ".migrated-" ++ ts)

abbrev pub redb_aside : ℕ → Legacy → Text → Bool → Fio (List Move)
unfolding rename_aside
redb_aside rounds legacy ts false = succeed []
redb_aside rounds legacy ts true = do
  m ← rename_aside rounds legacy.home legacy.home_path pix_db_file (migrated_name pix_db_file ts)
  succeed (m ∷ [])

-- `Legacy::move_aside`: what stays in the home is secured as far as that can be done.
unfoldable pub legacy_aside : Process → ℕ → Legacy → Text → Fio (List Move)
unfolding rename_aside lock_down redb_aside secure_leftovers
legacy_aside p rounds legacy ts = do
  config_move ←
      rename_aside rounds legacy.home legacy.home_path legacy_config_dir
        (migrated_name legacy_config_dir ts)
  or_fail (legacy_failure config_move.to) (lock_down p legacy.config)
  redb ← redb_aside rounds legacy ts legacy.has_redb
  Store.◌>>=◌ (secure_leftovers p rounds legacy.home legacy.home_path legacy.owner_uid)
      (λ _. or_fail (legacy_failure legacy.home_path) (sync legacy.home))
  succeed (config_move ∷ redb)

abbrev pub config_aside : Process → ℕ → ℕ → Text → Text → Option ℕ → Fio (Option Move)
unfolding rename_aside lock_down
config_aside p rounds home home_path ts none = succeed none
config_aside p rounds home home_path ts (some config) = do
  m ←
      rename_aside rounds home home_path legacy_config_dir
        (legacy_config_dir ++ (codes "." ++ (ts ++ codes ".bak")))
  or_fail (legacy_failure m.to) (lock_down p config)
  or_fail (legacy_failure home_path) (sync home)
  succeed (some m)

abbrev pub config_of_home : Process → ℕ → Text → Text → Option ℕ → Fio (Option Move)
unfolding config_aside join components
config_of_home p rounds home_path ts none = succeed none
config_of_home p rounds home_path ts (some home) = do
  config ←
      or_fail (legacy_failure (join home_path legacy_config_dir))
        (find_dir home (components legacy_config_dir))
  config_aside p rounds home home_path ts config

unfoldable pub move_legacy_config_aside : Process → ℕ → Text → Text → Fio (Option Move)
unfolding open_legacy_home config_of_home
move_legacy_config_aside p rounds home_path ts = do
  home ← open_legacy_home p home_path
  config_of_home p rounds home_path ts home

abbrev pub listed_move : Option Move → List Move
listed_move none = []
listed_move (some m) = m ∷ []

abbrev pub network_aside : ℕ → Text → Text → Text → Option ℕ → Fio (Option Move)
unfolding move_aside_in
network_aside rounds path network ts none = succeed none
network_aside rounds path network ts (some networks) =
    move_aside_in rounds networks path network (codes "reset") ts

-- Only what is there is opened.
unfoldable pub base_aside : ℕ → ℕ → Account → Text → Text → Text → Fio (Option Move)
unfolding network_aside destination_error join components
base_aside rounds home account network ts base = do
  let rel = join base networks_dir
  let path = join account.home rel
  networks ← or_fail (destination_error path) (find_dir home (components rel))
  network_aside rounds path network ts networks

unfoldable pub move_user_dirs_aside : Process → ℕ → Os → Account → Text → Text → Fio (List Move)
unfolding base_aside destination_error
move_user_dirs_aside p rounds os account network ts = do
  let layout = user_layout os
  home ← or_fail (destination_error account.home) (open_home p account.home)
  of_data ← base_aside rounds home account network ts layout.data_root
  of_cache ← base_aside rounds home account network ts layout.cache_root
  succeed (listed_move of_data ++ listed_move of_cache)

abbrev pub user_dirs_aside : Process → ℕ → Os → Text → Option (Account × Text) → Fio (List Move)
unfolding move_user_dirs_aside
user_dirs_aside p rounds os ts none = succeed []
user_dirs_aside p rounds os ts (some (account, network)) =
    move_user_dirs_aside p rounds os account network ts

abbrev pub clean_outcome : List Move → Outcome
clean_outcome [] = nothing_to_do
clean_outcome (m ∷ moves) = started_clean (m ∷ moves)

unfoldable pub start_clean : Process → ℕ → Os → Text → Text → Option (Account × Text) → Fio Outcome
unfolding move_legacy_config_aside user_dirs_aside
start_clean p rounds os ts legacy_home user_dirs = do
  config_move ← move_legacy_config_aside p rounds legacy_home ts
  moves ← user_dirs_aside p rounds os ts user_dirs
  succeed (clean_outcome (listed_move config_move ++ moves))
