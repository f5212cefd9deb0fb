-- ===== src/Migrate/Identity.antt =====
-- The migration of the identity (`Networks::move_aside`, `restore`, `publish` and `migrate_identity` of
-- gnosis_vpn-migrate/src/migrate.rs), on the store.
pub mod Reading
pub mod DryRun
use gnosis_vpn_toolkit.Prelude.{
  ℕ, Bool, not, Option, none, some, List, [], ◌∷◌, ◌++◌, Result, ok, err, map, if◌then◌else◌,
}
use gnosis_vpn_toolkit.Prelude.Text.{Text, codes, join}
use gnosis_vpn_toolkit.FilePath.{file_name}
use gnosis_vpn_toolkit.Migrate.Outcome.{
  Failure, destination, Move, Mismatch, Outcome, migrated, would_migrate, already_migrated,
  nothing_to_migrate, conflict,
}
use gnosis_vpn_toolkit.Migrate.Layout.{Os, user_layout}
use gnosis_vpn_toolkit.Migrate.Networks.{Place, on_data, on_cache}
use gnosis_vpn_toolkit.Migrate.Store
use gnosis_vpn_toolkit.Migrate.Store.{IoError, show_io_error, Process, Io, pure, attempt}
use gnosis_vpn_toolkit.Migrate.Store.Failing.{Fio, succeed, refuse, or_fail, ◌>>=◌, ◌>>◌}
use gnosis_vpn_toolkit.Migrate.User.{Account}
use gnosis_vpn_toolkit.Migrate.Nofollow.{sync}
use gnosis_vpn_toolkit.Migrate.Legacy.{Legacy, find, plan, Planned}
use gnosis_vpn_toolkit.Migrate.Target
use gnosis_vpn_toolkit.Migrate.Target.{Target, target_exists, compare, destination_error}
use gnosis_vpn_toolkit.Migrate.Staging.{
  Held, create, side_of, remove_staging, marker_content, stage,
}
use gnosis_vpn_toolkit.Migrate.Aside.{rename, move_aside_in, legacy_aside}

-- One round of `restore`; a failed undo is only logged.
unfoldable pub restore_one : Held → Place → Option Text → Option Text → Io (Unit {0})
restore_one held place (some original) (some aside) =
    Store.◌>>=◌ (attempt (rename (side_of held place).0 aside original)) (λ _. pure tt)
restore_one held place _ _ = pure tt

unfoldable pub restore : Held → List (Place × Move) → Io (Unit {0})
unfolding restore_one file_name
restore held [] = pure tt
restore held ((place, m) ∷ moved) =
    Store.◌>>◌ (restore_one held place (file_name m.from) (file_name m.to)) (restore held moved)

-- All or nothing: a failed move puts back what was moved before.
unfoldable pub move_each :
    ℕ → Held → Text → Text → Text → List (Place × Move) → List Place → Fio (List (Place × Move))
unfolding move_aside_in restore
move_each rounds held network reason ts moved [] = succeed moved
move_each rounds held network reason ts moved (place ∷ places) =
    Store.◌>>=◌
      (move_aside_in rounds (side_of held place).0 (side_of held place).1 network reason ts)
      (λ result. elim result [
        | err e ↦ Store.◌>>◌ (restore held moved) (refuse e)
        | ok none ↦ move_each rounds held network reason ts moved places
        | ok (some m) ↦ move_each rounds held network reason ts (moved ++ ((place, m) ∷ [])) places
      ])

unfoldable pub networks_aside : ℕ → Held → Text → Text → Text → Fio (List (Place × Move))
unfolding move_each
networks_aside rounds held network reason ts =
    move_each rounds held network reason ts [] (on_data ∷ on_cache ∷ [])

unfoldable pub rename_failed : Text → Text → Text → IoError → Failure
unfolding join
rename_failed path staging network e = record {
  stage = destination;
  error = join path staging ++ (codes " -> " ++ (network ++ (codes ": " ++ show_io_error e)));
}

-- A failed cache rename takes the data directory back; when that fails it is logged and left.
abbrev pub cache_renamed : Held → Text → Text → Result IoError (Unit {0}) → Fio (Unit {0})
unfolding rename_failed
cache_renamed held staging network (ok _) = succeed tt
cache_renamed held staging network (err e) =
    Store.◌>>=◌ (attempt (rename held.data_handle network staging))
      (λ _. refuse (rename_failed held.cache_path staging network e))

unfoldable pub publish : Held → Text → Text → Fio (Unit {0})
unfolding rename_failed cache_renamed destination_error
publish held staging network = do
  or_fail (rename_failed held.data_path staging network) (rename held.data_handle staging network)
  Store.◌>>=◌ (attempt (rename held.cache_handle staging network))
      (cache_renamed held staging network)
  or_fail (destination_error held.data_path) (sync held.data_handle)
  or_fail (destination_error held.cache_path) (sync held.cache_handle)

pub record IdentityRequest : Type 0 where
  pub account : Account
  pub network : Text
  pub legacy_home : Text
  pub dry_run : Bool
  pub replace : Bool
  pub toolkit_version : Text

-- The process, the rounds of its loops, the system, the digest and the two forms of the time.
pub record Setting : Type 0 where
  pub process : Process
  pub rounds : ℕ
  pub os : Os
  pub sha256 : Text → Text
  pub ts : Text
  pub now : Text

module _ (set : Setting) (req : IdentityRequest) where
  -- The new identity is durable, so the legacy one may go; or the run restores what it replaced.
  abbrev installed_or_restored :
      Legacy
      → Held
      → Text
      → List (Place × Move)
      → List Move
      → Result Failure (Unit {0})
      → Fio Outcome
  unfolding legacy_aside restore remove_staging
  installed_or_restored legacy held staging replaced files (err e) =
      Store.◌>>◌ (remove_staging set.process set.rounds held staging)
        (Store.◌>>◌ (restore held replaced) (refuse e))
  installed_or_restored legacy held staging replaced files (ok _) = do
    legacy_moves ← legacy_aside set.process set.rounds legacy set.ts
    succeed (migrated req.network req.account.name files legacy_moves)

  unfoldable pub install : Legacy → List Planned → List Move → Fio Outcome
  unfolding installed_or_restored networks_aside publish
  install legacy planned files = do
    held ← create set.process req.account (user_layout set.os)
    replaced ← networks_aside set.rounds held req.network (codes "replaced") set.ts
    let staging = req.network ++ (codes ".migrating-" ++ set.ts)
    let marker = marker_content legacy set.now req.toolkit_version
    Store.◌>>=◌
        (stage set.sha256 set.process held staging planned marker req.account
          >> publish held staging req.network)
        (installed_or_restored legacy held staging replaced files)

  unfoldable pub planned_moves : Target → List Planned → List Move
  planned_moves target planned =
      map (λ f. record { from = f.from; to = Target.path target f }) planned

  unfoldable pub install_or_show : Legacy → List Planned → List Move → Fio Outcome
  unfolding install
  install_or_show legacy planned files =
      if req.dry_run
      then succeed (would_migrate req.network req.account.name files)
      else install legacy planned files

  -- An earlier run stopped after publishing, so the old key is still there.
  unfoldable pub already_there : Legacy → Fio Outcome
  already_there legacy = do
    moves ← (if req.dry_run then succeed [] else legacy_aside set.process set.rounds legacy set.ts)
    succeed (already_migrated req.network req.account.name moves)

  unfoldable pub compared : Legacy → List Planned → List Move → List Mismatch → Fio Outcome
  unfolding install_or_show already_there
  compared legacy planned files [] = already_there legacy
  compared legacy planned files (m ∷ ms) =
      if not req.replace
      then succeed (conflict req.network req.account.name (m ∷ ms))
      else install_or_show legacy planned files

  unfoldable pub migrate_found : Legacy → Fio Outcome
  unfolding compared planned_moves install_or_show
  migrate_found legacy = do
    planned ← plan set.sha256 legacy
    let target = Target.new req.account.home (user_layout set.os) req.network
    let files = planned_moves target planned
    present ← target_exists set.process target
    if present
        then (compare set.sha256 set.process target planned >>= compared legacy planned files)
        else install_or_show legacy planned files

  unfoldable pub migrate_identity : Fio Outcome
  unfolding migrate_found
  migrate_identity = do
    legacy ← find set.process req.legacy_home
    elim legacy [
      | none ↦ succeed (nothing_to_migrate req.legacy_home)
      | some found ↦ migrate_found found
    ]
