-- ===== src/Migrate/Relocate.antt =====
-- The moves into the current layout (gnosis_vpn-migrate/src/relocate.rs). A step that fails is
-- reported, and the run goes on.
pub mod Moving
mod Tests
use gnosis_vpn_toolkit.Prelude.{
  ℕ, Bool, Option, none, some, List, [], ◌∷◌, ◌++◌, Result, ok, err, map, if◌then◌else◌,
}
use gnosis_vpn_toolkit.Prelude.Text.{Text, codes, join}
use gnosis_vpn_toolkit.FilePath.{Component, components, parent, file_name}
use gnosis_vpn_toolkit.Migrate.Outcome.{destination, Failure, Move, Problem, Report, extend}
use gnosis_vpn_toolkit.Migrate.Layout.{Os, macos, linux, dir_mode, shared_dir_mode, app_id}
use gnosis_vpn_toolkit.Migrate.Store.{
  IoError, other, show_io_error, Process, Io, pure, fail, attempt, ◌>>=◌, ◌>>◌,
}
use gnosis_vpn_toolkit.Migrate.User.{Account}
use gnosis_vpn_toolkit.Migrate.Nofollow.{
  open_home, find_dir, ensure_dir, exists, remove, remove_tree, remove_empty_dir, rename_across,
  sync,
}

pub data Step : Type 0 where
  move : Text → Text → List (Text × ℕ) → Step
  remove_whole : Text → Step
  remove_if_empty : Text → Step

abbrev named_move : Text → Text → List (Text × ℕ) → Text → Step
named_move from to parents name = move (join from name) (join to name) parents

abbrev old_installer : Text
old_installer = codes "Library/Logs/GnosisVPN/installer"

abbrev installer : Text
installer = codes "Library/Application Support/GnosisVPN/installer"

unfoldable pub system_steps : Os → List Step
unfolding join
system_steps macos =
    map (named_move old_installer installer ((installer, shared_dir_mode) ∷ []))
      (codes "network_choice" ∷ codes "loglevel_choice" ∷ codes "update_status" ∷ [])
    ++ (move (codes "private/var/log/gnosisvpn/updates.log")
          (codes "Library/Logs/GnosisVPN/updates.log")
          ((codes "Library/Logs/GnosisVPN", shared_dir_mode) ∷ [])
        ∷ remove_if_empty (codes "private/var/log/gnosisvpn")
        ∷ remove_whole (codes "Library/Application Support/GnosisVPN/updates")
        ∷ [])
system_steps linux = []

abbrev old_app_dir : Text
unfolding join
old_app_dir = join (codes ".local/share") app_id

abbrev app_config : Text
unfolding join
app_config = join (codes ".config") app_id

unfoldable pub user_steps : Os → List Step
unfolding old_app_dir app_config join
user_steps macos = []
user_steps linux =
    move (join old_app_dir (codes "settings.json")) (join app_config (codes "settings.json"))
      ((codes ".config", shared_dir_mode) ∷ (app_config, dir_mode) ∷ [])
    ∷ move (join old_app_dir (codes "logs")) (join (codes ".local/state") app_id)
        ((codes ".local", shared_dir_mode) ∷ (codes ".local/state", shared_dir_mode) ∷ [])
    ∷ []

pub data Done : Type 0 where
  nothing : Done
  moved_to : Text → Done
  removed : Done

abbrev split_parts : Text → Option (List Component) → Option Text → Io (List Component × Text)
split_parts path (some dir) (some name) = pure (dir, name)
split_parts path _ _ = fail (other (codes "not a relative file path: " ++ path))

unfoldable pub split : Text → Io (List Component × Text)
unfolding parent file_name
split path = split_parts path (parent path) (file_name path)

unfoldable pub ensure_parents : Process → ℕ → List (Text × ℕ) → Account → Io (Unit {0})
ensure_parents p root [] account = pure tt
ensure_parents p root ((dir, mode) ∷ rest) account =
    ensure_dir p root (components dir) mode account >> ensure_parents p root rest account

abbrev or_missing : Option ℕ → Io ℕ
or_missing (some dir) = pure dir
or_missing none = fail (other (codes "destination parent missing"))

-- What is in the way is the newer one.
unfoldable pub move_between : Process → ℕ → ℕ → Text → ℕ → Text → Text → Io Done
move_between p rounds from_dir from_name to_dir to_name to = do
  taken ← exists to_dir to_name
  if taken
      then (remove p rounds from_dir from_name >> pure removed)
      else (rename_across from_dir from_name to_dir to_name
          >> (sync to_dir >> (sync from_dir >> pure (moved_to to))))

unfoldable pub move_present :
    Process → ℕ → ℕ → ℕ → Text → Text → List (Text × ℕ) → Account → Io Done
unfolding ensure_parents split
move_present p rounds root from_dir from_name to parents account = do
  ensure_parents p root parents account
  (to_parent, to_name) ← split to
  found ← find_dir root to_parent
  to_dir ← or_missing found
  move_between p rounds from_dir from_name to_dir to_name to

-- Goes on with the directory and the name of a path that is there, if it is.
unfoldable pub with_present : ℕ → Text → (ℕ → Text → Io Done) → Io Done
unfolding split
with_present root path act = do
  (dir, name) ← split path
  found ← find_dir root dir
  elim found [
    | none ↦ pure nothing
    | some d ↦ exists d name >>= λ here. if here then act d name else pure nothing
  ]

unfoldable pub move_step : Process → ℕ → ℕ → Text → Text → List (Text × ℕ) → Account → Io Done
unfolding with_present
move_step p rounds root from to parents account =
    with_present root from
      (λ from_dir from_name. move_present p rounds root from_dir from_name to parents account)

unfoldable pub remove_tree_step : Process → ℕ → ℕ → Text → Io Done
unfolding with_present
remove_tree_step p rounds root path =
    with_present root path (λ dir name. remove_tree p rounds dir name >> pure removed)

unfoldable pub remove_empty_dir_step : ℕ → Text → Io Done
unfolding split
remove_empty_dir_step root path = do
  (dir, name) ← split path
  found ← find_dir root dir
  elim found [
    | none ↦ pure nothing
    | some d ↦ remove_empty_dir d name >>= λ gone. pure (if gone then removed else nothing)
  ]

abbrev pub subject : Step → Text
subject (move from to parents) = from
subject (remove_whole path) = path
subject (remove_if_empty path) = path

unfoldable pub run_step : Process → ℕ → ℕ → Account → Step → Io Done
run_step p rounds root account (move from to parents) =
    move_step p rounds root from to parents account
run_step p rounds root account (remove_whole path) = remove_tree_step p rounds root path
run_step p rounds root account (remove_if_empty path) = remove_empty_dir_step root path

-- What a step adds to the report.
unfoldable pub note : Text → Text → Result IoError Done → Report → Report
unfolding join
note root path (ok nothing) report = report
note root path (ok (moved_to to)) report = record report {
  moved = report.moved ++ (record { from = join root path; to = join root to } ∷ []);
}
note root path (ok removed) report = record report {
  removed = report.removed ++ (join root path ∷ []);
}
note root path (err e) report = record report {
  failed = report.failed ++ (record { path = join root path; error = show_io_error e } ∷ []);
}

unfoldable pub run_steps : Process → ℕ → Text → ℕ → Account → List Step → Report → Io Report
run_steps p rounds root handle account [] report = pure report
run_steps p rounds root handle account (step ∷ steps) report = do
  result ← attempt (run_step p rounds handle account step)
  run_steps p rounds root handle account steps (note root (subject step) result report)

abbrev pub empty_report : Report
empty_report = record { moved = []; removed = []; failed = [] }

unfoldable pub run : Process → ℕ → Text → List Step → Account → Io (Result Failure Report)
unfolding run_steps
run p rounds root steps account = do
  opened ← attempt (open_home p root)
  elim opened [
    | err e ↦ pure (err (record { stage = destination; error = show_io_error e }))
    | ok handle ↦
        run_steps p rounds root handle account steps empty_report >>= λ report. pure (ok report)
  ]
