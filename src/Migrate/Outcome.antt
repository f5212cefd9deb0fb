-- ===== src/Migrate/Outcome.antt =====
-- Stages, failures and outcomes of a run, with their exit codes and messages
-- (gnosis_vpn-migrate/src/migrate.rs, `Report` of relocate.rs, `next_steps` of main.rs).
use gnosis_vpn_toolkit.Prelude.{
  Bool, true, false, ◌&&◌, Option, List, [], ◌∷◌, ◌++◌, ◌≡◌, ◌↔◌, arith, unwrap_or, if◌then◌else◌,
}
use gnosis_vpn_toolkit.Prelude.Text.{Text, codes}
use gnosis_vpn_toolkit.Prelude.Exit.{
  ExitCode, success, usage, data_err, no_input, software, cant_creat, temp_fail, no_perm,
}

pub data Stage : Type 0 where
  privileges user network legacy destination upload : Stage

unfoldable pub exit_code : Stage → ExitCode
exit_code privileges = no_perm
exit_code user = usage
exit_code network = data_err
exit_code legacy = no_input
exit_code destination = cant_creat
exit_code upload = software

unfoldable pub show_stage : Stage → Text
show_stage privileges = codes "privileges"
show_stage user = codes "user"
show_stage network = codes "network"
show_stage legacy = codes "legacy files"
show_stage destination = codes "destination"
show_stage upload = codes "upload"

pub record Failure : Type 0 where
  pub stage : Stage
  pub error : Text

pub record Move : Type 0 where
  pub from : Text
  pub to : Text

pub data Difference : Type 0 where
  missing differs : Difference

pub record Mismatch : Type 0 where
  pub legacy : Text
  pub target : Text
  pub difference : Difference

pub record Problem : Type 0 where
  pub path : Text
  pub error : Text

pub record Report : Type 0 where
  pub moved : List Move
  pub removed : List Text
  pub failed : List Problem

abbrev is_nil : {A : Type 0} → List A → Bool
is_nil [] = true
is_nil (_ ∷ _) = false

unfoldable pub is_empty_report : Report → Bool
is_empty_report r = is_nil r.moved && (is_nil r.removed && is_nil r.failed)

unfoldable pub extend : Report → Report → Report
extend r other = record {
  moved = r.moved ++ other.moved;
  removed = r.removed ++ other.removed;
  failed = r.failed ++ other.failed;
}

-- The fields are in the source's order: network, user, then the lists.
pub data Outcome : Type 0 where
  migrated : Text → Text → List Move → List Move → Outcome
  would_migrate : Text → Text → List Move → Outcome
  already_migrated : Text → Text → List Move → Outcome
  nothing_to_migrate : Text → Outcome
  conflict : Text → Text → List Mismatch → Outcome
  started_clean : List Move → Outcome
  relocated : Report → Outcome
  nothing_to_do : Outcome
  uploaded : Text → Outcome
  failed : Stage → Text → Outcome

unfoldable pub from_failure : Failure → Outcome
from_failure f = failed f.stage f.error

unfoldable pub exit_code_of : Outcome → ExitCode
unfolding exit_code
exit_code_of (conflict net account mismatches) = temp_fail
exit_code_of (failed stage error) = exit_code stage
exit_code_of _ = success

unfoldable pub reason : Outcome → Text
unfolding show_stage
reason (conflict net account mismatches) =
    codes "user " ++ (account ++ (codes " already has a different identity on network " ++ net))
reason (failed stage error) = show_stage stage ++ (codes ": " ++ error)
reason _ = codes "ok"

abbrev line : Text → Text
line s = s ++ codes "\n"

write_moves : List Move → Text
write_moves [] = []
write_moves (m ∷ moves) =
    line (codes "  " ++ (m.from ++ (codes " -> " ++ m.to))) ++ write_moves moves

show_difference : Difference → Text
show_difference missing = codes "missing"
show_difference differs = codes "differs"

write_mismatches : List Mismatch → Text
unfolding show_difference
write_mismatches [] = []
write_mismatches (m ∷ ms) =
    line (
      codes "  "
      ++ (m.legacy ++ (codes " -> " ++ (m.target ++ (codes ": " ++ show_difference m.difference)))))
    ++ write_mismatches ms

write_removed : List Text → Text
write_removed [] = []
write_removed (p ∷ ps) = line (codes "  removed " ++ p) ++ write_removed ps

write_problems : List Problem → Text
write_problems [] = []
write_problems (p ∷ ps) =
    line (codes "  FAILED " ++ (p.path ++ (codes ": " ++ p.error))) ++ write_problems ps

-- "… for user U on network N".
abbrev for_user : Text → Text → Text → Text
for_user what net account =
    what ++ (codes " for user " ++ (account ++ (codes " on network " ++ net)))

unfoldable pub show_outcome : Outcome → Text
unfolding write_moves write_mismatches write_removed write_problems is_empty_report show_stage
show_outcome (migrated net account files aside) =
    line (for_user (codes "Migrated the legacy identity") net account ++ codes ":")
    ++ (write_moves files ++ (line (codes "Legacy files moved aside:") ++ write_moves aside))
show_outcome (would_migrate net account files) =
    line (for_user (codes "Dry run: would migrate the legacy identity") net account ++ codes ":")
    ++ write_moves files
show_outcome (already_migrated net account []) =
    for_user (codes "Identity already migrated") net account
    ++ codes "; a run moves the legacy files aside"
show_outcome (already_migrated net account (m ∷ moves)) =
    line (for_user (codes "Identity already migrated") net account)
    ++ (line (codes "Legacy files moved aside:") ++ write_moves (m ∷ moves))
show_outcome (nothing_to_migrate legacy_home) =
    codes "No legacy identity under " ++ (legacy_home ++ codes "; nothing to migrate")
show_outcome (conflict net account mismatches) =
    line (
      codes "User "
      ++ (account
          ++ (codes " already has an identity on network "
              ++ (net ++ codes " that differs from the legacy one:"))))
    ++ (write_mismatches mismatches
        ++ (codes
              "Re-run with --replace to keep the legacy identity (the current one moves to networks/"
            ++ (net
                ++ codes ".replaced-<timestamp>/), or run start-clean to keep the current one.")))
show_outcome (started_clean moved) =
    line (codes "Moved aside for a fresh start:") ++ write_moves moved
show_outcome nothing_to_do = codes "Nothing to move aside"
show_outcome (relocated report) =
    if is_empty_report report
    then codes "Layout already current; nothing to move"
    else line (codes "Moved into the current layout:")
      ++ (write_moves report.moved
          ++ (write_removed report.removed ++ write_problems report.failed))
show_outcome (uploaded uuid) =
    codes "Uploaded the migration log bundle; reference: "
    ++ (uuid ++ codes "\nQuote this reference when reporting the problem.")
show_outcome (failed stage error) = codes "Failed (" ++ (show_stage stage ++ (codes "): " ++ error))

-- `next_steps` of main.rs.
unfoldable pub next_steps : Outcome → Option Text → Text
next_steps (conflict net account mismatches) asked =
    codes "sudo gnosis_vpn-migrate identity --user "
    ++ (unwrap_or asked (codes "<user>")
        ++ codes
            " --replace (keep the legacy identity) | sudo gnosis_vpn-migrate start-clean (keep the current one)")
next_steps _ asked =
    codes "sudo gnosis_vpn-migrate upload-log | sudo gnosis_vpn-migrate identity --user "
    ++ (unwrap_or asked (codes "<user>")
        ++ (codes " [--replace] | sudo gnosis_vpn-migrate start-clean --user "
            ++ unwrap_or asked (codes "<user>")))

abbrev pub IsConflict : Outcome → Type 0
IsConflict o =
    (net : Text) × (account : Text) × (ms : List Mismatch) × (o ≡ conflict net account ms)

abbrev pub IsFailed : Outcome → Type 0
IsFailed o = (stage : Stage) × (error : Text) × (o ≡ failed stage error)

-- What an installer script reads off the exit code: each stage has a code of its own, which a run
-- returns exactly when it failed there; `temp_fail` says exactly that there was a conflict, and
-- success exactly that there was neither a failure nor a conflict.
pub exit_code_of-tells :
    (o : Outcome) (stage : Stage)
    → ((exit_code_of o ≡ exit_code stage) ↔ ((error : Text) × (o ≡ failed stage error)))
      × ((exit_code_of o ≡ temp_fail) ↔ IsConflict o)
      × ((exit_code_of o ≡ success) ↔ ((¬ IsFailed o) × (¬ IsConflict o)))
unfolding exit_code_of
exit_code_of-tells o stage = (
  (λ e. ground arith, λ h. ground arith),
  (λ e. ground arith, λ h. ground arith),
  ((λ e. (λ h. ground arith, λ h. ground arith)), λ h. ground arith),
)
