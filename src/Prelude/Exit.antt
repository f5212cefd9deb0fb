-- ===== src/Prelude/Exit.antt =====
-- The exit codes of the crate `exitcode` that the program uses, by name: its constants are
-- distinct.
pub data ExitCode : Type 0 where
  success usage data_err no_input unavailable software cant_creat temp_fail no_perm : ExitCode
