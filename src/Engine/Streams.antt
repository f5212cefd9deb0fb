-- ===== src/Engine/Streams.antt =====
-- The stream of statuses that the engine emits.
use mathlib.Core.List.{foldl}
use gnosis_vpn_toolkit.Prelude.{List, [], ◌∷◌, ◌≡◌, arith}
use gnosis_vpn_toolkit.Engine.{
  check, download, verify, install, UpdateStatus, checking, downloading, installing, completed,
  failed, Effect, sent, EngineInput, World,
}
use gnosis_vpn_toolkit.Engine.Run.{run_engine, drive_engine}

abbrev pub statuses : List Effect → List UpdateStatus
statuses [] = []
statuses (sent s ∷ es) = s ∷ statuses es
statuses (_ ∷ es) = statuses es

-- The documented protocol: `Checking`, `Downloading`, `Installing`, then one terminal status. A
-- failure may come after any of the first three, at a stage that fits.
pub data Phase : Type 0 where
  begun checked loading running over broken : Phase

abbrev pub advance : Phase → UpdateStatus → Phase
advance begun checking = checked
advance checked downloading = loading
advance checked (failed check _) = over
advance loading installing = running
advance loading (failed download _) = over
advance loading (failed verify _) = over
advance loading (failed install _) = over
advance running (completed _) = over
advance running (failed install _) = over
advance _ _ = broken

abbrev pub follows_protocol : List UpdateStatus → Phase
follows_protocol = foldl advance begun

module _ (w : World) (input : EngineInput) where
  -- Every run follows the protocol and ends it: one terminal status, and nothing after it.
  pub run_engine-protocol : follows_protocol (statuses (run_engine w input)) ≡ over
  unfolding run_engine drive_engine
  run_engine-protocol = ground arith
