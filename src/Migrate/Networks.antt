-- ===== src/Migrate/Networks.antt =====
-- The data and the cache `networks/` directories of a user, and the renames of a migration in them
-- (`Networks`, `move_aside_in` and `publish` of gnosis_vpn-migrate/src/migrate.rs).
pub mod Publish
pub mod Aside
pub mod Restore
use gnosis_vpn_toolkit.Prelude.{
  ℕ, Bool, true, false, Option, none, some, List, [], ◌∷◌, ◌++◌, Result, ok, err, if◌then◌else◌,
}
use gnosis_vpn_toolkit.Prelude.Text.{Text, codes, join}
use gnosis_vpn_toolkit.FilePath.{file_name}
use gnosis_vpn_toolkit.Migrate.Outcome.{Stage, destination, Failure, Move}
use gnosis_vpn_toolkit.Migrate.Dirs.{Dir, Host, exists, rename, unique_name}

-- The two directories, with their paths for reporting.
pub record Networks : Type 0 where
  pub data_dir : Dir
  pub cache_dir : Dir
  pub data_path : Text
  pub cache_path : Text

pub record Hosts : Type 0 where
  pub data_host : Host
  pub cache_host : Host

abbrev with_path : Text → Text → Text
with_path path e = path ++ (codes ": " ++ e)

abbrev pub destination_failure : Text → Text → Failure
destination_failure path e = record { stage = destination; error = with_path path e }

rename_failed : Text → Text → Text → Text → Failure
rename_failed path staging network e = record {
  stage = destination;
  error = join path staging ++ (codes " -> " ++ (network ++ (codes ": " ++ e)));
}

-- The loop that syncs both directories.
pub sync_both : Hosts → Networks → Result Failure (Unit {0})
sync_both hosts ns = elim hosts.data_host.sync_error [
  | some e ↦ err (destination_failure ns.data_path e)
  | none ↦ elim hosts.cache_host.sync_error [
    | some e ↦ err (destination_failure ns.cache_path e)
    | none ↦ ok tt
  ]
]

-- Taking the published data directory back; when that fails it is logged and left.
take_back : Hosts → Networks → Dir → Text → Text → Networks
take_back hosts ns published staging network =
    elim (rename hosts.data_host published network staging) [
      | err e ↦ record ns { data_dir = published }
      | ok restored ↦ record ns { data_dir = restored }
    ]

unfoldable pub publish : Hosts → Networks → Text → Text → Result Failure (Unit {0}) × Networks
unfolding sync_both take_back rename_failed join
publish hosts ns staging network = elim (rename hosts.data_host ns.data_dir staging network) [
  | err e ↦ (err (rename_failed ns.data_path staging network e), ns)
  | ok published ↦ elim (rename hosts.cache_host ns.cache_dir staging network) [
    | err e ↦ (
      err (rename_failed ns.cache_path staging network e),
      take_back hosts ns published staging network,
    )
    | ok cache ↦ (sync_both hosts ns, record ns { data_dir = published; cache_dir = cache })
  ]
]

-- `{network}.{reason}-{ts}`
abbrev pub aside_name : Text → Text → Text → Text
aside_name network reason ts = network ++ (codes "." ++ (reason ++ (codes "-" ++ ts)))

-- `none` while the search for a name has not ended.
unfoldable pub move_aside_in :
    Host → Dir → Text → Text → Text → Text → Option (Result Failure (Option Move × Dir))
unfolding join
move_aside_in h d path network reason ts =
    let from = join path network in
    elim (exists h d network) [
      | err e ↦ some (err (destination_failure from e))
      | ok present ↦
          if present
          then elim (unique_name h d (aside_name network reason ts)) [
            | none ↦ none
            | some (err e) ↦ some (err (destination_failure from e))
            | some (ok aside) ↦ elim (rename h d network aside) [
              | err e ↦ some (err (destination_failure from e))
              | ok d' ↦ some (ok (some (record { from = from; to = join path aside }), d'))
            ]
          ]
          else some (ok (none, d))
    ]

pub data Place : Type 0 where
  on_data on_cache : Place

-- `side`, and the change of a side's directory.
abbrev pub side : Networks → Place → Dir × Text
side ns on_data = (ns.data_dir, ns.data_path)
side ns on_cache = (ns.cache_dir, ns.cache_path)

abbrev pub host_of : Hosts → Place → Host
host_of hosts on_data = hosts.data_host
host_of hosts on_cache = hosts.cache_host

abbrev pub with_side : Networks → Place → Dir → Networks
with_side ns on_data d = record ns { data_dir = d }
with_side ns on_cache d = record ns { cache_dir = d }

-- One round of `restore`; a failed undo is only logged.
restore_one : Hosts → Networks → Place → Option Text → Option Text → Networks
restore_one hosts ns place (some original) (some aside) =
    elim (rename (host_of hosts place) (side ns place).0 aside original) [
      | ok d ↦ with_side ns place d
      | err e ↦ ns
    ]
restore_one hosts ns place none aside = ns
restore_one hosts ns place (some original) none = ns

unfoldable pub restore : Hosts → Networks → List (Place × Move) → Networks
unfolding restore_one file_name
restore hosts ns [] = ns
restore hosts ns ((place, m) ∷ moved) =
    restore hosts (restore_one hosts ns place (file_name m.from) (file_name m.to)) moved

-- The loop of `move_aside` from one side on, with what has been moved before.
abbrev pub MovedAside : Type 0
MovedAside = Result Failure (List (Place × Move)) × Networks

cache_aside : Hosts → Networks → List (Place × Move) → Text → Text → Text → Option MovedAside
cache_aside hosts ns moved network reason ts =
    elim (move_aside_in hosts.cache_host ns.cache_dir ns.cache_path network reason ts) [
      | none ↦ none
      | some (err e) ↦ some (err e, restore hosts ns moved)
      | some (ok (none, d)) ↦ some (ok moved, record ns { cache_dir = d })
      | some (ok (some m, d)) ↦
          some (ok (moved ++ ((on_cache, m) ∷ [])), record ns { cache_dir = d })
    ]

unfoldable pub move_aside : Hosts → Networks → Text → Text → Text → Option MovedAside
unfolding cache_aside
move_aside hosts ns network reason ts =
    elim (move_aside_in hosts.data_host ns.data_dir ns.data_path network reason ts) [
      | none ↦ none
      | some (err e) ↦ some (err e, restore hosts ns [])
      | some (ok (none, d)) ↦ cache_aside hosts (record ns { data_dir = d }) [] network reason ts
      | some (ok (some m, d)) ↦
          cache_aside hosts (record ns { data_dir = d }) ((on_data, m) ∷ []) network reason ts
    ]
