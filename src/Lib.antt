-- ===== src/Lib.antt =====
-- The Gnosis VPN toolkit: a model of the updater `gnosis_vpn-update` and of the migration
-- program `gnosis_vpn-migrate`, with their theorems.
--
-- The updater fetches a manifest of releases, decides whether the channel's release may replace the
-- installed version, downloads the package over a link that drops, checks its digest, and runs the
-- macOS installer while it moves its own running binary aside. Two commands drive this: the check,
-- which only decides, and the update, which goes all the way. The migration program moves an identity
-- of an older layout into a user's directories: it stages a copy, moves what is there aside, and
-- renames the copy into place.
--
-- Files and what they model:
--   Version      `compare_components`, `channel_of_version` (gnosis_vpn-update/src/update/mod.rs),
--                `Channel` (gnosis_vpn-update/src/manifest.rs)
--   Manifest     the manifest's data and `pick`; Manifest/Download: `download`, `fetch` (manifest.rs)
--   Gate         `ensure_installable`, `end_of_life_for` (update/mod.rs)
--   Check        `check` and its display (update/mod.rs); Check/Command: `run_check`
--                (gnosis_vpn-update/src/main.rs), `read_installed_version`
--                (gnosis_vpn-toolkit-common/src/package_version.rs)
--   Resume       `fetch_with_resume` (gnosis_vpn-update/src/update/download.rs)
--   Artifact     `download_artifact`, `safe_artifact_filename`; Artifact/Digest: `verify_sha256`
--                (update/mod.rs)
--   SelfUpdate   the rename-aside (gnosis_vpn-update/src/update/self_update.rs)
--   Choices      the installer choices (gnosis_vpn-update/src/update/choices.rs)
--   Engine       `run_engine`, `drive_engine` (update/mod.rs); Engine/Command: `run_update` (main.rs)
--   Migrate      gnosis_vpn-migrate/src: Migrate/Outcome: what a run reports (migrate.rs, relocate.rs,
--                main.rs); Migrate/Network: `from_config_link` (network.rs); Migrate/Dirs: names in a
--                held directory (nofollow.rs, `unique_name` of migrate.rs); Migrate/Networks:
--                `Networks::move_aside`, `restore`, `publish` (migrate.rs); Migrate/Upload: `send`
--                (upload.rs); Migrate/Layout: the paths (layout.rs); Migrate/User: `resolve` (user.rs);
--                Migrate/Store: a file system, its system calls and the rules for commands on it;
--                Migrate/Nofollow: the no-follow operations (nofollow.rs); Migrate/Relocate: the
--                moves into the current layout (relocate.rs); Migrate/Legacy: `Legacy::find` and
--                `plan`, Migrate/Target: `Target`, Migrate/Staging: `stage`, `copy_verified`,
--                Migrate/Sweep: `secure_leftovers`, Migrate/Aside: `start_clean` and what is moved
--                aside, Migrate/Identity: `migrate_identity` (migrate.rs); Migrate/Command: the
--                commands identity, start-clean and layout (main.rs); Migrate/Logging: the log file
--                (gnosis_vpn-toolkit-common/src/logging.rs)
--   Prelude, FilePath, Samples: shared lists, texts, results, `std::path`, and the tests' data
--
-- How the code is read. A text is the list of its bytes. A function that may fail returns
-- a result; a call into the environment is an answer that the definitions take: for the download
-- loop a script of attempts, each with its durations and what the server replies to a request, for
-- the package a record of the file system's answers, for the engine a record of what its components
-- return. The download loop goes through the script and is still going when it ends. An instant is
-- a number of nanoseconds.
-- Counts of bytes are not bounded by 2^64, since no file is that long; the needed space, which the
-- code computes from the manifest's number, keeps its wrap-around. `reqwest`, `url`, `serde_json`,
-- `backon` and `sha2` are parameters.
--
-- The file system of the migration is a store of numbered nodes: files with their bytes, directories
-- with their names, symlinks and special files, each with an owner, a mode and a number of links. A
-- handle is the number of its node. A system call does what POSIX documents of it, or is refused with
-- an error that the code does not tell from others, as a list of faults says; a refused call changes
-- nothing, and no other process changes the store meanwhile. Reading or writing a file goes over the
-- whole of it, and a listing of a directory is taken at once. The recursions over a tree have a
-- number of rounds; the theorems ask for more of them than the tree is deep, by a rank that falls
-- from a directory to what it names, and then show that they do not run out. The password database
-- and the digest are parameters. A change of owner keeps the mode: whether it clears the set-user-id
-- and set-group-id bits when root makes it is up to the system. The log file of a run is opened, and
-- created where it is missing; the lines that go to it are left out. The search for a free name on
-- the store takes the same rounds.
--
-- In Migrate/Dirs and Migrate/Networks, which look at the names of two directories alone, a directory
-- is a list of names, each with a number for what stands there; other
-- processes do not change it meanwhile, and each system call on given names succeeds or fails by
-- what its host says. The search for a free name has a round for each entry and one more.
--
-- The package's rule for which installer choices may be changed is a parameter, with what
-- gnosis_vpn-update/src/update/choices.rs says of it as a hypothesis.
--
-- Not modelled: log lines, JSON output, the loader window, the process that runs the installer, the
-- parsing of the command lines; of `gnosis_vpn-migrate` the text of the log bundle and the commands
-- upload-log and version.
pub mod Prelude
pub mod FilePath
pub mod Version
pub mod Manifest
pub mod Gate
pub mod Check
pub mod Resume
pub mod Artifact
pub mod SelfUpdate
pub mod Choices
pub mod Engine
pub mod Migrate
pub mod Samples
