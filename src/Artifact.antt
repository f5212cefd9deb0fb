-- ===== src/Artifact.antt =====
-- The download of the package to a root-owned directory: file name, preflight, transfer, size
-- (`safe_artifact_filename`, `download_artifact` in gnosis_vpn-update/src/update/mod.rs).
pub mod Naming
pub mod Outcome
pub mod Digest
mod Tests
use gnosis_vpn_toolkit.Prelude.{
  ℕ, ◌+◌, ◌*◌, ◌%◌, ◌^◌, Bool, true, false, not, ◌&&◌, ◌||◌, Option, none, some, List, [], ◌∷◌,
  ◌++◌, ◌==◌, ltb, if◌then◌else◌, Result, ok, err,
}
use gnosis_vpn_toolkit.Prelude.Text.{Text, codes, is_empty, text_eq, join, u64_mod}
use gnosis_vpn_toolkit.FilePath.{Component, normal, components, get_last?}
use gnosis_vpn_toolkit.Manifest.{Url, ChannelRelease}
use gnosis_vpn_toolkit.Resume.Session.{
  DownloadError, io, insufficient_space, symlink_download_path, size_mismatch, insecure_url,
  invalid_filename, Session, Turn, returned, going,
}

single_normal : List Component → Option Text
single_normal (normal name ∷ []) = some name
single_normal _ = none

of_segment : Text → Option Text
unfolding single_normal components
of_segment segment = if is_empty segment then none else single_normal (components segment)

unfoldable pub safe_artifact_filename : Url → Option Text
unfolding of_segment get_last?
safe_artifact_filename url = elim url.path_segments [
  | none ↦ none
  | some segments ↦ elim (get_last? segments) [ none ↦ none | some segment ↦ of_segment segment ]
]

-- `FREE_SPACE_HEADROOM`
abbrev pub free_space_headroom : ℕ
free_space_headroom = 500 * 1024 * 1024

-- What stands at the target path.
pub data Node : Type 0 where
  absent symlink : Node
  file : List ℕ → Node

-- The answers of the file system: the outcome of each call that the code makes, in its order. The
-- permission calls, the look at the target and the clean-up calls only succeed or not, and the code
-- goes on either way.
pub record Answers : Type 0 where
  pub create_dir : Result Text (Unit {0})
  pub chmod_dir : Bool
  pub stat : Bool
  pub remove_old : Bool
  pub free : Option ℕ
  pub open_new : Result Text (Unit {0})
  pub chmod_file : Bool
  pub remove_partial : Bool
  pub flush : Result Text (Unit {0})

-- The target and the modes that the code sets.
pub record Disk : Type 0 where
  pub target : Node
  pub dir_mode : ℕ
  pub file_mode : ℕ

abbrev pub Downloaded : Type 0
Downloaded = Result DownloadError Text × Disk

remove_file : Bool → Disk → Disk
remove_file true d = record d { target = absent }
remove_file false d = d

abbrev pub is_symlink : Node → Bool
is_symlink symlink = true
is_symlink _ = false

abbrev pub is_absent : Node → Bool
is_absent absent = true
is_absent _ = false

-- `expected + FREE_SPACE_HEADROOM` on `u64`, as a release build computes it.
unfoldable pub needed_space : ℕ → ℕ
needed_space expected = (expected + free_space_headroom) % u64_mod

module _ (a : Answers) (expected : ℕ) (path : Text) where
  -- After the transfer; `none` while it has not returned.
  finish : Disk → Turn → Option Downloaded
  unfolding remove_file
  finish d (going s) = none
  finish d (returned s (err e)) =
      some (err e, remove_file a.remove_partial (record d { target = file s.file.contents }))
  finish d (returned s (ok bytes_done)) =
      let written : Disk = record d { target = file s.file.contents } in
      elim a.flush [
        | err e ↦ some (err (io e), written)
        | ok _ ↦
            if not (expected == 0) && not (bytes_done == expected)
            then some
                (err (size_mismatch expected bytes_done), remove_file a.remove_partial written)
            else some (ok path, written)
      ]

  -- Opening with `create_new` refuses a path where something stands.
  open_target : Disk → Turn → Option Downloaded
  unfolding finish
  open_target d turn =
      if not (is_absent d.target)
      then some (err (io (codes "File exists")), d)
      else elim a.open_new [
        | err e ↦ some (err (io e), d)
        | ok _ ↦
            finish
              (record d {
                target = file [];
                file_mode = if a.chmod_file then 0o600 else d.file_mode;
              })
              turn
      ]

  space_check : Disk → Turn → Option Downloaded
  unfolding open_target needed_space
  space_check d turn = elim a.free [
    | none ↦ open_target d turn
    | some free ↦
        if ltb free (needed_space expected)
        then some (err (insufficient_space (needed_space expected) free), d)
        else open_target d turn
  ]

  with_target : Disk → Turn → Option Downloaded
  unfolding space_check remove_file
  with_target d turn =
      if not a.stat
      then space_check d turn
      else if is_symlink d.target
      then some (err symlink_download_path, d)
      else space_check (if is_absent d.target then d else remove_file a.remove_old d) turn

unfoldable pub download_artifact : Answers → Text → ChannelRelease → Disk → Turn → Option Downloaded
unfolding with_target safe_artifact_filename join
download_artifact a download_dir release d turn =
    if not (text_eq release.download_url.scheme (codes "https"))
    then some (err (insecure_url release.download_url.scheme), d)
    else elim a.create_dir [
      | err e ↦ some (err (io e), d)
      | ok _ ↦
          let private = record d { dir_mode = if a.chmod_dir then 0o700 else d.dir_mode } in
          elim (safe_artifact_filename release.download_url) [
            | none ↦ some (err (invalid_filename release.download_url.text), private)
            | some filename ↦
                with_target a release.size_bytes (join download_dir filename) private turn
          ]
    ]
