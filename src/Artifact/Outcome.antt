-- ===== src/Artifact/Outcome.antt =====
-- What a download leaves at the target path.
use gnosis_vpn_toolkit.Prelude.{
  ℕ, true, some, List, [], ◌≡◌, refl, ◌<◌, subst, if◌then◌else◌, ap, ◌∙◌, ◌≢◌, ◌⊎◌, inl, inr, arith,
  All, length, Result, ok, err, Bool-cases, Option-cases, Result-cases,
}
use gnosis_vpn_toolkit.Prelude.Text.{Text, codes, join, text_eq, text_eq_iff}
use gnosis_vpn_toolkit.Manifest.{ChannelRelease}
use gnosis_vpn_toolkit.Resume.Session.{DownloadError, Attempt, Turn, returned, going, prod}
use gnosis_vpn_toolkit.Resume.Loop.{fetch_with_resume, start}
use gnosis_vpn_toolkit.Resume.Loop.Serving.{Serves}
use gnosis_vpn_toolkit.Resume.Loop.Content.{fetch_with_resume_complete}
use gnosis_vpn_toolkit.Artifact.{
  is_absent, is_symlink, remove_file, Node, absent, symlink, file, Answers, Disk, finish,
  open_target, space_check, with_target, safe_artifact_filename, download_artifact,
}

-- The transfer returned a count and its bytes stand at the target; the count is the manifest's, if the
-- manifest states one.
abbrev pub Written : ℕ → Turn → Node → Type 0
Written expected (going s) node = ⊥
Written expected (returned s (err e)) node = ⊥
Written expected (returned s (ok n)) node =
    (node ≡ file s.file.contents) × ((expected ≡ 0) ⊎ (n ≡ expected))

module _ (a : Answers) (expected : ℕ) (path : Text) where
  finish-ok :
      (d : Disk) (turn : Turn) {p : Text} {d' : Disk}
      → finish a expected path d turn ≡ some (ok p, d')
      → (p ≡ path) × Written expected turn d'.target
  unfolding finish
  finish-ok d (going s) h = cc
  finish-ok d (returned s (err e)) h = cc
  finish-ok d (returned s (ok n)) h = ground arith

  open_target-ok :
      (d : Disk) (turn : Turn) {p : Text} {d' : Disk}
      → open_target a expected path d turn ≡ some (ok p, d')
      → (p ≡ path) × Written expected turn d'.target
  unfolding open_target
  open_target-ok d turn h = elim (Bool-cases (is_absent d.target)) [
    | inl free ↦ elim (Result-cases a.open_new) [
      | inl (_, e) ↦
          finish-ok
            (record d { target = file []; file_mode = if a.chmod_file then 0o600 else d.file_mode })
            turn (simp (free, e) at h)
      | inr (_, e) ↦ cc (simp (free, e) at h)
    ]
    | inr taken ↦ cc (rw taken at h)
  ]

  space_check-ok :
      (d : Disk) (turn : Turn) {p : Text} {d' : Disk}
      → space_check a expected path d turn ≡ some (ok p, d')
      → (p ≡ path) × Written expected turn d'.target
  unfolding space_check
  space_check-ok d turn h = ground (arith, open_target-ok d turn)

  -- A package is written only where nothing stood.
  space_check-free :
      (d : Disk) (turn : Turn) {p : Text} {d' : Disk}
      → space_check a expected path d turn ≡ some (ok p, d')
      → is_absent d.target ≡ true
  unfolding space_check open_target
  space_check-free d turn h = ground arith

  with_target-ok :
      (d : Disk) (turn : Turn) {p : Text} {d' : Disk}
      → with_target a expected path d turn ≡ some (ok p, d')
      → (d.target ≢ symlink) × (p ≡ path) × Written expected turn d'.target
  unfolding with_target
  with_target-ok d turn h = elim (Bool-cases a.stat) [
    | inr unknown ↦
        let known = simp unknown at h in
        let (named, written) = space_check-ok d turn known in
        let free = space_check-free d turn known in ((λ e. cc (ap is_absent e)), named, written)
    | inl looked ↦ elim (Bool-cases (is_symlink d.target)) [
      | inl link ↦ cc (simp (looked, link) at h)
      | inr other ↦
          let (named, written) = space_check-ok _ turn (simp (looked, other) at h) in
          ((λ e. cc (ap is_symlink e)), named, written)
    ]
  ]

  finish-clean :
      (d : Disk) (turn : Turn) {e : DownloadError} {d' : Disk}
      → a.remove_partial ≡ true
      → a.flush ≡ ok tt
      → finish a expected path d turn ≡ some (err e, d')
      → d'.target ≡ absent
  unfolding finish remove_file
  finish-clean d (going s) r f h = cc
  finish-clean d (returned s (err e)) r f h = ground arith
  finish-clean d (returned s (ok n)) r f h = ground arith

  open_target-clean :
      (d : Disk) (turn : Turn) {e : DownloadError} {d' : Disk}
      → a.remove_partial ≡ true
      → a.flush ≡ ok tt
      → open_target a expected path d turn ≡ some (err e, d')
      → (d'.target ≡ d.target) ⊎ (d'.target ≡ absent)
  unfolding open_target
  open_target-clean d turn r f h = ground (
    arith,
    finish-clean
        (record d { target = file []; file_mode = if a.chmod_file then 0o600 else d.file_mode })
        turn,
  )

  with_target-clean :
      (d : Disk) (turn : Turn) {e : DownloadError} {d' : Disk}
      → a.remove_partial ≡ true
      → a.flush ≡ ok tt
      → with_target a expected path d turn ≡ some (err e, d')
      → (d'.target ≡ d.target) ⊎ (d'.target ≡ absent)
  unfolding with_target space_check remove_file
  with_target-clean d turn r f h =
      ground
        (arith, open_target-clean d turn, open_target-clean (record d { target = absent }) turn)

module _ (a : Answers) (download_dir : Text) (release : ChannelRelease) (d : Disk)
    (turn : Turn) where
  -- A package path is returned only for an https URL whose last segment is a safe file name, and is
  -- that name in the download directory; the path was no symlink before. The transfer has returned,
  -- its bytes stand at the path, and it counted the manifest's size unless the manifest states none.
  pub download_artifact-ok :
      {p : Text} {d' : Disk}
      → download_artifact a download_dir release d turn ≡ some (ok p, d')
      → (release.download_url.scheme ≡ codes "https")
        × ((name : Text) × (safe_artifact_filename release.download_url ≡ some name)
            × (p ≡ join download_dir name))
        × (d.target ≢ symlink)
        × Written release.size_bytes turn d'.target
  unfolding download_artifact
  download_artifact-ok h = elim (Bool-cases (text_eq release.download_url.scheme (codes "https"))) [
    | inr other ↦ cc (rw other at h)
    | inl secure ↦ elim (Result-cases a.create_dir) [
      | inr (_, failed) ↦ cc (simp (secure, failed) at h)
      | inl (_, made) ↦ elim (Option-cases (safe_artifact_filename release.download_url)) [
        | inl unsafe ↦ cc (simp (secure, made, unsafe) at h)
        | inr (name, safe) ↦
            let (no_link, named, written) =
              with_target-ok a release.size_bytes (join download_dir name)
                (record d { dir_mode = if a.chmod_dir then 0o700 else d.dir_mode }) turn
                (simp (secure, made, safe) at h) in
            (
              (text_eq_iff release.download_url.scheme (codes "https")).0 secure,
              (name, safe, named),
              no_link,
              written,
            )
      ]
    ]
  ]

  -- An error leaves at the target what was there before or nothing, never a partial package, where
  -- the removal of the partial file and the flush succeed.
  pub download_artifact-clean :
      {e : DownloadError} {d' : Disk}
      → a.remove_partial ≡ true
      → a.flush ≡ ok tt
      → download_artifact a download_dir release d turn ≡ some (err e, d')
      → (d'.target ≡ d.target) ⊎ (d'.target ≡ absent)
  unfolding download_artifact
  download_artifact-clean r f h =
      elim (Bool-cases (text_eq release.download_url.scheme (codes "https"))) [
        | inr other ↦ inl (ground arith)
        | inl secure ↦ elim (Result-cases a.create_dir) [
          | inr (_, failed) ↦ inl (ground arith)
          | inl (_, made) ↦ elim (Option-cases (safe_artifact_filename release.download_url)) [
            | inl unsafe ↦ inl (ground arith)
            | inr (name, safe) ↦
                with_target-clean a release.size_bytes (join download_dir name)
                  (record d { dir_mode = if a.chmod_dir then 0o700 else d.dir_mode }) turn r f
                  (simp (secure, made, safe) at h)
          ]
        ]
      ]

  -- A symlink planted at the target is neither removed nor written through: every outcome is an
  -- error and leaves it in place.
  pub download_artifact-symlink :
      {r : Result DownloadError Text} {d' : Disk}
      → d.target ≡ symlink
      → download_artifact a download_dir release d turn ≡ some (r, d')
      → (d'.target ≡ symlink) × ((e : DownloadError) × (r ≡ err e))
  unfolding download_artifact with_target
  download_artifact-symlink link h =
      let seen : is_symlink d.target ≡ true = ap is_symlink link in
      elim (Bool-cases (text_eq release.download_url.scheme (codes "https"))) [
        | inr other ↦ ground arith
        | inl secure ↦ elim (Result-cases a.create_dir) [
          | inr (_, failed) ↦ ground arith
          | inl (_, made) ↦ elim (Option-cases (safe_artifact_filename release.download_url)) [
            | inl unsafe ↦ ground arith
            | inr (name, safe) ↦ ground arith
          ]
        ]
      ]

-- From a server that serves one artifact, not empty, of the size that the manifest states: a package path is
-- returned only when the file there is the artifact, however often the connection dropped.
pub download_artifact-content :
    (artifact : List ℕ) (a : Answers) (download_dir : Text) (release : ChannelRelease) (d : Disk)
    (now : ℕ) (script : List Attempt) {p : Text} {d' : Disk}
    → All (Serves artifact) script
    → release.size_bytes ≡ length artifact
    → 0 < length artifact
    → download_artifact a download_dir release d
        (fetch_with_resume prod release.size_bytes script (start now))
      ≡ some (ok p, d')
    → d'.target ≡ file artifact
download_artifact-content artifact a download_dir release d now script {d' = d'} serves size
      some_bytes h =
    from_turn (fetch_with_resume prod release.size_bytes script (start now)) refl
      (download_artifact-ok a download_dir release d _ h).3
  where
    from_turn :
        (turn : Turn)
        → fetch_with_resume prod release.size_bytes script (start now) ≡ turn
        → Written release.size_bytes turn d'.target
        → d'.target ≡ file artifact
    from_turn (going s) e w = absurd w
    from_turn (returned s (err x)) e w = absurd w
    from_turn (returned s (ok n)) e (stands, sized) =
        let count : n ≡ length artifact = omega arith in
        stands
        ∙ ap file (
            fetch_with_resume_complete artifact prod release.size_bytes now script serves (
              subst
                (λ k.
                  fetch_with_resume prod release.size_bytes script (start now) ≡ returned s (ok k))
                count e))
