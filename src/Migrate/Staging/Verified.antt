-- ===== src/Migrate/Staging/Verified.antt =====
-- A copy that is reported has the digest of the plan.
use gnosis_vpn_toolkit.Prelude.{ℕ, [], ◌≡◌, Result, ok, err, unwrap_or, if◌then◌else◌}
use gnosis_vpn_toolkit.Prelude.Text.{Text, text_eq, text_eq_iff, join}
use gnosis_vpn_toolkit.FilePath.{parent, file_name}
use gnosis_vpn_toolkit.Migrate.Outcome.{Failure}
use gnosis_vpn_toolkit.Migrate.Layout.{file_mode}
use gnosis_vpn_toolkit.Migrate.Store.{
  IoError, regular, Store, World, Process, Answer, done, failed, unfinished,
}
use gnosis_vpn_toolkit.Migrate.Store.Failing.{succeed, refuse, or_fail, ◌>>=◌, ◌>>◌}
use gnosis_vpn_toolkit.Migrate.Store.Calls.{read_file, write_file, rewind}
use gnosis_vpn_toolkit.Migrate.Store.Triples.{
  Meets, Triple-pure, Triple-weaken, Triple-if, Triple-fact,
}
use gnosis_vpn_toolkit.Migrate.Store.Steady.{synchronise-Triple}
use gnosis_vpn_toolkit.Migrate.Store.Verdicts.{
  Any, Never, Verdict, Returns, Returns-or_fail, Returns-bind,
}
use gnosis_vpn_toolkit.Migrate.User.{Account, chown}
use gnosis_vpn_toolkit.Migrate.Nofollow.{create_file, sync}
use gnosis_vpn_toolkit.Migrate.Legacy.{Planned, legacy_failure}
use gnosis_vpn_toolkit.Migrate.Target.{destination_error}
use gnosis_vpn_toolkit.Migrate.Staging.{subdir, copy_verified, differs_after_copy}
use gnosis_vpn_toolkit.Migrate.Staging.Copying.{
  Private, Given, Holds, rewind-Triple, read_file-Triple, create_file-Triple, write_file-Triple,
  chown-Triple, subdir-Triple,
}

module _ (sha256 : Text → Text) (planned : Planned) (staging : ℕ) (account : Account) where
  abbrev pub file_at : Text
  unfolding file_name
  file_at = unwrap_or (file_name planned.rel) []

  -- The copy: where it stands, what it holds and whose it is.
  abbrev pub Copied : Unit {0} → Store → Type 0
  Copied _ s =
      (dir : ℕ) × (copy : ℕ) × (bytes : Text) × Holds staging (parent planned.rel) dir
      × ((s.node_at copy).kind ≡ regular bytes)
      × (sha256 bytes ≡ planned.sha256)
      × Given account dir file_at copy s

  module _ (p : Process) (dest : IoError → Failure) (failure : Failure) (dir : ℕ)
      (holds : Holds staging (parent planned.rel) dir) where
    -- The last reading of the copy decides.
    checked :
        (copy : ℕ) (copied : Text)
        → Returns
            (λ s. ((s.node_at copy).kind ≡ regular copied) × Given account dir file_at copy s)
            (if text_eq (sha256 copied) planned.sha256 then succeed tt else refuse failure)
            Copied
    checked copy copied =
        Triple-if Never Never
          (λ s. ((s.node_at copy).kind ≡ regular copied) × Given account dir file_at copy s)
          (Verdict Copied) (text_eq (sha256 copied) planned.sha256) (succeed tt) (refuse failure)
          (λ same.
            Triple-pure Never Never
              (λ s. ((s.node_at copy).kind ≡ regular copied) × Given account dir file_at copy s)
              (Verdict Copied) (ok tt)
              (λ s (holds_bytes, given). (
                dir,
                copy,
                copied,
                holds,
                holds_bytes,
                (text_eq_iff (sha256 copied) planned.sha256).0 same,
                given,
              )))
          (λ other.
            Triple-pure Never Never
              (λ s. ((s.node_at copy).kind ≡ regular copied) × Given account dir file_at copy s)
              (Verdict Copied) (err failure) (λ s h. tt))

    read_back :
        (copy : ℕ)
        → Returns
            (Given account dir file_at copy)
            (or_fail dest (sync copy)
              >> (or_fail dest (sync dir)
                  >> (or_fail dest (rewind copy)
                      >> (or_fail dest (read_file copy) >>= λ copied.
                          if text_eq (sha256 copied) planned.sha256
                          then succeed tt
                          else refuse failure))))
            Copied
    read_back copy =
        let G = Given account dir file_at copy in
        Returns-bind G (λ _ s. G s) Copied (or_fail dest (sync copy)) _
          (Returns-or_fail G (λ _ s. G s) dest (sync copy)
            (synchronise-Triple Any Never G (λ s h. tt) copy))
          (λ a.
            Returns-bind G (λ _ s. G s) Copied (or_fail dest (sync dir)) _
              (Returns-or_fail G (λ _ s. G s) dest (sync dir)
                (synchronise-Triple Any Never G (λ s h. tt) dir))
              (λ b.
                Returns-bind G (λ _ s. G s) Copied (or_fail dest (rewind copy)) _
                  (Returns-or_fail G (λ _ s. G s) dest (rewind copy) (rewind-Triple G copy))
                  (λ c.
                    Returns-bind G (λ copied s. ((s.node_at copy).kind ≡ regular copied) × G s)
                      Copied (or_fail dest (read_file copy)) _
                      (Returns-or_fail G
                        (λ copied s. ((s.node_at copy).kind ≡ regular copied) × G s) dest
                        (read_file copy) (read_file-Triple G copy))
                      (checked copy))))

    written :
        (copy : ℕ) (bytes : Text)
        → Returns
            (Private dir file_at copy)
            (or_fail dest (write_file copy bytes)
              >> (or_fail dest (chown copy account)
                  >> (or_fail dest (sync copy)
                      >> (or_fail dest (sync dir)
                          >> (or_fail dest (rewind copy)
                              >> (or_fail dest (read_file copy) >>= λ copied.
                                  if text_eq (sha256 copied) planned.sha256
                                  then succeed tt
                                  else refuse failure))))))
            Copied
    written copy bytes =
        let Q = Private dir file_at copy in
        Returns-bind Q (λ _ s. Q s) Copied (or_fail dest (write_file copy bytes)) _
          (Returns-or_fail Q (λ _ s. Q s) dest (write_file copy bytes)
            (write_file-Triple dir file_at copy bytes))
          (λ a.
            Returns-bind Q (λ _ s. Given account dir file_at copy s) Copied
              (or_fail dest (chown copy account)) _
              (Returns-or_fail Q (λ _ s. Given account dir file_at copy s) dest (chown copy account)
                (chown-Triple dir file_at copy account))
              (λ b. read_back copy))

  copy_verified-Returns :
      (p : Process) (staging_path : Text)
      → Returns Any (copy_verified sha256 p planned staging staging_path account) Copied
  unfolding copy_verified
  copy_verified-Returns p staging_path =
      let dest = destination_error (join staging_path planned.rel) in
      let failure = differs_after_copy (join staging_path planned.rel) planned in
      Returns-bind Any (λ dir s. Holds staging (parent planned.rel) dir × Any s) Copied
        (or_fail dest (subdir p account staging (parent planned.rel))) _
        (Returns-or_fail Any (λ dir s. Holds staging (parent planned.rel) dir × Any s) dest
          (subdir p account staging (parent planned.rel))
          (Triple-weaken Any Never Any Any (λ dir s. Holds staging (parent planned.rel) dir)
            (λ dir s. Holds staging (parent planned.rel) dir × Any s)
            (subdir p account staging (parent planned.rel)) (λ s h. h) (λ dir s h. (h, tt))
            (subdir-Triple p account staging (parent planned.rel))))
        (λ dir.
          Triple-fact Never Never (Holds staging (parent planned.rel) dir) Any (Verdict Copied) _
            (λ holds.
              Returns-bind Any (λ _ s. Any s) Copied
                (or_fail (legacy_failure planned.from) (rewind planned.source)) _
                (Returns-or_fail Any (λ _ s. Any s) (legacy_failure planned.from)
                  (rewind planned.source) (rewind-Triple Any planned.source))
                (λ a.
                  Returns-bind Any (Private dir file_at) Copied
                    (or_fail dest (create_file p dir file_at file_mode)) _
                    (Returns-or_fail Any (Private dir file_at) dest
                      (create_file p dir file_at file_mode) (create_file-Triple p dir file_at))
                    (λ copy.
                      Returns-bind (Private dir file_at copy) (λ _ s. Private dir file_at copy s)
                        Copied (or_fail dest (read_file planned.source)) _
                        (Returns-or_fail (Private dir file_at copy)
                          (λ _ s. Private dir file_at copy s) dest (read_file planned.source)
                          (Triple-weaken Any Never (Private dir file_at copy)
                            (Private dir file_at copy)
                            (λ bytes s.
                              ((s.node_at planned.source).kind ≡ regular bytes)
                              × Private dir file_at copy s)
                            (λ _ s. Private dir file_at copy s) (read_file planned.source)
                            (λ s h. h) (λ bytes s h. h.1)
                            (read_file-Triple (Private dir file_at copy) planned.source)))
                        (written p dest failure dir holds copy)))))

-- The ends of a call.
abbrev pub CopyEnds :
    (Text → Text) → Planned → ℕ → Account → Answer (Result Failure (Unit {0})) × World → Type 0
CopyEnds sha256 planned staging account (done (ok _), w) =
    Copied sha256 planned staging account tt w.store
CopyEnds sha256 planned staging account (done (err f), w) = Unit
CopyEnds sha256 planned staging account (failed e, w) = ⊥
CopyEnds sha256 planned staging account (unfinished, w) = ⊥

Meets-CopyEnds :
    (sha256 : Text → Text) (planned : Planned) (staging : ℕ) (account : Account)
    (r : Answer (Result Failure (Unit {0})) × World)
    → Meets (Verdict (Copied sha256 planned staging account)) Never Never r
    → CopyEnds sha256 planned staging account r
Meets-CopyEnds sha256 planned staging account (done (ok a), w) h = h
Meets-CopyEnds sha256 planned staging account (done (err f), w) h = h
Meets-CopyEnds sha256 planned staging account (failed e, w) h = h
Meets-CopyEnds sha256 planned staging account (unfinished, w) h = h

-- A verified copy returns, whatever calls the kernel refuses, with a failure or a success. After a
-- success the file's name, in the staging directory where the plan names no other, stands for a file
-- whose bytes have the digest of the plan, which belongs to the account and which only its owner may
-- read and write.
pub copy_verified-Ends :
    (sha256 : Text → Text) (p : Process) (planned : Planned) (staging : ℕ) (staging_path : Text)
    (account : Account) (w : World)
    → CopyEnds sha256 planned staging account
        (copy_verified sha256 p planned staging staging_path account w)
copy_verified-Ends sha256 p planned staging staging_path account w =
    Meets-CopyEnds sha256 planned staging account
      (copy_verified sha256 p planned staging staging_path account w)
      ((copy_verified-Returns sha256 planned staging account p staging_path).at w tt)
