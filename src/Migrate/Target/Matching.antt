-- ===== src/Migrate/Target/Matching.antt =====
-- A comparison without mismatches.
use gnosis_vpn_toolkit.Prelude.{
  ℕ, not, Option, none, some, List, [], ◌∷◌, ◌++◌, All, ◌≡◌, refl, sym, ◌∙◌, subst, inl, inr, arith,
  Result, ok, err, if◌then◌else◌, Bool-cases,
}
use gnosis_vpn_toolkit.Prelude.Text.{Text, text_eq, text_eq_iff}
use gnosis_vpn_toolkit.Migrate.Outcome.{Failure, Mismatch, missing, differs}
use gnosis_vpn_toolkit.Migrate.Store.{
  IoError, regular, Store, World, Process, Answer, done, failed, unfinished,
}
use gnosis_vpn_toolkit.Migrate.Store.Failing.{or_fail}
use gnosis_vpn_toolkit.Migrate.Store.Calls.{read_file}
use gnosis_vpn_toolkit.Migrate.Store.Triples.{
  Meets, Triple, Triple-pure, Triple-syscall, Triple-bind, Triple-weaken, Triple-fact,
}
use gnosis_vpn_toolkit.Migrate.Store.Verdicts.{
  Any, Never, Verdict, Returns, Returns-or_fail, Returns-bind,
}
use gnosis_vpn_toolkit.Migrate.Staging.Copying.{read_file-Triple}
use gnosis_vpn_toolkit.Migrate.Nofollow.{open_home}
use gnosis_vpn_toolkit.Migrate.Legacy.{Planned}
use gnosis_vpn_toolkit.Migrate.Target.{
  Target, open_target, mismatch, compare_file, compare_each, path, destination_error, compare,
}
use gnosis_vpn_toolkit.Migrate.Target.Comparing.{Still, AtTarget, Maybe, open_target-At}

append_nil_parts : {A : Type 0} (xs ys : List A) → xs ++ ys ≡ [] → (xs ≡ []) × (ys ≡ [])
append_nil_parts [] ys e = (refl, e)
append_nil_parts (x ∷ xs) ys e = cc

module _ (sha256 : Text → Text) (start : Store) (t : Target) (home : ℕ) where
  -- The file is at its place in the destination, with the digest of the plan.
  abbrev pub Matches : Planned → Type 0
  Matches planned =
      (file : ℕ) × (bytes : Text) × AtTarget start t home planned file
      × ((start.node_at file).kind ≡ regular bytes)
      × (sha256 bytes ≡ planned.sha256)

  abbrev Judged : Planned → List Mismatch → Store → Type 0
  Judged planned ms s = (ms ≡ [] → Matches planned) × Still start s

  judge :
      (planned : Planned) (file : ℕ) (at : AtTarget start t home planned file) (bytes : Text)
      → (start.node_at file).kind ≡ regular bytes
      → (if not (text_eq (sha256 bytes) planned.sha256) then mismatch t planned differs else [])
        ≡ []
      → Matches planned
  unfolding mismatch
  judge planned file at bytes held nothing =
      elim (Bool-cases (text_eq (sha256 bytes) planned.sha256)) [
        | inl same ↦ (file, bytes, at, held, (text_eq_iff (sha256 bytes) planned.sha256).0 same)
        | inr other ↦ absurd (ground arith)
      ]

  compare_file-Judged :
      (planned : Planned) (file : Option ℕ)
      → Returns
          (Maybe start t home planned file)
          (compare_file sha256 t planned file)
          (Judged planned)
  unfolding compare_file mismatch
  compare_file-Judged planned none =
      Triple-pure Never Never (Still start) (Verdict (Judged planned))
        (ok (mismatch t planned missing)) (λ s h. (λ e. absurd (cc e), h))
  compare_file-Judged planned (some file) =
      Triple-fact Never Never (AtTarget start t home planned file) (Still start)
        (Verdict (Judged planned)) _
        (λ at.
          Returns-bind (Still start)
            (λ bytes s. ((s.node_at file).kind ≡ regular bytes) × Still start s) (Judged planned)
            (or_fail (destination_error (path t planned)) (read_file file)) _
            (Returns-or_fail (Still start)
              (λ bytes s. ((s.node_at file).kind ≡ regular bytes) × Still start s)
              (destination_error (path t planned)) (read_file file)
              (read_file-Triple (Still start) file))
            (λ bytes.
              Triple-pure Never Never (λ s. ((s.node_at file).kind ≡ regular bytes) × Still start s)
                (Verdict (Judged planned)) _
                (λ s (held, still). (
                  judge planned file at bytes
                      (subst (λ u. (u.node_at file).kind ≡ regular bytes) still held),
                  still,
                ))))

  abbrev pub AllJudged : List Planned → List Mismatch → List Mismatch → Store → Type 0
  AllJudged plan before ms s = (ms ≡ [] → (before ≡ []) × All Matches plan) × Still start s

  pub compare_each-Judged :
      (plan : List Planned) (before : List Mismatch)
      → Returns (Still start) (compare_each sha256 t home plan before) (AllJudged plan before)
  unfolding compare_each
  compare_each-Judged [] before =
      Triple-pure Never Never (Still start) (Verdict (AllJudged [] before)) (ok before)
        (λ s h. (λ e. (e, tt), h))
  compare_each-Judged (planned ∷ rest) before =
      Triple-bind Never Never (Still start) (Maybe start t home planned)
        (Verdict (AllJudged (planned ∷ rest) before)) (open_target t home planned) _
        (open_target-At start t home planned)
        (λ file.
          Returns-bind (Maybe start t home planned file) (Judged planned)
            (AllJudged (planned ∷ rest) before) (compare_file sha256 t planned file) _
            (compare_file-Judged planned file)
            (λ more.
              Triple-fact Never Never (more ≡ [] → Matches planned) (Still start)
                (Verdict (AllJudged (planned ∷ rest) before)) _
                (λ here.
                  Triple-weaken Never Never (Still start) (Still start)
                    (Verdict (AllJudged rest (before ++ more)))
                    (Verdict (AllJudged (planned ∷ rest) before)) _ (λ s h. h) (both here)
                    (compare_each-Judged rest (before ++ more)))))
    where
      both :
          {more : List Mismatch}
          → (more ≡ [] → Matches planned)
          → (r : Result Failure (List Mismatch)) (s : Store)
          → Verdict (AllJudged rest (before ++ more)) r s
          → Verdict (AllJudged (planned ∷ rest) before) r s
      both {more} here (ok ms) s (all, still) = (
        λ e.
            let (nil, matches) = all e in
            let (b, m) = append_nil_parts before more nil in (b, (here m, matches)),
        still,
      )
      both here (err f) s h = h

module _ (sha256 : Text → Text) (p : Process) (start : Store) (t : Target)
    (plan : List Planned) where
  -- Without mismatches, the home is there and each planned file is at its place with its digest.
  abbrev pub AllMatch : Type 0
  AllMatch =
      (home : ℕ) × (p.directory_at start t.home ≡ ok home) × All (Matches sha256 start t home) plan

  abbrev Compared : List Mismatch → Store → Type 0
  Compared ms s = (ms ≡ [] → AllMatch) × Still start s

  home_known :
      (r : Result IoError ℕ) (s : Store) {home : ℕ} {s' : Store}
      → elim r as (λ _. Result IoError (ℕ × Store)) [ err e ↦ err e | ok d ↦ ok (d, s) ]
        ≡ ok (home, s')
      → (r ≡ ok home) × (s ≡ s')
  home_known (ok d) s e = ground arith
  home_known (err x) s e = cc

  open_home-Known :
      Triple Any Never
        (Still start)
        (open_home p t.home)
        (λ home s. (p.directory_at start t.home ≡ ok home) × Still start s)
  unfolding open_home
  open_home-Known =
      Triple-syscall Any Never (Still start)
        (λ home s. (p.directory_at start t.home ≡ ok home) × Still start s) _ (λ s h. tt)
        (λ s home s' h ends.
          let (known, same) = home_known (p.directory_at s t.home) s ends in
          (subst (λ u. p.directory_at u t.home ≡ ok home) h known, sym same ∙ h))

  compare-Compared : Returns (Still start) (compare sha256 p t plan) Compared
  unfolding compare
  compare-Compared =
      Returns-bind (Still start) (λ home s. (p.directory_at start t.home ≡ ok home) × Still start s)
        Compared (or_fail (destination_error t.home) (open_home p t.home)) _
        (Returns-or_fail (Still start)
          (λ home s. (p.directory_at start t.home ≡ ok home) × Still start s)
          (destination_error t.home) (open_home p t.home) open_home-Known)
        (λ home.
          Triple-fact Never Never (p.directory_at start t.home ≡ ok home) (Still start)
            (Verdict Compared) _
            (λ known.
              Triple-weaken Never Never (Still start) (Still start)
                (Verdict (AllJudged sha256 start t home plan [])) (Verdict Compared) _ (λ s h. h)
                (judged home known) (compare_each-Judged sha256 start t home plan [])))
    where
      judged :
          (home : ℕ)
          → p.directory_at start t.home ≡ ok home
          → (r : Result Failure (List Mismatch)) (s : Store)
          → Verdict (AllJudged sha256 start t home plan []) r s
          → Verdict Compared r s
      judged home known (ok ms) s (all, still) = (λ e. (home, known, (all e).1), still)
      judged home known (err f) s h = h

-- The ends of a call.
abbrev pub CompareEnds :
    (Text → Text)
    → Process
    → Store
    → Target
    → List Planned
    → Answer (Result Failure (List Mismatch)) × World
    → Type 0
CompareEnds sha256 p start t plan (done (ok ms), w) =
    (ms ≡ [] → AllMatch sha256 p start t plan) × (w.store ≡ start)
CompareEnds sha256 p start t plan (done (err f), w) = Unit
CompareEnds sha256 p start t plan (failed e, w) = ⊥
CompareEnds sha256 p start t plan (unfinished, w) = ⊥

Meets-CompareEnds :
    (sha256 : Text → Text) (p : Process) (start : Store) (t : Target) (plan : List Planned)
    (r : Answer (Result Failure (List Mismatch)) × World)
    → Meets (Verdict (Compared sha256 p start t plan)) Never Never r
    → CompareEnds sha256 p start t plan r
Meets-CompareEnds sha256 p start t plan (done (ok ms), w) h = h
Meets-CompareEnds sha256 p start t plan (done (err f), w) h = h
Meets-CompareEnds sha256 p start t plan (failed e, w) h = h
Meets-CompareEnds sha256 p start t plan (unfinished, w) h = h

-- A comparison of the destination with the plan returns, whatever calls the kernel refuses. When it
-- succeeds it has changed nothing, and when it reports no mismatch, each planned file is at its place
-- below the user's home, reached by directories and no symlink, is a plain file of a single name,
-- and has the digest of the plan.
pub compare-Ends :
    (sha256 : Text → Text) (p : Process) (t : Target) (plan : List Planned) (w : World)
    → CompareEnds sha256 p w.store t plan (compare sha256 p t plan w)
compare-Ends sha256 p t plan w =
    Meets-CompareEnds sha256 p w.store t plan (compare sha256 p t plan w)
      ((compare-Compared sha256 p w.store t plan).at w refl)
