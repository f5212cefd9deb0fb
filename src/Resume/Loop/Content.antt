-- ===== src/Resume/Loop/Content.antt =====
-- What the file holds after a run of `fetch_with_resume`.
use gnosis_vpn_toolkit.Prelude.{
  ℕ, true, some, none, Option, List, [], ◌∷◌, All, not, ◌-◌, ◌≡◌, refl, sym, ◌∙◌, subst, inl, inr,
  length, drop, ok, err, Bool-cases, Result-cases, &&-elim, ==_iff, ◌&&◌, ltb, leb, ◌==◌,
}
use gnosis_vpn_toolkit.Manifest.Download.{HttpError}
use gnosis_vpn_toolkit.Resume.Session.{
  Attempt, Response, Request, Session, Turn, returned, going, RetryPolicy, Outage,
}
use gnosis_vpn_toolkit.Resume.Loop.{
  restart, is_error_status, on_response, on_sent, send_offline, send_online, on_outage, try_round,
  fetch_with_resume, request, start, is_retryable, record_failure,
}
use gnosis_vpn_toolkit.Resume.Loop.Serving.{body, Begins, Serves, Holding, Keeps, Begins-whole}
use gnosis_vpn_toolkit.Resume.Loop.Body.{
  take_body-Keeps, nothing_yet, restart-holds, Continues-partial,
}

module _ (artifact : List ℕ) where
  module _ (a : Attempt) (serves : Serves artifact a) (q : Request) (r : Response) where
    on_response-Keeps :
        (s : Session)
        → a.reply q ≡ ok r
        → (ltb 0 s.bytes_done ≡ true → q.range ≡ some s.bytes_done)
        → Holding artifact s
        → Keeps artifact (on_response r s)
    unfolding on_response
    on_response-Keeps s replied asked h =
        elim (Bool-cases ((r.status == 206) && ltb 0 s.bytes_done)) [
          | inl part ↦
              let (code, ahead) = &&-elim _ _ part in
              rw part (
                take_body-Keeps artifact r s h (
                  Continues-partial artifact s (body r.chunks) h (
                    serves.partial q r s.bytes_done replied ((==_iff r.status 206).0 code)
                      (asked ahead))))
          | inr no_part ↦ rw no_part (elim (Bool-cases ((r.status == 200) && (s.bytes_done == 0))) [
            | inl fresh ↦
                let (code, none_done) = &&-elim _ _ fresh in
                let e : s.bytes_done ≡ 0 = (==_iff s.bytes_done 0).0 none_done in
                rw fresh (
                  take_body-Keeps artifact r s h (
                    Continues-partial artifact s (body r.chunks) h (
                      subst (λ n. Begins (body r.chunks) (drop n artifact)) (sym e)
                        (serves.whole q r replied ((==_iff r.status 200).0 code)))))
            | inr no_fresh ↦ rw no_fresh (elim (Bool-cases (r.status == 200)) [
              | inl code ↦ rw code (elim (Result-cases r.reset) [
                | inl (_, done) ↦
                    let (h', empty) = restart-holds artifact s in
                    simp done (
                      take_body-Keeps artifact r (restart s) h' (
                        let (rest, e) = serves.whole q r replied ((==_iff r.status 200).0 code) in
                        (rest, rw empty e)))
                | inr (_, failed) ↦ simp failed h
              ])
              | inr no_code ↦ rw no_code (elim (Bool-cases (is_error_status r.status)) [
                | inl bad ↦ rw bad h
                | inr odd ↦ rw odd h
              ])
            ])
          ])
        ]

    on_sent-answered :
        (s : Session)
        → a.reply q ≡ ok r
        → (ltb 0 s.bytes_done ≡ true → q.range ≡ some s.bytes_done)
        → Holding artifact s
        → Keeps artifact (on_sent (ok r) s)
    unfolding on_sent
    on_sent-answered s replied asked h = on_response-Keeps s replied asked h

  on_sent-failed :
      (e : HttpError) (s : Session) → Holding artifact s → Keeps artifact (on_sent (err e) s)
  unfolding on_sent record_failure
  on_sent-failed e s h = elim (Bool-cases (is_retryable e)) [
    | inl again ↦ rw again h
    | inr fatal ↦ rw fatal h
  ]

  request-range : (s : Session) → ltb 0 s.bytes_done ≡ true → (request s).range ≡ some s.bytes_done
  unfolding request
  request-range s h = rw h

  module _ (a : Attempt) (serves : Serves artifact a) where
    answered-Keeps :
        (q : Request) (s : Session)
        → (ltb 0 s.bytes_done ≡ true → q.range ≡ some s.bytes_done)
        → Holding artifact s
        → Keeps artifact (on_sent (a.reply q) s)
    answered-Keeps q s asked h = elim (Result-cases (a.reply q)) [
      | inl (r, e) ↦ rw e (on_sent-answered a serves q r s e asked h)
      | inr (e', e) ↦ rw e (on_sent-failed e' s h)
    ]

    module _ (policy : RetryPolicy) (expected : ℕ) where
      send_offline-Keeps :
          (o : Outage) (s : Session)
          → Holding artifact s
          → Keeps artifact (send_offline policy expected a o s)
      unfolding send_offline record_failure
      send_offline-Keeps o s h =
          elim (Bool-cases
            (leb (a.takes (request s)) (policy.reconnect_budget - (s.now - o.since)))) [
              | inl soon ↦ rw soon (answered-Keeps (request s) _ (request-range s) h)
              | inr late ↦ rw late h
            ]

      on_outage-Keeps :
          (outage : Option Outage) (s : Session)
          → Holding artifact s
          → Keeps artifact (on_outage policy expected a outage s)
      unfolding on_outage send_online
      on_outage-Keeps none s h = answered-Keeps (request s) _ (request-range s) h
      on_outage-Keeps (some o) s h =
          elim (Bool-cases (leb policy.reconnect_budget (s.now - o.since))) [
            | inl spent ↦ rw spent h
            | inr left ↦ rw left (send_offline-Keeps o _ h)
          ]

      try_round-Keeps :
          (s : Session) → Holding artifact s → Keeps artifact (try_round policy expected a s)
      unfolding try_round
      try_round-Keeps s h = elim (Bool-cases (not (expected == 0) && leb expected s.bytes_done)) [
        | inl complete ↦ rw complete (h, refl)
        | inr open_end ↦ rw open_end (on_outage-Keeps s.outage _ h)
      ]

  module _ (policy : RetryPolicy) (expected : ℕ) where
    fetch_with_resume-Keeps :
        (script : List Attempt) (s : Session)
        → All (Serves artifact) script
        → Holding artifact s
        → Keeps artifact (fetch_with_resume policy expected script s)
    unfolding fetch_with_resume
    fetch_with_resume-Keeps [] s serves h = h
    fetch_with_resume-Keeps (a ∷ script) s (serves, rest) h =
        after (try_round policy expected a s) (try_round-Keeps a serves policy expected s h)
          (λ s'. fetch_with_resume-Keeps script s' rest)
      where
        after :
            (t : Turn)
            → Keeps artifact t
            → ((s' : Session)
                → Holding artifact s'
                → Keeps artifact (fetch_with_resume policy expected script s'))
            → Keeps artifact (elim t [
              | returned s' r ↦ returned s' r
              | going s' ↦ fetch_with_resume policy expected script s'
            ])
        after (returned s' r) k next = k
        after (going s') k next = next s' k

-- However often the connection drops and whatever the server ignores, as long as it serves one
-- artifact: a run from an empty file that returns a count has written exactly that many bytes, and
-- they are the beginning of the artifact.
pub fetch_with_resume-prefix :
    (artifact : List ℕ) (policy : RetryPolicy) (expected now n : ℕ) (script : List Attempt)
    {s : Session}
    → All (Serves artifact) script
    → fetch_with_resume policy expected script (start now) ≡ returned s (ok n)
    → (length s.file.contents ≡ n) × Begins s.file.contents artifact
fetch_with_resume-prefix artifact policy expected now n script serves h =
    let k =
      fetch_with_resume-Keeps artifact policy expected script (start now) serves
        (nothing_yet artifact _ refl refl) in
    let (held, count) = subst (Keeps artifact) h k in (held.len ∙ sym count, held.begins)

-- However often the connection drops and whatever the server ignores, as long as it serves one
-- artifact: a run from an empty file that returns the length of the artifact has written the artifact.
pub fetch_with_resume_complete :
    (artifact : List ℕ) (policy : RetryPolicy) (expected now : ℕ) (script : List Attempt)
    {s : Session}
    → All (Serves artifact) script
    → fetch_with_resume policy expected script (start now) ≡ returned s (ok (length artifact))
    → s.file.contents ≡ artifact
fetch_with_resume_complete artifact policy expected now script {s} serves h =
    let (count, begins) = fetch_with_resume-prefix artifact policy expected now _ script serves h in
    Begins-whole s.file.contents artifact begins.0 begins.1 count
