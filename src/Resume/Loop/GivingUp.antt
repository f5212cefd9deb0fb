-- ===== src/Resume/Loop/GivingUp.antt =====
-- The end of a download whose attempts all break off before the first byte.
use gnosis_vpn_toolkit.Prelude.{
  ℕ, ◌+◌, ◌-◌, ◌*◌, ◌≤◌, ◌<◌, Option, some, none, List, [], ◌∷◌, ◌≡◌, refl, sym, subst, ◌⊎◌, inl,
  inr, arith, length, All, ok, err, Bool-cases, leb,
}
use gnosis_vpn_toolkit.Resume.Session.{
  Attempt, Session, Turn, returned, going, RetryPolicy, Outage, DownloadError,
}
use gnosis_vpn_toolkit.Resume.Loop.{
  send_offline, send_online, on_outage, try_round, fetch_with_resume, request,
}
use gnosis_vpn_toolkit.Resume.Loop.Waiting.{
  IsSilent, Pending, Offline, Incomplete, Waits, Offline-later, on_sent-Waits, send_offline-Waits,
}

module _ (policy : RetryPolicy) (expected : ℕ) where
  Fails : Turn → Type 0
  Fails t = (s : Session) × (e : DownloadError) × (t ≡ returned s (err e))

  GoesOn : ℕ → Turn → Type 0
  GoesOn n t =
      (s : Session) × (t ≡ going s)
      × Incomplete policy expected s.bytes_done
      × Offline n s.outage s.now

  Waits-cases : (n : ℕ) (t : Turn) → Waits policy expected n t → Fails t ⊎ GoesOn n t
  unfolding Fails GoesOn
  Waits-cases n (returned s (ok b)) w = absurd w
  Waits-cases n (returned s (err e)) w = inl (s, e, refl)
  Waits-cases n (going s) (h, p) = inr (s, refl, h, p)

  module _ (a : Attempt) (silent : IsSilent a) where
    -- A round during an outage that has lasted for `n` fails, or the budget is above `n` and the
    -- outage is longer after the round.
    on_outage-Offline :
        (n : ℕ) (outage : Option Outage) (s : Session)
        → Incomplete policy expected s.bytes_done
        → s.outage ≡ outage
        → Offline n outage s.now
        → Fails (on_outage policy expected a outage s)
          ⊎ ((n < policy.reconnect_budget)
              × GoesOn (n + policy.retry_interval) (on_outage policy expected a outage s))
    unfolding on_outage Fails
    on_outage-Offline n none s h e p = absurd p
    on_outage-Offline n (some o) s h e p =
        let slept : Session = record s { now = s.now + policy.retry_interval } in
        elim (Bool-cases (leb policy.reconnect_budget (s.now - o.since))) [
          | inl spent ↦ rw spent (inl (_, _, refl))
          | inr left ↦
              rw left
                (elim (Waits-cases (n + policy.retry_interval)
                  (send_offline policy expected a o slept)
                  (send_offline-Waits policy expected (n + policy.retry_interval) a o slept silent h
                    (subst (λ t. Pending (n + policy.retry_interval) t slept.now) (sym e)
                      (omega arith)))) [
                        | inl failed ↦ inl failed
                        | inr on ↦ inr (ground arith, on)
                      ])
        ]

    try_round-Offline :
        (n : ℕ) (s : Session)
        → Incomplete policy expected s.bytes_done
        → Offline n s.outage s.now
        → Fails (try_round policy expected a s)
          ⊎ ((n < policy.reconnect_budget)
              × GoesOn (n + policy.retry_interval) (try_round policy expected a s))
    unfolding try_round
    try_round-Offline n s h p = rw h (
        on_outage-Offline n s.outage (record s { now = s.now + a.lag }) h refl
          (Offline-later policy expected n s.outage s.now a.lag p))

    try_round-online :
        (s : Session)
        → Incomplete policy expected s.bytes_done
        → s.outage ≡ none
        → Fails (try_round policy expected a s) ⊎ GoesOn 0 (try_round policy expected a s)
    unfolding try_round on_outage send_online
    try_round-online s h e =
        let t : Session = record s { now = s.now + a.lag } in
        let u : Session = record t { now = t.now + a.takes (request t) } in
        rw h (
          subst
            (λ o.
              Fails (on_outage policy expected a o t) ⊎ GoesOn 0 (on_outage policy expected a o t))
            (sym e)
            (Waits-cases 0 _ (
              on_sent-Waits policy expected 0 (a.reply (request t)) u (silent (request t)) h
                (subst (λ o. Pending 0 o u.now) (sym e) refl))))

  -- The run after a first failure.
  Offline-run :
      (script : List Attempt) (n : ℕ) (s : Session)
      → All IsSilent script
      → n < policy.reconnect_budget + policy.retry_interval
      → policy.reconnect_budget + policy.retry_interval ≤ n + policy.retry_interval * length script
      → Incomplete policy expected s.bytes_done
      → Offline n s.outage s.now
      → Fails (fetch_with_resume policy expected script s)
  unfolding fetch_with_resume Fails GoesOn
  Offline-run [] n s silent low enough h p = absurd (omega arith)
  Offline-run (a ∷ script) n s (quiet, silent) low enough h p =
      elim (try_round-Offline a quiet n s h p) [
        | inl (s', e, failed) ↦ rw (failed, fetch_with_resume) (s', e, refl)
        | inr (room, on) ↦
            let (s', e, h', p') = on in
            rw (e, fetch_with_resume)
              (Offline-run script (n + policy.retry_interval) s' silent (omega arith) (omega arith)
                h' p')
      ]

  -- From no outage, a download that is not complete ends in an error when every attempt ends in a
  -- network fault before the first byte of a body, whatever the timing and the status codes: it
  -- neither hangs nor reports success. It ends at the latest when the rounds, each counted with the
  -- retry interval, make up the reconnect budget and two intervals more. The interval is not zero. An
  -- empty body that ends cleanly is no network fault, and is not among the attempts here.
  pub fetch_with_resume-gives_up :
      (script : List Attempt) (s : Session)
      → All IsSilent script
      → 1 ≤ policy.retry_interval
      → policy.reconnect_budget + 2 * policy.retry_interval ≤ policy.retry_interval * length script
      → Incomplete policy expected s.bytes_done
      → s.outage ≡ none
      → (s' : Session) × (e : DownloadError) × (fetch_with_resume policy expected script s
          ≡ returned s' (err e))
  unfolding fetch_with_resume Fails GoesOn
  fetch_with_resume-gives_up [] s silent pause enough h e = absurd (omega arith)
  fetch_with_resume-gives_up (a ∷ script) s (quiet, silent) pause enough h e =
      elim (try_round-online a quiet s h e) [
        | inl (s', e', failed) ↦ rw (failed, fetch_with_resume) (s', e', refl)
        | inr (s', on, h', p') ↦
            rw (on, fetch_with_resume)
              (Offline-run script 0 s' silent (omega arith) (omega arith) h' p')
      ]
