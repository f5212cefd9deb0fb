-- ===== src/Resume/Loop/Waiting.antt =====
-- The rounds of a download whose attempts all break off before the first byte.
use gnosis_vpn_toolkit.Prelude.{
  ℕ, ◌+◌, ◌-◌, ◌≤◌, true, false, not, ◌&&◌, Option, some, none, [], ◌≡◌, inl, inr, arith, Result,
  ok, err, Bool-cases, Result-cases, ltb, leb, ◌==◌,
}
use gnosis_vpn_toolkit.Prelude.Text.{Text}
use gnosis_vpn_toolkit.Manifest.Download.{HttpError}
use gnosis_vpn_toolkit.Resume.Session.{
  Attempt, Ending, finished, broken, Response, Request, Session, Turn, returned, going, RetryPolicy,
  Outage,
}
use gnosis_vpn_toolkit.Resume.Loop.{
  end_body, read_body, take_body, restart, keep_validator, record_outage, is_error_status,
  on_response, on_sent, send_offline, request, is_retryable, record_failure,
}

-- An answer cut off before any data: every failure is a network fault, and a response breaks off
-- before the first byte of its body. Its status may be any; a body that ends cleanly is excluded.
abbrev pub IsSilentEnding : Ending → Type 0
IsSilentEnding finished = ⊥
IsSilentEnding (broken takes e) = is_retryable e ≡ true

abbrev pub IsSilentAnswer : Result HttpError Response → Type 0
IsSilentAnswer (err e) = is_retryable e ≡ true
IsSilentAnswer (ok r) = (r.chunks ≡ []) × IsSilentEnding r.ending

abbrev pub IsSilent : Attempt → Type 0
IsSilent a = (q : Request) → IsSilentAnswer (a.reply q)

-- The outage, if there is one, has lasted for `n`; where none has been noticed `n` is 0.
abbrev pub Pending : ℕ → Option Outage → ℕ → Type 0
Pending n none now = n ≡ 0
Pending n (some o) now = o.since + n ≤ now

abbrev pub Offline : ℕ → Option Outage → ℕ → Type 0
Offline n none now = ⊥
Offline n (some o) now = o.since + n ≤ now

module _ (policy : RetryPolicy) (expected : ℕ) where
  abbrev pub Incomplete : ℕ → Type 0
  Incomplete bytes_done = (not (expected == 0) && leb expected bytes_done) ≡ false

  -- A round ends in an error, or goes on with an outage that has lasted for `n`.
  abbrev pub Waits : ℕ → Turn → Type 0
  Waits n (returned s (ok _)) = ⊥
  Waits n (returned s (err _)) = Unit {0}
  Waits n (going s) = Incomplete s.bytes_done × Offline n s.outage s.now

  module _ (n : ℕ) where
    record_outage-lasts :
        (now : ℕ) (error : Text) (o : Option Outage)
        → Pending n o now
        → (record_outage now error o).since + n ≤ now
    unfolding record_outage
    record_outage-lasts now error none p = omega arith
    record_outage-lasts now error (some o) p = p

    record_failure-Waits :
        (error : Text) (s : Session)
        → Incomplete s.bytes_done
        → Pending n s.outage s.now
        → Waits n (going (record_failure error s))
    unfolding record_failure
    record_failure-Waits error s h p = (h, record_outage-lasts s.now error s.outage p)

    pub Pending-later :
        (o : Option Outage) (now more : ℕ) → Pending n o now → Pending n o (now + more)
    Pending-later none now more p = p
    Pending-later (some o) now more p = omega arith

    pub Offline-later :
        (o : Option Outage) (now more : ℕ) → Offline n o now → Offline n o (now + more)
    Offline-later none now more p = p
    Offline-later (some o) now more p = omega arith

    end_body-Waits :
        (ending : Ending) (s : Session)
        → IsSilentEnding ending
        → Incomplete s.bytes_done
        → Pending n s.outage s.now
        → Waits n (end_body ending s)
    unfolding end_body
    end_body-Waits finished s quiet h p = absurd quiet
    end_body-Waits (broken takes e) s quiet h p = rw quiet (
        record_failure-Waits e.text (record s { now = s.now + takes }) h
          (Pending-later s.outage s.now takes p))

    take_body-Waits :
        (r : Response) (s : Session)
        → IsSilentAnswer (ok r)
        → Incomplete s.bytes_done
        → Pending n s.outage s.now
        → Waits n (take_body r s)
    unfolding take_body
    take_body-Waits r s (none_sent, quiet) h p = simp none_sent (
        unfold read_body in
        end_body-Waits r.ending (record s { validator = keep_validator s.validator r }) quiet h p)

    restart-Incomplete : (s : Session) → Incomplete (restart s).bytes_done
    unfolding restart
    restart-Incomplete s = ground arith

    restart-Pending :
        (s : Session) → Pending n s.outage s.now → Pending n (restart s).outage (restart s).now
    unfolding restart
    restart-Pending s p = p

    on_response-Waits :
        (r : Response) (s : Session)
        → IsSilentAnswer (ok r)
        → Incomplete s.bytes_done
        → Pending n s.outage s.now
        → Waits n (on_response r s)
    unfolding on_response
    on_response-Waits r s quiet h p =
        let body = take_body-Waits r s quiet h p in
        elim (Bool-cases ((r.status == 206) && ltb 0 s.bytes_done)) [
          | inl part ↦ rw part body
          | inr no_part ↦ rw no_part (elim (Bool-cases ((r.status == 200) && (s.bytes_done == 0))) [
            | inl fresh ↦ rw fresh body
            | inr no_fresh ↦ rw no_fresh (elim (Bool-cases (r.status == 200)) [
              | inl code ↦ rw code (elim (Result-cases r.reset) [
                | inl (_, done) ↦ simp done (
                    take_body-Waits r (restart s) quiet (restart-Incomplete s)
                      (restart-Pending s p))
                | inr (_, failed) ↦ simp failed tt
              ])
              | inr no_code ↦ rw no_code (elim (Bool-cases (is_error_status r.status)) [
                | inl bad ↦ rw bad tt
                | inr odd ↦ rw odd tt
              ])
            ])
          ])
        ]

    pub on_sent-Waits :
        (answer : Result HttpError Response) (s : Session)
        → IsSilentAnswer answer
        → Incomplete s.bytes_done
        → Pending n s.outage s.now
        → Waits n (on_sent answer s)
    unfolding on_sent
    on_sent-Waits (ok r) s quiet h p = on_response-Waits r s quiet h p
    on_sent-Waits (err e) s quiet h p = rw quiet (record_failure-Waits e.text s h p)

    pub send_offline-Waits :
        (a : Attempt) (o : Outage) (s : Session)
        → IsSilent a
        → Incomplete s.bytes_done
        → Pending n s.outage s.now
        → Waits n (send_offline policy expected a o s)
    unfolding send_offline
    send_offline-Waits a o s silent h p =
        let remaining = policy.reconnect_budget - (s.now - o.since) in
        elim (Bool-cases (leb (a.takes (request s)) remaining)) [
          | inl soon ↦ rw soon (
              on_sent-Waits (a.reply (request s)) (record s { now = s.now + a.takes (request s) })
                (silent (request s)) h (Pending-later s.outage s.now (a.takes (request s)) p))
          | inr late ↦ rw late (
              record_failure-Waits _ (record s { now = s.now + remaining }) h
                (Pending-later s.outage s.now remaining p))
        ]
