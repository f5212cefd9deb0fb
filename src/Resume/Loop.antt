-- ===== src/Resume/Loop.antt =====
-- `fetch_with_resume` and its helpers.
pub mod Serving
pub mod Body
pub mod Content
pub mod Waiting
pub mod GivingUp
use gnosis_vpn_toolkit.Prelude.{
  ℕ, ◌+◌, ◌-◌, ◌/◌, Bool, not, ◌&&◌, ◌||◌, Option, none, some, List, [], ◌∷◌, ltb, leb, ◌==◌,
  if◌then◌else◌, length, Result, ok, err,
}
use gnosis_vpn_toolkit.Prelude.Text.{Text, codes, starts_with}
use gnosis_vpn_toolkit.Manifest.Download.{HttpError}
use gnosis_vpn_toolkit.Resume.File.{write_all, truncate, rewind}
use gnosis_vpn_toolkit.Resume.Session.{
  DownloadError, http, io, connection_lost, unexpected_status, RetryPolicy, second, Outage, Request,
  Chunk, Ending, finished, broken, Response, Attempt, Session, Turn, returned, going,
}

unfoldable pub is_retryable : HttpError → Bool
is_retryable e = not (e.is_status || (e.is_builder || e.is_redirect))

or_else : Option Text → Option Text → Option Text
or_else none b = b
or_else (some a) b = some a

unweak : Option Text → Option Text
unweak none = none
unweak (some v) = if starts_with v (codes "W/") then none else some v

unfoldable pub strong_validator : Response → Option Text
unfolding or_else unweak
strong_validator r = or_else (unweak r.etag) r.last_modified

record_outage : ℕ → Text → Option Outage → Outage
record_outage now error none = record { since = now; attempts = 1; last_error = error }
record_outage now error (some o) = record o { attempts = o.attempts + 1; last_error = error }

unfoldable pub record_failure : Text → Session → Session
unfolding record_outage
record_failure error s = record s { outage = some (record_outage s.now error s.outage) }

unfoldable pub give_up : Outage → ℕ → ℕ → ℕ → DownloadError
give_up o now bytes_done expected =
    connection_lost ((now - o.since) / second) bytes_done expected o.last_error

unfoldable pub request : Session → Request
request s =
    if ltb 0 s.bytes_done
    then record { range = some s.bytes_done; if_range = s.validator }
    else record { range = none; if_range = none }

-- The inner loop over the body.
pub end_body : Ending → Session → Turn
unfolding record_failure is_retryable
end_body finished s = returned s (ok s.bytes_done)
end_body (broken takes e) s =
    let later = record s { now = s.now + takes } in
    if is_retryable e then going (record_failure e.text later) else returned later (err (http e))

store : Chunk → Session → Session
store c s = record s {
  bytes_done = s.bytes_done + length c.bytes;
  outage = none;
  file = write_all s.file c.bytes;
  now = s.now + c.takes;
}

pub read_body : List Chunk → Ending → Session → Turn
unfolding end_body store
read_body [] ending s = end_body ending s
read_body (c ∷ cs) ending s = elim c.written [
  | ok _ ↦ read_body cs ending (store c s)
  | err e ↦ returned (record s { now = s.now + c.takes }) (err (io e))
]

pub restart : Session → Session
restart s = record s { bytes_done = 0; validator = none; file = rewind (truncate s.file) }

keep_validator : Option Text → Response → Option Text
unfolding strong_validator
keep_validator none r = strong_validator r
keep_validator (some v) r = some v

pub take_body : Response → Session → Turn
unfolding keep_validator
take_body r s = read_body r.chunks r.ending (record s { validator = keep_validator s.validator r })

abbrev is_error_status : ℕ → Bool
is_error_status code = leb 400 code && ltb code 600

-- The `match` on the status.
pub on_response : Response → Session → Turn
unfolding take_body restart
on_response r s =
    if (r.status == 206) && ltb 0 s.bytes_done
    then take_body r s
    else if (r.status == 200) && (s.bytes_done == 0)
    then take_body r s
    else if r.status == 200
    then elim r.reset [ ok _ ↦ take_body r (restart s) | err e ↦ returned s (err (io e)) ]
    else if is_error_status r.status
    then returned s (err (http r.status_error))
    else returned s (err (unexpected_status r.status))

pub on_sent : Result HttpError Response → Session → Turn
unfolding is_retryable record_failure on_response
on_sent (ok r) s = on_response r s
on_sent (err e) s =
    if is_retryable e then going (record_failure e.text s) else returned s (err (http e))

module _ (policy : RetryPolicy) (expected : ℕ) where
  -- While offline the request is bounded by what is left of the budget.
  pub send_offline : Attempt → Outage → Session → Turn
  unfolding record_failure on_sent request
  send_offline a o s =
      let remaining = policy.reconnect_budget - (s.now - o.since) in
      let q = request s in
      if leb (a.takes q) remaining
      then on_sent (a.reply q) (record s { now = s.now + a.takes q })
      else going (
          record_failure (codes "reconnect attempt timed out")
            (record s { now = s.now + remaining }))

  send_online : Attempt → Session → Turn
  unfolding on_sent request
  send_online a s = let q = request s in on_sent (a.reply q) (record s { now = s.now + a.takes q })

  -- The outage check with its sleep, and the request.
  on_outage : Attempt → Option Outage → Session → Turn
  unfolding send_offline send_online give_up
  on_outage a none s = send_online a s
  on_outage a (some o) s =
      if leb policy.reconnect_budget (s.now - o.since)
      then returned s (err (give_up o s.now s.bytes_done expected))
      else send_offline a o (record s { now = s.now + policy.retry_interval })

  -- One round of the outer loop.
  pub try_round : Attempt → Session → Turn
  unfolding on_outage
  try_round a s =
      let t = record s { now = s.now + a.lag } in
      if not (expected == 0) && leb expected t.bytes_done
      then returned t (ok t.bytes_done)
      else on_outage a t.outage t

  -- The whole loop; it is still going when the script ends before it returns.
  unfoldable pub fetch_with_resume : List Attempt → Session → Turn
  unfolding try_round read_body write_all truncate rewind
  fetch_with_resume [] s = going s
  fetch_with_resume (a ∷ rest) s = elim (try_round a s) [
    | returned s' r ↦ returned s' r
    | going s' ↦ fetch_with_resume rest s'
  ]

-- The variables at the start, over a new file.
abbrev pub start : ℕ → Session
start now = record {
  bytes_done = 0;
  validator = none;
  outage = none;
  file = record { contents = []; pos = 0 };
  now = now;
}
