-- ===== src/Resume/Tests.antt =====
-- A download that drops once and resumes, and one that hears nothing, with the theorems at them.
use gnosis_vpn_toolkit.Prelude.{
  ℕ, zero, suc, false, Option, some, none, List, [], ◌∷◌, All, ◌≡◌, refl, arith, Result, ok, err,
}
use gnosis_vpn_toolkit.Prelude.Text.{codes}
use gnosis_vpn_toolkit.Manifest.Download.{HttpError}
use gnosis_vpn_toolkit.Resume.Session.{
  DownloadError, RetryPolicy, Chunk, Ending, finished, broken, Response, Attempt, Session, returned,
}
use gnosis_vpn_toolkit.Resume.Loop.{is_retryable, fetch_with_resume, start}
use gnosis_vpn_toolkit.Resume.Loop.Serving.{Serves}
use gnosis_vpn_toolkit.Resume.Loop.Content.{fetch_with_resume_complete}
use gnosis_vpn_toolkit.Resume.Loop.Waiting.{IsSilent}
use gnosis_vpn_toolkit.Resume.Loop.GivingUp.{fetch_with_resume-gives_up}

abbrev artifact : List ℕ
artifact = 7 ∷ 8 ∷ 9 ∷ []

abbrev reset_by_peer : HttpError
reset_by_peer = record {
  is_status = false;
  is_builder = false;
  is_redirect = false;
  is_timeout = false;
  text = codes "connection reset";
  text_without_url = codes "connection reset";
}

abbrev policy : RetryPolicy
policy = record { retry_interval = 2; reconnect_budget = 3 }

abbrev chunk : List ℕ → Chunk
chunk bytes = record { takes = 1; bytes = bytes; written = ok tt }

abbrev response : ℕ → List Chunk → Ending → Response
response status chunks ending = record {
  status = status;
  status_error = reset_by_peer;
  etag = some (codes "\"v1\"");
  last_modified = none;
  reset = ok tt;
  chunks = chunks;
  ending = ending;
}

-- The first answer breaks off after one byte, the second resumes there.
abbrev first_attempt : Attempt
first_attempt = record {
  lag = 0;
  takes = λ q. 1;
  reply = λ q. ok (response 200 (chunk (7 ∷ []) ∷ []) (broken 1 reset_by_peer));
}

abbrev partial_reply : Option ℕ → Result HttpError Response
partial_reply none = err reset_by_peer
partial_reply (some (suc zero)) = ok (response 206 (chunk (8 ∷ []) ∷ chunk (9 ∷ []) ∷ []) finished)
partial_reply (some k) = err reset_by_peer

abbrev second_attempt : Attempt
second_attempt = record { lag = 0; takes = λ q. 1; reply = λ q. partial_reply q.range }

abbrev script : List Attempt
script = first_attempt ∷ second_attempt ∷ []

first-Serves : Serves artifact first_attempt
first-Serves = record {
  whole = λ q r e h. (8 ∷ 9 ∷ [], ground arith);
  partial = λ q r k e h asked. absurd (ground arith);
}

second-Serves : Serves artifact second_attempt
second-Serves = record {
  whole = λ q r e h. absurd (ground arith);
  partial = λ q r k e h asked. ([], ground arith);
}

abbrev downloaded : Session
downloaded = record {
  bytes_done = 3;
  validator = some (codes "\"v1\"");
  outage = none;
  file = record { contents = artifact; pos = 3 };
  now = 18;
}

resumed : fetch_with_resume policy 3 script (start 10) ≡ returned downloaded (ok 3)
unfolding fetch_with_resume
resumed = refl

fetch_with_resume_complete_example : downloaded.file.contents ≡ artifact
fetch_with_resume_complete_example =
    fetch_with_resume_complete artifact policy 3 10 script (first-Serves, (second-Serves, tt))
      resumed

-- No answer ever comes.
abbrev unreachable : Attempt
unreachable = record { lag = 0; takes = λ q. 1; reply = λ q. err reset_by_peer }

abbrev dead_network : List Attempt
dead_network = unreachable ∷ unreachable ∷ unreachable ∷ unreachable ∷ []

dead_network-IsSilent : All IsSilent dead_network
unfolding is_retryable
dead_network-IsSilent = (λ q. refl, (λ q. refl, (λ q. refl, (λ q. refl, tt))))

fetch_with_resume-gives_up_example :
    (s' : Session) × (e : DownloadError) × (fetch_with_resume policy 3 dead_network (start 10)
      ≡ returned s' (err e))
fetch_with_resume-gives_up_example =
    fetch_with_resume-gives_up policy 3 dead_network (start 10) dead_network-IsSilent (omega arith)
      (omega arith) refl refl
