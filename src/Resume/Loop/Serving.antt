-- ===== src/Resume/Loop/Serving.antt =====
-- A server of one artifact, and what the file of a download from it holds.
use gnosis_vpn_toolkit.Prelude.{
  ℕ, some, List, [], ◌∷◌, ◌++◌, append-nil, ◌≡◌, sym, ap, ◌∙◌, arith, length, drop, length-append,
  ok, err,
}
use gnosis_vpn_toolkit.Resume.File.{File}
use gnosis_vpn_toolkit.Resume.Session.{
  Attempt, Chunk, Response, Request, Session, Turn, returned, going,
}

abbrev pub body : List Chunk → List ℕ
body [] = []
body (c ∷ cs) = c.bytes ++ body cs

-- A list that begins another.
abbrev pub Begins : List ℕ → List ℕ → Type 0
Begins xs whole = (rest : List ℕ) × (xs ++ rest ≡ whole)

-- The server has one artifact: a body with status 200 is a beginning of it, and one with status 206
-- a beginning of what the requested range leaves, cut off wherever the connection drops.
pub record Serves (artifact : List ℕ) (a : Attempt) : Type 0 where
  pub whole :
      (q : Request) (r : Response)
      → a.reply q ≡ ok r
      → r.status ≡ 200
      → Begins (body r.chunks) artifact
  pub partial :
      (q : Request) (r : Response) (k : ℕ)
      → a.reply q ≡ ok r
      → r.status ≡ 206
      → q.range ≡ some k
      → Begins (body r.chunks) (drop k artifact)

-- The file holds the first `n` bytes of the artifact, with its position behind them.
pub record Holds (artifact : List ℕ) (n : ℕ) (f : File) : Type 0 where
  pub pos : f.pos ≡ n
  pub len : length f.contents ≡ n
  pub begins : Begins f.contents artifact

abbrev pub Holding : List ℕ → Session → Type 0
Holding artifact s = Holds artifact s.bytes_done s.file

-- After a round or a run the file holds such a prefix, and a returned count is its length.
abbrev pub Keeps : List ℕ → Turn → Type 0
Keeps artifact (returned s (ok n)) = Holding artifact s × (n ≡ s.bytes_done)
Keeps artifact (returned s (err e)) = Holding artifact s
Keeps artifact (going s) = Holding artifact s

pub Begins-whole :
    (xs whole rest : List ℕ) → xs ++ rest ≡ whole → length xs ≡ length whole → xs ≡ whole
Begins-whole xs whole [] e h = sym (append-nil xs) ∙ e
Begins-whole xs whole (y ∷ rest) e h =
    absurd (omega (arith, ap length e, length-append xs (y ∷ rest), h))
