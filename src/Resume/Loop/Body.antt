-- ===== src/Resume/Loop/Body.antt =====
-- Reading a body into the file.
use gnosis_vpn_toolkit.Prelude.{
  ℕ, List, [], ◌∷◌, ◌++◌, append_assoc, ◌≡◌, refl, sym, ap, ◌∙◌, inl, inr, arith, length, drop,
  length-append, drop-append_length, Bool-cases, Result-cases,
}
use gnosis_vpn_toolkit.Resume.File.{
  File, write_all, truncate, rewind, write_all-at_end, write_all-pos,
}
use gnosis_vpn_toolkit.Resume.Session.{Chunk, Ending, finished, broken, Response, Session}
use gnosis_vpn_toolkit.Resume.Loop.{end_body, store, read_body, take_body, restart, is_retryable}
use gnosis_vpn_toolkit.Resume.Loop.Serving.{body, Begins, Holds, Holding, Keeps}

module _ (artifact : List ℕ) where
  -- The rest of the artifact begins with these bytes.
  abbrev pub Continues : Session → List ℕ → Type 0
  Continues s bytes = (rest : List ℕ) × (s.file.contents ++ (bytes ++ rest) ≡ artifact)

  end_body-Keeps :
      (ending : Ending) (s : Session) → Holding artifact s → Keeps artifact (end_body ending s)
  unfolding end_body
  end_body-Keeps finished s h = (h, refl)
  end_body-Keeps (broken takes e) s h = elim (Bool-cases (is_retryable e)) [
    | inl again ↦ rw again h
    | inr fatal ↦ rw fatal h
  ]

  store-holds :
      (c : Chunk) (s : Session) (bytes : List ℕ)
      → Holding artifact s
      → Continues s (c.bytes ++ bytes)
      → Holding artifact (store c s) × Continues (store c s) bytes
  unfolding store
  store-holds c s bytes h (rest, e) =
      let appended = write_all-at_end s.file c.bytes (h.pos ∙ sym h.len) in
      let spelled : (write_all s.file c.bytes).contents ++ (bytes ++ rest) ≡ artifact =
        ap (λ t. t ++ (bytes ++ rest)) appended ∙ simp append_assoc (simp append_assoc at e) in
      (
        record {
          pos = omega (arith, write_all-pos s.file c.bytes, h.pos);
          len = omega (arith, ap length appended, length-append s.file.contents c.bytes, h.len);
          begins = (bytes ++ rest, spelled);
        },
        (rest, spelled),
      )

  read_body-Keeps :
      (cs : List Chunk) (ending : Ending) (s : Session)
      → Holding artifact s
      → Continues s (body cs)
      → Keeps artifact (read_body cs ending s)
  unfolding read_body
  read_body-Keeps [] ending s h k = end_body-Keeps ending s h
  read_body-Keeps (c ∷ cs) ending s h k = elim (Result-cases c.written) [
    | inl (a, e) ↦
        let (h', k') = store-holds c s (body cs) h k in
        simp (e, read_body) (read_body-Keeps cs ending (store c s) h' k')
    | inr (f, e) ↦ simp (e, read_body) h
  ]

  pub take_body-Keeps :
      (r : Response) (s : Session)
      → Holding artifact s
      → Continues s (body r.chunks)
      → Keeps artifact (take_body r s)
  unfolding take_body
  take_body-Keeps r s h k = read_body-Keeps r.chunks r.ending _ h k

  pub nothing_yet : (f : File) → f.pos ≡ 0 → f.contents ≡ [] → Holds artifact 0 f
  nothing_yet f p c = record { pos = p; len = ap length c; begins = (artifact, rw c) }

  pub restart-holds :
      (s : Session) → Holding artifact (restart s) × ((restart s).file.contents ≡ [])
  unfolding restart truncate rewind
  restart-holds s = (nothing_yet (record { contents = []; pos = 0 }) refl refl, refl)

  pub Continues-partial :
      (s : Session) (bytes : List ℕ)
      → Holding artifact s
      → Begins bytes (drop s.bytes_done artifact)
      → Continues s bytes
  Continues-partial s bytes h (rest, e) =
      let (left, whole) = h.begins in
      let tail : drop s.bytes_done artifact ≡ left =
        ap (drop s.bytes_done) (sym whole)
        ∙ ap (λ n. drop n (s.file.contents ++ left)) (sym h.len)
        ∙ drop-append_length s.file.contents left in
      (rest, ap (λ t. s.file.contents ++ t) (e ∙ tail) ∙ whole)
