-- ===== src/Artifact/Digest.antt =====
-- The SHA-256 check of the downloaded package (`verify_sha256` in
-- gnosis_vpn-update/src/update/mod.rs, `Display for Hash` in gnosis_vpn-update/src/manifest.rs).
-- The hash function is that of the crate `sha2`, a parameter.
use gnosis_vpn_toolkit.Prelude.{
  ℕ, ◌+◌, ◌-◌, ◌/◌, ◌%◌, List, [], ◌∷◌, ◌++◌, ◌≡◌, refl, ◌∙◌, ◌≢◌, ◌↔◌, inl, inr, All, ltb,
  if◌then◌else◌, Bool-cases, Result, ok, err,
}
use gnosis_vpn_toolkit.Prelude.Text.{Text, codes, text_eq, text_eq_iff}

-- `{byte:02x}`, and the digits of all bytes.
hex_digit : ℕ → ℕ
hex_digit n = if ltb n 10 then n + b'0' else (n - 10) + b'a'

pub show_hash : List ℕ → Text
unfolding hex_digit
show_hash [] = []
show_hash (b ∷ bs) = hex_digit (b / 16) ∷ hex_digit (b % 16) ∷ show_hash bs

pub record Hasher : Type 1 where
  pub State : Type 0
  pub init : State
  pub update : State → List ℕ → State
  pub finalize : State → List ℕ

-- Feeding the parts of a message in turn is feeding the message.
pub record IsStreaming (H : Hasher) : Type 0 where
  pub update_nil : (s : H.State) → H.update s [] ≡ s
  pub update_append : (s : H.State) (a b : List ℕ) → H.update (H.update s a) b ≡ H.update s (a ++ b)

module _ (H : Hasher) where
  open H use {State, init, update, finalize}

  abbrev pub digest : List ℕ → List ℕ
  digest bytes = finalize (update init bytes)

  -- The read loop; an empty read is the end of the file.
  hash_loop : List (Result Text (List ℕ)) → State → Result Text State
  hash_loop [] s = ok s
  hash_loop (err e ∷ reads) s = err e
  hash_loop (ok [] ∷ reads) s = ok s
  hash_loop (ok (b ∷ bs) ∷ reads) s = hash_loop reads (update s (b ∷ bs))

  compare_digest : List ℕ → Result Text State → Result Text (Unit {0})
  compare_digest expected (err e) = err e
  compare_digest expected (ok s) =
      let got = finalize s in
      if text_eq got expected
      then ok tt
      else err (
          codes "sha256 mismatch: expected "
          ++ (show_hash expected ++ (codes ", got " ++ show_hash got)))

  -- From the outcome of opening the file and the reads that follow.
  unfoldable pub verify_sha256 :
      Result Text (List (Result Text (List ℕ))) → List ℕ → Result Text (Unit {0})
  unfolding hash_loop compare_digest show_hash
  verify_sha256 (err e) expected = err e
  verify_sha256 (ok reads) expected = compare_digest expected (hash_loop reads init)

  -- The reads of a file: its contents in pieces that are not empty, then an empty one.
  abbrev pub reads_of : List (List ℕ) → List (Result Text (List ℕ))
  reads_of [] = ok [] ∷ []
  reads_of (piece ∷ pieces) = ok piece ∷ reads_of pieces

  abbrev pub joined : List (List ℕ) → List ℕ
  joined [] = []
  joined (piece ∷ pieces) = piece ++ joined pieces

  module _ (streaming : IsStreaming H) where
    hash_loop-reads :
        (pieces : List (List ℕ)) (s : State)
        → All (λ p. p ≢ []) pieces
        → hash_loop (reads_of pieces) s ≡ ok (update s (joined pieces))
    unfolding hash_loop
    hash_loop-reads [] s h = rw streaming.update_nil
    hash_loop-reads ([] ∷ pieces) s (h, _) = absurd (h refl)
    hash_loop-reads ((b ∷ bs) ∷ pieces) s (_, h) =
        hash_loop-reads pieces (update s (b ∷ bs)) h ∙ rw streaming.update_append

    compare_digest_iff :
        (expected : List ℕ) (s : State)
        → (compare_digest expected (ok s) ≡ ok tt) ↔ (finalize s ≡ expected)
    unfolding compare_digest
    compare_digest_iff expected s = elim (Bool-cases (text_eq (finalize s) expected)) [
      | inl same ↦ (λ _. (text_eq_iff _ _).0 same, λ _. rw same)
      | inr other ↦ (λ h. cc (rw other at h), λ e. cc ((text_eq_iff _ _).1 e))
    ]

    -- With a hash that streams, a package that can be read passes exactly when the digest of its whole contents is the
    -- manifest's, however the reads cut it into pieces.
    pub verify_sha256-ok_iff :
        (pieces : List (List ℕ)) (expected : List ℕ)
        → All (λ p. p ≢ []) pieces
        → (verify_sha256 (ok (reads_of pieces)) expected ≡ ok tt)
          ↔ (digest (joined pieces) ≡ expected)
    unfolding verify_sha256
    verify_sha256-ok_iff pieces expected h =
        rw (hash_loop-reads pieces init h)
          (compare_digest_iff expected (update init (joined pieces)))
