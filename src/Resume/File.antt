-- ===== src/Resume/File.antt =====
-- An open file with its position: the operations of `tokio::fs::File` that the download uses, with
-- the meaning that the standard library documents for them.
use gnosis_vpn_toolkit.Prelude.{
  ℕ, zero, suc, ◌+◌, ◌-◌, ◌≤◌, List, [], ◌∷◌, ◌++◌, ◌≡◌, refl, ap, sym, subst, append-nil, arith,
  length, take, drop, replicate,
}

pub record File : Type 0 where
  pub contents : List ℕ
  pub pos : ℕ

abbrev pub empty_file : File
empty_file = record { contents = []; pos = 0 }

-- Writing past the end fills the gap with zeros.
abbrev padded : ℕ → List ℕ → List ℕ
padded pos contents = contents ++ replicate (pos - length contents) 0

unfoldable pub write_all : File → List ℕ → File
write_all f bytes = record {
  contents =
      take f.pos (padded f.pos f.contents) ++ (bytes ++ drop (f.pos + length bytes) f.contents);
  pos = f.pos + length bytes;
}

-- `set_len(0)` leaves the position where it is.
unfoldable pub truncate : File → File
truncate f = record { contents = []; pos = f.pos }

unfoldable pub rewind : File → File
rewind f = record { contents = f.contents; pos = 0 }

take-length : (xs : List ℕ) → take (length xs) xs ≡ xs
take-length [] = refl
take-length (x ∷ xs) = ap (λ t. x ∷ t) (take-length xs)

drop-beyond : (n : ℕ) (xs : List ℕ) → length xs ≤ n → drop n xs ≡ []
drop-beyond zero [] h = refl
drop-beyond (suc n) [] h = refl
drop-beyond zero (x ∷ xs) h = absurd (omega arith)
drop-beyond (suc n) (x ∷ xs) h = drop-beyond n xs (omega arith)

overwrite-at_end :
    (c bytes : List ℕ)
    → take (length c) (padded (length c) c) ++ (bytes ++ drop (length c + length bytes) c)
      ≡ c ++ bytes
overwrite-at_end c bytes =
    let e : length c - length c ≡ 0 = omega arith in
    rw e (
      rw append-nil
        (rw (take-length c, drop-beyond (length c + length bytes) c (omega arith)) (rw append-nil)))

-- At the end of the file a write appends.
pub write_all-at_end :
    (f : File) (bytes : List ℕ)
    → f.pos ≡ length f.contents
    → (write_all f bytes).contents ≡ f.contents ++ bytes
unfolding write_all
write_all-at_end f bytes h =
    subst
      (λ p.
        take p (padded p f.contents) ++ (bytes ++ drop (p + length bytes) f.contents)
        ≡ f.contents ++ bytes)
      (sym h) (overwrite-at_end f.contents bytes)

pub write_all-pos : (f : File) (bytes : List ℕ) → (write_all f bytes).pos ≡ f.pos + length bytes
unfolding write_all
write_all-pos f bytes = refl
