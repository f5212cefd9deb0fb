-- ===== src/Migrate/Dirs/Unique.antt =====
-- The search of `unique_name`.
use gnosis_vpn_toolkit.Prelude.{
  sym, [], ◌++◌, append-nil, ℕ, zero, suc, ◌≤◌, ◌<◌, false, none, some, ◌≡◌, refl, subst, ◌∙◌, ap,
  inl, inr, arith, length, Bool-cases, Option-cases, Result, ok, err,
}
use gnosis_vpn_toolkit.Prelude.Text.{Text, codes, show_nat}
use gnosis_vpn_toolkit.FilePath.Plain.{IsSlashFree}
use gnosis_vpn_toolkit.Migrate.Dirs.{
  Dir, lookup, delete, Host, is_some, exists, numbered, next_name, unique_name,
}
use gnosis_vpn_toolkit.Migrate.Dirs.Names.{lookup-delete_other, length-delete_lt}
use gnosis_vpn_toolkit.Migrate.Dirs.Digits.{numbered-injective, show_nat-IsSlashFree}

-- A name that is not taken, and is the candidate with something slash-free behind it.
abbrev pub IsFresh : Dir → Text → Text → Type 0
IsFresh d candidate name =
    (lookup name d ≡ none) × ((suffix : Text) × IsSlashFree suffix × (name ≡ candidate ++ suffix))

module _ (h : Host) (d : Dir) (candidate : Text) where
  not_some : (name : Text) → is_some (lookup name d) ≡ false → lookup name d ≡ none
  not_some name free = ground arith

  -- The entries that the rounds still to come may meet are all in `left`.
  next_name-returns :
      (n rounds : ℕ) (left : Dir)
      → ((m : ℕ) → n ≤ m → lookup (numbered candidate m) left ≡ lookup (numbered candidate m) d)
      → length left < rounds
      → (r : Result Text Text) × (next_name h d candidate n rounds ≡ some r)
  unfolding next_name exists
  next_name-returns n zero left same short = absurd (omega (arith, short))
  next_name-returns n (suc rounds) left same short =
      elim (Option-cases (h.stat_error (numbered candidate n))) [
        | inr (e, failing) ↦ (err e, ground arith)
        | inl fine ↦ elim (Bool-cases (is_some (lookup (numbered candidate n) d))) [
          | inr free ↦ (ok (numbered candidate n), ground arith)
          | inl taken ↦
              let (r, found) =
                next_name-returns (suc n) rounds (delete (numbered candidate n) left)
                  (λ m le.
                    lookup-delete_other (numbered candidate m) (numbered candidate n) left
                      (λ e. absurd (omega (arith, le, numbered-injective candidate m n e)))
                    ∙ same m (omega (arith, le)))
                  (let lt =
                      length-delete_lt (numbered candidate n) left
                        (ap is_some (same n (omega arith)) ∙ taken) in
                    omega (arith, lt, short)) in
              (r, ground arith)
        ]
      ]

  next_name-IsFresh :
      (n rounds : ℕ) {name : Text}
      → next_name h d candidate n rounds ≡ some (ok name)
      → IsFresh d candidate name
  unfolding next_name exists
  next_name-IsFresh n zero found = absurd (ground arith)
  next_name-IsFresh n (suc rounds) {name} found =
      elim (Option-cases (h.stat_error (numbered candidate n))) [
        | inr (e, failing) ↦ absurd (ground arith)
        | inl fine ↦ elim (Bool-cases (is_some (lookup (numbered candidate n) d))) [
          | inl taken ↦ next_name-IsFresh (suc n) rounds (ground arith)
          | inr free ↦
              let e : numbered candidate n ≡ name = ground arith in
              subst (IsFresh d candidate) e (
                not_some (numbered candidate n) free,
                (codes "." ++ show_nat n, (refl, show_nat-IsSlashFree n), refl),
              )
        ]
      ]

  -- Whatever names are taken already, a new name is found or the host reports an error: the search
  -- ends. A name that is found is free, so that a rename to it overwrites nothing, and it is the
  -- candidate with a suffix that holds no slash.
  pub unique_name-IsFresh :
      (r : Result Text Text) × (unique_name h d candidate ≡ some r)
      × ((name : Text) → r ≡ ok name → IsFresh d candidate name)
  unfolding unique_name exists
  unique_name-IsFresh = elim (Option-cases (h.stat_error candidate)) [
    | inr (e, failing) ↦ (err e, ground arith, λ name e. absurd (ground arith))
    | inl fine ↦ elim (Bool-cases (is_some (lookup candidate d))) [
      | inr free ↦ (
        ok candidate,
        ground arith,
        λ name e.
            let same : candidate ≡ name = ground arith in
            subst (IsFresh d candidate) same
              (not_some candidate free, ([], tt, sym (append-nil candidate))),
      )
      | inl taken ↦
          let (r, found) = next_name-returns 1 (suc (length d)) d (λ m le. refl) (omega arith) in
          (r, ground arith, λ name e. next_name-IsFresh 1 (suc (length d)) (cc (e, found)))
    ]
  ]
