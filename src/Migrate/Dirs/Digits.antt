-- ===== src/Migrate/Dirs/Digits.antt =====
-- The decimal forms in the numbered names of `unique_name`.
use gnosis_vpn_toolkit.Prelude.{
  false, ℕ, zero, suc, ◌+◌, ◌-◌, ◌*◌, ◌/◌, ◌%◌, ◌≤◌, [], ◌∷◌, ◌++◌, ◌≡◌, ◌≢◌, refl, sym, ◌∙◌, ap,
  inl, inr, arith, Bool-cases, ◌==◌, ==_iff,
}
use gnosis_vpn_toolkit.Prelude.Text.{Text, codes, show_nat, show_digits}
use gnosis_vpn_toolkit.FilePath.{is_slash}
use gnosis_vpn_toolkit.FilePath.Plain.{IsSlashFree}
use gnosis_vpn_toolkit.Migrate.Dirs.{numbered}

-- The number of which these digits are the rest.
value_from : ℕ → Text → ℕ
value_from v [] = v
value_from v (c ∷ s) = value_from (v * 10 + (c - b'0')) s

value_from-show_digits :
    (fuel n : ℕ) (acc : Text)
    → n ≤ fuel
    → value_from 0 (show_digits (suc fuel) n acc) ≡ value_from n acc
unfolding value_from show_digits
value_from-show_digits zero n acc h = let e : n ≡ 0 = omega (arith, h) in rw e refl
value_from-show_digits (suc fuel) n acc h = elim (Bool-cases (n / 10 == 0)) [
  | inl last ↦
      let low : n / 10 ≡ 0 = (==_iff (n / 10) 0).0 last in
      let e : 0 * 10 + ((n % 10 + b'0') - b'0') ≡ n = omega (arith, low) in
      rw last (ap (λ v. value_from v acc) e)
  | inr more ↦
      let high : n / 10 ≢ 0 = λ z. cc (more, (==_iff (n / 10) 0).1 z) in
      let e : (n / 10) * 10 + ((n % 10 + b'0') - b'0') ≡ n = omega arith in
      let fits : n / 10 ≤ fuel = omega (arith, high, h) in
      rw more (
        value_from-show_digits fuel (n / 10) ((n % 10 + b'0') ∷ acc) fits
        ∙ ap (λ v. value_from v acc) e)
]

pub show_nat-injective : (a b : ℕ) → show_nat a ≡ show_nat b → a ≡ b
unfolding show_nat value_from
show_nat-injective a b e =
    sym (value_from-show_digits a a [] (omega arith))
    ∙ ap (value_from 0) e
    ∙ value_from-show_digits b b [] (omega arith)

append-cancel : (c s t : Text) → c ++ s ≡ c ++ t → s ≡ t
append-cancel [] s t e = e
append-cancel (x ∷ c) s t e = append-cancel c s t (ground arith)

pub numbered-injective :
    (candidate : Text) (a b : ℕ) → numbered candidate a ≡ numbered candidate b → a ≡ b
numbered-injective candidate a b e =
    show_nat-injective a b (append-cancel (codes ".") _ _ (append-cancel candidate _ _ e))

show_digits-IsSlashFree :
    (fuel n : ℕ) (acc : Text) → IsSlashFree acc → IsSlashFree (show_digits fuel n acc)
unfolding show_digits
show_digits-IsSlashFree zero n acc free = free
show_digits-IsSlashFree (suc fuel) n acc free =
    let digit : is_slash (n % 10 + b'0') ≡ false = ground arith in
    elim (Bool-cases (n / 10 == 0)) [
      | inl last ↦ rw last (digit, free)
      | inr more ↦
          rw more (show_digits-IsSlashFree fuel (n / 10) ((n % 10 + b'0') ∷ acc) (digit, free))
    ]

pub show_nat-IsSlashFree : (n : ℕ) → IsSlashFree (show_nat n)
unfolding show_nat
show_nat-IsSlashFree n = show_digits-IsSlashFree (suc n) n [] tt
