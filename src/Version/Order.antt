-- ===== src/Version/Order.antt =====
-- The comparison of versions as an order: `compare_components` against a recursion on the lists.
use gnosis_vpn_toolkit.Prelude.{
  ℕ, zero, suc, max, ◌≤◌, compare, Ordering, Bool, true, false, List, [], ◌∷◌, ◌≡◌, refl, ◌∙◌,
  arith, length,
}
use gnosis_vpn_toolkit.Prelude.Text.{Text}
use gnosis_vpn_toolkit.Version.{parts, compare_from, compare_components}

abbrev pub then_with : Ordering → Ordering → Ordering
then_with Ordering.lt o = Ordering.lt
then_with Ordering.gt o = Ordering.gt
then_with Ordering.eq o = o

abbrev pub reverse_ordering : Ordering → Ordering
reverse_ordering Ordering.lt = Ordering.gt
reverse_ordering Ordering.gt = Ordering.lt
reverse_ordering Ordering.eq = Ordering.eq

-- Not greater.
abbrev pub is_le : Ordering → Bool
is_le Ordering.gt = false
is_le _ = true

-- Lexicographic order of number lists, the shorter one padded by zeros.
pub lex : List ℕ → List ℕ → Ordering
lex [] [] = Ordering.eq
lex [] (b ∷ bs) = then_with (compare 0 b) (lex [] bs)
lex (a ∷ as') [] = then_with (compare a 0) (lex as' [])
lex (a ∷ as') (b ∷ bs) = then_with (compare a b) (lex as' bs)

compare_from-tails :
    (x y : ℕ) (a b : List ℕ) (left i : ℕ)
    → compare_from (x ∷ a) (y ∷ b) left (suc i) ≡ compare_from a b left i
unfolding compare_from
compare_from-tails x y a b zero i = refl
compare_from-tails x y a b (suc left) i = ground (arith, compare_from-tails x y a b left (suc i))

compare_from-left_nil :
    (y : ℕ) (b : List ℕ) (left i : ℕ)
    → compare_from [] (y ∷ b) left (suc i) ≡ compare_from [] b left i
unfolding compare_from
compare_from-left_nil y b zero i = refl
compare_from-left_nil y b (suc left) i = ground (arith, compare_from-left_nil y b left (suc i))

compare_from-right_nil :
    (x : ℕ) (a : List ℕ) (left i : ℕ)
    → compare_from (x ∷ a) [] left (suc i) ≡ compare_from a [] left i
unfolding compare_from
compare_from-right_nil x a zero i = refl
compare_from-right_nil x a (suc left) i = ground (arith, compare_from-right_nil x a left (suc i))

compare_from-nil : (left i : ℕ) → compare_from [] [] left i ≡ Ordering.eq
unfolding compare_from
compare_from-nil zero i = refl
compare_from-nil (suc left) i = ground (arith, compare_from-nil left (suc i))

-- With a round for each component the loop computes `lex`.
compare_from-eq-lex :
    (left : ℕ) (a b : List ℕ)
    → length a ≤ left
    → length b ≤ left
    → compare_from a b left 0 ≡ lex a b
unfolding compare_from lex
compare_from-eq-lex zero [] [] p q = refl
compare_from-eq-lex zero [] (y ∷ b) p q = absurd (omega arith)
compare_from-eq-lex zero (x ∷ a) b p q = absurd (omega arith)
compare_from-eq-lex (suc left) [] [] p q = ground (arith, compare_from-nil left 1)
compare_from-eq-lex (suc left) [] (y ∷ b) p q =
    ground (arith, compare_from-left_nil y b left 0, compare_from-eq-lex left [] b)
compare_from-eq-lex (suc left) (x ∷ a) [] p q =
    ground (arith, compare_from-right_nil x a left 0, compare_from-eq-lex left a [])
compare_from-eq-lex (suc left) (x ∷ a) (y ∷ b) p q =
    ground (arith, compare_from-tails x y a b left 0, compare_from-eq-lex left a b)

-- Comparing two versions is the lexicographic comparison of their components, with the shorter
-- list of components padded by zeros.
pub compare_components-eq-lex : (a b : Text) → compare_components a b ≡ lex (parts a) (parts b)
unfolding compare_components
compare_components-eq-lex a b =
    compare_from-eq-lex (max (length (parts a)) (length (parts b))) (parts a) (parts b)
      (omega arith) (omega arith)

lex_refl : (a : List ℕ) → lex a a ≡ Ordering.eq
unfolding lex
lex_refl [] = refl
lex_refl (x ∷ a) = ground (arith, lex_refl a)

lex-reverse : (a b : List ℕ) → lex b a ≡ reverse_ordering (lex a b)
unfolding lex
lex-reverse [] [] = refl
lex-reverse [] (y ∷ b) = ground (arith, lex-reverse [] b)
lex-reverse (x ∷ a) [] = ground (arith, lex-reverse a [])
lex-reverse (x ∷ a) (y ∷ b) = ground (arith, lex-reverse a b)

lex_trans :
    (a b c : List ℕ) → is_le (lex a b) ≡ true → is_le (lex b c) ≡ true → is_le (lex a c) ≡ true
unfolding lex
lex_trans [] [] [] p q = refl
lex_trans [] [] (z ∷ c) p q = q
lex_trans [] (y ∷ b) [] p q = refl
lex_trans [] (y ∷ b) (z ∷ c) p q = ground (arith, lex_trans [] b c)
lex_trans (x ∷ a) [] [] p q = p
lex_trans (x ∷ a) [] (z ∷ c) p q = ground (arith, lex_trans a [] c)
lex_trans (x ∷ a) (y ∷ b) [] p q = ground (arith, lex_trans a b [])
lex_trans (x ∷ a) (y ∷ b) (z ∷ c) p q = ground (arith, lex_trans a b c)

pub compare_components_refl : (a : Text) → compare_components a a ≡ Ordering.eq
compare_components_refl a = compare_components-eq-lex a a ∙ lex_refl (parts a)

-- Exchanging the two versions reverses the verdict, so two versions never beat each other.
pub compare_components-reverse :
    (a b : Text) → compare_components b a ≡ reverse_ordering (compare_components a b)
compare_components-reverse a b =
    cc (
      compare_components-eq-lex a b,
      compare_components-eq-lex b a,
      lex-reverse (parts a) (parts b),
    )

-- The comparison is transitive: a version that is not newer than a second one, which is not newer
-- than a third, is not newer than the third.
pub compare_components_trans :
    (a b c : Text)
    → is_le (compare_components a b) ≡ true
    → is_le (compare_components b c) ≡ true
    → is_le (compare_components a c) ≡ true
compare_components_trans a b c p q = rw compare_components-eq-lex (
    lex_trans (parts a) (parts b) (parts c) (rw compare_components-eq-lex at p)
      (rw compare_components-eq-lex at q))
