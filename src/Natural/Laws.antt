-- ===== src/Natural/Laws.antt =====
-- The comparison always returns, and is an order.
use omniflow_go.Prelude.{
  ℕ, ◌≡◌, refl, compare, Ordering, lt, eq, gt, ◌then◌, List, [], ◌∷◌, arith, length, flip, Chains,
  flip-then, Chains-then, compare-flip, compare-Chains, compare_refl,
}
use omniflow_go.Natural.{strip_zeros, compare_digits, compare_runs}

compare_digits-flip : (xs ys : List ℕ) → compare_digits ys xs ≡ flip (compare_digits xs ys)
unfolding compare_digits
compare_digits-flip [] [] = refl
compare_digits-flip [] (y ∷ ys) = refl
compare_digits-flip (x ∷ xs) [] = refl
compare_digits-flip (x ∷ xs) (y ∷ ys) =
    rw (flip-then, compare-flip x y, compare_digits-flip xs ys) refl

compare_digits-Chains :
    (xs ys zs : List ℕ)
    → length xs ≡ length ys
    → length ys ≡ length zs
    → Chains (compare_digits xs ys) (compare_digits ys zs) (compare_digits xs zs)
unfolding compare_digits
compare_digits-Chains [] [] [] h k = refl
compare_digits-Chains (x ∷ xs) (y ∷ ys) (z ∷ zs) h k =
    Chains-then _ _ _ _ _ _ (compare-Chains x y z)
      (λ _ _. compare_digits-Chains xs ys zs (omega arith) (omega arith))
compare_digits-Chains [] [] (z ∷ zs) h k = absurd (omega arith)
compare_digits-Chains [] (y ∷ ys) zs h k = absurd (omega arith)
compare_digits-Chains (x ∷ xs) [] zs h k = absurd (omega arith)
compare_digits-Chains (x ∷ xs) (y ∷ ys) [] h k = absurd (omega arith)

pub compare_runs-flip : (xs ys : List ℕ) → compare_runs ys xs ≡ flip (compare_runs xs ys)
unfolding compare_runs
compare_runs-flip xs ys =
    rw
      (
        flip-then,
        flip-then,
        ← compare-flip (length (strip_zeros xs)) (length (strip_zeros ys)),
        ← compare_digits-flip (strip_zeros xs) (strip_zeros ys),
        ← compare-flip (length xs) (length ys),
      )
      refl

pub compare-eq : (a b : ℕ) → compare a b ≡ eq → a ≡ b
compare-eq a b h = ground arith

pub compare_runs-Chains :
    (xs ys zs : List ℕ) → Chains (compare_runs xs ys) (compare_runs ys zs) (compare_runs xs zs)
unfolding compare_runs
compare_runs-Chains xs ys zs =
    Chains-then _ _ _ _ _ _
      (compare-Chains (length (strip_zeros xs)) (length (strip_zeros ys)) (length (strip_zeros zs)))
      λ p q.
        Chains-then _ _ _ _ _ _
          (compare_digits-Chains (strip_zeros xs) (strip_zeros ys) (strip_zeros zs)
            (compare-eq _ _ p) (compare-eq _ _ q))
          λ _ _. compare-Chains (length xs) (length ys) (length zs)

then-eq : (p q : Ordering) → (p then q) ≡ eq → q ≡ eq
then-eq lt q h = cc
then-eq eq q h = h
then-eq gt q h = cc

-- Runs that compare equal have the same length, so both indices stay level.
pub compare_runs-eq : (xs ys : List ℕ) → compare_runs xs ys ≡ eq → length xs ≡ length ys
unfolding compare_runs
compare_runs-eq xs ys h = compare-eq _ _ (then-eq _ _ (then-eq _ _ h))

compare_digits_refl : (xs : List ℕ) → compare_digits xs xs ≡ eq
unfolding compare_digits
compare_digits_refl [] = refl
compare_digits_refl (x ∷ xs) = rw (compare_refl x) (compare_digits_refl xs)

pub compare_runs_refl : (xs : List ℕ) → compare_runs xs xs ≡ eq
unfolding compare_runs
compare_runs_refl xs =
    rw (compare_refl (length (strip_zeros xs)), compare_digits_refl (strip_zeros xs))
      (compare_refl (length xs))
