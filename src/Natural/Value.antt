-- ===== src/Natural/Value.antt =====
-- Two runs of digits are ordered by the numbers that they write.
use native.Mathlib.Nat.{pow-suc}
use native.Mathlib.Decide.{dec_le}
use omniflow_go.Prelude.{
  ℕ, zero, suc, ◌+◌, ◌-◌, ◌*◌, ◌^◌, ◌≤◌, ◌<◌, ◌≡◌, refl, compare, Ordering, ◌then◌, List, [], ◌∷◌,
  arith, if◌then◌else◌, length, All,
}
use omniflow_go.Natural.{strip_zeros, compare_digits, compare_runs}

abbrev pub IsDigit : ℕ → Type 0
IsDigit c = (48 ≤ c) × (c ≤ 57)

-- The number that a run of digits writes.
pub value : List ℕ → ℕ
value [] = 0
value (x ∷ xs) = (x - 48) * 10 ^ length xs + value xs

value-strip_zeros : (xs : List ℕ) → value (strip_zeros xs) ≡ value xs
unfolding value strip_zeros
value-strip_zeros [] = refl
value-strip_zeros (x ∷ xs) = grind (arith, value-strip_zeros xs)

value-lt : (xs : List ℕ) → All IsDigit xs → value xs < 10 ^ length xs
unfolding value
value-lt [] h = omega arith
value-lt (x ∷ xs) h =
    let t : (x - 48) * 10 ^ length xs ≤ 9 * 10 ^ length xs = grind arith in
    rw pow-suc (omega (arith, value-lt xs h.1))

-- A run with no leading zero, unless it is empty.
abbrev NoZero : List ℕ → Type 0
NoZero [] = Unit
NoZero (x ∷ xs) = 48 < x

strip_zeros-NoZero : (xs : List ℕ) → All IsDigit xs → NoZero (strip_zeros xs)
unfolding strip_zeros
strip_zeros-NoZero [] h = tt
strip_zeros-NoZero (x ∷ xs) h = ground (arith, strip_zeros-NoZero xs h.1)

strip_zeros-All : (xs : List ℕ) → All IsDigit xs → All IsDigit (strip_zeros xs)
unfolding strip_zeros
strip_zeros-All [] h = tt
strip_zeros-All (x ∷ xs) h = ground (arith, strip_zeros-All xs h.1)

value-ge : (x : ℕ) (xs : List ℕ) → 48 < x → 10 ^ length xs ≤ value (x ∷ xs)
unfolding value
value-ge x xs h = grind arith

pow-le : (m n : ℕ) → m ≤ n → 10 ^ m ≤ 10 ^ n
pow-le m zero h = let e : m ≡ 0 = omega arith in rw e (omega arith)
pow-le m (suc n) h = elim (dec_le m n) [
  | yes l ↦ rw pow-suc (omega (arith, pow-le m n l))
  | no l ↦ let e : m ≡ suc n = omega arith in rw e (omega arith)
]

-- More significant digits make a larger number.
shorter-lt :
    (xs ys : List ℕ) → All IsDigit xs → NoZero ys → length xs < length ys → value xs < value ys
shorter-lt xs [] h k l = absurd (omega arith)
shorter-lt xs (y ∷ ys) h k l =
    omega (arith, value-lt xs h, value-ge y ys k, pow-le (length xs) (length ys))

-- A larger leading digit outweighs all that follow.
lead-lt : (x y p a b : ℕ) → 48 ≤ x → x < y → a < p → (x - 48) * p + a < (y - 48) * p + b
lead-lt x y p a b h k l = let t : (x - 48 + 1) * p ≤ (y - 48) * p = grind arith in omega arith

digit_step :
    (x y p a b : ℕ)
    → IsDigit x
    → IsDigit y
    → a < p
    → b < p
    → compare x y then compare a b ≡ compare ((x - 48) * p + a) ((y - 48) * p + b)
digit_step x y p a b h k l m = ground (arith, lead-lt x y p a b h.0, lead-lt y x p b a k.0)

digits_value :
    (xs ys : List ℕ)
    → All IsDigit xs
    → All IsDigit ys
    → length xs ≡ length ys
    → compare_digits xs ys ≡ compare (value xs) (value ys)
unfolding compare_digits value
digits_value [] [] h k e = refl
digits_value [] (y ∷ ys) h k e = absurd (omega arith)
digits_value (x ∷ xs) [] h k e = absurd (omega arith)
digits_value (x ∷ xs) (y ∷ ys) h k e =
    let e' : length ys ≡ length xs = omega arith in
    rw (digits_value xs ys h.1 k.1 (omega arith), e')
      (digit_step x y (10 ^ length xs) (value xs) (value ys) h.0 k.0 (value-lt xs h.1)
        (rw e' at (value-lt ys k.1)))

runs_step :
    (s t : List ℕ) (o : Ordering)
    → All IsDigit s
    → All IsDigit t
    → NoZero s
    → NoZero t
    → (compare (length s) (length t) then compare_digits s t then o)
      ≡ (compare (value s) (value t) then o)
runs_step s t o h k m n =
    ground (arith, shorter-lt s t h n, shorter-lt t s k m, digits_value s t h k)

-- Runs of digits are ordered by their numbers, and runs of the same number by their lengths.
pub compare_runs-value :
    (xs ys : List ℕ)
    → All IsDigit xs
    → All IsDigit ys
    → compare_runs xs ys ≡ compare (value xs) (value ys) then compare (length xs) (length ys)
unfolding compare_runs
compare_runs-value xs ys h k =
    rw (← value-strip_zeros xs, ← value-strip_zeros ys)
      (runs_step (strip_zeros xs) (strip_zeros ys) (compare (length xs) (length ys))
        (strip_zeros-All xs h) (strip_zeros-All ys k) (strip_zeros-NoZero xs h)
        (strip_zeros-NoZero ys k))
