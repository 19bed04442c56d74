-- ===== src/Text/Laws.antt =====
-- Equality of texts, trimming, and the length of a number.
use native.Mathlib.Nat.{pow-suc}
use omniflow_go.Prelude.{
  ℕ, zero, suc, ◌+◌, ◌/◌, ◌%◌, ◌*◌, ◌^◌, ◌≤◌, ◌<◌, ◌≡◌, refl, true, [], ◌∷◌, arith, length,
  drop_while,
}
use omniflow_go.Text.{Text, eqb, is_space, trim_right, trim_space, decimal_loop, decimal}

pub eqb_refl : (s : Text) → eqb s s ≡ true
unfolding eqb
eqb_refl [] = refl
eqb_refl (x ∷ xs) = ground (arith, eqb_refl xs)

pub eqb→≡ : (s t : Text) → eqb s t ≡ true → s ≡ t
unfolding eqb
eqb→≡ [] [] h = refl
eqb→≡ [] (y ∷ ys) h = cc
eqb→≡ (x ∷ xs) [] h = cc
eqb→≡ (x ∷ xs) (y ∷ ys) h = ground (arith, eqb→≡ xs ys)

trim_right_idem : (t : Text) → trim_right (trim_right t) ≡ trim_right t
unfolding trim_right
trim_right_idem [] = refl
trim_right_idem (x ∷ xs) = ground (arith, trim_right_idem xs)

drop_while-trim_right :
    (t : Text)
    → drop_while is_space (trim_right (drop_while is_space t)) ≡ trim_right (drop_while is_space t)
unfolding trim_right
drop_while-trim_right [] = refl
drop_while-trim_right (x ∷ xs) = ground (arith, drop_while-trim_right xs)

pub trim_space_idem : (t : Text) → trim_space (trim_space t) ≡ trim_space t
unfolding trim_space
trim_space_idem t = rw drop_while-trim_right (trim_right_idem (drop_while is_space t))

decimal_loop-length :
    (k fuel n : ℕ) (out : Text)
    → n < 10 ^ suc k
    → length (decimal_loop fuel n out) ≤ suc k + length out
unfolding decimal_loop
decimal_loop-length k zero n out h = omega arith
decimal_loop-length zero (suc fuel) n out h = ground arith
decimal_loop-length (suc k) (suc fuel) n out h =
    let h' : n < 10 ^ suc k * 10 = rw pow-suc at h in
    ground (arith, decimal_loop-length k fuel (n / 10) ((48 + n % 10) ∷ out))

-- A number below 10 ^ (k + 1) has at most k + 1 digits.
pub decimal-length : (k n : ℕ) → n < 10 ^ suc k → length (decimal n) ≤ suc k
unfolding decimal
decimal-length k n h = omega (arith, decimal_loop-length k (suc n) n [] h)
