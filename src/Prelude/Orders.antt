-- ===== src/Prelude/Orders.antt =====
-- Three-way comparisons: Go's `int` results -1, 0 and 1 are `lt`, `eq` and `gt`.
use Prim.Native.Nat.{ℕ, compare, Ordering, lt, eq, gt}
use mathlib.Core.Path.{◌≡◌, refl}
use native.Mathlib.Omega.{arith}

-- The first comparison that decides.
infixr 30 ◌then◌
abbrev pub ◌then◌ : Ordering → Ordering → Ordering
lt then o = lt
eq then o = o
gt then o = gt

-- The result with the sides exchanged.
abbrev pub flip : Ordering → Ordering
flip lt = gt
flip eq = eq
flip gt = lt

-- What transitivity says of the comparisons of a with b, of b with c, and of a with c.
abbrev pub Chains : Ordering → Ordering → Ordering → Type 0
Chains lt lt o = o ≡ lt
Chains lt eq o = o ≡ lt
Chains lt gt o = Unit
Chains eq p o = o ≡ p
Chains gt p o = Unit

pub flip-then : (p q : Ordering) → flip (p then q) ≡ flip p then flip q
flip-then lt q = refl
flip-then eq q = refl
flip-then gt q = refl

pub Chains-lt : (q : Ordering) → Chains lt q lt
Chains-lt lt = refl
Chains-lt eq = refl
Chains-lt gt = tt

Chains-to_lt : (q : Ordering) → Chains q lt lt
Chains-to_lt lt = refl
Chains-to_lt eq = refl
Chains-to_lt gt = tt

pub Chains-to_gt : (q : Ordering) → Chains q gt gt
Chains-to_gt lt = tt
Chains-to_gt eq = refl
Chains-to_gt gt = tt

pub Chains-then :
    (p₁ p₂ p₃ q₁ q₂ q₃ : Ordering)
    → Chains p₁ p₂ p₃
    → (p₁ ≡ eq → p₂ ≡ eq → Chains q₁ q₂ q₃)
    → Chains (p₁ then q₁) (p₂ then q₂) (p₃ then q₃)
Chains-then lt lt p₃ q₁ q₂ q₃ h k = rw h
Chains-then lt eq p₃ q₁ q₂ q₃ h k = rw h (Chains-lt q₂)
Chains-then lt gt p₃ q₁ q₂ q₃ h k = tt
Chains-then eq lt p₃ q₁ q₂ q₃ h k = rw h (Chains-to_lt q₁)
Chains-then eq eq p₃ q₁ q₂ q₃ h k = rw h (k refl refl)
Chains-then eq gt p₃ q₁ q₂ q₃ h k = rw h (Chains-to_gt q₁)
Chains-then gt p₂ p₃ q₁ q₂ q₃ h k = tt

pub compare-flip : (a b : ℕ) → compare b a ≡ flip (compare a b)
compare-flip a b = ground arith

pub compare-Chains : (a b c : ℕ) → Chains (compare a b) (compare b c) (compare a c)
compare-Chains a b c = ground arith

pub compare_refl : (a : ℕ) → compare a a ≡ eq
compare_refl a = ground arith
