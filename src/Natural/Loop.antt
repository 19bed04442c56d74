-- ===== src/Natural/Loop.antt =====
-- The loop returns, and its result turns round with its arguments, for any tables.
use mathlib.Core.Option
use native.Mathlib.Nat.{add_comm}
use omniflow_go.Prelude.{
  ℕ, zero, suc, ◌+◌, ◌≤◌, ◌<◌, ◌≡◌, refl, compare, Ordering, lt, eq, gt, Bool, true, false, ◌&&◌,
  Option, some, List, [], ◌∷◌, arith, length, drop_while, length-take_while-drop_while, flip,
  compare-flip, ap,
}
use omniflow_go.Natural.{Tables, compare_heads, skip_head, natural_loop, natural_compare}
use omniflow_go.Natural.Laws.{compare_runs-flip}

-- A decided comparison ends the loop.
abbrev pub decide : Ordering → Option Ordering → Option Ordering
decide lt rest = some lt
decide eq rest = rest
decide gt rest = some gt

decide_lem :
    (o : Ordering) (rest : Option Ordering)
    → (elim o [ eq ↦ rest | lt ↦ some lt | gt ↦ some gt ]) ≡ decide o rest
decide_lem lt rest = refl
decide_lem eq rest = refl
decide_lem gt rest = refl

decide_total :
    (o : Ordering) (rest : Option Ordering)
    → (p : Ordering) × (rest ≡ some p)
    → (p : Ordering) × (decide o rest ≡ some p)
decide_total lt rest h = (lt, refl)
decide_total eq rest h = h
decide_total gt rest h = (gt, refl)

decide-flip :
    (o : Ordering) (rest : Option Ordering)
    → decide (flip o) (Option.map flip rest) ≡ Option.map flip (decide o rest)
decide-flip lt rest = refl
decide-flip eq rest = refl
decide-flip gt rest = refl

module _ (u : Tables) where
  open u use {is_digit, to_lower}

  -- The test of a round.
  abbrev pub both : ℕ → ℕ → Bool
  both x y = is_digit x && is_digit y

  both_comm : (x y : ℕ) → both x y ≡ both y x
  both_comm x y = ground arith

  pub natural_loop_step :
      (f m n x y : ℕ) (xs ys : List ℕ)
      → natural_loop u (suc f) m n (x ∷ xs) (y ∷ ys)
        ≡ decide (compare_heads u (both x y) (x ∷ xs) (y ∷ ys)) (
            natural_loop u f m n
              (skip_head u (both x y) (x ∷ xs))
              (skip_head u (both x y) (y ∷ ys)))
  unfolding natural_loop
  natural_loop_step f m n x y xs ys =
      decide_lem (compare_heads u (both x y) (x ∷ xs) (y ∷ ys))
        (natural_loop u f m n (skip_head u (both x y) (x ∷ xs)) (skip_head u (both x y) (y ∷ ys)))

  pub drop_while-le : (xs : List ℕ) → length (drop_while is_digit xs) ≤ length xs
  drop_while-le xs = omega (arith, length-take_while-drop_while is_digit xs)

  -- Every round consumes a rune of each name.
  pub skip_head-lt : (x y : ℕ) (xs : List ℕ) → length (skip_head u (both x y) (x ∷ xs)) ≤ length xs
  unfolding skip_head
  skip_head-lt x y xs = ground (arith, drop_while-le xs)

  loop_total :
      (f m n : ℕ) (l r : List ℕ)
      → length l < f
      → (o : Ordering) × (natural_loop u f m n l r ≡ some o)
  loop_total zero m n l r h = absurd (omega arith)
  loop_total (suc f) m n [] r h = unfold natural_loop in (compare m n, refl)
  loop_total (suc f) m n (x ∷ xs) [] h = unfold natural_loop in (compare m n, refl)
  loop_total (suc f) m n (x ∷ xs) (y ∷ ys) h = rw natural_loop_step (
      decide_total _ _
        (loop_total f m n _ (skip_head u (both x y) (y ∷ ys)) (omega (arith, skip_head-lt x y xs))))

  -- The comparison of two names always returns.
  pub natural_compare_total : (l r : List ℕ) → (o : Ordering) × (natural_compare u l r ≡ some o)
  unfolding natural_compare
  natural_compare_total l r =
      loop_total (suc (length l + length r)) (length l) (length r) l r (omega arith)

  heads-flip :
      (b : Bool) (x y : ℕ) (xs ys : List ℕ)
      → compare_heads u b (y ∷ ys) (x ∷ xs) ≡ flip (compare_heads u b (x ∷ xs) (y ∷ ys))
  unfolding compare_heads
  heads-flip true x y xs ys = compare_runs-flip _ _
  heads-flip false x y xs ys = compare-flip _ _

  loop-flip :
      (f m n : ℕ) (l r : List ℕ)
      → natural_loop u f n m r l ≡ Option.map flip (natural_loop u f m n l r)
  loop-flip zero m n l r = unfold natural_loop in refl
  loop-flip (suc f) m n [] [] = unfold natural_loop in ap some (compare-flip m n)
  loop-flip (suc f) m n [] (y ∷ ys) = unfold natural_loop in ap some (compare-flip m n)
  loop-flip (suc f) m n (x ∷ xs) [] = unfold natural_loop in ap some (compare-flip m n)
  loop-flip (suc f) m n (x ∷ xs) (y ∷ ys) =
      rw
        (
          natural_loop_step f m n x y xs ys,
          natural_loop_step f n m y x ys xs,
          both_comm y x,
          heads-flip (both x y) x y xs ys,
          loop-flip f m n (skip_head u (both x y) (x ∷ xs)) (skip_head u (both x y) (y ∷ ys)),
        )
        (decide-flip _ _)

  -- Exchanging the names exchanges "before" and "after".
  pub natural_compare-flip :
      (l r : List ℕ) → natural_compare u r l ≡ Option.map flip (natural_compare u l r)
  unfolding natural_compare
  natural_compare-flip l r =
      rw (add_comm (length r) (length l))
        (loop-flip (suc (length l + length r)) (length l) (length r) l r)
