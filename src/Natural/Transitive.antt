-- ===== src/Natural/Transitive.antt =====
-- Transitivity of the order, over names whose digits are the ASCII ones, and its failure otherwise.
use omniflow_go.Prelude.{
  ℕ, zero, suc, ◌+◌, ◌≤◌, ◌<◌, ◌≡◌, refl, compare, Ordering, lt, eq, gt, ◌then◌, true, false, ◌⊎◌,
  Option, some, List, [], ◌∷◌, arith, if◌then◌else◌, length, take_while, drop_while,
  length-take_while-drop_while, Chains, Chains-then, Chains-lt, Chains-to_gt, compare-Chains, All,
}
use omniflow_go.Natural.{
  Tables, strip_zeros, compare_digits, compare_runs, compare_heads, skip_head, natural_loop,
  natural_compare,
}
use omniflow_go.Natural.Laws.{compare_runs-Chains, compare_runs-eq}
use omniflow_go.Natural.Loop.{decide, both, natural_loop_step, skip_head-lt}

module _ (u : Tables) where
  open u use {is_digit, to_lower}

  -- A rune that is an ASCII digit and its own lower case, or is no digit and becomes none.
  pub record IsPlain (c : ℕ) : Type 0 where
    pub digit : is_digit c ≡ true → (48 ≤ c) × (c ≤ 57) × (to_lower c ≡ c)
    pub other : is_digit c ≡ false → (to_lower c < 48) ⊎ (57 < to_lower c)

  -- The part that the head of a text stands for, and the rest of the text.
  tail_of : List ℕ → List ℕ
  tail_of [] = []
  tail_of (x ∷ xs) = if is_digit x then drop_while is_digit xs else xs

  head_order : List ℕ → List ℕ → Ordering
  head_order [] [] = eq
  head_order [] (y ∷ ys) = lt
  head_order (x ∷ xs) [] = gt
  head_order (x ∷ xs) (y ∷ ys) =
      if both u x y
      then compare_runs (take_while is_digit (x ∷ xs)) (take_while is_digit (y ∷ ys))
      else compare (to_lower x) (to_lower y)

  -- The same order, without the indices.
  order_from : ℕ → List ℕ → List ℕ → Ordering
  order_from zero l r = eq
  order_from (suc f) l r = head_order l r then order_from f (tail_of l) (tail_of r)

  All-drop_while : (xs : List ℕ) → All IsPlain xs → All IsPlain (drop_while is_digit xs)
  All-drop_while [] h = tt
  All-drop_while (x ∷ xs) h = ground (arith, All-drop_while xs h.1)

  All-tail_of : (xs : List ℕ) → All IsPlain xs → All IsPlain (tail_of xs)
  unfolding tail_of
  All-tail_of [] h = tt
  All-tail_of (x ∷ xs) h = ground (arith, All-drop_while xs h.1)

  head_order-Chains :
      (a b c : List ℕ)
      → All IsPlain a
      → All IsPlain b
      → All IsPlain c
      → Chains (head_order a b) (head_order b c) (head_order a c)
  unfolding head_order
  head_order-Chains [] [] [] p q r = refl
  head_order-Chains [] [] (z ∷ zs) p q r = refl
  head_order-Chains [] (y ∷ ys) [] p q r = tt
  head_order-Chains [] (y ∷ ys) (z ∷ zs) p q r = Chains-lt _
  head_order-Chains (x ∷ xs) [] c p q r = tt
  head_order-Chains (x ∷ xs) (y ∷ ys) [] p q r = Chains-to_gt _
  head_order-Chains (x ∷ xs) (y ∷ ys) (z ∷ zs) p q r = ground (
    arith,
    compare_runs-Chains (take_while is_digit (x ∷ xs)) (take_while is_digit (y ∷ ys))
        (take_while is_digit (z ∷ zs)),
    compare-Chains (to_lower x) (to_lower y) (to_lower z),
    p.0.digit,
    p.0.other,
    q.0.digit,
    q.0.other,
    r.0.digit,
    r.0.other,
  )

  order_from-Chains :
      (f : ℕ) (a b c : List ℕ)
      → All IsPlain a
      → All IsPlain b
      → All IsPlain c
      → Chains (order_from f a b) (order_from f b c) (order_from f a c)
  unfolding order_from
  order_from-Chains zero a b c p q r = refl
  order_from-Chains (suc f) a b c p q r =
      Chains-then _ _ _ _ _ _ (head_order-Chains a b c p q r)
        (λ _ _. order_from-Chains f _ _ _ (All-tail_of a p) (All-tail_of b q) (All-tail_of c r))

  decide_then :
      (o p : Ordering) (rest : Option Ordering)
      → (o ≡ eq → rest ≡ some p)
      → decide o rest ≡ some (o then p)
  decide_then lt p rest h = refl
  decide_then eq p rest h = h refl
  decide_then gt p rest h = refl

  heads-eq :
      (x y : ℕ) (xs ys : List ℕ)
      → compare_heads u (both u x y) (x ∷ xs) (y ∷ ys) ≡ head_order (x ∷ xs) (y ∷ ys)
  unfolding compare_heads head_order
  heads-eq x y xs ys = ground arith

  -- Where the heads agree, both names are cut at the same place, which only plain runes ensure.
  skip_head-eq :
      (x y : ℕ) (xs ys : List ℕ)
      → IsPlain x
      → IsPlain y
      → head_order (x ∷ xs) (y ∷ ys) ≡ eq
      → (skip_head u (both u x y) (x ∷ xs) ≡ tail_of (x ∷ xs))
        × (skip_head u (both u x y) (y ∷ ys) ≡ tail_of (y ∷ ys))
  unfolding skip_head head_order tail_of
  skip_head-eq x y xs ys p q h = ground (arith, p.digit, p.other, q.digit, q.other)

  -- The same number of runes is consumed of either name.
  skip_head_level :
      (x y : ℕ) (xs ys : List ℕ)
      → head_order (x ∷ xs) (y ∷ ys) ≡ eq
      → length (skip_head u (both u x y) (x ∷ xs)) + length ys
        ≡ length (skip_head u (both u x y) (y ∷ ys)) + length xs
  unfolding skip_head head_order
  skip_head_level x y xs ys h = ground (
    arith,
    compare_runs-eq (take_while is_digit (x ∷ xs)) (take_while is_digit (y ∷ ys)),
    length-take_while-drop_while is_digit xs,
    length-take_while-drop_while is_digit ys,
  )

  order_from_step :
      (g : ℕ) (l r : List ℕ)
      → order_from (suc g) l r ≡ head_order l r then order_from g (tail_of l) (tail_of r)
  unfolding order_from
  order_from_step g l r = refl

  order_from_nil : (g : ℕ) → order_from g [] [] ≡ eq
  unfolding order_from head_order tail_of
  order_from_nil zero = refl
  order_from_nil (suc g) = order_from_nil g

  loop-order :
      (f g m n : ℕ) (l r : List ℕ)
      → length l < f
      → length l < g
      → m + length r ≡ n + length l
      → All IsPlain l
      → All IsPlain r
      → natural_loop u f m n l r ≡ some (order_from g l r)
  loop-order zero g m n l r a b e p q = absurd (omega arith)
  loop-order (suc f) zero m n l r a b e p q = absurd (omega arith)
  loop-order (suc f) (suc g) m n [] [] a b e p q =
      unfold natural_loop in rw (order_from_nil (suc g)) (ground arith)
  loop-order (suc f) (suc g) m n [] (y ∷ ys) a b e p q =
      unfold natural_loop order_from head_order in ground arith
  loop-order (suc f) (suc g) m n (x ∷ xs) [] a b e p q =
      unfold natural_loop order_from head_order in ground arith
  loop-order (suc f) (suc g) m n (x ∷ xs) (y ∷ ys) a b e p q =
      rw (natural_loop_step u, heads-eq, order_from_step)
        (decide_then _ _ _ λ h.
          let (s, t) = skip_head-eq x y xs ys p.0 q.0 h in
          rw (← s, ← t)
            (loop-order f g m n (skip_head u (both u x y) (x ∷ xs))
              (skip_head u (both u x y) (y ∷ ys)) (omega (arith, skip_head-lt u x y xs))
              (omega (arith, skip_head-lt u x y xs)) (omega (arith, skip_head_level x y xs ys h))
              (rw s (All-tail_of (x ∷ xs) p)) (rw t (All-tail_of (y ∷ ys) q))))

  compare-order :
      (g : ℕ) (l r : List ℕ)
      → length l < g
      → All IsPlain l
      → All IsPlain r
      → natural_compare u l r ≡ some (order_from g l r)
  unfolding natural_compare
  compare-order g l r b p q =
      loop-order (suc (length l + length r)) g (length l) (length r) l r (omega arith) b
        (omega arith) p q

  pub natural_compare_trans :
      (a b c : List ℕ)
      → All IsPlain a
      → All IsPlain b
      → All IsPlain c
      → (o p q : Ordering) × (natural_compare u a b ≡ some o)
        × (natural_compare u b c ≡ some p)
        × (natural_compare u a c ≡ some q)
        × Chains o p q
  natural_compare_trans a b c p q r =
      let g = suc (length a + length b) in
      (
        order_from g a b,
        order_from g b c,
        order_from g a c,
        compare-order g a b (omega arith) p q,
        compare-order g b c (omega arith) q r,
        compare-order g a c (omega arith) p r,
        order_from-Chains g a b c p q r,
      )

-- With a digit beyond the ASCII letters in the tables, its order with "99" and "z" is a cycle.
pub natural_compare_cycle :
    (u : Tables) (d : ℕ)
    → u.is_digit d ≡ true
    → u.is_digit 57 ≡ true
    → u.is_digit 122 ≡ false
    → u.to_lower d ≡ d
    → u.to_lower 57 ≡ 57
    → u.to_lower 122 ≡ 122
    → 122 < d
    → (natural_compare u (d ∷ []) (57 ∷ 57 ∷ []) ≡ some lt)
      × (natural_compare u (57 ∷ 57 ∷ []) (122 ∷ []) ≡ some lt)
      × (natural_compare u (122 ∷ []) (d ∷ []) ≡ some lt)
unfolding natural_compare compare_runs compare_digits strip_zeros
natural_compare_cycle u d hd h9 hz ld l9 lz b = ground arith
