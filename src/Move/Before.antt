-- ===== src/Move/Before.antt =====
-- Where a node lands that is moved before another one.
use omniflow_go.Prelude.{
  ℕ, ◌+◌, ◌-◌, ◌/◌, ◌≤◌, ◌<◌, ◌≡◌, refl, ap, inl, inr, Bool, true, false, ◌&&◌, Option, List, [],
  ◌∷◌, arith, ◌==◌, ltb, leb, Bool-cases, if◌then◌else◌, Elem, All_elem,
}
use omniflow_go.Result.{Result, ok, >>=-eq-ok}
use omniflow_go.Store.{Row, desc, before, IsOrdered, HasKeys, Database}
use omniflow_go.Store.Laws.{update_image, update_source, update_keys}
use omniflow_go.Move.{
  is_sibling, prev_of, or_zero, prev_sort_order_before_node, increment_sort_order_after,
  place_between,
}

module _ (d : Database) where
  open d use {Session, nodes, select, update, select_rows, select_ordered, update_rows}

  -- Every sibling with a smaller order than `right` has at most the order `left`.
  abbrev pub IsLeft : ℕ → ℕ → ℕ → ℕ → Session → Type 0
  IsLeft parent library left right s =
      (r : Row)
      → Elem r (nodes s)
      → is_sibling library parent r ≡ true
      → r.sort_order < right
      → r.sort_order ≤ left

  prev_step :
      (parent library : ℕ) (b : Row) (rs : List Row) (s : Session)
      → HasKeys (nodes s)
      → Elem b (nodes s)
      → ((r : Row)
          → Elem r rs
          → Elem r (nodes s)
            × (is_sibling library parent r && ltb r.sort_order b.sort_order ≡ true))
      → ((r : Row)
          → Elem r (nodes s) × (is_sibling library parent r && ltb r.sort_order b.sort_order ≡ true)
          → Elem r rs)
      → IsOrdered (desc (λ r. r.sort_order) ∷ desc (λ r. r.id) ∷ []) rs
      → IsLeft parent library (or_zero (prev_of b.id rs)) b.sort_order s
        × (or_zero (prev_of b.id rs) ≤ b.sort_order)
        × (0 < b.sort_order → or_zero (prev_of b.id rs) < b.sort_order)
  prev_step parent library b [] s keys eb to from o =
      (λ r m t l. absurd (from r (m, ground arith)), omega arith, λ l. l)
  prev_step parent library b (x ∷ xs) s keys eb to from o =
      let (mx, tx) = to x (inl refl) in
      let lx : x.sort_order < b.sort_order = ground arith in
      let other : x.id == b.id ≡ false = elim (Bool-cases (x.id == b.id)) [
        | inl e ↦
            let same : x ≡ b = keys x b mx eb (ground arith) in
            absurd (omega (arith, ap (λ (r : Row). r.sort_order) same))
        | inr e ↦ e
      ] in
      rw other (
        λ r m t l. elim (from r (m, ground arith)) [
          | inl e ↦ omega (arith, ap (λ (q : Row). q.sort_order) e)
          | inr n ↦
              let f =
                All_elem
                  (λ q. before (desc (λ r. r.sort_order) ∷ desc (λ r. r.id) ∷ []) q x ≡ false) r xs
                  o.0 n in
              ground arith
        ],
        omega arith,
        λ _. lx,
      )

  pub prev_lem :
      (parent library : ℕ) (b : Row) (s : Session) (left : Option ℕ)
      → HasKeys (nodes s)
      → Elem b (nodes s)
      → prev_sort_order_before_node d parent library b.sort_order b.id s ≡ ok left
      → IsLeft parent library (or_zero left) b.sort_order s
        × (or_zero left ≤ b.sort_order)
        × (0 < b.sort_order → or_zero left < b.sort_order)
  unfolding prev_sort_order_before_node
  prev_lem parent library b s left keys eb h =
      let (rs, q, e) =
        >>=-eq-ok
          (select (λ r. is_sibling library parent r && ltb r.sort_order b.sort_order)
            (desc (λ r. r.sort_order) ∷ desc (λ r. r.id) ∷ []) s)
          _ h in
      let e' : prev_of b.id rs ≡ left = ground arith in
      rw (← e') (
        prev_step parent library b rs s keys eb (λ r. (select_rows _ _ s rs q r).0)
          (λ r. (select_rows _ _ s rs q r).1) (select_ordered _ _ s rs q))

  -- The order `order` stands below the row with the key `id`, and above all siblings below that.
  pub record IsPlaced (parent library id order : ℕ) (s : Session) : Type 0 where
    pub target : Row
    pub present : Elem target (nodes s)
    pub named : target.id ≡ id
    pub under : is_sibling library parent target ≡ true
    pub below : order < target.sort_order
    pub above :
        (r : Row)
        → Elem r (nodes s)
        → is_sibling library parent r ≡ true
        → r.sort_order < target.sort_order
        → r.sort_order < order

  abbrev bump : Row → Row
  bump r = record r { sort_order = r.sort_order + 1 }

  to_bump : ℕ → ℕ → ℕ → Row → Bool
  to_bump parent library right r = is_sibling library parent r && leb right r.sort_order

  bump_above :
      (parent library right : ℕ) (q r : Row)
      → r ≡ (if to_bump parent library right q then bump q else q)
      → is_sibling library parent r ≡ true
      → r.sort_order < right + 1
      → r.sort_order < right
  unfolding to_bump
  bump_above parent library right q r e s h = elim (Bool-cases (to_bump parent library right q)) [
    | inl b ↦
        let e' : r ≡ bump q = rw b at e in
        absurd (ground (arith, ap (λ (r : Row). r.sort_order) e'))
    | inr b ↦
        let e' : r ≡ q = rw b at e in
        let s' : is_sibling library parent q ≡ true = rw (← e') s in
        ground (arith, ap (λ (r : Row). r.sort_order) e')
  ]

  bump_lem :
      (parent library right : ℕ) (b : Row) (s t : Session)
      → HasKeys (nodes s)
      → Elem b (nodes s)
      → is_sibling library parent b ≡ true
      → b.sort_order ≡ right
      → increment_sort_order_after d parent library right s ≡ ok t
      → IsPlaced parent library b.id right t × HasKeys (nodes t)
  unfolding increment_sort_order_after to_bump
  bump_lem parent library right b s t keys eb sb e h =
      let ((n, u), q, e') = >>=-eq-ok (update (to_bump parent library right) bump s) _ h in
      let et : u ≡ t = ground arith in
      let tb : to_bump parent library right b ≡ true = ground arith in
      rw (← et) (
        record {
          target = bump b;
          present = rw tb at (update_image d (to_bump parent library right) bump s u n b q eb);
          named = refl;
          under = unfold is_sibling in sb;
          below = omega arith;
          above = λ r m k l.
              let (x, mx, ex) = update_source d (to_bump parent library right) bump s u n r q m in
              bump_above parent library right x r ex k (omega arith);
        },
        update_keys d (to_bump parent library right) bump s u n (λ r. refl) q keys,
      )

  pub place_lem :
      (parent library left right : ℕ) (b : Row) (s t : Session) (order : ℕ)
      → HasKeys (nodes s)
      → Elem b (nodes s)
      → is_sibling library parent b ≡ true
      → b.sort_order ≡ right
      → IsLeft parent library left right s
      → left ≤ right
      → (0 < right → left < right)
      → place_between d parent library left right s ≡ ok (order, t)
      → IsPlaced parent library b.id order t × HasKeys (nodes t)
  unfolding place_between
  place_lem parent library left right b s t order keys eb sb e l a c h =
      elim (Bool-cases (leb (right - left) 1)) [
        | inl gap ↦
            let (u, q, e') =
              >>=-eq-ok (increment_sort_order_after d parent library right s) _ (rw gap at h) in
            let h' : ◌≡◌ {A = Result (ℕ × Session)} (ok (right, u)) (ok (order, t)) = e' in
            let eo : right ≡ order = ground arith in
            let et : u ≡ t = ground arith in
            rw (← eo, ← et) (bump_lem parent library right b s u keys eb sb e q)
        | inr gap ↦
            let h' : ◌≡◌ {A = Result (ℕ × Session)} (ok (left + (right - left) / 2, s))
                (ok (order, t)) =
              rw gap at h in
            let eo : left + (right - left) / 2 ≡ order = ground arith in
            let et : s ≡ t = ground arith in
            rw (← et) (
              record {
                target = b;
                present = eb;
                named = refl;
                under = sb;
                below = ground arith;
                above = λ r m n k. ground (arith, l r m n);
              },
              keys,
            )
      ]
