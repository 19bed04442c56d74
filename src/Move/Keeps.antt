-- ===== src/Move/Keeps.antt =====
-- Finding an order for the moved node changes orders and times alone.
use omniflow_go.Prelude.{
  ℕ, ◌+◌, ◌-◌, ◌/◌, ◌≡◌, refl, inl, inr, ◌&&◌, arith, ◌==◌, ltb, leb, Bool-cases,
}
use omniflow_go.Result.{
  Result, ok, guard, ◌>>=◌, ◌>>◌, >>=-eq-ok, guard-eq-ok, repository_invalid_state,
}
use omniflow_go.Store.{Row, HasKeys, Database, parent_id_value, find_node_model}
use omniflow_go.Move.{
  MoveNodeInput, is_sibling, or_zero, prev_sort_order_before_node, reindex_parent, reindexed_range,
  resolve_move_before_range, increment_sort_order_after, place_between, refreshed_top, place_at_end,
  max_sort_order, resolve_move_sort_order, move_min_sort_gap, move_max_safe_sort_base,
}
use omniflow_go.Move.Reindex.{Keeps, Keeps-refl, Keeps-trans, update_Keeps, reindex_parent-Keeps}

module _ (d : Database) where
  open d use {Session, nodes, update}

  reindexed_Keeps :
      (now parent library left right : ℕ) (b : Row) (s t : Session)
      → HasKeys (nodes s)
      → reindexed_range d now parent library b s ≡ ok (left, right, t)
      → Keeps d s t
  unfolding reindexed_range
  reindexed_Keeps now parent library left right b s t keys h =
      let (u, h₁, k₁) = >>=-eq-ok (reindex_parent d parent library now s) _ h in
      let (again, h₂, k₂) = >>=-eq-ok (find_node_model d b.id library u) _ k₁ in
      let (prev, h₃, k₃) =
        >>=-eq-ok (prev_sort_order_before_node d parent library again.sort_order again.id u) _ k₂ in
      let e : u ≡ t = ground arith in
      rw (← e) (reindex_parent-Keeps d parent library now s u keys h₁)

  range_Keeps :
      (now parent library left right : ℕ) (b : Row) (s t : Session)
      → HasKeys (nodes s)
      → resolve_move_before_range d now parent library b s ≡ ok (left, right, t)
      → Keeps d s t
  unfolding resolve_move_before_range
  range_Keeps now parent library left right b s t keys h =
      let (prev, h₁, k₁) =
        >>=-eq-ok (prev_sort_order_before_node d parent library b.sort_order b.id s) _ h in
      elim (Bool-cases (leb (b.sort_order - or_zero prev) move_min_sort_gap)) [
        | inl gap ↦ reindexed_Keeps now parent library left right b s t keys (rw gap at k₁)
        | inr gap ↦
            let k₂ : ◌≡◌ {A = Result (ℕ × ℕ × Session)} (ok (or_zero prev, b.sort_order, s))
                (ok (left, right, t)) =
              rw gap at k₁ in
            let e : s ≡ t = ground arith in rw (← e) (Keeps-refl d s keys)
      ]

  place_Keeps :
      (parent library left right order : ℕ) (s t : Session)
      → HasKeys (nodes s)
      → place_between d parent library left right s ≡ ok (order, t)
      → Keeps d s t
  unfolding place_between increment_sort_order_after
  place_Keeps parent library left right order s t keys h =
      elim (Bool-cases (leb (right - left) 1)) [
        | inl gap ↦
            let h' : (increment_sort_order_after d parent library right s >>= λ u. ok (right, u))
                ≡ ok (order, t) =
              rw gap at h in
            let (u, k₁, k₂) =
              >>=-eq-ok (increment_sort_order_after d parent library right s) _ h' in
            let ((n, v), k₃, k₄) =
              >>=-eq-ok
                (update (λ r. is_sibling library parent r && leb right r.sort_order)
                  (λ r. record r { sort_order = r.sort_order + 1 }) s)
                _ k₁ in
            let e : v ≡ t = ground arith in
            rw (← e) (
              update_Keeps d _ _ s v n (λ r. (r.sort_order + 1, r.updated_at, refl)) (λ r. refl)
                keys k₃)
        | inr gap ↦
            let k₂ : ◌≡◌ {A = Result (ℕ × Session)} (ok (left + (right - left) / 2, s))
                (ok (order, t)) =
              rw gap at h in
            let e : s ≡ t = ground arith in rw (← e) (Keeps-refl d s keys)
      ]

  top_Keeps :
      (input : MoveNodeInput) (top top' : ℕ) (s t : Session)
      → HasKeys (nodes s)
      → refreshed_top d input top s ≡ ok (top', t)
      → Keeps d s t
  unfolding refreshed_top
  top_Keeps input top top' s t keys h = elim (Bool-cases (leb move_max_safe_sort_base top)) [
    | inl full ↦
        let (u, k₁, h₁) =
          >>=-eq-ok (reindex_parent d input.new_parent input.library input.updated_at s)
            (λ u. max_sort_order d input.library input.new_parent u >>= λ n. ok (n, u))
            (rw full at h) in
        let (n, k₂, h₂) = >>=-eq-ok (max_sort_order d input.library input.new_parent u) _ h₁ in
        let e : u ≡ t = ground arith in
        rw (← e)
          (reindex_parent-Keeps d input.new_parent input.library input.updated_at s u keys k₁)
    | inr room ↦
        let h₁ : ◌≡◌ {A = Result (ℕ × Session)} (ok (top, s)) (ok (top', t)) = rw room at h in
        let e : s ≡ t = ground arith in rw (← e) (Keeps-refl d s keys)
  ]

  end_Keeps :
      (input : MoveNodeInput) (order : ℕ) (s t : Session)
      → HasKeys (nodes s)
      → place_at_end d input s ≡ ok (order, t)
      → Keeps d s t
  unfolding place_at_end
  end_Keeps input order s t keys h =
      let (top, k₁, h₁) = >>=-eq-ok (max_sort_order d input.library input.new_parent s) _ h in
      let ((top', u), k₂, h₂) = >>=-eq-ok (refreshed_top d input top s) _ h₁ in
      let e : u ≡ t = ground arith in rw (← e) (top_Keeps input top top' s u keys k₂)

  pub resolve_Keeps :
      (input : MoveNodeInput) (now order : ℕ) (s t : Session)
      → HasKeys (nodes s)
      → resolve_move_sort_order d input now s ≡ ok (order, t)
      → Keeps d s t
  unfolding resolve_move_sort_order
  resolve_Keeps input now order s t keys h = elim (Bool-cases (ltb 0 input.before_node)) [
    | inl some ↦
        let (b, k₁, h₁) =
          >>=-eq-ok (find_node_model d input.before_node input.library s)
            (λ b.
              guard (parent_id_value b.parent == input.new_parent) repository_invalid_state
              >> (resolve_move_before_range d now input.new_parent input.library b s
                  >>= λ (left, right, t).
                      place_between d input.new_parent input.library left right t))
            (rw some at h) in
        let (_, h₂) = guard-eq-ok (parent_id_value b.parent == input.new_parent) _ _ h₁ in
        let ((left, right, u), k₂, h₃) =
          >>=-eq-ok (resolve_move_before_range d now input.new_parent input.library b s) _ h₂ in
        let k = range_Keeps now input.new_parent input.library left right b s u keys k₂ in
        Keeps-trans d s u t k
          (place_Keeps input.new_parent input.library left right order u t k.keys h₃)
    | inr none ↦ end_Keeps input order s t keys (rw none at h)
  ]
