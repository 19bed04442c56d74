-- ===== src/Natural/Sort/Assigned.antt =====
-- The orders that the loop of SortDirectChildrenByName
-- (internal/repository/postgres/impl/node/node_sort.go) writes into the rows.
use omniflow_go.Prelude.{
  ℕ, ◌+◌, ◌≤◌, ◌<◌, ◌≡◌, ◌≢◌, refl, sym, ap, ◌∙◌, ◌⊎◌, inl, inr, Bool, true, false, ◌&&◌, not, List,
  [], ◌∷◌, map, arith, ◌==◌, if◌then◌else◌, All, All_elem, Elem, Bool-cases, map-map, map-same,
  then_branch, else_branch,
}
use omniflow_go.Result.{ok, >>=-eq-ok, guard-eq-ok}
use omniflow_go.Store.{Row, is_live, Database}
use omniflow_go.Move.{set_order}
use omniflow_go.Move.Reindex.{IsSame, IsSame-trans}
use omniflow_go.Natural.Sort.{comic_sort_step, sort_loop}

module _ (library now : ℕ) where
  abbrev pub is_key : ℕ → Row → Bool
  is_key id q = is_live q && q.id == id && q.library == library

  -- What the loop does to one row.
  assign_one : ℕ → Row → Row → Row
  assign_one next x r = if is_key x.id r then set_order next now r else r

  pub assign : ℕ → List Row → Row → Row
  unfolding assign_one
  assign next [] r = r
  assign next (x ∷ xs) r = assign (next + comic_sort_step) xs (assign_one next x r)

  module _ (d : Database) where
    open d use {Session, nodes, update, update_rows}

    pub sort_loop-assign :
        (next : ℕ) (rs : List Row) (s t : Session)
        → sort_loop d library now next rs s ≡ ok t
        → nodes t ≡ map (assign next rs) (nodes s)
    unfolding sort_loop assign assign_one
    sort_loop-assign next [] s t h =
        let e : s ≡ t = ground arith in ap nodes (sym e) ∙ sym (map-same (nodes s))
    sort_loop-assign next (x ∷ xs) s t h =
        let ((n, v), q, h₁) = >>=-eq-ok (update (is_key x.id) (set_order next now) s) _ h in
        let (b, h₂) = guard-eq-ok (not (n == 0)) _ _ h₁ in
        sort_loop-assign (next + comic_sort_step) xs v t h₂
        ∙ ap (map (assign (next + comic_sort_step) xs))
            (update_rows (is_key x.id) (set_order next now) s v n q).0
        ∙ map-map (assign (next + comic_sort_step) xs) (assign_one next x) (nodes s)

  assign_one_hit :
      (next : ℕ) (x r : Row) → is_key x.id r ≡ true → assign_one next x r ≡ set_order next now r
  unfolding assign_one
  assign_one_hit next x r b = sym (then_branch (is_key x.id r) (set_order next now r) r b)

  assign_one_miss : (next : ℕ) (x r : Row) → is_key x.id r ≡ false → assign_one next x r ≡ r
  unfolding assign_one
  assign_one_miss next x r b = sym (else_branch (is_key x.id r) (set_order next now r) r b)

  assign_one-IsSame : (next : ℕ) (x r : Row) → IsSame r (assign_one next x r)
  assign_one-IsSame next x r = elim (Bool-cases (is_key x.id r)) [
    | inl b ↦ (next, now, assign_one_hit next x r b)
    | inr b ↦ (r.sort_order, r.updated_at, assign_one_miss next x r b)
  ]

  pub assign-IsSame : (next : ℕ) (xs : List Row) (r : Row) → IsSame r (assign next xs r)
  unfolding assign
  assign-IsSame next [] r = (r.sort_order, r.updated_at, refl)
  assign-IsSame next (x ∷ xs) r =
      IsSame-trans r (assign_one next x r) _ (assign_one-IsSame next x r)
        (assign-IsSame (next + comic_sort_step) xs (assign_one next x r))

  assign_hit :
      (next : ℕ) (x r : Row) (xs : List Row)
      → is_key x.id r ≡ true
      → assign next (x ∷ xs) r ≡ assign (next + comic_sort_step) xs (set_order next now r)
  unfolding assign
  assign_hit next x r xs b = ap (assign (next + comic_sort_step) xs) (assign_one_hit next x r b)

  assign_miss :
      (next : ℕ) (x r : Row) (xs : List Row)
      → is_key x.id r ≡ false
      → assign next (x ∷ xs) r ≡ assign (next + comic_sort_step) xs r
  unfolding assign
  assign_miss next x r xs b = ap (assign (next + comic_sort_step) xs) (assign_one_miss next x r b)

  -- A row that the loop does not come to.
  pub assign_other :
      (next : ℕ) (xs : List Row) (r : Row)
      → All (λ x. is_key x.id r ≡ false) xs
      → assign next xs r ≡ r
  assign_other next [] r h = unfold assign in refl
  assign_other next (x ∷ xs) r h =
      assign_miss next x r xs h.0 ∙ assign_other (next + comic_sort_step) xs r h.1

  at_least :
      (n next : ℕ) (xs : List Row) (r : Row)
      → n ≤ next
      → n ≤ r.sort_order
      → n ≤ (assign next xs r).sort_order
  at_least n next [] r h k = unfold assign in k
  at_least n next (x ∷ xs) r h k = elim (Bool-cases (is_key x.id r)) [
    | inl b ↦
        rw (assign_hit next x r xs b)
          (at_least n (next + comic_sort_step) xs (set_order next now r) (omega arith) h)
    | inr b ↦
        rw (assign_miss next x r xs b) (at_least n (next + comic_sort_step) xs r (omega arith) k)
  ]

  -- The loop comes to the row.
  abbrev pub IsMarked : Row → List Row → Type 0
  IsMarked r xs = (x : Row) × Elem x xs × (is_key x.id r ≡ true)

  -- It does not come to `q` any more once it has come to `r`.
  abbrev pub IsAhead : Row → Row → List Row → Type 0
  IsAhead q r [] = Unit
  IsAhead q r (x ∷ xs) =
      (is_key x.id r ≡ true → All (λ y. is_key y.id q ≡ false) xs) × IsAhead q r xs

  IsMarked-tail :
      (x r : Row) (xs : List Row) → is_key x.id r ≡ false → IsMarked r (x ∷ xs) → IsMarked r xs
  IsMarked-tail x r xs b (y, inl e, c) = cc
  IsMarked-tail x r xs b (y, inr m, c) = (y, m, c)

  assign_from :
      (next : ℕ) (xs : List Row) (r : Row) → IsMarked r xs → next ≤ (assign next xs r).sort_order
  assign_from next [] r (y, m, b) = elim m [ ]
  assign_from next (x ∷ xs) r k = elim (Bool-cases (is_key x.id r)) [
    | inl b ↦ rw (assign_hit next x r xs b) (
        at_least next (next + comic_sort_step) xs (set_order next now r) (omega arith)
          (omega arith))
    | inr b ↦
        rw (assign_miss next x r xs b)
          (omega (arith, assign_from (next + comic_sort_step) xs r (IsMarked-tail x r xs b k)))
  ]

  one_key : (id : ℕ) (q r : Row) → q.id ≢ r.id → is_key id r ≡ true → is_key id q ≡ false
  one_key id q r other b = ground arith

  -- A row whose last order is low, or is still to come, ends up below one behind it.
  pub assign_lt :
      (next : ℕ) (xs : List Row) (q r : Row)
      → q.id ≢ r.id
      → IsAhead q r xs
      → (q.sort_order < next) ⊎ IsMarked q xs
      → IsMarked r xs
      → (assign next xs q).sort_order < (assign next xs r).sort_order
  assign_lt next [] q r other ahead h (y, m, b) = elim m [ ]
  assign_lt next (x ∷ xs) q r other (off, ahead) h k = elim (Bool-cases (is_key x.id r)) [
    | inl b ↦
        let b' = one_key x.id q r other b in
        let low = is_low b' (off b) h in
        rw (assign_miss next x q xs b', assign_other (next + comic_sort_step) xs q (off b))
          (omega (arith, low, assign_from next (x ∷ xs) r k))
    | inr b ↦ elim (Bool-cases (is_key x.id q)) [
      | inl c ↦
          rw (assign_hit next x q xs c, assign_miss next x r xs b)
            (assign_lt (next + comic_sort_step) xs (set_order next now q) r other
              (IsAhead_set xs ahead) (inl (omega arith)) (IsMarked-tail x r xs b k))
      | inr c ↦
          rw (assign_miss next x q xs c, assign_miss next x r xs b)
            (assign_lt (next + comic_sort_step) xs q r other ahead (later c h)
              (IsMarked-tail x r xs b k))
    ]
  ]
    where
      is_low :
          is_key x.id q ≡ false
          → All (λ y. is_key y.id q ≡ false) xs
          → (q.sort_order < next) ⊎ IsMarked q (x ∷ xs)
          → q.sort_order < next
      is_low c none (inl l) = l
      is_low c none (inr m) =
          let (y, n, e) = IsMarked-tail x q xs c m in
          let e' = All_elem (λ y. is_key y.id q ≡ false) y xs none n in cc

      later :
          is_key x.id q ≡ false
          → (q.sort_order < next) ⊎ IsMarked q (x ∷ xs)
          → (q.sort_order < next + comic_sort_step) ⊎ IsMarked q xs
      later c (inl l) = inl (omega arith)
      later c (inr m) = inr (IsMarked-tail x q xs c m)

      IsAhead_set : (ys : List Row) → IsAhead q r ys → IsAhead (set_order next now q) r ys
      IsAhead_set [] a = tt
      IsAhead_set (y ∷ ys) a = (a.0, IsAhead_set ys a.1)
