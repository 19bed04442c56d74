-- ===== src/Natural/Sort/Sorted.antt =====
-- What SortDirectChildrenByName (internal/repository/postgres/impl/node/node_sort.go) does to the
-- table.
use omniflow_go.Prelude.{
  ℕ, ◌<◌, ◌≡◌, ◌≢◌, ◌↔◌, refl, sym, ap, inl, inr, true, false, List, [], ◌∷◌, map, arith, ◌==◌,
  All_elem, All-of, Elem, Bool-cases, map-same, is_nil, if◌then◌else◌, subst,
}
use omniflow_go.Result.{ok, ok_injective, >>=-eq-ok, guard-eq-ok}
use omniflow_go.Store.{Row, HasKeys, Database, find_node_model}
use omniflow_go.Move.Reindex.{IsSame}
use omniflow_go.Natural.{Tables}
use omniflow_go.Natural.Sort.{
  comic_sort_step, IsSortedBy, SliceStable, is_direct_child, name_less, sort_loop,
  sort_direct_children_by_name,
}
use omniflow_go.Natural.Sort.Order.{
  HasPlainName, Precedes, name_less-IsOrder, name_less-Precedes, Precedes-name_less,
  name_less_total, name_less_asym,
}
use omniflow_go.Natural.Sort.Assigned.{
  is_key, assign, sort_loop-assign, assign-IsSame, assign_other, assign_lt, IsAhead,
}

-- The table behind the sorting is the one before it but for the orders and times of the children,
-- of which one has the lower order just where it precedes the other.
abbrev pub IsNatural : Tables → ℕ → ℕ → List Row → List Row → Type 0
IsNatural u node library before after =
    (f : Row → Row) × (after ≡ map f before)
    × ((r : Row) → IsSame r (f r))
    × ((r : Row) → Elem r before → is_direct_child library node r ≡ false → f r ≡ r)
    × ((q r : Row)
        → Elem q before
        → Elem r before
        → is_direct_child library node q ≡ true
        → is_direct_child library node r ≡ true
        → ((f q).sort_order < (f r).sort_order) ↔ Precedes u q r)

is_key_id : (library now id : ℕ) (r : Row) → is_key library now id r ≡ true → r.id ≡ id
is_key_id library now id r h = ground arith

child_key :
    (library now node : ℕ) (r : Row)
    → is_direct_child library node r ≡ true
    → is_key library now r.id r ≡ true
unfolding is_direct_child
child_key library now node r h = ground arith

module _ (u : Tables) (library node now : ℕ) (rows sorted : List Row) (keys : HasKeys rows)
    (among : (r : Row)
      → Elem r sorted ↔ (Elem r rows × (is_direct_child library node r ≡ true))) where
  -- A row of the table that the loop comes to is one of the sorted ones.
  marked_same : (r x : Row) → Elem r rows → Elem x sorted → is_key library now x.id r ≡ true → r ≡ x
  marked_same r x m n b = keys r x m ((among x).0 n).0 (is_key_id library now x.id r b)

  sorted-IsAhead :
      (q r : Row) (xs : List Row)
      → Elem q rows
      → Elem r rows
      → name_less u q r ≡ true
      → ((x : Row) → Elem x xs → Elem x sorted)
      → IsSortedBy (name_less u) xs
      → IsAhead library now q r xs
  sorted-IsAhead q r [] mq mr h inside s = tt
  sorted-IsAhead q r (x ∷ xs) mq mr h inside (first, s) = (
    λ b.
        All-of (λ y. is_key library now y.id q ≡ false) xs
          (λ y m. elim (Bool-cases (is_key library now y.id q)) [
            | inr c ↦ c
            | inl c ↦
                let e = marked_same r x mr (inside x (inl refl)) b in
                let e' = marked_same q y mq (inside y (inr m)) c in
                let z = All_elem (λ y. name_less u y x ≡ false) y xs first m in cc
          ]),
    sorted-IsAhead q r xs mq mr h (λ y m. inside y (inr m)) s,
  )

  sorted_lt :
      (q r : Row)
      → Elem q rows
      → Elem r rows
      → is_direct_child library node q ≡ true
      → is_direct_child library node r ≡ true
      → IsSortedBy (name_less u) sorted
      → q.id ≢ r.id
      → name_less u q r ≡ true
      → (assign library now comic_sort_step sorted q).sort_order
        < (assign library now comic_sort_step sorted r).sort_order
  sorted_lt q r mq mr cq cr s other h =
      assign_lt library now comic_sort_step sorted q r other
        (sorted-IsAhead q r sorted mq mr h (λ x m. m) s)
        (inr (q, (among q).1 (mq, cq), child_key library now node q cq))
        (r, (among r).1 (mr, cr), child_key library now node r cr)

  equal_keys : (q r : Row) → Elem q rows → Elem r rows → q.id ≡ r.id → name_less u q r ≡ false
  equal_keys q r mq mr e =
      let e' = keys q r mq mr e in
      elim (Bool-cases (name_less u q r)) [
        | inr b ↦ b
        | inl b ↦ let c = name_less_asym u q r b in cc
      ]

  sorted_iff :
      (q r : Row)
      → Elem q rows
      → Elem r rows
      → is_direct_child library node q ≡ true
      → is_direct_child library node r ≡ true
      → IsSortedBy (name_less u) sorted
      → ((assign library now comic_sort_step sorted q).sort_order
          < (assign library now comic_sort_step sorted r).sort_order)
        ↔ Precedes u q r
  sorted_iff q r mq mr cq cr s = (to, from)
    where
      to :
          (assign library now comic_sort_step sorted q).sort_order
            < (assign library now comic_sort_step sorted r).sort_order
          → Precedes u q r
      to h = elim (Bool-cases (name_less u q r)) [
        | inl b ↦ name_less-Precedes u q r b
        | inr b ↦
            let other : q.id ≢ r.id = λ e.
              let e' = keys q r mq mr e in
              let same = ap (λ x. (assign library now comic_sort_step sorted x).sort_order) e' in
              omega (arith, h, same) in
            let back =
              sorted_lt r q mr mq cr cq s (λ e. other (sym e)) (name_less_total u q r other b) in
            absurd (omega (arith, h, back))
      ]

      from :
          Precedes u q r
          → (assign library now comic_sort_step sorted q).sort_order
            < (assign library now comic_sort_step sorted r).sort_order
      from h =
          let b = Precedes-name_less u q r h in
          sorted_lt q r mq mr cq cr s (λ e. let c = equal_keys q r mq mr e in cc) b

  assign-IsNatural :
      IsSortedBy (name_less u) sorted
      → IsNatural u node library rows (map (assign library now comic_sort_step sorted) rows)
  assign-IsNatural s = (
    assign library now comic_sort_step sorted,
    refl,
    assign-IsSame library now comic_sort_step sorted,
    λ r m c. assign_other library now comic_sort_step sorted r (
        All-of (λ x. is_key library now x.id r ≡ false) sorted
          (λ x n. elim (Bool-cases (is_key library now x.id r)) [
            | inr b ↦ b
            | inl b ↦ let e = marked_same r x m n b in let c' = ((among x).0 n).1 in cc
          ])),
    λ q r mq mr cq cr. sorted_iff q r mq mr cq cr s,
  )

module _ (u : Tables) (stable : SliceStable) (d : Database) where
  open d use {Session, nodes, select, select_rows}

  no_children :
      (node library : ℕ) (rows : List Row)
      → ((r : Row) → Elem r rows → is_direct_child library node r ≡ false)
      → IsNatural u node library rows rows
  no_children node library rows h = (
    (λ r. r),
    sym (map-same rows),
    λ r. (r.sort_order, r.updated_at, refl),
    λ r m c. refl,
    λ q r mq mr cq cr. let c = h q mq in cc,
  )

  -- A sorting that returns leaves every row as it was but for the orders and times of the directory's
  -- live children, of which one has the lower order just where its name precedes the other's, or
  -- its key does where the names are level; if keys are primary and the names of the children plain.
  pub sort_direct_children_by_name-IsNatural :
      (node library now : ℕ) (s t : Session)
      → HasKeys (nodes s)
      → ((r : Row) → Elem r (nodes s) → is_direct_child library node r ≡ true → HasPlainName u r)
      → sort_direct_children_by_name d u stable node library now s ≡ ok t
      → IsNatural u node library (nodes s) (nodes t)
  unfolding sort_direct_children_by_name
  sort_direct_children_by_name-IsNatural node library now s t keys plain h =
      let (parent, e₁, h₁) = >>=-eq-ok (find_node_model d node library s) _ h in
      let (b, h₂) = guard-eq-ok (parent.node_type == 0) _ _ h₁ in
      let (rs, e, h₃) = >>=-eq-ok (select (is_direct_child library node) _ s) _ h₂ in
      sorted rs (select_rows _ _ s rs e) h₃
    where
      sorted :
          (rs : List Row)
          → ((r : Row) → Elem r rs ↔ (Elem r (nodes s) × (is_direct_child library node r ≡ true)))
          → (if is_nil rs
              then ok s
              else sort_loop d library now comic_sort_step (stable.sort (name_less u) rs) s)
            ≡ ok t
          → IsNatural u node library (nodes s) (nodes t)
      sorted [] among k =
          subst (λ v. IsNatural u node library (nodes s) (nodes v)) (ok_injective k)
            (no_children node library (nodes s) (λ r m.
              elim (Bool-cases (is_direct_child library node r)) [
                | inl c ↦ absurd ((among r).1 (m, c))
                | inr c ↦ c
              ]))
      sorted (x ∷ xs) among k =
          let rs = x ∷ xs in
          let among' : (r : Row)
              → Elem r (stable.sort (name_less u) rs)
                ↔ (Elem r (nodes s) × (is_direct_child library node r ≡ true)) =
            λ r. (
              (λ m. (among r).0 ((stable.sort_rows (name_less u) rs r).0 m)),
              (λ m. (stable.sort_rows (name_less u) rs r).1 ((among r).1 m)),
            ) in
          subst (IsNatural u node library (nodes s))
            (sym (sort_loop-assign library now d comic_sort_step _ s t k))
            (assign-IsNatural u library node now (nodes s) (stable.sort (name_less u) rs) keys
              among'
              (stable.sort_sorted (name_less u) rs
                (name_less-IsOrder u rs (λ r m. let (n, c) = (among r).0 m in plain r n c))))
