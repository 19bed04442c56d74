-- ===== src/Bookmarks/Order/Inserted.antt =====
-- Where insertBookmarkIntoSiblingOrder puts the key.
use omniflow_go.Prelude.{
  append-nil, ℕ, ◌≡◌, refl, ap, ◌⊎◌, inl, inr, true, false, Option, none, some, List, [], ◌∷◌, ◌++◌,
  ◌==◌, Elem, arith, Bool-cases,
}
use omniflow_go.Result.{ok, guard-eq-ok}
use omniflow_go.Bookmarks.{Bookmark}
use omniflow_go.Bookmarks.Order.{keys_of, insert_loop, insert_bookmark_into_sibling_order}

-- No key twice.
abbrev pub IsDistinct : List ℕ → Type 0
IsDistinct [] = Unit
IsDistinct (x ∷ xs) = ¬ Elem x xs × IsDistinct xs

-- What stands next to the place: `before` right behind it, `after` right in front of it, or, where
-- neither is asked for, nothing behind it.
abbrev pub IsPlace : Option ℕ → Option ℕ → List ℕ → List ℕ → Type 0
IsPlace none none front back = back ≡ []
IsPlace (some b) none front back = (rest : List ℕ) × (back ≡ b ∷ rest)
IsPlace none (some a) front back = (rest : List ℕ) × (front ≡ rest ++ (a ∷ []))
IsPlace (some b) (some a) front back = ⊥

-- `ids` are the keys with `id` put in at the place that is asked for.
pub record IsInserted (id : ℕ) (before after : Option ℕ) (keys ids : List ℕ) : Type 0 where
  pub front : List ℕ
  pub back : List ℕ
  pub split : keys ≡ front ++ back
  pub joined : ids ≡ front ++ (id ∷ back)
  pub place : IsPlace before after front back

module _ (id : ℕ) where
  not_before : (b : ℕ) (xs : List ℕ) → ¬ Elem b xs → insert_loop id (some b) none xs ≡ (xs, false)
  unfolding insert_loop
  not_before b [] out = refl
  not_before b (x ∷ xs) out =
      let rest = not_before b xs (λ m. out (inr m)) in
      let other : x == b ≡ false = ground (arith, out) in rw (rest, other) refl

  not_after : (a : ℕ) (xs : List ℕ) → ¬ Elem a xs → insert_loop id none (some a) xs ≡ (xs, false)
  unfolding insert_loop
  not_after a [] out = refl
  not_after a (x ∷ xs) out =
      let rest = not_after a xs (λ m. out (inr m)) in
      let other : x == a ≡ false = ground (arith, out) in rw (rest, other) refl

  loop_before :
      (b : ℕ) (xs : List ℕ)
      → IsDistinct xs
      → (insert_loop id (some b) none xs).1 ≡ true
      → IsInserted id (some b) none xs (insert_loop id (some b) none xs).0
  unfolding insert_loop
  loop_before b [] once h = absurd (ground arith)
  loop_before b (x ∷ xs) (out, once) h = elim (Bool-cases (x == b)) [
    | inl e ↦
        let same : x ≡ b = ground arith in
        let rest = not_before b xs (rw same at out) in
        rw (rest, e)
          (record {
            front = [];
            back = x ∷ xs;
            split = refl;
            joined = refl;
            place = (xs, rw same refl);
          })
    | inr e ↦
        let k = loop_before b xs once (rw e at h) in
        rw e (record {
          front = x ∷ k.front;
          back = k.back;
          split = ap (λ ys. x ∷ ys) k.split;
          joined = ap (λ ys. x ∷ ys) k.joined;
          place = k.place;
        })
  ]

  loop_after :
      (a : ℕ) (xs : List ℕ)
      → IsDistinct xs
      → (insert_loop id none (some a) xs).1 ≡ true
      → IsInserted id none (some a) xs (insert_loop id none (some a) xs).0
  unfolding insert_loop
  loop_after a [] once h = absurd (ground arith)
  loop_after a (x ∷ xs) (out, once) h = elim (Bool-cases (x == a)) [
    | inl e ↦
        let same : x ≡ a = ground arith in
        let rest = not_after a xs (rw same at out) in
        rw (rest, e)
          (record {
            front = x ∷ [];
            back = xs;
            split = refl;
            joined = refl;
            place = ([], rw same refl);
          })
    | inr e ↦
        let k = loop_after a xs once (rw e at h) in
        let (rest, p) = k.place in
        rw e (record {
          front = x ∷ k.front;
          back = k.back;
          split = ap (λ ys. x ∷ ys) k.split;
          joined = ap (λ ys. x ∷ ys) k.joined;
          place = (x ∷ rest, ap (λ ys. x ∷ ys) p);
        })
  ]

  -- Where the order is given out, it is the keys of the siblings as they were, with `id` right before
  -- or right after the named sibling, or at the end where none is named. The keys are distinct, and
  -- not both neighbours are named.
  pub insert_bookmark_into_sibling_order-IsInserted :
      (siblings : List Bookmark) (before after : Option ℕ) (ids : List ℕ)
      → IsDistinct (keys_of siblings)
      → (before ≡ none) ⊎ (after ≡ none)
      → insert_bookmark_into_sibling_order id siblings before after ≡ ok ids
      → IsInserted id before after (keys_of siblings) ids
  unfolding insert_bookmark_into_sibling_order
  insert_bookmark_into_sibling_order-IsInserted siblings none none ids once one h = record {
    front = keys_of siblings;
    back = [];
    split = append-nil (keys_of siblings);
    joined = ground arith;
    place = refl;
  }
  insert_bookmark_into_sibling_order-IsInserted siblings (some b) none ids once one h =
      let (found, k) = guard-eq-ok (insert_loop id (some b) none (keys_of siblings)).1 _ _ h in
      let e : (insert_loop id (some b) none (keys_of siblings)).0 ≡ ids = ground arith in
      rw e at (loop_before b (keys_of siblings) once found)
  insert_bookmark_into_sibling_order-IsInserted siblings none (some a) ids once one h =
      let (found, k) = guard-eq-ok (insert_loop id none (some a) (keys_of siblings)).1 _ _ h in
      let e : (insert_loop id none (some a) (keys_of siblings)).0 ≡ ids = ground arith in
      rw e at (loop_after a (keys_of siblings) once found)
  insert_bookmark_into_sibling_order-IsInserted siblings (some b) (some a) ids once one h =
      absurd (ground arith)
