-- ===== src/Bookmarks/Memory.antt =====
-- A table of bookmarks in a list: the laws can be met.
use omniflow_go.Prelude.{
  ℕ, suc, ◌+◌, ◌≡◌, refl, ap, ◌↔◌, ◌≤◌, inl, inr, Bool, true, ◌&&◌, ◌||◌, Option, none, some, List,
  [], ◌∷◌, ◌++◌, map, ◌==◌, ltb, if◌then◌else◌, Elem, arith, Bool-cases, Option-cases,
}
use omniflow_go.Result.{Result, ok}
use omniflow_go.Bookmarks.{Bookmark, Table}

unfoldable pub stands_before : Bookmark → Bookmark → Bool
stands_before q r = ltb q.sort_order r.sort_order || (q.sort_order == r.sort_order && ltb q.id r.id)

insert_sorted : Bookmark → List Bookmark → List Bookmark
insert_sorted r [] = r ∷ []
insert_sorted r (q ∷ qs) = if stands_before q r then q ∷ insert_sorted r qs else r ∷ q ∷ qs

pick_sorted : (Bookmark → Bool) → List Bookmark → List Bookmark
pick_sorted p [] = []
pick_sorted p (r ∷ rs) = let rest = pick_sorted p rs in if p r then insert_sorted r rest else rest

Elem-insert_sorted :
    (r : Bookmark) (qs : List Bookmark) (x : Bookmark)
    → Elem x (insert_sorted r qs) ↔ Elem x (r ∷ qs)
unfolding insert_sorted
Elem-insert_sorted r [] x = (λ m. m, λ m. m)
Elem-insert_sorted r (q ∷ qs) x =
    let (to, from) = Elem-insert_sorted r qs x in
    elim (Bool-cases (stands_before q r)) [
      | inl b ↦ rw b (λ m. ground arith, λ m. ground arith)
      | inr b ↦ rw b (λ m. m, λ m. m)
    ]

Elem-pick_sorted :
    (p : Bookmark → Bool) (rs : List Bookmark) (x : Bookmark)
    → Elem x (pick_sorted p rs) ↔ (Elem x rs × (p x ≡ true))
unfolding pick_sorted
Elem-pick_sorted p [] x = (λ m. absurd m, λ m. m.0)
Elem-pick_sorted p (r ∷ rs) x =
    let (to, from) = Elem-pick_sorted p rs x in
    let (out, in_) = Elem-insert_sorted r (pick_sorted p rs) x in
    elim (Bool-cases (p r)) [
      | inl b ↦ rw b (
        λ m. elim (out m) [ inl e ↦ (inl e, rw e b) | inr n ↦ (inr (to n).0, (to n).1) ],
        λ (m, k). in_ (elim m [ inl e ↦ inl e | inr n ↦ inr (from (n, k)) ]),
      )
      | inr b ↦ rw b (
        λ m. (inr (to m).0, (to m).1),
        λ (m, k). elim m [ inl e ↦ absurd (ground (arith, ap p e)) | inr n ↦ from (n, k) ],
      )
    ]

unfoldable pub select_bookmarks : (Bookmark → Bool) → List Bookmark → Result (List Bookmark)
unfolding pick_sorted insert_sorted stands_before
select_bookmarks p rows = ok (pick_sorted p rows)

pub select_bookmarks_rows :
    (p : Bookmark → Bool) (s rs : List Bookmark)
    → select_bookmarks p s ≡ ok rs
    → (r : Bookmark) → Elem r rs ↔ (Elem r s × (p r ≡ true))
unfolding select_bookmarks
select_bookmarks_rows p s rs h r =
    let e : pick_sorted p s ≡ rs = ground arith in rw (← e) (Elem-pick_sorted p s r)

-- The larger of two orders.
greater : ℕ → Option ℕ → Option ℕ
greater n none = some n
greater n (some m) = some (if ltb n m then m else n)

max_list : (Bookmark → Bool) → List Bookmark → Option ℕ
unfolding greater
max_list p [] = none
max_list p (r ∷ rs) = let rest = max_list p rs in if p r then greater r.sort_order rest else rest

unfoldable pub select_max_list : (Bookmark → Bool) → List Bookmark → Result (Option ℕ)
unfolding max_list
select_max_list p rows = ok (max_list p rows)

max_list_rows :
    (p : Bookmark → Bool) (s : List Bookmark) (r : Bookmark)
    → Elem r s
    → p r ≡ true
    → (n : ℕ) × (max_list p s ≡ some n) × (r.sort_order ≤ n)
unfolding max_list greater
max_list_rows p [] r m k = absurd m
max_list_rows p (q ∷ qs) r (inl e) k = elim (Option-cases (max_list p qs)) [
  | inl none_there ↦ (q.sort_order, rw (none_there, ← e, k) refl, rw (← e) (omega arith))
  | inr (n, there) ↦ (
    (if ltb q.sort_order n then n else q.sort_order),
    rw (there, ← e, k) refl,
    rw (← e) (ground arith),
  )
]
max_list_rows p (q ∷ qs) r (inr m) k =
    let (n, e, l) = max_list_rows p qs r m k in
    elim (Bool-cases (p q)) [
      | inl b ↦ ((if ltb q.sort_order n then n else q.sort_order), rw (e, b) refl, ground arith)
      | inr b ↦ (n, rw (e, b) refl, l)
    ]

max_list_row :
    (p : Bookmark → Bool) (s : List Bookmark) (n : ℕ)
    → max_list p s ≡ some n
    → (r : Bookmark) × Elem r s × (p r ≡ true) × (r.sort_order ≡ n)
unfolding max_list greater
max_list_row p [] n h = absurd (ground arith)
max_list_row p (q ∷ qs) n h = elim (Bool-cases (p q)) [
  | inr b ↦ let (r, m, k, e) = max_list_row p qs n (rw b at h) in (r, inr m, k, e)
  | inl b ↦ elim (Option-cases (max_list p qs)) [
    | inl none_there ↦ let h' = rw (b, none_there) at h in (q, inl refl, b, ground arith)
    | inr (x, there) ↦
        let h' = rw (b, there) at h in
        let (r, m, k, e) = max_list_row p qs x there in
        elim (Bool-cases (ltb q.sort_order x)) [
          | inl l ↦ (r, inr m, k, ground arith)
          | inr l ↦ (q, inl refl, b, ground arith)
        ]
  ]
]

count_hits : (Bookmark → Bool) → List Bookmark → ℕ
count_hits p [] = 0
count_hits p (r ∷ rs) = (if p r then 1 else 0) + count_hits p rs

unfoldable pub update_bookmarks :
    (Bookmark → Bool) → (Bookmark → Bookmark) → List Bookmark → Result (ℕ × List Bookmark)
unfolding count_hits
update_bookmarks p f rows = ok (count_hits p rows, map (λ r. if p r then f r else r) rows)

pub update_bookmarks_rows :
    (p : Bookmark → Bool) (f : Bookmark → Bookmark) (s t : List Bookmark) (n : ℕ)
    → update_bookmarks p f s ≡ ok (n, t)
    → t ≡ map (λ r. if p r then f r else r) s
unfolding update_bookmarks
update_bookmarks_rows p f s t n h = ground arith

top_key : List Bookmark → ℕ
top_key [] = 0
top_key (r ∷ rs) = r.id + top_key rs

top_key-le : (rows : List Bookmark) (r : Bookmark) → Elem r rows → r.id ≤ top_key rows
unfolding top_key
top_key-le [] r m = absurd m
top_key-le (q ∷ qs) r (inl e) = let same = ap (λ (b : Bookmark). b.id) e in omega arith
top_key-le (q ∷ qs) r (inr m) = omega (arith, top_key-le qs r m)

abbrev keyed : Bookmark → List Bookmark → Bookmark
keyed r rows = record r { id = suc (top_key rows) }

unfoldable pub insert_bookmarks : Bookmark → List Bookmark → Result (Bookmark × List Bookmark)
unfolding top_key
insert_bookmarks r rows = ok (keyed r rows, rows ++ (keyed r rows ∷ []))

pub insert_bookmarks_rows :
    (r r' : Bookmark) (s t : List Bookmark)
    → insert_bookmarks r s ≡ ok (r', t)
    → (r' ≡ record r { id = r'.id })
      × (t ≡ s ++ (r' ∷ []))
      × ((q : Bookmark) → Elem q s → ¬ (q.id ≡ r'.id))
unfolding insert_bookmarks
insert_bookmarks_rows r r' s t h =
    let a : keyed r s ≡ r' = ground arith in
    let b : s ++ (keyed r s ∷ []) ≡ t = ground arith in
    rw (← a, ← b) (refl, refl, λ q m e. omega (arith, top_key-le s q m, e))

pub select_max_list_rows :
    (p : Bookmark → Bool) (s : List Bookmark) (m : Option ℕ)
    → select_max_list p s ≡ ok m
    → (r : Bookmark) → Elem r s
    → p r ≡ true
    → (n : ℕ) × (m ≡ some n) × (r.sort_order ≤ n)
unfolding select_max_list
select_max_list_rows p s m h r n k =
    let e : max_list p s ≡ m = ground arith in rw e at (max_list_rows p s r n k)

pub select_max_list_row :
    (p : Bookmark → Bool) (s : List Bookmark) (n : ℕ)
    → select_max_list p s ≡ ok (some n)
    → (r : Bookmark) × Elem r s × (p r ≡ true) × (r.sort_order ≡ n)
unfolding select_max_list
select_max_list_row p s n h = let e : max_list p s ≡ some n = ground arith in max_list_row p s n e

abbrev pub bookmark_memory : Table
bookmark_memory = record {
  Session = List Bookmark;
  rows = λ rows. rows;
  select = select_bookmarks;
  select_max = select_max_list;
  update = update_bookmarks;
  insert = insert_bookmarks;
  select_rows = select_bookmarks_rows;
  select_max_rows = select_max_list_rows;
  select_max_row = select_max_list_row;
  update_rows = update_bookmarks_rows;
  insert_rows = insert_bookmarks_rows;
}
