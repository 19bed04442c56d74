-- ===== src/Store/Memory/Select.antt =====
-- SELECT and UPDATE on a list of rows.
use omniflow_go.Prelude.{
  ℕ, ◌≡◌, ◌↔◌, Bool, true, false, ◌&&◌, not, List, [], ◌∷◌, map, arith, Bool-cases, inl, inr,
  if◌then◌else◌, All, Elem,
}
use omniflow_go.Result.{Result, ok, err, other}
use omniflow_go.Store.{Row, Key, before, count, IsOrdered}

insert_row : List Key → Row → List Row → List Row
insert_row ks r [] = r ∷ []
insert_row ks r (q ∷ qs) = if before ks q r then q ∷ insert_row ks r qs else r ∷ q ∷ qs

pick : (Row → Bool) → List Key → List Row → List Row
pick p ks [] = []
pick p ks (r ∷ rs) = let rest = pick p ks rs in if p r then insert_row ks r rest else rest

none_before : List Key → Row → List Row → Bool
none_before ks r [] = true
none_before ks r (q ∷ qs) = not (before ks q r) && none_before ks r qs

is_ordered : List Key → List Row → Bool
is_ordered ks [] = true
is_ordered ks (r ∷ rs) = none_before ks r rs && is_ordered ks rs

none_before_lem :
    (ks : List Key) (r : Row) (rs : List Row)
    → none_before ks r rs ≡ true
    → All (λ q. before ks q r ≡ false) rs
unfolding none_before
none_before_lem ks r [] h = tt
none_before_lem ks r (q ∷ qs) h = ground (arith, none_before_lem ks r qs)

is_ordered_lem : (ks : List Key) (rs : List Row) → is_ordered ks rs ≡ true → IsOrdered ks rs
unfolding is_ordered
is_ordered_lem ks [] h = tt
is_ordered_lem ks (r ∷ rs) h = ground (arith, none_before_lem ks r rs, is_ordered_lem ks rs)

Elem-insert_row :
    (ks : List Key) (r : Row) (qs : List Row) (x : Row)
    → Elem x (insert_row ks r qs) ↔ Elem x (r ∷ qs)
unfolding insert_row
Elem-insert_row ks r [] x = (λ m. m, λ m. m)
Elem-insert_row ks r (q ∷ qs) x =
    let (to, from) = Elem-insert_row ks r qs x in (λ m. to_step m to, λ m. from_step m from)
  where
    to_step :
        Elem x (if before ks q r then q ∷ insert_row ks r qs else r ∷ q ∷ qs)
        → (Elem x (insert_row ks r qs) → Elem x (r ∷ qs))
        → Elem x (r ∷ q ∷ qs)
    to_step m to = ground arith

    from_step :
        Elem x (r ∷ q ∷ qs)
        → (Elem x (r ∷ qs) → Elem x (insert_row ks r qs))
        → Elem x (if before ks q r then q ∷ insert_row ks r qs else r ∷ q ∷ qs)
    from_step m from = ground arith

Elem-pick :
    (p : Row → Bool) (ks : List Key) (rs : List Row) (x : Row)
    → Elem x (pick p ks rs) ↔ (Elem x rs × (p x ≡ true))
unfolding pick
Elem-pick p ks [] x = (λ m. absurd m, λ m. m.0)
Elem-pick p ks (r ∷ rs) x =
    let (to, from) = Elem-pick p ks rs x in
    let (out, into) = Elem-insert_row ks r (pick p ks rs) x in
    elim (Bool-cases (p r)) [
      | inl b ↦ rw b (λ m. ground (arith, out m), λ m. into (ground arith))
      | inr b ↦ rw b (λ m. (inr (to m).0, (to m).1), λ m. ground arith)
    ]

unfoldable pub select_list : (Row → Bool) → List Key → List Row → Result (List Row)
unfolding pick insert_row is_ordered none_before
select_list p ks rows =
    if is_ordered ks (pick p ks rows) then ok (pick p ks rows) else err (other 0)

select_list-ok :
    (p : Row → Bool) (ks : List Key) (rows rs : List Row)
    → select_list p ks rows ≡ ok rs
    → (pick p ks rows ≡ rs) × (is_ordered ks (pick p ks rows) ≡ true)
unfolding select_list
select_list-ok p ks rows rs h = ground arith

pub select_list_rows :
    (p : Row → Bool) (ks : List Key) (rows rs : List Row)
    → select_list p ks rows ≡ ok rs
    → (r : Row) → Elem r rs ↔ (Elem r rows × (p r ≡ true))
select_list_rows p ks rows rs h r = rw (← (select_list-ok p ks rows rs h).0) (Elem-pick p ks rows r)

pub select_list-IsOrdered :
    (p : Row → Bool) (ks : List Key) (rows rs : List Row)
    → select_list p ks rows ≡ ok rs
    → IsOrdered ks rs
select_list-IsOrdered p ks rows rs h =
    let (e, b) = select_list-ok p ks rows rs h in is_ordered_lem ks rs (rw e at b)

unfoldable pub update_list : (Row → Bool) → (Row → Row) → List Row → Result (ℕ × List Row)
update_list p f rows = ok (count p rows, map (λ r. if p r then f r else r) rows)

pub update_list_rows :
    (p : Row → Bool) (f : Row → Row) (s t : List Row) (n : ℕ)
    → update_list p f s ≡ ok (n, t)
    → (t ≡ map (λ r. if p r then f r else r) s) × (n ≡ count p s)
unfolding update_list
update_list_rows p f s t n h = ground arith
