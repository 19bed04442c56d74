-- ===== src/Store/Memory/Writes.antt =====
-- INSERT and DELETE on a list of rows.
use omniflow_go.Prelude.{
  ℕ, suc, ◌≤◌, ◌<◌, ◌≡◌, refl, sym, ap, ◌∙◌, ◌↔◌, ◌⊎◌, inl, inr, Bool, false, List, [], ◌∷◌, arith,
  Bool-cases, if◌then◌else◌, Elem, ltb,
}
use omniflow_go.Result.{Result, ok}
use omniflow_go.Store.{Row, count, HasKeys}

abbrev top_id : List Row → ℕ
top_id [] = 0
top_id (r ∷ rs) = let rest = top_id rs in if ltb rest r.id then r.id else rest

top_id-le : (rows : List Row) (r : Row) → Elem r rows → r.id ≤ top_id rows
top_id-le [] r m = absurd m
top_id-le (q ∷ qs) r (inl e) = let same = ap (λ (r : Row). r.id) e in ground arith
top_id-le (q ∷ qs) r (inr m) = ground (arith, top_id-le qs r m)

abbrev fresh : Row → List Row → Row
fresh r rows = record r { id = suc (top_id rows) }

unfoldable pub insert_list : Row → List Row → Result (Row × List Row)
insert_list r rows = ok (fresh r rows, fresh r rows ∷ rows)

fresh_keys : (r : Row) (rows : List Row) → HasKeys rows → HasKeys (fresh r rows ∷ rows)
fresh_keys r rows keys q x (inl a) (inl b) e = a ∙ sym b
fresh_keys r rows keys q x (inl a) (inr n) e =
    absurd (omega (arith, top_id-le rows x n, ap (λ (r : Row). r.id) a, e))
fresh_keys r rows keys q x (inr m) (inl b) e =
    absurd (omega (arith, top_id-le rows q m, ap (λ (r : Row). r.id) b, e))
fresh_keys r rows keys q x (inr m) (inr n) e = keys q x m n e

pub insert_list_rows :
    (r r' : Row) (s t : List Row)
    → insert_list r s ≡ ok (r', t)
    → (r' ≡ record r { id = r'.id })
      × (0 < r'.id)
      × ((x : Row) → Elem x t ↔ ((x ≡ r') ⊎ Elem x s))
      × (HasKeys s → HasKeys t)
unfolding insert_list
insert_list_rows r r' s t h =
    let a : fresh r s ≡ r' = ground arith in
    let b : fresh r s ∷ s ≡ t = ground arith in
    rw (← a, ← b) (refl, omega arith, λ x. (λ m. m, λ m. m), fresh_keys r s)

remove_rows : (Row → Bool) → List Row → List Row
remove_rows p [] = []
remove_rows p (r ∷ rs) = let rest = remove_rows p rs in if p r then rest else r ∷ rest

unfoldable pub delete_list : (Row → Bool) → List Row → Result (ℕ × List Row)
unfolding remove_rows
delete_list p rows = ok (count p rows, remove_rows p rows)

Elem-remove_rows :
    (p : Row → Bool) (rows : List Row) (x : Row)
    → Elem x (remove_rows p rows) ↔ (Elem x rows × (p x ≡ false))
unfolding remove_rows
Elem-remove_rows p [] x = (λ m. absurd m, λ m. m.0)
Elem-remove_rows p (r ∷ rs) x =
    let (to, from) = Elem-remove_rows p rs x in
    elim (Bool-cases (p r)) [
      | inl b ↦ rw b (λ m. (inr (to m).0, (to m).1), λ m. ground arith)
      | inr b ↦ rw b (λ m. ground arith, λ m. ground arith)
    ]

pub delete_list_rows :
    (p : Row → Bool) (s t : List Row) (n : ℕ)
    → delete_list p s ≡ ok (n, t)
    → ((x : Row) → Elem x t ↔ (Elem x s × (p x ≡ false))) × (n ≡ count p s)
unfolding delete_list
delete_list_rows p s t n h =
    let b : remove_rows p s ≡ t = ground arith in rw (← b) (Elem-remove_rows p s, ground arith)
