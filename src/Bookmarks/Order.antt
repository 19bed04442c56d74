-- ===== src/Bookmarks/Order.antt =====
-- insertBookmarkIntoSiblingOrder and buildBookmarkSortOrders of internal/usecase/browser_bookmark.go.
pub mod Inserted
use omniflow_go.Prelude.{
  ℕ, zero, suc, ◌+◌, ◌*◌, ◌≡◌, refl, sym, ap, ◌∙◌, ◌⊎◌, inl, inr, Bool, true, false, ◌&&◌, ◌||◌,
  not, Option, none, some, List, [], ◌∷◌, ◌++◌, map, ◌==◌, if◌then◌else◌, Elem, arith, Bool-cases,
}
use omniflow_go.Result.{Error, Result, ok, err, guard, ◌>>=◌, ◌>>◌, invalid_argument, guard-eq-ok}
use omniflow_go.Bookmarks.{Bookmark, SortOrder}

abbrev pub keys_of : List Bookmark → List ℕ
keys_of [] = []
keys_of (r ∷ rs) = r.id ∷ keys_of rs

-- `p != nil && id == *p`
abbrev pub is_at : Option ℕ → ℕ → Bool
is_at none id = false
is_at (some p) id = id == p

-- The loop: what it appends, and whether it has inserted the key.
unfoldable pub insert_loop : ℕ → Option ℕ → Option ℕ → List ℕ → List ℕ × Bool
insert_loop id before after [] = ([], false)
insert_loop id before after (x ∷ xs) =
    let (rest, inserted) = insert_loop id before after xs in
    (
      (if is_at before x then id ∷ [] else [])
          ++ (x ∷ ((if is_at after x then id ∷ [] else []) ++ rest)),
      is_at before x || is_at after x || inserted,
    )

unfoldable pub insert_bookmark_into_sibling_order :
    ℕ → List Bookmark → Option ℕ → Option ℕ → Result (List ℕ)
unfolding insert_loop
insert_bookmark_into_sibling_order id siblings none none = ok (keys_of siblings ++ (id ∷ []))
insert_bookmark_into_sibling_order id siblings before after = do
  let (ordered, inserted) = insert_loop id before after (keys_of siblings)
  guard inserted invalid_argument
  ok ordered

-- The key at the index `i` gets the order `(i + 1) * 1000`.
unfoldable pub number_from : ℕ → List ℕ → List SortOrder
number_from i [] = []
number_from i (x ∷ xs) = record { bookmark = x; order = suc i * 1000 } ∷ number_from (suc i) xs

unfoldable pub build_bookmark_sort_orders : List ℕ → List SortOrder
unfolding number_from
build_bookmark_sort_orders ids = number_from 0 ids
