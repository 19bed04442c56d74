-- ===== src/Bookmarks/Move/Sorted.antt =====
-- The siblings stand in the order that Move has made.
use omniflow_go.Prelude.{
  ℕ, zero, suc, ◌<◌, ◌≡◌, true, Option, none, some, List, [], ◌∷◌, if◌then◌else◌, Elem,
}
use omniflow_go.Bookmarks.{Bookmark, is_owned, has_bookmark_id, to_pg_int64_ptr}
use omniflow_go.Bookmarks.Move.{MoveBrowserBookmarkCommand}

abbrev pub get_elem? : List ℕ → ℕ → Option ℕ
get_elem? [] i = none
get_elem? (x ∷ xs) zero = some x
get_elem? (x ∷ xs) (suc i) = get_elem? xs i

-- The rows of the owner stand in the order of `ids`.
abbrev pub StandInOrder : ℕ → List ℕ → List Bookmark → Type 0
StandInOrder owner ids rs =
    (j k x y : ℕ) (q r : Bookmark)
    → j < k
    → get_elem? ids j ≡ some x
    → get_elem? ids k ≡ some y
    → Elem q rs
    → Elem r rs
    → is_owned owner q ≡ true
    → is_owned owner r ≡ true
    → q.id ≡ x
    → r.id ≡ y
    → q.sort_order < r.sort_order

-- The bookmark has the new parent, and the others those that they had.
abbrev pub HaveParents : ℕ → MoveBrowserBookmarkCommand → List Bookmark → List Bookmark → Type 0
HaveParents owner cmd before after =
    (r : Bookmark)
    → Elem r after
    → (q : Bookmark) × Elem q before
      × (q.id ≡ r.id)
      × (r.parent
          ≡ (if has_bookmark_id cmd.bookmark owner r then to_pg_int64_ptr cmd.parent else q.parent))
