-- ===== src/Bookmarks.antt =====
-- Browser bookmarks: the rows and the queries of
-- internal/repository/postgres/impl/browserbookmark/repository.go, and Create and Move of
-- internal/usecase/browser_bookmark.go.
pub mod Order
pub mod Memory
pub mod Cycle
pub mod Move
pub mod Normal
pub mod Import
use omniflow_go.Prelude.{
  ℕ, zero, suc, ◌+◌, ◌*◌, ◌%◌, ◌^◌, ◌≡◌, ◌↔◌, ◌⊎◌, ◌<◌, ◌≤◌, Bool, true, false, ◌&&◌, ◌||◌, not,
  Option, none, some, List, [], ◌∷◌, ◌++◌, map, ◌==◌, if◌then◌else◌, Elem, ltb,
}
use omniflow_go.Text.{Text, eqb, codes}
use omniflow_go.Result.{
  Error, Result, ok, err, guard, ◌>>=◌, ◌>>◌, invalid_argument, not_found, conflict,
  repository_not_found, repository_conflict,
}
use omniflow_go.Store.{is_none, opt_eqb}

-- A row. `sort_order` is an int32 that is shifted up by 2 ^ 31, so that 0 stands at `sort_zero`;
-- `parent` is `none` for NULL.
pub record Bookmark : Type 0 where
  pub id : ℕ
  pub owner : ℕ
  pub parent : Option ℕ
  pub kind : Text
  pub title : Text
  pub url : Option Text
  pub url_match_key : Option Text
  pub icon_url : Option Text
  pub sort_order : ℕ
  pub deleted_at : Option ℕ
  pub updated_at : ℕ

abbrev pub kind_url : Text
kind_url = codes "url"

abbrev pub kind_folder : Text
kind_folder = codes "folder"

abbrev pub sort_zero : ℕ
sort_zero = 2147483648

-- `int32(value)` in the shifted form, for a value that is not negative.
unfoldable pub to_int32 : ℕ → ℕ
to_int32 value = (value + sort_zero) % 4294967296

-- `owner_user_id = ?`, with the `deleted_at IS NULL` that GORM adds.
abbrev pub is_owned : ℕ → Bookmark → Bool
is_owned owner r = is_none r.deleted_at && r.owner == owner

abbrev pub has_bookmark_id : ℕ → ℕ → Bookmark → Bool
has_bookmark_id id owner r = r.id == id && is_owned owner r

-- A transaction on the table. `select` answers in the order of `sort_order` and then `id`;
-- `select_max` is MAX(sort_order), `none` being NULL.
pub record Table : Type 1 where
  pub Session : Type 0
  pub rows : Session → List Bookmark
  pub select : (Bookmark → Bool) → Session → Result (List Bookmark)
  pub select_max : (Bookmark → Bool) → Session → Result (Option ℕ)
  pub update : (Bookmark → Bool) → (Bookmark → Bookmark) → Session → Result (ℕ × Session)
  pub insert : Bookmark → Session → Result (Bookmark × Session)
  pub select_rows :
      (p : Bookmark → Bool) (s : Session) (rs : List Bookmark)
      → select p s ≡ ok rs
      → (r : Bookmark) → Elem r rs ↔ (Elem r (rows s) × (p r ≡ true))
  pub select_max_rows :
      (p : Bookmark → Bool) (s : Session) (m : Option ℕ)
      → select_max p s ≡ ok m
      → (r : Bookmark) → Elem r (rows s)
      → p r ≡ true
      → (n : ℕ) × (m ≡ some n) × (r.sort_order ≤ n)
  pub select_max_row :
      (p : Bookmark → Bool) (s : Session) (n : ℕ)
      → select_max p s ≡ ok (some n)
      → (r : Bookmark) × Elem r (rows s) × (p r ≡ true) × (r.sort_order ≡ n)
  pub update_rows :
      (p : Bookmark → Bool) (f : Bookmark → Bookmark) (s t : Session) (n : ℕ)
      → update p f s ≡ ok (n, t)
      → rows t ≡ map (λ r. if p r then f r else r) (rows s)
  pub insert_rows :
      (r r' : Bookmark) (s t : Session)
      → insert r s ≡ ok (r', t)
      → (r' ≡ record r { id = r'.id })
        × (rows t ≡ rows s ++ (r' ∷ []))
        × ((q : Bookmark) → Elem q (rows s) → ¬ (q.id ≡ r'.id))

abbrev pub first_bookmark : List Bookmark → Result Bookmark
first_bookmark [] = err repository_not_found
first_bookmark (r ∷ rs) = ok r

-- `parent_id IS NULL` for nil, else `parent_id = ?`
abbrev pub is_child : Option ℕ → Bookmark → Bool
is_child parent r = opt_eqb r.parent parent

-- `id <> ?` where there is a key to leave out.
abbrev pub is_other : ℕ → Bookmark → Bool
is_other exclude r = not (ltb 0 exclude) || not (r.id == exclude)

-- toPGInt64Ptr
unfoldable pub to_pg_int64_ptr : Option ℕ → Option ℕ
to_pg_int64_ptr none = none
to_pg_int64_ptr (some p) = if p == 0 then none else some p

-- The repository's errors as those of the use case.
unfoldable pub map_found : Error → Error
map_found repository_not_found = not_found
map_found e = e

abbrev pub on_error : {A : Type 0} → (Error → Error) → Result A → Result A
on_error f (ok a) = ok a
on_error f (err e) = err (f e)

pub record SortOrder : Type 0 where
  pub bookmark : ℕ
  pub order : ℕ

module _ (d : Table) where
  open d use {Session, select, select_max, update, insert}

  unfoldable pub list_by_owner : ℕ → Session → Result (List Bookmark)
  list_by_owner owner s = select (is_owned owner) s

  unfoldable pub list_siblings : ℕ → Option ℕ → ℕ → Session → Result (List Bookmark)
  list_siblings owner parent exclude s =
      select (λ r. is_owned owner r && is_child parent r && is_other exclude r) s

  unfoldable pub find_owner_by_id : ℕ → ℕ → Session → Result Bookmark
  find_owner_by_id id owner s = do rs ← select (has_bookmark_id id owner) s; first_bookmark rs

  unfoldable pub move_owner_by_id : ℕ → ℕ → ℕ → Option ℕ → Session → Result Session
  move_owner_by_id now id owner parent s = do
    (n, t) ←
        update (has_bookmark_id id owner)
          (λ r. record r { parent = to_pg_int64_ptr parent; updated_at = now }) s
    guard (not (n == 0)) repository_not_found
    ok t

  unfoldable pub update_sort_orders : ℕ → ℕ → List SortOrder → Session → Result Session
  update_sort_orders now owner [] s = ok s
  update_sort_orders now owner (o ∷ os) s = do
    (n, t) ←
        update (has_bookmark_id o.bookmark owner)
          (λ r. record r { sort_order = to_int32 o.order; updated_at = now }) s
    guard (not (n == 0)) repository_not_found
    update_sort_orders now owner os t
