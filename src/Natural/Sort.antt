-- ===== src/Natural/Sort.antt =====
-- Sorting the children of a directory by their names: SortDirectChildrenByName and
-- sortableNodeName of internal/repository/postgres/impl/node/node_sort.go. sort.SliceStable is a
-- parameter with what Go's documentation says of it.
pub mod Order
pub mod Assigned
pub mod Sorted
use omniflow_go.Prelude.{
  ℕ, ◌+◌, ◌≡◌, ◌↔◌, Ordering, lt, eq, gt, Bool, true, false, ◌&&◌, not, Option, none, some, List,
  [], ◌∷◌, ◌++◌, map, ◌==◌, ltb, if◌then◌else◌, is_nil, All, Elem,
}
use omniflow_go.Text.{Text, is_empty, trim_space}
use omniflow_go.Result.{
  Result, ok, guard, ◌>>=◌, ◌>>◌, repository_not_found, repository_invalid_state,
}
use omniflow_go.Store.{Row, asc, is_live, opt_eqb, Database, find_node_model}
use omniflow_go.Move.{deref_string, set_order}
use omniflow_go.Natural.{Tables, natural_compare}

abbrev pub comic_sort_step : ℕ
comic_sort_step = 1024

-- "The less function must describe a transitive ordering": where less holds of both or of neither
-- of two neighbours, it does so of the outer two, and no two rows are each before the other.
pub record IsOrder (less : Row → Row → Bool) (rows : List Row) : Type 0 where
  pub asym : (q r : Row) → Elem q rows → Elem r rows → less q r ≡ true → less r q ≡ false
  pub trans :
      (p q r : Row)
      → Elem p rows
      → Elem q rows
      → Elem r rows
      → less p q ≡ true
      → less q r ≡ true
      → less p r ≡ true
  pub neither :
      (p q r : Row)
      → Elem p rows
      → Elem q rows
      → Elem r rows
      → less p q ≡ false
      → less q r ≡ false
      → less p r ≡ false

-- No row is before one that stands ahead of it.
abbrev pub IsSortedBy : (Row → Row → Bool) → List Row → Type 0
IsSortedBy less [] = Unit
IsSortedBy less (r ∷ rs) = All (λ q. less q r ≡ false) rs × IsSortedBy less rs

-- sort.SliceStable
pub record SliceStable : Type 0 where
  pub sort : (Row → Row → Bool) → List Row → List Row
  pub sort_rows :
      (less : Row → Row → Bool) (rows : List Row) (r : Row) → Elem r (sort less rows) ↔ Elem r rows
  pub sort_sorted :
      (less : Row → Row → Bool) (rows : List Row)
      → IsOrder less rows
      → IsSortedBy less (sort less rows)

-- The live rows under this parent, which is never NULL.
unfoldable pub is_direct_child : ℕ → ℕ → Row → Bool
is_direct_child library node r = is_live r && r.library == library && opt_eqb r.parent (some node)

-- `if cmp != 0 { return cmp < 0 }`, and what follows. The comparison always returns.
abbrev pub by_name_or_id : Option Ordering → Bool → Bool
by_name_or_id (some lt) ids = true
by_name_or_id (some gt) ids = false
by_name_or_id (some eq) ids = ids
by_name_or_id none ids = ids

module _ (u : Tables) where
  unfoldable pub sortable_node_name : Row → Text
  unfolding deref_string
  sortable_node_name r =
      if not (r.node_type == 1)
      then trim_space r.name
      else if is_empty (trim_space (deref_string r.ext))
      then trim_space r.name
      else trim_space r.name ++ (b'.' ∷ map u.to_lower (trim_space (deref_string r.ext)))

  unfoldable pub name_less : Row → Row → Bool
  name_less q r =
      by_name_or_id (natural_compare u (sortable_node_name q) (sortable_node_name r))
        (ltb q.id r.id)

module _ (d : Database) where
  open d use {Session, select, update}

  -- The loop over the sorted rows.
  unfoldable pub sort_loop : ℕ → ℕ → ℕ → List Row → Session → Result Session
  sort_loop library now next [] s = ok s
  sort_loop library now next (r ∷ rs) s = do
    (n, t) ← update (λ q. is_live q && q.id == r.id && q.library == library) (set_order next now) s
    guard (not (n == 0)) repository_not_found
    sort_loop library now (next + comic_sort_step) rs t

  unfoldable pub sort_direct_children_by_name :
      Tables → SliceStable → ℕ → ℕ → ℕ → Session → Result Session
  unfolding is_direct_child name_less sort_loop
  sort_direct_children_by_name u stable node library now s = do
    parent ← find_node_model d node library s
    guard (parent.node_type == 0) repository_invalid_state
    rs ← select (is_direct_child library node) (asc (λ r. r.id) ∷ []) s
    if is_nil rs
        then ok s
        else sort_loop library now comic_sort_step (stable.sort (name_less u) rs) s
