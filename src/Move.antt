-- ===== src/Move.antt =====
-- Moving a node: MoveNode of internal/repository/postgres/impl/node/node_write.go with the sort
-- orders that it gives out. Go's `int` differences here are of an order and a larger or equal one.
pub mod Reindex
pub mod Keeps
pub mod Forest
pub mod Acyclic
pub mod Before
pub mod Concurrent
pub mod Placed
pub mod Node
pub mod Under
pub mod Visible
use omniflow_go.Prelude.{
  ℕ, zero, suc, ◌+◌, ◌-◌, ◌*◌, ◌/◌, Bool, true, false, ◌&&◌, ◌||◌, not, Option, none, some, List,
  [], ◌∷◌, ◌++◌, ◌==◌, ltb, leb, if◌then◌else◌,
}
use omniflow_go.Text.{Text, codes, eqb, is_empty, trim_space, decimal, sort_texts, unique_texts}
use omniflow_go.Result.{
  Error, Result, ok, err, guard, ◌>>=◌, ◌>>◌, repository_not_found, repository_conflict,
  repository_invalid_state,
}
use omniflow_go.Names.{NodeType, node_type_code, domain_type_code, build_visible_name}
use omniflow_go.Store.{
  Row, Key, asc, desc, is_live, Database, parent_id_value, normalize_pg_parent_id, has_parent,
  find_node_model,
}

pub record MoveNodeInput : Type 0 where
  pub library : ℕ
  pub node : ℕ
  pub new_parent : ℕ
  pub before_node : ℕ
  pub name : Text
  pub updated_at : ℕ

abbrev pub move_sort_step : ℕ
move_sort_step = 1024

abbrev pub move_min_sort_gap : ℕ
move_min_sort_gap = 2

abbrev pub move_max_int32 : ℕ
move_max_int32 = 2147483647

abbrev pub move_max_safe_sort_base : ℕ
move_max_safe_sort_base = move_max_int32 - move_sort_step * 4

-- The live rows under a parent of a library.
unfoldable pub is_sibling : ℕ → ℕ → Row → Bool
unfolding has_parent
is_sibling library parent r = is_live r && r.library == library && has_parent parent r

-- derefString
unfoldable pub deref_string : Option Text → Text
deref_string none = []
deref_string (some t) = t

-- CASE WHEN node_type = 1 AND COALESCE(ext, '') <> '' THEN name || '.' || ext ELSE name END
unfoldable pub sql_visible_name : Row → Text
unfolding deref_string
sql_visible_name r =
    if r.node_type == 1 && not (is_empty (deref_string r.ext))
    then r.name ++ (b'.' ∷ deref_string r.ext)
    else r.name

unfoldable pub is_duplicate : Text → ℕ → ℕ → ℕ → Row → Bool
unfolding is_sibling sql_visible_name
is_duplicate visible parent library exclude r =
    is_sibling library parent r
    && eqb (sql_visible_name r) visible
    && (exclude == 0 || not (r.id == exclude))

-- The parts of a row that a reindexing and a move write.
abbrev pub set_order : ℕ → ℕ → Row → Row
set_order order now r = record r { sort_order = order; updated_at = now }

abbrev pub move_row : ℕ → ℕ → ℕ → Row → Row
move_row parent order now r = record r {
  parent = normalize_pg_parent_id parent;
  sort_order = order;
  updated_at = now;
}

-- fmt.Sprintf of "nodes:move:parent:%d:%d" and "nodes:move:children:%d:%d".
unfoldable pub move_scope : Text → ℕ → ℕ → Text
move_scope prefix library id = prefix ++ (decimal library ++ (b':' ∷ decimal id))

-- The scopes that lockMoveScope locks, in the order of the locks.
unfoldable pub move_scopes : ℕ → ℕ → ℕ → List Text
unfolding move_scope
move_scopes library old_parent new_parent = sort_texts (
    unique_texts [] (
      move_scope (codes "nodes:move:parent:") library old_parent
      ∷ move_scope (codes "nodes:move:children:") library old_parent
      ∷ move_scope (codes "nodes:move:parent:") library new_parent
      ∷ move_scope (codes "nodes:move:children:") library new_parent
      ∷ []))

-- COUNT(1) ... WHERE id = ?
abbrev pub count_ids : ℕ → List ℕ → ℕ
count_ids target [] = 0
count_ids target (i ∷ is) = (if i == target then 1 else 0) + count_ids target is

-- The highest order of a result that is sorted downwards, 0 where there is no row.
unfoldable pub top_order : List Row → ℕ
top_order [] = 0
top_order (r ∷ rs) = r.sort_order

abbrev pub prev_of : ℕ → List Row → Option ℕ
prev_of before_id [] = none
prev_of before_id (r ∷ rs) = if r.id == before_id then none else some r.sort_order

-- `left := 0; if leftSort != nil { left = *leftSort }`
abbrev pub or_zero : Option ℕ → ℕ
or_zero none = 0
or_zero (some n) = n

module _ (d : Database) where
  open d use {Session, select, update, select_sub, select_count, lock}

  unfoldable pub has_duplicate_visible_name :
      Text → Text → NodeType → ℕ → ℕ → ℕ → Session → Result Bool
  unfolding is_duplicate
  has_duplicate_visible_name name ext type parent library exclude s = do
    let visible = build_visible_name name ext (node_type_code type)
    n ← select_count (is_duplicate visible parent library exclude) s
    ok (ltb 0 n)

  unfoldable pub max_sort_order : ℕ → ℕ → Session → Result ℕ
  unfolding is_sibling top_order
  max_sort_order library parent s = do
    rs ← select (is_sibling library parent) (desc (λ r. r.sort_order) ∷ asc (λ r. r.id) ∷ []) s
    ok (top_order rs)

  unfoldable pub is_descendant : ℕ → ℕ → ℕ → Session → Result Bool
  is_descendant node target library s = do
    ids ←
        select_sub (λ r. is_live r && r.id == node && r.library == library)
          (λ r. is_live r && r.library == library) s
    ok (ltb 0 (count_ids target ids))

  -- The order of the nearest sibling with a smaller order. (Its id is never `before_id`, whose row
  -- has the order `before_sort`.)
  unfoldable pub prev_sort_order_before_node : ℕ → ℕ → ℕ → ℕ → Session → Result (Option ℕ)
  unfolding is_sibling
  prev_sort_order_before_node parent library before_sort before_id s = do
    rs ←
        select (λ r. is_sibling library parent r && ltb r.sort_order before_sort)
          (desc (λ r. r.sort_order) ∷ desc (λ r. r.id) ∷ []) s
    ok (prev_of before_id rs)

  -- The loop of reindexParent.
  unfoldable pub reindex_loop : ℕ → ℕ → ℕ → List Row → Session → Result Session
  reindex_loop library now order [] s = ok s
  reindex_loop library now order (r ∷ rs) s = do
    guard (leb order (move_max_int32 - move_sort_step)) repository_invalid_state
    (n, t) ← update (λ q. is_live q && q.id == r.id && q.library == library) (set_order order now) s
    guard (not (n == 0)) repository_not_found
    reindex_loop library now (order + move_sort_step) rs t

  unfoldable pub reindex_parent : ℕ → ℕ → ℕ → Session → Result Session
  unfolding is_sibling reindex_loop
  reindex_parent parent library now s = do
    rs ← select (is_sibling library parent) (asc (λ r. r.sort_order) ∷ asc (λ r. r.id) ∷ []) s
    reindex_loop library now move_sort_step rs s

  unfoldable pub increment_sort_order_after : ℕ → ℕ → ℕ → Session → Result Session
  unfolding is_sibling
  increment_sort_order_after parent library right s = do
    (n, t) ←
        update (λ r. is_sibling library parent r && leb right r.sort_order)
          (λ r. record r { sort_order = r.sort_order + 1 }) s
    ok t

  unfoldable pub reindexed_range : ℕ → ℕ → ℕ → Row → Session → Result (ℕ × ℕ × Session)
  reindexed_range now parent library before s = do
    t ← reindex_parent parent library now s
    again ← find_node_model d before.id library t
    left ← prev_sort_order_before_node parent library again.sort_order again.id t
    ok (or_zero left, again.sort_order, t)

  -- The orders between which the moved node is to stand, with the session after a reindexing. `now`
  -- is the time that a reindexing reads off the clock.
  unfoldable pub resolve_move_before_range : ℕ → ℕ → ℕ → Row → Session → Result (ℕ × ℕ × Session)
  resolve_move_before_range now parent library before s = do
    left ← prev_sort_order_before_node parent library before.sort_order before.id s
    if leb (before.sort_order - or_zero left) move_min_sort_gap
        then reindexed_range now parent library before s
        else ok (or_zero left, before.sort_order, s)

  unfoldable pub place_between : ℕ → ℕ → ℕ → ℕ → Session → Result (ℕ × Session)
  place_between parent library left right s =
      if leb (right - left) 1
      then (do u ← increment_sort_order_after parent library right s; ok (right, u))
      else ok (left + (right - left) / 2, s)

  -- The highest order, after a reindexing where it is near the limit of int32.
  unfoldable pub refreshed_top : MoveNodeInput → ℕ → Session → Result (ℕ × Session)
  refreshed_top input top s =
      if leb move_max_safe_sort_base top
      then (do
        t ← reindex_parent input.new_parent input.library input.updated_at s
        top' ← max_sort_order input.library input.new_parent t
        ok (top', t))
      else ok (top, s)

  unfoldable pub place_at_end : MoveNodeInput → Session → Result (ℕ × Session)
  place_at_end input s = do
    top ← max_sort_order input.library input.new_parent s
    (top', t) ← refreshed_top input top s
    ok (if top' == 0 then move_sort_step else top' + move_sort_step, t)

  unfoldable pub resolve_move_sort_order : MoveNodeInput → ℕ → Session → Result (ℕ × Session)
  resolve_move_sort_order input now s =
      if ltb 0 input.before_node
      then (do
        before ← find_node_model d input.before_node input.library s
        guard (parent_id_value before.parent == input.new_parent) repository_invalid_state
        (left, right, t) ← resolve_move_before_range now input.new_parent input.library before s
        place_between input.new_parent input.library left right t)
      else place_at_end input s

  unfoldable pub lock_all : List Text → Session → Result Session
  lock_all [] s = ok s
  lock_all (t ∷ ts) s = do s' ← lock t s; lock_all ts s'

  unfoldable pub lock_move_scope : ℕ → ℕ → ℕ → Session → Result Session
  unfolding move_scopes lock_all
  lock_move_scope library old_parent new_parent s =
      lock_all (move_scopes library old_parent new_parent) s

  -- The tests on the new parent, if it is not the root's place.
  unfoldable pub check_new_parent : MoveNodeInput → Session → Result (Unit {0})
  unfolding is_descendant
  check_new_parent input s =
      if ltb 0 input.new_parent
      then (do
        parent ← find_node_model d input.new_parent input.library s
        guard (parent.node_type == 0) repository_invalid_state
        below ← is_descendant input.node input.new_parent input.library s
        guard (not below) repository_invalid_state)
      else ok tt

  -- MoveNode behind the locks.
  unfoldable pub move_locked : MoveNodeInput → ℕ → Row → Session → Result Session
  unfolding check_new_parent
  move_locked input now node s = do
    check_new_parent input s
    duplicate ←
        has_duplicate_visible_name
          (if is_empty (trim_space input.name) then node.name else input.name)
          (deref_string node.ext) (domain_type_code node.node_type) input.new_parent input.library
          input.node s
    guard (not duplicate) repository_conflict
    (order, t) ← resolve_move_sort_order input now s
    (n, u) ←
        update (λ r. is_live r && r.id == input.node && r.library == input.library)
          (move_row input.new_parent order input.updated_at) t
    guard (not (n == 0)) repository_not_found
    ok u

  unfoldable pub move_node : MoveNodeInput → ℕ → Session → Result Session
  move_node input now s = do
    node ← find_node_model d input.node input.library s
    guard (not (input.new_parent == input.node)) repository_invalid_state
    t ← lock_move_scope input.library (parent_id_value node.parent) input.new_parent s
    move_locked input now node t
