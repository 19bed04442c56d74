-- ===== src/Recycle.antt =====
-- The recycle bin: RestoreTree and HardDeleteTree of
-- internal/repository/postgres/impl/node/node_recycle.go.
pub mod Restore
pub mod RoundTrip
pub mod Erase
use omniflow_go.Prelude.{
  ℕ, ◌+◌, Bool, true, false, ◌&&◌, ◌||◌, not, Option, none, some, List, [], ◌∷◌, ◌==◌, ltb,
  if◌then◌else◌, is_nil,
}
use omniflow_go.Result.{
  Error, Result, ok, err, guard, ◌>>=◌, ◌>>◌, repository_not_found, repository_conflict,
  repository_invalid_state,
}
use omniflow_go.Names.{domain_type_code}
use omniflow_go.Store.{Row, asc, is_live, Database, first, parent_id_value}
use omniflow_go.Move.{deref_string, has_duplicate_visible_name}
use omniflow_go.Delete.{in_ids}

-- The keys of the rows, `restoreSet`.
abbrev pub ids_of : List Row → List ℕ
ids_of [] = []
ids_of (r ∷ rs) = r.id ∷ ids_of rs

abbrev pub has_id : ℕ → ℕ → Row → Bool
has_id id library r = r.id == id && r.library == library

-- The seed and the step of sqlListSubtreeNodeIDsAny.
abbrev pub in_library : ℕ → Row → Bool
in_library library r = r.library == library

-- What Updates writes.
abbrev pub restore_row : ℕ → Row → Row
restore_row now r = record r { deleted_at = none; updated_at = now }

-- `errors.Is(err, ErrNotFound)` of the lookup of a parent, which ErrInvalidState takes the place of.
abbrev pub parent_error : Error → Error
parent_error repository_not_found = repository_invalid_state
parent_error e = e

-- `errors.Is(err, ErrNotFound)`.
abbrev pub is_not_found : Error → Bool
is_not_found repository_not_found = true
is_not_found e = false

-- findNodeModelIncludingDeleted, with the handling of its error.
abbrev pub with_error : {A : Type 0} → (Error → Error) → Result A → Result A
with_error f (ok a) = ok a
with_error f (err e) = err (f e)

module _ (d : Database) where
  open d use {Session, select, update, delete, select_sub}

  unfoldable pub find_node_model_including_deleted : ℕ → ℕ → Session → Result Row
  unfolding first
  find_node_model_including_deleted id library s = do
    rs ← select (has_id id library) (asc (λ r. r.id) ∷ []) s
    first rs

  -- listDescendantIDsAny
  unfoldable pub list_descendant_ids_any : ℕ → ℕ → Session → Result (List ℕ)
  list_descendant_ids_any node library s = select_sub (has_id node library) (in_library library) s

  -- listNodesIncludingDeletedByIDs
  unfoldable pub list_nodes_including_deleted_by_ids : ℕ → List ℕ → Session → Result (List Row)
  list_nodes_including_deleted_by_ids library [] s = ok []
  list_nodes_including_deleted_by_ids library (i ∷ is) s =
      select (λ r. r.library == library && in_ids (i ∷ is) r.id) [] s

  -- The test on a parent that is not restored along.
  unfoldable pub check_parent : ℕ → List ℕ → ℕ → Session → Result (Unit {0})
  check_parent library set parent s =
      if ltb 0 parent && not (in_ids set parent)
      then (do
        row ← with_error parent_error (find_node_model_including_deleted parent library s)
        guard (is_live row) repository_invalid_state)
      else ok tt

  -- The test on the name of a row whose parent is not restored along.
  unfoldable pub check_name : ℕ → List ℕ → Row → Session → Result (Unit {0})
  check_name library set row s = if in_ids set (parent_id_value row.parent) then ok tt else (do
    duplicate ←
        has_duplicate_visible_name d row.name (deref_string row.ext)
          (domain_type_code row.node_type) (parent_id_value row.parent) library row.id s
    guard (not duplicate) repository_conflict)

  -- The loop of RestoreTree.
  unfoldable pub check_rows : ℕ → List ℕ → List Row → Session → Result (Unit {0})
  unfolding check_name
  check_rows library set [] s = ok tt
  check_rows library set (r ∷ rs) s = if is_live r then check_rows library set rs s else (do
    check_parent library set (parent_id_value r.parent) s
    check_name library set r s
    check_rows library set rs s)

  -- The part of RestoreTree behind the test that the node is in the bin.
  unfoldable pub restore_deleted : ℕ → ℕ → ℕ → Session → Result (Bool × Session)
  restore_deleted now node library s = do
    ids ← list_descendant_ids_any node library s
    guard (not (is_nil ids)) repository_not_found
    rows ← list_nodes_including_deleted_by_ids library ids s
    check_rows library (ids_of rows) rows s
    (n, t) ←
        update (λ r. r.library == library && in_ids ids r.id && not (is_live r)) (restore_row now) s
    ok (true, t)

  unfoldable pub restore_tree : ℕ → ℕ → ℕ → Session → Result (Bool × Session)
  restore_tree now node library s = do
    target ← find_node_model_including_deleted node library s
    if is_live target then ok (true, s) else restore_deleted now node library s

  -- The part of HardDeleteTree behind its tests.
  unfoldable pub erase_deleted : ℕ → List ℕ → Session → Result (Bool × Session)
  erase_deleted library [] s = ok (true, s)
  erase_deleted library (i ∷ is) s = do
    (n, t) ← delete (λ r. r.library == library && in_ids (i ∷ is) r.id && not (is_live r)) s
    ok (true, t)

  unfoldable pub hard_delete_found : ℕ → ℕ → Row → Session → Result (Bool × Session)
  unfolding erase_deleted list_descendant_ids_any
  hard_delete_found node library target s = do
    guard (not (is_live target)) repository_invalid_state
    ids ← list_descendant_ids_any node library s
    erase_deleted library ids s

  -- A node that is not there is erased already.
  unfoldable pub erase_lookup : ℕ → ℕ → Result Row → Session → Result (Bool × Session)
  unfolding hard_delete_found
  erase_lookup node library (ok target) s = hard_delete_found node library target s
  erase_lookup node library (err e) s = if is_not_found e then ok (true, s) else err e

  unfoldable pub hard_delete_tree : ℕ → ℕ → Session → Result (Bool × Session)
  unfolding erase_lookup
  hard_delete_tree node library s =
      erase_lookup node library (find_node_model_including_deleted node library s) s
