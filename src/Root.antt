-- ===== src/Root.antt =====
-- The root of a library and the repair of parents:
-- internal/repository/postgres/impl/node/node_root.go.
pub mod Repaired
pub mod Sound
use omniflow_go.Prelude.{
  ℕ, ◌+◌, Bool, true, false, ◌&&◌, ◌||◌, not, Option, none, some, List, [], ◌∷◌, ◌==◌, ltb,
  if◌then◌else◌, is_nil,
}
use omniflow_go.Text.{Text, codes}
use omniflow_go.Result.{Error, Result, ok, err, ◌>>=◌, ◌>>◌}
use omniflow_go.Store.{Row, asc, is_live, Database, first, parent_id_value, normalize_pg_parent_id}
use omniflow_go.Recycle.{in_library, is_not_found}

abbrev pub default_root_node_name : Text
default_root_node_name = codes "根目录"

-- `nodesByID[id]`: the row that was written last.
unfoldable pub node_by_id : List Row → ℕ → Option Row
node_by_id [] id = none
node_by_id (r ∷ rs) id = elim (node_by_id rs id) [
  | some q ↦ some q
  | none ↦ if r.id == id then some r else none
]

-- A parent that is not there, is no directory, or is deleted above a live row.
unfoldable pub is_broken : Row → Option Row → Bool
is_broken r none = true
is_broken r (some parent) = not (parent.node_type == 0) || (is_live r && not (is_live parent))

unfoldable pub wanted_parent : List Row → ℕ → Row → ℕ
unfolding node_by_id is_broken
wanted_parent rows root r =
    if r.id == root
    then 0
    else if parent_id_value r.parent == 0
    then root
    else if is_broken r (node_by_id rows (parent_id_value r.parent))
    then root
    else parent_id_value r.parent

-- With the test that a row is not its own parent.
unfoldable pub target_parent : List Row → ℕ → Row → ℕ
unfolding wanted_parent
target_parent rows root r =
    if wanted_parent rows root r == r.id then root else wanted_parent rows root r

abbrev pub has_row_key : ℕ → ℕ → Row → Bool
has_row_key id library r = r.id == id && r.library == library

abbrev pub adopt : ℕ → ℕ → Row → Row
adopt now parent r = record r { parent = normalize_pg_parent_id parent; updated_at = now }

-- `parent_id IS NULL OR parent_id = 0`, among the live directories of the library.
abbrev pub is_root : ℕ → Row → Bool
is_root library r =
    is_live r && r.library == library && r.node_type == 0 && parent_id_value r.parent == 0

module _ (d : Database) where
  open d use {Session, select, update, insert}

  -- The loop of repairParentReferences over `todo`, the whole list being `rows`.
  unfoldable pub repair_loop :
      ℕ → ℕ → ℕ → List Row → List Row → Bool → Session → Result (Bool × Session)
  unfolding target_parent
  repair_loop now library root rows [] changed s = ok (changed, s)
  repair_loop now library root rows (r ∷ todo) changed s =
      if target_parent rows root r == parent_id_value r.parent
      then repair_loop now library root rows todo changed s
      else (do
        (n, t) ← update (has_row_key r.id library) (adopt now (target_parent rows root r)) s
        repair_loop now library root rows todo (changed || ltb 0 n) t)

  unfoldable pub repair_parent_references : ℕ → ℕ → ℕ → Session → Result (Bool × Session)
  unfolding repair_loop
  repair_parent_references now library root s = do
    rows ← select (in_library library) [] s
    repair_loop now library root rows rows false s

  unfoldable pub find_library_root_node : ℕ → Session → Result Row
  unfolding first
  find_library_root_node library s = do
    rs ← select (is_root library) (asc (λ r. r.id) ∷ []) s
    first rs

  -- The root that is found, or a new one.
  unfoldable pub root_or_new : ℕ → ℕ → Result Row → Session → Result (Row × Session)
  root_or_new now library (ok root) s = ok (root, s)
  root_or_new now library (err e) s =
      if is_not_found e
      then insert
          (record {
            id = 0;
            library = library;
            parent = none;
            node_type = 0;
            name = default_root_node_name;
            ext = none;
            sort_order = 0;
            deleted_at = none;
            updated_at = now;
          })
          s
      else err e

  unfoldable pub ensure_library_root_node_id : ℕ → ℕ → Session → Result (ℕ × Session)
  unfolding root_or_new find_library_root_node
  ensure_library_root_node_id now library s = do
    (root, t) ← root_or_new now library (find_library_root_node library s) s
    (changed, u) ← repair_parent_references now library root.id t
    ok (root.id, u)
