-- ===== src/Delete.antt =====
-- Moving a subtree to the recycle bin: internal/repository/postgres/impl/node/node_delete.go.
pub mod Subtree
use omniflow_go.Prelude.{
  ℕ, zero, suc, ◌+◌, Bool, true, false, ◌&&◌, ◌||◌, not, Option, none, some, List, [], ◌∷◌, ◌==◌,
  ltb, if◌then◌else◌, length,
}
use omniflow_go.Result.{Error, Result, ok, err, ◌>>=◌, ◌>>◌}
use omniflow_go.Store.{Row, is_live, Database}
use omniflow_go.Move.Forest.{in_tree, is_node}

pub record DeleteNodeTreeResult : Type 0 where
  pub deleted_node_count : ℕ
  pub file_node_count : ℕ

-- The values of `id IN (...)`.
abbrev pub in_ids : List ℕ → ℕ → Bool
in_ids [] i = false
in_ids (j ∷ js) i = i == j || in_ids js i

-- The `storage_object_id` of the rows of `node_files` that were read, less those that are not positive.
unfoldable pub storage_ids : List ℕ → List ℕ
storage_ids [] = []
storage_ids (i ∷ is) = let rest = storage_ids is in if ltb 0 i then i ∷ rest else rest

-- How many of them are among the storage objects that were read.
unfoldable pub count_alive : List ℕ → List ℕ → ℕ
count_alive alive [] = 0
count_alive alive (i ∷ is) = (if in_ids alive i then 1 else 0) + count_alive alive is

abbrev pub delete_row : ℕ → Row → Row
delete_row now r = record r { deleted_at = some now }

module _ (d : Database) where
  open d use {Session, select_sub, update}

  -- listDescendantIDs
  unfoldable pub list_descendant_ids : ℕ → ℕ → Session → Result (List ℕ)
  list_descendant_ids node library s = select_sub (is_node library node) (in_tree library) s

  -- The queries on the tables `node_files` and `storage_objects`, by library and keys: the object of
  -- each file, and the objects that have a key in the store.
  module _ (find_node_files find_storage_objects : ℕ → List ℕ → Session → Result (List ℕ)) where
    unfoldable pub count_objects : ℕ → List ℕ → Session → Result ℕ
    unfolding count_alive storage_ids
    count_objects library files s = elim (storage_ids files) [
      | [] ↦ ok 0
      | i ∷ is ↦ (do
        alive ← find_storage_objects library (storage_ids files) s
        ok (count_alive alive files))
    ]

    unfoldable pub count_file_nodes_with_storage_key : ℕ → List ℕ → Session → Result ℕ
    unfolding count_objects
    count_file_nodes_with_storage_key library [] s = ok 0
    count_file_nodes_with_storage_key library (n ∷ ns) s = do
      files ← find_node_files library (n ∷ ns) s
      count_objects library files s

    -- The part of DeleteTree behind the test on the length.
    unfoldable pub delete_ids : ℕ → ℕ → List ℕ → Session → Result (DeleteNodeTreeResult × Session)
    delete_ids now library ids s = do
      files ← count_file_nodes_with_storage_key library ids s
      (n, t) ← update (λ r. is_live r && r.library == library && in_ids ids r.id) (delete_row now) s
      ok (record { deleted_node_count = length ids; file_node_count = files }, t)

    unfoldable pub delete_some : ℕ → ℕ → List ℕ → Session → Result (DeleteNodeTreeResult × Session)
    unfolding delete_ids
    delete_some now library [] s = ok (record { deleted_node_count = 0; file_node_count = 0 }, s)
    delete_some now library (i ∷ is) s = delete_ids now library (i ∷ is) s

    unfoldable pub delete_tree : ℕ → ℕ → ℕ → Session → Result (DeleteNodeTreeResult × Session)
    delete_tree now node library s = do
      ids ← list_descendant_ids node library s
      delete_some now library ids s
