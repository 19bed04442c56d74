-- ===== src/Tests/Deletes.antt =====
-- The folder "a" of the small library and the folder in it go to the recycle bin.
use omniflow_go.Prelude.{ℕ, ◌≡◌, refl, true, none, some, List, [], ◌∷◌, Elem}
use omniflow_go.Text.{codes}
use omniflow_go.Result.{Result, ok}
use omniflow_go.Store.{Row, Sub}
use omniflow_go.Store.Memory.{memory}
use omniflow_go.Store.Memory.Select.{update_list}
use omniflow_go.Store.Memory.Recursive.{sub_list}
use omniflow_go.Move.Forest.{IsForest, in_tree, is_node}
use omniflow_go.Delete.{
  DeleteNodeTreeResult, delete_row, delete_tree, delete_some, list_descendant_ids,
  count_file_nodes_with_storage_key,
}
use omniflow_go.Delete.Subtree.{delete_tree-subtree, delete_tree-IsForest}
use omniflow_go.Tests.Moves.{row, rows, rows-IsForest}

-- The file 4 has the object 9, which has a key.
abbrev pub node_files : ℕ → List ℕ → List Row → Result (List ℕ)
node_files library ids s = ok (9 ∷ [])

abbrev pub storage_objects : ℕ → List ℕ → List Row → Result (List ℕ)
storage_objects library ids s = ok (9 ∷ [])

abbrev pub left_rows : List Row
left_rows =
    row 1 none 0 (codes "root") 0
    ∷ delete_row 5 (row 2 (some 1) 0 (codes "a") 15)
    ∷ row 3 (some 1) 0 (codes "b") 16
    ∷ delete_row 5 (row 4 (some 2) 0 (codes "x") 15)
    ∷ row 5 (some 3) 0 (codes "y") 15
    ∷ []

abbrev pub counts : DeleteNodeTreeResult
counts = record { deleted_node_count = 2; file_node_count = 1 }

pub deletes : delete_tree memory node_files storage_objects 5 2 1 rows ≡ ok (counts, left_rows)
unfolding delete_tree delete_some list_descendant_ids count_file_nodes_with_storage_key update_list
    sub_list
deletes = refl

delete_tree-subtree_example :
    ((r : Row)
      → Elem r rows
      → in_tree 1 r ≡ true
      → (Sub rows (is_node 1 2) (in_tree 1) r.id → Elem (delete_row 5 r) left_rows)
        × (¬ Sub rows (is_node 1 2) (in_tree 1) r.id → Elem r left_rows))
    × ((x : Row)
        → Elem x left_rows
        → in_tree 1 x ≡ true
        → Elem x rows × ¬ Sub rows (is_node 1 2) (in_tree 1) x.id)
delete_tree-subtree_example =
    delete_tree-subtree memory node_files storage_objects 5 2 1 rows left_rows counts deletes

pub left_rows-IsForest : IsForest 1 left_rows
left_rows-IsForest =
    delete_tree-IsForest memory node_files storage_objects 5 2 1 rows left_rows counts rows-IsForest
      deletes

delete_tree-IsForest_example : IsForest 1 left_rows
delete_tree-IsForest_example =
    delete_tree-IsForest memory node_files storage_objects 5 2 1 rows left_rows counts rows-IsForest
      deletes
