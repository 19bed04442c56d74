-- ===== src/Tests/Batches.antt =====
-- Moving a folder, a folder in it, and another one twice, to the end of a third folder.
use omniflow_go.Prelude.{◌≡◌, refl, subst, none, some, List, [], ◌∷◌, arith}
use omniflow_go.Text.{
  codes, contains, eqb, text_less, insert_text, sort_texts, unique_texts, trim_space, decimal,
}
use omniflow_go.Names.{build_visible_name, node_type_code, domain_type_code}
use omniflow_go.Result.{ok, ok_injective}
use omniflow_go.Store.{
  Row, HasKeys, first, find_node_model, parent_id_value, normalize_pg_parent_id,
}
use omniflow_go.Store.Memory.{memory, count_list, lock_list}
use omniflow_go.Store.Memory.Select.{select_list, update_list}
use omniflow_go.Store.Memory.Recursive.{sub_list}
use omniflow_go.Move.{
  move_node, move_locked, lock_move_scope, has_duplicate_visible_name, resolve_move_sort_order,
  place_at_end, refreshed_top, max_sort_order, deref_string, check_new_parent, move_scopes,
}
use omniflow_go.Move.Forest.{IsForest}
use omniflow_go.Create.{load_nodes}
use omniflow_go.MoveBatch.{
  MoveBatchCommand, MoveBatchResult, normalize_move_batch_items, map_keys_sorted,
  find_view_by_node_id, find_in_library, load_items, filter_items, move_each, move_filtered,
  move_batch,
}
use omniflow_go.MoveBatch.Moved.{KeepForest, IsBatch, move_batch-IsBatch}
use omniflow_go.MoveBatch.Memory.{list_ancestors, ancestors}
use omniflow_go.Tests.Moves.{row, rows}
use omniflow_go.Tests.Creating.{outside}

-- The folders are 2 with 4, and 3 with 5.
abbrev command : MoveBatchCommand
command = record {
  library = 1;
  new_parent = 3;
  before_node = 2;
  items =
      record { node = 4; name = [] }
      ∷ record { node = 2; name = [] }
      ∷ record { node = 0; name = [] }
      ∷ record { node = 2; name = codes "again" }
      ∷ [];
}

abbrev moved : List Row
moved =
    row 1 none 0 (codes "root") 0
    ∷ record (row 2 (some 3) 0 (codes "a") 1039) { updated_at = 9 }
    ∷ row 3 (some 1) 0 (codes "b") 16
    ∷ row 4 (some 2) 0 (codes "x") 15
    ∷ row 5 (some 3) 0 (codes "y") 15
    ∷ []

abbrev result : MoveBatchResult
result = record { affected_parent_ids = 1 ∷ 3 ∷ []; moved_node_ids = 2 ∷ [] }

moves : move_batch memory outside ancestors (λ i. 9) command rows ≡ ok (result, moved)
unfolding move_batch move_filtered move_each filter_items load_items find_in_library
    find_view_by_node_id load_nodes map_keys_sorted normalize_move_batch_items list_ancestors
    move_node move_locked lock_move_scope has_duplicate_visible_name resolve_move_sort_order
    place_at_end refreshed_top max_sort_order deref_string check_new_parent move_scopes
    find_node_model first parent_id_value normalize_pg_parent_id select_list update_list sub_list
    count_list lock_list build_visible_name node_type_code domain_type_code contains eqb text_less
    insert_text sort_texts unique_texts trim_space decimal
moves = refl

rows_keys : HasKeys rows
rows_keys q r m n e = ground arith

others : KeepForest memory outside ancestors 1
unfolding lock_list
others scope s t h forest = subst (IsForest 1) (ok_injective h) forest

move_batch-IsBatch_example : IsBatch memory command rows moved (2 ∷ [])
move_batch-IsBatch_example =
    move_batch-IsBatch memory outside ancestors (λ i. 9) command rows moved result rows_keys others
      moves
