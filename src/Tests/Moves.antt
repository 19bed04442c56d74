-- ===== src/Tests/Moves.antt =====
-- Moves in a small library: a root with two folders and a folder in each.
use omniflow_go.Prelude.{
  ℕ, ◌≡◌, refl, inl, inr, false, Option, none, some, List, [], ◌∷◌, arith, map, Elem,
}
use omniflow_go.Text.{
  Text, codes, contains, text_less, insert_text, sort_texts, unique_texts, trim_space, decimal, eqb,
}
use omniflow_go.Names.{build_visible_name, node_type_code, domain_type_code}
use omniflow_go.Result.{ok}
use omniflow_go.Store.{Row, HasKeys, find_node_model, parent_id_value, normalize_pg_parent_id}
use omniflow_go.Store.Memory.{memory}
use omniflow_go.Store.Memory.Select.{select_list, update_list}
use omniflow_go.Store.Memory.Recursive.{sub_list}
use omniflow_go.Store.Memory.{count_list, lock_list}
use omniflow_go.Move.{
  MoveNodeInput, move_node, move_locked, lock_move_scope, has_duplicate_visible_name,
  resolve_move_sort_order, resolve_move_before_range, reindexed_range, prev_sort_order_before_node,
  reindex_parent, place_between, increment_sort_order_after, place_at_end, refreshed_top,
  max_sort_order, deref_string,
}
use omniflow_go.Move.Forest.{IsForest, Rooted, is_node}
use omniflow_go.Move.Placed.{StandsBefore}
use omniflow_go.Move.Node.{move_node-StandsBefore, move_node-IsForest, move_locked_name}
use omniflow_go.Move.Concurrent.{concurrent_moves_cycle}
use omniflow_go.Move.{check_new_parent, move_scopes, move_row}

-- A row of library 1: its key, its parent, whether it is a file, its name and its order.
abbrev pub row : ℕ → Option ℕ → ℕ → Text → ℕ → Row
row id parent type name order = record {
  id = id;
  library = 1;
  parent = parent;
  node_type = type;
  name = name;
  ext = none;
  sort_order = order;
  deleted_at = none;
  updated_at = 0;
}

abbrev pub rows : List Row
rows =
    row 1 none 0 (codes "root") 0
    ∷ row 2 (some 1) 0 (codes "a") 15
    ∷ row 3 (some 1) 0 (codes "b") 16
    ∷ row 4 (some 2) 0 (codes "x") 15
    ∷ row 5 (some 3) 0 (codes "y") 15
    ∷ []

-- The folder 4 goes before the folder 3; the gap is 1, so the children of 1 are numbered anew.
abbrev input : MoveNodeInput
input = record { library = 1; node = 4; new_parent = 1; before_node = 3; name = []; updated_at = 7 }

abbrev moved : List Row
moved =
    row 1 none 0 (codes "root") 0
    ∷ record (row 2 (some 1) 0 (codes "a") 1024) { updated_at = 5 }
    ∷ record (row 3 (some 1) 0 (codes "b") 2048) { updated_at = 5 }
    ∷ record (row 4 (some 1) 0 (codes "x") 1536) { updated_at = 7 }
    ∷ row 5 (some 3) 0 (codes "y") 15
    ∷ []

rows_keys : HasKeys rows
rows_keys q r m n e = ground arith

root-Rooted : Rooted 1 rows 1
root-Rooted = Rooted.root (row 1 none 0 (codes "root") 0) (inl refl) refl refl refl

a-Rooted : Rooted 1 rows 2
a-Rooted =
    Rooted.child (row 2 (some 1) 0 (codes "a") 15) root-Rooted (inr (inl refl)) refl refl refl

b-Rooted : Rooted 1 rows 3
b-Rooted =
    Rooted.child (row 3 (some 1) 0 (codes "b") 16) root-Rooted (inr (inr (inl refl))) refl refl refl

pub rows-IsForest : IsForest 1 rows
rows-IsForest r (inl e) live = rw e root-Rooted
rows-IsForest r (inr (inl e)) live = rw e a-Rooted
rows-IsForest r (inr (inr (inl e))) live = rw e b-Rooted
rows-IsForest r (inr (inr (inr (inl e)))) live = rw e (
    Rooted.child (row 4 (some 2) 0 (codes "x") 15) a-Rooted (inr (inr (inr (inl refl)))) refl refl
      refl)
rows-IsForest r (inr (inr (inr (inr (inl e))))) live = rw e (
    Rooted.child (row 5 (some 3) 0 (codes "y") 15) b-Rooted (inr (inr (inr (inr (inl refl))))) refl
      refl refl)
rows-IsForest r (inr (inr (inr (inr (inr x))))) live = elim x [ ]

runs : move_node memory input 5 rows ≡ ok moved
unfolding move_node find_node_model lock_move_scope move_locked has_duplicate_visible_name
    resolve_move_sort_order resolve_move_before_range reindexed_range prev_sort_order_before_node
    reindex_parent place_between increment_sort_order_after place_at_end refreshed_top
    max_sort_order parent_id_value normalize_pg_parent_id deref_string domain_type_code
    node_type_code build_visible_name select_list update_list sub_list count_list lock_list
    sort_texts unique_texts decimal omniflow_go.Text.trim_dot trim_space
runs = refl

locks :
    (node : Row) (t : List Row)
    → find_node_model memory 4 1 rows ≡ ok node
    → lock_move_scope memory 1 (parent_id_value node.parent) 1 rows ≡ ok t
    → IsForest 1 t
unfolding find_node_model lock_move_scope select_list lock_list sort_texts unique_texts decimal
locks node t e h = rw (← same) rows-IsForest
  where
    known : row 4 (some 2) 0 (codes "x") 15 ≡ node
    known = ground arith

    same : rows ≡ t
    same = let h' = rw (← known) at h in ground arith

move_node-StandsBefore_example : StandsBefore memory input moved
move_node-StandsBefore_example =
    move_node-StandsBefore memory input 5 rows moved rows_keys (omega arith) (omega arith)
      (λ e. omega (arith, e)) runs

move_node-IsForest_example : IsForest 1 moved
move_node-IsForest_example = move_node-IsForest memory input 5 rows moved rows_keys locks runs

-- The same move with a name: no row gets it.
abbrev named : MoveNodeInput
named = record input { name = codes "z" }

runs_named : move_locked memory named 5 (row 4 (some 2) 0 (codes "x") 15) rows ≡ ok moved
unfolding find_node_model move_locked has_duplicate_visible_name resolve_move_sort_order
    resolve_move_before_range reindexed_range prev_sort_order_before_node reindex_parent
    place_between increment_sort_order_after place_at_end refreshed_top max_sort_order
    parent_id_value normalize_pg_parent_id deref_string domain_type_code node_type_code
    build_visible_name select_list update_list sub_list count_list lock_list trim_space eqb
runs_named = refl

abbrev moved_x : Row
moved_x = record (row 4 (some 1) 0 (codes "x") 1536) { updated_at = 7 }

move_locked_name_example :
    (q : Row) × Elem q rows × (q.id ≡ 4) × (q.name ≡ codes "x") × (q.ext ≡ none)
move_locked_name_example =
    move_locked_name memory named 5 (row 4 (some 2) 0 (codes "x") 15) rows moved moved_x rows_keys
      runs_named (inr (inr (inr (inl refl))))

-- 4 goes under 5 while 5 goes under 4.
abbrev to_5 : MoveNodeInput
to_5 = record { library = 1; node = 4; new_parent = 5; before_node = 0; name = []; updated_at = 7 }

abbrev to_4 : MoveNodeInput
to_4 = record to_5 { node = 5; new_parent = 4 }

-- The two moves share no lock.
no_shared_lock :
    map (contains (move_scopes 1 3 4)) (move_scopes 1 2 5) ≡ false ∷ false ∷ false ∷ false ∷ []
unfolding move_scopes contains sort_texts unique_texts decimal
no_shared_lock = refl

checked_5 : check_new_parent memory to_5 rows ≡ ok tt
unfolding check_new_parent find_node_model select_list sub_list
checked_5 = refl

checked_4 : check_new_parent memory to_4 rows ≡ ok tt
unfolding check_new_parent find_node_model select_list sub_list
checked_4 = refl

abbrev cycle : List Row → List Row
cycle rest =
    row 1 none 0 (codes "root") 0
    ∷ row 2 (some 1) 0 (codes "a") 15
    ∷ row 3 (some 1) 0 (codes "b") 16
    ∷ record (row 4 (some 5) 0 (codes "x") 1024) { updated_at = 7 }
    ∷ rest

abbrev first_write : List Row
first_write = cycle (row 5 (some 3) 0 (codes "y") 15 ∷ [])

abbrev both_writes : List Row
both_writes = cycle (record (row 5 (some 4) 0 (codes "y") 1024) { updated_at = 7 } ∷ [])

wrote_5 : memory.update (is_node 1 4) (move_row 5 1024 7) rows ≡ ok (1, first_write)
unfolding update_list normalize_pg_parent_id
wrote_5 = refl

wrote_4 : memory.update (is_node 1 5) (move_row 4 1024 7) first_write ≡ ok (1, both_writes)
unfolding update_list normalize_pg_parent_id
wrote_4 = refl

concurrent_moves_cycle_example : IsForest 1 first_write × (¬ IsForest 1 both_writes)
concurrent_moves_cycle_example =
    concurrent_moves_cycle memory to_5 to_4 1024 1024 1 1 rows first_write both_writes
      (refl, refl, refl, omega arith, omega arith, λ e. omega (arith, e)) rows-IsForest checked_5
      checked_4 wrote_5 wrote_4
