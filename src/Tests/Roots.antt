-- ===== src/Tests/Roots.antt =====
-- A library whose nodes have lost their parents.
use omniflow_go.Prelude.{
  ◌<◌, ◌≡◌, refl, true, ◌&&◌, none, some, List, [], ◌∷◌, ◌==◌, Elem, All_elem, arith,
}
use omniflow_go.Text.{codes}
use omniflow_go.Result.{ok}
use omniflow_go.Store.{Row, is_live, HasKeys, first, parent_id_value, normalize_pg_parent_id}
use omniflow_go.Store.Memory.{memory}
use omniflow_go.Store.Memory.Select.{select_list, update_list}
use omniflow_go.Root.{
  node_by_id, is_broken, wanted_parent, target_parent, repair_loop, repair_parent_references,
  find_library_root_node, root_or_new, ensure_library_root_node_id,
}
use omniflow_go.Root.Repaired.{IsSound}
use omniflow_go.Root.Sound.{ensure_library_root_node_id-IsSound}
use omniflow_go.Tests.Moves.{row}

-- 2 has no parent, the parent of 3 is missing, that of 4 is a file, and 5 is its own parent.
abbrev lost_rows : List Row
lost_rows =
    row 1 none 0 (codes "root") 0
    ∷ row 2 none 0 (codes "a") 15
    ∷ row 3 (some 9) 1 (codes "b") 16
    ∷ row 4 (some 3) 0 (codes "x") 15
    ∷ row 5 (some 5) 0 (codes "y") 15
    ∷ []

abbrev found_rows : List Row
found_rows =
    row 1 none 0 (codes "root") 0
    ∷ record (row 2 (some 1) 0 (codes "a") 15) { updated_at = 7 }
    ∷ record (row 3 (some 1) 1 (codes "b") 16) { updated_at = 7 }
    ∷ record (row 4 (some 1) 0 (codes "x") 15) { updated_at = 7 }
    ∷ record (row 5 (some 1) 0 (codes "y") 15) { updated_at = 7 }
    ∷ []

repairs : ensure_library_root_node_id memory 7 1 lost_rows ≡ ok (1, found_rows)
unfolding ensure_library_root_node_id root_or_new find_library_root_node repair_parent_references
    repair_loop target_parent wanted_parent is_broken node_by_id parent_id_value
    normalize_pg_parent_id select_list update_list first
repairs = refl

lost_rows_keys : HasKeys lost_rows
lost_rows_keys q r m n e = ground arith

positive : (r : Row) → Elem r lost_rows → 0 < r.id
positive r m =
    All_elem (λ x. 0 < x.id) r lost_rows
      (omega arith, (omega arith, (omega arith, (omega arith, (omega arith, tt))))) m

ensure_library_root_node_id-IsSound_example :
    ((q : Row) × Elem q found_rows
      × (q.id ≡ 1)
      × (is_live q && q.library == 1 && q.node_type == 0 ≡ true)
      × (parent_id_value q.parent ≡ 0))
    × ((x : Row)
        → Elem x found_rows
        → x.library == 1 ≡ true
        → IsSound found_rows 1 x (parent_id_value x.parent))
ensure_library_root_node_id-IsSound_example =
    ensure_library_root_node_id-IsSound memory 7 1 1 lost_rows found_rows lost_rows_keys positive
      repairs
