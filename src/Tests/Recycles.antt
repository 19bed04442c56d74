-- ===== src/Tests/Recycles.antt =====
-- The folder "a" of the small library and the folder in it come back from the recycle bin, or are
-- erased.
use omniflow_go.Prelude.{
  ℕ, ◌≡◌, ◌⊎◌, sym, ◌∙◌, refl, inl, inr, true, none, some, List, [], ◌∷◌, Elem, arith,
}
use omniflow_go.Text.{Text, codes}
use omniflow_go.Names.{build_visible_name, domain_type_code}
use omniflow_go.Result.{ok}
use omniflow_go.Store.{Row, Sub, first, parent_id_value, has_parent}
use omniflow_go.Store.Memory.{memory, count_list}
use omniflow_go.Store.Memory.Select.{select_list, update_list}
use omniflow_go.Store.Memory.Writes.{delete_list}
use omniflow_go.Store.Memory.Recursive.{sub_list}
use omniflow_go.Move.{deref_string, has_duplicate_visible_name}
use omniflow_go.Move.Forest.{IsForest, in_tree, is_node}
use omniflow_go.Recycle.{
  restore_tree, restore_deleted, list_descendant_ids_any, list_nodes_including_deleted_by_ids,
  check_parent, check_name, check_rows, find_node_model_including_deleted, hard_delete_tree,
  hard_delete_found, erase_lookup, erase_deleted,
}
use omniflow_go.Recycle.Restore.{BelowAny, restore_tree-IsForest, HasSoundParents}
use omniflow_go.Recycle.RoundTrip.{delete_tree-restore_tree}
use omniflow_go.Recycle.Erase.{Remains, hard_delete_tree-Remains, FindsRows}
use omniflow_go.Tests.Moves.{row, rows}
use omniflow_go.Tests.Deletes.{
  left_rows, left_rows-IsForest, node_files, storage_objects, counts, deletes,
}

abbrev restored_rows : List Row
restored_rows =
    row 1 none 0 (codes "root") 0
    ∷ record (row 2 (some 1) 0 (codes "a") 15) { updated_at = 8 }
    ∷ row 3 (some 1) 0 (codes "b") 16
    ∷ record (row 4 (some 2) 0 (codes "x") 15) { updated_at = 8 }
    ∷ row 5 (some 3) 0 (codes "y") 15
    ∷ []

abbrev erased_rows : List Row
erased_rows =
    row 1 none 0 (codes "root") 0
    ∷ row 3 (some 1) 0 (codes "b") 16
    ∷ row 5 (some 3) 0 (codes "y") 15
    ∷ []

restores : restore_tree memory 8 2 1 left_rows ≡ ok (true, restored_rows)
unfolding restore_tree restore_deleted list_descendant_ids_any list_nodes_including_deleted_by_ids
    check_parent check_name check_rows find_node_model_including_deleted select_list update_list
    sub_list count_list first parent_id_value has_parent has_duplicate_visible_name
    build_visible_name deref_string domain_type_code omniflow_go.Text.eqb
    omniflow_go.Names.node_type_code omniflow_go.Text.trim_space
restores = refl

erases : hard_delete_tree memory 2 1 left_rows ≡ ok (true, erased_rows)
unfolding hard_delete_tree hard_delete_found erase_lookup erase_deleted list_descendant_ids_any
    find_node_model_including_deleted select_list delete_list sub_list first
erases = refl

delete_tree-restore_tree_example :
    (Sub rows (is_node 1 2) (in_tree 1) 4
      → Elem (record (row 4 (some 2) 0 (codes "x") 15) { updated_at = 8 }) restored_rows)
    × (¬ Sub rows (is_node 1 2) (in_tree 1) 4
        → Elem (row 4 (some 2) 0 (codes "x") 15) restored_rows)
delete_tree-restore_tree_example =
    delete_tree-restore_tree memory node_files storage_objects 5 8 2 1 rows left_rows restored_rows
      counts true deletes restores (row 4 (some 2) 0 (codes "x") 15) (inr (inr (inr (inl refl))))
      refl

finds : (s : List Row) → FindsRows memory s
unfolding select_list
finds s p o e missing h = absurd (ground arith)

hard_delete_tree-Remains_example : Remains memory 2 1 left_rows erased_rows
hard_delete_tree-Remains_example =
    hard_delete_tree-Remains memory 2 1 left_rows erased_rows true (finds left_rows) erases

-- Only 2 and 4 are below 2.
below : {i : ℕ} → BelowAny memory 2 1 left_rows i → (i ≡ 2) ⊎ (i ≡ 4)
below (Sub.seeded r m h e) = inl (ground arith)
below (Sub.joined r w (inl x) h p e) = let k = rw x at p in absurd (ground arith)
below (Sub.joined r w (inr (inl x)) h p e) = inl (sym e ∙ rw x refl)
below (Sub.joined r w (inr (inr (inl x))) h p e) =
    let k = rw x at p in
    elim (below w) [ inl b ↦ absurd (ground arith) | inr b ↦ absurd (ground arith) ]
below (Sub.joined r w (inr (inr (inr (inl x)))) h p e) = inr (sym e ∙ rw x refl)
below (Sub.joined r w (inr (inr (inr (inr (inl x))))) h p e) =
    let k = rw x at p in
    elim (below w) [ inl b ↦ absurd (ground arith) | inr b ↦ absurd (ground arith) ]
below (Sub.joined r w (inr (inr (inr (inr (inr x))))) h p e) = elim x [ ]

sound : HasSoundParents memory 2 1 left_rows
sound r (inl e) p h = let k = rw e at h in absurd (ground arith)
sound r (inr (inl e)) p h =
    let k = rw e at h in
    (ground arith, λ _ w. elim (below w) [ inl x ↦ ground arith | inr x ↦ ground arith ])
sound r (inr (inr (inl e))) p h =
    let k = rw e at h in (ground arith, λ i w. let n : r.id ≡ 3 = rw e refl in ground arith)
sound r (inr (inr (inr (inl e)))) p h =
    let k = rw e at h in (ground arith, λ i w. let n : r.id ≡ 4 = rw e refl in ground arith)
sound r (inr (inr (inr (inr (inl e))))) p h =
    let k = rw e at h in (ground arith, λ i w. let n : r.id ≡ 5 = rw e refl in ground arith)
sound r (inr (inr (inr (inr (inr x))))) p h = elim x [ ]

restore_tree-IsForest_example : IsForest 1 restored_rows
restore_tree-IsForest_example =
    restore_tree-IsForest memory 8 2 1 left_rows restored_rows true sound left_rows-IsForest
      restores
