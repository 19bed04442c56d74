-- ===== src/Tests/Creating.antt =====
-- Creating a file beside one of the same name, under the policy "auto-rename".
use omniflow_go.Prelude.{
  ℕ, ◌+◌, ◌≤◌, ◌≡◌, ◌≢◌, refl, sym, ◌∙◌, ap, subst, true, some, none, List, [], ◌∷◌, arith, Elem,
  leb, ◌&&◌, if◌then◌else◌,
}
use omniflow_go.Text.{Text, codes, contains, eqb, trim_space, trim_dot}
use omniflow_go.Result.{ok, ok_injective}
use omniflow_go.Names.{
  file, error, candidate_of, normalize_node_ext, normalize_node_name_conflict_policy,
  resolve_auto_renamed_node_name, rename_loop, node_visible_name, build_visible_name,
  node_type_code, domain_type_code, existing_names,
}
use omniflow_go.Store.{Row, HasKeys, first, has_parent, normalize_pg_parent_id, find_node_model}
use omniflow_go.Store.Memory.{memory, count_list, lock_list}
use omniflow_go.Store.Memory.Select.{select_list}
use omniflow_go.Store.Memory.Writes.{insert_list}
use omniflow_go.Move.{
  is_sibling, move_max_int32, deref_string, has_duplicate_visible_name, max_sort_order,
}
use omniflow_go.Create.{
  CreateCommand, Outside, pos, input_of, resolve_create_parent_id, lock_sibling_name_scope,
  create_in_existing_transaction, create_locked, create_node, resolve_create_node_name,
  name_by_policy, renamed_among, list_direct_children, load_nodes, find_view_by_id, check_directory,
  bind_if_stored, persisted_ext, parent_or_root,
}
use omniflow_go.Create.Node.{IsCreated}
use omniflow_go.Create.Whole.{IsNamed, create_in_existing_transaction-IsCreated}
use omniflow_go.Tests.Moves.{row}

abbrev pub to_int32 : ℕ → ℕ
to_int32 n = if leb n move_max_int32 then n else 0

pub to_int32_same : (n : ℕ) → n ≤ move_max_int32 → to_int32 n ≡ n
to_int32_same n h = ground arith

abbrev pub outside : Outside memory
outside = record {
  authorize = λ library. ok tt;
  load_files = λ library rows s. ok tt;
  bind_storage = λ input r s. ok s;
  to_lower = λ c. if leb 65 c && leb c 90 then c + 32 else c;
  to_int32 = to_int32;
  bind_nodes = λ input r s t h. sym (ok_injective h);
  to_int32_same = to_int32_same;
}

abbrev rows : List Row
rows =
    row 1 none 0 (codes "root") 0
    ∷ row 2 (some 1) 0 (codes "docs") 15
    ∷ record (row 3 (some 2) 1 (codes "a") 15) { ext = some (codes "txt") }
    ∷ []

abbrev command : CreateCommand
command = record {
  library = 1;
  parent = 2;
  name = codes "a";
  ext = codes ".txt";
  type = file;
  mime_type = codes "text/plain";
  file_size = pos 3;
  storage_key = codes "k";
  storage_provider = codes "minio";
  storage_bucket = codes "b";
  strict_parent = true;
  conflict_policy = codes " Auto-Rename";
}

abbrev created : Row
created = record (row 4 (some 2) 1 (codes "a (1)") 30) { ext = some (codes "txt"); updated_at = 9 }

creates :
    create_in_existing_transaction memory outside command 9 rows ≡ ok (created, created ∷ rows)
unfolding create_in_existing_transaction create_locked create_node resolve_create_node_name
    name_by_policy renamed_among list_direct_children load_nodes find_view_by_id check_directory
    bind_if_stored persisted_ext parent_or_root resolve_create_parent_id lock_sibling_name_scope
    find_node_model select_list insert_list count_list lock_list first has_parent
    normalize_pg_parent_id is_sibling deref_string has_duplicate_visible_name max_sort_order
    normalize_node_ext normalize_node_name_conflict_policy resolve_auto_renamed_node_name
    rename_loop node_visible_name build_visible_name node_type_code domain_type_code existing_names
    contains eqb trim_space trim_dot candidate_of
creates = refl

resolves : resolve_create_parent_id memory outside 9 1 2 true rows ≡ ok (2, rows)
unfolding resolve_create_parent_id parent_or_root find_view_by_id load_nodes find_node_model
    select_list first domain_type_code
resolves = refl

locks : lock_sibling_name_scope memory outside 1 2 rows ≡ ok rows
unfolding lock_sibling_name_scope lock_list
locks = refl

rows_keys : HasKeys rows
rows_keys q r m n e = ground arith

rows_room : (q : Row) → Elem q rows → is_sibling 1 2 q ≡ true → q.sort_order + 15 ≤ move_max_int32
rows_room q m c = ground arith

good :
    (parent : ℕ) (t v : List Row)
    → resolve_create_parent_id memory outside 9 1 2 true rows ≡ ok (parent, t)
    → lock_sibling_name_scope memory outside 1 parent t ≡ ok v
    → HasKeys v
      × ((q : Row) → Elem q v → is_sibling 1 parent q ≡ true → q.sort_order + 15 ≤ move_max_int32)
unfolding lock_sibling_name_scope lock_list
good parent t v e l =
    let at_parent : (2, rows) ≡ (parent, t) = ok_injective (sym resolves ∙ e) in
    let at_rows : rows ≡ v = ap (λ p. p.1) at_parent ∙ ok_injective l in
    subst
      (λ (p : ℕ × List Row).
        HasKeys p.1
        × ((q : Row) → Elem q p.1 → is_sibling 1 p.0 q ≡ true → q.sort_order + 15 ≤ move_max_int32))
      (ap (λ p. (p.0, rows)) at_parent ∙ ap (λ r. (parent, r)) at_rows) (rows_keys, rows_room)

create_in_existing_transaction-IsCreated_example :
    (parent : ℕ) × (t : List Row) × (v : List Row) × (name : Text) × (resolve_create_parent_id
        memory outside 9 1 2 true rows
      ≡ ok (parent, t))
    × (lock_sibling_name_scope memory outside 1 parent t ≡ ok v)
    × (true ≡ true → (parent ≡ 2) × (parent ≢ 0))
    × IsNamed (codes "a") name
    × (normalize_node_name_conflict_policy outside.to_lower (codes " Auto-Rename") ≡ ok error
        → name ≡ codes "a")
    × IsCreated (input_of command parent name) 9 v (created ∷ rows) created
create_in_existing_transaction-IsCreated_example =
    create_in_existing_transaction-IsCreated memory outside command 9 rows (created ∷ rows) created
      good creates
