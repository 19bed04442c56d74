-- ===== src/Create.antt =====
-- Creating a node: createInExistingTransaction and resolveCreateParentID of
-- internal/usecase/node.go, resolveCreateNodeName of internal/usecase/node_name_conflict.go, and
-- CreateNode of internal/repository/postgres/impl/node/node_write.go with the reading of children
-- and of a view (node_query.go).
pub mod Reads
pub mod Node
pub mod Whole
use omniflow_go.Prelude.{
  ℕ, ◌+◌, ◌≤◌, ◌≡◌, Bool, true, false, ◌&&◌, ◌||◌, not, Option, none, some, List, [], ◌∷◌, ◌++◌,
  map, ◌==◌, ltb, leb, if◌then◌else◌, length,
}
use omniflow_go.Text.{Text, codes, is_empty, trim_space, decimal}
use omniflow_go.Result.{
  Error, Result, ok, err, guard, ◌>>=◌, ◌>>◌, invalid_argument, not_found, conflict,
  repository_not_found, repository_conflict, repository_invalid_state,
}
use omniflow_go.Names.{
  max_node_ext_length, NodeType, dir, file, is_file, Sibling, ConflictPolicy, error, auto_rename,
  replace, node_type_code, domain_type_code, normalize_node_ext,
  normalize_node_name_conflict_policy, resolve_auto_renamed_node_name,
}
use omniflow_go.Store.{
  Row, asc, is_live, opt_eqb, Database, first, normalize_pg_parent_id, find_node_model,
}
use omniflow_go.Move.{
  deref_string, move_max_int32, has_duplicate_visible_name, max_sort_order, move_scope,
}
use omniflow_go.Recycle.{ids_of, is_not_found}
use omniflow_go.Delete.{in_ids}
use omniflow_go.Root.{ensure_library_root_node_id}

-- An int64: the number, or one less than its opposite.
pub data ℤ : Type 0 where
  pos negsuc : ℕ → ℤ

abbrev pub is_negative : ℤ → Bool
is_negative (pos n) = false
is_negative (negsuc n) = true

-- The fields of CreateNodeCommand, the actor and the dry run aside.
pub record CreateCommand : Type 0 where
  pub library : ℕ
  pub parent : ℕ
  pub name : Text
  pub ext : Text
  pub type : NodeType
  pub mime_type : Text
  pub file_size : ℤ
  pub storage_key : Text
  pub storage_provider : Text
  pub storage_bucket : Text
  pub strict_parent : Bool
  pub conflict_policy : Text

-- The built-in type and the archive mode, which are constants here, are columns outside the model.
pub record CreateNodeInput : Type 0 where
  pub name : Text
  pub type : NodeType
  pub parent : ℕ
  pub library : ℕ
  pub ext : Text
  pub mime_type : Text
  pub file_size : ℤ
  pub storage_key : Text
  pub storage_provider : Text
  pub storage_bucket : Text

-- What lies outside: AuthorizeMutation for the actor of the command; the queries of `node_files` and
-- `storage_objects` behind a view, and the writes of those tables; unicode.ToLower; and the
-- conversion of an int to an int32, which keeps what an int32 can hold.
pub record Outside (d : Database) : Type 0 where
  pub authorize : ℕ → Result (Unit {0})
  pub load_files : ℕ → List Row → d.Session → Result (Unit {0})
  pub bind_storage : CreateNodeInput → Row → d.Session → Result d.Session
  pub to_lower : ℕ → ℕ
  pub to_int32 : ℕ → ℕ
  pub bind_nodes :
      (input : CreateNodeInput) (r : Row) (s t : d.Session)
      → bind_storage input r s ≡ ok t
      → d.nodes t ≡ d.nodes s
  pub to_int32_same : (n : ℕ) → n ≤ move_max_int32 → to_int32 n ≡ n

-- `ext` and `createStorageBinding`: the extension of a file alone, NULL where it is blank.
unfoldable pub persisted_ext : CreateNodeInput → Option Text
unfolding trim_space
persisted_ext input =
    if is_file input.type && not (is_empty (trim_space input.ext))
    then some (trim_space input.ext)
    else none

abbrev pub binds_storage : CreateNodeInput → Bool
binds_storage input = is_file input.type && not (is_empty (trim_space input.storage_key))

-- The errors of CreateNode, as the use case answers them.
abbrev pub create_error : Error → Error
create_error repository_not_found = not_found
create_error repository_conflict = conflict
create_error repository_invalid_state = invalid_argument
create_error e = e

abbrev pub with_create_error : {A : Type 0} → Result A → Result A
with_create_error (ok a) = ok a
with_create_error (err e) = err (create_error e)

-- The error of the lookup of a root.
abbrev pub with_not_found : {A : Type 0} → Result A → Result A
with_not_found (ok a) = ok a
with_not_found (err e) = if is_not_found e then err not_found else err e

-- toDomainNodeModel, the fields of a visible name.
abbrev pub to_sibling : Row → Sibling
to_sibling r = record {
  name = r.name;
  ext = deref_string r.ext;
  type = domain_type_code r.node_type;
}

-- The rows `parent_id = ?`, for the parent 0 as well.
abbrev pub is_listed : ℕ → ℕ → Row → Bool
is_listed library parent r = is_live r && r.library == library && opt_eqb r.parent (some parent)

-- The row that is created.
abbrev pub new_row : CreateNodeInput → ℕ → ℕ → Row
new_row input now order = record {
  id = 0;
  library = input.library;
  parent = normalize_pg_parent_id input.parent;
  node_type = node_type_code input.type;
  name = input.name;
  ext = persisted_ext input;
  sort_order = order;
  deleted_at = none;
  updated_at = now;
}

abbrev pub input_of : CreateCommand → ℕ → Text → CreateNodeInput
input_of cmd parent name = record {
  name = name;
  type = cmd.type;
  parent = parent;
  library = cmd.library;
  ext = normalize_node_ext cmd.ext;
  mime_type = trim_space cmd.mime_type;
  file_size = cmd.file_size;
  storage_key = trim_space cmd.storage_key;
  storage_provider = cmd.storage_provider;
  storage_bucket = cmd.storage_bucket;
}

module _ (d : Database) (o : Outside d) where
  open d use {Session, select, insert, lock}

  -- loadNodesWithFileMeta, the columns of `nodes`.
  unfoldable pub load_nodes : ℕ → List ℕ → Session → Result (List Row)
  load_nodes library [] s = ok []
  load_nodes library (i ∷ is) s = do
    rows ← select (λ r. is_live r && r.library == library && in_ids (i ∷ is) r.id) [] s
    o.load_files library rows s
    ok rows

  -- ListDirectChildren. Its order, that of the first query, is of no account here.
  unfoldable pub list_direct_children : ℕ → ℕ → Session → Result (List Row)
  unfolding load_nodes
  list_direct_children parent library s = do
    rows ← select (is_listed library parent) (asc (λ r. r.sort_order) ∷ asc (λ r. r.id) ∷ []) s
    load_nodes library (ids_of rows) s

  -- FindViewByID
  unfoldable pub find_view_by_id : ℕ → ℕ → Session → Result Row
  unfolding load_nodes first
  find_view_by_id id library s = do
    row ← find_node_model d id library s
    rows ← load_nodes library (row.id ∷ []) s
    first rows

  unfoldable pub renamed_among : ℕ → ℕ → Text → Text → NodeType → Session → Result Text
  unfolding list_direct_children
  renamed_among parent library name ext type s = do
    children ← list_direct_children parent library s
    resolve_auto_renamed_node_name name ext type (map to_sibling children)

  -- What follows the normalisation of the policy.
  unfoldable pub name_by_policy :
      ConflictPolicy → ℕ → ℕ → Text → Text → NodeType → Session → Result Text
  unfolding renamed_among
  name_by_policy error parent library name ext type s = ok name
  name_by_policy auto_rename parent library name ext type s =
      renamed_among parent library name ext type s
  name_by_policy replace parent library name ext type s =
      renamed_among parent library name ext type s

  unfoldable pub resolve_create_node_name :
      ℕ → ℕ → Text → Text → NodeType → Text → Session → Result Text
  unfolding name_by_policy
  resolve_create_node_name parent library name ext type policy s = do
    normalized ← normalize_node_name_conflict_policy o.to_lower policy
    name_by_policy normalized parent library name ext type s

  -- LockSiblingNameScope
  unfoldable pub lock_sibling_name_scope : ℕ → ℕ → Session → Result Session
  lock_sibling_name_scope library parent s =
      lock (move_scope (codes "nodes:name:") library parent) s

  unfoldable pub check_directory : CreateNodeInput → Session → Result (Unit {0})
  check_directory input s =
      if ltb 0 input.parent
      then (do
        parent ← find_node_model d input.parent input.library s
        guard (parent.node_type == 0) repository_invalid_state)
      else ok tt

  unfoldable pub bind_if_stored : CreateNodeInput → Row → Session → Result Session
  bind_if_stored input r s = if binds_storage input then o.bind_storage input r s else ok s

  -- CreateNode. `now` is the time that the row gets.
  unfoldable pub create_node : CreateNodeInput → ℕ → Session → Result (Row × Session)
  unfolding check_directory persisted_ext bind_if_stored find_view_by_id
  create_node input now s = do
    guard (not (is_empty (trim_space input.name))) repository_invalid_state
    check_directory input s
    top ← max_sort_order d input.library input.parent s
    guard (not (is_file input.type && is_negative input.file_size)) repository_invalid_state
    duplicate ←
        has_duplicate_visible_name d input.name (deref_string (persisted_ext input)) input.type
          input.parent input.library 0 s
    guard (not duplicate) repository_conflict
    (row, t) ← insert (new_row input now (o.to_int32 (top + 15))) s
    u ← bind_if_stored input row t
    view ← find_view_by_id row.id input.library u
    ok (view, u)

  -- The root of the library, which must be a directory.
  unfoldable pub resolve_root : ℕ → ℕ → Session → Result (ℕ × Session)
  resolve_root now library s = do
    (root, t) ← ensure_library_root_node_id d now library s
    view ← with_not_found (find_view_by_id root library t)
    guard (not (is_file (domain_type_code view.node_type))) invalid_argument
    ok (root, t)

  -- What follows the lookup of the wanted parent.
  unfoldable pub parent_or_root : ℕ → ℕ → ℕ → Bool → Result Row → Session → Result (ℕ × Session)
  unfolding resolve_root
  parent_or_root now library parent strict (ok view) s = do
    guard (not (is_file (domain_type_code view.node_type))) invalid_argument
    ok (parent, s)
  parent_or_root now library parent strict (err e) s =
      if not (is_not_found e)
      then err e
      else if strict
      then err not_found
      else resolve_root now library s

  unfoldable pub resolve_create_parent_id : ℕ → ℕ → ℕ → Bool → Session → Result (ℕ × Session)
  unfolding parent_or_root find_view_by_id
  resolve_create_parent_id now library parent strict s =
      if parent == 0
      then if strict then err invalid_argument else ensure_library_root_node_id d now library s
      else parent_or_root now library parent strict (find_view_by_id parent library s) s

  -- Behind the lock of the names under the parent.
  unfoldable pub create_locked : CreateCommand → ℕ → ℕ → Session → Result (Row × Session)
  unfolding resolve_create_node_name create_node
  create_locked cmd parent now s = do
    name ←
        resolve_create_node_name parent cmd.library cmd.name (normalize_node_ext cmd.ext) cmd.type
          cmd.conflict_policy s
    with_create_error (create_node (input_of cmd parent name) now s)

  unfoldable pub create_in_existing_transaction :
      CreateCommand → ℕ → Session → Result (Row × Session)
  unfolding resolve_create_parent_id lock_sibling_name_scope create_locked
  create_in_existing_transaction cmd now s = do
    guard (not (cmd.library == 0 || is_empty (trim_space cmd.name))) invalid_argument
    o.authorize cmd.library
    guard
        (is_empty (normalize_node_ext cmd.ext)
          || leb (length (normalize_node_ext cmd.ext)) max_node_ext_length)
        invalid_argument
    (parent, t) ← resolve_create_parent_id now cmd.library cmd.parent cmd.strict_parent s
    u ← lock_sibling_name_scope cmd.library parent t
    create_locked cmd parent now u
