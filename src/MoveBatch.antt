-- ===== src/MoveBatch.antt =====
-- Moving several nodes: MoveBatch of internal/usecase/node.go behind the start of its transaction.
pub mod Selected
pub mod Moved
pub mod Memory
use omniflow_go.Prelude.{
  ℕ, Bool, true, false, ◌&&◌, ◌||◌, not, Option, some, List, [], ◌∷◌, map, ◌==◌, ltb, if◌then◌else◌,
  is_nil, ◌≡◌, Elem, ◌↔◌,
}
use omniflow_go.Text.{Text, trim_space}
use omniflow_go.Result.{Result, ok, guard, ◌>>=◌, ◌>>◌, invalid_argument}
use omniflow_go.Store.{Row, asc, is_live, Database, first, parent_id_value}
use omniflow_go.Move.{MoveNodeInput, move_node}
use omniflow_go.Move.Forest.{in_tree, is_node}
use omniflow_go.Delete.{in_ids}
use omniflow_go.Create.{Outside, with_create_error, with_not_found, load_nodes}

-- MoveNodeBatchItemCommand
pub record MoveItem : Type 0 where
  pub node : ℕ
  pub name : Text

-- MoveNodeBatchCommand, the actor and the dry run aside.
pub record MoveBatchCommand : Type 0 where
  pub library : ℕ
  pub new_parent : ℕ
  pub before_node : ℕ
  pub items : List MoveItem

-- MoveNodeBatchResult, whose count is the length of the list.
pub record MoveBatchResult : Type 0 where
  pub affected_parent_ids : List ℕ
  pub moved_node_ids : List ℕ

-- Each node once, `seen` having come before.
unfoldable pub normalize_move_batch_items : List ℕ → List MoveItem → List MoveItem
unfolding trim_space
normalize_move_batch_items seen [] = []
normalize_move_batch_items seen (item ∷ items) =
    let skipped = normalize_move_batch_items seen items in
    let rest = normalize_move_batch_items (item.node ∷ seen) items in
    if item.node == 0 || in_ids seen item.node
    then skipped
    else record { node = item.node; name = trim_space item.name } ∷ rest

-- The keys of a set in ascending order, the set being that of the list with one more key.
unfoldable pub insert_key : ℕ → List ℕ → List ℕ
insert_key x [] = x ∷ []
insert_key x (y ∷ ys) =
    let rest = insert_key x ys in
    if x == y then y ∷ ys else if ltb x y then x ∷ y ∷ ys else y ∷ rest

unfoldable pub map_keys_sorted : List ℕ → List ℕ
unfolding insert_key
map_keys_sorted [] = []
map_keys_sorted (x ∷ xs) = insert_key x (map_keys_sorted xs)

-- `nodesByID[id].ParentID`, which is 0 for a missing key.
abbrev pub parent_of : ℕ → List Row → ℕ
parent_of id [] = 0
parent_of id (r ∷ rs) = if r.id == id then parent_id_value r.parent else parent_of id rs

-- The loop over the ancestors: a selected one that is not the node itself.
abbrev pub has_selected_ancestor : ℕ → List ℕ → List ℕ → Bool
has_selected_ancestor node selected [] = false
has_selected_ancestor node selected (a ∷ rest) =
    (not (a == node) && in_ids selected a) || has_selected_ancestor node selected rest

abbrev pub nodes_of : List MoveItem → List ℕ
nodes_of [] = []
nodes_of (item ∷ items) = item.node ∷ nodes_of items

-- Whether one of the keys is among the others.
abbrev pub meets : List ℕ → List ℕ → Bool
meets [] others = false
meets (i ∷ is) others = in_ids others i || meets is others

-- WITH RECURSIVE ancestors: the live row with the key, and the live rows of the library that are
-- parents of one in it.
pub data Ancestor (rows : List Row) (library node : ℕ) : ℕ → Type 0 where
  itself : (r : Row) → Elem r rows → is_node library node r ≡ true → Ancestor rows library node r.id
  above :
      (r p : Row)
      → Ancestor rows library node r.id
      → Elem r rows
      → in_tree library r ≡ true
      → Elem p rows
      → in_tree library p ≡ true
      → r.parent ≡ some p.id
      → Ancestor rows library node p.id

-- ListAncestors, whose recursive query `Database` does not have.
pub record Ancestors (d : Database) : Type 0 where
  pub list_ancestors : ℕ → ℕ → d.Session → Result (List ℕ)
  pub list_ancestors_rows :
      (node library : ℕ) (s : d.Session) (ids : List ℕ)
      → list_ancestors node library s ≡ ok ids
      → (i : ℕ) → Elem i ids ↔ Ancestor (d.nodes s) library node i

module _ (d : Database) (o : Outside d) (a : Ancestors d) where
  open d use {Session, select}
  open a use {list_ancestors}

  -- FindViewByNodeID
  unfoldable pub find_view_by_node_id : ℕ → Session → Result Row
  unfolding load_nodes first
  find_view_by_node_id id s = do
    rs ← select (λ r. is_live r && r.id == id) (asc (λ r. r.id) ∷ []) s
    row ← first rs
    rows ← load_nodes d o row.library (row.id ∷ []) s
    first rows

  -- A node that must be in the library.
  unfoldable pub find_in_library : ℕ → ℕ → Session → Result Row
  unfolding find_view_by_node_id
  find_in_library library id s = do
    view ← with_not_found (find_view_by_node_id id s)
    guard (view.library == library) invalid_argument
    ok view

  unfoldable pub load_items : ℕ → List MoveItem → Session → Result (List Row)
  unfolding find_in_library
  load_items library [] s = ok []
  load_items library (item ∷ items) s = do
    view ← find_in_library library item.node s
    rest ← load_items library items s
    ok (view ∷ rest)

  -- The items without those below another selected node.
  unfoldable pub filter_items : ℕ → List ℕ → List MoveItem → Session → Result (List MoveItem)
  filter_items library selected [] s = ok []
  filter_items library selected (item ∷ items) s = do
    ancestors ← with_not_found (list_ancestors item.node library s)
    rest ← filter_items library selected items s
    ok (if has_selected_ancestor item.node selected ancestors then rest else item ∷ rest)

  -- The loop over the filtered items; `clock` gives the time of the move of a node.
  unfoldable pub move_each : (ℕ → ℕ) → ℕ → ℕ → ℕ → List MoveItem → Session → Result Session
  move_each clock library parent before [] s = ok s
  move_each clock library parent before (item ∷ items) s = do
    t ← with_create_error (
        move_node d
          (record {
            library = library;
            node = item.node;
            new_parent = parent;
            before_node = before;
            name = item.name;
            updated_at = clock item.node;
          })
          (clock item.node) s)
    move_each clock library parent before items t

  -- What follows the lookup of the selected nodes.
  unfoldable pub move_filtered :
      (ℕ → ℕ)
      → MoveBatchCommand
      → List Row
      → List MoveItem
      → Session
      → Result (MoveBatchResult × Session)
  unfolding find_in_library move_each map_keys_sorted
  move_filtered clock cmd views items s = do
    guard (not (is_nil items)) invalid_argument
    target ← find_in_library cmd.library cmd.new_parent s
    ancestors ← with_not_found (list_ancestors cmd.new_parent cmd.library s)
    guard (not (meets (nodes_of items) ancestors)) invalid_argument
    t ←
        move_each clock cmd.library cmd.new_parent
          (if in_ids (nodes_of items) cmd.before_node then 0 else cmd.before_node) items s
    ok (
      record {
        affected_parent_ids =
            map_keys_sorted (cmd.new_parent ∷ map (λ i. parent_of i views) (nodes_of items));
        moved_node_ids = nodes_of items;
      },
      t,
    )

  unfoldable pub move_batch :
      (ℕ → ℕ) → MoveBatchCommand → Session → Result (MoveBatchResult × Session)
  unfolding normalize_move_batch_items load_items filter_items move_filtered
  move_batch clock cmd s = do
    guard (not (cmd.library == 0 || cmd.new_parent == 0 || is_nil cmd.items)) invalid_argument
    o.authorize cmd.library
    let items = normalize_move_batch_items [] cmd.items
    guard (not (is_nil items)) invalid_argument
    views ← load_items cmd.library items s
    filtered ← filter_items cmd.library (nodes_of items) items s
    move_filtered clock cmd views filtered s
