-- ===== src/MoveBatch/Moved.antt =====
-- What MoveBatch (internal/usecase/node.go) moves, and that the tree stays a tree.
use omniflow_go.Prelude.{
  ℕ, ◌≡◌, ◌≢◌, ◌↔◌, refl, sym, ◌∙◌, inl, inr, Bool, true, false, ◌||◌, not, List, [], ◌∷◌, ◌==◌,
  if◌then◌else◌, Elem, Bool-cases, is_nil, subst, then_branch, else_branch,
}
use omniflow_go.Text.{Text}
use omniflow_go.Result.{Result, ok, err, not_found, ok_injective, >>=-eq-ok, guard-eq-ok}
use omniflow_go.Store.{HasKeys, Database, parent_id_value}
use omniflow_go.Move.{MoveNodeInput, lock_all, lock_move_scope, move_scopes, move_node}
use omniflow_go.Move.Node.{move_node_keys, move_node-IsForest}
use omniflow_go.Move.Under.{IsMove, move_node-IsMove}
use omniflow_go.Create.Reads.{false_of_not}
use omniflow_go.Create.Whole.{with_create_error-ok}
use omniflow_go.Move.Forest.{IsForest}
use omniflow_go.Delete.{in_ids}
use omniflow_go.Recycle.{is_not_found}
use omniflow_go.Create.{Outside, with_create_error, with_not_found}
use omniflow_go.MoveBatch.Selected.{
  IsSelected, normalize_move_batch_items-IsSelected, ancestor-none, ancestor-some, meets-none,
}
use omniflow_go.MoveBatch.{
  MoveItem, MoveBatchCommand, MoveBatchResult, Ancestor, Ancestors, normalize_move_batch_items,
  has_selected_ancestor, nodes_of, meets, find_in_library, load_items, filter_items, move_each,
  move_filtered, move_batch,
}

with_not_found-ok :
    {A : Type 0} (call : Result A) (a : A) → with_not_found call ≡ ok a → call ≡ ok a
with_not_found-ok (ok b) a h = h
with_not_found-ok (err e) a h = elim (Bool-cases (is_not_found e)) [
  | inl b ↦ let h' = then_branch (is_not_found e) (err not_found) _ b ∙ h in cc
  | inr b ↦ let h' = else_branch (is_not_found e) (err not_found) _ b ∙ h in cc
]

module _ (d : Database) (o : Outside d) (a : Ancestors d) where
  open d use {Session, nodes, lock}
  open a use {list_ancestors, list_ancestors_rows}

  -- No other selected node is above it.
  abbrev pub IsTop : ℕ → List ℕ → Session → ℕ → Type 0
  IsTop library selected s i = (j : ℕ) → Ancestor (nodes s) library i j → j ≢ i → ¬ Elem j selected

  IsTop-iff :
      (library node : ℕ) (selected ancestors : List ℕ) (s : Session)
      → ((j : ℕ) → Elem j ancestors ↔ Ancestor (nodes s) library node j)
      → (has_selected_ancestor node selected ancestors ≡ true → ¬ IsTop library selected s node)
        × (has_selected_ancestor node selected ancestors ≡ false → IsTop library selected s node)
  IsTop-iff library node selected ancestors s same = (
    λ b top.
        let (j, m, other, k) = ancestor-some node selected ancestors b in
        top j ((same j).0 m) other k,
    λ b j up other. ancestor-none node selected ancestors b j ((same j).1 up) other,
  )

  -- What is left of the items: those below no other selected node.
  filter_items-topmost :
      (library : ℕ) (selected : List ℕ) (items filtered : List MoveItem) (s : Session)
      → filter_items d o a library selected items s ≡ ok filtered
      → (i : ℕ)
      → Elem i (nodes_of filtered) ↔ (Elem i (nodes_of items) × IsTop library selected s i)
  unfolding filter_items
  filter_items-topmost library selected [] filtered s h i =
      rw (← (ok_injective h)) ((λ m. elim m [ ]), λ m. elim m.0 [ ])
  filter_items-topmost library selected (item ∷ items) filtered s h i =
      let (ancestors, e, h₁) =
        >>=-eq-ok (with_not_found (list_ancestors item.node library s)) _ h in
      let (rest, e', h₂) = >>=-eq-ok (filter_items d o a library selected items s) _ h₁ in
      let same =
        list_ancestors_rows item.node library s ancestors (with_not_found-ok _ ancestors e) in
      let (below, top) = IsTop-iff library item.node selected ancestors s same in
      subst
        (λ l.
          Elem i (nodes_of l) ↔ (Elem i (item.node ∷ nodes_of items) × IsTop library selected s i))
        (ok_injective h₂)
        (step (has_selected_ancestor item.node selected ancestors) rest below top
          (filter_items-topmost library selected items rest s e' i))
    where
      step :
          (b : Bool) (rest : List MoveItem)
          → (b ≡ true → ¬ IsTop library selected s item.node)
          → (b ≡ false → IsTop library selected s item.node)
          → (Elem i (nodes_of rest) ↔ (Elem i (nodes_of items) × IsTop library selected s i))
          → Elem i (nodes_of (if b then rest else item ∷ rest))
            ↔ (Elem i (item.node ∷ nodes_of items) × IsTop library selected s i)
      step true rest below top (to, from) = (
        λ m. let (n, t) = to m in (inr n, t),
        λ (m, t). elim m [
          | inl e ↦ absurd (below refl (subst (IsTop library selected s) e t))
          | inr n ↦ from (n, t)
        ],
      )
      step false rest below top (to, from) = (
        λ m. elim m [
          | inl e ↦ (inl e, subst (IsTop library selected s) (sym e) (top refl))
          | inr n ↦ let (k, t) = to n in (inr k, t)
        ],
        λ (m, t). elim m [ inl e ↦ inl e | inr n ↦ inr (from (n, t)) ],
      )

  -- Waiting for a lock, others may commit: they keep this library a forest.
  abbrev pub KeepForest : ℕ → Type 0
  KeepForest library =
      (scope : Text) (s t : Session)
      → lock scope s ≡ ok t
      → IsForest library (nodes s)
      → IsForest library (nodes t)

  locks-IsForest :
      (library : ℕ) (scopes : List Text) (s t : Session)
      → KeepForest library
      → lock_all d scopes s ≡ ok t
      → IsForest library (nodes s)
      → IsForest library (nodes t)
  unfolding lock_all
  locks-IsForest library [] s t others h forest =
      subst (λ u. IsForest library (nodes u)) (ok_injective h) forest
  locks-IsForest library (x ∷ xs) s t others h forest =
      let (u, e, h₁) = >>=-eq-ok (lock x s) _ h in
      locks-IsForest library xs u t others h₁ (others x s u e forest)

  move_each-IsForest :
      (clock : ℕ → ℕ) (library parent before : ℕ) (items : List MoveItem) (s t : Session)
      → KeepForest library
      → HasKeys (nodes s)
      → IsForest library (nodes s)
      → move_each d o a clock library parent before items s ≡ ok t
      → IsForest library (nodes t)
  unfolding move_each lock_move_scope
  move_each-IsForest clock library parent before [] s t others keys forest h =
      subst (λ u. IsForest library (nodes u)) (ok_injective h) forest
  move_each-IsForest clock library parent before (item ∷ items) s t others keys forest h =
      let input : MoveNodeInput = record {
        library = library;
        node = item.node;
        new_parent = parent;
        before_node = before;
        name = item.name;
        updated_at = clock item.node;
      } in
      let (u, e, h₁) = >>=-eq-ok (with_create_error (move_node d input (clock item.node) s)) _ h in
      let moved = with_create_error-ok (move_node d input (clock item.node) s) u e in
      move_each-IsForest clock library parent before items u t others
        (move_node_keys d input (clock item.node) s u keys moved)
        (move_node-IsForest d input (clock item.node) s u keys
          (λ node v found locked.
            locks-IsForest library (move_scopes library (parent_id_value node.parent) parent) s v
              others locked forest)
          moved)
        h₁

-- The nodes were moved one after the other under the parent, each behind the locks of its move.
abbrev pub AreMoved : (d : Database) → ℕ → ℕ → List ℕ → d.Session → d.Session → Type 0
AreMoved d library parent [] s t = s ≡ t
AreMoved d library parent (i ∷ is) s t =
    (u : d.Session) × IsMove d library i parent s u × AreMoved d library parent is u t

module _ (d : Database) (o : Outside d) (a : Ancestors d) where
  open d use {Session, nodes}

  move_each-AreMoved :
      (clock : ℕ → ℕ) (library parent before : ℕ) (items : List MoveItem) (s t : Session)
      → HasKeys (nodes s)
      → move_each d o a clock library parent before items s ≡ ok t
      → AreMoved d library parent (nodes_of items) s t
  unfolding move_each
  move_each-AreMoved clock library parent before [] s t keys h = ok_injective h
  move_each-AreMoved clock library parent before (item ∷ items) s t keys h =
      let input : MoveNodeInput = record {
        library = library;
        node = item.node;
        new_parent = parent;
        before_node = before;
        name = item.name;
        updated_at = clock item.node;
      } in
      let (u, e, h₁) = >>=-eq-ok (with_create_error (move_node d input (clock item.node) s)) _ h in
      let moved = with_create_error-ok (move_node d input (clock item.node) s) u e in
      (
        u,
        move_node-IsMove d input (clock item.node) s u keys moved,
        move_each-AreMoved clock library parent before items u t
            (move_node_keys d input (clock item.node) s u keys moved) h₁,
      )

-- The nodes that are moved are those that were sent, less 0 and the ones below another of them; the
-- new parent is none of them and stands below none; each was moved under it in turn; and a forest
-- stays one.
pub record IsBatch (d : Database) (cmd : MoveBatchCommand) (s t : d.Session) (moved : List ℕ)
    : Type 0 where
  pub topmost :
      (i : ℕ)
      → Elem i moved ↔ (
          IsSelected cmd.items i
          × ((j : ℕ) → Ancestor (d.nodes s) cmd.library i j → j ≢ i → ¬ IsSelected cmd.items j))
  pub moves : AreMoved d cmd.library cmd.new_parent moved s t
  pub outside : (i : ℕ) → Elem i moved → ¬ Ancestor (d.nodes s) cmd.library cmd.new_parent i
  pub forest : IsForest cmd.library (d.nodes s) → IsForest cmd.library (d.nodes t)

module _ (d : Database) (o : Outside d) (a : Ancestors d) where
  open d use {Session, nodes}
  open a use {list_ancestors, list_ancestors_rows}

  -- A MoveBatch that returns has moved, one after the other, the topmost of the nodes that were sent:
  -- behind the locks of each move it has given the node the new parent, and has changed the parent of
  -- no other row and the name of none; the new parent stands below none of them; and it has kept the
  -- tree of the library a tree; if keys are primary and others that commit while it waits for its
  -- locks keep the tree as well.
  pub move_batch-IsBatch :
      (clock : ℕ → ℕ) (cmd : MoveBatchCommand) (s t : Session) (result : MoveBatchResult)
      → HasKeys (nodes s)
      → KeepForest d o a cmd.library
      → move_batch d o a clock cmd s ≡ ok (result, t)
      → IsBatch d cmd s t result.moved_node_ids
  unfolding move_batch move_filtered
  move_batch-IsBatch clock cmd s t result keys others h =
      let (_, h₁) =
        guard-eq-ok (not (cmd.library == 0 || cmd.new_parent == 0 || is_nil cmd.items)) _ _ h in
      let (_, _, h₂) = >>=-eq-ok (o.authorize cmd.library) _ h₁ in
      let items = normalize_move_batch_items [] cmd.items in
      let (_, h₃) = guard-eq-ok (not (is_nil items)) _ _ h₂ in
      let (views, _, h₄) = >>=-eq-ok (load_items d o a cmd.library items s) _ h₃ in
      let (filtered, e, h₅) =
        >>=-eq-ok (filter_items d o a cmd.library (nodes_of items) items s) _ h₄ in
      let (_, h₆) = guard-eq-ok (not (is_nil filtered)) _ _ h₅ in
      let (target, _, h₇) = >>=-eq-ok (find_in_library d o a cmd.library cmd.new_parent s) _ h₆ in
      let (ancestors, up, h₈) =
        >>=-eq-ok (with_not_found (list_ancestors cmd.new_parent cmd.library s)) _ h₇ in
      let (apart, h₉) = guard-eq-ok (not (meets (nodes_of filtered) ancestors)) _ _ h₈ in
      let before = if in_ids (nodes_of filtered) cmd.before_node then 0 else cmd.before_node in
      let (u, moves, end) =
        >>=-eq-ok (move_each d o a clock cmd.library cmd.new_parent before filtered s) _ h₉ in
      subst (λ (p : MoveBatchResult × Session). IsBatch d cmd s p.1 p.0.moved_node_ids)
        (ok_injective end)
        (record {
          topmost = topmost filtered e;
          moves =
              move_each-AreMoved d o a clock cmd.library cmd.new_parent before filtered s u keys
                moves;
          outside = λ i m up'. meets-none (nodes_of filtered) ancestors (false_of_not _ apart) i m (
              (list_ancestors_rows cmd.new_parent cmd.library s ancestors
                  (with_not_found-ok _ ancestors up) i).1
                up');
          forest = λ forest.
              move_each-IsForest d o a clock cmd.library cmd.new_parent before filtered s u others
                keys forest moves;
        })
    where
      topmost :
          (filtered : List MoveItem)
          → filter_items d o a cmd.library
              (nodes_of (normalize_move_batch_items [] cmd.items))
              (normalize_move_batch_items [] cmd.items)
              s
            ≡ ok filtered
          → (i : ℕ)
          → Elem i (nodes_of filtered) ↔ (
              IsSelected cmd.items i
              × ((j : ℕ) → Ancestor (nodes s) cmd.library i j → j ≢ i → ¬ IsSelected cmd.items j))
      topmost filtered e i =
          let items = normalize_move_batch_items [] cmd.items in
          let (to, from) =
            filter_items-topmost d o a cmd.library (nodes_of items) items filtered s e i in
          let sent : (j : ℕ)
              → Elem j (nodes_of items) ↔ (IsSelected cmd.items j × (false ≡ false)) =
            normalize_move_batch_items-IsSelected [] cmd.items in
          (
            λ m.
                let (n, top) = to m in
                (((sent i).0 n).0, λ j up other k. top j up other ((sent j).1 (k, refl))),
            λ (n, top).
                from ((sent i).1 (n, refl), λ j up other k. top j up other ((sent j).0 k).0),
          )
