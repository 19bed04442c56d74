-- ===== src/Move/Node.antt =====
-- MoveNode as a whole, with its locks, and what it does not write.
use omniflow_go.Prelude.{
  ℕ, ◌<◌, ◌≡◌, ◌≢◌, refl, ap, ◌∙◌, Bool, true, false, not, List, [], ◌∷◌, arith, ◌==◌,
  if◌then◌else◌, Elem, ◌&&◌,
}
use omniflow_go.Text.{Text, is_empty, trim_space}
use omniflow_go.Names.{domain_type_code}
use omniflow_go.Result.{ok, ok_injective, >>=-eq-ok, guard-eq-ok}
use omniflow_go.Store.{Row, is_live, HasKeys, Database, parent_id_value, find_node_model}
use omniflow_go.Store.Laws.{update_source, update_keys}
use omniflow_go.Move.{
  MoveNodeInput, lock_all, lock_move_scope, move_locked, move_node, move_row, set_order,
  check_new_parent, has_duplicate_visible_name, deref_string, resolve_move_sort_order,
}
use omniflow_go.Move.Keeps.{resolve_Keeps}
use omniflow_go.Move.Forest.{IsForest}
use omniflow_go.Move.Acyclic.{move_locked-IsForest}
use omniflow_go.Move.Placed.{StandsBefore, move_locked-StandsBefore}

same_name :
    (b : Bool) (input : MoveNodeInput) (q x r : Row) (a c order : ℕ)
    → x ≡ set_order a c q
    → r ≡ (if b then move_row input.new_parent order input.updated_at x else x)
    → (q.id ≡ r.id) × (q.name ≡ r.name) × (q.ext ≡ r.ext)
same_name true input q x r a c order e h = rw (h, e) (refl, refl, refl)
same_name false input q x r a c order e h = rw (h, e) (refl, refl, refl)

module _ (d : Database) where
  open d use {Session, nodes, lock, lock_keys, update}

  lock_all_keys :
      (ts : List Text) (s t : Session)
      → lock_all d ts s ≡ ok t
      → HasKeys (nodes s)
      → HasKeys (nodes t)
  unfolding lock_all
  lock_all_keys [] s t h keys = let e : s ≡ t = ground arith in rw (← e) keys
  lock_all_keys (x ∷ xs) s t h keys =
      let (u, k, h₁) = >>=-eq-ok (lock x s) _ h in lock_all_keys xs u t h₁ (lock_keys x s u k keys)

  -- A move that returns has locked its scopes, and made its checks and its writes behind the locks.
  pub move_node_inv :
      (input : MoveNodeInput) (now : ℕ) (s u : Session)
      → HasKeys (nodes s)
      → move_node d input now s ≡ ok u
      → (node : Row) × (t : Session) × (find_node_model d input.node input.library s ≡ ok node)
        × (lock_move_scope d input.library (parent_id_value node.parent) input.new_parent s ≡ ok t)
        × HasKeys (nodes t)
        × (move_locked d input now node t ≡ ok u)
  unfolding move_node lock_move_scope
  move_node_inv input now s u keys h =
      let (node, a, h₁) = >>=-eq-ok (find_node_model d input.node input.library s) _ h in
      let (_, h₂) = guard-eq-ok (not (input.new_parent == input.node)) _ _ h₁ in
      let (t, b, h₃) =
        >>=-eq-ok (lock_move_scope d input.library (parent_id_value node.parent) input.new_parent s)
          _ h₂ in
      (node, t, a, b, lock_all_keys _ s t b keys, h₃)

  -- MoveNode with a node to stand before: when it returns, the moved row is under the new parent,
  -- its order is below that of the other one, and above that of every other sibling whose order is
  -- below that.
  pub move_node-StandsBefore :
      (input : MoveNodeInput) (now : ℕ) (s u : Session)
      → HasKeys (nodes s)
      → 0 < input.before_node
      → 0 < input.new_parent
      → input.before_node ≢ input.node
      → move_node d input now s ≡ ok u
      → StandsBefore d input u
  move_node-StandsBefore input now s u keys p q ne h =
      let (node, t, a, b, k, e) = move_node_inv input now s u keys h in
      move_locked-StandsBefore d input now node t u k p q ne e

  -- If the rows that MoveNode reads behind its locks are a forest, so are those that it leaves.
  pub move_node-IsForest :
      (input : MoveNodeInput) (now : ℕ) (s u : Session)
      → HasKeys (nodes s)
      → ((node : Row) (t : Session)
          → find_node_model d input.node input.library s ≡ ok node
          → lock_move_scope d input.library (parent_id_value node.parent) input.new_parent s ≡ ok t
          → IsForest input.library (nodes t))
      → move_node d input now s ≡ ok u
      → IsForest input.library (nodes u)
  move_node-IsForest input now s u keys forest h =
      let (node, t, a, b, k, e) = move_node_inv input now s u keys h in
      move_locked-IsForest d input now node t u k (forest node t a b) e

  abbrev pub is_moved : MoveNodeInput → Row → Bool
  is_moved input r = is_live r && r.id == input.node && r.library == input.library

  -- Behind its tests a move places the row and writes it.
  pub move_locked_write :
      (input : MoveNodeInput) (now : ℕ) (node : Row) (s u : Session)
      → move_locked d input now node s ≡ ok u
      → (order : ℕ) × (t : Session) × (n : ℕ) × (resolve_move_sort_order d input now s
          ≡ ok (order, t))
        × (update (is_moved input) (move_row input.new_parent order input.updated_at) t ≡ ok (n, u))
        × (0 < n)
  unfolding move_locked
  move_locked_write input now node s u h =
      let (_, _, k₁) = >>=-eq-ok (check_new_parent d input s) _ h in
      let (dup, _, k₂) =
        >>=-eq-ok
          (has_duplicate_visible_name d
            (if is_empty (trim_space input.name) then node.name else input.name)
            (deref_string node.ext) (domain_type_code node.node_type) input.new_parent input.library
            input.node s)
          _ k₁ in
      let (_, k₃) = guard-eq-ok (not dup) _ _ k₂ in
      let ((order, t), h₁, k₄) = >>=-eq-ok (resolve_move_sort_order d input now s) _ k₃ in
      let write = move_row input.new_parent order input.updated_at in
      let ((n, v), h₂, k₅) = >>=-eq-ok (update (is_moved input) write t) _ k₄ in
      let (some_row, k₆) = guard-eq-ok (not (n == 0)) _ _ k₅ in
      (order, t, n, h₁, h₂ ∙ ap (λ w. ok (n, w)) (ok_injective k₆), ground arith)

  pub move_node_keys :
      (input : MoveNodeInput) (now : ℕ) (s u : Session)
      → HasKeys (nodes s)
      → move_node d input now s ≡ ok u
      → HasKeys (nodes u)
  move_node_keys input now s u keys h =
      let (node, v, _, _, k, e) = move_node_inv input now s u keys h in
      let (order, t, n, h₁, h₂, _) = move_locked_write input now node v u e in
      update_keys d (is_moved input) (move_row input.new_parent order input.updated_at) t u n
        (λ r. refl) h₂ (resolve_Keeps d input now order v t k h₁).keys

  -- A move writes no name: every row that it leaves has the name and the extension of a row with
  -- the same key from before, also where the input has a name, for which the duplicates were sought.
  pub move_locked_name :
      (input : MoveNodeInput) (now : ℕ) (node : Row) (s u : Session) (r : Row)
      → HasKeys (nodes s)
      → move_locked d input now node s ≡ ok u
      → Elem r (nodes u)
      → (q : Row) × Elem q (nodes s) × (q.id ≡ r.id) × (q.name ≡ r.name) × (q.ext ≡ r.ext)
  move_locked_name input now node s u r keys h m =
      let (order, t, n, h₁, h₂, _) = move_locked_write input now node s u h in
      let write = move_row input.new_parent order input.updated_at in
      let (x, mx, ex) = update_source d (is_moved input) write t u n r h₂ m in
      let (q, mq, (a, b, eq)) = (resolve_Keeps d input now order s t keys h₁).source x mx in
      let (i, c, d) = same_name (is_moved input x) input q x r a b order eq ex in (q, mq, i, c, d)
