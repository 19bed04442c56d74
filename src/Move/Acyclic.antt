-- ===== src/Move/Acyclic.antt =====
-- MoveNode keeps the live rows of a library a forest, whatever the database answers.
use omniflow_go.Prelude.{
  ℕ, ◌≡◌, refl, sym, ap, ◌⊎◌, inl, inr, Bool, true, false, ◌&&◌, not, none, some, List, [], ◌∷◌,
  arith, ◌==◌, ltb, Bool-cases, if◌then◌else◌, Elem,
}
use omniflow_go.Text.{is_empty, trim_space}
use omniflow_go.Names.{domain_type_code}
use omniflow_go.Result.{ok, guard, ◌>>=◌, ◌>>◌, >>=-eq-ok, guard-eq-ok, repository_invalid_state}
use omniflow_go.Store.{
  Row, is_live, HasKeys, Sub, Database, has_key, normalize_pg_parent_id, find_node_model,
}
use omniflow_go.Store.Laws.{find_node_model_lem, update_image, update_source}
use omniflow_go.Move.{
  MoveNodeInput, count_ids, is_descendant, check_new_parent, has_duplicate_visible_name,
  deref_string, resolve_move_sort_order, move_row, move_locked, set_order,
}
use omniflow_go.Move.Reindex.{IsSame}
use omniflow_go.Move.Keeps.{resolve_Keeps}
use omniflow_go.Move.Forest.{in_tree, Rooted, IsForest, is_node, IsForest-move}

not-Elem_of_count : (t : ℕ) (is : List ℕ) → ltb 0 (count_ids t is) ≡ false → ¬ Elem t is
not-Elem_of_count t [] h m = m
not-Elem_of_count t (i ∷ is) h (inl e) = ground arith
not-Elem_of_count t (i ∷ is) h (inr m) = not-Elem_of_count t is (ground arith) m

module _ (d : Database) where
  open d use {Session, nodes, select_sub, select_sub_rows, update}

  descendant_lem :
      (node target library : ℕ) (s : Session)
      → is_descendant d node target library s ≡ ok false
      → ¬ Sub (nodes s) (is_node library node) (in_tree library) target
  unfolding is_descendant
  descendant_lem node target library s h below =
      let (ids, q, e) = >>=-eq-ok (select_sub (is_node library node) (in_tree library) s) _ h in
      not-Elem_of_count target ids (ground arith) ((select_sub_rows _ _ s ids q target).1 below)

  key_parts :
      (id library : ℕ) (r : Row)
      → has_key id library r ≡ true
      → (r.id ≡ id) × (in_tree library r ≡ true)
  unfolding has_key
  key_parts id library r h = ground arith

  -- The tests on the new parent say that it is safe.
  pub checked_IsSafe :
      (input : MoveNodeInput) (s : Session)
      → IsForest input.library (nodes s)
      → check_new_parent d input s ≡ ok tt
      → (normalize_pg_parent_id input.new_parent ≡ none)
        ⊎ ((j : ℕ) × (normalize_pg_parent_id input.new_parent ≡ some j)
            × Rooted input.library (nodes s) j
            × ¬ Sub (nodes s) (is_node input.library input.node) (in_tree input.library) j)
  unfolding check_new_parent normalize_pg_parent_id
  checked_IsSafe input s forest h = elim (Bool-cases (ltb 0 input.new_parent)) [
    | inl pos ↦
        let (parent, k₁, h₁) =
          >>=-eq-ok (find_node_model d input.new_parent input.library s)
            (λ parent.
              guard (parent.node_type == 0) repository_invalid_state
              >> (is_descendant d input.node input.new_parent input.library s >>= λ below.
                  guard (not below) repository_invalid_state))
            (rw pos at h) in
        let (_, h₂) = guard-eq-ok (parent.node_type == 0) _ _ h₁ in
        let (below, k₂, h₃) =
          >>=-eq-ok (is_descendant d input.node input.new_parent input.library s) _ h₂ in
        let (m, key) = find_node_model_lem d input.new_parent input.library s parent k₁ in
        let (named, live) = key_parts input.new_parent input.library parent key in
        let outside : below ≡ false = ground arith in
        inr (
          input.new_parent,
          ground arith,
          rw named at (forest parent m live),
          descendant_lem input.node input.new_parent input.library s (rw outside at k₂),
        )
    | inr top ↦ inl (ground arith)
  ]

  is_moved : MoveNodeInput → Row → Bool
  is_moved input r = is_live r && r.id == input.node && r.library == input.library

  moved_image :
      (input : MoveNodeInput) (order : ℕ) (r q : Row)
      → IsSame r q
      → in_tree input.library r ≡ true
      → (x : Row) × (x
          ≡ (if is_moved input q then move_row input.new_parent order input.updated_at q else q))
        × (in_tree input.library x ≡ true)
        × (x.id ≡ r.id)
        × (x.parent
            ≡ (if r.id == input.node then normalize_pg_parent_id input.new_parent else r.parent))
  unfolding is_moved
  moved_image input order r q (n, t, e) h = rw e (
    (if is_moved input (set_order n t r)
        then move_row input.new_parent order input.updated_at (set_order n t r)
        else set_order n t r),
    refl,
    ground arith,
    ground arith,
    ground arith,
  )

  moved_source :
      (input : MoveNodeInput) (order : ℕ) (r q x : Row)
      → IsSame r q
      → x ≡ (if is_moved input q then move_row input.new_parent order input.updated_at q else q)
      → in_tree input.library x ≡ true
      → (in_tree input.library r ≡ true) × (r.id ≡ x.id)
  unfolding is_moved
  moved_source input order r q x (n, t, e) h k =
      let h' : x ≡ (
          if is_moved input (set_order n t r)
          then move_row input.new_parent order input.updated_at (set_order n t r)
          else set_order n t r) =
        rw e at h in
      elim (Bool-cases (is_moved input (set_order n t r))) [
        | inl b ↦
            let y : x ≡ move_row input.new_parent order input.updated_at (set_order n t r) =
              rw b at h' in
            (rw y at k, sym (ap (λ (r : Row). r.id) y))
        | inr b ↦
            let y : x ≡ set_order n t r = rw b at h' in (rw y at k, sym (ap (λ (r : Row). r.id) y))
      ]

  -- A move that returns has kept every live row on its way to a root.
  pub move_locked-IsForest :
      (input : MoveNodeInput) (now : ℕ) (node : Row) (s u : Session)
      → HasKeys (nodes s)
      → IsForest input.library (nodes s)
      → move_locked d input now node s ≡ ok u
      → IsForest input.library (nodes u)
  unfolding move_locked is_moved
  move_locked-IsForest input now node s u keys forest h =
      let (_, h₀, k₁) = >>=-eq-ok (check_new_parent d input s) _ h in
      let (dup, _, k₂) =
        >>=-eq-ok
          (has_duplicate_visible_name d
            (if is_empty (trim_space input.name) then node.name else input.name)
            (deref_string node.ext) (domain_type_code node.node_type) input.new_parent input.library
            input.node s)
          _ k₁ in
      let (_, k₃) = guard-eq-ok (not dup) _ _ k₂ in
      let ((order, t), h₁, k₄) = >>=-eq-ok (resolve_move_sort_order d input now s) _ k₃ in
      let ((n, v), h₂, k₅) =
        >>=-eq-ok (update (is_moved input) (move_row input.new_parent order input.updated_at) t) _
          k₄ in
      let (pos, k₆) = guard-eq-ok (not (n == 0)) _ _ k₅ in
      let e : v ≡ u = ground arith in
      let k = resolve_Keeps d input now order s t keys h₁ in
      let write = move_row input.new_parent order input.updated_at in
      rw (← e) (
        IsForest-move input.library input.node (normalize_pg_parent_id input.new_parent) (nodes s)
          (nodes v)
          (λ r m live.
            let (q, mq, same) = k.image r m in
            let (x, ex, lx, ix, px) = moved_image input order r q same live in
            (x, rw ex (update_image d (is_moved input) write t v n q h₂ mq), lx, ix, px))
          (checked_IsSafe input s forest h₀)
          (λ x mx lx.
            let (q, mq, eq) = update_source d (is_moved input) write t v n x h₂ mx in
            let (r, mr, same) = k.source q mq in
            let (lr, ir) = moved_source input order r q x same eq lx in (r, mr, lr, ir))
          forest)
