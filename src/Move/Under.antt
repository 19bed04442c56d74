-- ===== src/Move/Under.antt =====
-- What a MoveNode (internal/repository/postgres/impl/node/node_write.go) that returns has written.
use omniflow_go.Prelude.{
  ℕ, ◌≡◌, refl, ap, sym, ◌∙◌, Bool, true, false, ◌&&◌, List, arith, ◌==◌, if◌then◌else◌, Elem,
}
use omniflow_go.Text.{Text}
use omniflow_go.Result.{ok}
use omniflow_go.Store.{Row, is_live, HasKeys, Database, parent_id_value, normalize_pg_parent_id}
use omniflow_go.Store.Laws.{count_pos, update_image, update_source}
use omniflow_go.Move.{
  MoveNodeInput, lock_all, lock_move_scope, move_scopes, move_node, move_row, set_order,
}
use omniflow_go.Move.Keeps.{resolve_Keeps}
use omniflow_go.Move.Node.{move_node_inv, move_locked_write}

abbrev pub is_live_node : ℕ → ℕ → Row → Bool
is_live_node library node r = is_live r && r.id == node && r.library == library

-- The node is there, and under the new parent; the other rows have the parents that they had, and
-- none has another name than before.
pub record IsUnder (library node parent : ℕ) (before after : List Row) : Type 0 where
  pub there : (r : Row) × Elem r after × (is_live_node library node r ≡ true)
  pub rows :
      (r : Row)
      → Elem r after
      → (q : Row) × Elem q before
        × (q.id ≡ r.id)
        × (q.name ≡ r.name)
        × (q.ext ≡ r.ext)
        × (r.parent
            ≡ (if is_live_node library node r then normalize_pg_parent_id parent else q.parent))

written_parts :
    (b : Bool) (input : MoveNodeInput) (q x r : Row) (a c order : ℕ)
    → x ≡ set_order a c q
    → r ≡ (if b then move_row input.new_parent order input.updated_at x else x)
    → (is_live_node input.library input.node x ≡ b)
    → (q.id ≡ r.id)
      × (q.name ≡ r.name)
      × (q.ext ≡ r.ext)
      × (is_live_node input.library input.node r ≡ b)
      × (r.parent ≡ (if b then normalize_pg_parent_id input.new_parent else q.parent))
written_parts true input q x r a c order e h t = rw (h, e) (refl, refl, refl, rw e at t, refl)
written_parts false input q x r a c order e h t = rw (h, e) (refl, refl, refl, rw e at t, refl)

module _ (d : Database) where
  open d use {Session, nodes}

  -- The move of a node behind its locks, from what it finds there to what it leaves.
  abbrev pub IsMove : ℕ → ℕ → ℕ → Session → Session → Type 0
  IsMove library node parent s u =
      (scopes : List Text) × (t : Session) × (lock_all d scopes s ≡ ok t)
      × IsUnder library node parent (nodes t) (nodes u)

  pub move_node-IsMove :
      (input : MoveNodeInput) (now : ℕ) (s u : Session)
      → HasKeys (nodes s)
      → move_node d input now s ≡ ok u
      → IsMove input.library input.node input.new_parent s u
  unfolding lock_move_scope
  move_node-IsMove input now s u keys h =
      let (node, v, _, locked, k, e) = move_node_inv d input now s u keys h in
      let (order, t, n, h₁, h₂, pos) = move_locked_write d input now node v u e in
      let write = move_row input.new_parent order input.updated_at in
      let this = is_live_node input.library input.node in
      let kept = resolve_Keeps d input now order v t k h₁ in
      let counted = (d.update_rows this write t u n h₂).1 in
      let (m, mm, em) = count_pos this (nodes t) (omega (arith, pos, counted)) in
      (
        move_scopes input.library (parent_id_value node.parent) input.new_parent,
        v,
        locked,
        record {
          there = (write m, rw em at (update_image d this write t u n m h₂ mm), em);
          rows = λ r mr.
              let (x, mx, ex) = update_source d this write t u n r h₂ mr in
              let (q, mq, (a, b, eq)) = kept.source x mx in
              let (i, name, ext, same, p) =
                written_parts (this x) input q x r a b order eq ex refl in
              (
                q,
                mq,
                i,
                name,
                ext,
                p
                    ∙ ap (λ b. if b then normalize_pg_parent_id input.new_parent else q.parent)
                        (sym same),
              );
        },
      )
