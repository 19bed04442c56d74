-- ===== src/Move/Placed.antt =====
-- MoveNode with a node to stand before: the moved node stands there when it returns.
use omniflow_go.Prelude.{
  ℕ, ◌-◌, ◌≤◌, ◌<◌, ◌≡◌, ◌≢◌, refl, ap, ◌∙◌, inl, inr, Bool, true, false, ◌&&◌, not, arith, ◌==◌,
  ltb, leb, Bool-cases, if◌then◌else◌, Elem,
}
use omniflow_go.Text.{is_empty, trim_space}
use omniflow_go.Names.{domain_type_code}
use omniflow_go.Result.{Result, ok, >>=-eq-ok, guard-eq-ok}
use omniflow_go.Store.{
  Row, is_live, HasKeys, Database, has_key, parent_id_value, normalize_pg_parent_id,
  find_node_model,
}
use omniflow_go.Store.Laws.{count_pos, find_node_model_lem, update_image, update_source}
use omniflow_go.Move.{
  MoveNodeInput, is_sibling, or_zero, prev_sort_order_before_node, reindex_parent, reindexed_range,
  resolve_move_before_range, resolve_move_sort_order, move_row, check_new_parent,
  has_duplicate_visible_name, deref_string, move_locked, move_min_sort_gap,
}
use omniflow_go.Move.Reindex.{IsSame, reindex_parent-Keeps}
use omniflow_go.Move.Before.{IsLeft, IsPlaced, prev_lem, place_lem}

module _ (d : Database) where
  open d use {Session, nodes, select, update, update_rows}

  record IsRange (parent library id left right : ℕ) (s : Session) : Type 0 where
    target : Row
    present : Elem target (nodes s)
    named : target.id ≡ id
    under : is_sibling library parent target ≡ true
    at : target.sort_order ≡ right
    leftmost : IsLeft d parent library left right s
    le : left ≤ right
    lt : 0 < right → left < right
    keys : HasKeys (nodes s)

  has_key_parts :
      (id library : ℕ) (r : Row)
      → has_key id library r ≡ true
      → (r.id ≡ id) × (r.library ≡ library) × (is_live r ≡ true)
  unfolding has_key
  has_key_parts id library r h = ground arith

  same_sibling :
      (library parent : ℕ) (q r : Row)
      → IsSame q r
      → is_sibling library parent q ≡ true
      → is_sibling library parent r ≡ true
  unfolding is_sibling
  same_sibling library parent q r (n, t, e) h = rw e h

  reindexed_lem :
      (now parent library : ℕ) (b : Row) (s t : Session) (left right : ℕ)
      → HasKeys (nodes s)
      → Elem b (nodes s)
      → is_sibling library parent b ≡ true
      → reindexed_range d now parent library b s ≡ ok (left, right, t)
      → IsRange parent library b.id left right t
  unfolding reindexed_range
  reindexed_lem now parent library b s t left right keys eb sb h =
      let (u, h₁, k₁) = >>=-eq-ok (reindex_parent d parent library now s) _ h in
      let (again, h₂, k₂) = >>=-eq-ok (find_node_model d b.id library u) _ k₁ in
      let (prev, h₃, k₃) =
        >>=-eq-ok (prev_sort_order_before_node d parent library again.sort_order again.id u) _ k₂ in
      let kept = reindex_parent-Keeps d parent library now s u keys h₁ in
      let (ma, ka) = find_node_model_lem d b.id library u again h₂ in
      let (ia, la, va) = has_key_parts b.id library again ka in
      let (q, mq, same) = kept.source again ma in
      let eq' : q ≡ b = keys q b mq eb (ground arith) in
      let sa : is_sibling library parent again ≡ true =
        same_sibling library parent q again same (rw eq' sb) in
      let (l, c, k) = prev_lem d parent library again u prev kept.keys ma h₃ in
      let left' : or_zero prev ≡ left = ground arith in
      let right' : again.sort_order ≡ right = ground arith in
      let t' : u ≡ t = ground arith in
      rw (← left', ← right', ← t')
        (record {
          target = again;
          present = ma;
          named = ia;
          under = sa;
          at = refl;
          leftmost = l;
          le = c;
          lt = k;
          keys = kept.keys;
        })

  range_lem :
      (now parent library : ℕ) (b : Row) (s t : Session) (left right : ℕ)
      → HasKeys (nodes s)
      → Elem b (nodes s)
      → is_sibling library parent b ≡ true
      → resolve_move_before_range d now parent library b s ≡ ok (left, right, t)
      → IsRange parent library b.id left right t
  unfolding resolve_move_before_range
  range_lem now parent library b s t left right keys eb sb h =
      let (prev, h₁, k₁) =
        >>=-eq-ok (prev_sort_order_before_node d parent library b.sort_order b.id s) _ h in
      elim (Bool-cases (leb (b.sort_order - or_zero prev) move_min_sort_gap)) [
        | inl gap ↦ reindexed_lem now parent library b s t left right keys eb sb (rw gap at k₁)
        | inr gap ↦
            let k₂ : ◌≡◌ {A = Result (ℕ × ℕ × Session)} (ok (or_zero prev, b.sort_order, s))
                (ok (left, right, t)) =
              rw gap at k₁ in
            let (l, c, k) = prev_lem d parent library b s prev keys eb h₁ in
            let left' : or_zero prev ≡ left = ground arith in
            let right' : b.sort_order ≡ right = ground arith in
            let t' : s ≡ t = ground arith in
            rw (← left', ← right', ← t')
              (record {
                target = b;
                present = eb;
                named = refl;
                under = sb;
                at = refl;
                leftmost = l;
                le = c;
                lt = k;
                keys = keys;
              })
      ]

  found_sibling :
      (id library parent : ℕ) (b : Row)
      → has_key id library b ≡ true
      → (parent_id_value b.parent == parent) ≡ true
      → 0 < parent
      → is_sibling library parent b ≡ true
  unfolding has_key is_sibling parent_id_value
  found_sibling id library parent b h k p = ground arith

  -- The order that resolveMoveSortOrder gives for a node to stand before another.
  pub resolve_lem :
      (input : MoveNodeInput) (now : ℕ) (s t : Session) (order : ℕ)
      → HasKeys (nodes s)
      → 0 < input.before_node
      → 0 < input.new_parent
      → resolve_move_sort_order d input now s ≡ ok (order, t)
      → IsPlaced d input.new_parent input.library input.before_node order t × HasKeys (nodes t)
  unfolding resolve_move_sort_order
  resolve_lem input now s t order keys p q h =
      let test : ltb 0 input.before_node ≡ true = ground arith in
      let (b, h₁, k₁) =
        >>=-eq-ok (find_node_model d input.before_node input.library s) _ (rw test at h) in
      let (e, k₂) = guard-eq-ok (parent_id_value b.parent == input.new_parent) _ _ k₁ in
      let ((left, right, u), h₃, k₃) =
        >>=-eq-ok (resolve_move_before_range d now input.new_parent input.library b s) _ k₂ in
      let (mb, kb) = find_node_model_lem d input.before_node input.library s b h₁ in
      let r =
        range_lem now input.new_parent input.library b s u left right keys mb
          (found_sibling input.before_node input.library input.new_parent b kb e q) h₃ in
      let (placed, k) =
        place_lem d input.new_parent input.library left right r.target u t order r.keys r.present
          r.under r.at r.leftmost r.le r.lt k₃ in
      let same : r.target.id ≡ input.before_node =
        r.named ∙ (has_key_parts input.before_node input.library b kb).0 in
      (rw same at placed, k)

  abbrev is_moved : MoveNodeInput → Row → Bool
  is_moved input r = is_live r && r.id == input.node && r.library == input.library

  -- The moved row `m` stands under the new parent, right before `b`.
  pub record StandsBefore (input : MoveNodeInput) (s : Session) : Type 0 where
    pub m : Row
    pub b : Row
    pub m_present : Elem m (nodes s)
    pub b_present : Elem b (nodes s)
    pub m_named : m.id ≡ input.node
    pub b_named : b.id ≡ input.before_node
    pub m_under : is_sibling input.library input.new_parent m ≡ true
    pub b_under : is_sibling input.library input.new_parent b ≡ true
    pub in_order : m.sort_order < b.sort_order
    pub after_others :
        (r : Row)
        → Elem r (nodes s)
        → is_sibling input.library input.new_parent r ≡ true
        → r.id ≢ input.node
        → r.sort_order < b.sort_order
        → r.sort_order < m.sort_order

  moved_sibling :
      (input : MoveNodeInput) (order : ℕ) (r : Row)
      → is_moved input r ≡ true
      → is_sibling input.library input.new_parent
          (move_row input.new_parent order input.updated_at r)
        ≡ true
  unfolding is_sibling normalize_pg_parent_id
  moved_sibling input order r h = ground arith

  written_before :
      (input : MoveNodeInput) (order n : ℕ) (t u : Session)
      → IsPlaced d input.new_parent input.library input.before_node order t
      → input.before_node ≢ input.node
      → update (is_moved input) (move_row input.new_parent order input.updated_at) t ≡ ok (n, u)
      → 0 < n
      → StandsBefore input u
  written_before input order n t u p ne h pos =
      let write = move_row input.new_parent order input.updated_at in
      let (_, counted) = update_rows (is_moved input) write t u n h in
      let (m, mm, em) = count_pos (is_moved input) (nodes t) (omega arith) in
      let still : is_moved input p.target ≡ false = ground (arith, p.named) in
      record {
        m = write m;
        b = p.target;
        m_present = rw em at (update_image d (is_moved input) write t u n m h mm);
        b_present = rw still at (update_image d (is_moved input) write t u n p.target h p.present);
        m_named = ground arith;
        b_named = p.named;
        m_under = moved_sibling input order m em;
        b_under = p.under;
        in_order = p.below;
        after_others = λ r mr sr nr lr.
            let (q, mq, eq) = update_source d (is_moved input) write t u n r h mr in
            elim (Bool-cases (is_moved input q)) [
              | inl x ↦
                  let e : r ≡ write q = rw x at eq in
                  absurd (nr (ground (arith, ap (λ (r : Row). r.id) e)))
              | inr x ↦ let e : r ≡ q = rw x at eq in p.above r (rw e mq) sr lr
            ];
      }

  -- When the move returns, the moved node has the new parent and an order below that of the node to
  -- stand before, and above that of every other sibling whose order is below it; also after a
  -- reindexing.
  pub move_locked-StandsBefore :
      (input : MoveNodeInput) (now : ℕ) (node : Row) (s u : Session)
      → HasKeys (nodes s)
      → 0 < input.before_node
      → 0 < input.new_parent
      → input.before_node ≢ input.node
      → move_locked d input now node s ≡ ok u
      → StandsBefore input u
  unfolding move_locked
  move_locked-StandsBefore input now node s u keys p q ne h =
      let (_, _, k₁) = >>=-eq-ok (check_new_parent d input s) _ h in
      let (dup, _, k₂) =
        >>=-eq-ok
          (has_duplicate_visible_name d
            (if is_empty (trim_space input.name) then node.name else input.name)
            (deref_string node.ext) (domain_type_code node.node_type) input.new_parent input.library
            input.node s)
          _ k₁ in
      let (_, k₃) = guard-eq-ok (not dup) _ _ k₂ in
      let ((order, t), h₁, k₄) = >>=-eq-ok (resolve_move_sort_order d input now s) _ k₃ in
      let ((n, v), h₂, k₅) =
        >>=-eq-ok (update (is_moved input) (move_row input.new_parent order input.updated_at) t) _
          k₄ in
      let (pos, k₆) = guard-eq-ok (not (n == 0)) _ _ k₅ in
      let e : v ≡ u = ground arith in
      rw (← e) (
        written_before input order n t v (resolve_lem input now s t order keys p q h₁).0 ne h₂
          (ground arith))
