-- ===== src/Move/Concurrent.antt =====
-- Two moves that both make their checks before either writes.
use omniflow_go.Prelude.{
  ℕ, ◌<◌, ◌≡◌, ◌≢◌, refl, sym, ap, ◌∙◌, ◌⊎◌, inl, inr, true, ◌&&◌, some, List, map, arith, ◌==◌,
  if◌then◌else◌, Elem, Elem-map, Elem-of_map,
}
use omniflow_go.Result.{ok}
use omniflow_go.Store.{Row, is_live, Sub, Database, normalize_pg_parent_id}
use omniflow_go.Move.{MoveNodeInput, move_row, check_new_parent}
use omniflow_go.Move.Acyclic.{checked_IsSafe}
use omniflow_go.Move.Forest.{in_tree, Rooted, IsForest, is_node, IsForest-move}

-- The rows after the UPDATE of MoveNode.
pub moved : MoveNodeInput → ℕ → Row → Row
moved input order r =
    if is_live r && r.id == input.node && r.library == input.library
    then move_row input.new_parent order input.updated_at r
    else r

unfoldable pub moved_rows : MoveNodeInput → ℕ → List Row → List Row
unfolding moved
moved_rows input order rows = map (moved input order) rows

moved_parts :
    (input : MoveNodeInput) (order : ℕ) (r : Row)
    → (in_tree input.library (moved input order r) ≡ in_tree input.library r)
      × ((moved input order r).id ≡ r.id)
unfolding moved
moved_parts input order r = ground arith

-- One move with a safe new parent keeps the forest.
moved_rows-IsForest :
    (input : MoveNodeInput) (order : ℕ) (rows : List Row)
    → 0 < input.new_parent
    → IsForest input.library rows
    → Rooted input.library rows input.new_parent
    → ¬ Sub rows (is_node input.library input.node) (in_tree input.library) input.new_parent
    → IsForest input.library (moved_rows input order rows)
unfolding moved_rows normalize_pg_parent_id
moved_rows-IsForest input order rows pos forest w out =
    IsForest-move input.library input.node (some input.new_parent) rows
      (map (moved input order) rows)
      (λ r m live. (
        moved input order r,
        Elem-map (moved input order) r rows m,
        ground arith,
        ground arith,
        ground arith,
      ))
      (inr (input.new_parent, refl, w, out))
      (λ q n live.
        let (r, m, e) = Elem-of_map (moved input order) q rows n in
        let (t, i) = moved_parts input order r in
        (r, m, sym t ∙ rw e at live, sym i ∙ sym (ap (λ (r : Row). r.id) e)))
      forest

-- `a` moves a node under another one, and `b` the other one under the first.
abbrev pub IsSwap : MoveNodeInput → MoveNodeInput → Type 0
IsSwap a b =
    (a.library ≡ b.library)
    × (a.node ≡ b.new_parent)
    × (b.node ≡ a.new_parent)
    × (0 < a.node)
    × (0 < b.node)
    × (a.node ≢ b.node)

-- After both writes each of the two rows has the other one for its parent.
swapped_parent :
    (a b : MoveNodeInput) (m n : ℕ) (r q : Row)
    → IsSwap a b
    → q ≡ moved b n (moved a m r)
    → in_tree a.library q ≡ true
    → ((q.id ≡ a.node) → q.parent ≡ some b.node) × ((q.id ≡ b.node) → q.parent ≡ some a.node)
unfolding moved normalize_pg_parent_id
swapped_parent a b m n r q s e live =
    let live' : in_tree a.library (moved b n (moved a m r)) ≡ true = rw e at live in
    rw e (λ h. ground arith, λ h. ground arith)

some_cancel : (i j : ℕ) → some i ≡ some j → i ≡ j
some_cancel i j h = cc

swapped_rootless :
    (a b : MoveNodeInput) (m n : ℕ) (rows : List Row)
    → IsSwap a b
    → {i : ℕ} → Rooted a.library (moved_rows b n (moved_rows a m rows)) i
    → (i ≡ a.node) ⊎ (i ≡ b.node)
    → ⊥
unfolding moved_rows
swapped_rootless a b m n rows s (Rooted.root q k live e f) h =
    let (x, mx, ex) = Elem-of_map (moved b n) q (map (moved a m) rows) k in
    let (r, mr, er) = Elem-of_map (moved a m) x rows mx in
    let (to, from) = swapped_parent a b m n r q s (ex ∙ ap (moved b n) er) live in ground arith
swapped_rootless a b m n rows s (Rooted.child {j = j} q w k live e f) h =
    let (x, mx, ex) = Elem-of_map (moved b n) q (map (moved a m) rows) k in
    let (r, mr, er) = Elem-of_map (moved a m) x rows mx in
    let (to, from) = swapped_parent a b m n r q s (ex ∙ ap (moved b n) er) live in
    swapped_rootless a b m n rows s w (elim h [
      | inl z ↦ inr (some_cancel j b.node (sym e ∙ to (f ∙ z)))
      | inr z ↦ inl (some_cancel j a.node (sym e ∙ from (f ∙ z)))
    ])

both_present :
    (a b : MoveNodeInput) (m n : ℕ) (rows : List Row) (r : Row)
    → Elem r rows
    → Elem (moved b n (moved a m r)) (moved_rows b n (moved_rows a m rows))
unfolding moved_rows
both_present a b m n rows r e =
    Elem-map (moved b n) (moved a m r) (map (moved a m) rows) (Elem-map (moved a m) r rows e)

both_named : (a b : MoveNodeInput) (m n : ℕ) (r : Row) → (moved b n (moved a m r)).id ≡ r.id
both_named a b m n r = (moved_parts b n (moved a m r)).1 ∙ (moved_parts a m r).1

both_live :
    (a b : MoveNodeInput) (m n : ℕ) (r : Row)
    → IsSwap a b
    → in_tree a.library r ≡ true
    → in_tree a.library (moved b n (moved a m r)) ≡ true
unfolding moved
both_live a b m n r s h = ground arith

-- The pure part: each of the two moves alone keeps the forest, and both leave a cycle.
swap-IsForest :
    (a b : MoveNodeInput) (m n : ℕ) (rows : List Row) (r : Row)
    → IsSwap a b
    → IsForest a.library rows
    → Elem r rows
    → in_tree a.library r ≡ true
    → r.id ≡ a.node
    → Rooted a.library rows b.node
    → ¬ Sub rows (is_node a.library a.node) (in_tree a.library) b.node
    → IsForest a.library (moved_rows a m rows)
      × (¬ IsForest a.library (moved_rows b n (moved_rows a m rows)))
swap-IsForest a b m n rows r s forest e live i w outa =
    let (l, ab, ba, pa, pb, ne) = s in
    (
      moved_rows-IsForest a m rows (rw ba at pb) forest (rw ba at w) (rw ba at outa),
      λ all.
          swapped_rootless a b m n rows s
            (all (moved b n (moved a m r)) (both_present a b m n rows r e)
              (both_live a b m n r s live))
            (inl (both_named a b m n r ∙ i)),
    )

Rooted-row :
    (library : ℕ) (rows : List Row) (i : ℕ)
    → Rooted library rows i
    → (r : Row) × Elem r rows × (in_tree library r ≡ true) × (r.id ≡ i)
Rooted-row library rows i (Rooted.root r m live p e) = (r, m, live, e)
Rooted-row library rows i (Rooted.child r w m live p e) = (r, m, live, e)

module _ (d : Database) where
  open d use {Session, nodes, update, update_rows}

  safe_parent :
      (input : MoveNodeInput) (s : Session)
      → 0 < input.new_parent
      → IsForest input.library (nodes s)
      → check_new_parent d input s ≡ ok tt
      → Rooted input.library (nodes s) input.new_parent
        × ¬ Sub
            (nodes s)
            (is_node input.library input.node)
            (in_tree input.library)
            input.new_parent
  unfolding normalize_pg_parent_id
  safe_parent input s pos forest h = elim (checked_IsSafe d input s forest h) [
    | inl e ↦ ground arith
    | inr (j, e, w, out) ↦ let e' : input.new_parent ≡ j = ground arith in (rw e' w, rw e' out)
  ]

  -- Two moves of one library that each put their node under the other's node, and whose tests on the
  -- new parent both see the same forest `s`: it does not matter what they lock. The write of the first
  -- keeps the forest, and when the write of the second is there as well, the rows are no forest.
  pub concurrent_moves_cycle :
      (a b : MoveNodeInput) (m n x y : ℕ) (s t u : Session)
      → IsSwap a b
      → IsForest a.library (nodes s)
      → check_new_parent d a s ≡ ok tt
      → check_new_parent d b s ≡ ok tt
      → update (is_node a.library a.node) (move_row a.new_parent m a.updated_at) s ≡ ok (x, t)
      → update (is_node b.library b.node) (move_row b.new_parent n b.updated_at) t ≡ ok (y, u)
      → IsForest a.library (nodes t) × (¬ IsForest a.library (nodes u))
  unfolding moved_rows moved
  concurrent_moves_cycle a b m n x y s t u swap forest ha hb wa wb =
      let (l, ab, ba, pa, pb, ne) = swap in
      let (w, out) = safe_parent a s (rw ba at pb) forest ha in
      let (v, _) = safe_parent b s (rw ab at pa) (rw l at forest) hb in
      let (r, mr, live, e) = Rooted-row b.library (nodes s) b.new_parent v in
      let (et, _) = update_rows _ _ s t x wa in
      let (eu, _) = update_rows _ _ t u y wb in
      let et' : nodes t ≡ moved_rows a m (nodes s) = et in
      let eu' : nodes u ≡ moved_rows b n (nodes t) = eu in
      let all =
        swap-IsForest a b m n (nodes s) r swap forest mr (rw (← l) at live) (e ∙ sym ab)
          (rw (← ba) at w) (rw (← ba) at out) in
      rw (eu', et') all
