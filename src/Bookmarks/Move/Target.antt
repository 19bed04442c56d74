-- ===== src/Bookmarks/Move/Target.antt =====
-- What ensureMoveTarget lets through, and that a Move keeps the tree.
use omniflow_go.Prelude.{
  ℕ, ◌≡◌, refl, sym, ap, ◌⊎◌, inl, inr, true, false, not, Option, none, some, List, [], ◌∷◌, ◌==◌,
  Elem, arith, Bool-cases, subst,
}
use omniflow_go.Text.{eqb}
use omniflow_go.Result.{Result, ok, err, >>=-eq-ok, guard-eq-ok}
use omniflow_go.Bookmarks.{
  Bookmark, Table, is_owned, has_bookmark_id, kind_folder, first_bookmark, find_owner_by_id,
  list_by_owner, on_error, map_found, to_pg_int64_ptr,
}
use omniflow_go.Bookmarks.Cycle.{
  climb, climb_from, ensure_folder, ensure_parent_folder, rows_of_folder, check_target,
  ensure_move_target,
}
use omniflow_go.Bookmarks.Cycle.Climb.{
  Hangs, IsTree, HasBookmarkKeys, Avoids, IsListing, climb-Avoids, climb_ends,
}
use omniflow_go.Bookmarks.Order.{build_bookmark_sort_orders}
use omniflow_go.Bookmarks.Move.{MoveBrowserBookmarkCommand, move_bookmark}
use omniflow_go.Bookmarks.Move.Rows.{on_error-ok, place_bookmark_rows, move_bookmark_lem}
use omniflow_go.Bookmarks.Move.Tree.{set_parent-IsMoved, moved-IsTree, leaf_Avoids}

module _ (d : Table) where
  open d use {Session, rows, select, select_rows}

  find_owner_by_id_lem :
      (id owner : ℕ) (s : Session) (r : Bookmark)
      → find_owner_by_id d id owner s ≡ ok r
      → Elem r (rows s) × (is_owned owner r ≡ true) × (r.id ≡ id)
  unfolding find_owner_by_id
  find_owner_by_id_lem id owner s r h =
      let (rs, q, e) = >>=-eq-ok (select (has_bookmark_id id owner) s) _ h in
      let (m, k) = (select_rows (has_bookmark_id id owner) s rs q r).0 (head rs e) in
      (m, ground arith, ground arith)
    where
      head : (rs : List Bookmark) → first_bookmark rs ≡ ok r → Elem r rs
      head [] e = cc
      head (x ∷ xs) e = inl (ground arith)

  pub ensure_folder_lem :
      (owner p : ℕ) (s : Session)
      → ensure_folder d owner p s ≡ ok tt
      → (r : Bookmark) × Elem r (rows s)
        × (is_owned owner r ≡ true)
        × (r.id ≡ p)
        × (eqb r.kind kind_folder ≡ true)
  unfolding ensure_folder
  ensure_folder_lem owner p s h =
      let (r, f, h₁) = >>=-eq-ok (on_error map_found (find_owner_by_id d p owner s)) _ h in
      let (m, o, e) = find_owner_by_id_lem p owner s r (on_error-ok map_found _ r f) in
      (r, m, o, e, ground arith)

  rows_of_folder-none :
      (owner : ℕ) (current : Bookmark) (s : Session)
      → rows_of_folder d owner current s ≡ ok none
      → eqb current.kind kind_folder ≡ false
  unfolding rows_of_folder
  rows_of_folder-none owner current s h = elim (Bool-cases (eqb current.kind kind_folder)) [
    | inr b ↦ b
    | inl b ↦
        let (rs, q, e) = >>=-eq-ok (list_by_owner d owner s) (λ l. ok (some l)) (rw b at h) in
        absurd (ground arith)
  ]

  rows_of_folder-some :
      (owner : ℕ) (current : Bookmark) (s : Session) (listed : List Bookmark)
      → rows_of_folder d owner current s ≡ ok (some listed)
      → IsListing owner (rows s) listed
  unfolding rows_of_folder list_by_owner
  rows_of_folder-some owner current s listed h = elim (Bool-cases (eqb current.kind kind_folder)) [
    | inr b ↦ let h' = rw b at h in absurd (ground arith)
    | inl b ↦
        let (rs, q, e) = >>=-eq-ok (select (is_owned owner) s) (λ l. ok (some l)) (rw b at h) in
        let same : rs ≡ listed = ground arith in rw same at (select_rows (is_owned owner) s rs q)
  ]

  check_target_lem :
      (owner p : ℕ) (current : Bookmark) (s : Session) (listed : Option (List Bookmark))
      → p == 0 ≡ false
      → check_target d owner current p s ≡ ok listed
      → (ensure_folder d owner p s ≡ ok tt) × (rows_of_folder d owner current s ≡ ok listed)
  unfolding check_target ensure_parent_folder
  check_target_lem owner p current s listed b h =
      let (_, h₁) = guard-eq-ok (not (p == current.id)) _ _ h in
      let (tt, f, h₂) = >>=-eq-ok (ensure_folder d owner p s) _ (rw b at h₁) in (f, h₂)

  climbed_lem :
      (fuel owner p : ℕ) (current r : Bookmark) (s : Session) (listed : Option (List Bookmark))
      → HasBookmarkKeys (rows s)
      → Hangs owner (rows s) r
      → Elem current (rows s)
      → eqb r.kind kind_folder ≡ true
      → r.id ≡ p
      → rows_of_folder d owner current s ≡ ok listed
      → climb_from d fuel current p (ok listed) ≡ some (ok tt)
      → Avoids current.id owner (rows s) r
  unfolding climb_from
  climbed_lem fuel owner p current r s none keys u mc k same q c =
      leaf_Avoids owner (rows s) current r keys mc (rows_of_folder-none owner current s q) u k
  climbed_lem fuel owner p current r s (some listed) keys u mc k same q c =
      climb-Avoids owner (rows s) listed keys (rows_of_folder-some owner current s listed q) fuel
        current.id r u (subst (λ j. climb fuel listed current.id j ≡ some (ok tt)) (sym same) c)

  passed_lem :
      (fuel owner p : ℕ) (current : Bookmark) (s : Session) (call : Result (Option (List Bookmark)))
      → HasBookmarkKeys (rows s)
      → IsTree owner (rows s)
      → Elem current (rows s)
      → p == 0 ≡ false
      → check_target d owner current p s ≡ call
      → climb_from d fuel current p call ≡ some (ok tt)
      → (r : Bookmark) × (r.id ≡ p)
        × Avoids current.id owner (rows s) r
        × (eqb r.kind kind_folder ≡ true)
  unfolding climb_from
  passed_lem fuel owner p current s (err e) keys tree mc b q c = absurd (ground arith)
  passed_lem fuel owner p current s (ok listed) keys tree mc b q c =
      let (f, l) = check_target_lem owner p current s listed b q in
      let (r, m, o, same, k) = ensure_folder_lem owner p s f in
      (r, same, climbed_lem fuel owner p current r s listed keys (tree r m o) mc k same l c, k)

  -- A target that is let through is a folder, and not below the bookmark.
  target_lem :
      (fuel owner : ℕ) (current : Bookmark) (parent : Option ℕ) (s : Session)
      → HasBookmarkKeys (rows s)
      → IsTree owner (rows s)
      → Elem current (rows s)
      → ensure_move_target d fuel owner current parent s ≡ some (ok tt)
      → (to_pg_int64_ptr parent ≡ none)
        ⊎ ((p : Bookmark) × (to_pg_int64_ptr parent ≡ some p.id)
            × Avoids current.id owner (rows s) p
            × (eqb p.kind kind_folder ≡ true))
  unfolding ensure_move_target to_pg_int64_ptr
  target_lem fuel owner current none s keys tree mc h = inl refl
  target_lem fuel owner current (some p) s keys tree mc h = elim (Bool-cases (p == 0)) [
    | inl zero_key ↦ inl (ground arith)
    | inr b ↦
        let (r, same, a, k) =
          passed_lem fuel owner p current s (check_target d owner current p s) keys tree mc b refl
            (rw b at h) in
        inr (r, rw b (ap some (sym same)), a, k)
  ]

  -- A Move that returns leaves the bookmarks of the owner a tree of folders, if they were one: it makes
  -- no cycle and puts nothing below a bookmark that is no folder. The keys are primary and positive.
  pub move_bookmark-IsTree :
      (fuel now owner : ℕ) (cmd : MoveBrowserBookmarkCommand) (s t : Session) (row : Bookmark)
      → HasBookmarkKeys (rows s)
      → IsTree owner (rows s)
      → move_bookmark d fuel now owner cmd s ≡ some (ok (row, t))
      → IsTree owner (rows t)
  move_bookmark-IsTree fuel now owner cmd s t row keys tree h =
      let (current, one, pos, found, safe, placed) =
        move_bookmark_lem d fuel now owner cmd s t row h in
      let (mc, _, here) = find_owner_by_id_lem cmd.bookmark owner s current found in
      let (siblings, ids, _, _, e) = place_bookmark_rows d now owner cmd s t row placed in
      rw e (
        moved-IsTree owner cmd.bookmark (to_pg_int64_ptr cmd.parent) (rows s) _
          (set_parent-IsMoved now cmd.bookmark owner cmd.parent (build_bookmark_sort_orders ids))
          (rw here at (target_lem fuel owner current cmd.parent s keys tree mc safe)) tree)

  -- On a tree the check of a target ends within some number of rounds, whatever it answers. The keys are
  -- primary and positive.
  pub ensure_move_target_ends :
      (owner : ℕ) (current : Bookmark) (parent : Option ℕ) (s : Session)
      → HasBookmarkKeys (rows s)
      → IsTree owner (rows s)
      → (fuel : ℕ) × (x : Result (Unit {0})) × (ensure_move_target d fuel owner current parent s
          ≡ some x)
  unfolding ensure_move_target
  ensure_move_target_ends owner current none s keys tree = (0, ok tt, refl)
  ensure_move_target_ends owner current (some p) s keys tree = elim (Bool-cases (p == 0)) [
    | inl b ↦ (0, ok tt, rw b refl)
    | inr b ↦ let (fuel, x, e) = ends (check_target d owner current p s) refl b in (fuel, x, rw b e)
  ]
    where
      ends :
          (call : Result (Option (List Bookmark)))
          → check_target d owner current p s ≡ call
          → p == 0 ≡ false
          → (fuel : ℕ) × (x : Result (Unit {0})) × (climb_from d fuel current p call ≡ some x)
      ends (err e) q b = (0, err e, unfold climb_from in refl)
      ends (ok none) q b = (0, ok tt, unfold climb_from in refl)
      ends (ok (some listed)) q b =
          let (f, l) = check_target_lem owner p current s (some listed) b q in
          let (r, m, o, same, k) = ensure_folder_lem owner p s f in
          let (fuel, x, e) =
            climb_ends owner (rows s) listed keys (rows_of_folder-some owner current s listed l)
              current.id r (tree r m o) in
          (
            fuel,
            x,
            unfold climb_from in subst (λ j. climb fuel listed current.id j ≡ some x) same e,
          )
