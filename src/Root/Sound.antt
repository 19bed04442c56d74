-- ===== src/Root/Sound.antt =====
-- The rows behind EnsureLibraryRootNodeID.
use omniflow_go.Prelude.{
  ◌↔◌, then_branch, else_branch, map-map, map-same, map_agree, ℕ, ◌<◌, ◌≡◌, refl, sym, ap, ◌∙◌, inl,
  inr, Bool, true, false, ◌&&◌, ◌||◌, List, [], ◌∷◌, map, ◌==◌, ltb, if◌then◌else◌, Elem, Elem-map,
  Elem-of_map, arith, Bool-cases,
}
use omniflow_go.Result.{Result, ok, err, >>=-eq-ok}
use omniflow_go.Store.{Row, asc, is_none, is_live, HasKeys, Database, first, parent_id_value}
use omniflow_go.Recycle.{in_library}
use omniflow_go.Root.{
  target_parent, has_row_key, adopt, is_root, repair_loop, repair_parent_references,
}
use omniflow_go.Recycle.{is_not_found}
use omniflow_go.Root.{root_or_new, find_library_root_node, ensure_library_root_node_id}
use omniflow_go.Root.Repaired.{
  new_parent, repair_row, repair_all, IsSame, repair_all-IsSame, becomes_new, new_parent-value,
  IsSound, target_parent-IsSound,
}

module _ (d : Database) where
  open d use {insert, insert_rows, Session, nodes, select, select_rows, update, update_rows}

  repair_loop_rows :
      (now library root : ℕ) (rows todo : List Row) (changed b : Bool) (s t : Session)
      → repair_loop d now library root rows todo changed s ≡ ok (b, t)
      → nodes t ≡ map (repair_all now library root rows todo) (nodes s)
  unfolding repair_loop
  repair_loop_rows now library root rows [] changed b s t h =
      let e : s ≡ t = ground arith in rw (← e) (sym (map-same (nodes s)))
  repair_loop_rows now library root rows (y ∷ todo) changed b s t h =
      elim (Bool-cases (target_parent rows root y == parent_id_value y.parent)) [
        | inl a ↦
            repair_loop_rows now library root rows todo changed b s t (then_branch _ _ _ a ∙ h)
            ∙ map_agree (repair_all now library root rows todo)
                (repair_all now library root rows (y ∷ todo)) (nodes s)
                (λ r. ap (repair_all now library root rows todo) (then_branch _ _ _ a))
        | inr a ↦
            let ((n, u), q, h₁) =
              >>=-eq-ok
                (update (has_row_key y.id library) (adopt now (target_parent rows root y)) s) _
                (else_branch _ _ _ a ∙ h) in
            repair_loop_rows now library root rows todo (changed || ltb 0 n) b u t h₁
            ∙ ap (map (repair_all now library root rows todo)) (
                (update_rows _ _ s u n q).0
                ∙ map_agree
                    (λ r.
                      if has_row_key y.id library r
                      then adopt now (target_parent rows root y) r
                      else r)
                    (repair_row now library root rows y) (nodes s) (λ r. else_branch _ _ _ a))
            ∙ map-map (repair_all now library root rows todo) (repair_row now library root rows y)
                (nodes s)
      ]

  -- What the repair does to a row of the library, and where the rows come from.
  repair_parent_references_lem :
      (now library root : ℕ) (s t : Session) (b : Bool)
      → HasKeys (nodes s)
      → repair_parent_references d now library root s ≡ ok (b, t)
      → (rows : List Row) × ((r : Row)
          → Elem r rows ↔ (Elem r (nodes s) × (r.library == library ≡ true)))
        × ((r : Row)
            → Elem r (nodes s)
            → r.library == library ≡ true
            → (q : Row) × Elem q (nodes t) × IsSame r q × (q.parent ≡ new_parent rows root r))
        × ((x : Row)
            → Elem x (nodes t)
            → x.library == library ≡ true
            → (r : Row) × Elem r rows × IsSame r x × (x.parent ≡ new_parent rows root r))
  unfolding repair_parent_references
  repair_parent_references_lem now library root s t b keys h =
      let (rows, q, h₁) = >>=-eq-ok (select (in_library library) [] s) _ h in
      let list = select_rows (in_library library) [] s rows q in
      let e = repair_loop_rows now library root rows rows false b s t h₁ in
      let g = repair_all now library root rows rows in
      let only = λ (r : Row) (m : Elem r (nodes s)) (y : Row) (n : Elem y rows) (k : y.id ≡ r.id).
        keys y r ((list y).0 n).0 m k in
      let parent = λ (r : Row) (m : Elem r (nodes s)) (l : r.library == library ≡ true).
        becomes_new now library root rows rows r r refl (ground arith) (only r m) (inl refl)
          ((list r).1 (m, l)) in
      (
        rows,
        list,
        λ r m l. (
          g r,
          rw e (Elem-map g r (nodes s) m),
          repair_all-IsSame now library root rows rows r,
          parent r m l,
        ),
        λ x m l.
            let (r, n, k) = Elem-of_map g x (nodes s) (rw e at m) in
            let same = repair_all-IsSame now library root rows rows r in
            let l' : r.library == library ≡ true =
              ap (λ j. j == library) (sym same.library ∙ ap (λ z. z.library) (sym k)) ∙ l in
            (r, (list r).1 (n, l'), rw k same, ap (λ z. z.parent) k ∙ parent r n l'),
      )

  -- A repair that returns: a row of the library with the key of the root has no parent; every other
  -- one has for its parent the root or a directory of the library, which is live below a live row, and
  -- never itself. The root's key is positive and the keys are primary.
  pub repair_parent_references-IsSound :
      (now library root : ℕ) (s t : Session) (b : Bool)
      → HasKeys (nodes s)
      → 0 < root
      → repair_parent_references d now library root s ≡ ok (b, t)
      → (x : Row) → Elem x (nodes t)
      → x.library == library ≡ true
      → IsSound (nodes t) root x (parent_id_value x.parent)
  repair_parent_references-IsSound now library root s t b keys pos h x m l =
      let (rows, list, image, source) =
        repair_parent_references_lem now library root s t b keys h in
      let (r, n, same, p) = source x m l in
      let value : parent_id_value x.parent ≡ target_parent rows root r =
        ap parent_id_value p ∙ new_parent-value rows root r in
      let (at_root, below) = target_parent-IsSound rows root r pos in
      (
        λ e. value ∙ at_root (sym same.id ∙ e),
        λ out.
            let (self, up) = below (λ e. out (same.id ∙ e)) in
            (
              λ e. self (sym value ∙ e ∙ same.id),
              elim up [
                | inl e ↦ inl (value ∙ e)
                | inr (q, mq, eq, dir, live) ↦
                    let (k, lk) = (list q).0 mq in
                    let (z, mz, samez, _) = image q k lk in
                    inr (
                      z,
                      mz,
                      samez.id ∙ eq ∙ sym value,
                      samez.node_type ∙ dir,
                      λ alive.
                          ap is_none samez.deleted ∙ live (ap is_none (sym same.deleted) ∙ alive),
                    )
              ],
            ),
      )

  root_or_new_lem :
      (now library : ℕ) (call : Result Row) (s t : Session) (root : Row)
      → find_library_root_node d library s ≡ call
      → HasKeys (nodes s)
      → ((r : Row) → Elem r (nodes s) → 0 < r.id)
      → root_or_new d now library call s ≡ ok (root, t)
      → HasKeys (nodes t)
        × (0 < root.id)
        × Elem root (nodes t)
        × (is_live root && root.library == library && root.node_type == 0 ≡ true)
  unfolding root_or_new find_library_root_node
  root_or_new_lem now library (ok r) s t root q keys pos h =
      let a : r ≡ root = ground arith in
      let b : s ≡ t = ground arith in
      let (rs, found, k) = >>=-eq-ok (select (is_root library) (asc (λ x. x.id) ∷ []) s) _ q in
      let (m, l) = (select_rows (is_root library) _ s rs found r).0 (head rs k) in
      rw (← a, ← b) (keys, pos r m, m, ground arith)
    where
      head : (rs : List Row) → first rs ≡ ok r → Elem r rs
      head [] e = absurd (unfold first in ground arith)
      head (x ∷ xs) e = inl (unfold first in ground arith)
  root_or_new_lem now library (err e) s t root q keys pos h = elim (Bool-cases (is_not_found e)) [
    | inr b ↦ absurd (ground arith)
    | inl b ↦
        let (shape, key, elements, kept) = insert_rows _ root s t (then_branch _ _ _ b ∙ h) in
        (
          kept keys,
          key,
          (elements root).1 (inl refl),
          ap (λ r. is_live r && r.library == library && r.node_type == 0) shape ∙ ground arith,
        )
  ]

  -- An EnsureLibraryRootNodeID that returns gives the key of a live directory of the library that has
  -- no parent, and leaves for every other row of the library a parent as the repair asks it. The keys
  -- are positive and primary.
  pub ensure_library_root_node_id-IsSound :
      (now library root : ℕ) (s u : Session)
      → HasKeys (nodes s)
      → ((r : Row) → Elem r (nodes s) → 0 < r.id)
      → ensure_library_root_node_id d now library s ≡ ok (root, u)
      → ((q : Row) × Elem q (nodes u)
          × (q.id ≡ root)
          × (is_live q && q.library == library && q.node_type == 0 ≡ true)
          × (parent_id_value q.parent ≡ 0))
        × ((x : Row)
            → Elem x (nodes u)
            → x.library == library ≡ true
            → IsSound (nodes u) root x (parent_id_value x.parent))
  unfolding ensure_library_root_node_id
  ensure_library_root_node_id-IsSound now library root s u keys pos h =
      let ((r, t), a, h₁) =
        >>=-eq-ok (root_or_new d now library (find_library_root_node d library s) s) _ h in
      let ((b, v), c, h₂) = >>=-eq-ok (repair_parent_references d now library r.id t) _ h₁ in
      let (keys', pos', m, l) =
        root_or_new_lem now library (find_library_root_node d library s) s t r refl keys pos a in
      let e : r.id ≡ root = ground arith in
      let e' : v ≡ u = ground arith in
      let (rows, list, image, source) =
        repair_parent_references_lem now library r.id t v b keys' c in
      let (q, mq, same, p) = image r m (ground arith) in
      let l' : is_live q && q.library == library && q.node_type == 0 ≡ true = kept r q same l in
      let sound = repair_parent_references-IsSound now library r.id t v b keys' pos' c in
      rw (← e, ← e') ((q, mq, same.id, l', (sound q mq (ground arith)).0 same.id), sound)
    where
      kept :
          (r q : Row)
          → IsSame r q
          → is_live r && r.library == library && r.node_type == 0 ≡ true
          → is_live q && q.library == library && q.node_type == 0 ≡ true
      kept r q same l = rw (same.deleted, same.library, same.node_type) l
