-- ===== src/Delete/Subtree.antt =====
-- What DeleteTree deletes and what it leaves.
use omniflow_go.Prelude.{
  ℕ, ◌≡◌, inl, inr, ◌↔◌, Bool, true, false, ◌&&◌, List, [], ◌∷◌, ◌==◌, if◌then◌else◌, arith, Elem,
  Bool-cases, length,
}
use omniflow_go.Result.{Result, ok, >>=-eq-ok}
use omniflow_go.Store.{Row, is_live, Sub, Database}
use omniflow_go.Store.Laws.{update_image, update_source}
use omniflow_go.Move.Forest.{in_tree, is_node, Rooted, IsForest}
use omniflow_go.Delete.{
  DeleteNodeTreeResult, in_ids, delete_row, list_descendant_ids, count_file_nodes_with_storage_key,
  delete_some, delete_tree,
}

pub in_ids-Elem : (ids : List ℕ) (i : ℕ) → (in_ids ids i ≡ true) ↔ Elem i ids
in_ids-Elem [] i = (λ h. cc, λ m. absurd m)
in_ids-Elem (j ∷ js) i = let (to, from) = in_ids-Elem js i in (λ h. ground arith, λ m. ground arith)

module _ (d : Database) where
  open d use {Session, nodes, select_sub, select_sub_rows, update}

  -- `ids` are deleted, and nothing else is changed.
  record IsDeleted (now library : ℕ) (ids : List ℕ) (s t : Session) : Type 0 where
    image :
        (r : Row)
        → Elem r (nodes s)
        → Elem
            (if is_live r && r.library == library && in_ids ids r.id then delete_row now r else r)
            (nodes t)
    source :
        (x : Row)
        → Elem x (nodes t)
        → (r : Row) × Elem r (nodes s)
          × (x ≡ (
              if is_live r && r.library == library && in_ids ids r.id then delete_row now r else r))

  module _ (files objects : ℕ → List ℕ → Session → Result (List ℕ)) where
    delete_some-IsDeleted :
        (now library : ℕ) (ids : List ℕ) (s t : Session) (c : DeleteNodeTreeResult)
        → delete_some d files objects now library ids s ≡ ok (c, t)
        → IsDeleted now library ids s t × (c.deleted_node_count ≡ length ids)
    unfolding delete_some
    delete_some-IsDeleted now library [] s t c h =
        let e : s ≡ t = ground arith in
        rw (← e) (
          record { image = λ r m. ground arith; source = λ x m. (x, m, ground arith) },
          ground arith,
        )
    delete_some-IsDeleted now library (i ∷ is) s t c h =
        let p : Row → Bool = λ r. is_live r && r.library == library && in_ids (i ∷ is) r.id in
        let (k, _, h₁) =
          >>=-eq-ok (count_file_nodes_with_storage_key d files objects library (i ∷ is) s) _ h in
        let ((n, u), q, h₂) =
          >>=-eq-ok
            (update (λ r. is_live r && r.library == library && in_ids (i ∷ is) r.id)
              (delete_row now) s)
            _ h₁ in
        let e : u ≡ t = ground arith in
        rw (← e) (
          record {
            image = λ r m. update_image d _ (delete_row now) s u n r q m;
            source = λ x m. update_source d _ (delete_row now) s u n x q m;
          },
          ground arith,
        )

    abbrev pub Below : ℕ → ℕ → Session → ℕ → Type 0
    Below node library s i = Sub (nodes s) (is_node library node) (in_tree library) i

    -- The keys that DeleteTree has read are those of the subtree.
    delete_tree_ids :
        (now node library : ℕ) (s t : Session) (c : DeleteNodeTreeResult)
        → delete_tree d files objects now node library s ≡ ok (c, t)
        → (ids : List ℕ) × ((i : ℕ) → (in_ids ids i ≡ true) ↔ Below node library s i)
          × IsDeleted now library ids s t
          × (c.deleted_node_count ≡ length ids)
    unfolding delete_tree list_descendant_ids
    delete_tree_ids now node library s t c h =
        let (ids, q, h₁) = >>=-eq-ok (select_sub (is_node library node) (in_tree library) s) _ h in
        let (gone, count) = delete_some-IsDeleted now library ids s t c h₁ in
        (
          ids,
          λ i.
              let (to, from) = in_ids-Elem ids i in
              let (below, listed) = select_sub_rows _ _ s ids q i in
              (λ b. below (to b), λ u. from (listed u)),
          gone,
          count,
        )

    not_in :
        (ids : List ℕ) (i : ℕ) {P : Type 0} → (in_ids ids i ≡ true → P) → ¬ P → in_ids ids i ≡ false
    not_in ids i f out = elim (Bool-cases (in_ids ids i)) [ inl b ↦ absurd (out (f b)) | inr b ↦ b ]

    -- A DeleteTree that returns: every live row of the library in the subtree of the node is marked as
    -- deleted now, every other one is as before, and every row that is left live and of the library
    -- was there and stands outside the subtree.
    pub delete_tree-subtree :
        (now node library : ℕ) (s t : Session) (c : DeleteNodeTreeResult)
        → delete_tree d files objects now node library s ≡ ok (c, t)
        → ((r : Row)
            → Elem r (nodes s)
            → in_tree library r ≡ true
            → (Below node library s r.id → Elem (delete_row now r) (nodes t))
              × (¬ Below node library s r.id → Elem r (nodes t)))
          × ((x : Row)
              → Elem x (nodes t)
              → in_tree library x ≡ true
              → Elem x (nodes s) × ¬ Below node library s x.id)
    delete_tree-subtree now node library s t c h =
        let (ids, same, gone, _) = delete_tree_ids now node library s t c h in
        (
          λ r m live. (
            λ u.
                let b : is_live r && r.library == library && in_ids ids r.id ≡ true =
                  ground (arith, (same r.id).1 u) in
                rw b at (gone.image r m),
            λ out.
                let b : is_live r && r.library == library && in_ids ids r.id ≡ false =
                  ground (arith, not_in ids r.id (same r.id).0 out) in
                rw b at (gone.image r m),
          ),
          λ x m live.
              let (r, k, e) = gone.source x m in
              elim (Bool-cases (is_live r && r.library == library && in_ids ids r.id)) [
                | inl b ↦ let e' : x ≡ delete_row now r = rw b at e in absurd (ground arith)
                | inr b ↦
                    let e' : x ≡ r = rw b at e in
                    (rw e' k, λ u. ground (arith, (same x.id).1 u, rw e' at live))
              ],
        )

    outside_Rooted :
        (node library : ℕ) (s t : Session)
        → ((r : Row)
            → Elem r (nodes s)
            → in_tree library r ≡ true
            → ¬ Below node library s r.id
            → Elem r (nodes t))
        → {i : ℕ} → Rooted library (nodes s) i
        → ¬ Below node library s i
        → Rooted library (nodes t) i
    outside_Rooted node library s t stays (Rooted.root r m live p e) out =
        Rooted.root r (stays r m live (λ u. out (rw e at u))) live p e
    outside_Rooted node library s t stays (Rooted.child r w m live p e) out =
        Rooted.child r
          (outside_Rooted node library s t stays w (λ u. out (Sub.joined r u m live p e)))
          (stays r m live (λ u. out (rw e at u))) live p e

    -- A DeleteTree that returns leaves the live rows of the library a forest, if they were one: none of
    -- them hangs on a row that is gone.
    pub delete_tree-IsForest :
        (now node library : ℕ) (s t : Session) (c : DeleteNodeTreeResult)
        → IsForest library (nodes s)
        → delete_tree d files objects now node library s ≡ ok (c, t)
        → IsForest library (nodes t)
    delete_tree-IsForest now node library s t c forest h x m live =
        let (kept, left) = delete_tree-subtree now node library s t c h in
        let (k, out) = left x m live in
        outside_Rooted node library s t (λ r n l. (kept r n l).1) (forest x k live) out
