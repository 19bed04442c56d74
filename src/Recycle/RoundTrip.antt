-- ===== src/Recycle/RoundTrip.antt =====
-- DeleteTree and then RestoreTree, of the same node.
use omniflow_go.Prelude.{
  ℕ, ◌≡◌, refl, ap, inl, inr, Bool, true, Option, none, some, List, Elem, Bool-cases, arith,
}
use omniflow_go.Result.{Result, ok, >>=-eq-ok}
use omniflow_go.Store.{Row, is_none, is_live, Sub, Database}
use omniflow_go.Move.Forest.{in_tree}
use omniflow_go.Delete.{DeleteNodeTreeResult, delete_row, delete_tree}
use omniflow_go.Delete.Subtree.{Below, delete_tree-subtree}
use omniflow_go.Recycle.{restore_row, find_node_model_including_deleted, restore_tree}
use omniflow_go.Recycle.Restore.{BelowAny, find_any_lem, restore_deleted_lem}

restored_again :
    (now later : ℕ) (r : Row)
    → is_live r ≡ true
    → restore_row later (delete_row now r) ≡ record r { updated_at = later }
restored_again now later r live =
    ap (λ x. record r { deleted_at = x; updated_at = later }) (none_lem r.deleted_at live)
  where
    none_lem : (x : Option ℕ) → is_none x ≡ true → none ≡ x
    none_lem none h = refl
    none_lem (some a) h = cc

module _ (d : Database) where
  open d use {Session, nodes}

  module _ (files objects : ℕ → List ℕ → Session → Result (List ℕ)) where
    -- A row that was in the live subtree is in the subtree that RestoreTree reads.
    Below-BelowAny :
        (now node library : ℕ) (s t : Session)
        → ((r : Row)
            → Elem r (nodes s)
            → in_tree library r ≡ true
            → Below d files objects node library s r.id
            → Elem (delete_row now r) (nodes t))
        → {i : ℕ} → Below d files objects node library s i
        → BelowAny d node library t i
    Below-BelowAny now node library s t gone (Sub.seeded r m h e) =
        Sub.seeded (delete_row now r) (gone r m (ground arith) (Sub.seeded r m h refl))
          (ground arith) e
    Below-BelowAny now node library s t gone (Sub.joined r w m h p e) =
        Sub.joined (delete_row now r) (Below-BelowAny now node library s t gone w)
          (gone r m h (Sub.joined r w m h p refl)) (ground arith) p e

    -- A RestoreTree that returns, on what a DeleteTree of the same node has left: every live row of
    -- the library in the subtree is back with all its columns but `updated_at`, which is the time of
    -- the restoring, and every other live row of the library is as it was before the deletion.
    pub delete_tree-restore_tree :
        (now later node library : ℕ) (s t u : Session) (c : DeleteNodeTreeResult) (b : Bool)
        → delete_tree d files objects now node library s ≡ ok (c, t)
        → restore_tree d later node library t ≡ ok (b, u)
        → (r : Row) → Elem r (nodes s)
        → in_tree library r ≡ true
        → (Below d files objects node library s r.id
            → Elem (record r { updated_at = later }) (nodes u))
          × (¬ Below d files objects node library s r.id → Elem r (nodes u))
    unfolding restore_tree
    delete_tree-restore_tree now later node library s t u c b h h' r m live =
        let (kept, left) = delete_tree-subtree d files objects now node library s t c h in
        let gone =
          λ (q : Row) (n : Elem q (nodes s)) (l : in_tree library q ≡ true). (kept q n l).0 in
        let (x, found, h₁) = >>=-eq-ok (find_node_model_including_deleted d node library t) _ h' in
        let (mx, kx) = find_any_lem d node library t x found in
        elim (Bool-cases (is_live x)) [
          | inl alive ↦
              let (old, out) = left x mx (ground arith) in
              absurd (out (Sub.seeded x old (ground arith) refl))
          | inr dead ↦
              let k = restore_deleted_lem d later node library t u b (rw dead at h₁) in
              (
                λ w.
                    let back : Elem (restore_row later (delete_row now r)) (nodes u) =
                      k.restored (delete_row now r) (gone r m live w) (ground arith)
                        (Below-BelowAny now node library s t gone w) refl in
                    rw (restored_again now later r (ground arith)) at back,
                λ out. k.live_kept r ((kept r m live).1 out) (ground arith),
              )
        ]
