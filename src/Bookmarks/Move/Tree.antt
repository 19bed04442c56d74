-- ===== src/Bookmarks/Move/Tree.antt =====
-- A Move keeps the bookmarks of an owner a tree.
use omniflow_go.Prelude.{
  ℕ, ◌≡◌, sym, ap, ◌∙◌, ◌⊎◌, inl, inr, true, false, Option, none, some, List, map, ◌==◌, Elem,
  Elem-map, Elem-of_map, arith, Bool-cases,
}
use omniflow_go.Text.{eqb}
use omniflow_go.Bookmarks.{Bookmark, SortOrder, is_owned, kind_folder, to_pg_int64_ptr}
use omniflow_go.Bookmarks.Cycle.Climb.{Hangs, IsTree, HasBookmarkKeys, Avoids}
use omniflow_go.Bookmarks.Move.Rows.{renumber, set_parent, renumber-Keeps, Keeps-owned}

-- The row `id` of the owner gets the parent `to`, and every row stays what it is otherwise.
pub record IsMoved (id owner : ℕ) (to : Option ℕ) (g : Bookmark → Bookmark) : Type 0 where
  same : (r : Bookmark) → (g r).id ≡ r.id
  kind : (r : Bookmark) → (g r).kind ≡ r.kind
  owned : (r : Bookmark) → is_owned owner (g r) ≡ is_owned owner r
  moved : (r : Bookmark) → is_owned owner r ≡ true → r.id ≡ id → (g r).parent ≡ to
  kept : (r : Bookmark) → ¬ (r.id ≡ id) → (g r).parent ≡ r.parent

pub set_parent-IsMoved :
    (now id owner : ℕ) (parent : Option ℕ) (os : List SortOrder)
    → IsMoved id owner
        (to_pg_int64_ptr parent)
        (λ r. renumber now owner os (set_parent now id owner parent r))
set_parent-IsMoved now id owner parent os =
    let p = set_parent now id owner parent in
    let k = λ (r : Bookmark). renumber-Keeps now owner os (p r) in
    record {
      same = λ r. (k r).id ∙ ground arith;
      kind = λ r. (k r).kind ∙ ground arith;
      owned = λ r. Keeps-owned owner (p r) (renumber now owner os (p r)) (k r) ∙ ground arith;
      moved = λ r o e. (k r).parent ∙ ground arith;
      kept = λ r n. (k r).parent ∙ ground (arith, n);
    }

module _ (owner id : ℕ) (to : Option ℕ) (rows : List Bookmark) (g : Bookmark → Bookmark)
    (w : IsMoved id owner to g) where
  stays_top :
      (r : Bookmark)
      → Elem r rows
      → is_owned owner r ≡ true
      → (g r).parent ≡ none
      → Hangs owner (map g rows) (g r)
  stays_top r m o e = Hangs.top (g r) (Elem-map g r rows m) (w.owned r ∙ o) e

  stays_under :
      (r p : Bookmark)
      → Hangs owner (map g rows) (g p)
      → Elem r rows
      → is_owned owner r ≡ true
      → (g r).parent ≡ some p.id
      → eqb p.kind kind_folder ≡ true
      → Hangs owner (map g rows) (g r)
  stays_under r p u m o e k =
      Hangs.under (g r) (g p) u (Elem-map g r rows m) (w.owned r ∙ o) (e ∙ ap some (sym (w.same p)))
        (ap (λ t. eqb t kind_folder) (w.kind p) ∙ k)

  Avoids-Hangs : (r : Bookmark) → Avoids id owner rows r → Hangs owner (map g rows) (g r)
  Avoids-Hangs r (Avoids.top q m o e n) = stays_top q m o (w.kept q n ∙ e)
  Avoids-Hangs r (Avoids.under q p u m o e k n) =
      stays_under q p (Avoids-Hangs p u) m o (w.kept q n ∙ e) k

  -- What the new parent must be.
  abbrev Target : Type 0
  Target =
      (to ≡ none)
      ⊎ ((p : Bookmark) × (to ≡ some p.id)
          × Avoids id owner rows p
          × (eqb p.kind kind_folder ≡ true))

  moved_Hangs :
      Target
      → (r : Bookmark) → Elem r rows
      → is_owned owner r ≡ true
      → r.id ≡ id
      → Hangs owner (map g rows) (g r)
  moved_Hangs (inl e) r m o here = stays_top r m o (w.moved r o here ∙ e)
  moved_Hangs (inr (p, e, u, k)) r m o here =
      stays_under r p (Avoids-Hangs p u) m o (w.moved r o here ∙ e) k

  all_Hangs : Target → (r : Bookmark) → Hangs owner rows r → Hangs owner (map g rows) (g r)
  all_Hangs t r (Hangs.top q m o e) = elim (Bool-cases (q.id == id)) [
    | inl b ↦ moved_Hangs t q m o (ground arith)
    | inr b ↦ stays_top q m o (w.kept q (λ x. ground arith) ∙ e)
  ]
  all_Hangs t r (Hangs.under q p u m o e k) =
      let up = all_Hangs t p u in
      elim (Bool-cases (q.id == id)) [
        | inl b ↦ moved_Hangs t q m o (ground arith)
        | inr b ↦ stays_under q p up m o (w.kept q (λ x. ground arith) ∙ e) k
      ]

  pub moved-IsTree : Target → IsTree owner rows → IsTree owner (map g rows)
  moved-IsTree t tree x m o =
      let (r, n, e) = Elem-of_map g x rows m in
      rw e (all_Hangs t r (tree r n (sym (w.owned r) ∙ ap (is_owned owner) (sym e) ∙ o)))

-- A row that is no folder is above nothing.
pub leaf_Avoids :
    (owner : ℕ) (rows : List Bookmark) (c p : Bookmark)
    → HasBookmarkKeys rows
    → Elem c rows
    → eqb c.kind kind_folder ≡ false
    → Hangs owner rows p
    → eqb p.kind kind_folder ≡ true
    → Avoids c.id owner rows p
leaf_Avoids owner rows c p keys mc leaf (Hangs.top q m o e) folder =
    Avoids.top q m o e (λ same. ground (arith, ap (λ b. b.kind) (keys.0 q c m mc same)))
leaf_Avoids owner rows c p keys mc leaf (Hangs.under q x u m o e k) folder =
    Avoids.under q x (leaf_Avoids owner rows c x keys mc leaf u k) m o e k
      (λ same. ground (arith, ap (λ b. b.kind) (keys.0 q c m mc same)))
