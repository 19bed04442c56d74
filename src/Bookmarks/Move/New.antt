-- ===== src/Bookmarks/Move/New.antt =====
-- Where Create puts a new bookmark.
use omniflow_go.Prelude.{
  ℕ, ◌+◌, ◌%◌, ◌<◌, ◌≡◌, refl, sym, ap, ◌∙◌, ◌⊎◌, inl, inr, true, ◌&&◌, Option, none, some, List,
  [], ◌∷◌, ◌++◌, ◌==◌, Elem, arith, Bool-cases,
}
use omniflow_go.Result.{ok, >>=-eq-ok}
use omniflow_go.Store.{opt_eqb}
use omniflow_go.Bookmarks.{Bookmark, Table, is_owned, is_child, to_pg_int64_ptr}
use omniflow_go.Bookmarks.Cycle.{ensure_folder, ensure_parent_folder}
use omniflow_go.Bookmarks.Cycle.Climb.{Hangs, IsTree}
use omniflow_go.Bookmarks.Move.{
  NewBookmark, after_max, next_sort_order, create_bookmark, map_conflict,
}
use omniflow_go.Bookmarks.Move.Rows.{on_error-ok}
use omniflow_go.Bookmarks.Move.Target.{ensure_folder_lem}

pub Elem-append : (x : Bookmark) (xs ys : List Bookmark) → Elem x xs → Elem x (xs ++ ys)
Elem-append x (y ∷ ys) zs (inl e) = inl e
Elem-append x (y ∷ ys) zs (inr m) = inr (Elem-append x ys zs m)
Elem-append x [] zs m = absurd m

pub Elem-last : (x : Bookmark) (xs : List Bookmark) → Elem x (xs ++ (x ∷ []))
Elem-last x [] = inl refl
Elem-last x (y ∷ ys) = inr (Elem-last x ys)

pub Elem-of_append :
    (x r : Bookmark) (xs : List Bookmark) → Elem x (xs ++ (r ∷ [])) → Elem x xs ⊎ (x ≡ r)
Elem-of_append x r [] (inl e) = inr e
Elem-of_append x r [] (inr m) = absurd m
Elem-of_append x r (y ∷ ys) (inl e) = inl (inl e)
Elem-of_append x r (y ∷ ys) (inr m) = elim (Elem-of_append x r ys m) [
  | inl n ↦ inl (inr n)
  | inr e ↦ inr e
]

pub Hangs-append :
    (owner : ℕ) (xs ys : List Bookmark) (r : Bookmark) → Hangs owner xs r → Hangs owner (xs ++ ys) r
Hangs-append owner xs ys r (Hangs.top q m o e) = Hangs.top q (Elem-append q xs ys m) o e
Hangs-append owner xs ys r (Hangs.under q p u m o e k) =
    Hangs.under q p (Hangs-append owner xs ys p u) (Elem-append q xs ys m) o e k

opt_eqb_refl : (a : Option ℕ) → opt_eqb a a ≡ true
opt_eqb_refl none = refl
opt_eqb_refl (some p) = ground arith

module _ (d : Table) where
  open d use {Session, rows, select_max, select_max_rows, select_max_row, insert, insert_rows}

  -- What a Create that returns has read and written.
  create_bookmark_lem :
      (now owner : ℕ) (input : NewBookmark) (s t : Session) (row : Bookmark)
      → create_bookmark d now owner input s ≡ ok (row, t)
      → (order : ℕ) × (ensure_parent_folder d owner input.parent s ≡ ok tt)
        × (next_sort_order d owner input.parent s ≡ ok order)
        × (rows t ≡ rows s ++ (row ∷ []))
        × (is_owned owner row ≡ true)
        × (row.parent ≡ to_pg_int64_ptr input.parent)
        × (row.sort_order ≡ order)
  unfolding create_bookmark
  create_bookmark_lem now owner input s t row h =
      let (tt, f, h₁) = >>=-eq-ok (ensure_parent_folder d owner input.parent s) _ h in
      let (order, n, h₂) = >>=-eq-ok (next_sort_order d owner input.parent s) _ h₁ in
      let (e, there, _) = insert_rows _ row s t (on_error-ok map_conflict _ (row, t) h₂) in
      (
        order,
        f,
        n,
        there,
        ap (is_owned owner) e ∙ ground arith,
        ap (λ r. r.parent) e,
        ap (λ r. r.sort_order) e,
      )

  -- A Create that returns leaves the bookmarks of the owner a tree of folders, if they were one.
  pub create_bookmark-IsTree :
      (now owner : ℕ) (input : NewBookmark) (s t : Session) (row : Bookmark)
      → IsTree owner (rows s)
      → create_bookmark d now owner input s ≡ ok (row, t)
      → IsTree owner (rows t)
  create_bookmark-IsTree now owner input s t row tree h =
      let (order, f, _, e, o, p, _) = create_bookmark_lem now owner input s t row h in
      rw e (λ x m mine. elim (Elem-of_append x row (rows s) m) [
        | inl old ↦ Hangs-append owner (rows s) (row ∷ []) x (tree x old mine)
        | inr new ↦ rw new (hangs input.parent f p o)
      ])
    where
      hangs :
          (parent : Option ℕ)
          → ensure_parent_folder d owner parent s ≡ ok tt
          → row.parent ≡ to_pg_int64_ptr parent
          → is_owned owner row ≡ true
          → Hangs owner (rows s ++ (row ∷ [])) row
      hangs none f p o = Hangs.top row (Elem-last row (rows s)) o (unfold to_pg_int64_ptr in p)
      hangs (some j) f p o = elim (Bool-cases (j == 0)) [
        | inl b ↦ Hangs.top row (Elem-last row (rows s)) o (p ∙ unfold to_pg_int64_ptr in rw b refl)
        | inr b ↦
            let f' : ensure_folder d owner j s ≡ ok tt = unfold ensure_parent_folder in rw b at f in
            let (q, m, oq, same, k) = ensure_folder_lem d owner j s f' in
            Hangs.under row q (Hangs-append owner (rows s) (row ∷ []) q (tree q m oq))
              (Elem-last row (rows s)) o (p ∙ unfold to_pg_int64_ptr in rw b (ap some (sym same))) k
      ]

  -- A Create that returns puts the new bookmark behind all bookmarks with the same parent, where no
  -- order in the table is so large that the next one overflows. The parent is nil or not 0.
  pub create_bookmark_last :
      (now owner : ℕ) (input : NewBookmark) (s t : Session) (row : Bookmark)
      → ¬ (input.parent ≡ some 0)
      → ((r : Bookmark) → Elem r (rows s) → r.sort_order + 1000 < 4294967296)
      → create_bookmark d now owner input s ≡ ok (row, t)
      → (r : Bookmark) → Elem r (rows s)
      → is_owned owner r ≡ true
      → r.parent ≡ row.parent
      → r.sort_order < row.sort_order
  unfolding next_sort_order
  create_bookmark_last now owner input s t row some_key room h r m o e =
      let (order, _, n, _, _, p, same) = create_bookmark_lem now owner input s t row h in
      let (found, q, k) =
        >>=-eq-ok (select_max (λ x. is_owned owner x && is_child input.parent x) s)
          (λ x. ok (after_max x)) n in
      let here : r.parent ≡ input.parent = e ∙ p ∙ kept input.parent some_key in
      let child : is_owned owner r && is_child input.parent r ≡ true =
        rw (o, here) (opt_eqb_refl input.parent) in
      let (top, is_top, below) = select_max_rows _ s found q r m child in
      let (highest, mh, _, eh) = select_max_row _ s top (rw is_top at q) in
      let bound = room highest mh in
      let value : after_max (some top) ≡ order =
        rw is_top at (result_eq (after_max found) order k) in
      let next : (top + 1000) % 4294967296 ≡ order = unfold after_max in value in
      omega (arith, same, eh, bound, next, below)
    where
      kept : (parent : Option ℕ) → ¬ (parent ≡ some 0) → to_pg_int64_ptr parent ≡ parent
      kept none c = unfold to_pg_int64_ptr in refl
      kept (some j) c = elim (Bool-cases (j == 0)) [
        | inl b ↦ absurd (c (ap some (ground arith)))
        | inr b ↦ unfold to_pg_int64_ptr in rw b refl
      ]

      result_eq : (a b : ℕ) → ok a ≡ ok b → a ≡ b
      result_eq a b h' = ground arith
