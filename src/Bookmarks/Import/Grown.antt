-- ===== src/Bookmarks/Import/Grown.antt =====
-- What an import adds.
use omniflow_go.Prelude.{
  then_branch, else_branch, ℕ, suc, ◌+◌, ◌%◌, ◌≡◌, refl, sym, ap, ◌∙◌, ◌⊎◌, inl, inr, true, ◌||◌,
  not, Option, none, some, List, [], ◌∷◌, ◌++◌, ◌==◌, if◌then◌else◌, Elem, arith, Bool-cases,
  length, length-append, append-nil, append_assoc,
}
use omniflow_go.Text.{eqb}
use omniflow_go.Result.{ok, ◌>>=◌, >>=-eq-ok, guard-eq-ok}
use omniflow_go.Bookmarks.{Bookmark, Table, is_owned, kind_folder, to_pg_int64_ptr}
use omniflow_go.Bookmarks.Cycle.Climb.{Hangs, IsTree}
use omniflow_go.Bookmarks.Move.{map_conflict, next_sort_order}
use omniflow_go.Bookmarks.Move.Rows.{on_error-ok}
use omniflow_go.Bookmarks.Move.New.{Elem-append, Elem-last, Elem-of_append, Hangs-append}
use omniflow_go.Bookmarks.Normal.{
  Urls, ImportFields, ImportItems, no_items, item, is_no_items, normalize_fields,
  normalize_import_browser_bookmark_items,
}
use omniflow_go.Bookmarks.Import.{create_item, import_loop, import_bookmarks}

-- How many items there are, the children counted.
abbrev pub count_items : ImportItems → ℕ
count_items no_items = 0
count_items (item f children rest) = suc (count_items children + count_items rest)

-- Only folders have children.
abbrev pub IsNormal : ImportItems → Type 0
IsNormal no_items = Unit
IsNormal (item f children rest) =
    (is_no_items children || eqb f.kind kind_folder ≡ true) × IsNormal children × IsNormal rest

normalize_items-IsNormal :
    (u : Urls) (items out : ImportItems)
    → normalize_import_browser_bookmark_items u items ≡ ok out
    → IsNormal out × (count_items out ≡ count_items items) × (is_no_items out ≡ is_no_items items)
unfolding normalize_import_browser_bookmark_items
normalize_items-IsNormal u no_items out h =
    let e : no_items ≡ out = ground arith in rw (← e) (tt, refl, refl)
normalize_items-IsNormal u (item f children rest) out h =
    let (fields, _, h₁) = >>=-eq-ok (normalize_fields u f) _ h in
    let (folder, h₂) = guard-eq-ok (is_no_items children || eqb fields.kind kind_folder) _ _ h₁ in
    let (below, b, h₃) = >>=-eq-ok (normalize_import_browser_bookmark_items u children) _ h₂ in
    let (more, c, h₄) = >>=-eq-ok (normalize_import_browser_bookmark_items u rest) _ h₃ in
    let e : item fields below more ≡ out = ground arith in
    let (nb, cb, eb) = normalize_items-IsNormal u children below b in
    let (nm, cm, em) = normalize_items-IsNormal u rest more c in
    rw (← e) ((rw eb folder, nb, nm), omega (arith, cb, cm), refl)

no_items_count : (items : ImportItems) → is_no_items items ≡ true → count_items items ≡ 0
no_items_count no_items h = refl
no_items_count (item f children rest) h = absurd (ground arith)

module _ (d : Table) where
  open d use {Session, rows, insert, insert_rows}

  -- The rows grow at their end by so many, and stay a tree.
  pub record Grows (owner n : ℕ) (s t : Session) : Type 0 where
    pub added : List Bookmark
    pub joined : rows t ≡ rows s ++ added
    pub count : length added ≡ n
    pub tree : IsTree owner (rows t)

  Grows-none : (owner : ℕ) (s t : Session) → s ≡ t → IsTree owner (rows s) → Grows owner 0 s t
  Grows-none owner s t e tree =
      rw (← e) (record { added = []; joined = append-nil (rows s); count = refl; tree = tree })

  Grows-same :
      (owner m n : ℕ) (s t v : Session) → m ≡ n → t ≡ v → Grows owner m s t → Grows owner n s v
  Grows-same owner m n s t v a b g = rw (← a, ← b) g

  Grows-trans :
      (owner m n : ℕ) (s t v : Session)
      → Grows owner m s t
      → Grows owner n t v
      → Grows owner (m + n) s v
  Grows-trans owner m n s t v a b = record {
    added = a.added ++ b.added;
    joined = b.joined ∙ ap (λ l. l ++ b.added) a.joined ∙ append_assoc (rows s) a.added b.added;
    count = omega (arith, length-append a.added b.added, a.count, b.count);
    tree = b.tree;
  }

  -- A parent that new rows may have: nil, or a folder of the owner.
  abbrev IsParent : ℕ → Option ℕ → Session → Type 0
  IsParent owner parent s =
      (parent ≡ none)
      ⊎ ((q : Bookmark) × Elem q (rows s)
          × (is_owned owner q ≡ true)
          × (parent ≡ some q.id)
          × (eqb q.kind kind_folder ≡ true))

  Grows-IsParent :
      (owner n : ℕ) (parent : Option ℕ) (s t : Session)
      → Grows owner n s t
      → IsParent owner parent s
      → IsParent owner parent t
  Grows-IsParent owner n parent s t g (inl e) = inl e
  Grows-IsParent owner n parent s t g (inr (q, m, o, e, k)) =
      inr (q, rw g.joined (Elem-append q (rows s) g.added m), o, e, k)

  create_item-Grows :
      (now owner order : ℕ) (parent : Option ℕ) (f : ImportFields) (s t : Session) (row : Bookmark)
      → IsTree owner (rows s)
      → IsParent owner parent s
      → create_item d now owner parent order f s ≡ ok (row, t)
      → Grows owner 1 s t × Elem row (rows t) × (is_owned owner row ≡ true) × (row.kind ≡ f.kind)
  unfolding create_item
  create_item-Grows now owner order parent f s t row tree up h =
      let (e, there, _) = insert_rows _ row s t (on_error-ok map_conflict _ (row, t) h) in
      let mine : is_owned owner row ≡ true = ap (is_owned owner) e ∙ ground arith in
      let here : row.parent ≡ to_pg_int64_ptr parent = ap (λ r. r.parent) e in
      let last : Elem row (rows s ++ (row ∷ [])) = Elem-last row (rows s) in
      let hangs : Hangs owner (rows s ++ (row ∷ [])) row = place up here mine last in
      (
        record {
          added = row ∷ [];
          joined = there;
          count = refl;
          tree = rw there (λ x m o. elim (Elem-of_append x row (rows s) m) [
            | inl old ↦ Hangs-append owner (rows s) (row ∷ []) x (tree x old o)
            | inr new ↦ rw new hangs
          ]);
        },
        rw there last,
        mine,
        ap (λ r. r.kind) e,
      )
    where
      place :
          IsParent owner parent s
          → row.parent ≡ to_pg_int64_ptr parent
          → is_owned owner row ≡ true
          → Elem row (rows s ++ (row ∷ []))
          → Hangs owner (rows s ++ (row ∷ [])) row
      place (inl e) here mine last =
          Hangs.top row last mine (here ∙ ap to_pg_int64_ptr e ∙ unfold to_pg_int64_ptr in refl)
      place (inr (q, m, o, e, k)) here mine last = elim (Bool-cases (q.id == 0)) [
        | inl b ↦
            Hangs.top row last mine
              (here ∙ ap to_pg_int64_ptr e ∙ unfold to_pg_int64_ptr in rw b refl)
        | inr b ↦
            Hangs.under row q (Hangs-append owner (rows s) (row ∷ []) q (tree q m o)) last mine
              (here ∙ ap to_pg_int64_ptr e ∙ unfold to_pg_int64_ptr in rw b refl) k
      ]

  import_loop-Grows :
      (now owner order n : ℕ) (parent : Option ℕ) (items : ImportItems) (s t : Session)
      → IsNormal items
      → IsTree owner (rows s)
      → IsParent owner parent s
      → import_loop d now owner parent order items s ≡ ok (n, t)
      → Grows owner n s t × (n ≡ count_items items)
  unfolding import_loop
  import_loop-Grows now owner order n parent no_items s t normal tree up h =
      let a : 0 ≡ n = ground arith in
      let b : s ≡ t = ground arith in rw (← a) (Grows-none owner s t b tree, refl)
  import_loop-Grows now owner order n parent (item f children rest) s t (folder, below, more) tree
        up h =
      let ((row, u), a, h₁) = >>=-eq-ok (create_item d now owner parent order f s) _ h in
      let (grown, m, mine, kind) = create_item-Grows now owner order parent f s u row tree up a in
      let ((i, v), b, h₂) =
        >>=-eq-ok
          (if is_no_items children
            then ok (0, u)
            else (next_sort_order d owner (some row.id) u >>= λ start.
                import_loop d now owner (some row.id) start children u))
          _ h₁ in
      let ((j, w), c, h₃) =
        >>=-eq-ok (import_loop d now owner parent ((order + 1000) % 4294967296) rest v) _ h₂ in
      let under_row : Grows owner i u v × (i ≡ count_items children) =
        elim (Bool-cases (is_no_items children)) [
          | inl leaf ↦
              let b' = then_branch (is_no_items children) _ _ leaf ∙ b in
              let a' : 0 ≡ i = ground arith in
              let e : u ≡ v = ground arith in
              (
                Grows-same owner 0 i u v v a' refl (Grows-none owner u v e grown.tree),
                sym a' ∙ sym (no_items_count children leaf),
              )
          | inr inner ↦
              let (start, _, k) =
                >>=-eq-ok (next_sort_order d owner (some row.id) u)
                  (λ x. import_loop d now owner (some row.id) x children u)
                  (else_branch (is_no_items children) _ _ inner ∙ b) in
              let folder' : eqb f.kind kind_folder ≡ true = ground arith in
              import_loop-Grows now owner start i (some row.id) children u v below grown.tree
                (inr (row, m, mine, refl, rw kind folder')) k
        ] in
      let (grown', count) = under_row in
      let here = Grows-trans owner 1 i s u v grown grown' in
      let (grown'', count') =
        import_loop-Grows now owner ((order + 1000) % 4294967296) j parent rest v w more grown'.tree
          (Grows-IsParent owner (1 + i) parent s v here up) c in
      let e : w ≡ t = ground arith in
      let total : 1 + i + j ≡ n = ground arith in
      (
        Grows-same owner (1 + i + j) n s w t total e
            (Grows-trans owner (1 + i) j s v w here grown''),
        omega (arith, total, count, count'),
      )

  -- An Import that returns a number has added as many rows behind the others as there are items with
  -- their children, leaves the rows that were there as they were, and
  -- leaves the bookmarks of the owner a tree of folders, if they were one.
  pub import_bookmarks-Grows :
      (u : Urls) (now owner n : ℕ) (items : ImportItems) (s t : Session)
      → IsTree owner (rows s)
      → import_bookmarks d u now owner items s ≡ ok (n, t)
      → Grows owner n s t × (n ≡ count_items items)
  unfolding import_bookmarks
  import_bookmarks-Grows u now owner n items s t tree h =
      let (out, a, h₁) = >>=-eq-ok (normalize_import_browser_bookmark_items u items) _ h in
      let (_, h₂) = guard-eq-ok (not (is_no_items out)) _ _ h₁ in
      let (order, _, k) = >>=-eq-ok (next_sort_order d owner none s) _ h₂ in
      let (normal, same, _) = normalize_items-IsNormal u items out a in
      let (grown, count) =
        import_loop-Grows now owner order n none out s t normal tree (inl refl) k in
      (grown, count ∙ same)
