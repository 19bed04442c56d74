-- ===== src/Create/Node.antt =====
-- What CreateNode (internal/repository/postgres/impl/node/node_write.go) does to the table.
use omniflow_go.Prelude.{
  ℕ, ◌+◌, ◌≤◌, ◌<◌, ◌≡◌, ◌≢◌, ◌↔◌, refl, sym, ap, ◌∙◌, ◌⊎◌, inl, inr, true, ◌&&◌, not, List, arith,
  ◌==◌, Elem, subst,
}
use omniflow_go.Text.{is_empty, trim_space, trim_dot}
use omniflow_go.Result.{ok, ok_injective, >>=-eq-ok, guard-eq-ok}
use omniflow_go.Names.{is_file, node_type_code, build_visible_name}
use omniflow_go.Store.{Row, HasKeys, Database, has_parent, normalize_pg_parent_id}
use omniflow_go.Move.{
  deref_string, is_sibling, sql_visible_name, max_sort_order, move_max_int32,
  has_duplicate_visible_name,
}
use omniflow_go.Move.Visible.{visible_trimmed}
use omniflow_go.Move.Forest.{in_tree, Rooted, IsForest}
use omniflow_go.Create.{
  CreateNodeInput, Outside, is_negative, persisted_ext, new_row, find_view_by_id, check_directory,
  bind_if_stored, create_node,
}
use omniflow_go.Create.Reads.{
  false_of_not, HasPlace, max_sort_order_lem, no_duplicate, find_view_by_id_lem,
  bind_if_stored_nodes, check_directory_lem,
}

-- The table behind a creation has one more row, with the columns of the input and an order above
-- those of all its siblings, none of which has as its stored name and extension the visible name of
-- the input, less the blanks around it, and so none shows the name that the row shows, where there is
-- nothing around the name and the extension to cut off; a forest stays one.
pub record IsCreated (input : CreateNodeInput) (now : ℕ) (before after : List Row) (r : Row)
    : Type 0 where
  pub keys : HasKeys after
  pub rows : (x : Row) → Elem x after ↔ ((x ≡ r) ⊎ Elem x before)
  pub fresh : ¬ Elem r before
  pub columns : r ≡ record (new_row input now r.sort_order) { id = r.id }
  pub last :
      (q : Row)
      → Elem q before
      → is_sibling input.library input.parent q ≡ true
      → q.sort_order < r.sort_order
  pub free :
      (q : Row)
      → Elem q before
      → is_sibling input.library input.parent q ≡ true
      → sql_visible_name q
        ≢ build_visible_name input.name
            (deref_string (persisted_ext input))
            (node_type_code input.type)
  pub distinct :
      trim_space input.name ≡ input.name
      → trim_dot (trim_space (deref_string (persisted_ext input)))
        ≡ deref_string (persisted_ext input)
      → (q : Row) → Elem q before
      → is_sibling input.library input.parent q ≡ true
      → sql_visible_name q ≢ sql_visible_name r
  pub forest : IsForest input.library before → IsForest input.library after

-- The row as a view of it is read, once the other tables are written.
viewed :
    (input : CreateNodeInput) (now : ℕ) (before after later : List Row) (x view : Row)
    → IsCreated input now before after x
    → later ≡ after
    → Elem view later
    → view.id ≡ x.id
    → IsCreated input now before later view
viewed input now before after later x view created same m i =
    let at_x : x ≡ view =
      created.keys x view ((created.rows x).1 (inl refl)) (subst (Elem view) same m) (sym i) in
    subst (λ rows. IsCreated input now before rows view) (sym same)
      (subst (IsCreated input now before after) at_x created)

-- A key of the tree keeps its way to a root where rows are added.
Rooted-more :
    (library : ℕ) (before after : List Row)
    → ((x : Row) → Elem x before → Elem x after)
    → {i : ℕ} → Rooted library before i
    → Rooted library after i
Rooted-more library before after h (Rooted.root r m t e f) = Rooted.root r (h r m) t e f
Rooted-more library before after h (Rooted.child r w m t e f) =
    Rooted.child r (Rooted-more library before after h w) (h r m) t e f

module _ (d : Database) (o : Outside d) where
  open d use {Session, nodes, insert, insert_rows}

  module _ (input : CreateNodeInput) (now top : ℕ) (s t : Session) (x : Row)
      (keys : HasKeys (nodes s))
      (put : insert (new_row input now (o.to_int32 (top + 15))) s ≡ ok (x, t))
      (room : top + 15 ≤ move_max_int32) where
    columns_of : x ≡ record (new_row input now (top + 15)) { id = x.id }
    columns_of =
        (insert_rows _ x s t put).0
        ∙ ap (λ n. record (new_row input now n) { id = x.id }) (o.to_int32_same (top + 15) room)

    order_of : x.sort_order ≡ top + 15
    order_of = ap (λ (r : Row). r.sort_order) columns_of

    sibling_of : is_sibling input.library input.parent x ≡ true
    unfolding is_sibling has_parent normalize_pg_parent_id
    sibling_of = rw columns_of (ground arith)

    in_tree_of : in_tree input.library x ≡ true
    in_tree_of = rw columns_of (ground arith)

    inserted-IsForest :
        HasPlace input (nodes s)
        → IsForest input.library (nodes s)
        → IsForest input.library (nodes t)
    inserted-IsForest parent forest r m c =
        let (_, _, rows, _) = insert_rows _ x s t put in
        let more : (y : Row) → Elem y (nodes s) → Elem y (nodes t) = λ y n. (rows y).1 (inr n) in
        elim ((rows r).0 m) [
          | inr n ↦ Rooted-more input.library (nodes s) (nodes t) more (forest r n c)
          | inl e ↦
              subst (λ (y : Row). Rooted input.library (nodes t) y.id) (sym e) (hangs parent more)
        ]
      where
        hangs :
            HasPlace input (nodes s)
            → ((y : Row) → Elem y (nodes s) → Elem y (nodes t))
            → Rooted input.library (nodes t) x.id
        hangs (inl e) more =
            Rooted.root x (((insert_rows _ x s t put).2 x).1 (inl refl)) in_tree_of
              (ap (λ (r : Row). r.parent) columns_of ∙ e) refl
        hangs (inr (p, n, c, e)) more =
            Rooted.child x (Rooted-more input.library (nodes s) (nodes t) more (forest p n c))
              (((insert_rows _ x s t put).2 x).1 (inl refl)) in_tree_of
              (ap (λ (r : Row). r.parent) columns_of ∙ e) refl

    inserted-IsCreated :
        HasPlace input (nodes s)
        → ((q : Row)
            → Elem q (nodes s)
            → is_sibling input.library input.parent q ≡ true
            → q.sort_order ≤ top)
        → ((q : Row)
            → Elem q (nodes s)
            → is_sibling input.library input.parent q ≡ true
            → sql_visible_name q
              ≢ build_visible_name input.name
                  (deref_string (persisted_ext input))
                  (node_type_code input.type))
        → IsCreated input now (nodes s) (nodes t) x
    inserted-IsCreated parent most free =
        let (_, _, rows, keep) = insert_rows _ x s t put in
        record {
          keys = keep keys;
          rows = rows;
          fresh = λ m. let z = most x m sibling_of in omega (arith, z, order_of);
          columns =
              columns_of ∙ ap (λ n. record (new_row input now n) { id = x.id }) (sym order_of);
          last = λ q m c. let z = most q m c in omega (arith, z, order_of);
          free = free;
          distinct = λ a z q m c same. free q m c (
              same
              ∙ visible_trimmed x input.name (deref_string (persisted_ext input))
                  (node_type_code input.type) (ap (λ r. r.name) columns_of)
                  (ap (λ r. deref_string r.ext) columns_of) (ap (λ r. r.node_type == 1) columns_of)
                  a z);
          forest = inserted-IsForest parent;
        }

  pub create_node-IsCreated :
      (input : CreateNodeInput) (now : ℕ) (s u : Session) (r : Row)
      → HasKeys (nodes s)
      → ((q : Row)
          → Elem q (nodes s)
          → is_sibling input.library input.parent q ≡ true
          → q.sort_order + 15 ≤ move_max_int32)
      → create_node d o input now s ≡ ok (r, u)
      → IsCreated input now (nodes s) (nodes u) r
  unfolding create_node
  create_node-IsCreated input now s u r keys room h =
      let (_, h₁) = guard-eq-ok (not (is_empty (trim_space input.name))) _ _ h in
      let (_, parent, h₂) = >>=-eq-ok (check_directory d o input s) _ h₁ in
      let (top, e, h₃) = >>=-eq-ok (max_sort_order d input.library input.parent s) _ h₂ in
      let (_, h₄) = guard-eq-ok (not (is_file input.type && is_negative input.file_size)) _ _ h₃ in
      let (duplicate, e', h₅) =
        >>=-eq-ok
          (has_duplicate_visible_name d input.name (deref_string (persisted_ext input)) input.type
            input.parent input.library 0 s)
          _ h₄ in
      let (b, h₆) = guard-eq-ok (not duplicate) _ _ h₅ in
      let ((x, t), put, h₇) =
        >>=-eq-ok (insert (new_row input now (o.to_int32 (top + 15))) s) _ h₆ in
      let (v, k, h₈) = >>=-eq-ok (bind_if_stored d o input x t) _ h₇ in
      let (view, f, h₉) = >>=-eq-ok (find_view_by_id d o x.id input.library v) _ h₈ in
      let (most, reached) = max_sort_order_lem d input.library input.parent top s e in
      let created =
        inserted-IsCreated input now top s t x keys put
          (elim reached [
            | inl z ↦ omega (arith, z)
            | inr (q, m, c, z) ↦ let l = room q m c in omega (arith, z, l)
          ])
          (check_directory_lem d o input s parent) most
          (λ q m c.
            no_duplicate d input.name (deref_string (persisted_ext input)) input.type input.parent
              input.library 0 s (e' ∙ ap ok (false_of_not duplicate b)) q m c refl) in
      let same = bind_if_stored_nodes d o input x t v k in
      let (m, i, _) = find_view_by_id_lem d o x.id input.library v view f in
      subst (λ (p : Row × Session). IsCreated input now (nodes s) (nodes p.1) p.0) (ok_injective h₉)
        (viewed input now (nodes s) (nodes t) (nodes v) x view created same m i)
