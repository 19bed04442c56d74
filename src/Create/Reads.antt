-- ===== src/Create/Reads.antt =====
-- What the queries of CreateNode (internal/repository/postgres/impl/node/node_write.go) and of the
-- views (node_query.go) say of the table.
use omniflow_go.Prelude.{
  ℕ, ◌≤◌, ◌<◌, ◌≡◌, ◌≢◌, ◌↔◌, refl, sym, ap, ◌∙◌, ◌⊎◌, inl, inr, Bool, true, false, ◌&&◌, ◌||◌, not,
  none, some, List, [], ◌∷◌, arith, ◌==◌, ltb, All_elem, Elem, Bool-cases, subst, then_branch,
  else_branch,
}
use omniflow_go.Text.{Text, eqb}
use omniflow_go.Text.Laws.{eqb_refl}
use omniflow_go.Result.{ok, ok_injective, >>=-eq-ok}
use omniflow_go.Names.{NodeType, node_type_code, build_visible_name}
use omniflow_go.Store.{
  Row, asc, desc, count, is_live, Database, IsOrdered, first, has_key, normalize_pg_parent_id,
  find_node_model,
}
use omniflow_go.Store.Laws.{find_node_model_lem}
use omniflow_go.Move.{
  is_sibling, is_duplicate, sql_visible_name, top_order, max_sort_order, has_duplicate_visible_name,
}
use omniflow_go.Move.Forest.{in_tree}
use omniflow_go.Delete.{in_ids}
use omniflow_go.Create.{
  CreateNodeInput, Outside, binds_storage, load_nodes, find_view_by_id, check_directory,
  bind_if_stored,
}

pub false_of_not : (b : Bool) → not b ≡ true → b ≡ false
false_of_not b h = ground arith

-- The parent is NULL, or a live row of the library.
abbrev pub HasPlace : CreateNodeInput → List Row → Type 0
HasPlace input rows =
    (normalize_pg_parent_id input.parent ≡ none)
    ⊎ ((p : Row) × Elem p rows
        × (in_tree input.library p ≡ true)
        × (normalize_pg_parent_id input.parent ≡ some p.id))

counted : (p : Row → Bool) (q : Row) (rows : List Row) → Elem q rows → p q ≡ true → 0 < count p rows
counted p q (r ∷ rows) (inl e) b = let b' : p r ≡ true = ap p (sym e) ∙ b in ground arith
counted p q (r ∷ rows) (inr m) b = omega (arith, counted p q rows m b)
counted p q [] m b = elim m [ ]

key_id : (id library : ℕ) (r : Row) → has_key id library r ≡ true → r.id ≡ id
unfolding has_key
key_id id library r h = ground arith

key_tree : (id library : ℕ) (r : Row) → has_key id library r ≡ true → in_tree library r ≡ true
unfolding has_key
key_tree id library r h = ground arith

module _ (d : Database) where
  open d use {Session, nodes, select, select_count, select_rows, select_ordered, select_count_rows}

  -- The highest order is that of a sibling, or 0, and no sibling's is higher.
  pub max_sort_order_lem :
      (library parent top : ℕ) (s : Session)
      → max_sort_order d library parent s ≡ ok top
      → ((q : Row) → Elem q (nodes s) → is_sibling library parent q ≡ true → q.sort_order ≤ top)
        × ((top ≡ 0)
            ⊎ ((q : Row) × Elem q (nodes s)
                × (is_sibling library parent q ≡ true)
                × (q.sort_order ≡ top)))
  unfolding max_sort_order top_order
  max_sort_order_lem library parent top s h =
      let (rs, e, k) = >>=-eq-ok (select (is_sibling library parent) _ s) _ h in
      top_of rs (select_rows _ _ s rs e) (select_ordered _ _ s rs e) (ok_injective k)
    where
      top_of :
          (rs : List Row)
          → ((r : Row) → Elem r rs ↔ (Elem r (nodes s) × (is_sibling library parent r ≡ true)))
          → IsOrdered (desc (λ r. r.sort_order) ∷ asc (λ r. r.id) ∷ []) rs
          → top_order rs ≡ top
          → ((q : Row) → Elem q (nodes s) → is_sibling library parent q ≡ true → q.sort_order ≤ top)
            × ((top ≡ 0)
                ⊎ ((q : Row) × Elem q (nodes s)
                    × (is_sibling library parent q ≡ true)
                    × (q.sort_order ≡ top)))
      top_of [] among ordered e = ((λ q m c. absurd ((among q).1 (m, c))), inl (sym e))
      top_of (r ∷ rs) among (first, ordered) e =
          let (m, c) = (among r).0 (inl refl) in
          (λ q n b. omega (arith, e, highest q ((among q).1 (n, b))), inr (r, m, c, e))
        where
          highest : (q : Row) → Elem q (r ∷ rs) → q.sort_order ≤ r.sort_order
          highest q (inl same) = let z = ap (λ x. x.sort_order) same in omega (arith, z)
          highest q (inr n) = let z = All_elem _ q rs first n in ground arith

  -- Where no duplicate is found, no sibling but the excluded one shows the name.
  pub no_duplicate :
      (name ext : Text) (type : NodeType) (parent library exclude : ℕ) (s : Session)
      → has_duplicate_visible_name d name ext type parent library exclude s ≡ ok false
      → (q : Row) → Elem q (nodes s)
      → is_sibling library parent q ≡ true
      → (exclude == 0 || not (q.id == exclude)) ≡ true
      → sql_visible_name q ≢ build_visible_name name ext (node_type_code type)
  unfolding has_duplicate_visible_name is_duplicate
  no_duplicate name ext type parent library exclude s h q m c out e =
      let visible = build_visible_name name ext (node_type_code type) in
      let (n, k, z) =
        >>=-eq-ok (select_count (is_duplicate visible parent library exclude) s) _ h in
      let n' = select_count_rows _ s n k in
      let same : eqb (sql_visible_name q) visible ≡ true =
        subst (λ v. eqb (sql_visible_name q) v ≡ true) e (eqb_refl (sql_visible_name q)) in
      let some_row =
        counted (is_duplicate visible parent library exclude) q (nodes s) m
          (rw (c, same, out) refl) in
      let none_row = ok_injective z in ground arith

module _ (d : Database) (o : Outside d) where
  open d use {Session, nodes, select, select_rows, insert, insert_rows}

  load_one_lem :
      (id library : ℕ) (s : Session) (rows : List Row)
      → load_nodes d o library (id ∷ []) s ≡ ok rows
      → (r : Row) → Elem r rows
      → Elem r (nodes s) × (is_live r && r.library == library && in_ids (id ∷ []) r.id ≡ true)
  unfolding load_nodes
  load_one_lem id library s rows h r m =
      let (rs, e, h₁) =
        >>=-eq-ok (select (λ r. is_live r && r.library == library && in_ids (id ∷ []) r.id) [] s) _
          h in
      let (_, _, h₂) = >>=-eq-ok (o.load_files library rs s) _ h₁ in
      (select_rows _ _ s rs e r).0 (subst (Elem r) (sym (ok_injective h₂)) m)

  first_lem : (rows : List Row) (r : Row) → first rows ≡ ok r → Elem r rows
  unfolding first
  first_lem [] r h = cc
  first_lem (x ∷ xs) r h = inl (sym (ok_injective h))

  is_one :
      (id library : ℕ) (r : Row)
      → (is_live r && r.library == library && in_ids (id ∷ []) r.id) ≡ true
      → (r.id ≡ id) × (is_live r && r.library == library ≡ true)
  is_one id library r h = (ground arith, ground arith)

  -- A view that is found is the row with its key.
  pub find_view_by_id_lem :
      (id library : ℕ) (s : Session) (r : Row)
      → find_view_by_id d o id library s ≡ ok r
      → Elem r (nodes s) × (r.id ≡ id) × (in_tree library r ≡ true)
  unfolding find_view_by_id has_key
  find_view_by_id_lem id library s r h =
      let (row, e, h₁) = >>=-eq-ok (find_node_model d id library s) _ h in
      let (rows, k, h₂) = >>=-eq-ok (load_nodes d o library (row.id ∷ []) s) _ h₁ in
      let (m, b) = load_one_lem row.id library s rows k r (first_lem rows r h₂) in
      let (same, live) = is_one row.id library r b in
      let key = (find_node_model_lem d id library s row e).1 in
      (m, same ∙ key_id id library row key, live)

  pub bind_if_stored_nodes :
      (input : CreateNodeInput) (r : Row) (s t : Session)
      → bind_if_stored d o input r s ≡ ok t
      → nodes t ≡ nodes s
  unfolding bind_if_stored
  bind_if_stored_nodes input r s t h = elim (Bool-cases (binds_storage input)) [
    | inl b ↦ o.bind_nodes input r s t (then_branch (binds_storage input) _ _ b ∙ h)
    | inr b ↦ ap nodes (sym (ok_injective (else_branch (binds_storage input) _ _ b ∙ h)))
  ]

  -- The parent is NULL, or a live directory of the library.
  pub check_directory_lem :
      (input : CreateNodeInput) (s : Session)
      → check_directory d o input s ≡ ok tt
      → HasPlace input (nodes s)
  unfolding check_directory normalize_pg_parent_id has_key
  check_directory_lem input s h = elim (Bool-cases (ltb 0 input.parent)) [
    | inl b ↦
        let h' = then_branch (ltb 0 input.parent) _ _ b ∙ h in
        let (p, e, _) = >>=-eq-ok (find_node_model d input.parent input.library s) _ h' in
        let (m, key) = find_node_model_lem d input.parent input.library s p e in
        inr (
          p,
          m,
          key_tree input.parent input.library p key,
          parent_key input p b (key_id input.parent input.library p key),
        )
    | inr b ↦ inl (ground arith)
  ]
    where
      parent_key :
          (input : CreateNodeInput) (p : Row)
          → ltb 0 input.parent ≡ true
          → p.id ≡ input.parent
          → normalize_pg_parent_id input.parent ≡ some p.id
      parent_key input p b e = rw e (ground arith)
