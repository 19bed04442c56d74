-- ===== src/Rename/Renamed.antt =====
-- What Rename (internal/usecase/node.go) does to the table.
use omniflow_go.Prelude.{
  ℕ, ◌≡◌, ◌≢◌, refl, sym, ap, ◌∙◌, Bool, true, false, ◌&&◌, ◌||◌, not, Option, none, some, List,
  map, arith, ◌==◌, if◌then◌else◌, Elem, Elem-map, Elem-of_map, subst,
}
use omniflow_go.Text.{Text, is_empty, trim_space, trim_dot}
use omniflow_go.Result.{Result, ok, ok_injective, >>=-eq-ok, guard-eq-ok}
use omniflow_go.Names.{is_file, node_type_code, domain_type_code, build_visible_name}
use omniflow_go.Store.{Row, is_live, Database, has_key, parent_id_value, find_node_model}
use omniflow_go.Store.Laws.{find_node_model_lem}
use omniflow_go.Move.{deref_string, is_sibling, sql_visible_name, has_duplicate_visible_name}
use omniflow_go.Move.Visible.{is_file_code, visible_trimmed}
use omniflow_go.Move.Forest.{in_tree, Rooted, IsForest}
use omniflow_go.Create.Reads.{false_of_not, no_duplicate}
use omniflow_go.Create.Whole.{with_create_error-ok}
use omniflow_go.Rename.{
  ext_updates, next_ext, rename_row, wanted_ext, update_node_fields, rename_node, rename,
}

abbrev pub is_node : ℕ → ℕ → Row → Bool
is_node library node r = is_live r && r.id == node && r.library == library

-- The live row with the key has the new name, and the extension if there is one to be written; no
-- other row is changed, no live sibling has as its stored name and extension the new visible name,
-- less the blanks around it, and so none shows the name that the row then shows, where there is
-- nothing around the new name and the extension to cut off; and a forest stays one.
pub record IsRenamed (library node : ℕ) (name : Text) (ext : Option Text) (now : ℕ)
    (before after : List Row) : Type 0 where
  pub old : Row
  pub found : Elem old before × (is_node library node old ≡ true)
  pub rows :
      after
      ≡ map
          (λ r. if is_node library node r then rename_row name (ext_updates old ext) now r else r)
          before
  pub free :
      (q : Row)
      → Elem q before
      → is_sibling library (parent_id_value old.parent) q ≡ true
      → q.id ≢ node
      → sql_visible_name q
        ≢ build_visible_name name
            (next_ext old (ext_updates old ext))
            (node_type_code (domain_type_code old.node_type))
  pub distinct :
      trim_space name ≡ name
      → trim_dot (trim_space (next_ext old (ext_updates old ext)))
        ≡ next_ext old (ext_updates old ext)
      → (q : Row) → Elem q before
      → is_sibling library (parent_id_value old.parent) q ≡ true
      → q.id ≢ node
      → sql_visible_name q ≢ sql_visible_name (rename_row name (ext_updates old ext) now old)
  pub forest : IsForest library before → IsForest library after

-- The columns that a row shows its name by, once it is renamed.
renamed_columns :
    (name : Text) (ext : Option (Option Text)) (now : ℕ) (old : Row)
    → ((rename_row name ext now old).name ≡ name)
      × (deref_string (rename_row name ext now old).ext ≡ next_ext old ext)
      × ((rename_row name ext now old).node_type ≡ old.node_type)
unfolding rename_row
renamed_columns name none now old = (refl, refl, refl)
renamed_columns name (some ext) now old = (refl, refl, refl)

module _ (library : ℕ) (f : Row → Row)
    (same : (r : Row)
      → ((f r).id ≡ r.id) × (in_tree library (f r) ≡ in_tree library r) × ((f r).parent ≡ r.parent))
    (rows : List Row) where
  Rooted-map : {i : ℕ} → Rooted library rows i → Rooted library (map f rows) i
  Rooted-map (Rooted.root r m t e g) =
      let (i, l, p) = same r in Rooted.root (f r) (Elem-map f r rows m) (l ∙ t) (p ∙ e) (i ∙ g)
  Rooted-map (Rooted.child r w m t e g) =
      let (i, l, p) = same r in
      Rooted.child (f r) (Rooted-map w) (Elem-map f r rows m) (l ∙ t) (p ∙ e) (i ∙ g)

  -- What keeps keys, parents and the live rows keeps a forest.
  IsForest-map : IsForest library rows → IsForest library (map f rows)
  IsForest-map forest x m t =
      let (r, n, e) = Elem-of_map f x rows m in
      let (i, l, _) = same r in
      subst (Rooted library (map f rows)) (sym i ∙ ap (λ (y : Row). y.id) (sym e))
        (Rooted-map (forest r n (sym l ∙ ap (in_tree library) (sym e) ∙ t)))

rename_row_parts :
    (library : ℕ) (name : Text) (ext : Option (Option Text)) (now : ℕ) (b : Bool) (r : Row)
    → let x = if b then rename_row name ext now r else r in
      (x.id ≡ r.id) × (in_tree library x ≡ in_tree library r) × (x.parent ≡ r.parent)
unfolding rename_row
rename_row_parts library name ext now false r = (refl, refl, refl)
rename_row_parts library name none now true r = (refl, refl, refl)
rename_row_parts library name (some e) now true r = (refl, refl, refl)

not_excluded : (a b : ℕ) → a ≢ b → (b == 0 || not (a == b)) ≡ true
not_excluded a b h = ground arith

key_node :
    (node library : ℕ) (r : Row) → has_key node library r ≡ true → is_node library node r ≡ true
unfolding has_key
key_node node library r h = h

module _ (d : Database) where
  open d use {Session, nodes, update, update_rows}

  rename_node-IsRenamed :
      (node library : ℕ) (name : Text) (ext : Option Text) (now : ℕ) (s t : Session)
      → rename_node d node library name ext now s ≡ ok t
      → IsRenamed library node name ext now (nodes s) (nodes t)
  unfolding rename_node update_node_fields
  rename_node-IsRenamed node library name ext now s t h =
      let (old, e, h₁) = >>=-eq-ok (find_node_model d node library s) _ h in
      let (m, key) = find_node_model_lem d node library s old e in
      let write = rename_row name (ext_updates old ext) now in
      let (duplicate, e', h₂) =
        >>=-eq-ok
          (has_duplicate_visible_name d name (next_ext old (ext_updates old ext))
            (domain_type_code old.node_type) (parent_id_value old.parent) library node s)
          _ h₁ in
      let (b, h₃) = guard-eq-ok (not duplicate) _ _ h₂ in
      let ((updated, v), f, h₄) = >>=-eq-ok (update_node_fields d node library write s) _ h₃ in
      let ((n, w), put, g) = >>=-eq-ok (update (is_node library node) write s) _ f in
      let (_, h₅) = guard-eq-ok updated _ _ h₄ in
      let same : w ≡ t = ap (λ x. x.1) (ok_injective g) ∙ ok_injective h₅ in
      let rows = ap nodes (sym same) ∙ (update_rows (is_node library node) write s w n put).0 in
      let free : (q : Row)
          → Elem q (nodes s)
          → is_sibling library (parent_id_value old.parent) q ≡ true
          → q.id ≢ node
          → sql_visible_name q
            ≢ build_visible_name name (next_ext old (ext_updates old ext))
                (node_type_code (domain_type_code old.node_type)) =
        λ q k c other.
          no_duplicate d name (next_ext old (ext_updates old ext)) (domain_type_code old.node_type)
            (parent_id_value old.parent) library node s (e' ∙ ap ok (false_of_not duplicate b)) q k
            c (not_excluded q.id node other) in
      record {
        old = old;
        found = (m, key_node node library old key);
        rows = rows;
        free = free;
        distinct = λ a z q k c other same_name.
            let (i, j, l) = renamed_columns name (ext_updates old ext) now old in
            free q k c other (
              same_name
              ∙ visible_trimmed (write old) name (next_ext old (ext_updates old ext))
                  (node_type_code (domain_type_code old.node_type)) i j
                  (ap (λ t. t == 1) l ∙ is_file_code old.node_type) a z);
        forest = λ forest. subst (IsForest library) (sym rows) (
            IsForest-map library (λ r. if is_node library node r then write r else r)
              (λ r.
                rename_row_parts library name (ext_updates old ext) now (is_node library node r) r)
              (nodes s) forest);
      }

  -- A Rename that returns has written the name, and the normalised extension where the node is a
  -- file and one is given, into the live row of the node, and nothing else; no other live
  -- sibling has as its stored name and extension the visible name that is made of the new ones with the
  -- blanks around them cut off, so that its visible name differs from theirs where there is nothing
  -- to cut off; and a forest stays one.
  pub rename-IsRenamed :
      (authorize : ℕ → Result (Unit {0})) (view : Row) (name : Text) (ext : Option Text) (now : ℕ)
      (s t : Session)
      → rename d authorize view name ext now s ≡ ok t
      → (wanted : Option Text) × (wanted_ext (is_file (domain_type_code view.node_type)) ext
          ≡ ok wanted)
        × IsRenamed view.library view.id name wanted now (nodes s) (nodes t)
  unfolding rename
  rename-IsRenamed authorize view name ext now s t h =
      let (_, h₁) = guard-eq-ok (not (view.id == 0 || is_empty (trim_space name))) _ _ h in
      let (_, _, h₂) = >>=-eq-ok (authorize view.library) _ h₁ in
      let (wanted, e, h₃) =
        >>=-eq-ok (wanted_ext (is_file (domain_type_code view.node_type)) ext) _ h₂ in
      (
        wanted,
        e,
        rename_node-IsRenamed view.id view.library name wanted now s t
            (with_create_error-ok (rename_node d view.id view.library name wanted now s) t h₃),
      )
