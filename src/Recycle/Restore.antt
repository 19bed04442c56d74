-- ===== src/Recycle/Restore.antt =====
-- A restored subtree hangs on the live tree.
use omniflow_go.Prelude.{
  ℕ, ◌<◌, ◌≡◌, refl, ap, ◌⊎◌, inl, inr, ◌↔◌, Bool, true, false, ◌&&◌, not, some, List, [], ◌∷◌,
  ◌==◌, arith, Elem, Bool-cases, Option-cases, is_nil,
}
use omniflow_go.Result.{Error, Result, ok, err, guard, >>=-eq-ok, guard-eq-ok}
use omniflow_go.Store.{Row, asc, is_live, Sub, Database, first, parent_id_value}
use omniflow_go.Store.Laws.{update_image, update_source}
use omniflow_go.Move.Forest.{in_tree, Rooted, IsForest}
use omniflow_go.Delete.{in_ids}
use omniflow_go.Delete.Subtree.{in_ids-Elem}
use omniflow_go.Recycle.{
  ids_of, has_id, in_library, restore_row, parent_error, with_error,
  find_node_model_including_deleted, list_descendant_ids_any, list_nodes_including_deleted_by_ids,
  check_parent, check_name, check_rows, restore_deleted, restore_tree,
}

-- The key of a listed row is that of a row.
ids_of_lem :
    (rows : List Row) (i : ℕ) → in_ids (ids_of rows) i ≡ true → (r : Row) × Elem r rows × (r.id ≡ i)
ids_of_lem [] i h = absurd (ground arith)
ids_of_lem (r ∷ rs) i h = elim (Bool-cases (i == r.id)) [
  | inl b ↦ (r, inl refl, ground arith)
  | inr b ↦ let (q, m, e) = ids_of_lem rs i (ground arith) in (q, inr m, e)
]

with_error-ok :
    {A : Type 0} (f : Error → Error) (call : Result A) (a : A)
    → with_error f call ≡ ok a
    → call ≡ ok a
with_error-ok f (ok b) a h = h
with_error-ok f (err e) a h = cc

module _ (d : Database) where
  open d use {Session, nodes, select, select_rows, select_sub, select_sub_rows, update}

  abbrev pub BelowAny : ℕ → ℕ → Session → ℕ → Type 0
  BelowAny node library s i = Sub (nodes s) (has_id node library) (in_library library) i

  pub find_any_lem :
      (id library : ℕ) (s : Session) (r : Row)
      → find_node_model_including_deleted d id library s ≡ ok r
      → Elem r (nodes s) × (has_id id library r ≡ true)
  unfolding find_node_model_including_deleted
  find_any_lem id library s r h =
      let (rs, q, e) = >>=-eq-ok (select (has_id id library) (asc (λ r. r.id) ∷ []) s) _ h in
      head rs e (λ m. (select_rows _ _ s rs q r).0 m)
    where
      head :
          (rs : List Row)
          → first rs ≡ ok r
          → (Elem r rs → Elem r (nodes s) × (has_id id library r ≡ true))
          → Elem r (nodes s) × (has_id id library r ≡ true)
      head [] e k = cc
      head (x ∷ xs) e k = k (inl (ground arith))

  listed_lem :
      (library : ℕ) (ids : List ℕ) (s : Session) (rows : List Row) (r : Row)
      → list_nodes_including_deleted_by_ids d library ids s ≡ ok rows
      → Elem r rows ↔ (Elem r (nodes s) × (r.library == library && in_ids ids r.id ≡ true))
  unfolding list_nodes_including_deleted_by_ids
  listed_lem library [] s rows r h =
      let e : [] ≡ rows = ground arith in rw (← e) (λ m. absurd m, λ (m, b). absurd (ground arith))
  listed_lem library (i ∷ is) s rows r h = select_rows _ _ s rows h r

  -- A parent that passed its test is restored along, or live.
  check_parent_lem :
      (library : ℕ) (set : List ℕ) (parent : ℕ) (s : Session)
      → check_parent d library set parent s ≡ ok tt
      → 0 < parent
      → (in_ids set parent ≡ true)
        ⊎ ((r : Row) × Elem r (nodes s) × (in_tree library r ≡ true) × (r.id ≡ parent))
  unfolding check_parent
  check_parent_lem library set parent s h pos = elim (Bool-cases (in_ids set parent)) [
    | inl b ↦ inl b
    | inr b ↦
        let call = with_error parent_error (find_node_model_including_deleted d parent library s) in
        let (r, q, h₁) =
          >>=-eq-ok call (λ row. guard (is_live row) Error.repository_invalid_state)
            (ground arith) in
        let (m, k) = find_any_lem parent library s r (with_error-ok parent_error _ r q) in
        inr (r, m, ground arith, ground arith)
  ]

  check_rows_lem :
      (library : ℕ) (set : List ℕ) (rows : List Row) (s : Session) (r : Row)
      → check_rows d library set rows s ≡ ok tt
      → Elem r rows
      → is_live r ≡ false
      → check_parent d library set (parent_id_value r.parent) s ≡ ok tt
  unfolding check_rows
  check_rows_lem library set [] s r h m b = absurd m
  check_rows_lem library set (q ∷ qs) s r h m b = elim (Bool-cases (is_live q)) [
    | inl live ↦ elim m [
      | inl e ↦ absurd (ground (arith, ap is_live e))
      | inr n ↦ check_rows_lem library set qs s r (rw live at h) n b
    ]
    | inr dead ↦
        let h' = rw dead at h in
        let (_, a, h₁) = >>=-eq-ok (check_parent d library set (parent_id_value q.parent) s) _ h' in
        let (_, _, h₂) = >>=-eq-ok (check_name d library set q s) _ h₁ in
        elim m [ inl e ↦ rw e a | inr n ↦ check_rows_lem library set qs s r h₂ n b ]
  ]

  -- What a restoring of a deleted node has read and written.
  pub record IsRestored (now node library : ℕ) (s t : Session) : Type 0 where
    pub safe :
        (r : Row)
        → Elem r (nodes s)
        → r.library == library ≡ true
        → BelowAny node library s r.id
        → is_live r ≡ false
        → 0 < parent_id_value r.parent
        → BelowAny node library s (parent_id_value r.parent)
          ⊎ ((q : Row) × Elem q (nodes s)
              × (in_tree library q ≡ true)
              × (q.id ≡ parent_id_value r.parent))
    pub live_kept : (r : Row) → Elem r (nodes s) → is_live r ≡ true → Elem r (nodes t)
    pub restored :
        (r : Row)
        → Elem r (nodes s)
        → r.library == library ≡ true
        → BelowAny node library s r.id
        → is_live r ≡ false
        → Elem (restore_row now r) (nodes t)
    pub source :
        (x : Row)
        → Elem x (nodes t)
        → Elem x (nodes s)
          ⊎ ((r : Row) × Elem r (nodes s)
              × (r.library == library ≡ true)
              × BelowAny node library s r.id
              × (x ≡ restore_row now r))

  pub restore_deleted_lem :
      (now node library : ℕ) (s t : Session) (b : Bool)
      → restore_deleted d now node library s ≡ ok (b, t)
      → IsRestored now node library s t
  unfolding restore_deleted list_descendant_ids_any
  restore_deleted_lem now node library s t b h =
      let (ids, q, h₁) = >>=-eq-ok (select_sub (has_id node library) (in_library library) s) _ h in
      let (_, h₂) = guard-eq-ok (not (is_nil ids)) _ _ h₁ in
      let (rows, listed, h₃) =
        >>=-eq-ok (list_nodes_including_deleted_by_ids d library ids s) _ h₂ in
      let (_, checked, h₄) = >>=-eq-ok (check_rows d library (ids_of rows) rows s) _ h₃ in
      let p : Row → Bool = λ r. r.library == library && in_ids ids r.id && not (is_live r) in
      let ((n, u), w, h₅) =
        >>=-eq-ok
          (update (λ r. r.library == library && in_ids ids r.id && not (is_live r))
            (restore_row now) s)
          _ h₄ in
      let e : u ≡ t = ground arith in
      let below = λ (i : ℕ) (k : in_ids ids i ≡ true).
        (select_sub_rows _ _ s ids q i).0 ((in_ids-Elem ids i).0 k) in
      let among = λ (i : ℕ) (k : BelowAny node library s i).
        (in_ids-Elem ids i).1 ((select_sub_rows _ _ s ids q i).1 k) in
      rw (← e) (record {
        safe = λ r m l k dead pos.
            let here =
              (listed_lem library ids s rows r listed).1 (m, ground (arith, among r.id k)) in
            elim (check_parent_lem library (ids_of rows) (parent_id_value r.parent) s
              (check_rows_lem library (ids_of rows) rows s r checked here dead) pos) [
                | inl set ↦
                    let (x, mx, ex) = ids_of_lem rows (parent_id_value r.parent) set in
                    let (_, kx) = (listed_lem library ids s rows x listed).0 mx in
                    inl (below (parent_id_value r.parent) (ground arith))
                | inr live ↦ inr live
              ];
        live_kept = λ r m live.
            let no : r.library == library && in_ids ids r.id && not (is_live r) ≡ false =
              ground arith in
            rw no at (update_image d p (restore_row now) s u n r w m);
        restored = λ r m l k dead.
            let yes' : r.library == library && in_ids ids r.id && not (is_live r) ≡ true =
              ground (arith, among r.id k) in
            rw yes' at (update_image d p (restore_row now) s u n r w m);
        source = λ x m.
            let (r, mr, er) = update_source d p (restore_row now) s u n x w m in
            elim (Bool-cases (r.library == library && in_ids ids r.id && not (is_live r))) [
              | inl y ↦ inr (r, mr, ground arith, below r.id (ground arith), rw y at er)
              | inr y ↦ let er' : x ≡ r = rw y at er in inl (rw er' mr)
            ];
      })

  pub live_Rooted :
      (library : ℕ) (s t : Session)
      → ((r : Row) → Elem r (nodes s) → is_live r ≡ true → Elem r (nodes t))
      → {i : ℕ} → Rooted library (nodes s) i
      → Rooted library (nodes t) i
  live_Rooted library s t keep (Rooted.root r m live p e) =
      Rooted.root r (keep r m (ground arith)) live p e
  live_Rooted library s t keep (Rooted.child r w m live p e) =
      Rooted.child r (live_Rooted library s t keep w) (keep r m (ground arith)) live p e

  -- No row has the key 0 for its parent, and the node's own parent is not below the node.
  abbrev pub HasSoundParents : ℕ → ℕ → Session → Type 0
  HasSoundParents node library s =
      (r : Row)
      → Elem r (nodes s)
      → (p : ℕ) → r.parent ≡ some p
      → (0 < p) × (r.id ≡ node → ¬ BelowAny node library s p)

  restored_Rooted :
      (now node library : ℕ) (s t : Session)
      → HasSoundParents node library s
      → IsForest library (nodes s)
      → IsRestored now node library s t
      → (i : ℕ) → BelowAny node library s i
      → Rooted library (nodes t) i
  unfolding parent_id_value
  restored_Rooted now node library s t sound forest k i (Sub.seeded r m h e) =
      let up : (j : ℕ) → Rooted library (nodes s) j → Rooted library (nodes t) j =
        λ j w. live_Rooted library s t k.live_kept w in
      elim (Bool-cases (is_live r)) [
        | inl live ↦ rw e at (up r.id (forest r m (ground arith)))
        | inr dead ↦
            let l : r.library == library ≡ true = ground arith in
            let x = k.restored r m l (Sub.seeded r m h refl) dead in
            elim (Option-cases r.parent) [
              | inl p ↦ Rooted.root (restore_row now r) x (ground arith) p e
              | inr (j, p) ↦
                  let (pos, out) = sound r m j p in
                  let safe : BelowAny node library s j
                      ⊎ ((q : Row) × Elem q (nodes s) × (in_tree library q ≡ true) × (q.id ≡ j)) =
                    rw p at (k.safe r m l (Sub.seeded r m h refl) dead (rw p pos)) in
                  elim safe [
                    | inl b ↦ absurd (out (ground arith) b)
                    | inr (q, mq, lq, eq) ↦
                        Rooted.child (restore_row now r) (up j (rw eq at (forest q mq lq))) x
                          (ground arith) p e
                  ]
            ]
      ]
  restored_Rooted now node library s t sound forest k i (Sub.joined {j = j} r w m h p e) =
      elim (Bool-cases (is_live r)) [
        | inl live ↦ rw e at (live_Rooted library s t k.live_kept (forest r m (ground arith)))
        | inr dead ↦
            Rooted.child (restore_row now r)
              (restored_Rooted now node library s t sound forest k j w)
              (k.restored r m h (Sub.joined r w m h p refl) dead) (ground arith) p e
      ]

  -- A RestoreTree that returns leaves the live rows of the library a forest, if they were one: each
  -- restored row hangs on rows that are live. The rows have sound parents, deleted ones as well.
  pub restore_tree-IsForest :
      (now node library : ℕ) (s t : Session) (b : Bool)
      → HasSoundParents node library s
      → IsForest library (nodes s)
      → restore_tree d now node library s ≡ ok (b, t)
      → IsForest library (nodes t)
  unfolding restore_tree
  restore_tree-IsForest now node library s t b sound forest h =
      let (target, _, h₁) = >>=-eq-ok (find_node_model_including_deleted d node library s) _ h in
      elim (Bool-cases (is_live target)) [
        | inl live ↦ let h₂ = rw live at h₁ in let e : s ≡ t = ground arith in rw (← e) forest
        | inr dead ↦
            let k = restore_deleted_lem now node library s t b (rw dead at h₁) in
            λ x m live. elim (k.source x m) [
              | inl old ↦ live_Rooted library s t k.live_kept (forest x old live)
              | inr (r, mr, l, u, e) ↦
                  rw e (restored_Rooted now node library s t sound forest k r.id u)
            ]
      ]
