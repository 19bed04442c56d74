-- ===== src/Recycle/Erase.antt =====
-- What HardDeleteTree erases and what it leaves.
use omniflow_go.Prelude.{
  ℕ, ◌≡◌, refl, ap, ◌∙◌, inl, inr, ◌↔◌, Bool, true, false, ◌&&◌, not, List, [], ◌∷◌, Elem,
  Bool-cases, arith, ◌==◌,
}
use omniflow_go.Result.{Error, Result, ok, err, ◌>>=◌, >>=-eq-ok, guard-eq-ok, Result-cases}
use omniflow_go.Store.{Row, Key, asc, is_live, Sub, Database, first}
use omniflow_go.Move.Forest.{IsForest}
use omniflow_go.Delete.{in_ids}
use omniflow_go.Delete.Subtree.{in_ids-Elem}
use omniflow_go.Recycle.{
  is_not_found, has_id, in_library, find_node_model_including_deleted, list_descendant_ids_any,
  erase_deleted, hard_delete_found, erase_lookup, hard_delete_tree,
}
use omniflow_go.Recycle.Restore.{BelowAny, live_Rooted}

module _ (d : Database) where
  open d use {Session, nodes, select, select_rows, delete, delete_rows, select_sub, select_sub_rows}

  -- What the erasing of a subtree takes away: its deleted rows of the library.
  abbrev pub IsErased : ℕ → ℕ → Session → Row → Type 0
  IsErased node library s x =
      (x.library == library ≡ true) × BelowAny d node library s x.id × (is_live x ≡ false)

  abbrev pub Remains : ℕ → ℕ → Session → Session → Type 0
  Remains node library s t =
      (x : Row) → Elem x (nodes t) ↔ (Elem x (nodes s) × ¬ IsErased node library s x)

  -- Without a row that has its key, a node has no subtree.
  not_found-Remains :
      (node library : ℕ) (s : Session)
      → ((r : Row) → Elem r (nodes s) → has_id node library r ≡ true → ⊥)
      → Remains node library s s
  not_found-Remains node library s none_there x = (λ m. (m, λ (l, u, k). no_sub u), λ (m, n). m)
    where
      no_sub : {i : ℕ} → ¬ BelowAny d node library s i
      no_sub (Sub.seeded r m h e) = absurd (none_there r m h)
      no_sub (Sub.joined r w m h p e) = no_sub w

  erase_deleted-Remains :
      (node library : ℕ) (ids : List ℕ) (s t : Session) (b : Bool)
      → ((i : ℕ) → (in_ids ids i ≡ true) ↔ BelowAny d node library s i)
      → erase_deleted d library ids s ≡ ok (b, t)
      → Remains node library s t
  unfolding erase_deleted
  erase_deleted-Remains node library [] s t b same h x =
      let e : s ≡ t = ground arith in
      rw (← e) (λ m. (m, λ (l, u, k). absurd (ground (arith, (same x.id).1 u))), λ (m, n). m)
  erase_deleted-Remains node library (i ∷ is) s t b same h x =
      let ((n, u), q, h₁) =
        >>=-eq-ok (delete (λ r. r.library == library && in_ids (i ∷ is) r.id && not (is_live r)) s)
          _ h in
      let e : u ≡ t = ground arith in
      let (to, from) = (delete_rows _ s u n q).0 x in
      rw (← e) (
        λ m. let (k, out) = to m in (k, λ (l, w, dead). absurd (ground (arith, (same x.id).1 w))),
        λ (m, out).
            elim (Bool-cases (x.library == library && in_ids (i ∷ is) x.id && not (is_live x))) [
              | inl y ↦ absurd (out (ground arith, (same x.id).0 (ground arith), ground arith))
              | inr y ↦ from (m, y)
            ],
      )

  -- Find answers with rows or fails, never with gorm.ErrRecordNotFound.
  abbrev pub FindsRows : Session → Type 0
  FindsRows s =
      (p : Row → Bool) (o : List Key) (e : Error) → is_not_found e ≡ true → ¬ (select p o s ≡ err e)

  not_found_lem :
      (node library : ℕ) (s : Session) (e : Error)
      → FindsRows s
      → is_not_found e ≡ true
      → find_node_model_including_deleted d node library s ≡ err e
      → (r : Row) → Elem r (nodes s)
      → has_id node library r ≡ true
      → ⊥
  unfolding find_node_model_including_deleted first
  not_found_lem node library s e finds missing h r m k =
      elim (Result-cases (select (has_id node library) (asc (λ r. r.id) ∷ []) s)) [
        | inl (rs, q) ↦ none_listed rs (rw q at h) ((select_rows _ _ s rs q r).1 (m, k))
        | inr (e', q) ↦
            let same : e' ≡ e = failure e' (rw q at h) in
            finds (has_id node library) (asc (λ r. r.id) ∷ []) e missing (q ∙ ap err same)
      ]
    where
      failure : (e' : Error) → (err e' >>= first) ≡ err e → e' ≡ e
      failure e' h' = ground arith

      none_listed : (rs : List Row) → first rs ≡ err e → ¬ Elem r rs
      none_listed [] k' n = absurd n
      none_listed (x ∷ xs) k' n = cc

  hard_delete_found-Remains :
      (node library : ℕ) (target : Row) (s t : Session) (b : Bool)
      → hard_delete_found d node library target s ≡ ok (b, t)
      → Remains node library s t
  unfolding hard_delete_found list_descendant_ids_any
  hard_delete_found-Remains node library target s t b h =
      let (_, h₁) = guard-eq-ok (not (is_live target)) _ _ h in
      let (ids, q, h₂) = >>=-eq-ok (select_sub (has_id node library) (in_library library) s) _ h₁ in
      erase_deleted-Remains node library ids s t b
        (λ i.
          let (to, from) = in_ids-Elem ids i in
          let (below, listed) = select_sub_rows _ _ s ids q i in
          (λ k. below (to k), λ u. from (listed u)))
        h₂

  erase_lookup-Remains :
      (node library : ℕ) (target : Result Row) (s t : Session) (b : Bool)
      → find_node_model_including_deleted d node library s ≡ target
      → FindsRows s
      → erase_lookup d node library target s ≡ ok (b, t)
      → Remains node library s t
  unfolding erase_lookup
  erase_lookup-Remains node library (ok target) s t b q finds h =
      hard_delete_found-Remains node library target s t b h
  erase_lookup-Remains node library (err e) s t b q finds h = elim (Bool-cases (is_not_found e)) [
    | inl missing ↦
        let same : s ≡ t = ground arith in
        rw (← same)
          (not_found-Remains node library s (not_found_lem node library s e finds missing q))
    | inr failed ↦ absurd (ground arith)
  ]

  -- A HardDeleteTree that returns, whether the node was found or not, takes the deleted rows of the
  -- library in the subtree of the node out of the table and leaves every other row, also the live ones
  -- below the node. The lookup of the node answers with rows or fails.
  pub hard_delete_tree-Remains :
      (node library : ℕ) (s t : Session) (b : Bool)
      → FindsRows s
      → hard_delete_tree d node library s ≡ ok (b, t)
      → Remains node library s t
  unfolding hard_delete_tree
  hard_delete_tree-Remains node library s t b finds h =
      erase_lookup-Remains node library (find_node_model_including_deleted d node library s) s t b
        refl finds h

  -- A HardDeleteTree that returns leaves the live rows of the library a forest, if they were one. The
  -- lookup of the node answers with rows or fails.
  hard_delete_tree-IsForest :
      (node library : ℕ) (s t : Session) (b : Bool)
      → FindsRows s
      → IsForest library (nodes s)
      → hard_delete_tree d node library s ≡ ok (b, t)
      → IsForest library (nodes t)
  hard_delete_tree-IsForest node library s t b finds forest h x m live =
      let same = hard_delete_tree-Remains node library s t b finds h in
      live_Rooted d library s t (λ r n l. (same r).1 (n, λ (_, _, dead). ground arith))
        (forest x ((same x).0 m).0 live)
