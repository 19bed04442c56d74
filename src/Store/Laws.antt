-- ===== src/Store/Laws.antt =====
-- What the queries of a database say of its rows.
use omniflow_go.Prelude.{
  ℕ, ◌<◌, ◌≡◌, refl, sym, ap, ◌∙◌, inl, inr, Bool, true, List, [], ◌∷◌, map, arith, Bool-cases,
  if◌then◌else◌, Elem, Elem-map, Elem-of_map,
}
use omniflow_go.Result.{ok, >>=-eq-ok}
use omniflow_go.Store.{Row, count, HasKeys, Database, first, has_key, find_node_model}

-- A row that is counted is there.
pub count_pos :
    (p : Row → Bool) (rows : List Row) → 0 < count p rows → (r : Row) × Elem r rows × (p r ≡ true)
count_pos p [] h = absurd (omega arith)
count_pos p (r ∷ rs) h = elim (Bool-cases (p r)) [
  | inl b ↦ (r, inl refl, b)
  | inr b ↦ let (q, m, e) = count_pos p rs (ground arith) in (q, inr m, e)
]

-- A change that keeps the keys keeps them primary.
pub HasKeys-map :
    (f : Row → Row) (rows : List Row)
    → ((r : Row) → (f r).id ≡ r.id)
    → HasKeys rows
    → HasKeys (map f rows)
HasKeys-map f rows same keys q r mq mr e =
    let (a, ma, ea) = Elem-of_map f q rows mq in
    let (b, mb, eb) = Elem-of_map f r rows mr in
    let e' : a.id ≡ b.id =
      omega (arith, same a, same b, ap (λ (r : Row). r.id) ea, ap (λ (r : Row). r.id) eb) in
    ea ∙ ap f (keys a b ma mb e') ∙ sym eb

module _ (d : Database) where
  open d use {Session, nodes, select, update, select_rows, update_rows}

  pub find_node_model_lem :
      (id library : ℕ) (s : Session) (r : Row)
      → find_node_model d id library s ≡ ok r
      → Elem r (nodes s) × (has_key id library r ≡ true)
  unfolding find_node_model
  find_node_model_lem id library s r h =
      let (rs, q, e) = >>=-eq-ok (select (has_key id library) _ s) _ h in
      head rs e (λ m. (select_rows _ _ s rs q r).0 m)
    where
      head :
          (rs : List Row)
          → first rs ≡ ok r
          → (Elem r rs → Elem r (nodes s) × (has_key id library r ≡ true))
          → Elem r (nodes s) × (has_key id library r ≡ true)
      head [] e k = cc
      head (x ∷ xs) e k = k (inl (ground arith))

  -- The rows behind an update, and back.
  pub update_image :
      (p : Row → Bool) (f : Row → Row) (s t : Session) (n : ℕ) (r : Row)
      → update p f s ≡ ok (n, t)
      → Elem r (nodes s)
      → Elem (if p r then f r else r) (nodes t)
  update_image p f s t n r h m =
      rw (update_rows p f s t n h).0 (Elem-map (λ r. if p r then f r else r) r (nodes s) m)

  pub update_source :
      (p : Row → Bool) (f : Row → Row) (s t : Session) (n : ℕ) (r : Row)
      → update p f s ≡ ok (n, t)
      → Elem r (nodes t)
      → (q : Row) × Elem q (nodes s) × (r ≡ (if p q then f q else q))
  update_source p f s t n r h m =
      Elem-of_map (λ r. if p r then f r else r) r (nodes s) (rw (update_rows p f s t n h).0 at m)

  pub update_keys :
      (p : Row → Bool) (f : Row → Row) (s t : Session) (n : ℕ)
      → ((r : Row) → (f r).id ≡ r.id)
      → update p f s ≡ ok (n, t)
      → HasKeys (nodes s)
      → HasKeys (nodes t)
  update_keys p f s t n same h keys =
      rw (update_rows p f s t n h).0
        (HasKeys-map (λ r. if p r then f r else r) (nodes s) (λ r. ground (arith, same r)) keys)
