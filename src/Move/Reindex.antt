-- ===== src/Move/Reindex.antt =====
-- What a reindexing leaves alone, and the orders that it gives out.
use omniflow_go.Prelude.{
  ℕ, ◌+◌, ◌-◌, ◌≡◌, refl, ap, ◌∙◌, Bool, true, false, ◌&&◌, not, List, [], ◌∷◌, arith, ◌==◌, leb,
  if◌then◌else◌, Elem,
}
use omniflow_go.Result.{ok, >>=-eq-ok, guard-eq-ok}
use omniflow_go.Store.{Row, is_live, HasKeys, Database}
use omniflow_go.Store.Laws.{update_image, update_source, update_keys}
use omniflow_go.Move.{
  move_sort_step, move_max_int32, is_sibling, reindex_loop, reindex_parent, set_order,
}

-- The same row, but for its order and its time.
abbrev pub IsSame : Row → Row → Type 0
IsSame q r = (n : ℕ) × (t : ℕ) × (r ≡ set_order n t q)

IsSame-refl : (r : Row) → IsSame r r
IsSame-refl r = (r.sort_order, r.updated_at, refl)

pub IsSame-trans : (p q r : Row) → IsSame p q → IsSame q r → IsSame p r
IsSame-trans p q r (m, u, e) (n, t, f) = (n, t, f ∙ ap (set_order n t) e)

IsSame-if : (b : Bool) (q r : Row) → IsSame q r → IsSame q (if b then r else q)
IsSame-if true q r h = h
IsSame-if false q r h = IsSame-refl q

module _ (d : Database) where
  open d use {Session, nodes, select, update}

  -- Every row is one from before, and the keys are primary.
  pub record Keeps (s t : Session) : Type 0 where
    pub keys : HasKeys (nodes t)
    pub source : (r : Row) → Elem r (nodes t) → (q : Row) × Elem q (nodes s) × IsSame q r
    pub image : (q : Row) → Elem q (nodes s) → (r : Row) × Elem r (nodes t) × IsSame q r

  pub Keeps-refl : (s : Session) → HasKeys (nodes s) → Keeps s s
  Keeps-refl s keys = record {
    keys = keys;
    source = λ r m. (r, m, IsSame-refl r);
    image = λ r m. (r, m, IsSame-refl r);
  }

  pub Keeps-trans : (s t u : Session) → Keeps s t → Keeps t u → Keeps s u
  Keeps-trans s t u k l = record {
    keys = l.keys;
    source = λ r m.
        let (q, n, e) = l.source r m in
        let (p, o, f) = k.source q n in (p, o, IsSame-trans p q r f e);
    image = λ p o.
        let (q, n, f) = k.image p o in
        let (r, m, e) = l.image q n in (r, m, IsSame-trans p q r f e);
  }

  -- An update of the orders alone.
  pub update_Keeps :
      (p : Row → Bool) (f : Row → Row) (s t : Session) (n : ℕ)
      → ((r : Row) → IsSame r (f r))
      → ((r : Row) → (f r).id ≡ r.id)
      → HasKeys (nodes s)
      → update p f s ≡ ok (n, t)
      → Keeps s t
  update_Keeps p f s t n same id keys h = record {
    keys = update_keys d p f s t n id h keys;
    source = λ r m.
        let (q, k, e) = update_source d p f s t n r h m in
        (q, k, rw e (IsSame-if (p q) q (f q) (same q)));
    image = λ q k. (
      (if p q then f q else q),
      update_image d p f s t n q h k,
      IsSame-if (p q) q (f q) (same q),
    );
  }

  abbrev is_key : ℕ → ℕ → Row → Bool
  is_key library id q = is_live q && q.id == id && q.library == library

  reindex_loop-Keeps :
      (library now order : ℕ) (rs : List Row) (s t : Session)
      → HasKeys (nodes s)
      → reindex_loop d library now order rs s ≡ ok t
      → Keeps s t
  unfolding reindex_loop
  reindex_loop-Keeps library now order [] s t keys h =
      let e : s ≡ t = ground arith in rw (← e) (Keeps-refl s keys)
  reindex_loop-Keeps library now order (x ∷ xs) s t keys h =
      let (a, h₁) = guard-eq-ok (leb order (move_max_int32 - move_sort_step)) _ _ h in
      let ((n, u), q, h₂) = >>=-eq-ok (update (is_key library x.id) (set_order order now) s) _ h₁ in
      let (b, h₃) = guard-eq-ok (not (n == 0)) _ _ h₂ in
      let k =
        update_Keeps (is_key library x.id) (set_order order now) s u n (λ r. (order, now, refl))
          (λ r. refl) keys q in
      Keeps-trans s u t k (reindex_loop-Keeps library now (order + move_sort_step) xs u t k.keys h₃)

  -- A reindexing changes orders and times alone.
  pub reindex_parent-Keeps :
      (parent library now : ℕ) (s t : Session)
      → HasKeys (nodes s)
      → reindex_parent d parent library now s ≡ ok t
      → Keeps s t
  unfolding reindex_parent
  reindex_parent-Keeps parent library now s t keys h =
      let (rs, q, h₁) = >>=-eq-ok (select (is_sibling library parent) _ s) _ h in
      reindex_loop-Keeps library now move_sort_step rs s t keys h₁
