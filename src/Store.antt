-- ===== src/Store.antt =====
-- The table `nodes` (internal/repository/postgres/model/nodes.gen.go), the database behind it, which
-- is a parameter, and the row lookups of repository/postgres/impl/node/node_base.go.
pub mod Laws
pub mod Memory
use omniflow_go.Prelude.{
  ℕ, ◌+◌, ◌<◌, ◌≡◌, ◌↔◌, ◌⊎◌, Bool, true, false, ◌&&◌, ◌||◌, Option, none, some, List, [], ◌∷◌, map,
  ◌==◌, ltb, leb, if◌then◌else◌, All, Elem,
}
use omniflow_go.Text.{Text}
use omniflow_go.Result.{Error, Result, ok, err, ◌>>=◌, repository_not_found}

-- A row. Keys are positive int64 values; `parent` is `none` for NULL; every `sort_order` that the
-- program writes is an int32 that is not negative; times are numbers.
pub record Row : Type 0 where
  pub id : ℕ
  pub library : ℕ
  pub parent : Option ℕ
  pub node_type : ℕ
  pub name : Text
  pub ext : Option Text
  pub sort_order : ℕ
  pub deleted_at : Option ℕ
  pub updated_at : ℕ

abbrev pub is_none {ℓ} : {A : Type ℓ} → Option A → Bool
is_none none = true
is_none (some a) = false

-- GORM adds `deleted_at IS NULL` to every query that is not Unscoped.
abbrev pub is_live : Row → Bool
is_live r = is_none r.deleted_at

-- How many rows pass the test.
abbrev pub count : (Row → Bool) → List Row → ℕ
count p [] = 0
count p (r ∷ rs) = (if p r then 1 else 0) + count p rs

-- A column of an ORDER BY clause, and the order that a list of them stands for.
pub data Key : Type 0 where
  asc desc : (Row → ℕ) → Key

abbrev pub before : List Key → Row → Row → Bool
before [] q r = false
before (asc k ∷ ks) q r = ltb (k q) (k r) || (k q == k r && before ks q r)
before (desc k ∷ ks) q r = ltb (k r) (k q) || (k q == k r && before ks q r)

-- No row stands behind one that must follow it.
abbrev pub IsOrdered : List Key → List Row → Type 0
IsOrdered ks [] = Unit
IsOrdered ks (r ∷ rs) = All (λ q. before ks q r ≡ false) rs × IsOrdered ks rs

-- The primary key: one row to a key.
abbrev pub HasKeys : List Row → Type 0
HasKeys rows = (q r : Row) → Elem q rows → Elem r rows → q.id ≡ r.id → q ≡ r

-- WITH RECURSIVE sub AS (SELECT id FROM nodes WHERE seed UNION ALL SELECT n.id FROM nodes n JOIN
-- sub s ON n.parent_id = s.id WHERE step): the keys in `sub`.
pub data Sub (rows : List Row) (seed step : Row → Bool) : ℕ → Type 0 where
  seeded : {i : ℕ} (r : Row) → Elem r rows → seed r ≡ true → r.id ≡ i → Sub rows seed step i
  joined :
      {i j : ℕ} (r : Row)
      → Sub rows seed step j
      → Elem r rows
      → step r ≡ true
      → r.parent ≡ some j
      → r.id ≡ i
      → Sub rows seed step i

-- A PostgreSQL transaction, as far as the queries of the program use it: `nodes s` are the rows
-- that the transaction sees. Any statement may fail. The laws are the documented meaning of SELECT
-- with WHERE and ORDER BY, of INSERT, of UPDATE and DELETE with WHERE,
-- of WITH RECURSIVE and of COUNT, and that a key stays primary.
pub record Database : Type 1 where
  pub Session : Type 0
  pub nodes : Session → List Row
  pub select : (Row → Bool) → List Key → Session → Result (List Row)
  pub update : (Row → Bool) → (Row → Row) → Session → Result (ℕ × Session)
  -- The row that comes back has the key that the table gave it.
  pub insert : Row → Session → Result (Row × Session)
  pub delete : (Row → Bool) → Session → Result (ℕ × Session)
  pub select_sub : (Row → Bool) → (Row → Bool) → Session → Result (List ℕ)
  pub select_count : (Row → Bool) → Session → Result ℕ
  -- pg_advisory_xact_lock: while it waits, other transactions may commit.
  pub lock : Text → Session → Result Session
  pub select_rows :
      (p : Row → Bool) (o : List Key) (s : Session) (rs : List Row)
      → select p o s ≡ ok rs
      → (r : Row) → Elem r rs ↔ (Elem r (nodes s) × (p r ≡ true))
  pub select_ordered :
      (p : Row → Bool) (o : List Key) (s : Session) (rs : List Row)
      → select p o s ≡ ok rs
      → IsOrdered o rs
  pub update_rows :
      (p : Row → Bool) (f : Row → Row) (s t : Session) (n : ℕ)
      → update p f s ≡ ok (n, t)
      → (nodes t ≡ map (λ r. if p r then f r else r) (nodes s)) × (n ≡ count p (nodes s))
  pub insert_rows :
      (r r' : Row) (s t : Session)
      → insert r s ≡ ok (r', t)
      → (r' ≡ record r { id = r'.id })
        × (0 < r'.id)
        × ((x : Row) → Elem x (nodes t) ↔ ((x ≡ r') ⊎ Elem x (nodes s)))
        × (HasKeys (nodes s) → HasKeys (nodes t))
  pub delete_rows :
      (p : Row → Bool) (s t : Session) (n : ℕ)
      → delete p s ≡ ok (n, t)
      → ((x : Row) → Elem x (nodes t) ↔ (Elem x (nodes s) × (p x ≡ false)))
        × (n ≡ count p (nodes s))
  pub select_sub_rows :
      (seed step : Row → Bool) (s : Session) (ids : List ℕ)
      → select_sub seed step s ≡ ok ids
      → (i : ℕ) → Elem i ids ↔ Sub (nodes s) seed step i
  pub select_count_rows :
      (p : Row → Bool) (s : Session) (n : ℕ) → select_count p s ≡ ok n → n ≡ count p (nodes s)
  pub lock_keys :
      (t : Text) (s s' : Session) → lock t s ≡ ok s' → HasKeys (nodes s) → HasKeys (nodes s')

-- parentIDValue and normalizePGParentID: NULL is the domain's parent 0.
unfoldable pub parent_id_value : Option ℕ → ℕ
parent_id_value none = 0
parent_id_value (some p) = p

unfoldable pub normalize_pg_parent_id : ℕ → Option ℕ
normalize_pg_parent_id p = if p == 0 then none else some p

abbrev pub opt_eqb : Option ℕ → Option ℕ → Bool
opt_eqb none none = true
opt_eqb (some a) (some b) = a == b
opt_eqb none (some b) = false
opt_eqb (some a) none = false

-- applyParentCondition: `parent_id IS NULL` for the parent 0, else `parent_id = ?`.
unfoldable pub has_parent : ℕ → Row → Bool
has_parent parent r = opt_eqb r.parent (if parent == 0 then none else some parent)

unfoldable pub has_key : ℕ → ℕ → Row → Bool
has_key id library r = is_live r && r.id == id && r.library == library

-- The first row of a result, gorm.ErrRecordNotFound being mapped by mapDBError.
unfoldable pub first : List Row → Result Row
first [] = err repository_not_found
first (r ∷ rs) = ok r

module _ (d : Database) where
  open d use {Session, select}

  unfoldable pub find_node_model : ℕ → ℕ → Session → Result Row
  unfolding has_key first
  find_node_model id library s = do
    rs ← select (has_key id library) (asc (λ r. r.id) ∷ []) s
    first rs
