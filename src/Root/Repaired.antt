-- ===== src/Root/Repaired.antt =====
-- What the repair of the parents leaves.
use omniflow_go.Prelude.{
  ℕ, ◌<◌, ◌≡◌, refl, sym, ap, ◌∙◌, ◌⊎◌, inl, inr, true, false, ◌&&◌, ◌||◌, not, Option, none, some,
  List, [], ◌∷◌, ◌==◌, if◌then◌else◌, Elem, arith, Bool-cases, Option-cases, subst,
}
use omniflow_go.Store.{Row, is_live, parent_id_value, normalize_pg_parent_id}
use omniflow_go.Root.{node_by_id, is_broken, wanted_parent, target_parent, has_row_key, adopt}

-- The parent that the repair gives to a row.
abbrev pub new_parent : List Row → ℕ → Row → Option ℕ
new_parent rows root r =
    if target_parent rows root r == parent_id_value r.parent
    then r.parent
    else normalize_pg_parent_id (target_parent rows root r)

-- What one round of the loop does to a row.
abbrev pub repair_row : ℕ → ℕ → ℕ → List Row → Row → Row → Row
repair_row now library root rows y r =
    if target_parent rows root y == parent_id_value y.parent
    then r
    else if has_row_key y.id library r
    then adopt now (target_parent rows root y) r
    else r

abbrev pub repair_all : ℕ → ℕ → ℕ → List Row → List Row → Row → Row
repair_all now library root rows [] r = r
repair_all now library root rows (y ∷ todo) r =
    repair_all now library root rows todo (repair_row now library root rows y r)

-- The columns that the repair does not write.
pub record IsSame (r q : Row) : Type 0 where
  pub id : q.id ≡ r.id
  pub library : q.library ≡ r.library
  pub node_type : q.node_type ≡ r.node_type
  pub deleted : q.deleted_at ≡ r.deleted_at

repair_row-IsSame :
    (now library root : ℕ) (rows : List Row) (y r : Row)
    → IsSame r (repair_row now library root rows y r)
repair_row-IsSame now library root rows y r =
    elim (Bool-cases (target_parent rows root y == parent_id_value y.parent)) [
      | inl a ↦ rw a (record { id = refl; library = refl; node_type = refl; deleted = refl })
      | inr a ↦ elim (Bool-cases (has_row_key y.id library r)) [
        | inl b ↦ rw (a, b) (record { id = refl; library = refl; node_type = refl; deleted = refl })
        | inr b ↦ rw (a, b) (record { id = refl; library = refl; node_type = refl; deleted = refl })
      ]
    ]

pub repair_all-IsSame :
    (now library root : ℕ) (rows todo : List Row) (r : Row)
    → IsSame r (repair_all now library root rows todo r)
repair_all-IsSame now library root rows [] r = record {
  id = refl;
  library = refl;
  node_type = refl;
  deleted = refl;
}
repair_all-IsSame now library root rows (y ∷ todo) r =
    let a = repair_row-IsSame now library root rows y r in
    let b = repair_all-IsSame now library root rows todo (repair_row now library root rows y r) in
    record {
      id = b.id ∙ a.id;
      library = b.library ∙ a.library;
      node_type = b.node_type ∙ a.node_type;
      deleted = b.deleted ∙ a.deleted;
    }

-- A row that stands for `r₀` keeps its parent or gets the new one.
repair_row_parent :
    (now library root : ℕ) (rows : List Row) (y r r₀ : Row)
    → r.id ≡ r₀.id
    → r.library ≡ library
    → (y.id ≡ r₀.id → y ≡ r₀)
    → ((repair_row now library root rows y r).parent ≡ r.parent)
      ⊎ ((repair_row now library root rows y r).parent ≡ new_parent rows root r₀)
repair_row_parent now library root rows y r r₀ e l unique =
    elim (Bool-cases (target_parent rows root y == parent_id_value y.parent)) [
      | inl a ↦ inl (rw a refl)
      | inr a ↦ elim (Bool-cases (has_row_key y.id library r)) [
        | inl b ↦
            let same : y ≡ r₀ = unique (ground arith) in
            let p : (repair_row now library root rows y r).parent
                ≡ normalize_pg_parent_id (target_parent rows root y) =
              rw (a, b) refl in
            let q : new_parent rows root y ≡ normalize_pg_parent_id (target_parent rows root y) =
              rw a refl in
            inr (p ∙ sym q ∙ ap (new_parent rows root) same)
        | inr b ↦ inl (rw (a, b) refl)
      ]
    ]

-- The round of the row itself gives it the new parent.
repair_row_own :
    (now library root : ℕ) (rows : List Row) (r r₀ : Row)
    → r.id ≡ r₀.id
    → r.library ≡ library
    → (r.parent ≡ r₀.parent) ⊎ (r.parent ≡ new_parent rows root r₀)
    → (repair_row now library root rows r₀ r).parent ≡ new_parent rows root r₀
repair_row_own now library root rows r r₀ e l now_or_new =
    elim (Bool-cases (target_parent rows root r₀ == parent_id_value r₀.parent)) [
      | inl a ↦
          let q : new_parent rows root r₀ ≡ r₀.parent = rw a refl in
          let p : (repair_row now library root rows r₀ r).parent ≡ r.parent = rw a refl in
          elim now_or_new [ inl x ↦ p ∙ x ∙ sym q | inr x ↦ p ∙ x ]
      | inr a ↦
          let b : has_row_key r₀.id library r ≡ true = ground arith in
          let p : (repair_row now library root rows r₀ r).parent
              ≡ normalize_pg_parent_id (target_parent rows root r₀) =
            rw (a, b) refl in
          let q : new_parent rows root r₀ ≡ normalize_pg_parent_id (target_parent rows root r₀) =
            rw a refl in
          p ∙ sym q
    ]

-- The rows of the list that have the key of `r₀` are `r₀`.
abbrev pub IsOnly : Row → List Row → Type 0
IsOnly r₀ todo = (y : Row) → Elem y todo → y.id ≡ r₀.id → y ≡ r₀

stays_new :
    (now library root : ℕ) (rows todo : List Row) (r r₀ : Row)
    → r.id ≡ r₀.id
    → r.library ≡ library
    → IsOnly r₀ todo
    → r.parent ≡ new_parent rows root r₀
    → (repair_all now library root rows todo r).parent ≡ new_parent rows root r₀
stays_new now library root rows [] r r₀ e l only h = h
stays_new now library root rows (y ∷ todo) r r₀ e l only h =
    let k = repair_row-IsSame now library root rows y r in
    stays_new now library root rows todo (repair_row now library root rows y r) r₀ (k.id ∙ e)
      (k.library ∙ l) (λ x m. only x (inr m))
      (elim (repair_row_parent now library root rows y r r₀ e l (only y (inl refl))) [
        | inl same ↦ same ∙ h
        | inr new ↦ new
      ])

pub becomes_new :
    (now library root : ℕ) (rows todo : List Row) (r r₀ : Row)
    → r.id ≡ r₀.id
    → r.library ≡ library
    → IsOnly r₀ todo
    → (r.parent ≡ r₀.parent) ⊎ (r.parent ≡ new_parent rows root r₀)
    → Elem r₀ todo
    → (repair_all now library root rows todo r).parent ≡ new_parent rows root r₀
becomes_new now library root rows [] r r₀ e l only h m = absurd m
becomes_new now library root rows (y ∷ todo) r r₀ e l only h (inl here) =
    let k = repair_row-IsSame now library root rows y r in
    stays_new now library root rows todo (repair_row now library root rows y r) r₀ (k.id ∙ e)
      (k.library ∙ l) (λ x m. only x (inr m))
      (subst (λ x. (repair_row now library root rows x r).parent ≡ new_parent rows root r₀) here
        (repair_row_own now library root rows r r₀ e l h))
becomes_new now library root rows (y ∷ todo) r r₀ e l only h (inr m) =
    let k = repair_row-IsSame now library root rows y r in
    becomes_new now library root rows todo (repair_row now library root rows y r) r₀ (k.id ∙ e)
      (k.library ∙ l) (λ x n. only x (inr n))
      (elim (repair_row_parent now library root rows y r r₀ e l (only y (inl refl))) [
        | inl same ↦ elim h [ inl a ↦ inl (same ∙ a) | inr b ↦ inr (same ∙ b) ]
        | inr new ↦ inr new
      ])
      m

value_normalized : (p : ℕ) → parent_id_value (normalize_pg_parent_id p) ≡ p
unfolding parent_id_value normalize_pg_parent_id
value_normalized p = elim (Bool-cases (p == 0)) [
  | inl b ↦ let e : 0 ≡ p = ground arith in rw b e
  | inr b ↦ rw b refl
]

pub new_parent-value :
    (rows : List Row) (root : ℕ) (r : Row)
    → parent_id_value (new_parent rows root r) ≡ target_parent rows root r
new_parent-value rows root r =
    elim (Bool-cases (target_parent rows root r == parent_id_value r.parent)) [
      | inl a ↦ rw a (ground arith)
      | inr a ↦ rw a (value_normalized (target_parent rows root r))
    ]

node_by_id_source :
    (rows : List Row) (i : ℕ) (q : Row) → node_by_id rows i ≡ some q → Elem q rows × (q.id ≡ i)
unfolding node_by_id
node_by_id_source [] i q h = absurd (ground arith)
node_by_id_source (r ∷ rs) i q h = elim (Option-cases (node_by_id rs i)) [
  | inl e ↦ let h' = rw e at h in (inl (ground arith), ground (arith, rw e at h))
  | inr (x, e) ↦
      let h' = rw e at h in
      let same : x ≡ q = ground arith in
      let (m, k) = node_by_id_source rs i x e in
      (inr (subst (λ z. Elem z rs) same m), ap (λ z. z.id) (sym same) ∙ k)
]

-- What the repair asks of the parent `p` of the row `r`: a row on the root stands on nothing, every
-- other one on the root or on a directory, which is live below a live row, and not on itself.
abbrev pub IsSound : List Row → ℕ → Row → ℕ → Type 0
IsSound rows root r p =
    (r.id ≡ root → p ≡ 0)
    × (¬ (r.id ≡ root)
        → ¬ (p ≡ r.id)
          × ((p ≡ root)
              ⊎ ((q : Row) × Elem q rows
                  × (q.id ≡ p)
                  × (q.node_type ≡ 0)
                  × (is_live r ≡ true → is_live q ≡ true))))

wanted_parent_lem :
    (rows : List Row) (root : ℕ) (r : Row)
    → (r.id ≡ root → wanted_parent rows root r ≡ 0)
      × (¬ (r.id ≡ root)
          → (wanted_parent rows root r ≡ root)
            ⊎ ((q : Row) × Elem q rows
                × (q.id ≡ wanted_parent rows root r)
                × (q.node_type ≡ 0)
                × (is_live r ≡ true → is_live q ≡ true)))
unfolding wanted_parent
wanted_parent_lem rows root r = (
  λ e. let a : r.id == root ≡ true = ground arith in rw a refl,
  λ n.
      let a : r.id == root ≡ false = ground arith in
      elim (Bool-cases (parent_id_value r.parent == 0)) [
        | inl b ↦ rw (a, b) (inl refl)
        | inr b ↦ elim (Bool-cases (is_broken r (node_by_id rows (parent_id_value r.parent)))) [
          | inl c ↦ rw (a, b, c) (inl refl)
          | inr c ↦ rw (a, b, c) (inr (whole (node_by_id rows (parent_id_value r.parent)) refl c))
        ]
      ],
)
  where
    whole :
        (found : Option Row)
        → node_by_id rows (parent_id_value r.parent) ≡ found
        → is_broken r found ≡ false
        → (q : Row) × Elem q rows
          × (q.id ≡ parent_id_value r.parent)
          × (q.node_type ≡ 0)
          × (is_live r ≡ true → is_live q ≡ true)
    whole none e c = absurd (unfold is_broken in ground arith)
    whole (some q) e c =
        let (m, k) = node_by_id_source rows (parent_id_value r.parent) q e in
        let c' : not (q.node_type == 0) || (is_live r && not (is_live q)) ≡ false =
          unfold is_broken in c in
        (q, m, k, ground arith, λ live. ground arith)

pub target_parent-IsSound :
    (rows : List Row) (root : ℕ) (r : Row)
    → 0 < root
    → IsSound rows root r (target_parent rows root r)
unfolding target_parent
target_parent-IsSound rows root r pos =
    let (at_root, below) = wanted_parent_lem rows root r in
    elim (Bool-cases (wanted_parent rows root r == r.id)) [
      | inl a ↦
          let self : wanted_parent rows root r ≡ r.id = ground arith in
          rw a
            (λ e. absurd (omega (arith, at_root e, self, e, pos)), λ n. (λ x. n (sym x), inl refl))
      | inr a ↦ rw a (at_root, λ n. (λ x. absurd (ground arith), below n))
    ]
