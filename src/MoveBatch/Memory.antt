-- ===== src/MoveBatch/Memory.antt =====
-- The ancestors of a node in a list of rows, in rounds; the result is given out if it is closed.
use omniflow_go.Prelude.{
  ℕ, zero, suc, ◌≡◌, refl, sym, ap, ◌∙◌, ◌↔◌, Bool, true, false, ◌&&◌, ◌||◌, not, Option, none,
  some, List, [], ◌∷◌, arith, Bool-cases, ◌⊎◌, inl, inr, if◌then◌else◌, Elem, length, subst,
  then_branch, else_branch,
}
use omniflow_go.Result.{Result, ok, err, other, ok_injective}
use omniflow_go.Store.{Row, opt_eqb}
use omniflow_go.Store.Memory.{memory}
use omniflow_go.Move.Forest.{in_tree, is_node}
use omniflow_go.Delete.{in_ids}
use omniflow_go.MoveBatch.{Ancestor, Ancestors}
use omniflow_go.MoveBatch.Selected.{in_ids-Elem, Elem-in_ids}

any : (Row → Bool) → List Row → Bool
any p [] = false
any p (r ∷ rs) = p r || any p rs

any-to : (p : Row → Bool) (rs : List Row) → any p rs ≡ true → (r : Row) × Elem r rs × (p r ≡ true)
unfolding any
any-to p [] h = cc
any-to p (r ∷ rs) h = elim (Bool-cases (p r)) [
  | inl b ↦ (r, inl refl, b)
  | inr b ↦ let (q, m, c) = any-to p rs (ground arith) in (q, inr m, c)
]

any-of : (p : Row → Bool) (rs : List Row) (r : Row) → Elem r rs → p r ≡ true → any p rs ≡ true
unfolding any
any-of p (q ∷ rs) r (inl e) b = let b' : p q ≡ true = ap p (sym e) ∙ b in ground arith
any-of p (q ∷ rs) r (inr m) b = let c = any-of p rs r m b in ground arith
any-of p [] r m b = elim m [ ]

opt_eqb-some : (p : Option ℕ) (i : ℕ) → opt_eqb p (some i) ≡ true → p ≡ some i
opt_eqb-some none i h = cc
opt_eqb-some (some j) i h = ap some (ground arith)

module _ (library : ℕ) (rows : List Row) where
  -- A row of the tree among the keys, with this parent.
  is_child_in : List ℕ → ℕ → Row → Bool
  is_child_in ids i r = in_tree library r && in_ids ids r.id && opt_eqb r.parent (some i)

  joins : List ℕ → Row → Bool
  unfolding is_child_in any
  joins ids p = in_tree library p && any (is_child_in ids p.id) rows

  pass : List ℕ → List Row → List ℕ
  unfolding joins
  pass ids [] = ids
  pass ids (p ∷ ps) = pass (if joins ids p then p.id ∷ ids else ids) ps

  rounds : ℕ → List ℕ → List ℕ
  unfolding pass
  rounds zero ids = ids
  rounds (suc n) ids = rounds n (pass ids rows)

  seeds : ℕ → List Row → List ℕ
  seeds node [] = []
  seeds node (r ∷ rs) =
      let rest = seeds node rs in if is_node library node r then r.id ∷ rest else rest

  -- The rows that pass the test are among the keys.
  covers : List ℕ → (Row → Bool) → Bool
  unfolding any
  covers ids p = not (any (λ r. p r && not (in_ids ids r.id)) rows)

  covers_lem :
      (ids : List ℕ) (p : Row → Bool) (r : Row)
      → covers ids p ≡ true
      → Elem r rows
      → p r ≡ true
      → Elem r.id ids
  unfolding covers
  covers_lem ids p r h m b = elim (Bool-cases (in_ids ids r.id)) [
    | inl c ↦ in_ids-Elem ids r.id c
    | inr c ↦
        let d = any-of (λ r. p r && not (in_ids ids r.id)) rows r m (rw (b, c) refl) in
        absurd (ground arith)
  ]

  ancestor_ids : ℕ → List ℕ
  unfolding rounds seeds
  ancestor_ids node = rounds (length rows) (seeds node rows)

  unfoldable pub list_ancestors : ℕ → Result (List ℕ)
  unfolding ancestor_ids covers any joins is_child_in pass rounds seeds
  list_ancestors node =
      let ids = ancestor_ids node in
      if covers ids (is_node library node) && covers ids (joins ids) then ok ids else err (other 1)

  module _ (node : ℕ) where
    abbrev Sound : List ℕ → Type 0
    Sound ids = (i : ℕ) → Elem i ids → Ancestor rows library node i

    seeds-Sound : (rs : List Row) → ((r : Row) → Elem r rs → Elem r rows) → Sound (seeds node rs)
    unfolding seeds
    seeds-Sound [] sub i m = elim m [ ]
    seeds-Sound (r ∷ rs) sub i m = elim (Bool-cases (is_node library node r)) [
      | inl b ↦
          let m' : (i ≡ r.id) ⊎ Elem i (seeds node rs) = rw b at m in
          elim m' [
            | inl e ↦
                subst (Ancestor rows library node) (sym e) (Ancestor.itself r (sub r (inl refl)) b)
            | inr n ↦ seeds-Sound rs (λ q k. sub q (inr k)) i n
          ]
      | inr b ↦ seeds-Sound rs (λ q k. sub q (inr k)) i (rw b at m)
    ]

    joins-Sound :
        (ids : List ℕ) (p : Row)
        → Elem p rows
        → Sound ids
        → joins ids p ≡ true
        → Ancestor rows library node p.id
    unfolding joins is_child_in
    joins-Sound ids p m h b =
        let (r, n, c) = any-to (is_child_in ids p.id) rows (ground arith) in
        Ancestor.above r p (h r.id (in_ids-Elem ids r.id (ground arith))) n (ground arith) m
          (ground arith) (opt_eqb-some r.parent p.id (ground arith))

    pass-Sound :
        (ps : List Row) (ids : List ℕ)
        → ((r : Row) → Elem r ps → Elem r rows)
        → Sound ids
        → Sound (pass ids ps)
    unfolding pass
    pass-Sound [] ids sub h = h
    pass-Sound (p ∷ ps) ids sub h =
        pass-Sound ps (if joins ids p then p.id ∷ ids else ids) (λ q k. sub q (inr k))
          (λ i m. elim (Bool-cases (joins ids p)) [
            | inl b ↦
                let m' : (i ≡ p.id) ⊎ Elem i ids = rw b at m in
                elim m' [
                  | inl e ↦
                      subst (Ancestor rows library node) (sym e)
                        (joins-Sound ids p (sub p (inl refl)) h b)
                  | inr n ↦ h i n
                ]
            | inr b ↦ h i (rw b at m)
          ])

    rounds-Sound : (n : ℕ) (ids : List ℕ) → Sound ids → Sound (rounds n ids)
    unfolding rounds
    rounds-Sound zero ids h = h
    rounds-Sound (suc n) ids h = rounds-Sound n (pass ids rows) (pass-Sound rows ids (λ r m. m) h)

    complete :
        (ids : List ℕ)
        → covers ids (is_node library node) ≡ true
        → covers ids (joins ids) ≡ true
        → (i : ℕ) → Ancestor rows library node i
        → Elem i ids
    unfolding joins is_child_in
    complete ids a b i (Ancestor.itself r m c) = covers_lem ids (is_node library node) r a m c
    complete ids a b i (Ancestor.above r p u m c n t e) =
        let k = Elem-in_ids ids r.id (complete ids a b r.id u) in
        covers_lem ids (joins ids) p b n
          (rw t (any-of (is_child_in ids p.id) rows r m (rw (c, k, e) (ground arith))))

  pub list_ancestors_lem :
      (node : ℕ) (ids : List ℕ)
      → list_ancestors node ≡ ok ids
      → (i : ℕ) → Elem i ids ↔ Ancestor rows library node i
  unfolding list_ancestors ancestor_ids
  list_ancestors_lem node ids h i =
      elim (Bool-cases (
        covers (ancestor_ids node) (is_node library node)
        && covers (ancestor_ids node) (joins (ancestor_ids node)))) [
          | inl b ↦
              let e = ok_injective (then_branch _ (ok (ancestor_ids node)) (err (other 1)) b ∙ h) in
              subst (λ l. Elem i l ↔ Ancestor rows library node i) e
                (
                  rounds-Sound node (length rows) (seeds node rows)
                      (seeds-Sound node rows (λ r m. m)) i,
                  complete node (ancestor_ids node) (ground arith) (ground arith) i,
                )
          | inr b ↦ let h' = else_branch _ (ok (ancestor_ids node)) (err (other 1)) b ∙ h in cc
        ]

abbrev pub ancestors : Ancestors memory
ancestors = record {
  list_ancestors = λ node library rows. list_ancestors library rows node;
  list_ancestors_rows = λ node library rows ids h. list_ancestors_lem library rows node ids h;
}
