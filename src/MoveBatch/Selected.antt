-- ===== src/MoveBatch/Selected.antt =====
-- The keys of a batch of nodes to move (internal/usecase/node.go): those that were sent, and those
-- among the ancestors of another.
use omniflow_go.Prelude.{
  ℕ, ◌≡◌, ◌≢◌, ◌↔◌, refl, sym, inl, inr, true, false, ◌&&◌, ◌||◌, not, List, [], ◌∷◌, arith, ◌==◌,
  Elem, Bool-cases, subst, then_branch, else_branch,
}
use omniflow_go.Delete.{in_ids}
use omniflow_go.MoveBatch.{
  MoveItem, normalize_move_batch_items, has_selected_ancestor, nodes_of, meets,
}

-- The keys that were sent, less 0.
abbrev pub IsSelected : List MoveItem → ℕ → Type 0
IsSelected items i = (i ≢ 0) × Elem i (nodes_of items)

pub in_ids-Elem : (ids : List ℕ) (i : ℕ) → in_ids ids i ≡ true → Elem i ids
in_ids-Elem [] i h = cc
in_ids-Elem (j ∷ js) i h = elim (Bool-cases (i == j)) [
  | inl b ↦ inl (ground arith)
  | inr b ↦ inr (in_ids-Elem js i (ground arith))
]

pub Elem-in_ids : (ids : List ℕ) (i : ℕ) → Elem i ids → in_ids ids i ≡ true
Elem-in_ids (j ∷ js) i (inl e) = ground arith
Elem-in_ids (j ∷ js) i (inr m) = let rest = Elem-in_ids js i m in ground arith
Elem-in_ids [] i m = elim m [ ]

-- The normalisation keeps the keys that are not 0, less those that were seen, each once.
pub normalize_move_batch_items-IsSelected :
    (seen : List ℕ) (items : List MoveItem) (i : ℕ)
    → Elem i (nodes_of (normalize_move_batch_items seen items))
      ↔ (IsSelected items i × (in_ids seen i ≡ false))
unfolding normalize_move_batch_items
normalize_move_batch_items-IsSelected seen [] i = ((λ m. elim m [ ]), λ h. elim h.0.1 [ ])
normalize_move_batch_items-IsSelected seen (item ∷ items) i =
    elim (Bool-cases (item.node == 0 || in_ids seen item.node)) [
      | inl b ↦
          let (to, from) = normalize_move_batch_items-IsSelected seen items i in
          let same = then_branch (item.node == 0 || in_ids seen item.node) _ _ b in
          (
            λ m.
                let ((z, n), u) = to (subst (λ l. Elem i (nodes_of l)) (sym same) m) in
                ((z, inr n), u),
            λ ((z, m), u).
                subst (λ l. Elem i (nodes_of l)) same
                  (from ((z, not_skipped item.node z u b m), u)),
          )
      | inr b ↦
          let (to, from) = normalize_move_batch_items-IsSelected (item.node ∷ seen) items i in
          let same = else_branch (item.node == 0 || in_ids seen item.node) _ _ b in
          (
            λ m. elim (subst (λ l. Elem i (nodes_of l)) (sym same) m) [
              | inl e ↦ ((ground arith, inl e), ground arith)
              | inr n ↦ let ((z, k), u) = to n in ((z, inr k), ground arith)
            ],
            λ ((z, m), u). subst (λ l. Elem i (nodes_of l)) same (kept _ item.node z u m from),
          )
    ]
  where
    not_skipped :
        (n : ℕ)
        → i ≢ 0
        → in_ids seen i ≡ false
        → (n == 0 || in_ids seen n) ≡ true
        → Elem i (n ∷ nodes_of items)
        → Elem i (nodes_of items)
    not_skipped n z u b (inr m) = m
    not_skipped n z u b (inl e) = let b' = rw (← e) at b in absurd (ground arith)

    kept :
        (rest : List ℕ) (n : ℕ)
        → i ≢ 0
        → in_ids seen i ≡ false
        → Elem i (n ∷ nodes_of items)
        → (IsSelected items i × (in_ids (n ∷ seen) i ≡ false) → Elem i rest)
        → Elem i (n ∷ rest)
    kept rest n z u m from = elim (Bool-cases (i == n)) [
      | inl b ↦ inl (ground arith)
      | inr b ↦ elim m [ inl e ↦ absurd (ground arith) | inr k ↦ inr (from ((z, k), ground arith)) ]
    ]

-- No selected ancestor but the node itself.
pub ancestor-none :
    (node : ℕ) (selected ancestors : List ℕ)
    → has_selected_ancestor node selected ancestors ≡ false
    → (i : ℕ) → Elem i ancestors
    → i ≢ node
    → ¬ Elem i selected
ancestor-none node selected (a ∷ rest) h i (inl e) other m =
    let b = Elem-in_ids selected i m in ground arith
ancestor-none node selected (a ∷ rest) h i (inr n) other m =
    ancestor-none node selected rest (ground arith) i n other m
ancestor-none node selected [] h i n other m = elim n [ ]

pub ancestor-some :
    (node : ℕ) (selected ancestors : List ℕ)
    → has_selected_ancestor node selected ancestors ≡ true
    → (i : ℕ) × Elem i ancestors × (i ≢ node) × Elem i selected
ancestor-some node selected (a ∷ rest) h =
    elim (Bool-cases (not (a == node) && in_ids selected a)) [
      | inl b ↦ (a, inl refl, ground arith, in_ids-Elem selected a (ground arith))
      | inr b ↦
          let (i, m, o, n) = ancestor-some node selected rest (ground arith) in (i, inr m, o, n)
    ]
ancestor-some node selected [] h = cc

pub meets-none :
    (is others : List ℕ) → meets is others ≡ false → (i : ℕ) → Elem i is → ¬ Elem i others
meets-none (j ∷ js) others h i (inl e) m = let b = Elem-in_ids others i m in ground arith
meets-none (j ∷ js) others h i (inr n) m = meets-none js others (ground arith) i n m
meets-none [] others h i n m = elim n [ ]
