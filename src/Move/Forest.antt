-- ===== src/Move/Forest.antt =====
-- A move keeps the tree a tree.
use omniflow_go.Prelude.{
  ℕ, ◌≡◌, refl, ◌∙◌, ◌⊎◌, inl, inr, Bool, true, false, ◌&&◌, Option, none, some, List, arith, ◌==◌,
  Bool-cases, if◌then◌else◌, Elem,
}
use omniflow_go.Store.{Row, is_live, Sub}

-- A live row of the library.
abbrev pub in_tree : ℕ → Row → Bool
in_tree library r = is_live r && r.library == library

-- The parents of the row with this key lead to a row with no parent, through live rows.
pub data Rooted (library : ℕ) (rows : List Row) : ℕ → Type 0 where
  root :
      {i : ℕ} (r : Row)
      → Elem r rows
      → in_tree library r ≡ true
      → r.parent ≡ none
      → r.id ≡ i
      → Rooted library rows i
  child :
      {i j : ℕ} (r : Row)
      → Rooted library rows j
      → Elem r rows
      → in_tree library r ≡ true
      → r.parent ≡ some j
      → r.id ≡ i
      → Rooted library rows i

-- Every live row hangs on a root: there is no cycle, and no row below a deleted one.
abbrev pub IsForest : ℕ → List Row → Type 0
IsForest library rows =
    (r : Row) → Elem r rows → in_tree library r ≡ true → Rooted library rows r.id

abbrev pub is_node : ℕ → ℕ → Row → Bool
is_node library node r = is_live r && r.id == node && r.library == library

-- One row `node` of `rows` gets the parent `p`; `after` is the result.
module _ (library node : ℕ) (p : Option ℕ) (rows after : List Row) where
  -- A row stays, and the row `node` is there with its new parent.
  abbrev pub Moves : Type 0
  Moves =
      (r : Row)
      → Elem r rows
      → in_tree library r ≡ true
      → (q : Row) × Elem q after
        × (in_tree library q ≡ true)
        × (q.id ≡ r.id)
        × (q.parent ≡ (if r.id == node then p else r.parent))

  abbrev pub Below : ℕ → Type 0
  Below i = Sub rows (is_node library node) (in_tree library) i

  not_node :
      (r : Row) → Elem r rows → in_tree library r ≡ true → ¬ Below r.id → r.id == node ≡ false
  not_node r m t out = elim (Bool-cases (r.id == node)) [
    | inl e ↦ absurd (out (Sub.seeded r m (ground arith) refl))
    | inr e ↦ e
  ]

  -- What is not below the node keeps its way to a root.
  Rooted-outside : Moves → {i : ℕ} → Rooted library rows i → ¬ Below i → Rooted library after i
  Rooted-outside h (Rooted.root r m t e f) out =
      let (q, n, u, g, k) = h r m t in
      let other : r.id == node ≡ false = not_node r m t (rw f out) in
      Rooted.root q n u (rw (other, e) at k) (g ∙ f)
  Rooted-outside h (Rooted.child {j = j} r w m t e f) out =
      let (q, n, u, g, k) = h r m t in
      let other : r.id == node ≡ false = not_node r m t (rw f out) in
      Rooted.child q (Rooted-outside h w (λ b. out (Sub.joined r b m t e f))) n u
        (rw (other, e) at k) (g ∙ f)

  -- The new parent: none, or a row that hangs on a root and is not below the node.
  abbrev pub IsSafe : Type 0
  IsSafe = (p ≡ none) ⊎ ((j : ℕ) × (p ≡ some j) × Rooted library rows j × ¬ Below j)

  under_parent :
      Moves
      → IsSafe
      → (q : Row) → Elem q after
      → in_tree library q ≡ true
      → q.parent ≡ p
      → Rooted library after q.id
  under_parent h (inl e) q n u k = Rooted.root q n u (k ∙ e) refl
  under_parent h (inr (j, e, w, out)) q n u k =
      Rooted.child q (Rooted-outside h w out) n u (k ∙ e) refl

  Rooted-after : Moves → IsSafe → {i : ℕ} → Rooted library rows i → Rooted library after i
  Rooted-after h safe (Rooted.root r m t e f) =
      let (q, n, u, g, k) = h r m t in
      elim (Bool-cases (r.id == node)) [
        | inl b ↦ rw (← f, ← g) (under_parent h safe q n u (rw b at k))
        | inr b ↦ Rooted.root q n u (rw (b, e) at k) (g ∙ f)
      ]
  Rooted-after h safe (Rooted.child {j = j} r w m t e f) =
      let (q, n, u, g, k) = h r m t in
      let ih = Rooted-after h safe w in
      elim (Bool-cases (r.id == node)) [
        | inl b ↦ rw (← f, ← g) (under_parent h safe q n u (rw b at k))
        | inr b ↦ Rooted.child q ih n u (rw (b, e) at k) (g ∙ f)
      ]

  pub IsForest-move :
      Moves
      → IsSafe
      → ((q : Row)
          → Elem q after
          → in_tree library q ≡ true
          → (r : Row) × Elem r rows × (in_tree library r ≡ true) × (r.id ≡ q.id))
      → IsForest library rows
      → IsForest library after
  IsForest-move h safe source forest q n u =
      let (r, m, t, e) = source q n u in rw (← e) (Rooted-after h safe (forest r m t))
