-- ===== src/Migration/Found.antt =====
-- What a file's reference finds in the rows behind SwapStorageObject
-- (internal/repository/postgres/impl/migration/swap.go).
use omniflow_go.Prelude.{
  ℕ, ◌<◌, ◌≡◌, ◌≢◌, refl, ◌∙◌, inl, inr, true, false, none, some, List, [], ◌∷◌, ◌++◌, map, All,
  arith, Bool-cases, some_injective, then_branch, else_branch, subst,
}
use omniflow_go.Migration.{TaskItem, StorageObject, SwapInput, find_row, new_object}
use omniflow_go.Migration.Contents.{is_object, deleted_object, IsClear}

is_object-true :
    (id lib : ℕ) (o : StorageObject)
    → is_object id lib o ≡ true
    → (o.id ≡ id) × (o.library_id ≡ lib) × (o.is_deleted ≡ false)
is_object-true id lib o h = (ground arith, ground arith, ground arith)

-- What the row that is found satisfies.
pub find-IsClear :
    (i : TaskItem) (library next id lib : ℕ) (objects : List StorageObject) (o : StorageObject)
    → All (IsClear i library next) objects
    → find_row (is_object id lib) objects ≡ some o
    → IsClear i library next o × (o.id ≡ id) × (o.library_id ≡ lib) × (o.is_deleted ≡ false)
find-IsClear i library next id lib [] o h e = cc
find-IsClear i library next id lib (x ∷ xs) o h e = elim (Bool-cases (is_object id lib x)) [
  | inl p ↦
      let same = some_injective (then_branch _ _ _ p ∙ e) in
      subst
        (λ y.
          IsClear i library next y × (y.id ≡ id) × (y.library_id ≡ lib) × (y.is_deleted ≡ false))
        same (let (a, b, c) = is_object-true id lib x p in (h.0, a, b, c))
  | inr p ↦ find-IsClear i library next id lib xs o h.1 (else_branch _ _ _ p ∙ e)
]

module _ (old : ℕ) where
  deleted_other :
      (id lib : ℕ) (o : StorageObject)
      → id ≢ old
      → (is_object id lib (deleted_object old o) ≡ is_object id lib o)
        × (is_object id lib o ≡ true → deleted_object old o ≡ o)
  deleted_other id lib o h = (ground arith, λ p. ground arith)

  deleted_same :
      (id lib : ℕ) (o : StorageObject) → id ≡ old → is_object id lib (deleted_object old o) ≡ false
  deleted_same id lib o e = ground arith

  pub find_other :
      (s : SwapInput) (id lib next : ℕ) (objects : List StorageObject)
      → id ≢ old
      → id < next
      → find_row (is_object id lib) (map (deleted_object old) (objects ++ (new_object s next ∷ [])))
        ≡ find_row (is_object id lib) objects
  find_other s id lib next [] h b = ground arith
  find_other s id lib next (x ∷ xs) h b =
      let (same, kept) = deleted_other id lib x h in
      let rest = find_other s id lib next xs h b in
      elim (Bool-cases (is_object id lib x)) [
        | inl p ↦ rw (same, p, kept p) refl
        | inr p ↦ rw (same, p, rest) refl
      ]

  pub find_deleted :
      (s : SwapInput) (id lib next : ℕ) (objects : List StorageObject)
      → id ≡ old
      → id < next
      → find_row (is_object id lib) (map (deleted_object old) (objects ++ (new_object s next ∷ [])))
        ≡ none
  find_deleted s id lib next [] e b = ground arith
  find_deleted s id lib next (x ∷ xs) e b =
      rw (deleted_same id lib x e, find_deleted s id lib next xs e b) refl

  pub find_new :
      (s : SwapInput) (lib next : ℕ) (objects : List StorageObject)
      → s.library_id ≡ lib
      → old < next
      → All (λ o. o.is_deleted ≡ false → o.id < next) objects
      → find_row
          (is_object next lib)
          (map (deleted_object old) (objects ++ (new_object s next ∷ [])))
        ≡ some (new_object s next)
  find_new s lib next [] e b h = ground arith
  find_new s lib next (x ∷ xs) e b h = rw (no_match next x h.0, find_new s lib next xs e b h.1) refl
    where
      no_match :
          (n : ℕ) (o : StorageObject)
          → (o.is_deleted ≡ false → o.id < n)
          → is_object n lib (deleted_object old o) ≡ false
      no_match n o k = ground arith
