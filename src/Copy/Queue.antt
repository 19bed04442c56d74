-- ===== src/Copy/Queue.antt =====
-- A round of the loop of planNodeCopy (internal/usecase/node_copy.go): what it adds to the queue.
use omniflow_go.Prelude.{
  ℕ, zero, suc, ◌+◌, ◌-◌, ◌≤◌, ◌<◌, ◌≡◌, ◌≢◌, refl, sym, ap, ◌∙◌, ◌⊎◌, inl, inr, true, false, not,
  List, [], ◌∷◌, ◌==◌, ltb, length, take, All, All-of, Elem, arith, Bool-cases, subst, then_branch,
  else_branch,
}
use omniflow_go.Text.{is_empty, eqb}
use omniflow_go.Result.{ok, guard-eq-ok, ok_injective, >>=-eq-ok, invalid_argument}
use omniflow_go.Names.{NodeType, dir, file}
use omniflow_go.Storage.{Letters}
use omniflow_go.Storage.Registry.{Registry, get}
use omniflow_go.Copy.{
  Node, NodeCopyItem, Answers, max_copy_nodes, max_copy_bytes, has_id, see, plan_file,
  plan_directory, plan_item, plan_typed,
}

abbrev pub AreDistinct : List Node → Type 0
AreDistinct [] = Unit
AreDistinct (n ∷ ns) = All (λ m. m.id ≢ n.id) ns × AreDistinct ns

-- The bytes that a node adds to the total.
abbrev pub size_as : NodeType → ℕ → ℕ
size_as dir size = 0
size_as file size = size

abbrev pub size_of : Node → ℕ
size_of n = size_as n.type n.file_size

has_id-Elem : (id : ℕ) (xs : List ℕ) → Elem id xs → has_id id xs ≡ true
has_id-Elem id (x ∷ xs) (inl e) = ground arith
has_id-Elem id (x ∷ xs) (inr m) = ground (arith, has_id-Elem id xs m)
has_id-Elem id [] m = elim m [ ]

-- The loop over the children ends without an error where all their ids are new.
pub see_lem :
    (seen : List ℕ) (children : List Node) (seen' : List ℕ)
    → see seen children ≡ ok seen'
    → ((x : ℕ) → Elem x seen → Elem x seen')
      × ((c : Node) → Elem c children → Elem c.id seen')
      × ((c : Node) → Elem c children → ¬ Elem c.id seen)
      × AreDistinct children
unfolding see
see_lem seen [] seen' e =
    ((λ x m. subst (Elem x) (ok_injective e) m), (λ c m. elim m [ ]), (λ c m k. m), tt)
see_lem seen (c ∷ children) seen' e = elim (Bool-cases (has_id c.id seen)) [
  | inl b ↦ let e' = then_branch _ _ _ b ∙ e in cc
  | inr b ↦
      let (keeps, adds, new, distinct) =
        see_lem (c.id ∷ seen) children seen' (else_branch _ _ _ b ∙ e) in
      (
        (λ x m. keeps x (inr m)),
        (λ c' m. elim m [
          | inl s ↦ subst (λ y. Elem y.id seen') (sym s) (keeps c.id (inl refl))
          | inr m' ↦ adds c' m'
        ]),
        (λ c' m k. elim m [
          | inl s ↦ clash c.id seen b (subst (λ y. Elem y.id seen) s k)
          | inr m' ↦ new c' m' (inr k)
        ]),
        (All-of (λ m. m.id ≢ c.id) children (λ m k e. new m k (inl e)), distinct),
      )
]
  where
    clash : (id : ℕ) (xs : List ℕ) → has_id id xs ≡ false → Elem id xs → ⊥
    clash id xs b m = let e = has_id-Elem id xs m in cc

pub take-length : {A : Type 0} (n : ℕ) (xs : List A) → length (take n xs) < n → take n xs ≡ xs
take-length zero xs h = absurd (omega (arith, h))
take-length (suc n) [] h = refl
take-length (suc n) (x ∷ xs) h = ap (λ l. x ∷ l) (take-length n xs (omega (arith, h)))

module _ {S C : Type 0} (l : Letters) (r : Registry S C) (q : Answers S) (library : ℕ)
    (all : ℕ → List Node)
    (limited : (id limit : ℕ) (children : List Node)
      → q.list_children id library limit ≡ ok children
      → children ≡ take limit (all id)) where
  pub plan_directory_lem :
      (n : Node) (count : ℕ) (seen : List ℕ) (children : List Node) (seen' : List ℕ)
      → count ≤ max_copy_nodes
      → plan_directory l r q library n count seen ≡ ok (children, seen')
      → (children ≡ all n.id)
        × (count + length children ≤ max_copy_nodes)
        × (see seen children ≡ ok seen')
  unfolding plan_directory
  plan_directory_lem n count seen children seen' b e =
      let (cs, listed, e₁) = >>=-eq-ok _ _ e in
      let (few, e₂) = guard-eq-ok _ _ _ e₁ in
      let (s, saw, e₃) = >>=-eq-ok _ _ e₂ in
      let same = ok_injective e₃ in
      let whole = limited n.id _ cs listed in
      let small = is_few count (length cs) few in
      (
        sym (ap (λ p. p.0) same)
            ∙ whole
            ∙ take-length _ (all n.id) (
                subst (λ ys. length ys < max_copy_nodes - count + 1) whole
                  (is_short count (length cs) small b)),
        subst (λ ys. count + length ys ≤ max_copy_nodes) (ap (λ p. p.0) same) small,
        subst (λ ys. see seen ys ≡ ok seen') (ap (λ p. p.0) same)
            (saw ∙ ap ok (ap (λ p. p.1) same)),
      )
    where
      is_short :
          (a b : ℕ) → a + b ≤ max_copy_nodes → a ≤ max_copy_nodes → b < max_copy_nodes - a + 1
      is_short a b h h' = omega (arith, h, h')

      is_few : (a b : ℕ) → not (ltb max_copy_nodes (a + b)) ≡ true → a + b ≤ max_copy_nodes
      is_few a b h = ground arith

  pub plan_file_lem :
      (n : Node) (total : ℕ) (store : S) (total' : ℕ)
      → total ≤ max_copy_bytes
      → plan_file l r q n total ≡ ok (store, total')
      → (total' ≡ total + n.file_size) × (total' ≤ max_copy_bytes)
  unfolding plan_file
  plan_file_lem n total store total' b e =
      let (key, e₁) = guard-eq-ok (not (is_empty n.storage_key)) invalid_argument _ e in
      let (s, found, e₂) = >>=-eq-ok (get l r n.storage_provider) _ e₁ in
      let (bucket, e₃) = guard-eq-ok (eqb n.storage_bucket (q.bucket s)) invalid_argument _ e₂ in
      let (info, stat, e₄) = >>=-eq-ok (q.stat_object s n.storage_key) _ e₃ in
      let (size, e₅) = guard-eq-ok _ _ _ e₄ in
      let (room, e₆) = guard-eq-ok _ _ _ e₅ in
      let sum = ap (λ p. p.1) (ok_injective e₆) in
      sizes info.size n.file_size total total' size room sum b
    where
      sizes :
          (a b t t' : ℕ)
          → (a == b) ≡ true
          → not (ltb (max_copy_bytes - t) a) ≡ true
          → t + a ≡ t'
          → t ≤ max_copy_bytes
          → (t' ≡ t + b) × (t' ≤ max_copy_bytes)
      sizes a b t t' e h s u = (ground arith, ground arith)

  -- What a round does: a directory adds its children, a file its bytes.
  abbrev pub IsRound : Node → ℕ → List ℕ → ℕ → NodeCopyItem S → List Node → List ℕ → ℕ → Type 0
  IsRound n count seen total item children seen' total' =
      (item.node ≡ n)
      × (count + length children ≤ max_copy_nodes)
      × (see seen children ≡ ok seen')
      × (total' ≡ total + size_of n)
      × (total' ≤ max_copy_bytes)
      × (n.type ≡ dir → children ≡ all n.id)
      × ((n.type ≡ dir) ⊎ (children ≡ []))

  pub plan_item-IsRound :
      (i : ℕ) (n : Node) (count : ℕ) (seen : List ℕ) (total : ℕ) (item : NodeCopyItem S)
      (children : List Node) (seen' : List ℕ) (total' : ℕ)
      → count ≤ max_copy_nodes
      → total ≤ max_copy_bytes
      → plan_item l r q library i n count seen total ≡ ok (item, children, seen', total')
      → IsRound n count seen total item children seen' total'
  unfolding plan_item plan_typed see
  plan_item-IsRound i n count seen total item children seen' total' b b' e = by_type n.type refl e
    where
      not_both : (n : Node) → n.type ≡ file → n.type ≡ dir → ⊥
      not_both n e e' = let e'' = sym e ∙ e' in cc

      by_type :
          (t : NodeType)
          → n.type ≡ t
          → plan_typed l r q library i n count seen total t ≡ ok (item, children, seen', total')
          → IsRound n count seen total item children seen' total'
      by_type dir t e =
          let ((cs, s), planned, e₁) = >>=-eq-ok (plan_directory l r q library n count seen) _ e in
          let (whole, few, saw) = plan_directory_lem n count seen cs s b planned in
          let same = ok_injective e₁ in
          let kids = ap (λ p. p.1) same in
          let size = ap (λ k. size_as k n.file_size) t in
          (
            sym (ap (λ p. p.0.node) same),
            subst (λ ys. count + length ys ≤ max_copy_nodes) kids few,
            subst (λ ys. see seen ys ≡ ok seen') kids (saw ∙ ap ok (ap (λ p. p.2) same)),
            omega (arith, ap (λ p. p.3) same, size),
            subst (λ z. z ≤ max_copy_bytes) (ap (λ p. p.3) same) b',
            (λ d. sym kids ∙ whole),
            inl t,
          )
      by_type file t e =
          let ((store, sum), planned, e₁) = >>=-eq-ok (plan_file l r q n total) _ e in
          let (adds, room) = plan_file_lem n total store sum b' planned in
          let same = ok_injective e₁ in
          let kids = ap (λ p. p.1) same in
          let size = ap (λ k. size_as k n.file_size) t in
          (
            sym (ap (λ p. p.0.node) same),
            subst (λ ys. count + length ys ≤ max_copy_nodes) kids (omega (arith, b)),
            subst (λ ys. see seen ys ≡ ok seen') kids (ap ok (ap (λ p. p.2) same)),
            omega (arith, ap (λ p. p.3) same, size, adds),
            subst (λ z. z ≤ max_copy_bytes) (ap (λ p. p.3) same) room,
            (λ d. absurd (not_both n t d)),
            inr (sym kids),
          )
