-- ===== src/Copy/Single.antt =====
-- What the stores hold behind the copy of one object: copyNodeObject of
-- internal/usecase/node_copy.go.
use omniflow_go.Prelude.{
  ℕ, zero, suc, ◌-◌, ◌≤◌, ◌≡◌, ◌≢◌, refl, sym, ap, ◌∙◌, inl, inr, false, not, Option, some, List,
  [], ◌∷◌, ◌==◌, length, take, arith, Bool-cases, subst, then_branch, else_branch,
}
use omniflow_go.Text.{Text}
use omniflow_go.Result.{Result, ok, err}
use omniflow_go.Migration.Actions.{ObjectInfo}
use omniflow_go.Copy.{NodeCopyItem}
use omniflow_go.Copy.Objects.{Calls, uploaded_all, copy_bytes, copy_node_object}

-- What the stores promise: a call changes nothing but the key that it writes, the commit nothing; a
-- reader gives the bytes of the object, and its size; an upload without an error has stored the bytes
-- that it read.
pub record IsLawful {S D X : Type 0} (c : Calls S D X) (content : S → Text → X → Option (List ℕ))
    : Type 0 where
  pub commit_same :
      (d : D) (x : X) (s : S) (k : Text) → content s k (c.commit d x).2 ≡ content s k x
  pub get_same :
      (x : X) (t : S) (l : Text) (s : S) (k : Text)
      → content s k (c.get_object t l x).1 ≡ content s k x
  pub get_content :
      (x : X) (t : S) (l : Text) (bytes : List ℕ) (info : ObjectInfo)
      → (c.get_object t l x).0 ≡ ok (bytes, info)
      → (content t l x ≡ some bytes) × (info.size ≡ length bytes)
  pub upload_same :
      (x : X) (t : S) (l : Text) (bytes : List ℕ) (n : ℕ) (type : Text) (s : S) (k : Text)
      → k ≢ l
      → content s k (c.upload t l bytes n type x).2 ≡ content s k x
  pub upload_content :
      (x : X) (t : S) (l : Text) (bytes : List ℕ) (n : ℕ) (type : Text)
      → (c.upload t l bytes n type x).0 ≡ ok tt
      → content t l (c.upload t l bytes n type x).2
        ≡ some (take (c.upload t l bytes n type x).1 bytes)

take_all : {A : Type 0} (n : ℕ) (xs : List A) → length xs ≤ n → take n xs ≡ xs
take_all zero [] h = refl
take_all zero (x ∷ xs) h = absurd (omega (arith, h))
take_all (suc n) [] h = refl
take_all (suc n) (x ∷ xs) h = ap (λ l. x ∷ l) (take_all n xs (omega (arith, h)))

module _ {S D X : Type 0} (c : Calls S D X) (content : S → Text → X → Option (List ℕ))
    (lawful : IsLawful c content) where
  -- From these stores on, nothing but the new key was written, and it holds the source's bytes where
  -- there was no error.
  abbrev pub IsCopy : NodeCopyItem S → S → X → Result (Unit {0}) × X → Type 0
  IsCopy item store x r =
      ((s : S) (k : Text) → k ≢ item.key → content s k r.1 ≡ content s k x)
      × (r.0 ≡ ok tt → content store item.key r.1 ≡ content store item.node.storage_key x)

  uploaded_all-IsCopy :
      (item : NodeCopyItem S) (store : S) (x : X) (bytes : List ℕ) (size : ℕ)
      (u : Result (Unit {0}) × ℕ × X)
      → ((s : S) (k : Text) → k ≢ item.key → content s k u.2 ≡ content s k x)
      → (u.0 ≡ ok tt → content store item.key u.2 ≡ some (take u.1 bytes))
      → length bytes ≡ size
      → content store item.node.storage_key x ≡ some bytes
      → IsCopy item store x (uploaded_all c size u)
  unfolding uploaded_all
  uploaded_all-IsCopy item store x bytes size (err e, n, x') same held whole from = (same, λ e'. cc)
  uploaded_all-IsCopy item store x bytes size (ok u, n, x') same held whole from =
      elim (Bool-cases (not (size - n == 0))) [
        | inl b ↦ subst (IsCopy item store x) (then_branch _ _ _ b) (same, λ e'. cc)
        | inr b ↦ subst (IsCopy item store x) (else_branch _ _ _ b) (
          same,
          λ e'.
              held refl
              ∙ ap some (take_all n bytes (omega (arith, whole, all_read size n b)))
              ∙ sym from,
        )
      ]
    where
      all_read : (a b : ℕ) → not (a - b == 0) ≡ false → a ≤ b
      all_read a b h = ground arith

  copy_bytes-IsCopy :
      (item : NodeCopyItem S) (store : S) (x x' : X) (got : Result (List ℕ × ObjectInfo))
      → ((s : S) (k : Text) → content s k x' ≡ content s k x)
      → ((bytes : List ℕ) (info : ObjectInfo)
          → got ≡ ok (bytes, info)
          → (content store item.node.storage_key x ≡ some bytes) × (info.size ≡ length bytes))
      → IsCopy item store x (copy_bytes c item store (got, x'))
  unfolding copy_bytes
  copy_bytes-IsCopy item store x x' (err e) same read = ((λ s k n. same s k), λ e'. cc)
  copy_bytes-IsCopy item store x x' (ok (bytes, info)) same read =
      let (from, size) = read bytes info refl in
      let whole = take_all info.size bytes (omega (arith, size)) in
      elim (Bool-cases (not (info.size == item.node.file_size))) [
        | inl b ↦ subst (IsCopy item store x) (then_branch _ _ _ b) ((λ s k n. same s k), λ e'. cc)
        | inr b ↦ subst (IsCopy item store x) (else_branch _ _ _ b) (
            uploaded_all-IsCopy item store x (take info.size bytes) info.size _
              (λ s k n.
                lawful.upload_same x' store item.key (take info.size bytes) info.size
                  item.node.mime_type s k n
                ∙ same s k)
              (lawful.upload_content x' store item.key (take info.size bytes) info.size
                item.node.mime_type)
              (ap length whole ∙ sym size) (from ∙ ap some (sym whole)))
      ]

  pub copy_node_object-IsCopy :
      (item : NodeCopyItem S) (store : S) (x : X)
      → IsCopy item store x (copy_node_object c item store x)
  unfolding copy_node_object
  copy_node_object-IsCopy item store x =
      copy_bytes-IsCopy item store x (c.get_object store item.node.storage_key x).1
        (c.get_object store item.node.storage_key x).0
        (lawful.get_same x store item.node.storage_key)
        (lawful.get_content x store item.node.storage_key)
