-- ===== src/Migration/Good.antt =====
-- When the items that Enqueue makes of the references (internal/usecase/migration.go: target_key,
-- item_inputs) may be processed.
use omniflow_go.Prelude.{
  ℕ, suc, ◌<◌, ◌≡◌, ◌≢◌, refl, sym, ap, ◌∙◌, inl, inr, Bool, true, false, ◌&&◌, not, none, List, [],
  ◌∷◌, ◌==◌, length, All, All_elem, All-of, Elem, arith, Bool-cases, else_branch,
}
use omniflow_go.Text.{Text}
use omniflow_go.Migration.{ItemStatus, TaskItem, StorageObject, find_row}
use omniflow_go.Migration.Requests.{
  StorageObjectRef, CreateItemInput, target_key, item_input, new_item, new_items,
}
use omniflow_go.Migration.Contents.{Tables, IsClear, IsReferring, IsMigratable}

-- The row that a reference was read from, of this library.
abbrev pub IsRefOf : ℕ → List StorageObject → StorageObjectRef → Type 0
IsRefOf library objects ref =
    (o : StorageObject) × Elem o objects
    × (o.is_deleted ≡ false)
    × (o.library_id ≡ library)
    × (o.id ≡ ref.storage_object_id)
    × (o.provider ≡ ref.provider)
    × (o.object_key ≡ ref.object_key)
    × (o.content_length ≡ ref.content_length)

-- Of the objects that are not deleted: an id stands for one row, a key for one id, and the ids are
-- below the next value of the sequence.
abbrev pub AreDistinct : Tables → Type 0
AreDistinct t =
    (a b : StorageObject)
    → Elem a t.0
    → Elem b t.0
    → a.is_deleted ≡ false
    → b.is_deleted ≡ false
    → (a.id < t.2) × (a.object_key ≡ b.object_key → a.id ≡ b.id) × (a.id ≡ b.id → a ≡ b)

-- An item with this input waits for a worker, may be processed in this library, and has the key, the
-- provider and the size of a live object of it.
abbrev pub IsGood : ℕ → Tables → TaskItem → Type 0
IsGood library t i =
    IsMigratable i library t
    × (i.source_key ≢ i.target_key)
    × (i.status ≡ ItemStatus.pending)
    × IsRefOf library t.0 (record {
      storage_object_id = i.storage_object_id;
      provider = i.source_provider;
      bucket = i.source_bucket;
      object_key = i.source_key;
      content_length = i.file_size;
      content_type = [];
    })

find_row-Elem :
    {A : Type 0} (p : A → Bool) (a : A) (xs : List A)
    → Elem a xs
    → p a ≡ true
    → find_row p xs ≢ none
find_row-Elem p a (x ∷ xs) m h e = elim (Bool-cases (p x)) [
  | inl q ↦ let e' = rw q at e in cc
  | inr q ↦ elim m [ inl same ↦ cc | inr m' ↦ find_row-Elem p a xs m' h (else_branch _ _ _ q ∙ e) ]
]
find_row-Elem p a [] m h e = elim m [ ]

pub item_input-IsGood :
    (library : ℕ) (t : Tables) (u : Text) (ref : StorageObjectRef)
    → AreDistinct t
    → All (λ f. f.storage_object_id < t.2) t.1
    → All (λ o. o.object_key ≢ target_key library u ref.object_key) t.0
    → IsRefOf library t.0 ref
    → IsGood library t (new_item [] 0 (item_input library u ref))
item_input-IsGood library t u ref distinct below fresh (o, m, live, lib, id, provider, key, size) =
    (
      (
        All-of (IsClear i library t.2) t.0 (λ a m' live'.
            let (b, same_key, same_id) = distinct a o m' m live' live in
            (
              All_elem _ a t.0 fresh m',
              b,
              λ e. same_key (e ∙ sym key) ∙ id,
              λ e.
                  let same = same_id (e ∙ sym id) in
                  (
                    ap (λ x. x.library_id) same ∙ lib,
                    ap (λ x. x.provider) same ∙ provider,
                    ap (λ x. x.object_key) same ∙ key,
                  ),
            )),
        All-of (IsReferring i library t) t.1 (λ f m'. (
          All_elem _ f t.1 below m',
          λ e e'.
              find_row-Elem _ o t.0 m (
                is_found (o.id) o.library_id library ref.storage_object_id o.is_deleted id lib
                  live),
        )),
      ),
      λ e. All_elem _ o t.0 fresh m (key ∙ e),
      refl,
      (o, m, live, lib, id, provider, key, size),
    )
  where
    i : TaskItem
    i = new_item [] 0 (item_input library u ref)

    is_found :
        (a b c d : ℕ) (z : Bool) → a ≡ d → b ≡ c → z ≡ false → (a == d && b == c && not z) ≡ true
    is_found a b c d z e e' e'' = ground arith

pub new_items-All :
    (P : TaskItem → Type 0) (task : Text) (id : ℕ) (inputs : List CreateItemInput)
    → ((n : ℕ) → All (λ i. P (new_item task n i)) inputs)
    → All P (new_items task id inputs) × (length (new_items task id inputs) ≡ length inputs)
new_items-All P task id [] h = (tt, refl)
new_items-All P task id (i ∷ inputs) h =
    let (rest, n) = new_items-All P task (suc id) inputs (λ n. (h n).1) in
    (((h id).0, rest), ap suc n)
