-- ===== src/Migration/Readings.antt =====
-- That SwapStorageObject (internal/repository/postgres/impl/migration/swap.go) does not change what
-- the files read where the new object holds the bytes of the old one.
use omniflow_go.Prelude.{
  ℕ, ◌<◌, ◌≡◌, ◌≢◌, refl, sym, ap, ◌∙◌, inl, inr, true, false, ◌&&◌, Option, none, some, List, [],
  ◌∷◌, ◌++◌, map, ◌==◌, All, arith, Bool-cases, Option-cases, map_agree, ==_iff, subst,
}
use omniflow_go.Text.{Text}
use omniflow_go.Result.{Result, ok, err}
use omniflow_go.Storage.{Letters}
use omniflow_go.Storage.Registry.{Registry, get}
use omniflow_go.Migration.{TaskItem, StorageObject, NodeFile, SwapInput, find_row, new_object}
use omniflow_go.Migration.Contents.{
  Tables, is_object, held_by, stored, read, contents, deleted_object, pointed_file, swapped,
  IsClear, IsReferring, IsMigratable,
}
use omniflow_go.Migration.Found.{find-IsClear, find_other, find_deleted, find_new}

module _ {S C : Type 0} (l : Letters) (r : Registry S C) where
  held_by-agree :
      (held held' : S → Text → Option (List ℕ)) (k k' : Text) (q : Result S)
      → ((s : S) → held' s k' ≡ held s k)
      → held_by l r held' k' q ≡ held_by l r held k q
  held_by-agree held held' k k' (err e) h = refl
  held_by-agree held held' k k' (ok s) h = h s

  held_by-ok :
      (held : S → Text → Option (List ℕ)) (k : Text) (q : Result S) (s : S)
      → q ≡ ok s
      → held_by l r held k q ≡ held s k
  held_by-ok held k q s e = ap (held_by l r held k) e

  stored_kept :
      (held held' : S → Text → Option (List ℕ)) (o : StorageObject)
      → ((s : S) → held' s o.object_key ≡ held s o.object_key)
      → stored l r held' (some o) ≡ stored l r held (some o)
  stored_kept held held' o h =
      held_by-agree held held' o.object_key o.object_key (get l r o.provider) h

  -- A change of the stores that leaves every key of the objects alone.
  pub contents_kept :
      (i : TaskItem) (library : ℕ) (held held' : S → Text → Option (List ℕ)) (t : Tables)
      → IsMigratable i library t
      → ((s : S) (k : Text) → k ≢ i.target_key → held' s k ≡ held s k)
      → contents l r held' t ≡ contents l r held t
  contents_kept i library held held' (objects, files, next) (h, g) off =
      map_agree (read l r held' objects) (read l r held objects) files
        (λ f. ap (λ c. (f.library_id, f.file_id, c)) (same f))
    where
      same :
          (f : NodeFile)
          → stored l r held' (find_row (is_object f.storage_object_id f.library_id) objects)
            ≡ stored l r held (find_row (is_object f.storage_object_id f.library_id) objects)
      same f = elim (Option-cases (find_row (is_object f.storage_object_id f.library_id) objects)) [
        | inl e ↦ rw e refl
        | inr (o, e) ↦
            let (clear, a, b, live) = find-IsClear i library next _ _ objects o h e in
            rw e (stored_kept held held' o (λ s. off s o.object_key (clear live).0))
      ]

  module _ (i : TaskItem) (library : ℕ) (s : SwapInput) (held held' : S → Text → Option (List ℕ))
      (objects : List StorageObject) (next : ℕ) (clear : All (IsClear i library next) objects) where
    -- A file that does not refer to the old object.
    read_other :
        (f : NodeFile)
        → f.storage_object_id < next
        → (f.library_id == library && f.storage_object_id == i.storage_object_id) ≡ false
        → ((s : S) (k : Text) → k ≢ i.target_key → k ≢ i.source_key → held' s k ≡ held s k)
        → stored l r held' (
            find_row
              (is_object f.storage_object_id f.library_id)
              (map (deleted_object i.storage_object_id) (objects ++ (new_object s next ∷ []))))
          ≡ stored l r held (find_row (is_object f.storage_object_id f.library_id) objects)
    read_other f b m off = elim (Bool-cases (f.storage_object_id == i.storage_object_id)) [
      | inl e ↦
          let i_refers = (==_iff f.storage_object_id i.storage_object_id).0 e in
          rw
            (find_deleted i.storage_object_id s f.storage_object_id f.library_id next objects
              i_refers b)
            elim (Option-cases (find_row (is_object f.storage_object_id f.library_id) objects)) [
              | inl n ↦ rw n refl
              | inr (o, n) ↦
                  let (c, a, a', live) = find-IsClear i library next _ _ objects o clear n in
                  absurd (not_there f o (c live).3 a a' i_refers m)
            ]
      | inr e ↦
          rw
            (find_other i.storage_object_id s f.storage_object_id f.library_id next objects
              (ground arith) b)
            elim (Option-cases (find_row (is_object f.storage_object_id f.library_id) objects)) [
              | inl n ↦ rw n refl
              | inr (o, n) ↦
                  let (c, a, a', live) = find-IsClear i library next _ _ objects o clear n in
                  let (fresh, _, only, _) = c live in
                  rw n (
                    stored_kept held held' o
                      (λ s. off s o.object_key fresh (λ q. not_old f o (only q) a e)))
            ]
    ]
      where
        not_there :
            (f : NodeFile) (o : StorageObject)
            → (o.id ≡ i.storage_object_id
                → (o.library_id ≡ library)
                  × (o.provider ≡ i.source_provider)
                  × (o.object_key ≡ i.source_key))
            → o.id ≡ f.storage_object_id
            → o.library_id ≡ f.library_id
            → f.storage_object_id ≡ i.storage_object_id
            → (f.library_id == library && f.storage_object_id == i.storage_object_id) ≡ false
            → ⊥
        not_there f o h a a' e m = let same = (h (a ∙ e)).0 in ground arith

        not_old :
            (f : NodeFile) (o : StorageObject)
            → o.id ≡ i.storage_object_id
            → o.id ≡ f.storage_object_id
            → (f.storage_object_id == i.storage_object_id) ≡ false
            → ⊥
        not_old f o p a e = ground arith

    -- A file that does.
    read_switched :
        (source target : S)
        → s.library_id ≡ library
        → s.target_key ≡ i.target_key
        → i.storage_object_id < next
        → find_row (is_object i.storage_object_id library) objects ≢ none
        → get l r i.source_provider ≡ ok source
        → get l r s.target_provider ≡ ok target
        → held' target i.target_key ≡ held source i.source_key
        → stored l r held' (
            find_row
              (is_object next library)
              (map (deleted_object i.storage_object_id) (objects ++ (new_object s next ∷ []))))
          ≡ stored l r held (find_row (is_object i.storage_object_id library) objects)
    read_switched source target el ek b found gs gt same =
        elim (Option-cases (find_row (is_object i.storage_object_id library) objects)) [
          | inl n ↦ absurd (found n)
          | inr (o, n) ↦
              let (c, a, a', live) = find-IsClear i library next _ _ objects o clear n in
              let (_, _, _, where_it_is) = c live in
              let (_, provider, key) = where_it_is a in
              ap (stored l r held')
                (find_new i.storage_object_id s library next objects el b (ids objects clear))
              ∙ held_by-ok held' s.target_key _ target gt
              ∙ ap (held' target) ek
              ∙ same
              ∙ sym (ap (held source) key)
              ∙ sym (held_by-ok held o.object_key _ source (ap (get l r) provider ∙ gs))
              ∙ sym (ap (stored l r held) n)
        ]
      where
        ids :
            (xs : List StorageObject)
            → All (IsClear i library next) xs
            → All (λ o. o.is_deleted ≡ false → o.id < next) xs
        ids [] h = tt
        ids (x ∷ xs) h = (λ live. (h.0 live).1, ids xs h.1)

    -- The transaction's changes, where the new object holds the bytes of the old one.
    pub contents-swapped :
        (source target : S) (files : List NodeFile)
        → All (IsReferring i library (objects, files, next)) files
        → s.library_id ≡ library
        → s.target_key ≡ i.target_key
        → get l r i.source_provider ≡ ok source
        → get l r s.target_provider ≡ ok target
        → held' target i.target_key ≡ held source i.source_key
        → ((s : S) (k : Text) → k ≢ i.target_key → k ≢ i.source_key → held' s k ≡ held s k)
        → contents l r held' (swapped i.storage_object_id library s (objects, files, next))
          ≡ contents l r held (objects, files, next)
    contents-swapped source target files h el ek gs gt same off = over files h
      where
        each :
            (f : NodeFile)
            → IsReferring i library (objects, files, next) f
            → read l r held'
                (map (deleted_object i.storage_object_id) (objects ++ (new_object s next ∷ [])))
                (pointed_file i.storage_object_id library next f)
              ≡ read l r held objects f
        each f (b, found) =
            elim (Bool-cases
              (f.library_id == library && f.storage_object_id == i.storage_object_id)) [
                | inl m ↦
                    let (p, q) = refers f m in
                    rw m (
                      ap (λ c. (f.library_id, f.file_id, c))
                        (rw (p, q)
                          (read_switched source target el ek (subst (λ n. n < next) q b) (found q p)
                            gs gt same)))
                | inr m ↦ rw m (ap (λ c. (f.library_id, f.file_id, c)) (read_other f b m off))
              ]
          where
            refers :
                (f : NodeFile)
                → (f.library_id == library && f.storage_object_id == i.storage_object_id) ≡ true
                → (f.library_id ≡ library) × (f.storage_object_id ≡ i.storage_object_id)
            refers f m = (ground arith, ground arith)

        over :
            (fs : List NodeFile)
            → All (IsReferring i library (objects, files, next)) fs
            → contents l r held' (swapped i.storage_object_id library s (objects, fs, next))
              ≡ contents l r held (objects, fs, next)
        over [] h = refl
        over (f ∷ fs) h = rw (each f h.0, over fs h.1) refl
