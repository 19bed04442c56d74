-- ===== src/Migration/Contents.antt =====
-- What the files of the libraries read, and the tables behind the statements of SwapStorageObject
-- (internal/repository/postgres/impl/migration/swap.go).
use omniflow_go.Prelude.{
  ℕ, suc, ◌<◌, ◌≡◌, ◌≢◌, Bool, true, false, ◌&&◌, not, Option, none, some, List, [], ◌∷◌, ◌++◌, map,
  ◌==◌, if◌then◌else◌, All,
}
use omniflow_go.Text.{Text}
use omniflow_go.Result.{Result, ok, err}
use omniflow_go.Storage.{Letters}
use omniflow_go.Storage.Registry.{Registry, get}
use omniflow_go.Migration.{TaskItem, StorageObject, NodeFile, Db, SwapInput, find_row, new_object}

abbrev pub Tables : Type 0
Tables = List StorageObject × List NodeFile × ℕ

abbrev pub tables : Db → Tables
tables db = (db.objects, db.files, db.next_object)

-- The row that a file's reference finds: its id and its library, where it is not deleted.
abbrev pub is_object : ℕ → ℕ → StorageObject → Bool
is_object id library o = o.id == id && o.library_id == library && not o.is_deleted

module _ {S C : Type 0} (l : Letters) (r : Registry S C) where
  -- What the store that was looked up holds.
  abbrev pub held_by : (S → Text → Option (List ℕ)) → Text → Result S → Option (List ℕ)
  held_by held key (err e) = none
  held_by held key (ok s) = held s key

  abbrev pub stored : (S → Text → Option (List ℕ)) → Option StorageObject → Option (List ℕ)
  stored held none = none
  stored held (some o) = held_by held o.object_key (get l r o.provider)

  abbrev pub read :
      (S → Text → Option (List ℕ)) → List StorageObject → NodeFile → ℕ × ℕ × Option (List ℕ)
  read held objects f = (
    f.library_id,
    f.file_id,
    stored held (find_row (is_object f.storage_object_id f.library_id) objects),
  )

  -- Each file with the bytes that it reads.
  abbrev pub contents : (S → Text → Option (List ℕ)) → Tables → List (ℕ × ℕ × Option (List ℕ))
  contents held t = map (read held t.0) t.1

-- The rows and the tables after the statements, the old object being `old` of this library.
abbrev pub deleted_object : ℕ → StorageObject → StorageObject
deleted_object id o = if o.id == id && not o.is_deleted then record o { is_deleted = true } else o

abbrev pub pointed_file : ℕ → ℕ → ℕ → NodeFile → NodeFile
pointed_file old library new f =
    if f.library_id == library && f.storage_object_id == old
    then record f { storage_object_id = new }
    else f

abbrev pub inserted : SwapInput → Tables → Tables
inserted s t = (t.0 ++ (new_object s t.2 ∷ []), t.1, suc t.2)

abbrev pub pointed : ℕ → ℕ → ℕ → Tables → Tables
pointed old library new t = (t.0, map (pointed_file old library new) t.1, t.2)

abbrev pub dropped : ℕ → Tables → Tables
dropped old t = (map (deleted_object old) t.0, t.1, t.2)

abbrev pub swapped : ℕ → ℕ → SwapInput → Tables → Tables
swapped old library s t = dropped old (pointed old library t.2 (inserted s t))

-- Of an object that is not deleted: the new key is not its key, the new id is not its id; it has the
-- old key only if it is the old object; and the old object is where the item says.
abbrev pub IsClear : TaskItem → ℕ → ℕ → StorageObject → Type 0
IsClear i library next o =
    o.is_deleted ≡ false
    → (o.object_key ≢ i.target_key)
      × (o.id < next)
      × (o.object_key ≡ i.source_key → o.id ≡ i.storage_object_id)
      × (o.id ≡ i.storage_object_id
          → (o.library_id ≡ library)
            × (o.provider ≡ i.source_provider)
            × (o.object_key ≡ i.source_key))

-- Of a file: its reference is older than the new id, and finds the old object if it names that.
abbrev pub IsReferring : TaskItem → ℕ → Tables → NodeFile → Type 0
IsReferring i library t f =
    (f.storage_object_id < t.2)
    × (f.storage_object_id ≡ i.storage_object_id
        → f.library_id ≡ library
        → find_row (is_object i.storage_object_id library) t.0 ≢ none)

abbrev pub IsMigratable : TaskItem → ℕ → Tables → Type 0
IsMigratable i library t = All (IsClear i library t.2) t.0 × All (IsReferring i library t) t.1
