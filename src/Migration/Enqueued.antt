-- ===== src/Migration/Enqueued.antt =====
-- That Enqueue (internal/usecase/migration.go) adds items that the workers may process.
use omniflow_go.Prelude.{ℕ, ◌<◌, ◌≡◌, ◌≢◌, Option, List, [], ◌++◌, if◌then◌else◌, length, All}
use omniflow_go.Text.{Text}
use omniflow_go.Result.{Result, ok}
use omniflow_go.Storage.{Letters}
use omniflow_go.Storage.Registry.{Registry}
use omniflow_go.Migration.{TaskItem, Db}
use omniflow_go.Migration.Actions.{Outside, World}
use omniflow_go.Migration.Requests.{
  StorageObjectRef, EnqueueMigrationCommand, EnqueueMigrationResult, CreateItemInput, target_key,
  new_item,
}
use omniflow_go.Migration.Holds.{Holds, Both}
use omniflow_go.Migration.Contents.{tables}
use omniflow_go.Migration.Good.{IsRefOf, AreDistinct, IsGood}

-- So many items of a task were added, which wait and may be processed, and the objects and the files
-- are as before.
abbrev pub IsAdded : {X : Type 0} → ℕ → Db → ℕ → Text → World X → Type 0
IsAdded library before n task w =
    (added : List TaskItem) × (w.db.items ≡ before.items ++ added)
    × (length added ≡ n)
    × All (IsGood library (tables w.db)) added
    × All (λ i. i.task_id ≡ task) added
    × (tables w.db ≡ tables before)

-- How many items the result promises.
abbrev pub planned : EnqueueMigrationResult → ℕ
planned res = if res.dry_run then 0 else res.task.total_objects

module _ {S C X : Type 0} (l : Letters) (o : Outside S X) (r : Registry S C)
    (owner : Option (ℕ → Result ℕ)) (enumerate : ℕ → ℕ → Text → Db → Result (List StorageObjectRef))
    (new_uuid : X → Text × X) (library : ℕ) (before : Db) (distinct : AreDistinct (tables before))
    (below : All (λ f. f.storage_object_id < before.next_object) before.files)
    (fresh : (x : X) (key : Text)
      → All (λ o. o.object_key ≢ target_key library (new_uuid x).0 key) before.objects) where
  abbrev Anywhere : X → Type 0
  Anywhere x = Unit

  -- Nothing but a task may have been added.
  abbrev Unchanged : Db → Type 0
  Unchanged db = (tables db ≡ tables before) × (db.items ≡ before.items)

  abbrev Added : ℕ → Text → World X → Type 0
  Added n task w = IsAdded library before n task w

  -- References to live objects of the library, fewer than an int32 can count.
  abbrev AreRefs : List StorageObjectRef → Type 0
  AreRefs refs = All (IsRefOf library before.objects) refs × (length refs < 2147483648)

  abbrev AreGood : List CreateItemInput → Type 0
  AreGood inputs = All (λ i. IsGood library (tables before) (new_item [] 0 i)) inputs

  module _ (cmd : EnqueueMigrationCommand) (ours : cmd.library_id ≡ library)
      (sound : (root : ℕ) (target : Text) (refs : List StorageObjectRef)
        → enumerate library root target before ≡ ok refs
        → AreRefs refs) where
    abbrev AtStart : World X → Type 0
    AtStart = Both (λ db. db ≡ before) Anywhere
