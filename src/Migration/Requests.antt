-- ===== src/Migration/Requests.antt =====
-- The requests of internal/usecase/migration.go, Enqueue and Cancel, with CreateTaskWithItems of
-- internal/repository/postgres/impl/migration/repository.go and ClaimNextItem of items.go; and the
-- round of a worker, tickOnce of internal/usecase/migration_worker.go. The audit log is left out.
use omniflow_go.Prelude.{
  ℕ, suc, ◌+◌, Bool, true, false, ◌&&◌, ◌||◌, not, Option, none, some, List, [], ◌∷◌, ◌++◌, map,
  ◌==◌, ◌%◌, leb, if◌then◌else◌, length, is_nil,
}
use omniflow_go.Text.{Text, codes, eqb, is_empty, trim_space, decimal, path_ext, ext_loop}
use omniflow_go.Result.{
  Error, Result, ok, invalid_argument, not_found, conflict, repository_not_found,
}
use omniflow_go.Authz.{Actor, authorize}
use omniflow_go.Storage.{Letters}
use omniflow_go.Storage.Registry.{Registry, get}
use omniflow_go.Migration.{
  TaskStatus, ItemStatus, Task, TaskItem, Db, is_terminal, is_pending, update_items,
}
use omniflow_go.Migration.Actions.{
  Outside, Action, done, fail, handle, ◌>>=◌, ◌>>◌, attempt, lift, statement,
}
use omniflow_go.Migration.Tasks.{get_task, update_task_status, skip_pending_items_for_task}
use omniflow_go.Migration.Process.{process_item}

-- StorageObjectRef
pub record StorageObjectRef : Type 0 where
  pub storage_object_id : ℕ
  pub provider : Text
  pub bucket : Text
  pub object_key : Text
  pub content_length : ℕ
  pub content_type : Text

-- EnqueueMigrationCommand
pub record EnqueueMigrationCommand : Type 0 where
  pub actor : Actor
  pub library_id : ℕ
  pub root_node_id : ℕ
  pub target_provider : Text
  pub dry_run : Bool

-- EnqueueMigrationResult, less the fields that repeat the task's.
pub record EnqueueMigrationResult : Type 0 where
  pub dry_run : Bool
  pub task : Task
  pub target_bucket : Text
  pub storage_object_ids : List ℕ

-- CreateItemInput
pub record CreateItemInput : Type 0 where
  pub storage_object_id : ℕ
  pub source_provider : Text
  pub source_bucket : Text
  pub source_key : Text
  pub target_key : Text
  pub file_size : ℕ

-- The key that Enqueue makes for an object.
unfoldable pub target_key : ℕ → Text → Text → Text
unfolding ext_loop
target_key library uuid object_key =
    codes "libraries/" ++ (decimal library ++ (codes "/" ++ (uuid ++ path_ext object_key)))

abbrev pub item_input : ℕ → Text → StorageObjectRef → CreateItemInput
item_input library uuid ref = record {
  storage_object_id = ref.storage_object_id;
  source_provider = ref.provider;
  source_bucket = ref.bucket;
  source_key = ref.object_key;
  target_key = target_key library uuid ref.object_key;
  file_size = ref.content_length;
}

abbrev pub total_bytes : List StorageObjectRef → ℕ
total_bytes [] = 0
total_bytes (ref ∷ refs) = ref.content_length + total_bytes refs

-- The rows that CreateTaskWithItems inserts.
abbrev pub new_item : Text → ℕ → CreateItemInput → TaskItem
new_item task id i = record {
  id = id;
  task_id = task;
  storage_object_id = i.storage_object_id;
  source_provider = i.source_provider;
  source_bucket = i.source_bucket;
  source_key = i.source_key;
  target_storage_object_id = 0;
  target_key = i.target_key;
  file_size = i.file_size;
  status = ItemStatus.pending;
}

abbrev pub new_items : Text → ℕ → List CreateItemInput → List TaskItem
new_items task id [] = []
new_items task id (i ∷ inputs) = new_item task id i ∷ new_items task (suc id) inputs

abbrev pub insert_task : Task → Db → Db
insert_task t db = record db { tasks = t ∷ db.tasks }

abbrev pub insert_items : Text → List CreateItemInput → Db → Db
insert_items task inputs db = record db {
  items = db.items ++ new_items task db.next_item inputs;
  next_item = db.next_item + length inputs;
}

-- The first row of an UPDATE ... FROM (SELECT ... WHERE status = 'pending' ORDER BY id LIMIT 1
-- FOR UPDATE SKIP LOCKED), `locked` being the rows that other transactions hold.
abbrev pub earlier : TaskItem → Option TaskItem → TaskItem
earlier i none = i
earlier i (some j) = if leb i.id j.id then i else j

abbrev pub first_pending : (ℕ → Bool) → List TaskItem → Option TaskItem
first_pending locked [] = none
first_pending locked (i ∷ items) =
    let rest = first_pending locked items in
    if is_pending i.status && not (locked i.id) then some (earlier i rest) else rest

abbrev pub running : TaskItem → TaskItem
running i = record i { status = ItemStatus.running }

abbrev pub claimed : Option TaskItem → Db → Result (Option TaskItem) × Db
claimed none db = (ok none, db)
claimed (some i) db = (ok (some (running i)), update_items i.id running db)

module _ {S C X : Type 0} (l : Letters) (o : Outside S X) (r : Registry S C) where
  unfoldable pub claim_next_item : (ℕ → Bool) → Action X (Option TaskItem)
  claim_next_item locked = statement o (λ db. claimed (first_pending locked db.items) db)

  abbrev pub process_claimed : Option TaskItem → Action X Bool
  process_claimed none = done false
  process_claimed (some i) = handle (process_item l o r i) (λ u. done true) (λ e. done true)

  abbrev pub is_missing : Error → Bool
  is_missing repository_not_found = true
  is_missing e = false

  -- tickOnce
  unfoldable pub tick_once : (ℕ → Bool) → Action X Bool
  unfolding claim_next_item
  tick_once locked =
      handle (claim_next_item locked) process_claimed
        (λ e. if is_missing e then done false else fail e)

  -- loadTask
  unfoldable pub load_task : Actor → Text → Action X Task
  load_task principal task_id =
      if is_empty (trim_space task_id)
      then fail invalid_argument
      else handle (get_task o (trim_space task_id))
          (λ t. if not (eqb t.actor_id principal.id) then fail not_found else done t)
          (λ e. if is_missing e then fail not_found else fail e)

  -- Cancel
  unfoldable pub cancel : Actor → Text → Action X (Unit {0})
  unfolding load_task
  cancel principal task_id = load_task principal task_id >>= λ t.
      if is_terminal t.status
      then fail conflict
      else update_task_status o t.id TaskStatus.canceled
        >> (attempt (skip_pending_items_for_task o t.id) >> done tt)

  -- CreateTaskWithItems
  unfoldable pub create_task_with_items : Task → List CreateItemInput → Action X Task
  create_task_with_items t inputs =
      statement o (λ db. (ok tt, insert_task t db))
      >> (if is_nil inputs then done t else statement o (λ db. (ok t, insert_items t.id inputs db)))

  -- The owners that the authorizer looks up, the recursive query of
  -- EnumerateStorageObjectsUnderNode, and uuid.NewString.
  module _ (owner : Option (ℕ → Result ℕ))
      (enumerate : ℕ → ℕ → Text → Db → Result (List StorageObjectRef))
      (new_uuid : X → Text × X) where
    -- authorize, the authorizer being absent or there.
    unfoldable pub authorize_library : Actor → ℕ → Text → Result (Unit {0})
    authorize_library principal library action = elim owner [
      | none ↦ ok tt
      | some f ↦
          authorize f principal (record { kind = codes "library"; id = decimal library }) action
    ]

    abbrev pub uuid : Action X Text
    uuid w = (ok (new_uuid w.outside).0, record { db = w.db; outside = (new_uuid w.outside).1 })

    -- The loop over the references.
    unfoldable pub item_inputs : ℕ → List StorageObjectRef → Action X (List CreateItemInput)
    unfolding target_key
    item_inputs library [] = done []
    item_inputs library (ref ∷ refs) =
        uuid >>= λ u. item_inputs library refs >>= λ rest. done (item_input library u ref ∷ rest)

    -- `int32(len(refs))` is kept as the bits of its 32; int64 has room for the bytes of real stores.
    abbrev pub new_task : EnqueueMigrationCommand → Text → Text → List StorageObjectRef → Task
    new_task cmd id target refs = record {
      id = id;
      actor_id = cmd.actor.id;
      library_id = cmd.library_id;
      root_node_id = cmd.root_node_id;
      target_provider = target;
      status = TaskStatus.pending;
      total_objects = length refs % 4294967296;
      completed_objects = 0;
      failed_objects = 0;
      skipped_objects = 0;
      total_bytes = total_bytes refs;
      transferred_bytes = 0;
      current_object_key = [];
    }

    abbrev pub result : Bool → Task → S → List StorageObjectRef → EnqueueMigrationResult
    result dry task store refs = record {
      dry_run = dry;
      task = task;
      target_bucket = o.bucket store;
      storage_object_ids = map (λ ref. ref.storage_object_id) refs;
    }

    -- From the items on.
    unfoldable pub create_or_preview :
        EnqueueMigrationCommand
        → Text
        → S
        → List StorageObjectRef
        → List CreateItemInput
        → Action X EnqueueMigrationResult
    unfolding create_task_with_items
    create_or_preview cmd target store refs inputs =
        if cmd.dry_run
        then done (result true (new_task cmd [] target refs) store refs)
        else if length refs % 4294967296 == 0
        then fail invalid_argument
        else uuid >>= λ id. create_task_with_items (new_task cmd id target refs) inputs >>= λ t.
            done (result false t store refs)

    -- From the lookup of the target's store on.
    unfoldable pub enumerate_and_create :
        EnqueueMigrationCommand → Text → Action X EnqueueMigrationResult
    unfolding item_inputs create_or_preview
    enumerate_and_create cmd target =
        handle (lift (get l r target))
          (λ store.
            statement o (λ db. (enumerate cmd.library_id cmd.root_node_id target db, db))
            >>= λ refs. item_inputs cmd.library_id refs >>= λ inputs.
                create_or_preview cmd target store refs inputs)
          (λ e. fail invalid_argument)

    -- Enqueue, the repository and the registry being there.
    unfoldable pub enqueue : EnqueueMigrationCommand → Action X EnqueueMigrationResult
    unfolding authorize_library enumerate_and_create
    enqueue cmd =
        if cmd.library_id == 0 || cmd.root_node_id == 0
        then fail invalid_argument
        else if is_empty (trim_space cmd.target_provider)
        then fail invalid_argument
        else lift (authorize_library cmd.actor cmd.library_id (codes "write"))
          >> enumerate_and_create cmd (trim_space cmd.target_provider)
