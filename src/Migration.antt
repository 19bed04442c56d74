-- ===== src/Migration.antt =====
-- Storage migration: the tables `migration_tasks`, `migration_task_items`, `storage_objects` and
-- `node_files` (internal/domain/migration/task.go), and the statements of
-- internal/repository/postgres/impl/migration (repository.go, items.go, swap.go) on them. Times and
-- error messages are left out.
pub mod Actions
pub mod Tasks
pub mod Process
pub mod Holds
pub mod Contents
pub mod Found
pub mod Readings
pub mod Keeps
pub mod Swapped
pub mod Stages
pub mod Invisible
pub mod Requests
pub mod Good
pub mod Enqueued
pub mod Steps
pub mod Counts
pub mod Bounded
use omniflow_go.Prelude.{
  ℕ, suc, ◌+◌, Bool, true, false, ◌&&◌, ◌||◌, not, Option, none, some, List, [], ◌∷◌, ◌++◌, map,
  ◌==◌, ltb, leb, if◌then◌else◌,
}
use omniflow_go.Text.{Text, eqb, is_empty}

pub data TaskStatus : Type 0 where
  pending running completed failed canceled : TaskStatus

pub data ItemStatus : Type 0 where
  pending running done failed skipped : ItemStatus

pub record Task : Type 0 where
  pub id : Text
  pub actor_id : Text
  pub library_id : ℕ
  pub root_node_id : ℕ
  pub target_provider : Text
  pub status : TaskStatus
  pub total_objects : ℕ
  pub completed_objects : ℕ
  pub failed_objects : ℕ
  pub skipped_objects : ℕ
  pub total_bytes : ℕ
  pub transferred_bytes : ℕ
  pub current_object_key : Text

-- `target_storage_object_id` is 0 for NULL.
pub record TaskItem : Type 0 where
  pub id : ℕ
  pub task_id : Text
  pub storage_object_id : ℕ
  pub source_provider : Text
  pub source_bucket : Text
  pub source_key : Text
  pub target_storage_object_id : ℕ
  pub target_key : Text
  pub file_size : ℕ
  pub status : ItemStatus

-- `is_deleted` stands for a `deleted_at` that is not NULL.
pub record StorageObject : Type 0 where
  pub id : ℕ
  pub library_id : ℕ
  pub provider : Text
  pub bucket : Text
  pub object_key : Text
  pub content_length : ℕ
  pub content_type : Option Text
  pub etag : Option Text
  pub is_deleted : Bool

pub record NodeFile : Type 0 where
  pub library_id : ℕ
  pub file_id : ℕ
  pub storage_object_id : ℕ

-- `next_object` and `next_item` are the next values of the sequences of `storage_objects.id` and
-- `migration_task_items.id`.
pub record Db : Type 0 where
  pub tasks : List Task
  pub items : List TaskItem
  pub objects : List StorageObject
  pub files : List NodeFile
  pub next_object : ℕ
  pub next_item : ℕ

-- IsTerminal
abbrev pub is_terminal : TaskStatus → Bool
is_terminal TaskStatus.pending = false
is_terminal TaskStatus.running = false
is_terminal TaskStatus.completed = true
is_terminal TaskStatus.failed = true
is_terminal TaskStatus.canceled = true

-- UPDATE of the rows that pass the test, and SELECT ... LIMIT 1 of them.
abbrev pub update_rows {ℓ} : {A : Type ℓ} → (A → Bool) → (A → A) → List A → List A
update_rows p f rows = map (λ x. if p x then f x else x) rows

abbrev pub find_row {ℓ} : {A : Type ℓ} → (A → Bool) → List A → Option A
find_row p [] = none
find_row p (x ∷ xs) = if p x then some x else find_row p xs

abbrev pub count_rows {ℓ} : {A : Type ℓ} → (A → Bool) → List A → ℕ
count_rows p [] = 0
count_rows p (x ∷ xs) = (if p x then 1 else 0) + count_rows p xs

abbrev pub update_tasks : Text → (Task → Task) → Db → Db
update_tasks id f db = record db { tasks = update_rows (λ t. eqb t.id id) f db.tasks }

abbrev pub update_items : ℕ → (TaskItem → TaskItem) → Db → Db
update_items id f db = record db { items = update_rows (λ i. i.id == id) f db.items }

-- The columns that MarkItemDone, MarkItemFailed and MarkItemSkipped set, and their statements.
abbrev pub item_done : ℕ → TaskItem → TaskItem
item_done target i = record i { status = ItemStatus.done; target_storage_object_id = target }

abbrev pub item_failed : TaskItem → TaskItem
item_failed i = record i { status = ItemStatus.failed }

abbrev pub item_skipped : TaskItem → TaskItem
item_skipped i = record i { status = ItemStatus.skipped }

abbrev pub mark_done : ℕ → ℕ → Db → Db
mark_done item target = update_items item (item_done target)

abbrev pub mark_failed : ℕ → Db → Db
mark_failed item = update_items item item_failed

abbrev pub mark_skipped : ℕ → Db → Db
mark_skipped item = update_items item item_skipped

abbrev pub is_pending : ItemStatus → Bool
is_pending ItemStatus.pending = true
is_pending ItemStatus.running = false
is_pending ItemStatus.done = false
is_pending ItemStatus.failed = false
is_pending ItemStatus.skipped = false

-- `status IN ('pending','running')`
abbrev pub is_open : ItemStatus → Bool
is_open ItemStatus.pending = true
is_open ItemStatus.running = true
is_open ItemStatus.done = false
is_open ItemStatus.failed = false
is_open ItemStatus.skipped = false

abbrev pub is_failed : ItemStatus → Bool
is_failed ItemStatus.pending = false
is_failed ItemStatus.running = false
is_failed ItemStatus.done = false
is_failed ItemStatus.failed = true
is_failed ItemStatus.skipped = false

-- The statement of SkipPendingItemsForTask.
abbrev pub skip_pending : Text → Db → Db
skip_pending task db = record db {
  items = update_rows (λ i. eqb i.task_id task && is_pending i.status) item_skipped db.items;
}

-- The statement of UpdateTaskStatus.
abbrev pub set_task_status : Text → TaskStatus → Db → Db
set_task_status task status = update_tasks task (λ t. record t { status = status })

pub record ProgressDelta : Type 0 where
  pub completed_objects : ℕ
  pub failed_objects : ℕ
  pub skipped_objects : ℕ
  pub transferred_bytes : ℕ
  pub current_object_key : Text

abbrev pub no_progress : ProgressDelta
no_progress = record {
  completed_objects = 0;
  failed_objects = 0;
  skipped_objects = 0;
  transferred_bytes = 0;
  current_object_key = [];
}

-- `if delta > 0 { updates[column] = column + delta }`
abbrev pub add_positive : ℕ → ℕ → ℕ
add_positive n d = if ltb 0 d then n + d else n

-- The columns that IncrementProgress sets.
unfoldable pub progressed : ProgressDelta → Task → Task
progressed d t = record t {
  completed_objects = add_positive t.completed_objects d.completed_objects;
  failed_objects = add_positive t.failed_objects d.failed_objects;
  skipped_objects = add_positive t.skipped_objects d.skipped_objects;
  transferred_bytes = add_positive t.transferred_bytes d.transferred_bytes;
  current_object_key =
      if is_empty d.current_object_key then t.current_object_key else d.current_object_key;
}

pub record SwapInput : Type 0 where
  pub old_storage_object_id : ℕ
  pub library_id : ℕ
  pub target_provider : Text
  pub target_bucket : Text
  pub target_key : Text
  pub content_length : ℕ
  pub content_type : Text
  pub etag : Text

abbrev pub non_empty : Text → Option Text
non_empty t = if is_empty t then none else some t

-- The row that SwapStorageObject inserts.
abbrev pub new_object : SwapInput → ℕ → StorageObject
new_object s id = record {
  id = id;
  library_id = s.library_id;
  provider = s.target_provider;
  bucket = s.target_bucket;
  object_key = s.target_key;
  content_length = s.content_length;
  content_type = non_empty s.content_type;
  etag = non_empty s.etag;
  is_deleted = false;
}

-- The three statements of SwapStorageObject.
unfoldable pub insert_object : SwapInput → Db → ℕ × Db
insert_object s db = (
  db.next_object,
  record db {
    objects = db.objects ++ (new_object s db.next_object ∷ []);
    next_object = suc db.next_object;
  },
)

unfoldable pub point_files : SwapInput → ℕ → Db → Db
point_files s new db = record db {
  files =
      update_rows
        (λ f. f.library_id == s.library_id && f.storage_object_id == s.old_storage_object_id)
        (λ f. record f { storage_object_id = new }) db.files;
}

unfoldable pub delete_object : ℕ → Db → Db
delete_object id db = record db {
  objects =
      update_rows (λ o. o.id == id && not o.is_deleted) (λ o. record o { is_deleted = true })
        db.objects;
}
