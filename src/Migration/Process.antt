-- ===== src/Migration/Process.antt =====
-- What a worker does with an item: processItem and failItem of internal/usecase/migration.go.
use omniflow_go.Prelude.{ℕ, not, List, ◌==◌, if◌then◌else◌}
use omniflow_go.Text.{Text, codes, is_empty}
use omniflow_go.Result.{Error, other}
use omniflow_go.Storage.{Letters}
use omniflow_go.Storage.Registry.{Registry, get}
use omniflow_go.Migration.{Task, TaskItem, SwapInput, is_terminal, no_progress}
use omniflow_go.Migration.Actions.{
  ObjectInfo, Outside, Action, done, fail, handle, ◌>>=◌, ◌>>◌, attempt, lift, call, within_tx,
}
use omniflow_go.Migration.Tasks.{
  get_task, mark_item_done, mark_item_failed, mark_item_skipped, increment_progress,
  aggregate_task_progress_if_final, swap_storage_object,
}

-- defaultUploadContentType
abbrev pub default_upload_content_type : Text
default_upload_content_type = codes "application/octet-stream"

abbrev pub or_default_type : Text → Text
or_default_type type = if is_empty type then default_upload_content_type else type

-- An error that wraps no sentinel.
abbrev pub plain : Error
plain = other 0

module _ {S C X : Type 0} (l : Letters) (o : Outside S X) (r : Registry S C) where
  unfoldable pub fail_item : TaskItem → Error → Action X (Unit {0})
  unfolding mark_item_failed increment_progress aggregate_task_progress_if_final
  fail_item item cause =
      attempt (mark_item_failed o item.id)
      >> (attempt (increment_progress o item.task_id (record no_progress { failed_objects = 1 }))
          >> (attempt (aggregate_task_progress_if_final o item.task_id) >> fail cause))

  -- The target is removed, and the item fails.
  unfoldable pub discard : TaskItem → S → Error → Action X (Unit {0})
  unfolding fail_item
  discard item target cause =
      attempt (call (o.remove target item.target_key)) >> fail_item item cause

  abbrev pub swap_input : TaskItem → Task → S → ObjectInfo → SwapInput
  swap_input item task target info = record {
    old_storage_object_id = item.storage_object_id;
    library_id = task.library_id;
    target_provider = task.target_provider;
    target_bucket = o.bucket target;
    target_key = item.target_key;
    content_length = info.size;
    content_type = info.content_type;
    etag = info.etag;
  }

  -- The body of the transaction.
  unfoldable pub swap_and_mark : TaskItem → Task → S → ObjectInfo → Action X (Unit {0})
  unfolding swap_storage_object mark_item_done increment_progress
  swap_and_mark item task target info =
      swap_storage_object o (swap_input item task target info) >>= λ new.
      mark_item_done o item.id new
      >> increment_progress o task.id (record no_progress {
        completed_objects = 1;
        transferred_bytes = item.file_size;
        current_object_key = item.target_key;
      })

  -- From the transaction on.
  unfoldable pub switch : TaskItem → Task → S → S → ObjectInfo → Action X (Unit {0})
  unfolding swap_and_mark discard
  switch item task source target info =
      handle (within_tx o (swap_and_mark item task target info))
        (λ swapped.
          attempt (call (o.remove source item.source_key))
          >> (attempt (aggregate_task_progress_if_final o task.id) >> done tt))
        (discard item target)

  -- From the upload on.
  unfoldable pub upload_and_switch :
      TaskItem → Task → S → S → List ℕ → ObjectInfo → Action X (Unit {0})
  unfolding switch
  upload_and_switch item task source target bytes info =
      handle
        (call (o.upload target item.target_key bytes info.size (or_default_type info.content_type)))
        (λ uploaded.
          handle (call (o.stat_object target item.target_key))
            (λ stat.
              if not (stat.size == item.file_size)
              then discard item target plain
              else switch item task source target stat)
            (discard item target))
        (fail_item item)

  -- From the lookup of the stores on.
  unfoldable pub copy : TaskItem → Task → Action X (Unit {0})
  unfolding upload_and_switch
  copy item task =
      handle (lift (get l r item.source_provider))
        (λ source.
          handle (lift (get l r task.target_provider))
            (λ target.
              handle (call (o.get_object source item.source_key))
                (λ (bytes, info). upload_and_switch item task source target bytes info)
                (fail_item item))
            (fail_item item))
        (fail_item item)

  -- processItem
  unfoldable pub process_item : TaskItem → Action X (Unit {0})
  unfolding copy
  process_item item =
      handle (get_task o item.task_id)
        (λ task.
          if is_terminal task.status
          then attempt (mark_item_skipped o item.id)
            >> (attempt
                  (increment_progress o item.task_id (record no_progress { skipped_objects = 1 }))
                >> done tt)
          else copy item task)
        (λ e. attempt (mark_item_failed o item.id) >> fail e)
