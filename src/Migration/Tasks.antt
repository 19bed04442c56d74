-- ===== src/Migration/Tasks.antt =====
-- The calls of internal/repository/postgres/impl/migration that the use case makes.
use omniflow_go.Prelude.{ℕ, Bool, ◌&&◌, Option, none, some, List, ◌==◌, ltb, if◌then◌else◌}
use omniflow_go.Text.{Text, eqb, is_empty}
use omniflow_go.Result.{Result, ok, err, repository_not_found}
use omniflow_go.Migration.{
  TaskStatus, Task, TaskItem, Db, ProgressDelta, SwapInput, find_row, count_rows, is_open,
  is_failed, mark_done, mark_failed, mark_skipped, set_task_status, skip_pending, update_tasks,
  progressed, insert_object, point_files, delete_object,
}
use omniflow_go.Migration.Actions.{Outside, Action, done, ◌>>=◌, ◌>>◌, statement, update}

abbrev pub select_task : Text → Db → Result Task
select_task id db = elim (find_row (λ t. eqb t.id id) db.tasks) [
  | none ↦ err repository_not_found
  | some t ↦ ok t
]

module _ {S X : Type 0} (o : Outside S X) where
  unfoldable pub get_task : Text → Action X Task
  get_task id = statement o (λ db. (select_task id db, db))

  unfoldable pub update_task_status : Text → TaskStatus → Action X (Unit {0})
  update_task_status id status = update o (set_task_status id status)

  unfoldable pub mark_item_done : ℕ → ℕ → Action X (Unit {0})
  mark_item_done item target = update o (mark_done item target)

  unfoldable pub mark_item_failed : ℕ → Action X (Unit {0})
  mark_item_failed item = update o (mark_failed item)

  unfoldable pub mark_item_skipped : ℕ → Action X (Unit {0})
  mark_item_skipped item = update o (mark_skipped item)

  unfoldable pub skip_pending_items_for_task : Text → Action X (Unit {0})
  skip_pending_items_for_task task = update o (skip_pending task)

  -- `len(updates) == 1`
  abbrev pub is_no_progress : ProgressDelta → Bool
  is_no_progress d =
      d.completed_objects == 0
      && d.failed_objects == 0
      && d.skipped_objects == 0
      && d.transferred_bytes == 0
      && is_empty d.current_object_key

  unfoldable pub increment_progress : Text → ProgressDelta → Action X (Unit {0})
  increment_progress task d =
      if is_no_progress d then done tt else update o (update_tasks task (progressed d))

  abbrev pub final_status : Text → List TaskItem → TaskStatus
  final_status task items =
      if ltb 0 (count_rows (λ i. eqb i.task_id task && is_failed i.status) items)
      then TaskStatus.failed
      else TaskStatus.completed

  -- The status that the counts of a task's items call for, or `none` while items are open.
  abbrev pub counted_status : Text → List TaskItem → Option TaskStatus
  counted_status task items =
      if ltb 0 (count_rows (λ i. eqb i.task_id task && is_open i.status) items)
      then none
      else some (final_status task items)

  -- The part of AggregateTaskProgressIfFinal behind the counts.
  unfoldable pub finish_task : Text → Option TaskStatus → Action X (Option Task)
  unfolding update_task_status get_task
  finish_task task none = done none
  finish_task task (some status) =
      update_task_status task status >> (get_task task >>= λ t. done (some t))

  unfoldable pub aggregate_task_progress_if_final : Text → Action X (Option Task)
  unfolding finish_task
  aggregate_task_progress_if_final task =
      statement o (λ db. (ok (counted_status task db.items), db)) >>= finish_task task

  unfoldable pub swap_storage_object : SwapInput → Action X ℕ
  unfolding insert_object point_files delete_object
  swap_storage_object s =
      statement o (λ db. (ok (insert_object s db).0, (insert_object s db).1)) >>= λ new.
      update o (point_files s new) >> (update o (delete_object s.old_storage_object_id) >> done new)
