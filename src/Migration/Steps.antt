-- ===== src/Migration/Steps.antt =====
-- One task, its items, and what the workers and the requests do to them, statement by statement
-- (processItem, failItem and Cancel of internal/usecase/migration.go). The statements of other tasks
-- have other keys.
use omniflow_go.Prelude.{ℕ, suc, ◌≡◌, Bool, true, some, List, [], ◌∷◌, ◌==◌, if◌then◌else◌, Elem}
use omniflow_go.Migration.{
  TaskStatus, Task, TaskItem, is_terminal, is_pending, item_done, item_failed, item_skipped,
  update_rows, no_progress, progressed,
}
use omniflow_go.Migration.Requests.{first_pending, running}

-- The items that were claimed and are being copied; those whose swap was applied while its COMMIT
-- reported an error; the workers that have marked an item as failed or as skipped, or have tried to,
-- and not yet counted it; and the number of the swaps whose answer was lost.
pub record Work : Type 0 where
  pub task : Task
  pub items : List TaskItem
  pub copying : List TaskItem
  pub unanswered : List TaskItem
  pub failing : ℕ
  pub skipping : ℕ
  pub lost : ℕ

abbrev pub set_item : ℕ → (TaskItem → TaskItem) → List TaskItem → List TaskItem
set_item id f items = update_rows (λ i. i.id == id) f items

-- A worker's item leaves the list.
abbrev pub without : ℕ → List TaskItem → List TaskItem
without id [] = []
without id (i ∷ items) = if i.id == id then items else i ∷ without id items

pub data TaskStep : Work → Work → Type 0 where
  -- ClaimNextItem, other workers holding locks.
  claimed :
      {w : Work} (locked : ℕ → Bool) (i : TaskItem)
      → first_pending locked w.items ≡ some i
      → TaskStep w
          (record w { items = set_item i.id running w.items; copying = running i ∷ w.copying })
  -- ClaimNextItem where its answer is lost: no worker has the item.
  claimed_unanswered :
      {w : Work} (locked : ℕ → Bool) (i : TaskItem)
      → first_pending locked w.items ≡ some i
      → TaskStep w (record w { items = set_item i.id running w.items })
  -- The transaction of the swap.
  swapped :
      {w : Work} (i : TaskItem) (target : ℕ)
      → Elem i w.copying
      → TaskStep w (record w {
        items = set_item i.id (item_done target) w.items;
        task =
            progressed
              (record no_progress {
                completed_objects = 1;
                transferred_bytes = i.file_size;
                current_object_key = i.target_key;
              })
              w.task;
        copying = without i.id w.copying;
      })
  -- The same where COMMIT is applied and reports an error: the worker goes on to failItem.
  swapped_unanswered :
      {w : Work} (i : TaskItem) (target : ℕ)
      → Elem i w.copying
      → TaskStep w (record w {
        items = set_item i.id (item_done target) w.items;
        task =
            progressed
              (record no_progress {
                completed_objects = 1;
                transferred_bytes = i.file_size;
                current_object_key = i.target_key;
              })
              w.task;
        copying = without i.id w.copying;
        unanswered = i ∷ w.unanswered;
        lost = suc w.lost;
      })
  failed_unanswered :
      {w : Work} (i : TaskItem)
      → Elem i w.unanswered
      → TaskStep w (record w {
        items = set_item i.id item_failed w.items;
        unanswered = without i.id w.unanswered;
        failing = suc w.failing;
      })
  failed_unanswered_lost :
      {w : Work} (i : TaskItem)
      → Elem i w.unanswered
      → TaskStep w (record w { unanswered = without i.id w.unanswered; failing = suc w.failing })
  -- MarkItemFailed, or its failure, and the count behind it, or its failure.
  failed :
      {w : Work} (i : TaskItem)
      → Elem i w.copying
      → TaskStep w (record w {
        items = set_item i.id item_failed w.items;
        copying = without i.id w.copying;
        failing = suc w.failing;
      })
  failed_lost :
      {w : Work} (i : TaskItem)
      → Elem i w.copying
      → TaskStep w (record w { copying = without i.id w.copying; failing = suc w.failing })
  failed_counted :
      {w : Work} {n : ℕ}
      → w.failing ≡ suc n
      → TaskStep w (record w {
        task = progressed (record no_progress { failed_objects = 1 }) w.task;
        failing = n;
      })
  failed_uncounted : {w : Work} {n : ℕ} → w.failing ≡ suc n → TaskStep w (record w { failing = n })
  -- The same for MarkItemSkipped.
  skipped :
      {w : Work} (i : TaskItem)
      → Elem i w.copying
      → TaskStep w (record w {
        items = set_item i.id item_skipped w.items;
        copying = without i.id w.copying;
        skipping = suc w.skipping;
      })
  skipped_lost :
      {w : Work} (i : TaskItem)
      → Elem i w.copying
      → TaskStep w (record w { copying = without i.id w.copying; skipping = suc w.skipping })
  skipped_counted :
      {w : Work} {n : ℕ}
      → w.skipping ≡ suc n
      → TaskStep w (record w {
        task = progressed (record no_progress { skipped_objects = 1 }) w.task;
        skipping = n;
      })
  skipped_uncounted :
      {w : Work} {n : ℕ} → w.skipping ≡ suc n → TaskStep w (record w { skipping = n })
  -- UpdateTaskStatus, by Cancel or behind counts that may be old by now.
  ended :
      {w : Work} (status : TaskStatus)
      → is_terminal status ≡ true
      → TaskStep w (record w { task = record w.task { status = status } })
  -- SkipPendingItemsForTask
  pending_skipped :
      {w : Work}
      → TaskStep w
          (record w { items = update_rows (λ i. is_pending i.status) item_skipped w.items })

pub data TaskSteps : Work → Work → Type 0 where
  here : {w : Work} → TaskSteps w w
  more : {v w x : Work} → TaskStep v w → TaskSteps w x → TaskSteps v x
