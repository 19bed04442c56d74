-- ===== src/Tests/Counting.antt =====
-- A task with two items: one is claimed, the task is cancelled, the claimed item is done all the same,
-- and the task ends as completed.
use omniflow_go.Prelude.{ℕ, ◌+◌, ◌≤◌, ◌≡◌, refl, false, [], ◌∷◌, arith, inl}
use omniflow_go.Text.{codes}
use omniflow_go.Migration.{
  TaskStatus, ItemStatus, Task, TaskItem, item_skipped, item_done, progressed,
}
use omniflow_go.Migration.Requests.{running}
use omniflow_go.Migration.Steps.{Work, TaskStep, TaskSteps}
use omniflow_go.Migration.Counts.{total, one_done, bytes_done}
use omniflow_go.Migration.Bounded.{IsNew, counts_are_true}

abbrev item : ℕ → TaskItem
item id = record {
  id = id;
  task_id = codes "t";
  storage_object_id = id + 100;
  source_provider = codes "hot";
  source_bucket = codes "b";
  source_key = codes "old";
  target_storage_object_id = 0;
  target_key = codes "new";
  file_size = 2;
  status = ItemStatus.pending;
}

abbrev task : Task
task = record {
  id = codes "t";
  actor_id = codes "7";
  library_id = 1;
  root_node_id = 10;
  target_provider = codes "cold";
  status = TaskStatus.pending;
  total_objects = 2;
  completed_objects = 0;
  failed_objects = 0;
  skipped_objects = 0;
  total_bytes = 4;
  transferred_bytes = 0;
  current_object_key = [];
}

abbrev new : Work
new = record {
  task = task;
  items = item 1 ∷ item 2 ∷ [];
  copying = [];
  unanswered = [];
  failing = 0;
  skipping = 0;
  lost = 0;
}

abbrev ended_task : Task
ended_task = record task {
  status = TaskStatus.completed;
  completed_objects = 1;
  transferred_bytes = 2;
  current_object_key = codes "new";
}

abbrev end : Work
end = record {
  task = ended_task;
  items = item_done 9 (item 1) ∷ item_skipped (item 2) ∷ [];
  copying = [];
  unanswered = [];
  failing = 0;
  skipping = 0;
  lost = 0;
}

new_lem : IsNew new
new_lem = (
  (((λ e. omega (arith, e)), tt), (tt, tt)),
  (refl, (refl, tt)),
  refl,
  refl,
  refl,
  refl,
  refl,
  refl,
  refl,
  refl,
  refl,
)

run : TaskSteps new end
unfolding progressed
run = TaskSteps.more (TaskStep.claimed (λ id. false) (item 1) refl) (
    TaskSteps.more (TaskStep.ended TaskStatus.canceled refl) (
      TaskSteps.more TaskStep.pending_skipped (
        TaskSteps.more (TaskStep.swapped (running (item 1)) 9 (inl refl))
          (TaskSteps.more (TaskStep.ended TaskStatus.completed refl) TaskSteps.here))))

counts_are_true_example :
    (ended_task.completed_objects ≡ total one_done end.items)
    × (ended_task.transferred_bytes ≡ total bytes_done end.items)
    × (ended_task.completed_objects + ended_task.failed_objects + ended_task.skipped_objects
        ≤ ended_task.total_objects)
counts_are_true_example = counts_are_true new end new_lem run refl
