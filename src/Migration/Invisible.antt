-- ===== src/Migration/Invisible.antt =====
-- The promise of a migration: who reads a file does not see it.
use omniflow_go.Prelude.{ℕ, ◌≡◌, ◌≢◌, refl, Option, some, List, length}
use omniflow_go.Text.{Text}
use omniflow_go.Result.{ok}
use omniflow_go.Storage.{Letters}
use omniflow_go.Storage.Registry.{Registry, get}
use omniflow_go.Migration.{Task, TaskItem}
use omniflow_go.Migration.Actions.{Outside, IsLawful, IsAnswered, World}
use omniflow_go.Migration.Tasks.{select_task}
use omniflow_go.Migration.Process.{process_item}
use omniflow_go.Migration.Contents.{tables, IsMigratable, contents}
use omniflow_go.Migration.Stages.{process_item-Same}

-- Whichever calls of the database and of the stores fail, at whichever stage: after an item was
-- processed there are the same files, in the same order, and each reads the bytes that it read
-- before; if no COMMIT that reports an error was applied, the stores keep their promises, the item's
-- rows are as IsMigratable says in the library of its task, the new key differs from the source's,
-- and the item has the size of its source.
pub process_item-contents :
    {S C X : Type 0} (l : Letters) (o : Outside S X) (r : Registry S C)
    (content : S → Text → X → Option (List ℕ)) (item : TaskItem) (library : ℕ) (w : World X)
    → IsLawful o content
    → IsAnswered o
    → IsMigratable item library (tables w.db)
    → item.source_key ≢ item.target_key
    → ((source : S) (bytes : List ℕ)
        → get l r item.source_provider ≡ ok source
        → content source item.source_key w.outside ≡ some bytes
        → length bytes ≡ item.file_size)
    → ((task : Task) → select_task item.task_id w.db ≡ ok task → task.library_id ≡ library)
    → contents l r
        (λ s k. content s k (process_item l o r item w).1.outside)
        (tables (process_item l o r item w).1.db)
      ≡ contents l r (λ s k. content s k w.outside) (tables w.db)
process_item-contents l o r content item library w lawful answered migratable keys sizes ours =
    process_item-Same l o r content lawful answered item library (tables w.db) w.outside migratable
      w refl refl keys sizes ours
