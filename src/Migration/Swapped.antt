-- ===== src/Migration/Swapped.antt =====
-- What the transaction of processItem does to the tables: Transaction, SwapStorageObject,
-- MarkItemDone and IncrementProgress as internal/usecase/migration.go calls them.
use omniflow_go.Prelude.{ℕ, ◌≡◌, ap, ◌∙◌}
use omniflow_go.Result.{ok}
use omniflow_go.Storage.{Letters}
use omniflow_go.Storage.Registry.{Registry}
use omniflow_go.Migration.{
  Task, TaskItem, SwapInput, no_progress, insert_object, point_files, delete_object,
}
use omniflow_go.Migration.Actions.{ObjectInfo, Outside, done, ◌>>◌, update}
use omniflow_go.Migration.Tasks.{mark_item_done, swap_storage_object}
use omniflow_go.Migration.Process.{swap_input, swap_and_mark}
use omniflow_go.Migration.Holds.{
  Holds, Both, IsQuiet, Holds-bind, Holds-statement, Holds-forget, Holds-update,
}
use omniflow_go.Migration.Contents.{Tables, inserted, pointed, dropped, swapped}
use omniflow_go.Migration.Keeps.{Is, Keeps-mark_item_done, Keeps-increment_progress}

module _ {S C X : Type 0} (l : Letters) (o : Outside S X) (r : Registry S C) (item : TaskItem)
    (t : Tables) (task : Task) (target : S) (info : ObjectInfo) where
  abbrev input : SwapInput
  input = swap_input l o r item task target info

  -- The tables within the transaction, and behind it.
  abbrev mid : ℕ → Tables
  mid n = pointed item.storage_object_id task.library_id n (inserted input t)

  abbrev pub after_swap : Tables
  after_swap = swapped item.storage_object_id task.library_id input t

  module _ (O : X → Type 0) (q : IsQuiet o O) where
    after_insert :
        (n : ℕ)
        → n ≡ t.2
        → Holds
            (Both (Is (inserted input t)) O)
            (update o (point_files input n)
              >> (update o (delete_object input.old_storage_object_id) >> done n))
            (λ n. Both (Is after_swap) O)
            (λ e w. O w.outside)
    unfolding point_files delete_object
    after_insert n e =
        Holds-bind (Both (Is (inserted input t)) O) (λ u. Both (Is (mid n)) O)
          (λ n. Both (Is after_swap) O) (λ e w. O w.outside) (update o (point_files input n)) _
          (Holds-update o O q (Is (inserted input t)) (Is (mid n)) _
            (λ db h. ap (pointed item.storage_object_id task.library_id n) h))
          (λ u.
            Holds-bind (Both (Is (mid n)) O) (λ u. Both (Is after_swap) O)
              (λ n. Both (Is after_swap) O) (λ e w. O w.outside)
              (update o (delete_object input.old_storage_object_id)) _
              (Holds-update o O q (Is (mid n)) (Is after_swap) _
                (λ db h. ap (dropped item.storage_object_id) (h ∙ ap mid e)))
              (λ u w h. h))

    swap_storage_object-swapped :
        Holds
          (Both (Is t) O)
          (swap_storage_object o input)
          (λ n. Both (Is after_swap) O)
          (λ e w. O w.outside)
    unfolding swap_storage_object insert_object
    swap_storage_object-swapped =
        Holds-bind (Both (Is t) O) (λ n w. (n ≡ t.2) × Both (Is (inserted input t)) O w)
          (λ n. Both (Is after_swap) O) (λ e w. O w.outside) _ _
          (Holds-statement o O q (Is t) (λ n w. (n ≡ t.2) × Both (Is (inserted input t)) O w)
            (λ e w. O w.outside) (λ db. (ok (insert_object input db).0, (insert_object input db).1))
            (λ db x h p. (ap (λ u. u.2) h, (ap (inserted input) h, p))) (λ e db x h p. p))
          (λ n w (e, h). after_insert n e w h)

    -- What the transaction does to the tables.
    pub swap_and_mark-swapped :
        Holds
          (Both (Is t) O)
          (swap_and_mark l o r item task target info)
          (λ a. Both (Is after_swap) O)
          (λ e w. O w.outside)
    unfolding swap_and_mark
    swap_and_mark-swapped =
        Holds-bind (Both (Is t) O) (λ n. Both (Is after_swap) O) (λ a. Both (Is after_swap) O)
          (λ e w. O w.outside) (swap_storage_object o input) _ swap_storage_object-swapped
          (λ n.
            Holds-bind (Both (Is after_swap) O) (λ a. Both (Is after_swap) O)
              (λ a. Both (Is after_swap) O) (λ e w. O w.outside) (mark_item_done o item.id n) _
              (Holds-forget (Is after_swap) O _ (Keeps-mark_item_done o O q after_swap item.id n))
              (λ u. Holds-forget (Is after_swap) O _ (
                Keeps-increment_progress o O q after_swap task.id (record no_progress {
                  completed_objects = 1;
                  transferred_bytes = item.file_size;
                  current_object_key = item.target_key;
                }))))
