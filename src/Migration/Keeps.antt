-- ===== src/Migration/Keeps.antt =====
-- The calls of internal/repository/postgres/impl/migration that change tasks and items alone: the
-- objects and the files are as before.
use omniflow_go.Prelude.{
  ℕ, ◌≡◌, inl, inr, Option, none, some, Bool-cases, then_branch, else_branch, subst,
}
use omniflow_go.Text.{Text}
use omniflow_go.Result.{Result, ok, err}
use omniflow_go.Migration.{TaskStatus, Db, ProgressDelta}
use omniflow_go.Migration.Actions.{Outside, World, statement}
use omniflow_go.Migration.Tasks.{
  select_task, get_task, mark_item_done, mark_item_failed, mark_item_skipped, increment_progress,
  counted_status, finish_task, aggregate_task_progress_if_final, update_task_status, is_no_progress,
}
use omniflow_go.Migration.Holds.{
  After, Keeps, Both, IsQuiet, Holds-bind, Holds-statement, Keeps-update,
}
use omniflow_go.Migration.Contents.{Tables, tables}

abbrev pub Is : Tables → Db → Type 0
Is t db = tables db ≡ t

-- The calls that change tasks and items alone.
module _ {S X : Type 0} (o : Outside S X) (O : X → Type 0) (q : IsQuiet o O) (t : Tables) where
  pub Keeps-mark_item_failed : (item : ℕ) → Keeps (Both (Is t) O) (mark_item_failed o item)
  unfolding mark_item_failed
  Keeps-mark_item_failed item = Keeps-update o O q (Is t) _ (λ db h. h)

  pub Keeps-mark_item_skipped : (item : ℕ) → Keeps (Both (Is t) O) (mark_item_skipped o item)
  unfolding mark_item_skipped
  Keeps-mark_item_skipped item = Keeps-update o O q (Is t) _ (λ db h. h)

  pub Keeps-mark_item_done : (item n : ℕ) → Keeps (Both (Is t) O) (mark_item_done o item n)
  unfolding mark_item_done
  Keeps-mark_item_done item n = Keeps-update o O q (Is t) _ (λ db h. h)

  pub Keeps-increment_progress :
      (task : Text) (d : ProgressDelta) → Keeps (Both (Is t) O) (increment_progress o task d)
  unfolding increment_progress
  Keeps-increment_progress task d = elim (Bool-cases (is_no_progress o d)) [
    | inl e ↦ subst (Keeps (Both (Is t) O)) (then_branch _ _ _ e) (λ w h. h)
    | inr e ↦
        subst (Keeps (Both (Is t) O)) (else_branch _ _ _ e)
          (Keeps-update o O q (Is t) _ (λ db h. h))
  ]

  pub Keeps-get_task : (id : Text) → Keeps (Both (Is t) O) (get_task o id)
  unfolding get_task
  Keeps-get_task id =
      Holds-statement o O q (Is t) (λ a. Both (Is t) O) (λ e. Both (Is t) O)
        (λ db. (select_task id db, db))
        (λ db x h p. either (select_task id db) (record { db = db; outside = x }) (h, p))
        (λ e db x h p. (h, p))
    where
      either :
          {A : Type 0} (r : Result A) (w : World X)
          → Both (Is t) O w
          → After (λ a. Both (Is t) O) (λ e. Both (Is t) O) (r, w)
      either (ok a) w h = h
      either (err e) w h = h

  pub Keeps-finish_task :
      (task : Text) (status : Option TaskStatus) → Keeps (Both (Is t) O) (finish_task o task status)
  unfolding finish_task update_task_status
  Keeps-finish_task task none w h = h
  Keeps-finish_task task (some status) w h =
      Holds-bind (Both (Is t) O) (λ a. Both (Is t) O) (λ a. Both (Is t) O) (λ e. Both (Is t) O)
        (update_task_status o task status) _ (Keeps-update o O q (Is t) _ (λ db h. h))
        (λ u.
          Holds-bind (Both (Is t) O) (λ a. Both (Is t) O) (λ a. Both (Is t) O) (λ e. Both (Is t) O)
            (get_task o task) _ (Keeps-get_task task) (λ a w h. h))
        w h

  pub Keeps-aggregate :
      (task : Text) → Keeps (Both (Is t) O) (aggregate_task_progress_if_final o task)
  unfolding aggregate_task_progress_if_final
  Keeps-aggregate task =
      Holds-bind (Both (Is t) O) (λ a. Both (Is t) O) (λ a. Both (Is t) O) (λ e. Both (Is t) O)
        (statement o (λ db. (ok (counted_status o task db.items), db))) _
        (Holds-statement o O q (Is t) (λ a. Both (Is t) O) (λ e. Both (Is t) O) _
          (λ db x h p. (h, p)) (λ e db x h p. (h, p)))
        (Keeps-finish_task task)
