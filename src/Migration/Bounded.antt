-- ===== src/Migration/Bounded.antt =====
-- That the counts of a task are true and bounded, whatever the workers and the requests do.
use omniflow_go.Prelude.{
  ℕ, ◌≢◌, ◌+◌, ◌≤◌, ◌≡◌, refl, sym, ap, ◌∙◌, subst, List, [], ◌∷◌, Elem, All, length, arith,
}
use omniflow_go.Migration.{
  ItemStatus, Task, TaskItem, is_pending, item_done, item_failed, item_skipped, update_rows,
  progressed,
}
use omniflow_go.Migration.Requests.{running}
use omniflow_go.Migration.Steps.{Work, TaskStep, TaskSteps, set_item, without}
use omniflow_go.Migration.Counts.{
  one_done, bytes_done, one_pending, total, AreDistinct, IsRunning, total-pending_skipped,
  add_positive_lem, pending_weights, pending_unclaimed, Elem-set_item, total-claimed,
  total-set_item, All-IsRunning-set_item, AreDistinct-update, first_pending_lem, length-without,
  without_out, AreDistinct-without, All-without, Elem-update, All-map,
}

abbrev counted : Task → ℕ
counted t = t.completed_objects + t.failed_objects + t.skipped_objects

abbrev IsCounted : Work → Type 0
IsCounted w =
    AreDistinct w.items
    × AreDistinct w.copying
    × All (IsRunning w.items) w.copying
    × (w.task.completed_objects ≡ total one_done w.items)
    × (w.task.transferred_bytes ≡ total bytes_done w.items)
    × (counted w.task + length w.copying + w.failing + w.skipping + total one_pending w.items
        ≤ w.task.total_objects)

-- Where a claimed item's row gets a final status, `n` and `z` being what the row then adds.
closed_IsCounted :
    (w : Work) (i : TaskItem) (g : TaskItem → TaskItem) (n z : ℕ)
    → ((j : TaskItem) → (g j).id ≡ j.id)
    → ((j : TaskItem)
        → j.file_size ≡ i.file_size
        → (one_done (g j) ≡ n) × (bytes_done (g j) ≡ z) × (one_pending (g j) ≡ 0))
    → Elem i w.copying
    → IsCounted w
    → AreDistinct (set_item i.id g w.items)
      × AreDistinct (without i.id w.copying)
      × All (IsRunning (set_item i.id g w.items)) (without i.id w.copying)
      × (total one_done (set_item i.id g w.items) ≡ total one_done w.items + n)
      × (total bytes_done (set_item i.id g w.items) ≡ total bytes_done w.items + z)
      × (total one_pending (set_item i.id g w.items) ≡ total one_pending w.items)
closed_IsCounted w i g n z keeps weights m (d, d', k, c, b, p) =
    let (j, s, e, done) = total-claimed one_done g w.items w.copying i d k m in
    let (j', s', e', bytes) = total-claimed bytes_done g w.items w.copying i d k m in
    let (j'', s'', e'', pending) = total-claimed one_pending g w.items w.copying i d k m in
    let done' = rw s at done in
    let bytes' = rw s' at bytes in
    let pending' = rw s'' at pending in
    (
      AreDistinct-update _ g keeps w.items d,
      AreDistinct-without i w.copying d',
      All-IsRunning-set_item i.id g w.items (without i.id w.copying) keeps
          (without_out i w.copying d') (All-without i (IsRunning w.items) w.copying k),
      omega (arith, done', (weights j e).0),
      omega (arith, bytes', (weights j' e').1),
      omega (arith, pending', (weights j'' e'').2),
    )

no_element : (i : TaskItem) (xs : List TaskItem) → Elem i xs → xs ≢ []
no_element i [] m e = m
no_element i (y ∷ ys) m e = cc

-- The number of lost answers only grows; while it is 0, no item waits for one.
TaskStep-unanswered :
    (w x : Work)
    → TaskStep w x
    → (w.lost ≡ 0 → w.unanswered ≡ [])
    → x.lost ≡ 0
    → (w.lost ≡ 0) × (x.unanswered ≡ [])
TaskStep-unanswered w x (TaskStep.claimed locked i e) u l = (l, u l)
TaskStep-unanswered w x (TaskStep.claimed_unanswered locked i e) u l = (l, u l)
TaskStep-unanswered w x (TaskStep.swapped i target m) u l = (l, u l)
TaskStep-unanswered w x (TaskStep.failed i m) u l = (l, u l)
TaskStep-unanswered w x (TaskStep.failed_lost i m) u l = (l, u l)
TaskStep-unanswered w x (TaskStep.failed_counted e) u l = (l, u l)
TaskStep-unanswered w x (TaskStep.failed_uncounted e) u l = (l, u l)
TaskStep-unanswered w x (TaskStep.skipped i m) u l = (l, u l)
TaskStep-unanswered w x (TaskStep.skipped_lost i m) u l = (l, u l)
TaskStep-unanswered w x (TaskStep.skipped_counted e) u l = (l, u l)
TaskStep-unanswered w x (TaskStep.skipped_uncounted e) u l = (l, u l)
TaskStep-unanswered w x (TaskStep.ended status e) u l = (l, u l)
TaskStep-unanswered w x TaskStep.pending_skipped u l = (l, u l)
TaskStep-unanswered w x (TaskStep.swapped_unanswered i target m) u l = absurd (omega (arith, l))
TaskStep-unanswered w x (TaskStep.failed_unanswered i m) u l =
    absurd (no_element i w.unanswered m (u l))
TaskStep-unanswered w x (TaskStep.failed_unanswered_lost i m) u l =
    absurd (no_element i w.unanswered m (u l))

TaskStep-IsCounted :
    (w x : Work)
    → TaskStep w x
    → x.lost ≡ 0
    → (w.lost ≡ 0 → w.unanswered ≡ [])
    → IsCounted w
    → IsCounted x
unfolding progressed
TaskStep-IsCounted w x (TaskStep.claimed locked i e) l u (d, d', k, c, b, p) =
    let (m, pending) = first_pending_lem locked w.items i e in
    let (o, z, q) = pending_weights i i.status refl pending in
    let out = pending_unclaimed w.items w.copying i d k m pending in
    let dn = total-set_item one_done running i w.items d m in
    let by = total-set_item bytes_done running i w.items d m in
    let pe = total-set_item one_pending running i w.items d m in
    (
      AreDistinct-update _ running (λ j. refl) w.items d,
      (out, d'),
      (
        (running i, Elem-set_item running i w.items m, refl, refl, refl),
        All-IsRunning-set_item i.id running w.items w.copying (λ j. refl) out k,
      ),
      omega (arith, dn, o, c),
      omega (arith, by, z, b),
      omega (arith, pe, q, p),
    )
TaskStep-IsCounted w x (TaskStep.claimed_unanswered locked i e) l u (d, d', k, c, b, p) =
    let (m, pending) = first_pending_lem locked w.items i e in
    let (o, z, q) = pending_weights i i.status refl pending in
    let out = pending_unclaimed w.items w.copying i d k m pending in
    let dn = total-set_item one_done running i w.items d m in
    let by = total-set_item bytes_done running i w.items d m in
    let pe = total-set_item one_pending running i w.items d m in
    (
      AreDistinct-update _ running (λ j. refl) w.items d,
      d',
      All-IsRunning-set_item i.id running w.items w.copying (λ j. refl) out k,
      omega (arith, dn, o, c),
      omega (arith, by, z, b),
      omega (arith, pe, q, p),
    )
TaskStep-IsCounted w x (TaskStep.swapped_unanswered i target m) l u h = absurd (omega (arith, l))
TaskStep-IsCounted w x (TaskStep.failed_unanswered i m) l u h =
    absurd (no_element i w.unanswered m (u l))
TaskStep-IsCounted w x (TaskStep.failed_unanswered_lost i m) l u h =
    absurd (no_element i w.unanswered m (u l))
TaskStep-IsCounted w x (TaskStep.swapped i target m) l u (d, d', k, c, b, p) =
    let (e, e', f, o, z, q) =
      closed_IsCounted w i (item_done target) 1 i.file_size (λ j. refl) (λ j e. (refl, e, refl)) m
        (d, d', k, c, b, p) in
    let n = length-without i w.copying m in
    let bytes = add_positive_lem w.task.transferred_bytes i.file_size in
    (e, e', f, omega (arith, o, c), bytes ∙ omega (arith, z, b), omega (arith, q, p, n))
TaskStep-IsCounted w x (TaskStep.failed i m) l u (d, d', k, c, b, p) =
    let (e, e', f, o, z, q) =
      closed_IsCounted w i item_failed 0 0 (λ j. refl) (λ j e. (refl, refl, refl)) m
        (d, d', k, c, b, p) in
    let n = length-without i w.copying m in
    (e, e', f, omega (arith, o, c), omega (arith, z, b), omega (arith, q, p, n))
TaskStep-IsCounted w x (TaskStep.failed_lost i m) l u (d, d', k, c, b, p) =
    let n = length-without i w.copying m in
    (
      d,
      AreDistinct-without i w.copying d',
      All-without i (IsRunning w.items) w.copying k,
      c,
      b,
      omega (arith, p, n),
    )
TaskStep-IsCounted w x (TaskStep.failed_counted e) l u (d, d', k, c, b, p) =
    (d, d', k, c, b, omega (arith, p, e))
TaskStep-IsCounted w x (TaskStep.failed_uncounted e) l u (d, d', k, c, b, p) =
    (d, d', k, c, b, omega (arith, p, e))
TaskStep-IsCounted w x (TaskStep.skipped i m) l u (d, d', k, c, b, p) =
    let (e, e', f, o, z, q) =
      closed_IsCounted w i item_skipped 0 0 (λ j. refl) (λ j e. (refl, refl, refl)) m
        (d, d', k, c, b, p) in
    let n = length-without i w.copying m in
    (e, e', f, omega (arith, o, c), omega (arith, z, b), omega (arith, q, p, n))
TaskStep-IsCounted w x (TaskStep.skipped_lost i m) l u (d, d', k, c, b, p) =
    let n = length-without i w.copying m in
    (
      d,
      AreDistinct-without i w.copying d',
      All-without i (IsRunning w.items) w.copying k,
      c,
      b,
      omega (arith, p, n),
    )
TaskStep-IsCounted w x (TaskStep.skipped_counted e) l u (d, d', k, c, b, p) =
    (d, d', k, c, b, omega (arith, p, e))
TaskStep-IsCounted w x (TaskStep.skipped_uncounted e) l u (d, d', k, c, b, p) =
    (d, d', k, c, b, omega (arith, p, e))
TaskStep-IsCounted w x (TaskStep.ended status e) l u h = h
TaskStep-IsCounted w x TaskStep.pending_skipped l u (d, d', k, c, b, p) =
    let (o, z, q) = total-pending_skipped w.items in
    (
      AreDistinct-update _ item_skipped (λ j. refl) w.items d,
      d',
      All-map (IsRunning w.items) (IsRunning w.items) (IsRunning _) w.copying still k k,
      omega (arith, c, o),
      omega (arith, b, z),
      omega (arith, p, q),
    )
  where
    still :
        (j : TaskItem)
        → IsRunning w.items j
        → IsRunning w.items j
        → IsRunning (update_rows (λ i. is_pending i.status) item_skipped w.items) j
    still j (i, m, e, s, z) h = (
      i,
      Elem-update (λ i. is_pending i.status) item_skipped (λ y. refl) i w.items (ap is_pending s) m,
      e,
      s,
      z,
    )

-- While no answer was lost, the counts are true.
abbrev IsTrue : Work → Type 0
IsTrue w = w.lost ≡ 0 → (w.unanswered ≡ []) × IsCounted w

TaskStep-IsTrue : (w x : Work) → TaskStep w x → IsTrue w → IsTrue x
TaskStep-IsTrue w x step h l =
    let (l', u) = TaskStep-unanswered w x step (λ e. (h e).0) l in
    (u, TaskStep-IsCounted w x step l (λ e. (h e).0) (h l').1)

TaskSteps-IsTrue : (w x : Work) → TaskSteps w x → IsTrue w → IsTrue x
TaskSteps-IsTrue w x TaskSteps.here h = h
TaskSteps-IsTrue w x (TaskSteps.more {w = y} e es) h =
    TaskSteps-IsTrue y x es (TaskStep-IsTrue w y e h)

-- The items that Enqueue writes are pending, and the counts of the task are 0.
abbrev pub IsNew : Work → Type 0
IsNew w =
    AreDistinct w.items
    × All (λ i. i.status ≡ ItemStatus.pending) w.items
    × (w.copying ≡ [])
    × (w.unanswered ≡ [])
    × (w.failing ≡ 0)
    × (w.skipping ≡ 0)
    × (w.task.completed_objects ≡ 0)
    × (w.task.failed_objects ≡ 0)
    × (w.task.skipped_objects ≡ 0)
    × (w.task.transferred_bytes ≡ 0)
    × (w.task.total_objects ≡ length w.items)

pending_totals :
    (items : List TaskItem)
    → All (λ i. i.status ≡ ItemStatus.pending) items
    → (total one_done items ≡ 0)
      × (total bytes_done items ≡ 0)
      × (total one_pending items ≡ length items)
pending_totals [] h = (refl, refl, refl)
pending_totals (x ∷ xs) (e, h) =
    let (a, b, c) = pending_weights x x.status refl (ap is_pending e) in
    let (a', b', c') = pending_totals xs h in
    (omega (arith, a, a'), omega (arith, b, b'), omega (arith, c, c'))

IsNew-IsCounted : (w : Work) → IsNew w → IsCounted w
IsNew-IsCounted w (d, p, c, v, f, s, a, b, e, t, n) =
    let (o, z, q) = pending_totals w.items p in
    let copies = ap length c in
    (
      d,
      subst AreDistinct (sym c) tt,
      subst (All (IsRunning w.items)) (sym c) tt,
      omega (arith, a, o),
      omega (arith, t, z),
      omega (arith, copies, f, s, a, b, e, n, q),
    )

-- From a new task whose items have different ids, in any order of the statements of the workers and
-- of Cancel, whichever of them fail: if no swap was applied whose COMMIT reported an error,
-- `completed_objects` is the number of the items that are done, `transferred_bytes` the sum of their
-- sizes, and the objects counted as completed, failed and skipped are together at most
-- `total_objects`.
pub counts_are_true :
    (w x : Work)
    → IsNew w
    → TaskSteps w x
    → x.lost ≡ 0
    → (x.task.completed_objects ≡ total one_done x.items)
      × (x.task.transferred_bytes ≡ total bytes_done x.items)
      × (x.task.completed_objects + x.task.failed_objects + x.task.skipped_objects
          ≤ x.task.total_objects)
counts_are_true w x new steps l =
    let told : IsTrue w = λ e. (new.3, IsNew-IsCounted w new) in
    let (_, (_, _, _, done, bytes, q)) = TaskSteps-IsTrue w x steps told l in
    (done, bytes, omega (arith, q))
