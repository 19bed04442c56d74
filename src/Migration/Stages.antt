-- ===== src/Migration/Stages.antt =====
-- That processing an item leaves what every file reads as it was: the stages of processItem
-- (internal/usecase/migration.go), each from what is known of the tables and of the stores.
use omniflow_go.Prelude.{
  ℕ, zero, suc, ◌≡◌, ◌≢◌, refl, sym, ap, ◌∙◌, false, not, Option, some, List, [], ◌∷◌, ◌==◌, length,
  take, arith, subst, some_injective,
}
use omniflow_go.Text.{Text}
use omniflow_go.Result.{Error, ok}
use omniflow_go.Storage.{Letters}
use omniflow_go.Storage.Registry.{Registry, get}
use omniflow_go.Migration.{Task, TaskItem, is_terminal, no_progress}
use omniflow_go.Migration.Actions.{ObjectInfo, Outside, IsLawful, IsAnswered, World, handle, call}
use omniflow_go.Migration.Tasks.{select_task, get_task}
use omniflow_go.Migration.Process.{
  fail_item, discard, swap_input, switch, upload_and_switch, copy, process_item, plain,
  or_default_type,
}
use omniflow_go.Migration.Holds.{
  Holds, Both, IsQuiet, IsSettled, Holds-handle, Holds-attempt, After-call_result, Keeps-call,
  Holds-statement, Holds-within_tx, Holds-if, Holds-lift, After-cases, After-world,
}
use omniflow_go.Migration.Contents.{Tables, tables, IsMigratable, contents}
use omniflow_go.Migration.Readings.{contents_kept, contents-swapped}
use omniflow_go.Migration.Keeps.{
  Is, Keeps-mark_item_failed, Keeps-mark_item_skipped, Keeps-increment_progress, Keeps-aggregate,
}
use omniflow_go.Migration.Swapped.{after_swap, swap_and_mark-swapped}

-- The part of a list that has its whole length.
take-length : {A : Type 0} (n : ℕ) (xs : List A) → length (take n xs) ≡ length xs → take n xs ≡ xs
take-length zero [] h = refl
take-length zero (x ∷ xs) h = absurd (omega (arith, h))
take-length (suc n) [] h = refl
take-length (suc n) (x ∷ xs) h = ap (λ l. x ∷ l) (take-length n xs (omega (arith, h)))

is_size : (a b : ℕ) → not (a == b) ≡ false → a ≡ b
is_size a b h = ground arith

module _ {S C X : Type 0} (l : Letters) (o : Outside S X) (r : Registry S C)
    (content : S → Text → X → Option (List ℕ)) (lawful : IsLawful o content)
    (answered : IsAnswered o) (item : TaskItem) (library : ℕ) (t : Tables) (x₀ : X)
    (migratable : IsMigratable item library t) where
  -- What the stores hold is as at the start but for these keys.
  abbrev Off : X → Type 0
  Off x = (s : S) (k : Text) → k ≢ item.target_key → content s k x ≡ content s k x₀

  abbrev OffBoth : X → Type 0
  OffBoth x =
      (s : S) (k : Text)
      → k ≢ item.target_key
      → k ≢ item.source_key
      → content s k x ≡ content s k x₀

  -- Besides, the target holds these bytes.
  abbrev Has : (X → Type 0) → S → List ℕ → X → Type 0
  Has O target bytes x = O x × (content target item.target_key x ≡ some bytes)

  -- Every file reads what it read at the start.
  abbrev Same : World X → Type 0
  Same w =
      contents l r (λ s k. content s k w.outside) (tables w.db)
      ≡ contents l r (λ s k. content s k x₀) t

  IsQuiet-Off : IsQuiet o Off
  IsQuiet-Off x h s k p = lawful.fails_same x s k ∙ h s k p

  IsQuiet-OffBoth : IsQuiet o OffBoth
  IsQuiet-OffBoth x h s k p p' = lawful.fails_same x s k ∙ h s k p p'

  IsQuiet-Has :
      (O : X → Type 0) (target : S) (bytes : List ℕ) → IsQuiet o O → IsQuiet o (Has O target bytes)
  IsQuiet-Has O target bytes q x (h, e) = (q x h, lawful.fails_same x target item.target_key ∙ e)

  IsSettled-Has : (target : S) (bytes : List ℕ) → IsSettled o (Has Off target bytes)
  IsSettled-Has target bytes x (h, e) = (
    (
      λ s k p. lawful.commits_same x s k ∙ h s k p,
      lawful.commits_same x target item.target_key ∙ e,
    ),
    answered x,
  )

  Same-before : (w : World X) → Both (Is t) Off w → Same w
  Same-before w (e, h) =
      ap (contents l r (λ s k. content s k w.outside)) e
      ∙ contents_kept l r item library (λ s k. content s k x₀) (λ s k. content s k w.outside) t
          migratable h

  fail_item-Same :
      (e : Error) → Holds (Both (Is t) Off) (fail_item l o r item e) (λ a. Same) (λ f. Same)
  unfolding fail_item
  fail_item-Same e =
      Holds-attempt (Both (Is t) Off) (Both (Is t) Off) (λ a. Same) (λ f. Same) _ _
        (Keeps-mark_item_failed o Off IsQuiet-Off t item.id)
        (Holds-attempt (Both (Is t) Off) (Both (Is t) Off) (λ a. Same) (λ f. Same) _ _
          (Keeps-increment_progress o Off IsQuiet-Off t item.task_id
            (record no_progress { failed_objects = 1 }))
          (Holds-attempt (Both (Is t) Off) (Both (Is t) Off) (λ a. Same) (λ f. Same) _ _
            (Keeps-aggregate o Off IsQuiet-Off t item.task_id) Same-before))

  discard-Same :
      (target : S) (e : Error)
      → Holds (Both (Is t) Off) (discard l o r item target e) (λ a. Same) (λ f. Same)
  unfolding discard
  discard-Same target e =
      Holds-attempt (Both (Is t) Off) (Both (Is t) Off) (λ a. Same) (λ f. Same) _ _
        (Keeps-call (Is t) Off (o.remove target item.target_key)
          (λ x h s k p. lawful.remove_same x target item.target_key s k p ∙ h s k p))
        (fail_item-Same e)

  module _ (task : Task) (target : S) (info : ObjectInfo) where
    abbrev end : Tables
    end = after_swap l o r item t task target info

    module _ (source : S) (bytes : List ℕ) (keys : item.source_key ≢ item.target_key)
        (ours : task.library_id ≡ library) (source_found : get l r item.source_provider ≡ ok source)
        (target_found : get l r task.target_provider ≡ ok target)
        (source_bytes : content source item.source_key x₀ ≡ some bytes) where
      Same-end : (w : World X) → Both (Is end) (Has OffBoth target bytes) w → Same w
      Same-end w (e, (h, b)) =
          let m = subst (λ n. IsMigratable item n t) (sym ours) migratable in
          ap (contents l r (λ s k. content s k w.outside)) e
          ∙ contents-swapped l r item task.library_id (swap_input l o r item task target info)
              (λ s k. content s k x₀) (λ s k. content s k w.outside) t.0 t.2 m.0 source target t.1
              m.1 refl refl source_found target_found (b ∙ sym source_bytes) h

      remove_source :
          Holds
            (Both (Is end) (Has Off target bytes))
            (call (o.remove source item.source_key))
            (λ a. Both (Is end) (Has OffBoth target bytes))
            (λ e. Both (Is end) (Has OffBoth target bytes))
      remove_source w (d, (h, b)) =
          let after : Has OffBoth target bytes (o.remove source item.source_key w.outside).1 = (
            (λ s k p p'. lawful.remove_same w.outside source item.source_key s k p' ∙ h s k p),
            lawful.remove_same w.outside source item.source_key target item.target_key
                  (λ e. keys (sym e))
                ∙ b,
          ) in
          After-call_result (λ a. Both (Is end) (Has OffBoth target bytes))
            (λ e. Both (Is end) (Has OffBoth target bytes)) w.db _ (λ a e. (d, after))
            (λ e. (d, after))

      switch-Same :
          Holds
            (Both (Is t) (Has Off target bytes))
            (switch l o r item task source target info)
            (λ a. Same)
            (λ e. Same)
      unfolding switch
      switch-Same =
          Holds-handle (Both (Is t) (Has Off target bytes))
            (λ a. Both (Is end) (Has Off target bytes)) (λ e. Both (Is t) (Has Off target bytes))
            (λ a. Same) (λ e. Same) _ _ _
            (Holds-within_tx o (Has Off target bytes) (IsQuiet-Has Off target bytes IsQuiet-Off)
              (Is t) (Is end) _ (IsSettled-Has target bytes)
              (swap_and_mark-swapped l o r item t task target info (Has Off target bytes)
                (IsQuiet-Has Off target bytes IsQuiet-Off)))
            (λ a.
              Holds-attempt (Both (Is end) (Has Off target bytes))
                (Both (Is end) (Has OffBoth target bytes)) (λ a. Same) (λ e. Same) _ _ remove_source
                (Holds-attempt (Both (Is end) (Has OffBoth target bytes))
                  (Both (Is end) (Has OffBoth target bytes)) (λ a. Same) (λ e. Same) _ _
                  (Keeps-aggregate o (Has OffBoth target bytes)
                    (IsQuiet-Has OffBoth target bytes IsQuiet-OffBoth) end task.id)
                  Same-end))
            (λ e w (d, p). discard-Same target e w (d, p.0))

  module _ (task : Task) (source target : S) (ours : task.library_id ≡ library)
      (keys : item.source_key ≢ item.target_key)
      (source_found : get l r item.source_provider ≡ ok source)
      (target_found : get l r task.target_provider ≡ ok target)
      (sizes : (bytes : List ℕ)
        → content source item.source_key x₀ ≡ some bytes
        → length bytes ≡ item.file_size) where
    -- The upload may have been cut short.
    abbrev Cut : List ℕ → World X → Type 0
    Cut bytes w = (m : ℕ) × Both (Is t) (Has Off target (take m bytes)) w

    -- What the stat of the target says.
    abbrev Told : List ℕ → ObjectInfo → World X → Type 0
    Told bytes stat w =
        Both (Is t) Off w
        × (stat.size ≡ item.file_size → content target item.target_key w.outside ≡ some bytes)

    upload-Cut :
        (bytes : List ℕ) (n : ℕ) (type : Text)
        → Holds
            (Both (Is t) Off)
            (call (o.upload target item.target_key bytes n type))
            (λ a. Cut bytes)
            (λ e. Both (Is t) Off)
    upload-Cut bytes n type w (d, h) =
        let off : Off (o.upload target item.target_key bytes n type w.outside).1 = λ s k p.
          lawful.upload_same w.outside target item.target_key bytes n type s k p ∙ h s k p in
        After-call_result (λ a. Cut bytes) (λ e. Both (Is t) Off) w.db _
          (λ a e.
            let (m, c) = lawful.upload_content w.outside target item.target_key bytes n type e in
            (m, (d, (off, c))))
          (λ e. (d, off))

    stat_object-Told :
        (bytes : List ℕ)
        → content source item.source_key x₀ ≡ some bytes
        → Holds
            (Cut bytes)
            (call (o.stat_object target item.target_key))
            (Told bytes)
            (λ e. Both (Is t) Off)
    stat_object-Told bytes from w (m, (d, (h, c))) =
        let same = lawful.stat_same w.outside target item.target_key in
        let off : Off (o.stat_object target item.target_key w.outside).1 =
          λ s k p. same s k ∙ h s k p in
        After-call_result (Told bytes) (λ e. Both (Is t) Off) w.db _
          (λ stat e.
            let (bytes', c', n) = lawful.stat_content w.outside target item.target_key stat e in
            (
              (d, off),
              λ z.
                  same target item.target_key
                  ∙ c
                  ∙ ap some (
                      take-length m bytes (
                        ap length (some_injective (sym c ∙ c'))
                        ∙ sym n
                        ∙ z
                        ∙ sym (sizes bytes from))),
            ))
          (λ e. (d, off))

    upload_and_switch-Same :
        (bytes : List ℕ) (info : ObjectInfo)
        → content source item.source_key x₀ ≡ some bytes
        → Holds
            (Both (Is t) Off)
            (upload_and_switch l o r item task source target bytes info)
            (λ a. Same)
            (λ e. Same)
    unfolding upload_and_switch
    upload_and_switch-Same bytes info from =
        Holds-handle (Both (Is t) Off) (λ a. Cut bytes) (λ e. Both (Is t) Off) (λ a. Same)
          (λ e. Same) _ _ _ (upload-Cut bytes info.size (or_default_type info.content_type))
          (λ a.
            Holds-handle (Cut bytes) (Told bytes) (λ e. Both (Is t) Off) (λ a. Same) (λ e. Same) _ _
              _ (stat_object-Told bytes from)
              (λ stat.
                Holds-if (Told bytes stat) (λ a. Same) (λ e. Same)
                  (not (stat.size == item.file_size)) _ _
                  (λ b w (h, z). discard-Same target plain w h)
                  (λ b w ((d, h), z).
                    switch-Same task target stat source bytes keys ours source_found target_found
                      from w (d, (h, z (is_size stat.size item.file_size b)))))
              (discard-Same target))
          fail_item-Same

    get_object-Same :
        Holds
          (Both (Is t) Off)
          (handle
            (call (o.get_object source item.source_key))
            (λ (bytes, info). upload_and_switch l o r item task source target bytes info)
            (fail_item l o r item))
          (λ a. Same)
          (λ e. Same)
    get_object-Same =
        Holds-handle (Both (Is t) Off)
          (λ read w. Both (Is t) Off w × (content source item.source_key x₀ ≡ some read.0))
          (λ e. Both (Is t) Off) (λ a. Same) (λ e. Same) _ _ _
          (λ w (d, h).
            let same = lawful.get_same w.outside source item.source_key in
            let off : Off (o.get_object source item.source_key w.outside).1 =
              λ s k p. same s k ∙ h s k p in
            After-call_result
              (λ read w. Both (Is t) Off w × (content source item.source_key x₀ ≡ some read.0))
              (λ e. Both (Is t) Off) w.db _
              (λ (bytes, info) e. (
                (d, off),
                sym (h source item.source_key keys)
                    ∙ lawful.get_content w.outside source item.source_key bytes info e,
              ))
              (λ e. (d, off)))
          (λ (bytes, info) w (h, from). upload_and_switch-Same bytes info from w h) fail_item-Same

  -- The stages from the lookup of the stores on.
  copy-Same :
      (task : Task)
      → task.library_id ≡ library
      → item.source_key ≢ item.target_key
      → ((source : S) (bytes : List ℕ)
          → get l r item.source_provider ≡ ok source
          → content source item.source_key x₀ ≡ some bytes
          → length bytes ≡ item.file_size)
      → Holds (Both (Is t) Off) (copy l o r item task) (λ a. Same) (λ e. Same)
  unfolding copy
  copy-Same task ours keys sizes =
      Holds-handle (Both (Is t) Off)
        (λ source w. (get l r item.source_provider ≡ ok source) × Both (Is t) Off w)
        (λ e. Both (Is t) Off) (λ a. Same) (λ e. Same) _ _ _
        (Holds-lift (Both (Is t) Off) (get l r item.source_provider))
        (λ source w (found, h).
          Holds-handle (Both (Is t) Off)
            (λ target w. (get l r task.target_provider ≡ ok target) × Both (Is t) Off w)
            (λ e. Both (Is t) Off) (λ a. Same) (λ e. Same) _ _ _
            (Holds-lift (Both (Is t) Off) (get l r task.target_provider))
            (λ target w (found', h).
              get_object-Same task source target ours keys found found'
                (λ bytes. sizes source bytes found) w h)
            fail_item-Same w h)
        fail_item-Same

  pub process_item-Same :
      (w : World X)
      → tables w.db ≡ t
      → w.outside ≡ x₀
      → item.source_key ≢ item.target_key
      → ((source : S) (bytes : List ℕ)
          → get l r item.source_provider ≡ ok source
          → content source item.source_key x₀ ≡ some bytes
          → length bytes ≡ item.file_size)
      → ((task : Task) → select_task item.task_id w.db ≡ ok task → task.library_id ≡ library)
      → Same (process_item l o r item w).1
  unfolding process_item get_task
  process_item-Same w et ex keys sizes ours = After-world Same (process_item l o r item w) (
      Holds-handle (Both (λ db. db ≡ w.db) Off)
        (λ task w. (task.library_id ≡ library) × Both (Is t) Off w) (λ e. Both (Is t) Off)
        (λ a. Same) (λ e. Same) _ _ _
        (Holds-statement o Off IsQuiet-Off (λ db. db ≡ w.db)
          (λ task w. (task.library_id ≡ library) × Both (Is t) Off w) (λ e. Both (Is t) Off)
          (λ db. (select_task item.task_id db, db))
          (λ db x d p.
            After-cases (λ task w. (task.library_id ≡ library) × Both (Is t) Off w)
              (λ e. Both (Is t) Off) (select_task item.task_id db) _
              (λ task e.
                (ours task (sym (ap (select_task item.task_id) d) ∙ e), (ap tables d ∙ et, p)))
              (λ e. (ap tables d ∙ et, p)))
          (λ e db x d p. (ap tables d ∙ et, p)))
        (λ task w (e, h).
          Holds-if (Both (Is t) Off) (λ a. Same) (λ e. Same) (is_terminal task.status) _ _
            (λ b.
              Holds-attempt (Both (Is t) Off) (Both (Is t) Off) (λ a. Same) (λ e. Same) _ _
                (Keeps-mark_item_skipped o Off IsQuiet-Off t item.id)
                (Holds-attempt (Both (Is t) Off) (Both (Is t) Off) (λ a. Same) (λ e. Same) _ _
                  (Keeps-increment_progress o Off IsQuiet-Off t item.task_id
                    (record no_progress { skipped_objects = 1 }))
                  Same-before))
            (λ b. copy-Same task e keys sizes) w h)
        (λ e.
          Holds-attempt (Both (Is t) Off) (Both (Is t) Off) (λ a. Same) (λ e. Same) _ _
            (Keeps-mark_item_failed o Off IsQuiet-Off t item.id) Same-before)
        w (refl, λ s k p. ap (content s k) ex))
