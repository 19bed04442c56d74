-- ===== src/Tests/Uploads.antt =====
-- One upload session, its requests and its parts.
use omniflow_go.Prelude.{
  ℕ, ◌+◌, ◌*◌, ◌≤◌, ◌<◌, ◌≡◌, refl, Bool, true, false, none, some, List, [], ◌∷◌, arith, Elem, map,
  length, All,
}
use omniflow_go.Text.{Text, codes, eqb, trim_space}
use omniflow_go.Text.Laws.{eqb→≡}
use omniflow_go.Result.{ok}
use omniflow_go.Uploads.{
  Mode, Status, UploadSession, claim_free, claim_operation, claim_completion, commit_completion,
  mark_committed, internal_janitor, normalize_upload_client_operation_id,
}
use omniflow_go.Uploads.Steps.{World, Step, Steps}
use omniflow_go.Uploads.Views.{is_internal}
use omniflow_go.Uploads.Safety.{SendsNoInternal, start, committed_keeps_object}
use omniflow_go.Uploads.Parts.{CompletedPart, pick_upload_mode, normalize_completed_parts}
use omniflow_go.Uploads.Parts.Laws.{
  IsCover, IsIncreasing, is_valid, trimmed, pick_upload_mode-IsCover,
  normalize_completed_parts-IsIncreasing,
}

abbrev session : UploadSession
session = record {
  id = codes "s1";
  actor_id = codes "7";
  storage_key = codes "libraries/1/k";
  file_size = 3;
  mode = Mode.single;
  minio_upload_id = [];
  status = Status.pending;
  client_operation_id = none;
  completed_node_id = 0;
  expires_at = 100;
  updated_at = 0;
}

abbrev sends_one : Text → Bool
sends_one op = eqb op (codes "op1")

sends_one_lem : SendsNoInternal (codes "s1") sends_one
unfolding eqb
sends_one_lem op h = let e = eqb→≡ op (codes "op1") h in subst_internal op e
  where
    subst_internal : (op : Text) → op ≡ codes "op1" → is_internal (codes "s1") op ≡ false
    subst_internal op e = rw e refl

abbrev held : UploadSession
held = record session {
  client_operation_id = some (codes "op1");
  expires_at = 910;
  updated_at = 10;
}

abbrev receipt : UploadSession
receipt = record held {
  status = Status.committed;
  completed_node_id = 42;
  expires_at = 20 + 7 * 24 * 3600;
  updated_at = 20;
}

holds :
    claim_completion (codes "7") (codes "op1") 10 (some session)
    ≡ ok (record session { client_operation_id = some (codes "op1"); expires_at = 910 }, some held)
unfolding claim_completion claim_free claim_operation eqb
holds = refl

commits :
    commit_completion (codes "7") (codes "op1") (ok 42) 20 (some held) ≡ ok (42, true, some receipt)
unfolding commit_completion mark_committed eqb
commits = refl

abbrev finished : World
finished = record (start session) { row = some receipt; commits = 1 }

runs : Steps (codes "s1") sends_one (start session) finished
unfolding eqb
runs =
    Steps.more
      (Step.claimed (codes "7") (codes "op1") 10
        (record session { client_operation_id = some (codes "op1"); expires_at = 910 }) (some held)
        refl holds)
      (Steps.more
        (Step.completed (codes "7") (codes "op1") (ok 42) 20 42 true (some receipt) refl commits)
        Steps.here)

committed_keeps_object_example :
    (finished.commits ≤ 1)
    × (0 < finished.commits
        → (finished.removals ≡ 0)
          × (finished.aborting ≡ 0)
          × (finished.removing ≡ 0)
          × (finished.sweeping ≡ 0))
committed_keeps_object_example =
    committed_keeps_object (codes "s1") sends_one session finished sends_one_lem refl refl runs

-- The operation id of a sweep passes the normalisation.
internal_id_accepted :
    normalize_upload_client_operation_id (codes "s1") (internal_janitor (codes "s1"))
    ≡ ok (internal_janitor (codes "s1"))
unfolding normalize_upload_client_operation_id
internal_id_accepted = refl

-- 40 MiB in parts of 16 MiB.
pick_upload_mode-IsCover_example : IsCover 41943040 (pick_upload_mode 41943040 5242880)
pick_upload_mode-IsCover_example =
    pick_upload_mode-IsCover 41943040 5242880 (omega arith) (omega arith)

picks : pick_upload_mode 41943040 5242880 ≡ (Mode.multipart, 16777216, 3)
unfolding pick_upload_mode
picks = refl

abbrev part : ℕ → Text → CompletedPart
part n tag = record { part_number = n; e_tag = tag }

abbrev given : List CompletedPart
given = part 2 (codes " b ") ∷ part 1 (codes "a") ∷ []

abbrev sorted : List CompletedPart
sorted = part 1 (codes "a") ∷ part 2 (codes "b") ∷ []

sorts : normalize_completed_parts given ≡ ok sorted
unfolding normalize_completed_parts trim_space
sorts = refl

normalize_completed_parts-IsIncreasing_example :
    IsIncreasing sorted
    × All (λ p. is_valid p ≡ true) sorted
    × (length sorted ≡ 2)
    × ((p : CompletedPart) → Elem p (map trimmed given) → Elem p sorted)
unfolding trim_space
normalize_completed_parts-IsIncreasing_example =
    normalize_completed_parts-IsIncreasing given sorted sorts
