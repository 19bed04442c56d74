-- ===== src/Copy/Objects.antt =====
-- Copy (internal/usecase/node_copy.go) behind the plan: the rows are created in a transaction, then
-- the objects are copied, and what was uploaded is removed where the transaction is rolled back.
use omniflow_go.Prelude.{
  ℕ, ◌-◌, Bool, true, false, ◌||◌, not, Option, none, some, List, [], ◌∷◌, ◌++◌, ◌==◌,
  if◌then◌else◌, length, take,
}
use omniflow_go.Text.{Text}
use omniflow_go.Result.{Error, Result, ok, err, conflict, invalid_argument}
use omniflow_go.Names.{NodeType, ConflictPolicy}
use omniflow_go.Migration.Actions.{ObjectInfo}
use omniflow_go.Storage.{Letters}
use omniflow_go.Storage.Registry.{Registry}
use omniflow_go.Copy.{NodeCopyItem, CopyNodeCommand, Answers, plan_node_copy}

-- CreateNodeCommand, the fields that Copy sets for each item.
pub record CreateNodeCommand : Type 0 where
  pub library_id : ℕ
  pub parent_id : ℕ
  pub name : Text
  pub ext : Text
  pub type : NodeType
  pub mime_type : Text
  pub file_size : ℕ
  pub storage_key : Text
  pub storage_provider : Text
  pub storage_bucket : Text
  pub conflict_policy : Option ConflictPolicy
  pub dry_run : Bool

-- The calls: createInExistingTransaction on a database of type `D`, which gives the id of the new
-- node; COMMIT; and those of the stores. An upload gives the number of the bytes that it read.
pub record Calls (S D X : Type 0) : Type 0 where
  pub create : CreateNodeCommand → D → Result ℕ × D
  pub commit : D → X → Option Error × D × X
  pub get_object : S → Text → X → Result (List ℕ × ObjectInfo) × X
  pub upload : S → Text → List ℕ → ℕ → Text → X → Result (Unit {0}) × ℕ × X
  pub remove : S → Text → X → Result (Unit {0}) × X

-- CopyNodeResult
pub record CopyNodeResult : Type 0 where
  pub node_id : ℕ
  pub copied_count : ℕ
  pub affected_parent_ids : List ℕ
  pub dry_run : Bool

-- The map from the ids of the source to those of the copy; a missing key is 0.
abbrev pub new_id : ℕ → List (ℕ × ℕ) → ℕ
new_id id [] = 0
new_id id ((k, v) ∷ ids) = if k == id then v else new_id id ids

module _ {S D X : Type 0} (c : Calls S D X) where
  abbrev pub create_command :
      CopyNodeCommand → NodeCopyItem S → ℕ → Option ConflictPolicy → CreateNodeCommand
  create_command cmd item parent policy = record {
    library_id = cmd.library_id;
    parent_id = parent;
    name = item.node.name;
    ext = item.node.ext;
    type = item.node.type;
    mime_type = item.node.mime_type;
    file_size = item.node.file_size;
    storage_key = item.key;
    storage_provider = item.node.storage_provider;
    storage_bucket = item.node.storage_bucket;
    conflict_policy = policy;
    dry_run = cmd.dry_run;
  }

  -- The loop that creates the rows below the root of the copy.
  unfoldable pub create_rest :
      CopyNodeCommand → List (NodeCopyItem S) → List (ℕ × ℕ) → D → Result (Unit {0}) × D
  create_rest cmd [] ids d = (ok tt, d)
  create_rest cmd (item ∷ items) ids d =
      let (created, d') =
        c.create
          (create_command cmd item (new_id item.node.parent_id ids) (some ConflictPolicy.error))
          d in
      elim created [
        | err e ↦ (err e, d')
        | ok id ↦ create_rest cmd items ((item.node.id, id) ∷ ids) d'
      ]

  -- With its first round, for the root, whose id it gives.
  unfoldable pub create_all : CopyNodeCommand → List (NodeCopyItem S) → D → Result ℕ × D
  unfolding create_rest
  create_all cmd [] d = (ok 0, d)
  create_all cmd (item ∷ items) d =
      let (created, d') = c.create (create_command cmd item cmd.parent_id cmd.conflict_policy) d in
      elim created [
        | err e ↦ (err e, d')
        | ok id ↦
            let (rest, d'') =
              create_rest cmd items ((item.node.id, id) ∷ (item.node.parent_id, cmd.parent_id) ∷ [])
                d' in
            elim rest [ err e ↦ (err e, d'') | ok u ↦ (ok id, d'') ]
      ]

  -- What an upload of `limited` bytes at most means to copyNodeObject: none of them is left to read.
  unfoldable pub uploaded_all : ℕ → Result (Unit {0}) × ℕ × X → Result (Unit {0}) × X
  uploaded_all size (err e, n, x) = (err e, x)
  uploaded_all size (ok u, n, x) = if not (size - n == 0) then (err conflict, x) else (ok tt, x)

  unfoldable pub copy_bytes :
      NodeCopyItem S → S → Result (List ℕ × ObjectInfo) × X → Result (Unit {0}) × X
  unfolding uploaded_all
  copy_bytes item store (err e, x) = (err e, x)
  copy_bytes item store (ok (bytes, info), x) =
      if not (info.size == item.node.file_size)
      then (err conflict, x)
      else uploaded_all info.size
          (c.upload store item.key (take info.size bytes) info.size item.node.mime_type x)

  unfoldable pub copy_node_object : NodeCopyItem S → S → X → Result (Unit {0}) × X
  unfolding copy_bytes
  copy_node_object item store x = copy_bytes item store (c.get_object store item.node.storage_key x)

  -- The loop over the items with a store, `uploaded` being those that were begun.
  unfoldable pub copy_objects :
      List (NodeCopyItem S) → List (S × Text) → X → Result (Unit {0}) × List (S × Text) × X
  unfolding copy_node_object
  copy_objects [] uploaded x = (ok tt, uploaded, x)
  copy_objects (item ∷ items) uploaded x = elim item.store [
    | none ↦ copy_objects items uploaded x
    | some store ↦
        let (copied, x') = copy_node_object item store x in
        elim copied [
          | err e ↦ (err e, uploaded ++ ((store, item.key) ∷ []), x')
          | ok u ↦ copy_objects items (uploaded ++ ((store, item.key) ∷ [])) x'
        ]
  ]

  unfoldable pub cleanup_node_copies : List (S × Text) → X → X
  cleanup_node_copies [] x = x
  cleanup_node_copies ((store, key) ∷ uploaded) x =
      cleanup_node_copies uploaded (c.remove store key x).1

  abbrev pub copy_result : CopyNodeCommand → ℕ → ℕ → CopyNodeResult
  copy_result cmd id count = record {
    node_id = if cmd.dry_run then 0 else id;
    copied_count = count;
    affected_parent_ids = cmd.parent_id ∷ [];
    dry_run = cmd.dry_run;
  }

  -- The end of the transaction behind the objects.
  unfoldable pub end_copy :
      CopyNodeCommand
      → ℕ
      → ℕ
      → D
      → D
      → Result (Unit {0}) × List (S × Text) × X
      → Result CopyNodeResult × D × X
  unfolding cleanup_node_copies
  end_copy cmd id count before d (err e, uploaded, x) =
      (err e, before, cleanup_node_copies uploaded x)
  end_copy cmd id count before d (ok u, uploaded, x) =
      let (failed, d', x') = c.commit d x in
      elim failed [ none ↦ (ok (copy_result cmd id count), d', x') | some e ↦ (err e, d', x') ]

  -- Copy behind the authorisation, with the plan's items.
  unfoldable pub copy_planned :
      CopyNodeCommand → List (NodeCopyItem S) → D → X → Result CopyNodeResult × D × X
  unfolding create_all copy_objects end_copy
  copy_planned cmd items d x =
      let (created, d') = create_all cmd items d in
      elim created [
        | err e ↦ (err e, d, x)
        | ok id ↦
            if cmd.dry_run
            then (ok (copy_result cmd id (length items)), d, x)
            else end_copy cmd id (length items) d d' (copy_objects items [] x)
      ]

  abbrev pub is_copy_policy : Option ConflictPolicy → Bool
  is_copy_policy none = true
  is_copy_policy (some ConflictPolicy.error) = true
  is_copy_policy (some ConflictPolicy.auto_rename) = true
  is_copy_policy (some ConflictPolicy.replace) = false

  abbrev pub run_plan :
      CopyNodeCommand
      → D
      → X
      → Option (Result (List (NodeCopyItem S)))
      → Option (Result CopyNodeResult × D × X)
  run_plan cmd d x none = none
  run_plan cmd d x (some (err e)) = some (err e, d, x)
  run_plan cmd d x (some (ok items)) = some (copy_planned cmd items d x)

  -- Copy, with what AuthorizeMutation answers, and `none` where the plan's fuel is used up.
  unfoldable pub copy_node :
      {C : Type 0}
      → Letters
      → Registry S C
      → Answers S
      → Result (Unit {0})
      → CopyNodeCommand
      → D
      → X
      → Option (Result CopyNodeResult × D × X)
  unfolding plan_node_copy copy_planned
  copy_node l r q authorized cmd d x =
      if cmd.node_id == 0 || cmd.library_id == 0 || cmd.parent_id == 0
      then some (err invalid_argument, d, x)
      else if not (is_copy_policy cmd.conflict_policy)
      then some (err invalid_argument, d, x)
      else elim authorized [
        | err e ↦ some (err e, d, x)
        | ok u ↦ run_plan cmd d x (plan_node_copy l r q cmd)
      ]
