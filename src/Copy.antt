-- ===== src/Copy.antt =====
-- Copies of nodes: planNodeCopy and copyNodeName of internal/usecase/node_copy.go. What the queries
-- and the stores answer while the transaction holds its locks is a parameter.
pub mod Queue
pub mod Plan
pub mod Whole
pub mod Name
pub mod Objects
pub mod Created
pub mod Single
pub mod Bytes
use omniflow_go.Prelude.{
  ℕ, zero, suc, ◌+◌, ◌-◌, ◌*◌, Bool, true, false, ◌&&◌, ◌||◌, not, Option, none, some, List, [],
  ◌∷◌, ◌++◌, map, ◌==◌, ltb, leb, if◌then◌else◌, length, take,
}
use omniflow_go.Text.{Text, codes, eqb, is_empty, trim_space, decimal, path_ext, ext_loop}
use omniflow_go.Result.{
  Error, Result, ok, err, guard, ◌>>=◌, ◌>>◌, invalid_argument, conflict, not_found,
  repository_not_found,
}
use omniflow_go.Names.{max_node_ext_length, NodeType, dir, file, is_file, ConflictPolicy}
use omniflow_go.Storage.{Letters}
use omniflow_go.Storage.Registry.{Registry, get}
use omniflow_go.Migration.Actions.{ObjectInfo}

-- domainnode.Node, the fields that are read here.
pub record Node : Type 0 where
  pub id : ℕ
  pub parent_id : ℕ
  pub type : NodeType
  pub name : Text
  pub ext : Text
  pub mime_type : Text
  pub file_size : ℕ
  pub storage_key : Text
  pub storage_provider : Text
  pub storage_bucket : Text

-- nodeCopyItem, whose `store` is `none` for nil.
pub record NodeCopyItem (S : Type 0) : Type 0 where
  pub node : Node
  pub store : Option S
  pub key : Text

-- CopyNodeCommand. The policy is `none` for the empty string.
pub record CopyNodeCommand : Type 0 where
  pub node_id : ℕ
  pub library_id : ℕ
  pub parent_id : ℕ
  pub name : Text
  pub recursive : Bool
  pub conflict_policy : Option ConflictPolicy
  pub dry_run : Bool

-- FindViewForCopy, ListAncestors and ListDirectChildrenLimited of the repository; StatObject and
-- Bucket of a store; and the n-th id of uuid.NewString.
pub record Answers (S : Type 0) : Type 0 where
  pub find_view : ℕ → ℕ → Result Node
  pub list_ancestors : ℕ → ℕ → Result (List ℕ)
  pub list_children : ℕ → ℕ → ℕ → Result (List Node)
  pub stat_object : S → Text → Result ObjectInfo
  pub bucket : S → Text
  pub uuid : ℕ → Text

abbrev pub max_copy_nodes : ℕ
max_copy_nodes = 1000

abbrev pub max_copy_bytes : ℕ
max_copy_bytes = 1073741824

-- One more than the rounds of the loop, each of which takes one of at most 1000 nodes.
abbrev pub plan_fuel : ℕ
plan_fuel = suc max_copy_nodes

abbrev pub has_id : ℕ → List ℕ → Bool
has_id id [] = false
has_id id (x ∷ xs) = x == id || has_id id xs

-- The loop over the children, which are not to have been seen.
unfoldable pub see : List ℕ → List Node → Result (List ℕ)
see seen [] = ok seen
see seen (c ∷ children) =
    if has_id c.id seen then err invalid_argument else see (c.id ∷ seen) children

-- The characters of strings.ContainsAny(full, "/\\\x00\r\n").
abbrev pub is_forbidden : ℕ → Bool
is_forbidden c = c == b'/' || c == 92 || c == 0 || c == 13 || c == 10

abbrev pub contains_forbidden : Text → Bool
contains_forbidden [] = false
contains_forbidden (c ∷ cs) = is_forbidden c || contains_forbidden cs

-- strings.TrimSuffix where the suffix is one.
abbrev pub trim_suffix : Text → Text → Text
trim_suffix t suffix = take (length t - length suffix) t

abbrev pub drop_dot : Text → Text
drop_dot [] = []
drop_dot (c ∷ cs) = if c == b'.' then cs else c ∷ cs

-- The name and the extension that copyNodeName takes apart.
unfoldable pub split_name : Text → NodeType → Result (Text × Text)
unfolding ext_loop
split_name full dir = ok (full, [])
split_name full file =
    if eqb (path_ext full) (codes ".")
    then err invalid_argument
    else if eqb (path_ext full) full
    then ok (full, [])
    else ok (trim_suffix full (path_ext full), drop_dot (path_ext full))

-- The tests of the whole name.
abbrev pub valid : Text → Bool
valid full = not (
    not (eqb (trim_space full) full)
    || is_empty full
    || eqb full (codes ".")
    || eqb full (codes "..")
    || contains_forbidden full
    || ltb 255 (length full))

unfoldable pub copy_node_name : Text → NodeType → Result (Text × Text)
unfolding split_name trim_space
copy_node_name full kind = do
  guard (valid full) invalid_argument
  (name, ext) ← split_name full kind
  guard (not (ltb max_node_ext_length (length ext))) invalid_argument
  ok (name, ext)

module _ {S C : Type 0} (l : Letters) (r : Registry S C) (q : Answers S) where
  -- copyNodeView
  unfoldable pub copy_node_view : ℕ → ℕ → Result Node
  copy_node_view id library = elim (q.find_view id library) [
    | ok n ↦ ok n
    | err e ↦ err (missing e)
  ]
    where
      missing : Error → Error
      missing repository_not_found = not_found
      missing e = e

  -- The branch of a file: its store, and the bytes so far with its own.
  unfoldable pub plan_file : Node → ℕ → Result (S × ℕ)
  unfolding get
  plan_file n total = do
    guard (not (is_empty n.storage_key)) invalid_argument
    store ← get l r n.storage_provider
    guard (eqb n.storage_bucket (q.bucket store)) invalid_argument
    info ← q.stat_object store n.storage_key
    guard (info.size == n.file_size) conflict
    guard (not (ltb (max_copy_bytes - total) info.size)) invalid_argument
    ok (store, total + info.size)

  -- The branch of a directory: its children, and the ids seen with theirs, `count` being the items
  -- so far.
  unfoldable pub plan_directory : ℕ → Node → ℕ → List ℕ → Result (List Node × List ℕ)
  unfolding see
  plan_directory library n count seen = do
    children ← q.list_children n.id library (max_copy_nodes - count + 1)
    guard (not (ltb max_copy_nodes (count + length children))) invalid_argument
    seen' ← see seen children
    ok (children, seen')

  abbrev pub target : ℕ → ℕ → Text
  target library i = codes "libraries/" ++ (decimal library ++ (codes "/" ++ q.uuid i))

  -- A round of the loop for a node of this type: the item, the nodes that it adds, and what was seen
  -- and summed up.
  unfoldable pub plan_typed :
      ℕ → ℕ → Node → ℕ → List ℕ → ℕ → NodeType → Result (NodeCopyItem S × List Node × List ℕ × ℕ)
  unfolding plan_file plan_directory
  plan_typed library i n count seen total dir =
      plan_directory library n count seen >>= λ (children, seen').
      ok (record { node = n; store = none; key = [] }, children, seen', total)
  plan_typed library i n count seen total file = plan_file n total >>= λ (store, total').
      ok (record { node = n; store = some store; key = target library i }, [], seen, total')

  unfoldable pub plan_item :
      ℕ → ℕ → Node → ℕ → List ℕ → ℕ → Result (NodeCopyItem S × List Node × List ℕ × ℕ)
  unfolding plan_typed
  plan_item library i n count seen total = plan_typed library i n count seen total n.type

  -- The loop over the items, of which `done` have been visited and `todo` have not; `none` where
  -- the fuel is used up.
  unfoldable pub plan_loop :
      ℕ
      → ℕ
      → List (NodeCopyItem S)
      → List Node
      → List ℕ
      → ℕ
      → Option (Result (List (NodeCopyItem S)))
  unfolding plan_item
  plan_loop library fuel done [] seen total = some (ok done)
  plan_loop library zero done (n ∷ todo) seen total = none
  plan_loop library (suc fuel) done (n ∷ todo) seen total =
      elim (plan_item library (length done) n (length done + suc (length todo)) seen total) [
        | err e ↦ some (err e)
        | ok (item, children, seen', total') ↦
            plan_loop library fuel (done ++ (item ∷ [])) (todo ++ children) seen' total'
      ]

  -- The given name for the root of the copy.
  abbrev pub renamed : Text → Text → List (NodeCopyItem S) → List (NodeCopyItem S)
  renamed name ext [] = []
  renamed name ext (item ∷ items) =
      record item { node = record item.node { name = name; ext = ext } } ∷ items

  unfoldable pub rename_root :
      Text → NodeType → List (NodeCopyItem S) → Result (List (NodeCopyItem S))
  unfolding copy_node_name
  rename_root name kind items =
      if is_empty name
      then ok items
      else copy_node_name name kind >>= λ (name', ext). ok (renamed name' ext items)

  -- The tests of the source and of the place for the copy.
  unfoldable pub check_place : CopyNodeCommand → Result Node
  unfolding copy_node_view
  check_place cmd = do
    source ← copy_node_view cmd.node_id cmd.library_id
    guard (not (source.parent_id == 0)) invalid_argument
    guard (is_file source.type || cmd.recursive) invalid_argument
    parent ← copy_node_view cmd.parent_id cmd.library_id
    guard (not (is_file parent.type)) invalid_argument
    ancestors ← q.list_ancestors cmd.parent_id cmd.library_id
    guard (not (cmd.parent_id == cmd.node_id)) invalid_argument
    guard (not (has_id cmd.node_id ancestors)) invalid_argument
    ok source

  -- planNodeCopy
  unfoldable pub plan_node_copy : CopyNodeCommand → Option (Result (List (NodeCopyItem S)))
  unfolding check_place plan_loop rename_root
  plan_node_copy cmd = elim (check_place cmd) [
    | err e ↦ some (err e)
    | ok source ↦ elim (plan_loop cmd.library_id plan_fuel [] (source ∷ []) (source.id ∷ []) 0) [
      | none ↦ none
      | some (err e) ↦ some (err e)
      | some (ok items) ↦ some (rename_root cmd.name source.type items)
    ]
  ]
