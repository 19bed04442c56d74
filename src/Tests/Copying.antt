-- ===== src/Tests/Copying.antt =====
-- A directory with one file of two bytes is copied.
use omniflow_go.Prelude.{
  ℕ, suc, ◌≡◌, refl, sym, true, false, none, some, List, [], ◌∷◌, ◌==◌, if◌then◌else◌, take, length,
}
use omniflow_go.Text.{Text, codes, eqb, decimal}
use omniflow_go.Result.{Result, ok, err, ok_injective, repository_not_found}
use omniflow_go.Names.{dir, file}
use omniflow_go.Copy.{Node, NodeCopyItem, CopyNodeCommand, Answers, plan_node_copy, copy_node_name}
use omniflow_go.Copy.Whole.{IsPlan, plan_node_copy-IsPlan}
use omniflow_go.Copy.Name.{joined, copy_node_name-joined}
use omniflow_go.Copy.Objects.{Calls, copy_planned, copy_node}
use omniflow_go.Tests.Migrations.{letters, registry, info, Stores, got, write, is_place}

abbrev folder : Node
folder = record {
  id = 2;
  parent_id = 1;
  type = dir;
  name = codes "photos";
  ext = [];
  mime_type = [];
  file_size = 0;
  storage_key = [];
  storage_provider = [];
  storage_bucket = [];
}

abbrev photo : Node
photo = record {
  id = 3;
  parent_id = 2;
  type = file;
  name = codes "sea";
  ext = codes "jpg";
  mime_type = [];
  file_size = 2;
  storage_key = codes "k";
  storage_provider = codes "hot";
  storage_bucket = codes "b";
}

abbrev root : Node
root = record folder { id = 1; parent_id = 0 }

abbrev find_view : ℕ → Result Node
find_view id =
    if id == 1
    then ok root
    else if id == 2
    then ok folder
    else if id == 3
    then ok photo
    else err repository_not_found

abbrev all : ℕ → List Node
all id = if id == 1 then folder ∷ [] else if id == 2 then photo ∷ [] else []

abbrev answers : Answers ℕ
answers = record {
  find_view = λ id library. find_view id;
  list_ancestors = λ id library. ok (id ∷ []);
  list_children = λ id library limit. ok (take limit (all id));
  stat_object = λ s k. ok (info 2);
  bucket = λ s. codes "b";
  uuid = λ i. codes "u";
}

abbrev command : CopyNodeCommand
command = record {
  node_id = 2;
  library_id = 1;
  parent_id = 1;
  name = codes "again";
  recursive = true;
  conflict_policy = none;
  dry_run = false;
}

abbrev planned : List (NodeCopyItem ℕ)
planned =
    record { node = record folder { name = codes "again" }; store = none; key = [] }
    ∷ record { node = photo; store = some 1; key = codes "libraries/1/u" }
    ∷ []

plan_run : plan_node_copy letters registry answers command ≡ some (ok planned)
unfolding plan_node_copy eqb decimal
plan_run = refl

-- The plan of this copy.
plan_node_copy-IsPlan_example :
    (res : Result (List (NodeCopyItem ℕ))) × (plan_node_copy letters registry answers command
      ≡ some res)
    × ((items : List (NodeCopyItem ℕ))
        → res ≡ ok items
        → IsPlan letters registry answers all command items)
plan_node_copy-IsPlan_example =
    plan_node_copy-IsPlan letters registry answers all command
      (λ id limit children e. sym (ok_injective e))

name_run : copy_node_name (codes "a.tar.gz") file ≡ ok (codes "a.tar", codes "gz")
unfolding copy_node_name eqb
name_run = refl

copy_node_name-joined_example : joined (codes "a.tar") (codes "gz") ≡ codes "a.tar.gz"
copy_node_name-joined_example =
    copy_node_name-joined (codes "a.tar.gz") file (codes "a.tar") (codes "gz") name_run

-- The database is the next id.
abbrev calls : Calls ℕ ℕ Stores
calls = record {
  create = λ cmd d. (ok d, suc d);
  commit = λ d x. (none, d, x);
  get_object = λ s k x. (got (x s k), x);
  upload = λ s k bytes n type x. (ok tt, length bytes, write s k (some bytes) x);
  remove = λ s k x. (ok tt, write s k none x);
}

abbrev before : Stores
before s k = if is_place 1 (codes "k") s k then some (8 ∷ 9 ∷ []) else none

abbrev after : Stores
after = (copy_planned calls command planned 20 before).2

-- The same from the request on.
whole_run :
    copy_node calls letters registry answers (ok tt) command 20 before
    ≡ some (copy_planned calls command planned 20 before)
unfolding copy_node copy_planned eqb decimal
whole_run = refl
