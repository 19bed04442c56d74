-- ===== src/Tests/Migrations.antt =====
-- One object that moves from the store "hot" to the store "cold", and two files that refer to it. The
-- stores are functions from a handle and a key to what they hold.
use omniflow_go.Prelude.{
  ℕ, ◌≡◌, ◌≢◌, refl, ap, inl, inr, Bool, Bool-cases, map, true, false, ◌&&◌, Option, none, some,
  List, [], ◌∷◌, ◌==◌, if◌then◌else◌, length, take, arith,
}
use omniflow_go.Text.{Text, codes, eqb}
use omniflow_go.Text.Laws.{eqb→≡, eqb_refl}
use omniflow_go.Result.{Result, ok, err, not_found}
use omniflow_go.Storage.{Letters}
use omniflow_go.Storage.Registry.{Registry, get}
use omniflow_go.Migration.{
  TaskStatus, ItemStatus, Task, TaskItem, StorageObject, NodeFile, progressed,
}
use omniflow_go.Migration.Actions.{ObjectInfo, Outside, applied, IsLawful, World}
use omniflow_go.Migration.Tasks.{select_task}
use omniflow_go.Migration.Process.{process_item}
use omniflow_go.Migration.Contents.{tables, contents}
use omniflow_go.Migration.Invisible.{process_item-contents}

abbrev pub letters : Letters
letters = record { to_lower = λ c. c; to_upper = λ c. c; fold = λ c. c }

abbrev pub registry : Registry ℕ ℕ
registry = record {
  providers = (codes "hot", 1) ∷ (codes "cold", 2) ∷ [];
  cleanups = [];
  default_alias = codes "hot";
  routing_rules = [];
  storage_cfg = none;
}

abbrev pub Stores : Type 0
Stores = ℕ → Text → Option (List ℕ)

abbrev pub info : ℕ → ObjectInfo
info n = record { size = n; content_type = []; etag = [] }

abbrev pub is_place : ℕ → Text → ℕ → Text → Bool
is_place t k s k' = t == s && eqb k' k

abbrev pub write : ℕ → Text → Option (List ℕ) → Stores → Stores
write t k bytes x s k' = if is_place t k s k' then bytes else x s k'

abbrev pub got : Option (List ℕ) → Result (List ℕ × ObjectInfo)
got none = err not_found
got (some bytes) = ok (bytes, info (length bytes))

abbrev pub stat : Option (List ℕ) → Result ObjectInfo
stat none = err not_found
stat (some bytes) = ok (info (length bytes))

abbrev pub stores : Outside ℕ Stores
stores = record {
  fails = λ x. (none, x);
  commits = λ x. (applied, x);
  get_object = λ s k x. (got (x s k), x);
  upload = λ s k bytes n type x. (ok tt, write s k (some bytes) x);
  stat_object = λ s k x. (stat (x s k), x);
  remove = λ s k x. (ok tt, write s k none x);
  bucket = λ s. codes "b";
}

pub write_other :
    (t : ℕ) (k : Text) (bytes : Option (List ℕ)) (x : Stores) (s : ℕ) (k' : Text)
    → k' ≢ k
    → write t k bytes x s k' ≡ x s k'
write_other t k bytes x s k' h = elim (Bool-cases (is_place t k s k')) [
  | inl e ↦ absurd (h (eqb→≡ k' k (is_key t s (eqb k' k) e)))
  | inr e ↦ rw e refl
]
  where
    is_key : (t s : ℕ) (b : Bool) → (t == s && b) ≡ true → b ≡ true
    is_key t s b e = ground arith

take_all : (xs : List ℕ) → take (length xs) xs ≡ xs
take_all [] = refl
take_all (x ∷ xs) = ap (λ l. x ∷ l) (take_all xs)

pub got_lem :
    (o : Option (List ℕ)) (bytes : List ℕ) (i : ObjectInfo) → got o ≡ ok (bytes, i) → o ≡ some bytes
got_lem none bytes i e = cc
got_lem (some b) bytes i e = ground arith

stat_lem :
    (o : Option (List ℕ)) (i : ObjectInfo)
    → stat o ≡ ok i
    → (bytes : List ℕ) × (o ≡ some bytes) × (i.size ≡ length bytes)
stat_lem none i e = cc
stat_lem (some b) i e = (b, refl, ground arith)

pub written :
    (t : ℕ) (k : Text) (bytes : List ℕ) (x : Stores)
    → write t k (some bytes) x t k ≡ some (take (length bytes) bytes)
written t k bytes x = rw (take_all bytes, eqb_refl k) (ground arith)

stores-IsLawful : IsLawful stores (λ s k x. x s k)
stores-IsLawful = record {
  fails_same = λ x s k. refl;
  commits_same = λ x s k. refl;
  get_same = λ x t l s k. refl;
  get_content = λ x t l bytes i e. got_lem (x t l) bytes i e;
  upload_same = λ x t l bytes n type s k h. write_other t l (some bytes) x s k h;
  upload_content = λ x t l bytes n type e. (length bytes, written t l bytes x);
  stat_same = λ x t l s k. refl;
  stat_content = λ x t l i e. stat_lem (x t l) i e;
  remove_same = λ x t l s k h. write_other t l none x s k h;
}

abbrev item : TaskItem
item = record {
  id = 5;
  task_id = codes "t";
  storage_object_id = 3;
  source_provider = codes "hot";
  source_bucket = codes "b";
  source_key = codes "old";
  target_storage_object_id = 0;
  target_key = codes "new";
  file_size = 2;
  status = ItemStatus.running;
}

abbrev task : Task
task = record {
  id = codes "t";
  actor_id = codes "7";
  library_id = 1;
  root_node_id = 10;
  target_provider = codes "cold";
  status = TaskStatus.pending;
  total_objects = 1;
  completed_objects = 0;
  failed_objects = 0;
  skipped_objects = 0;
  total_bytes = 2;
  transferred_bytes = 0;
  current_object_key = [];
}

abbrev pub object : StorageObject
object = record {
  id = 3;
  library_id = 1;
  provider = codes "hot";
  bucket = codes "b";
  object_key = codes "old";
  content_length = 2;
  content_type = none;
  etag = none;
  is_deleted = false;
}

abbrev pub file : ℕ → NodeFile
file id = record { library_id = 1; file_id = id; storage_object_id = 3 }

abbrev world : World Stores
world = record {
  db = record {
    tasks = task ∷ [];
    items = item ∷ [];
    objects = object ∷ [];
    files = file 11 ∷ file 12 ∷ [];
    next_object = 4;
    next_item = 6;
  };
  outside = λ s k. if is_place 1 (codes "old") s k then some (8 ∷ 9 ∷ []) else none;
}

abbrev after : World Stores
after = (process_item letters stores registry item world).1

-- The new store has the bytes, the old one has none, the item is done, and the files read the same.
after_run :
    contents letters registry after.outside (tables after.db)
    ≡ (1, 11, some (8 ∷ 9 ∷ [])) ∷ (1, 12, some (8 ∷ 9 ∷ [])) ∷ []
unfolding process_item get eqb progressed
after_run = refl

after_stores :
    (after.outside 1 (codes "old") ≡ none)
    × (after.outside 2 (codes "new") ≡ some (8 ∷ 9 ∷ []))
    × (map (λ i. i.status) after.db.items ≡ ItemStatus.done ∷ [])
unfolding process_item get eqb progressed
after_stores = (refl, refl, refl)

sizes :
    (source : ℕ) (bytes : List ℕ)
    → get letters registry item.source_provider ≡ ok source
    → world.outside source item.source_key ≡ some bytes
    → length bytes ≡ item.file_size
unfolding eqb
sizes source bytes e h = held (1 == source) h
  where
    held :
        (b : Bool) → (if b && true then some (8 ∷ 9 ∷ []) else none) ≡ some bytes → length bytes ≡ 2
    held true h = ground arith
    held false h = cc

new_key : codes "old" ≢ codes "new"
new_key e = ground arith

ours : (t : Task) → select_task item.task_id world.db ≡ ok t → t.library_id ≡ 1
unfolding eqb
ours t e = ground arith

process_item-contents_example :
    contents letters registry after.outside (tables after.db)
    ≡ contents letters registry world.outside (tables world.db)
process_item-contents_example =
    process_item-contents letters stores registry (λ s k x. x s k) item 1 world stores-IsLawful
      (λ x e h. cc)
      (
        ((λ live. (new_key, omega arith, λ e. refl, λ e. (refl, refl, refl))), tt),
        ((omega arith, λ e e' n. cc), ((omega arith, λ e e' n. cc), tt)),
      )
      new_key sizes ours
