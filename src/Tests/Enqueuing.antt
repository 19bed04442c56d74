-- ===== src/Tests/Enqueuing.antt =====
-- A migration that is requested: one object on the store "hot" is to move to "cold".
use omniflow_go.Prelude.{ℕ, false, none, List, [], ◌∷◌}
use omniflow_go.Text.{Text, codes}
use omniflow_go.Result.{Result, ok}
use omniflow_go.Migration.{Db}
use omniflow_go.Migration.Actions.{World}
use omniflow_go.Migration.Requests.{StorageObjectRef, EnqueueMigrationCommand}
use omniflow_go.Tests.Migrations.{Stores, object, file}

abbrev start : World Stores
start = record {
  db = record {
    tasks = [];
    items = [];
    objects = object ∷ [];
    files = file 11 ∷ [];
    next_object = 4;
    next_item = 1;
  };
  outside = λ s k. none;
}

abbrev ref : StorageObjectRef
ref = record {
  storage_object_id = 3;
  provider = codes "hot";
  bucket = codes "b";
  object_key = codes "old";
  content_length = 2;
  content_type = [];
}

abbrev enumerate : ℕ → ℕ → Text → Db → Result (List StorageObjectRef)
enumerate library root target db = ok (ref ∷ [])

abbrev new_uuid : Stores → Text × Stores
new_uuid x = (codes "u", x)

abbrev command : EnqueueMigrationCommand
command = record {
  actor = record { id = codes "7"; kind = codes "user"; scopes = [] };
  library_id = 1;
  root_node_id = 10;
  target_provider = codes "cold";
  dry_run = false;
}
