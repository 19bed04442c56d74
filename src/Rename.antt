-- ===== src/Rename.antt =====
-- Renaming a node: Rename of internal/usecase/node.go inside its transaction, and RenameNode with
-- UpdateNodeFields of internal/repository/postgres/impl/node/node_write.go.
pub mod Renamed
use omniflow_go.Prelude.{
  ℕ, Bool, true, false, ◌&&◌, ◌||◌, not, Option, none, some, List, [], ◌∷◌, ◌==◌, leb, ltb,
  if◌then◌else◌, length,
}
use omniflow_go.Text.{Text, is_empty, trim_space}
use omniflow_go.Result.{
  Result, ok, guard, ◌>>=◌, ◌>>◌, invalid_argument, repository_not_found, repository_conflict,
}
use omniflow_go.Names.{max_node_ext_length, is_file, domain_type_code, normalize_node_ext}
use omniflow_go.Store.{Row, is_live, Database, parent_id_value, find_node_model}
use omniflow_go.Move.{deref_string, has_duplicate_visible_name}
use omniflow_go.Create.{with_create_error}

-- The entry "ext" of the updates, where there is one: NULL for a blank extension.
abbrev pub ext_update : Option Text → Option (Option Text)
ext_update none = none
ext_update (some ext) = some (if is_empty (trim_space ext) then none else some (trim_space ext))

-- A file alone gets a new extension.
unfoldable pub ext_updates : Row → Option Text → Option (Option Text)
unfolding trim_space
ext_updates current ext = if current.node_type == 1 then ext_update ext else none

-- `nextExt`
abbrev pub next_ext : Row → Option (Option Text) → Text
next_ext current none = deref_string current.ext
next_ext current (some ext) = deref_string ext

-- What the updates write.
unfoldable pub rename_row : Text → Option (Option Text) → ℕ → Row → Row
rename_row name none now r = record r { name = name; updated_at = now }
rename_row name (some ext) now r = record r { name = name; ext = ext; updated_at = now }

-- The extension that Rename passes on: normalised, and for a file alone.
unfoldable pub wanted_ext : Bool → Option Text → Result (Option Text)
unfolding normalize_node_ext
wanted_ext false ext = ok none
wanted_ext true none = ok none
wanted_ext true (some ext) = do
  guard
      (is_empty (normalize_node_ext ext)
        || leb (length (normalize_node_ext ext)) max_node_ext_length)
      invalid_argument
  ok (some (normalize_node_ext ext))

module _ (d : Database) where
  open d use {Session, update}

  -- Whether a row was updated.
  unfoldable pub update_node_fields : ℕ → ℕ → (Row → Row) → Session → Result (Bool × Session)
  update_node_fields node library updates s = do
    (n, t) ← update (λ r. is_live r && r.id == node && r.library == library) updates s
    ok (ltb 0 n, t)

  unfoldable pub rename_node : ℕ → ℕ → Text → Option Text → ℕ → Session → Result Session
  unfolding ext_updates rename_row update_node_fields
  rename_node node library name ext now s = do
    current ← find_node_model d node library s
    duplicate ←
        has_duplicate_visible_name d name (next_ext current (ext_updates current ext))
          (domain_type_code current.node_type) (parent_id_value current.parent) library node s
    guard (not duplicate) repository_conflict
    (updated, t) ← update_node_fields node library (rename_row name (ext_updates current ext) now) s
    guard updated repository_not_found
    ok t

  -- Rename, `view` being the node that GetNodeDetail gives, with AuthorizeMutation as a parameter.
  unfoldable pub rename :
      (ℕ → Result (Unit {0})) → Row → Text → Option Text → ℕ → Session → Result Session
  unfolding wanted_ext rename_node
  rename authorize view name ext now s = do
    guard (not (view.id == 0 || is_empty (trim_space name))) invalid_argument
    authorize view.library
    wanted ← wanted_ext (is_file (domain_type_code view.node_type)) ext
    with_create_error (rename_node view.id view.library name wanted now s)
