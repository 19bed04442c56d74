-- ===== src/Bookmarks/Import.antt =====
-- Import of internal/usecase/browser_bookmark_import.go, inside its transaction.
pub mod Grown
use omniflow_go.Prelude.{
  ℕ, zero, suc, ◌+◌, ◌%◌, Bool, true, false, not, Option, none, some, List, [], ◌∷◌, if◌then◌else◌,
}
use omniflow_go.Text.{Text, is_empty, trim_space}
use omniflow_go.Result.{Error, Result, ok, err, guard, ◌>>=◌, ◌>>◌, invalid_argument}
use omniflow_go.Bookmarks.{Bookmark, Table, on_error, to_pg_int64_ptr}
use omniflow_go.Bookmarks.Move.{map_conflict, next_sort_order}
use omniflow_go.Bookmarks.Normal.{
  Urls, ImportFields, ImportItems, no_items, item, is_no_items,
  normalize_import_browser_bookmark_items,
}

unfoldable pub bookmark_string_ptr : Text → Option Text
bookmark_string_ptr value = if is_empty (trim_space value) then none else some (trim_space value)

module _ (d : Table) where
  open d use {Session, insert}

  unfoldable pub create_item :
      ℕ → ℕ → Option ℕ → ℕ → ImportFields → Session → Result (Bookmark × Session)
  unfolding bookmark_string_ptr
  create_item now owner parent order f s = on_error map_conflict (
      insert
        (record {
          id = 0;
          owner = owner;
          parent = to_pg_int64_ptr parent;
          kind = f.kind;
          title = f.title;
          url = bookmark_string_ptr f.url;
          url_match_key = bookmark_string_ptr f.url_match_key;
          icon_url = bookmark_string_ptr f.icon_url;
          sort_order = order;
          deleted_at = none;
          updated_at = now;
        })
        s)

  -- The loop of importBrowserBookmarkChildren, which imports the children of an item, if it has any,
  -- in front of the next item.
  unfoldable pub import_loop : ℕ → ℕ → Option ℕ → ℕ → ImportItems → Session → Result (ℕ × Session)
  import_loop now owner parent order no_items s = ok (0, s)
  import_loop now owner parent order (item f children rest) s = do
    (created, t) ← create_item now owner parent order f s
    (n, u) ←
        (if is_no_items children
          then ok (0, t)
          else (next_sort_order d owner (some created.id) t >>= λ start.
              import_loop now owner (some created.id) start children t))
    (m, v) ← import_loop now owner parent ((order + 1000) % 4294967296) rest u
    ok (suc (n + m), v)

  -- Import: the items are normalised, and there must be one.
  unfoldable pub import_bookmarks : Urls → ℕ → ℕ → ImportItems → Session → Result (ℕ × Session)
  unfolding import_loop
  import_bookmarks urls now owner items s = do
    normalized ← normalize_import_browser_bookmark_items urls items
    guard (not (is_no_items normalized)) invalid_argument
    order ← next_sort_order d owner none s
    import_loop now owner none order normalized s
