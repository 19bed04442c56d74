-- ===== src/Bookmarks/Move.antt =====
-- Move and Create of internal/usecase/browser_bookmark.go, inside their transaction.
pub mod Rows
pub mod Sorted
pub mod Tree
pub mod Target
pub mod New
use omniflow_go.Prelude.{
  ℕ, zero, suc, ◌+◌, ◌%◌, ◌==◌, Bool, true, false, ◌&&◌, not, Option, none, some, List, [], ◌∷◌,
  ◌++◌, if◌then◌else◌,
}
use omniflow_go.Text.{Text}
use omniflow_go.Result.{
  Error, Result, ok, err, guard, ◌>>=◌, ◌>>◌, invalid_argument, conflict, repository_conflict,
}
use omniflow_go.Bookmarks.{
  Bookmark, Table, sort_zero, is_owned, is_child, map_found, on_error, list_siblings,
  find_owner_by_id, move_owner_by_id, update_sort_orders, to_pg_int64_ptr,
}
use omniflow_go.Bookmarks.Order.{insert_bookmark_into_sibling_order, build_bookmark_sort_orders}
use omniflow_go.Bookmarks.Cycle.{ensure_move_target, ensure_parent_folder}

pub record MoveBrowserBookmarkCommand : Type 0 where
  pub bookmark : ℕ
  pub parent : Option ℕ
  pub before : Option ℕ
  pub after : Option ℕ

abbrev pub is_some_of : ℕ → Option ℕ → Bool
is_some_of id none = false
is_some_of id (some x) = x == id

abbrev pub are_both : Option ℕ → Option ℕ → Bool
are_both (some b) (some a) = true
are_both before none = false
are_both none (some a) = false

-- The tests on the command.
unfoldable pub check_command : MoveBrowserBookmarkCommand → Result (Unit {0})
check_command cmd = do
  guard (not (cmd.bookmark == 0)) invalid_argument
  guard (not (is_some_of cmd.bookmark cmd.before)) invalid_argument
  guard (not (is_some_of cmd.bookmark cmd.after)) invalid_argument
  guard (not (are_both cmd.before cmd.after)) invalid_argument

-- ErrConflict of the repository as that of the use case.
unfoldable pub map_conflict : Error → Error
map_conflict repository_conflict = conflict
map_conflict e = e

pub record NewBookmark : Type 0 where
  pub parent : Option ℕ
  pub kind : Text
  pub title : Text
  pub url : Option Text
  pub url_match_key : Option Text
  pub icon_url : Option Text

-- `maxOrder + 1000` as an int32, where NULL counts as 0.
unfoldable pub after_max : Option ℕ → ℕ
after_max none = sort_zero + 1000
after_max (some m) = (m + 1000) % 4294967296

module _ (d : Table) where
  open d use {Session, select_max, insert}

  -- The part of Move behind its tests.
  unfoldable pub place_bookmark :
      ℕ → ℕ → MoveBrowserBookmarkCommand → Session → Result (Bookmark × Session)
  place_bookmark now owner cmd s = do
    siblings ← list_siblings d owner cmd.parent cmd.bookmark s
    ordered ← insert_bookmark_into_sibling_order cmd.bookmark siblings cmd.before cmd.after
    moved ← on_error map_found (move_owner_by_id d now cmd.bookmark owner cmd.parent s)
    t ← update_sort_orders d now owner (build_bookmark_sort_orders ordered) moved
    row ← find_owner_by_id d cmd.bookmark owner t
    ok (row, t)

  unfoldable pub move_checked :
      ℕ
      → ℕ
      → MoveBrowserBookmarkCommand
      → Session
      → Option (Result (Unit {0}))
      → Option (Result (Bookmark × Session))
  unfolding place_bookmark
  move_checked now owner cmd s none = none
  move_checked now owner cmd s (some checked) = some (checked >> place_bookmark now owner cmd s)

  unfoldable pub move_found :
      ℕ
      → ℕ
      → ℕ
      → MoveBrowserBookmarkCommand
      → Session
      → Result Bookmark
      → Option (Result (Bookmark × Session))
  unfolding move_checked
  move_found fuel now owner cmd s (err e) = some (err e)
  move_found fuel now owner cmd s (ok current) =
      move_checked now owner cmd s (ensure_move_target d fuel owner current cmd.parent s)

  -- Move: `none` when the loop of ensureMoveTarget is still running after `fuel` rounds.
  unfoldable pub move_bookmark :
      ℕ → ℕ → ℕ → MoveBrowserBookmarkCommand → Session → Option (Result (Bookmark × Session))
  unfolding move_found check_command
  move_bookmark fuel now owner cmd s =
      move_found fuel now owner cmd s
        (check_command cmd >> on_error map_found (find_owner_by_id d cmd.bookmark owner s))

  unfoldable pub next_sort_order : ℕ → Option ℕ → Session → Result ℕ
  unfolding after_max
  next_sort_order owner parent s = do
    m ← select_max (λ r. is_owned owner r && is_child parent r) s
    ok (after_max m)

  -- Create, once its input is normalised. The table gives the key.
  unfoldable pub create_bookmark : ℕ → ℕ → NewBookmark → Session → Result (Bookmark × Session)
  create_bookmark now owner input s = do
    ensure_parent_folder d owner input.parent s
    order ← next_sort_order owner input.parent s
    on_error map_conflict (
        insert
          (record {
            id = 0;
            owner = owner;
            parent = to_pg_int64_ptr input.parent;
            kind = input.kind;
            title = input.title;
            url = input.url;
            url_match_key = input.url_match_key;
            icon_url = input.icon_url;
            sort_order = order;
            deleted_at = none;
            updated_at = now;
          })
          s)
