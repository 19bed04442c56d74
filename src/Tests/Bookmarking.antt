-- ===== src/Tests/Bookmarking.antt =====
-- Bookmarks of the owner 1: a folder with two entries, a folder, and an entry on the top level.
use omniflow_go.Prelude.{
  ℕ, ◌≡◌, refl, inl, inr, true, Option, none, some, List, [], ◌∷◌, All_elem, arith,
}
use omniflow_go.Text.{Text, codes, eqb}
use omniflow_go.Result.{Result, ok}
use omniflow_go.Bookmarks.{
  Bookmark, kind_url, kind_folder, to_int32, to_pg_int64_ptr, list_siblings, list_by_owner,
  find_owner_by_id, move_owner_by_id, update_sort_orders,
}
use omniflow_go.Bookmarks.Memory.{
  bookmark_memory, select_bookmarks, select_max_list, update_bookmarks, insert_bookmarks,
}
use omniflow_go.Bookmarks.Order.{
  insert_loop, insert_bookmark_into_sibling_order, build_bookmark_sort_orders, number_from,
}
use omniflow_go.Bookmarks.Cycle.{
  climb, climb_from, parent_by_id, ensure_folder, ensure_parent_folder, rows_of_folder,
  check_target, ensure_move_target,
}
use omniflow_go.Bookmarks.Cycle.Climb.{Hangs, IsTree, HasBookmarkKeys}
use omniflow_go.Bookmarks.Move.{
  MoveBrowserBookmarkCommand, check_command, place_bookmark, move_checked, move_found,
  move_bookmark, NewBookmark, after_max, next_sort_order, create_bookmark,
}
use omniflow_go.Bookmarks.Move.Target.{move_bookmark-IsTree, ensure_move_target_ends}
use omniflow_go.Bookmarks.Move.New.{create_bookmark-IsTree}

abbrev pub mark : ℕ → Option ℕ → Text → ℕ → ℕ → Bookmark
mark id parent kind order time = record {
  id = id;
  owner = 1;
  parent = parent;
  kind = kind;
  title = codes "t";
  url = none;
  url_match_key = none;
  icon_url = none;
  sort_order = order;
  deleted_at = none;
  updated_at = time;
}

abbrev pub marks : List Bookmark
marks =
    mark 1 none kind_folder 2147484648 0
    ∷ mark 2 (some 1) kind_url 2147484648 0
    ∷ mark 3 (some 1) kind_url 2147485648 0
    ∷ mark 4 none kind_folder 2147485648 0
    ∷ mark 5 none kind_url 2147486648 0
    ∷ []

-- The folder 4 goes into the folder 1, before the entry 3.
abbrev command : MoveBrowserBookmarkCommand
command = record { bookmark = 4; parent = some 1; before = some 3; after = none }

abbrev moved_marks : List Bookmark
moved_marks =
    mark 1 none kind_folder 2147484648 0
    ∷ mark 2 (some 1) kind_url 2147484648 9
    ∷ mark 3 (some 1) kind_url 2147486648 9
    ∷ mark 4 (some 1) kind_folder 2147485648 9
    ∷ mark 5 none kind_url 2147486648 0
    ∷ []

abbrev siblings : List Bookmark
siblings = mark 2 (some 1) kind_url 2147484648 0 ∷ mark 3 (some 1) kind_url 2147485648 0 ∷ []

moves :
    move_bookmark bookmark_memory 5 9 1 command marks
    ≡ some (ok (mark 4 (some 1) kind_folder 2147485648 9, moved_marks))
unfolding move_bookmark move_found move_checked place_bookmark check_command list_siblings
    list_by_owner find_owner_by_id move_owner_by_id update_sort_orders select_bookmarks
    update_bookmarks to_int32 to_pg_int64_ptr insert_bookmark_into_sibling_order insert_loop
    build_bookmark_sort_orders number_from climb climb_from parent_by_id ensure_folder
    ensure_parent_folder rows_of_folder check_target ensure_move_target eqb
moves = refl

keys : HasBookmarkKeys marks
keys = ((λ q r m n e. ground arith), (λ r m. ground arith))

is_folder : eqb kind_folder kind_folder ≡ true
unfolding eqb
is_folder = refl

folder-Hangs : Hangs 1 marks (mark 1 none kind_folder 2147484648 0)
folder-Hangs = Hangs.top (mark 1 none kind_folder 2147484648 0) (inl refl) refl refl

pub tree : IsTree 1 marks
tree r m o =
    All_elem (λ b. Hangs 1 marks b) r marks
      (
        folder-Hangs,
        (
          Hangs.under (mark 2 (some 1) kind_url 2147484648 0) (mark 1 none kind_folder 2147484648 0)
              folder-Hangs (inr (inl refl)) refl refl is_folder,
          (
            Hangs.under (mark 3 (some 1) kind_url 2147485648 0)
                (mark 1 none kind_folder 2147484648 0) folder-Hangs (inr (inr (inl refl))) refl refl
                is_folder,
            (
              Hangs.top (mark 4 none kind_folder 2147485648 0) (inr (inr (inr (inl refl)))) refl
                  refl,
              (
                Hangs.top (mark 5 none kind_url 2147486648 0) (inr (inr (inr (inr (inl refl)))))
                    refl refl,
                tt,
              ),
            ),
          ),
        ),
      )
      m

move_bookmark-IsTree_example : IsTree 1 moved_marks
move_bookmark-IsTree_example =
    move_bookmark-IsTree bookmark_memory 5 9 1 command marks moved_marks
      (mark 4 (some 1) kind_folder 2147485648 9) keys tree moves

ensure_move_target_ends_example :
    (fuel : ℕ) × (x : Result (Unit {0})) × (ensure_move_target bookmark_memory fuel 1
        (mark 4 none kind_folder 2147485648 0)
        (some 1)
        marks
      ≡ some x)
ensure_move_target_ends_example =
    ensure_move_target_ends bookmark_memory 1 (mark 4 none kind_folder 2147485648 0) (some 1) marks
      keys tree

inserts : insert_bookmark_into_sibling_order 4 siblings (some 3) none ≡ ok (2 ∷ 4 ∷ 3 ∷ [])
unfolding insert_bookmark_into_sibling_order insert_loop
inserts = refl

-- A new entry in the folder 1.
abbrev new_input : NewBookmark
new_input = record {
  parent = some 1;
  kind = kind_url;
  title = codes "t";
  url = none;
  url_match_key = none;
  icon_url = none;
}

abbrev created_mark : Bookmark
created_mark = mark 16 (some 1) kind_url 2147486648 9

abbrev created_marks : List Bookmark
created_marks =
    mark 1 none kind_folder 2147484648 0
    ∷ mark 2 (some 1) kind_url 2147484648 0
    ∷ mark 3 (some 1) kind_url 2147485648 0
    ∷ mark 4 none kind_folder 2147485648 0
    ∷ mark 5 none kind_url 2147486648 0
    ∷ created_mark
    ∷ []

creates : create_bookmark bookmark_memory 9 1 new_input marks ≡ ok (created_mark, created_marks)
unfolding create_bookmark next_sort_order after_max ensure_folder ensure_parent_folder
    find_owner_by_id select_bookmarks select_max_list insert_bookmarks to_pg_int64_ptr eqb
creates = refl

create_bookmark-IsTree_example : IsTree 1 created_marks
create_bookmark-IsTree_example =
    create_bookmark-IsTree bookmark_memory 9 1 new_input marks created_marks created_mark tree
      creates
