-- ===== src/Bookmarks/Cycle.antt =====
-- ensureParentFolder and ensureMoveTarget of internal/usecase/browser_bookmark.go.
pub mod Climb
use omniflow_go.Prelude.{
  ℕ, zero, suc, ◌≡◌, refl, ◌⊎◌, inl, inr, Bool, true, false, ◌&&◌, ◌||◌, not, Option, none, some,
  List, [], ◌∷◌, ◌==◌, if◌then◌else◌, Elem, arith, Bool-cases,
}
use omniflow_go.Text.{eqb}
use omniflow_go.Result.{Error, Result, ok, err, guard, ◌>>=◌, ◌>>◌, invalid_argument}
use omniflow_go.Bookmarks.{
  Bookmark, Table, kind_folder, map_found, on_error, find_owner_by_id, list_by_owner,
}

-- `parentByID[cursor]`: the entry that was written last.
unfoldable pub parent_by_id : List Bookmark → ℕ → Option ℕ
parent_by_id [] cursor = none
parent_by_id (r ∷ rs) cursor = elim (parent_by_id rs cursor) [
  | some p ↦ some p
  | none ↦ if r.id == cursor then r.parent else none
]

-- The loop, `none` when it is still running after so many rounds.
unfoldable pub climb : ℕ → List Bookmark → ℕ → ℕ → Option (Result (Unit {0}))
unfolding parent_by_id
climb zero rows current cursor = none
climb (suc fuel) rows current cursor =
    if cursor == 0
    then some (ok tt)
    else if cursor == current
    then some (err invalid_argument)
    else elim (parent_by_id rows cursor) [
      | none ↦ some (ok tt)
      | some next ↦ if next == cursor then some (ok tt) else climb fuel rows current next
    ]

module _ (d : Table) where
  open d use {Session}

  unfoldable pub ensure_folder : ℕ → ℕ → Session → Result (Unit {0})
  ensure_folder owner p s = do
    parent ← on_error map_found (find_owner_by_id d p owner s)
    guard (eqb parent.kind kind_folder) invalid_argument

  unfoldable pub ensure_parent_folder : ℕ → Option ℕ → Session → Result (Unit {0})
  unfolding ensure_folder
  ensure_parent_folder owner none s = ok tt
  ensure_parent_folder owner (some p) s = if p == 0 then ok tt else ensure_folder owner p s

  unfoldable pub rows_of_folder : ℕ → Bookmark → Session → Result (Option (List Bookmark))
  rows_of_folder owner current s =
      if eqb current.kind kind_folder
      then list_by_owner d owner s >>= (λ rows. ok (some rows))
      else ok none

  -- What stands in front of the loop: whether it is entered, with the rows.
  unfoldable pub check_target : ℕ → Bookmark → ℕ → Session → Result (Option (List Bookmark))
  unfolding rows_of_folder
  check_target owner current p s = do
    guard (not (p == current.id)) invalid_argument
    ensure_parent_folder owner (some p) s
    rows_of_folder owner current s

  unfoldable pub climb_from :
      ℕ → Bookmark → ℕ → Result (Option (List Bookmark)) → Option (Result (Unit {0}))
  unfolding climb
  climb_from fuel current p (err e) = some (err e)
  climb_from fuel current p (ok none) = some (ok tt)
  climb_from fuel current p (ok (some rows)) = climb fuel rows current.id p

  unfoldable pub ensure_move_target :
      ℕ → ℕ → Bookmark → Option ℕ → Session → Option (Result (Unit {0}))
  unfolding climb_from check_target
  ensure_move_target fuel owner current none s = some (ok tt)
  ensure_move_target fuel owner current (some p) s =
      if p == 0 then some (ok tt) else climb_from fuel current p (check_target owner current p s)
