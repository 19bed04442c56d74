-- ===== src/Bookmarks/Move/Rows.antt =====
-- What a Move of a bookmark writes to the rows.
use omniflow_go.Prelude.{
  map-map, map-same, ℕ, ◌<◌, ◌≡◌, refl, sym, ap, ◌∙◌, ◌⊎◌, inl, inr, not, Option, none, some, List,
  [], ◌∷◌, map, ◌==◌, if◌then◌else◌, arith, Bool-cases,
}
use omniflow_go.Result.{Error, Result, ok, err, guard, ◌>>◌, >>=-eq-ok, guard-eq-ok}
use omniflow_go.Bookmarks.{
  Bookmark, Table, SortOrder, is_owned, has_bookmark_id, on_error, map_found, list_siblings,
  find_owner_by_id, move_owner_by_id, update_sort_orders, to_pg_int64_ptr, to_int32,
}
use omniflow_go.Bookmarks.Order.{insert_bookmark_into_sibling_order, build_bookmark_sort_orders}
use omniflow_go.Bookmarks.Cycle.{ensure_move_target}
use omniflow_go.Bookmarks.Move.{
  MoveBrowserBookmarkCommand, place_bookmark, check_command, is_some_of, are_both, move_bookmark,
  move_found, move_checked,
}

abbrev pub set_order : ℕ → ℕ → SortOrder → Bookmark → Bookmark
set_order now owner o r =
    if has_bookmark_id o.bookmark owner r
    then record r { sort_order = to_int32 o.order; updated_at = now }
    else r

-- What UpdateSortOrders does to one row.
abbrev pub renumber : ℕ → ℕ → List SortOrder → Bookmark → Bookmark
renumber now owner [] r = r
renumber now owner (o ∷ os) r = renumber now owner os (set_order now owner o r)

-- What MoveOwnerByID does to one row.
abbrev pub set_parent : ℕ → ℕ → ℕ → Option ℕ → Bookmark → Bookmark
set_parent now id owner parent r =
    if has_bookmark_id id owner r
    then record r { parent = to_pg_int64_ptr parent; updated_at = now }
    else r

-- All but the sort order and the time is as before.
pub record Keeps (r q : Bookmark) : Type 0 where
  pub id : q.id ≡ r.id
  pub owner : q.owner ≡ r.owner
  pub kind : q.kind ≡ r.kind
  pub deleted : q.deleted_at ≡ r.deleted_at
  pub parent : q.parent ≡ r.parent

pub Keeps-trans : (r q x : Bookmark) → Keeps r q → Keeps q x → Keeps r x
Keeps-trans r q x a b = record {
  id = b.id ∙ a.id;
  owner = b.owner ∙ a.owner;
  kind = b.kind ∙ a.kind;
  deleted = b.deleted ∙ a.deleted;
  parent = b.parent ∙ a.parent;
}

set_order-Keeps : (now owner : ℕ) (o : SortOrder) (r : Bookmark) → Keeps r (set_order now owner o r)
set_order-Keeps now owner o r = elim (Bool-cases (has_bookmark_id o.bookmark owner r)) [
  | inl b ↦ rw b (record { id = refl; owner = refl; kind = refl; deleted = refl; parent = refl })
  | inr b ↦ rw b (record { id = refl; owner = refl; kind = refl; deleted = refl; parent = refl })
]

pub renumber-Keeps :
    (now owner : ℕ) (os : List SortOrder) (r : Bookmark) → Keeps r (renumber now owner os r)
renumber-Keeps now owner [] r = record {
  id = refl;
  owner = refl;
  kind = refl;
  deleted = refl;
  parent = refl;
}
renumber-Keeps now owner (o ∷ os) r =
    Keeps-trans r (set_order now owner o r) (renumber now owner os (set_order now owner o r))
      (set_order-Keeps now owner o r) (renumber-Keeps now owner os (set_order now owner o r))

pub Keeps-owned : (owner : ℕ) (r q : Bookmark) → Keeps r q → is_owned owner q ≡ is_owned owner r
Keeps-owned owner r q k = rw (k.owner, k.deleted) refl

pub on_error-ok :
    {A : Type 0} (f : Error → Error) (call : Result A) (a : A)
    → on_error f call ≡ ok a
    → call ≡ ok a
on_error-ok f (ok b) a h = h
on_error-ok f (err e) a h = cc

module _ (d : Table) where
  open d use {Session, rows, update, update_rows}

  update_sort_orders_rows :
      (now owner : ℕ) (os : List SortOrder) (s t : Session)
      → update_sort_orders d now owner os s ≡ ok t
      → rows t ≡ map (renumber now owner os) (rows s)
  unfolding update_sort_orders
  update_sort_orders_rows now owner [] s t h =
      let e : s ≡ t = ground arith in rw (← e) (sym (map-same (rows s)))
  update_sort_orders_rows now owner (o ∷ os) s t h =
      let ((n, u), q, h₁) =
        >>=-eq-ok
          (update (has_bookmark_id o.bookmark owner)
            (λ r. record r { sort_order = to_int32 o.order; updated_at = now }) s)
          _ h in
      let (_, h₂) = guard-eq-ok (not (n == 0)) _ _ h₁ in
      update_sort_orders_rows now owner os u t h₂
      ∙ ap (map (renumber now owner os)) (update_rows _ _ s u n q)
      ∙ map-map (renumber now owner os) (set_order now owner o) (rows s)

  move_owner_by_id_rows :
      (now id owner : ℕ) (parent : Option ℕ) (s t : Session)
      → move_owner_by_id d now id owner parent s ≡ ok t
      → rows t ≡ map (set_parent now id owner parent) (rows s)
  unfolding move_owner_by_id
  move_owner_by_id_rows now id owner parent s t h =
      let ((n, u), q, h₁) =
        >>=-eq-ok
          (update (has_bookmark_id id owner)
            (λ r. record r { parent = to_pg_int64_ptr parent; updated_at = now }) s)
          _ h in
      let (_, h₂) = guard-eq-ok (not (n == 0)) _ _ h₁ in
      let e : u ≡ t = ground arith in rw (← e) (update_rows _ _ s u n q)

  -- What has been read and written when the placing returns.
  pub place_bookmark_rows :
      (now owner : ℕ) (cmd : MoveBrowserBookmarkCommand) (s t : Session) (row : Bookmark)
      → place_bookmark d now owner cmd s ≡ ok (row, t)
      → (siblings : List Bookmark) × (ids : List ℕ) × (list_siblings d owner cmd.parent cmd.bookmark
            s
          ≡ ok siblings)
        × (insert_bookmark_into_sibling_order cmd.bookmark siblings cmd.before cmd.after ≡ ok ids)
        × (rows t
            ≡ map
                (λ r.
                  renumber now owner
                    (build_bookmark_sort_orders ids)
                    (set_parent now cmd.bookmark owner cmd.parent r))
                (rows s))
  unfolding place_bookmark
  place_bookmark_rows now owner cmd s t row h =
      let (siblings, a, h₁) = >>=-eq-ok (list_siblings d owner cmd.parent cmd.bookmark s) _ h in
      let (ids, b, h₂) =
        >>=-eq-ok (insert_bookmark_into_sibling_order cmd.bookmark siblings cmd.before cmd.after) _
          h₁ in
      let (u, c, h₃) =
        >>=-eq-ok (on_error map_found (move_owner_by_id d now cmd.bookmark owner cmd.parent s)) _
          h₂ in
      let (v, w, h₄) =
        >>=-eq-ok (update_sort_orders d now owner (build_bookmark_sort_orders ids) u) _ h₃ in
      let (x, _, h₅) = >>=-eq-ok (find_owner_by_id d cmd.bookmark owner v) _ h₄ in
      let e : v ≡ t = ground arith in
      (
        siblings,
        ids,
        a,
        b,
        rw (← e) (
            update_sort_orders_rows now owner (build_bookmark_sort_orders ids) u v w
            ∙ ap (map (renumber now owner (build_bookmark_sort_orders ids))) (
                move_owner_by_id_rows now cmd.bookmark owner cmd.parent s u
                  (on_error-ok map_found _ u c))
            ∙ map-map (renumber now owner (build_bookmark_sort_orders ids))
                (set_parent now cmd.bookmark owner cmd.parent) (rows s)),
      )

  checked_command :
      (cmd : MoveBrowserBookmarkCommand)
      → check_command cmd ≡ ok tt
      → ((cmd.before ≡ none) ⊎ (cmd.after ≡ none)) × (0 < cmd.bookmark)
  unfolding check_command
  checked_command cmd h =
      let (a, h₁) = guard-eq-ok (not (cmd.bookmark == 0)) _ _ h in
      let (b, h₂) = guard-eq-ok (not (is_some_of cmd.bookmark cmd.before)) _ _ h₁ in
      let (c, h₃) = guard-eq-ok (not (is_some_of cmd.bookmark cmd.after)) _ _ h₂ in
      (one cmd.before cmd.after h₃, ground arith)
    where
      one :
          (b a : Option ℕ)
          → guard (not (are_both b a)) Error.invalid_argument ≡ ok tt
          → (b ≡ none) ⊎ (a ≡ none)
      one none a k = inl refl
      one (some b) none k = inr refl
      one (some b) (some a) k = cc

  -- The steps of a Move that returns.
  pub move_bookmark_lem :
      (fuel now owner : ℕ) (cmd : MoveBrowserBookmarkCommand) (s t : Session) (row : Bookmark)
      → move_bookmark d fuel now owner cmd s ≡ some (ok (row, t))
      → (current : Bookmark) × ((cmd.before ≡ none) ⊎ (cmd.after ≡ none))
        × (0 < cmd.bookmark)
        × (find_owner_by_id d cmd.bookmark owner s ≡ ok current)
        × (ensure_move_target d fuel owner current cmd.parent s ≡ some (ok tt))
        × (place_bookmark d now owner cmd s ≡ ok (row, t))
  unfolding move_bookmark
  move_bookmark_lem fuel now owner cmd s t row h =
      let found =
        check_command cmd >> on_error map_found (find_owner_by_id d cmd.bookmark owner s) in
      let (current, e, k) = found_lem found refl h in
      let (tt, c, f) = >>=-eq-ok (check_command cmd) _ e in
      let (one, pos) = checked_command cmd c in
      let (safe, placed) =
        checked_lem current (ensure_move_target d fuel owner current cmd.parent s) refl k in
      (current, one, pos, on_error-ok map_found _ current f, safe, placed)
    where
      found_lem :
          (call : Result Bookmark)
          → (check_command cmd >> on_error map_found (find_owner_by_id d cmd.bookmark owner s))
            ≡ call
          → move_found d fuel now owner cmd s call ≡ some (ok (row, t))
          → (current : Bookmark) × ((check_command cmd
                >> on_error map_found (find_owner_by_id d cmd.bookmark owner s))
              ≡ ok current)
            × (move_checked d now owner cmd s (ensure_move_target d fuel owner current cmd.parent s)
                ≡ some (ok (row, t)))
      found_lem (err x) e k = absurd (unfold move_found in ground arith)
      found_lem (ok current) e k = (current, e, unfold move_found in k)

      checked_lem :
          (current : Bookmark) (call : Option (Result (Unit {0})))
          → ensure_move_target d fuel owner current cmd.parent s ≡ call
          → move_checked d now owner cmd s call ≡ some (ok (row, t))
          → (ensure_move_target d fuel owner current cmd.parent s ≡ some (ok tt))
            × (place_bookmark d now owner cmd s ≡ ok (row, t))
      checked_lem current none e k = absurd (unfold move_checked in ground arith)
      checked_lem current (some (err x)) e k = absurd (unfold move_checked in ground arith)
      checked_lem current (some (ok tt)) e k = (e, unfold move_checked in ground arith)
