-- ===== src/Uploads/Views.antt =====
-- Who holds an upload session, and what each statement and transaction makes of that.
use omniflow_go.Prelude.{
  ℕ, ◌≡◌, refl, ap, ◌∙◌, ◌⊎◌, inl, inr, Bool, true, false, ◌&&◌, ◌||◌, not, Option, none, some, leb,
  Bool-cases, if◌then◌else◌, arith,
}
use omniflow_go.Text.{Text, eqb}
use omniflow_go.Text.Laws.{eqb_refl, eqb→≡}
use omniflow_go.Uploads.{
  UploadSession, is_pending, is_claimed_by, is_unclaimed, claim_expired_for_cleanup,
  clear_client_operation_id, update_expires_at, delete_claimed_pending, delete_expired_committed,
  internal_abort, internal_janitor,
}

-- No row; a receipt; a pending row that no cleanup has claimed, or that an Abort or a sweep has.
pub data View : Type 0 where
  absent done free by_abort by_janitor : View

unfoldable pub claim_view : Text → Option Text → View
claim_view id none = free
claim_view id (some op) =
    if eqb op (internal_abort id)
    then by_abort
    else if eqb op (internal_janitor id)
    then by_janitor
    else free

unfoldable pub view : Text → Option UploadSession → View
unfolding claim_view
view id none = absent
view id (some s) = if is_pending s then claim_view id s.client_operation_id else done

abbrev pub is_internal : Text → Text → Bool
is_internal id op = eqb op (internal_abort id) || eqb op (internal_janitor id)

abort-janitor : (id : Text) → eqb (internal_janitor id) (internal_abort id) ≡ false
unfolding eqb
abort-janitor id = refl

pub claimed_view :
    (id op : Text) (c : Option Text)
    → is_claimed_by op c ≡ true
    → claim_view id c ≡ claim_view id (some op)
claimed_view id op none h = cc
claimed_view id op (some c) h = ap (λ t. claim_view id (some t)) (eqb→≡ c op h)

pub unclaimed_view : (id : Text) (c : Option Text) → is_unclaimed c ≡ true → claim_view id c ≡ free
unfolding claim_view
unclaimed_view id none h = refl
unclaimed_view id (some c) h = cc

pub client_view : (id op : Text) → is_internal id op ≡ false → claim_view id (some op) ≡ free
unfolding claim_view
client_view id op h = ground arith

pub abort_view : (id : Text) → claim_view id (some (internal_abort id)) ≡ by_abort
unfolding claim_view
abort_view id = rw (eqb_refl (internal_abort id)) refl

janitor_view : (id : Text) → claim_view id (some (internal_janitor id)) ≡ by_janitor
unfolding claim_view
janitor_view id = rw (abort-janitor id, eqb_refl (internal_janitor id)) refl

pub view-update_expires_at :
    (id : Text) (expires now : ℕ) (row : Option UploadSession)
    → view id (update_expires_at expires now row).1 ≡ view id row
unfolding view update_expires_at
view-update_expires_at id expires now none = refl
view-update_expires_at id expires now (some s) = ground arith

pub view-clear_client :
    (id op : Text) (now : ℕ) (row : Option UploadSession)
    → is_internal id op ≡ false
    → view id (clear_client_operation_id op now row).1 ≡ view id row
unfolding view clear_client_operation_id
view-clear_client id op now none h = refl
view-clear_client id op now (some s) h =
    elim (Bool-cases (is_pending s && is_claimed_by op s.client_operation_id)) [
      | inl b ↦
          let c = claimed_view id op s.client_operation_id (ground arith) ∙ client_view id op h in
          rw (b, c) (ground arith)
      | inr b ↦ rw b refl
    ]

-- Every claim but an internal one.
pub view-clear_abort :
    (id : Text) (now : ℕ) (row : Option UploadSession)
    → (view id (clear_client_operation_id (internal_abort id) now row).1 ≡ view id row)
      ⊎ ((view id row ≡ by_abort)
          × (view id (clear_client_operation_id (internal_abort id) now row).1 ≡ free))
unfolding view clear_client_operation_id
view-clear_abort id now none = inl refl
view-clear_abort id now (some s) =
    elim (Bool-cases (is_pending s && is_claimed_by (internal_abort id) s.client_operation_id)) [
      | inl b ↦
          let c =
            claimed_view id (internal_abort id) s.client_operation_id (ground arith)
            ∙ abort_view id in
          inr (rw c (ground arith), rw b (ground arith))
      | inr b ↦ inl (rw b refl)
    ]

view-delete_claimed :
    (id op : Text) (row : Option UploadSession)
    → (view id (delete_claimed_pending op row).1 ≡ view id row)
      ⊎ ((view id row ≡ claim_view id (some op))
          × (view id (delete_claimed_pending op row).1 ≡ absent))
unfolding view delete_claimed_pending
view-delete_claimed id op none = inl refl
view-delete_claimed id op (some s) =
    elim (Bool-cases (is_pending s && is_claimed_by op s.client_operation_id)) [
      | inl b ↦
          let c = claimed_view id op s.client_operation_id (ground arith) in
          inr (rw c (ground arith), rw b refl)
      | inr b ↦ inl (rw b refl)
    ]

pub view-delete_abort :
    (id : Text) (row : Option UploadSession)
    → (view id (delete_claimed_pending (internal_abort id) row).1 ≡ view id row)
      ⊎ ((view id row ≡ by_abort)
          × (view id (delete_claimed_pending (internal_abort id) row).1 ≡ absent))
view-delete_abort id row = rw (← abort_view id) (view-delete_claimed id (internal_abort id) row)

pub view-delete_janitor :
    (id : Text) (row : Option UploadSession)
    → (view id (delete_claimed_pending (internal_janitor id) row).1 ≡ view id row)
      ⊎ ((view id row ≡ by_janitor)
          × (view id (delete_claimed_pending (internal_janitor id) row).1 ≡ absent))
view-delete_janitor id row =
    rw (← janitor_view id) (view-delete_claimed id (internal_janitor id) row)

pub view-delete_expired :
    (id : Text) (before : ℕ) (row : Option UploadSession)
    → (view id (delete_expired_committed before row).1 ≡ view id row)
      ⊎ ((view id row ≡ done) × (view id (delete_expired_committed before row).1 ≡ absent))
unfolding view delete_expired_committed
view-delete_expired id before none = inl refl
view-delete_expired id before (some s) =
    elim (Bool-cases (not (is_pending s) && leb s.expires_at before)) [
      | inl b ↦ inr (ground arith, rw b refl)
      | inr b ↦ inl (rw b refl)
    ]

held :
    (id : Text) (c : Option Text)
    → (claim_view id c ≡ free) ⊎ (claim_view id c ≡ by_abort) ⊎ (claim_view id c ≡ by_janitor)
unfolding claim_view
held id none = inl refl
held id (some c) = ground arith

-- A sweep takes a pending session from whoever holds it.
pub view-claim_expired :
    (id : Text) (before expires now : ℕ) (row row' : Option UploadSession)
    → claim_expired_for_cleanup before (internal_janitor id) expires now row ≡ (true, row')
    → ((view id row ≡ free) ⊎ (view id row ≡ by_abort) ⊎ (view id row ≡ by_janitor))
      × (view id row' ≡ by_janitor)
unfolding view claim_expired_for_cleanup
view-claim_expired id before expires now none row' h = absurd (ground arith)
view-claim_expired id before expires now (some s) row' h =
    elim (Bool-cases (is_pending s && leb s.expires_at before)) [
      | inl b ↦
          let p : is_pending s ≡ true = ground arith in
          let e : some (record s {
            client_operation_id = some (internal_janitor id);
            expires_at = expires;
            updated_at = now;
          })
              ≡ row' =
            ground arith in
          (rw p (held id s.client_operation_id), rw (← e) (rw p (janitor_view id)))
      | inr b ↦ absurd (ground arith)
    ]

pub view-start :
    (id : Text) (s : UploadSession)
    → is_pending s ≡ true
    → is_unclaimed s.client_operation_id ≡ true
    → view id (some s) ≡ free
unfolding view
view-start id s p u = rw p (unclaimed_view id s.client_operation_id u)
