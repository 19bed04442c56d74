-- ===== src/Uploads/Claims.antt =====
-- What the transactions of Complete and Abort make of the holder of a session.
use omniflow_go.Prelude.{
  ℕ, ◌+◌, ◌≡◌, refl, sym, ap, ◌∙◌, ◌⊎◌, inl, inr, Bool, true, false, ◌&&◌, not, Option, none, some,
  ltb, Bool-cases, if◌then◌else◌, arith,
}
use omniflow_go.Text.{Text, eqb, is_empty}
use omniflow_go.Result.{Result, ok, >>=-eq-ok, guard-eq-ok}
use omniflow_go.Uploads.{
  UploadSession, Status, is_pending, is_claimed_by, is_unclaimed, client_operation, affected,
  claim_operation, mark_committed, load_for_update, has_expired, internal_abort, claim_free,
  claim_completion, claim_abort, commit_completion, upload_completion_claim_min_ttl,
  upload_cleanup_claim_ttl, upload_completion_receipt_ttl,
}
use omniflow_go.Uploads.Views.{
  claim_view, view, is_internal, claimed_view, unclaimed_view, client_view, abort_view,
}
use omniflow_go.Uploads.Views.View.{done, free, by_abort}

-- The claim of an unclaimed session.
view-claim_operation :
    (id op : Text) (expires now : ℕ) (row row' : Option UploadSession)
    → affected (claim_operation op expires now row) ≡ ok row'
    → (view id row ≡ free) × (view id row' ≡ claim_view id (some op))
unfolding view claim_operation
view-claim_operation id op expires now none row' h = absurd (ground arith)
view-claim_operation id op expires now (some s) row' h =
    elim (Bool-cases (is_pending s && is_unclaimed s.client_operation_id)) [
      | inl b ↦
          let c = unclaimed_view id s.client_operation_id (ground arith) in
          let p : is_pending s ≡ true = ground arith in
          let e : some
                (record s { client_operation_id = some op; expires_at = expires; updated_at = now })
              ≡ row' =
            ground arith in
          (rw p c, rw (← e) (rw p refl))
      | inr b ↦ absurd (ground arith)
    ]

-- claimCompletion by a client leaves the session with the same holder.
pub view-claim_completion :
    (id actor op : Text) (now : ℕ) (row row' : Option UploadSession) (s : UploadSession)
    → is_internal id op ≡ false
    → claim_completion actor op now row ≡ ok (s, row')
    → view id row' ≡ view id row
unfolding claim_completion claim_free
view-claim_completion id actor op now row row' s client h =
    let (x, a, h₁) = >>=-eq-ok (load_for_update row) _ h in
    let (_, h₂) = guard-eq-ok (eqb x.actor_id actor) _ _ h₁ in
    let (_, h₃) = guard-eq-ok (not (has_expired now x)) _ _ h₂ in
    let held = client_operation x.client_operation_id in
    elim (Bool-cases (not (is_pending x))) [
      | inl b ↦
          let (_, h₄) = guard-eq-ok (eqb held op) _ _ (rw b at h₃) in
          let e : row ≡ row' = ground arith in ap (view id) (sym e)
      | inr b ↦
          let h₄ = rw b at h₃ in
          elim (Bool-cases (is_empty held)) [
            | inl c ↦
                let h₅ : claim_free op now x row ≡ ok (s, row') = rw c at h₄ in
                let minimum = now + upload_completion_claim_min_ttl in
                let (r, q, h₆) =
                  >>=-eq-ok
                    (affected (
                      claim_operation op
                        (if ltb x.expires_at minimum then minimum else x.expires_at) now row))
                    _ h₅ in
                let (v, v') = view-claim_operation id op _ now row r q in
                let e : r ≡ row' = ground arith in rw (← e) (v' ∙ client_view id op client ∙ sym v)
            | inr c ↦
                let (_, h₅) = guard-eq-ok (eqb held op) _ _ (rw c at h₄) in
                let e : row ≡ row' = ground arith in ap (view id) (sym e)
          ]
    ]

pub view-claim_abort :
    (id actor : Text) (now : ℕ) (row row' : Option UploadSession)
    → claim_abort actor id now row ≡ ok (false, row')
    → (view id row ≡ free) × (view id row' ≡ by_abort)
unfolding claim_abort
view-claim_abort id actor now row row' h =
    let (x, a, h₁) = >>=-eq-ok (load_for_update row) _ h in
    let (_, h₂) = guard-eq-ok (eqb x.actor_id actor) _ _ h₁ in
    let (_, h₃) = guard-eq-ok (not (has_expired now x)) _ _ h₂ in
    elim (Bool-cases (not (is_pending x))) [
      | inl b ↦ let h₄ = rw b at h₃ in absurd (ground arith)
      | inr b ↦
          let h₄ = rw b at h₃ in
          let (_, h₅) = guard-eq-ok (is_empty (client_operation x.client_operation_id)) _ _ h₄ in
          let (r, q, h₆) =
            >>=-eq-ok
              (affected
                (claim_operation (internal_abort id) (now + upload_cleanup_claim_ttl) now row))
              _ h₅ in
          let (v, v') = view-claim_operation id (internal_abort id) _ now row r q in
          let e : r ≡ row' = ground arith in rw (← e) (v, v' ∙ abort_view id)
    ]

view-mark_committed :
    (id op : Text) (node at expires : ℕ) (row row' : Option UploadSession)
    → affected (mark_committed op node at expires row) ≡ ok row'
    → (view id row ≡ claim_view id (some op)) × (view id row' ≡ done)
unfolding view mark_committed
view-mark_committed id op node at expires none row' h = absurd (ground arith)
view-mark_committed id op node at expires (some s) row' h =
    elim (Bool-cases (is_pending s && is_claimed_by op s.client_operation_id)) [
      | inl b ↦
          let p : is_pending s ≡ true = ground arith in
          let e : some (record s {
            status = Status.committed;
            completed_node_id = node;
            expires_at = expires;
            updated_at = at;
          })
              ≡ row' =
            ground arith in
          (rw p (claimed_view id op s.client_operation_id (ground arith)), rw (← e) refl)
      | inr b ↦ absurd (ground arith)
    ]

-- The transaction of Complete leaves the row, or commits a session that no cleanup holds.
pub view-commit_completion :
    (id actor op : Text) (created : Result ℕ) (now node : ℕ) (new : Bool)
    (row row' : Option UploadSession)
    → is_internal id op ≡ false
    → commit_completion actor op created now row ≡ ok (node, new, row')
    → ((new ≡ false) × (view id row' ≡ view id row))
      ⊎ ((new ≡ true) × (view id row ≡ free) × (view id row' ≡ done))
unfolding commit_completion
view-commit_completion id actor op created now node new row row' client h =
    let (x, a, h₁) = >>=-eq-ok (load_for_update row) _ h in
    let (_, h₂) = guard-eq-ok (eqb x.actor_id actor) _ _ h₁ in
    let (_, h₃) = guard-eq-ok (eqb (client_operation x.client_operation_id) op) _ _ h₂ in
    elim (Bool-cases (not (is_pending x))) [
      | inl b ↦
          let h₄ = rw b at h₃ in
          let e : row ≡ row' = ground arith in inl (ground arith, ap (view id) (sym e))
      | inr b ↦
          let h₄ = rw b at h₃ in
          let (n, _, h₅) = >>=-eq-ok created _ h₄ in
          let (r, q, h₆) =
            >>=-eq-ok (affected (mark_committed op n now (now + upload_completion_receipt_ttl) row))
              _ h₅ in
          let (v, v') = view-mark_committed id op n now _ row r q in
          let e : r ≡ row' = ground arith in
          inr (ground arith, v ∙ client_view id op client, rw (← e) v')
    ]
