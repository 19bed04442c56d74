-- ===== src/Uploads/Steps.antt =====
-- What the requests for one upload session and the janitor do to it, in the order of their commits.
use omniflow_go.Prelude.{ℕ, suc, ◌+◌, ◌≡◌, Bool, true, false, Option, if◌then◌else◌}
use omniflow_go.Text.{Text}
use omniflow_go.Result.{Result, ok}
use omniflow_go.Uploads.{
  UploadSession, claim_completion, claim_abort, commit_completion, claim_expired_for_cleanup,
  clear_client_operation_id, update_expires_at, delete_claimed_pending, delete_expired_committed,
  internal_abort, internal_janitor,
}

-- The row; the Abort requests that have claimed it and not yet called the object store; those that
-- have passed that point; the sweeps that have claimed it; how often a storage call was issued that
-- removes the object; and how many nodes were committed for the session.
pub record World : Type 0 where
  pub row : Option UploadSession
  pub aborting : ℕ
  pub removing : ℕ
  pub sweeping : ℕ
  pub removals : ℕ
  pub commits : ℕ

-- One committed transaction, one storage call, or the end of a request. `sends` says which operation
-- ids the clients of Complete use. A transaction that fails changes nothing.
pub data Step (id : Text) (sends : Text → Bool) : World → World → Type 0 where
  renewed :
      {w : World} (expires now : ℕ)
      → Step id sends w (record w { row = (update_expires_at expires now w.row).1 })
  claimed :
      {w : World} (actor op : Text) (now : ℕ) (s : UploadSession) (row : Option UploadSession)
      → sends op ≡ true
      → claim_completion actor op now w.row ≡ ok (s, row)
      → Step id sends w (record w { row = row })
  completed :
      {w : World} (actor op : Text) (created : Result ℕ) (now node : ℕ) (new : Bool)
      (row : Option UploadSession)
      → sends op ≡ true
      → commit_completion actor op created now w.row ≡ ok (node, new, row)
      → Step id sends w (record w { row = row; commits = w.commits + (if new then 1 else 0) })
  released :
      {w : World} (op : Text) (now : ℕ)
      → sends op ≡ true
      → Step id sends w (record w { row = (clear_client_operation_id op now w.row).1 })
  abort_claimed :
      {w : World} (actor : Text) (now : ℕ) (row : Option UploadSession)
      → claim_abort actor id now w.row ≡ ok (false, row)
      → Step id sends w (record w { row = row; aborting = suc w.aborting })
  abort_released :
      {w : World} {n : ℕ} (now : ℕ)
      → w.aborting ≡ suc n
      → Step id sends w (record w {
        row = (clear_client_operation_id (internal_abort id) now w.row).1;
        aborting = n;
      })
  abort_called :
      {w : World} {n : ℕ} (calls : ℕ)
      → w.aborting ≡ suc n
      → Step id sends w
          (record w { aborting = n; removing = suc w.removing; removals = w.removals + calls })
  abort_ended :
      {w : World} {n : ℕ} → w.removing ≡ suc n → Step id sends w (record w { removing = n })
  abort_deleted :
      {w : World} {n : ℕ}
      → w.removing ≡ suc n
      → Step id sends w
          (record w { row = (delete_claimed_pending (internal_abort id) w.row).1; removing = n })
  sweep_claimed :
      {w : World} (before expires now : ℕ) (row : Option UploadSession)
      → claim_expired_for_cleanup before (internal_janitor id) expires now w.row ≡ (true, row)
      → Step id sends w (record w { row = row; sweeping = suc w.sweeping })
  sweep_called :
      {w : World} {n : ℕ}
      → w.sweeping ≡ suc n
      → Step id sends w (record w { removals = suc w.removals })
  sweep_ended :
      {w : World} {n : ℕ} → w.sweeping ≡ suc n → Step id sends w (record w { sweeping = n })
  sweep_deleted :
      {w : World} {n : ℕ}
      → w.sweeping ≡ suc n
      → Step id sends w
          (record w { row = (delete_claimed_pending (internal_janitor id) w.row).1; sweeping = n })
  receipt_deleted :
      {w : World} (before : ℕ)
      → Step id sends w (record w { row = (delete_expired_committed before w.row).1 })

pub data Steps (id : Text) (sends : Text → Bool) : World → World → Type 0 where
  here : {w : World} → Steps id sends w w
  more : {v w x : World} → Step id sends v w → Steps id sends w x → Steps id sends v x
