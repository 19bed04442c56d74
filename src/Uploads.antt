-- ===== src/Uploads.antt =====
-- Upload sessions: the rows of `upload_sessions` (internal/domain/uploadsession), the statements of
-- internal/repository/postgres/impl/uploadsession/repository.go, and the transactions of
-- internal/usecase/upload_session.go and upload_session_completion.go that change a row.
pub mod Steps
pub mod Views
pub mod Claims
pub mod Safety
pub mod Parts
use omniflow_go.Prelude.{
  ℕ, ◌+◌, ◌*◌, Bool, true, false, ◌&&◌, ◌||◌, not, Option, none, some, List, [], ◌∷◌, ◌++◌, ◌==◌,
  ltb, leb, if◌then◌else◌,
}
use omniflow_go.Text.{Text, codes, eqb, is_empty, trim_space}
use omniflow_go.Result.{
  Error, Result, ok, err, guard, ◌>>=◌, ◌>>◌, not_found, conflict, expired, invalid_argument,
}

pub data Mode : Type 0 where
  single multipart : Mode

pub data Status : Type 0 where
  pending committed : Status

-- A row, with the fields that a decision reads or a statement writes. `client_operation_id` is
-- `none` for NULL; times are seconds, 0 being Go's zero time.
pub record UploadSession : Type 0 where
  pub id : Text
  pub actor_id : Text
  pub storage_key : Text
  pub file_size : ℕ
  pub mode : Mode
  pub minio_upload_id : Text
  pub status : Status
  pub client_operation_id : Option Text
  pub completed_node_id : ℕ
  pub expires_at : ℕ
  pub updated_at : ℕ

abbrev pub is_pending : UploadSession → Bool
is_pending s = elim s.status [ pending ↦ true | committed ↦ false ]

abbrev pub is_claimed_by : Text → Option Text → Bool
is_claimed_by op none = false
is_claimed_by op (some claim) = eqb claim op

abbrev pub is_unclaimed : Option Text → Bool
is_unclaimed none = true
is_unclaimed (some claim) = false

-- The domain's field, which is empty for NULL.
abbrev pub client_operation : Option Text → Text
client_operation none = []
client_operation (some claim) = claim

-- UPDATE and DELETE of the row with a session's key, if it is there and passes the test: whether
-- a row was affected, and the row afterwards.
abbrev pub update_where :
    (UploadSession → Bool)
    → (UploadSession → UploadSession)
    → Option UploadSession
    → Bool × Option UploadSession
update_where p f none = (false, none)
update_where p f (some s) = if p s then (true, some (f s)) else (false, some s)

abbrev pub delete_where :
    (UploadSession → Bool) → Option UploadSession → Bool × Option UploadSession
delete_where p none = (false, none)
delete_where p (some s) = if p s then (true, none) else (false, some s)

unfoldable pub claim_operation : Text → ℕ → ℕ → Option UploadSession → Bool × Option UploadSession
claim_operation op expires now row =
    update_where (λ s. is_pending s && is_unclaimed s.client_operation_id)
      (λ s. record s { client_operation_id = some op; expires_at = expires; updated_at = now }) row

unfoldable pub claim_expired_for_cleanup :
    ℕ → Text → ℕ → ℕ → Option UploadSession → Bool × Option UploadSession
claim_expired_for_cleanup before op expires now row =
    update_where (λ s. is_pending s && leb s.expires_at before)
      (λ s. record s { client_operation_id = some op; expires_at = expires; updated_at = now }) row

unfoldable pub clear_client_operation_id :
    Text → ℕ → Option UploadSession → Bool × Option UploadSession
clear_client_operation_id op now row =
    update_where (λ s. is_pending s && is_claimed_by op s.client_operation_id)
      (λ s. record s { client_operation_id = none; updated_at = now }) row

unfoldable pub mark_committed :
    Text → ℕ → ℕ → ℕ → Option UploadSession → Bool × Option UploadSession
mark_committed op node completed_at expires row =
    update_where (λ s. is_pending s && is_claimed_by op s.client_operation_id)
      (λ s. record s {
        status = committed;
        completed_node_id = node;
        expires_at = expires;
        updated_at = completed_at;
      })
      row

unfoldable pub update_expires_at : ℕ → ℕ → Option UploadSession → Bool × Option UploadSession
update_expires_at expires now row =
    update_where (λ s. is_pending s && is_unclaimed s.client_operation_id)
      (λ s. record s { expires_at = expires; updated_at = now }) row

unfoldable pub delete_claimed_pending : Text → Option UploadSession → Bool × Option UploadSession
delete_claimed_pending op row =
    delete_where (λ s. is_pending s && is_claimed_by op s.client_operation_id) row

unfoldable pub delete_expired_committed : ℕ → Option UploadSession → Bool × Option UploadSession
delete_expired_committed before row =
    delete_where (λ s. not (is_pending s) && leb s.expires_at before) row

-- uploadCompletionClaimMinTTL, uploadCompletionReceiptTTL and uploadCleanupClaimTTL in seconds.
abbrev pub upload_completion_claim_min_ttl : ℕ
upload_completion_claim_min_ttl = 15 * 60

abbrev pub upload_completion_receipt_ttl : ℕ
upload_completion_receipt_ttl = 7 * 24 * 3600

abbrev pub upload_cleanup_claim_ttl : ℕ
upload_cleanup_claim_ttl = 5 * 60

-- GetForUpdate with mapUploadSessionLoadError, and the test on the actor.
unfoldable pub load_for_update : Option UploadSession → Result UploadSession
load_for_update none = err not_found
load_for_update (some s) = ok s

unfoldable pub has_expired : ℕ → UploadSession → Bool
has_expired now s = not (s.expires_at == 0) && ltb s.expires_at now

abbrev pub internal_abort : Text → Text
internal_abort id = codes "internal:abort:" ++ id

abbrev pub internal_janitor : Text → Text
internal_janitor id = codes "internal:janitor:" ++ id

-- len of a string, in the bytes of its UTF-8 form.
unfoldable pub utf8_length : Text → ℕ
utf8_length [] = 0
utf8_length (c ∷ cs) =
    (if ltb c 0x80 then 1 else if ltb c 0x800 then 2 else if ltb c 0x10000 then 3 else 4)
    + utf8_length cs

abbrev pub max_upload_client_operation_id_length : ℕ
max_upload_client_operation_id_length = 128

unfoldable pub normalize_upload_client_operation_id : Text → Text → Result Text
unfolding utf8_length trim_space
normalize_upload_client_operation_id upload_id client_id = do
  guard (not (is_empty (trim_space upload_id))) invalid_argument
  let op =
      if is_empty (trim_space client_id)
      then codes "upload:" ++ trim_space upload_id
      else trim_space client_id
  guard (leb (utf8_length op) max_upload_client_operation_id_length) invalid_argument
  ok op

-- `ok, err := repo.Claim...; if !ok { return ErrConflict }`
abbrev pub affected : Bool × Option UploadSession → Result (Option UploadSession)
affected (done, row) = do guard done conflict; ok row

-- The claim of claimCompletion on a session that no operation has claimed.
unfoldable pub claim_free :
    Text → ℕ → UploadSession → Option UploadSession → Result (UploadSession × Option UploadSession)
claim_free op now s row = do
  let minimum = now + upload_completion_claim_min_ttl
  let expires = if ltb s.expires_at minimum then minimum else s.expires_at
  row' ← affected (claim_operation op expires now row)
  ok (record s { client_operation_id = some op; expires_at = expires }, row')

-- claimCompletion
unfoldable pub claim_completion :
    Text → Text → ℕ → Option UploadSession → Result (UploadSession × Option UploadSession)
unfolding has_expired load_for_update
claim_completion actor op now row = do
  s ← load_for_update row
  guard (eqb s.actor_id actor) not_found
  guard (not (has_expired now s)) expired
  if not (is_pending s)
      then (do guard (eqb (client_operation s.client_operation_id) op) conflict; ok (s, row))
      else (if is_empty (client_operation s.client_operation_id)
          then claim_free op now s row
          else (do guard (eqb (client_operation s.client_operation_id) op) conflict; ok (s, row)))

-- claimAbort: whether the session is committed, in which case nothing is claimed.
unfoldable pub claim_abort :
    Text → Text → ℕ → Option UploadSession → Result (Bool × Option UploadSession)
unfolding has_expired load_for_update
claim_abort actor id now row = do
  s ← load_for_update row
  guard (eqb s.actor_id actor) not_found
  guard (not (has_expired now s)) expired
  if not (is_pending s) then ok (true, row) else (do
    guard (is_empty (client_operation s.client_operation_id)) conflict
    row' ← affected (claim_operation (internal_abort id) (now + upload_cleanup_claim_ttl) now row)
    ok (false, row'))

-- The transaction of Complete; `created` is what createInExistingTransaction returns. The result is
-- the node, whether this call has committed it, and the row.
unfoldable pub commit_completion :
    Text → Text → Result ℕ → ℕ → Option UploadSession → Result (ℕ × Bool × Option UploadSession)
unfolding load_for_update
commit_completion actor op created now row = do
  s ← load_for_update row
  guard (eqb s.actor_id actor) not_found
  guard (eqb (client_operation s.client_operation_id) op) conflict
  if not (is_pending s) then ok (s.completed_node_id, false, row) else (do
    node ← created
    row' ← affected (mark_committed op node now (now + upload_completion_receipt_ttl) row)
    ok (node, true, row'))
