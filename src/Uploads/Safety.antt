-- ===== src/Uploads/Safety.antt =====
-- No request and no sweep removes the object of an upload that was committed.
use omniflow_go.Prelude.{
  ℕ, suc, ◌+◌, ◌≤◌, ◌<◌, ◌≡◌, refl, inl, inr, Bool, true, false, ◌&&◌, ◌||◌, some, ◌==◌, leb, arith,
}
use omniflow_go.Text.{Text}
use omniflow_go.Uploads.{UploadSession, is_pending, is_unclaimed}
use omniflow_go.Uploads.Steps.{World, Step, Steps}
use omniflow_go.Uploads.Views.{
  View, view, is_internal, view-update_expires_at, view-clear_client, view-clear_abort,
  view-delete_abort, view-delete_janitor, view-delete_expired, view-claim_expired, view-start,
}
use omniflow_go.Uploads.Claims.{view-claim_completion, view-claim_abort, view-commit_completion}

abbrev quiet : ℕ → ℕ → ℕ → ℕ → Bool
quiet aborting removing sweeping removals =
    aborting == 0 && removing == 0 && sweeping == 0 && removals == 0

-- Which counts each holder of the session allows.
abbrev fits : View → ℕ → ℕ → ℕ → ℕ → ℕ → Bool
fits View.absent a r s m c = c == 0 || (c == 1 && quiet a r s m)
fits View.done a r s m c = c == 1 && quiet a r s m
fits View.free a r s m c = c == 0 && quiet a r s m
fits View.by_abort a r s m c = c == 0 && s == 0 && leb (a + r) 1 && (a == 0 || m == 0)
fits View.by_janitor a r s m c = c == 0

abbrev IsSound : Text → World → Type 0
IsSound id w = fits (view id w.row) w.aborting w.removing w.sweeping w.removals w.commits ≡ true

call_fits :
    (v : View) (a r s m c n calls : ℕ)
    → a ≡ suc n
    → fits v a r s m c ≡ true
    → fits v n (suc r) s (m + calls) c ≡ true
call_fits View.absent a r s m c n calls e h = ground arith
call_fits View.done a r s m c n calls e h = ground arith
call_fits View.free a r s m c n calls e h = ground arith
call_fits View.by_abort a r s m c n calls e h = ground arith
call_fits View.by_janitor a r s m c n calls e h = ground arith

removed_fits :
    (v : View) (a r s m c n : ℕ) → r ≡ suc n → fits v a r s m c ≡ true → fits v a n s m c ≡ true
removed_fits View.absent a r s m c n e h = ground arith
removed_fits View.done a r s m c n e h = ground arith
removed_fits View.free a r s m c n e h = ground arith
removed_fits View.by_abort a r s m c n e h = ground arith
removed_fits View.by_janitor a r s m c n e h = ground arith

released_fits :
    (v : View) (a r s m c n : ℕ) → a ≡ suc n → fits v a r s m c ≡ true → fits v n r s m c ≡ true
released_fits View.absent a r s m c n e h = ground arith
released_fits View.done a r s m c n e h = ground arith
released_fits View.free a r s m c n e h = ground arith
released_fits View.by_abort a r s m c n e h = ground arith
released_fits View.by_janitor a r s m c n e h = ground arith

swept_fits :
    (v : View) (a r s m c n : ℕ)
    → s ≡ suc n
    → fits v a r s m c ≡ true
    → (fits v a r s (suc m) c ≡ true) × (fits v a r n m c ≡ true)
swept_fits View.absent a r s m c n e h = (ground arith, ground arith)
swept_fits View.done a r s m c n e h = (ground arith, ground arith)
swept_fits View.free a r s m c n e h = (ground arith, ground arith)
swept_fits View.by_abort a r s m c n e h = (ground arith, ground arith)
swept_fits View.by_janitor a r s m c n e h = (ground arith, ground arith)

safe_fits :
    (v : View) (a r s m c : ℕ)
    → fits v a r s m c ≡ true
    → (c ≤ 1) × (0 < c → (m ≡ 0) × (a ≡ 0) × (r ≡ 0) × (s ≡ 0))
safe_fits View.absent a r s m c h =
    (ground arith, λ p. (ground arith, ground arith, ground arith, ground arith))
safe_fits View.done a r s m c h =
    (ground arith, λ p. (ground arith, ground arith, ground arith, ground arith))
safe_fits View.free a r s m c h =
    (ground arith, λ p. (ground arith, ground arith, ground arith, ground arith))
safe_fits View.by_abort a r s m c h =
    (ground arith, λ p. (ground arith, ground arith, ground arith, ground arith))
safe_fits View.by_janitor a r s m c h =
    (ground arith, λ p. (ground arith, ground arith, ground arith, ground arith))

-- No client of Complete sends an operation id of a cleanup of this session.
abbrev pub SendsNoInternal : Text → (Text → Bool) → Type 0
SendsNoInternal id sends = (op : Text) → sends op ≡ true → is_internal id op ≡ false

Step-IsSound :
    (id : Text) (sends : Text → Bool) (w x : World)
    → SendsNoInternal id sends
    → Step id sends w x
    → IsSound id w
    → IsSound id x
Step-IsSound id sends w x client (Step.renewed expires now) h =
    rw (view-update_expires_at id expires now w.row) h
Step-IsSound id sends w x client (Step.claimed actor op now s row b e) h =
    rw (view-claim_completion id actor op now w.row row s (client op b) e) h
Step-IsSound id sends w x client (Step.completed actor op created now node new row b e) h =
    elim (view-commit_completion id actor op created now node new w.row row (client op b) e) [
      | inl (p, v) ↦ rw (p, v) (ground arith)
      | inr (p, v, v') ↦ let h' = rw v at h in rw (p, v') (ground arith)
    ]
Step-IsSound id sends w x client (Step.released op now b) h =
    rw (view-clear_client id op now w.row (client op b)) h
Step-IsSound id sends w x client (Step.abort_claimed actor now row e) h =
    let (v, v') = view-claim_abort id actor now w.row row e in
    let h' = rw v at h in rw v' (ground arith)
Step-IsSound id sends w x client (Step.abort_released {n = n} now e) h =
    elim (view-clear_abort id now w.row) [
      | inl v ↦ rw v (released_fits (view id w.row) _ _ _ _ _ n e h)
      | inr (v, v') ↦ let h' = rw v at h in rw v' (ground arith)
    ]
Step-IsSound id sends w x client (Step.abort_called {n = n} calls e) h =
    call_fits (view id w.row) _ _ _ _ _ n calls e h
Step-IsSound id sends w x client (Step.abort_ended {n = n} e) h =
    removed_fits (view id w.row) _ _ _ _ _ n e h
Step-IsSound id sends w x client (Step.abort_deleted {n = n} e) h =
    elim (view-delete_abort id w.row) [
      | inl v ↦ rw v (removed_fits (view id w.row) _ _ _ _ _ n e h)
      | inr (v, v') ↦ let h' = rw v at h in rw v' (ground arith)
    ]
Step-IsSound id sends w x client (Step.sweep_claimed before expires now row e) h =
    let (from, v') = view-claim_expired id before expires now w.row row e in
    elim from [
      | inl v ↦ let h' = rw v at h in rw v' (ground arith)
      | inr (inl v) ↦ let h' = rw v at h in rw v' (ground arith)
      | inr (inr v) ↦ let h' = rw v at h in rw v' (ground arith)
    ]
Step-IsSound id sends w x client (Step.sweep_called {n = n} e) h =
    (swept_fits (view id w.row) _ _ _ _ _ n e h).0
Step-IsSound id sends w x client (Step.sweep_ended {n = n} e) h =
    (swept_fits (view id w.row) _ _ _ _ _ n e h).1
Step-IsSound id sends w x client (Step.sweep_deleted {n = n} e) h =
    elim (view-delete_janitor id w.row) [
      | inl v ↦ rw v (swept_fits (view id w.row) _ _ _ _ _ n e h).1
      | inr (v, v') ↦ let h' = rw v at h in rw v' (ground arith)
    ]
Step-IsSound id sends w x client (Step.receipt_deleted before) h =
    elim (view-delete_expired id before w.row) [
      | inl v ↦ rw v h
      | inr (v, v') ↦ let h' = rw v at h in rw v' (ground arith)
    ]

Steps-IsSound :
    (id : Text) (sends : Text → Bool) (w x : World)
    → SendsNoInternal id sends
    → Steps id sends w x
    → IsSound id w
    → IsSound id x
Steps-IsSound id sends w x client Steps.here h = h
Steps-IsSound id sends w x client (Steps.more {w = y} e es) h =
    Steps-IsSound id sends y x client es (Step-IsSound id sends w y client e h)

-- A session that Init has just written.
abbrev pub start : UploadSession → World
start s = record {
  row = some s;
  aborting = 0;
  removing = 0;
  sweeping = 0;
  removals = 0;
  commits = 0;
}

-- From a pending session that nobody has claimed, in any order of requests and sweeps: at most one
-- node is committed, and where one was, no call that removes the object has been issued, and no
-- request and no sweep is left that may issue one; if no client sends an operation id of a cleanup.
pub committed_keeps_object :
    (id : Text) (sends : Text → Bool) (s : UploadSession) (w : World)
    → SendsNoInternal id sends
    → is_pending s ≡ true
    → is_unclaimed s.client_operation_id ≡ true
    → Steps id sends (start s) w
    → (w.commits ≤ 1)
      × (0 < w.commits → (w.removals ≡ 0) × (w.aborting ≡ 0) × (w.removing ≡ 0) × (w.sweeping ≡ 0))
committed_keeps_object id sends s w client p u steps =
    safe_fits (view id w.row) _ _ _ _ _
      (Steps-IsSound id sends (start s) w client steps (rw (view-start id s p u) refl))
