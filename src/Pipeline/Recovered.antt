-- ===== src/Pipeline/Recovered.antt =====
-- After a recovery: no work is left running without an owner, and a live owner loses nothing.
use localplaud.Prelude.{
  ℕ, String, ◌≡◌, ◌⊎◌, inl, inr, refl, Bool, true, false, [], ◌∷◌, ◌++◌, ap, arith, any,
  any-map_none, All, by_test,
}
use localplaud.Pipeline.Recording.{StageRun, AttemptRow, PlaudFile, Library}
use localplaud.Pipeline.Claims.{leased_after, holds_lease}
use localplaud.Pipeline.Recovery.{
  is_processing, is_downloading, is_running, owned_token, close_run, close_attempt, close_stages,
  reset_download, interrupt, close_orphans, reclaimable, reset_row, reset_inflight,
}

abbrev is_running_run : StageRun → Bool
is_running_run run = is_running run.status

abbrev is_running_attempt : AttemptRow → Bool
is_running_attempt a = is_running a.attempt_status

-- Nothing of the recording is recorded as running.
pub record IsIdle (row : PlaudFile) : Type 0 where
  pub runs : any is_running_run row.stage_runs ≡ false
  pub attempts : any is_running_attempt row.attempt_rows ≡ false

-- A recording in processing has a lease that runs on, and running stages have an owner.
pub record IsOwned (now : ℕ) (row : PlaudFile) : Type 0 where
  pub lease : is_processing row.status ≡ true → leased_after now row.processing_lease_until ≡ true
  pub stages : holds_lease now row ≡ true ⊎ IsIdle row

close_stages-IsIdle :
    (now : ℕ) (message attempt_message : String) (may_reindex : Bool) (row : PlaudFile)
    → IsIdle (close_stages now message attempt_message may_reindex row)
close_stages-IsIdle now message attempt_message may_reindex row = record {
  runs =
      any-map_none is_running_run (close_run now message may_reindex) row.stage_runs
        (λ run. ground arith);
  attempts =
      any-map_none is_running_attempt (close_attempt now attempt_message) row.attempt_rows
        (λ a. ground arith);
}

close_orphans-stages :
    (now : ℕ) (row : PlaudFile)
    → holds_lease now (close_orphans now row) ≡ true ⊎ IsIdle (close_orphans now row)
unfolding close_orphans
close_orphans-stages now row =
    by_test (λ r. holds_lease now r ≡ true ⊎ IsIdle r) (holds_lease now row) (λ held. inl held)
      (λ _. inr (close_stages-IsIdle now _ _ true row))

reset_row-lease :
    (now : ℕ) (owned : String → Bool) (row : PlaudFile)
    → is_processing (reset_row now owned row).status ≡ true
    → leased_after now (reset_row now owned row).processing_lease_until ≡ true
unfolding reset_row close_orphans interrupt reset_download reclaimable
reset_row-lease now owned row h = ground arith

reset_row-IsOwned :
    (now : ℕ) (owned : String → Bool) (row : PlaudFile) → IsOwned now (reset_row now owned row)
unfolding reset_row
reset_row-IsOwned now owned row = record {
  lease = reset_row-lease now owned row;
  stages = close_orphans-stages now (interrupt now owned (reset_download now owned row));
}

-- Whatever the crash left, after a recovery every recording in processing has a lease that runs
-- on, and no stage run and no attempt is recorded as running but under a live claim.
pub reset_inflight-IsOwned :
    (now : ℕ) (owned : String → Bool) (l : Library)
    → All (IsOwned now) (reset_inflight now owned l).1
unfolding reset_inflight
reset_inflight-IsOwned now owned [] = tt
reset_inflight-IsOwned now owned (row ∷ l) =
    (reset_row-IsOwned now owned row, reset_inflight-IsOwned now owned l)

-- A recording that another worker holds, and that is in no download.
abbrev pub IsLive : ℕ → (String → Bool) → PlaudFile → Type 0
IsLive now owned row =
    (holds_lease now row ≡ true)
    × (owned_token owned row.processing_token ≡ false)
    × (is_downloading row.status ≡ false)

reset_row-live :
    (now : ℕ) (owned : String → Bool) (row : PlaudFile)
    → IsLive now owned row
    → reset_row now owned row ≡ row
unfolding reset_row close_orphans interrupt reset_download reclaimable
reset_row-live now owned row (held, other, settled) = ground arith

-- A recovery leaves a recording as it is, wherever it stands in the library, where its processing
-- lease runs on, its token is not one that the recovery owns, and its status is not downloading.
pub reset_inflight-live :
    (now : ℕ) (owned : String → Bool) (before : Library) (row : PlaudFile) (after : Library)
    → IsLive now owned row
    → (reset_inflight now owned (before ++ row ∷ after)).1
      ≡ (reset_inflight now owned before).1 ++ row ∷ (reset_inflight now owned after).1
unfolding reset_inflight
reset_inflight-live now owned [] row after h = rw (reset_row-live now owned row h) refl
reset_inflight-live now owned (first ∷ before) row after h =
    ap (λ rest. reset_row now owned first ∷ rest) (reset_inflight-live now owned before row after h)
