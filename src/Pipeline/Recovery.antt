-- ===== src/Pipeline/Recovery.antt =====
-- The recovery of interrupted work: poller/poll.py, `reset_inflight` with
-- `_processing_reset_statement`, one transaction over all rows. `owned` tells the tokens of the
-- daemon that is replaced, and no token where the recovery is not forced.
use localplaud.Prelude.{
  ℕ, ◌+◌, ◌*◌, String, Bool, true, false, not, ◌&&◌, ◌||◌, Option, none, some, map, leb,
  if◌then◌else◌, sum,
}
use localplaud.Pipeline.Recording.{
  FileStatus, discovered, downloading, downloaded, processing, StageName, index, StageStatus,
  pending, running, failed, StageRun, AttemptRow, PlaudFile, Library,
}
use localplaud.Pipeline.Claims.{is_some, holds_lease, unclaimed}

abbrev pub is_processing : FileStatus → Bool
is_processing processing = true
is_processing _ = false

abbrev pub is_downloading : FileStatus → Bool
is_downloading downloading = true
is_downloading _ = false

abbrev pub is_running : StageStatus → Bool
is_running running = true
is_running _ = false

abbrev pub is_index_stage : StageName → Bool
is_index_stage index = true
is_index_stage _ = false

-- token LIKE pattern, where NULL is false
abbrev pub owned_token : (String → Bool) → Option String → Bool
owned_token owned none = false
owned_token owned (some token) = owned token

-- column <= now, where NULL is false
abbrev pub past : ℕ → Option ℕ → Bool
past now none = false
past now (some time) = leb time now

abbrev pub is_null {ℓ} : {A : Type ℓ} → Option A → Bool
is_null o = not (is_some o)

-- `_DOWNLOAD_RECOVERY_TTL`, timedelta(hours=1)
abbrev pub download_recovery_ttl : ℕ
download_recovery_ttl = 3600 * 1000000

-- updated_at IS NULL OR updated_at <= now - ttl
abbrev is_old : ℕ → Option ℕ → Bool
is_old now none = true
is_old now (some time) = leb (time + download_recovery_ttl) now

-- `download_reclaimable`
unfoldable pub download_reclaimable : ℕ → (String → Bool) → PlaudFile → Bool
download_reclaimable now owned row =
    (is_some row.download_token
      && (is_null row.download_lease_until || past now row.download_lease_until))
    || (is_null row.download_token
        && (past now row.download_lease_until
            || (is_null row.download_lease_until && is_old now row.updated_at)))
    || owned_token owned row.download_token

unfoldable pub reset_download : ℕ → (String → Bool) → PlaudFile → PlaudFile
reset_download now owned row =
    if is_downloading row.status && download_reclaimable now owned row
    then record row {
      status = discovered;
      download_token = none;
      download_lease_until = none;
      updated_at = some now;
    }
    else row

-- `reclaimable` of the processing statement, and `non_processing_reclaimable`.
unfoldable pub reclaimable : ℕ → (String → Bool) → PlaudFile → Bool
reclaimable now owned row =
    is_null row.processing_lease_until
    || past now row.processing_lease_until
    || owned_token owned row.processing_token

-- A stage run that was cut off; a reindex that may be repeated waits instead of failing.
abbrev pub close_run : ℕ → String → Bool → StageRun → StageRun
close_run now message may_reindex run =
    if is_running run.status
    then (if may_reindex && is_index_stage run.stage && run.detail.reindex_only
        then record run { status = pending; error = some message; completed_at = none }
        else record run { status = failed; error = some message; completed_at = some now })
    else run

abbrev pub close_attempt : ℕ → String → AttemptRow → AttemptRow
close_attempt now message a =
    if is_running a.attempt_status
    then record a {
      attempt_status = failed;
      attempt_error = some message;
      attempt_completed_at = some now;
    }
    else a

-- What happens to the running stages of a row.
abbrev pub close_stages : ℕ → String → String → Bool → PlaudFile → PlaudFile
close_stages now message attempt_message may_reindex row = record row {
  stage_runs = map (close_run now message may_reindex) row.stage_runs;
  attempt_rows = map (close_attempt now attempt_message) row.attempt_rows;
}

abbrev pub interruption : String
interruption = "Interrupted by application restart; queued for retry."

-- The rows of `processing_ids`, of `non_processing_ids`, and the others.
unfoldable pub interrupt : ℕ → (String → Bool) → PlaudFile → PlaudFile
interrupt now owned row =
    if is_processing row.status && reclaimable now owned row
    then close_stages now interruption interruption false
        (record (unclaimed row) { status = downloaded })
    else if not (is_processing row.status)
        && is_some row.processing_token
        && reclaimable now owned row
    then close_stages now interruption interruption true (unclaimed row)
    else row

-- The stages that run in a row without an active claim.
unfoldable pub close_orphans : ℕ → PlaudFile → PlaudFile
close_orphans now row =
    if holds_lease now row
    then row
    else close_stages now "Orphaned stage recovered; no active processing claim."
        "Orphaned stage attempt recovered; no active processing claim." true row

unfoldable pub reset_row : ℕ → (String → Bool) → PlaudFile → PlaudFile
reset_row now owned row = close_orphans now (interrupt now owned (reset_download now owned row))

abbrev pub one_if : Bool → ℕ
one_if true = 1
one_if false = 0

-- What `reset` counts of a row: it may be reset on both accounts.
unfoldable pub reset_count : ℕ → (String → Bool) → PlaudFile → ℕ
reset_count now owned row =
    one_if (is_downloading row.status && download_reclaimable now owned row)
    + one_if
        ((is_processing row.status || is_some row.processing_token) && reclaimable now owned row)

-- `reset_inflight`
unfoldable pub reset_inflight : ℕ → (String → Bool) → Library → ℕ × Library
reset_inflight now owned l = (sum (reset_count now owned) l, map (reset_row now owned) l)
