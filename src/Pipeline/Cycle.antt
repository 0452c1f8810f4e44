-- ===== src/Pipeline/Cycle.antt =====
-- The ends of a processing cycle: worker/pipeline.py, `_finish_processing_cycle`,
-- `_finish_mind_map_cycle`, `_schedule_mind_map_retry`, `abandon_mind_map_rebuild`, and the shell of
-- `process_file` around its work. A message stands for its first 2,000 characters, the errors of a
-- partial cycle for their joined text.
use localplaud.Prelude.{
  ℕ, ◌+◌, String, Bool, true, false, not, ◌&&◌, ◌||◌, Option, none, some, List, [], ◌∷◌, map, any,
  if◌then◌else◌, put,
}
use localplaud.Pipeline.Recording.{
  partial, done, error, mind_map, StageStatus, pending, running, failed, degraded, StageRun,
  PlaudFile, Library, file_id,
}
use localplaud.Pipeline.Claims.{
  Claim, ok, err, ProcessingClaim, claim_processing, assert_processing_claim, release_processing,
  is_mind_map, no_detail, unclaimed,
}
use localplaud.Pipeline.Recovery.{is_processing}
use localplaud.Pipeline.Retry.{
  RetrySettings, retry_delay_seconds, schedule_pipeline_retry, reset_pipeline_retry, due_at,
}
use localplaud.Pipeline.Scope.{is_derived}

-- {failed, degraded, pending}
abbrev pub is_open_status : StageStatus → Bool
is_open_status failed = true
is_open_status degraded = true
is_open_status pending = true
is_open_status _ = false

abbrev pub mark_derived_only : StageRun → StageRun
mark_derived_only run =
    if is_derived run.stage && is_open_status run.status
    then record run { detail = record run.detail { derived_only = true } }
    else run

-- The row at the end of a full or derived cycle: `errors` is missing if nothing failed.
unfoldable pub finish_row : ℕ → RetrySettings → Bool → Option String → PlaudFile → PlaudFile
finish_row now s derived_only (some errors) row = schedule_pipeline_retry now s (record row {
  status = partial;
  error = some errors;
  stage_runs = if derived_only then map mark_derived_only row.stage_runs else row.stage_runs;
})
finish_row now s derived_only none row =
    reset_pipeline_retry (record row { status = done; error = none })

-- The claim of the cycle's own context is checked first, in the same transaction.
unfoldable pub committed : ProcessingClaim → ℕ → (PlaudFile → PlaudFile) → Library → Claim Library
committed active now change l =
    elim (assert_processing_claim now (some active) none false active.file l) [
      | ok (row, after) ↦ ok (put file_id (change row) after)
      | err e ↦ err e
    ]

-- `_finish_processing_cycle`
unfoldable pub finish_processing_cycle :
    ProcessingClaim → ℕ → RetrySettings → Bool → Option String → Library → Claim Library
finish_processing_cycle active now s derived_only errors l =
    committed active now (finish_row now s derived_only errors) l

-- `_schedule_mind_map_retry`
unfoldable pub schedule_mind_map_retry : ℕ → RetrySettings → StageRun → StageRun
schedule_mind_map_retry now s run =
    let count = run.detail.mind_map_retry_count + 1 in
    record run {
      detail = record run.detail {
        mind_map_retry_count = count;
        mind_map_last_failure_at = some now;
        mind_map_next_retry_at = due_at now (retry_delay_seconds count s);
      };
    }

-- A change of the one run of the mind map.
unfoldable pub on_mind_map : (StageRun → StageRun) → List StageRun → List StageRun
on_mind_map change [] = []
on_mind_map change (run ∷ runs) =
    let rest = on_mind_map change runs in
    if is_mind_map run.stage then change run ∷ runs else run ∷ rest

abbrev pub is_incomplete : StageStatus → Bool
is_incomplete pending = true
is_incomplete running = true
is_incomplete failed = true
is_incomplete _ = false

-- Another stage that is stale or not complete.
abbrev pub is_leftover : StageRun → Bool
is_leftover run = not (is_mind_map run.stage) && (run.detail.stale || is_incomplete run.status)

-- The row at the end of a mind-map-only cycle; `reasons` is the joined text of what is left over.
unfoldable pub finish_mind_map_row :
    ℕ → RetrySettings → (List StageRun → String) → Option String → PlaudFile → PlaudFile
finish_mind_map_row now s reasons (some errors) row = record row {
  status = partial;
  error = some errors;
  stage_runs = on_mind_map (schedule_mind_map_retry now s) row.stage_runs;
}
finish_mind_map_row now s reasons none row =
    if any is_leftover row.stage_runs
    then record row { status = partial; error = some (reasons row.stage_runs) }
    else record row { status = done; error = none }

-- `_finish_mind_map_cycle`
unfoldable pub finish_mind_map_cycle :
    ProcessingClaim
    → ℕ
    → RetrySettings
    → (List StageRun → String)
    → Option String
    → Library
    → Claim Library
finish_mind_map_cycle active now s reasons errors l =
    committed active now (finish_mind_map_row now s reasons errors) l

abbrev pub rebuild_run : StageRun → StageRun
rebuild_run run = record run {
  status = pending;
  error = none;
  completed_at = none;
  detail = record run.detail { stale = true; mind_map_only = true };
}

-- The row of an abandoned rebuild: its run is added if it is missing.
unfoldable pub abandoned_runs : List StageRun → List StageRun
abandoned_runs [] =
    rebuild_run (record {
      stage = mind_map;
      status = pending;
      attempts = 0;
      detail = no_detail;
      error = none;
      completed_at = none;
    })
    ∷ []
abandoned_runs (run ∷ runs) =
    let rest = abandoned_runs runs in
    if is_mind_map run.stage then rebuild_run run ∷ runs else run ∷ rest

abbrev pub abandoned : PlaudFile → PlaudFile
abandoned row = record (unclaimed row) {
  status = partial;
  error = some "mind map rebuild is queued for background retry";
  stage_runs = abandoned_runs row.stage_runs;
}

-- `abandon_mind_map_rebuild`: false, and no change, where the claim is lost.
unfoldable pub abandon_mind_map_rebuild :
    ℕ → Option ProcessingClaim → String → String → Library → Bool × Library
abandon_mind_map_rebuild now active id token l =
    elim (assert_processing_claim now active (some token) false id l) [
      | ok (row, after) ↦ (true, put file_id (abandoned row) after)
      | err e ↦ (false, l)
    ]

-- What the work under a claim ends with, and the rows by then.
pub data Worked : Type 0 where
  returned : Library → Worked
  raised : String → Library → Worked

-- A recording that its work left in processing becomes an error and is retried.
unfoldable pub fail_row : ℕ → RetrySettings → String → PlaudFile → PlaudFile
fail_row now s message row =
    if is_processing row.status
    then schedule_pipeline_retry now s (record row { status = error; error = some message })
    else row

-- The `except` clause; where the claim is lost, its own exception leaves and nothing is written.
unfoldable pub record_failure : ProcessingClaim → ℕ → RetrySettings → String → Library → Library
record_failure active now s message l = elim (committed active now (fail_row now s message) l) [
  | ok after ↦ after
  | err e ↦ l
]

unfoldable pub after_work : ProcessingClaim → ℕ → RetrySettings → Worked → Library
after_work active now s (returned l) = release_processing active.file active.token l
after_work active now s (raised message l) =
    release_processing active.file active.token (record_failure active now s message l)

-- `process_file` under a claim of its own: `work` is what the worker, and every other session,
-- commits until it returns or raises, `ends` the time of that.
unfoldable pub process_file :
    ℕ
    → ℕ
    → RetrySettings
    → (String → Bool)
    → String
    → String
    → ℕ
    → (Library → Worked)
    → Library
    → Claim Library
process_file concurrency now s exists token id ends work l =
    elim (claim_processing concurrency now
      (record { require_audio = true; retry_mind_map = false; mark_processing = true }) exists token
      id l) [
        | ok claimed ↦ ok (after_work (record { file = id; token = token }) ends s (work claimed))
        | err e ↦ err e
      ]
