-- ===== src/Pipeline/Narrow.antt =====
-- The narrow cycles of worker/pipeline.py: `process_derived_artifacts`, `process_mind_map_only` and
-- `process_outline_only` with `_finish_outline_cycle`, around their work, as in Cycle. A token that
-- a caller gives is never empty; the eviction of audio after a release is left out, and so is the
-- method of an outline, which the queue does not read.
use localplaud.Prelude.{
  ℕ, ◌+◌, String, Bool, true, false, not, ◌&&◌, ◌||◌, Option, none, some, List, [], ◌∷◌, any, find,
  find?, if◌then◌else◌,
}
use localplaud.Pipeline.Recording.{
  FileStatus, partial, done, error, file_id, StageStatus, pending, running, failed, degraded,
  StageRun, PlaudFile, Library,
}
use localplaud.Pipeline.Claims.{
  Claim, ok, err, unknown_file, ClaimRequest, ProcessingClaim, claim_processing,
  assert_processing_claim, release_processing, is_mind_map,
}
use localplaud.Pipeline.Recovery.{is_processing}
use localplaud.Pipeline.Retry.{
  RetrySettings, retry_delay_seconds, schedule_pipeline_retry, reset_pipeline_retry, due_at,
}
use localplaud.Pipeline.Scope.{is_outline}
use localplaud.Pipeline.Cycle.{
  committed, schedule_mind_map_retry, on_mind_map, Worked, returned, raised, fail_row,
}

abbrev pub begun : ProcessingClaim → Claim Library → Claim (ProcessingClaim × Library)
begun active (ok l) = ok (active, l)
begun active (err e) = err e

-- What is done under a claim, if that is taken.
abbrev pub under :
    Claim (ProcessingClaim × Library) → (ProcessingClaim → Library → Library) → Claim Library
under (ok (active, l)) cycle = ok (cycle active l)
under (err e) cycle = err e

-- The claim of a cycle: the token that the caller gives, or a new one.
unfoldable pub take_claim :
    ℕ
    → ℕ
    → ClaimRequest
    → (String → Bool)
    → Option String
    → String
    → String
    → Library
    → Claim (ProcessingClaim × Library)
take_claim concurrency now ask exists (some token) new id l =
    ok (record { file = id; token = token }, l)
take_claim concurrency now ask exists none new id l =
    begun (record { file = id; token = new }) (claim_processing concurrency now ask exists new id l)

-- `_assert_processing_claim` of a given token, before the work.
unfoldable pub checked : Option String → ProcessingClaim → ℕ → Library → Claim Library
checked none active now l = ok l
checked (some token) active now l =
    elim (assert_processing_claim now (some active) (some token) false active.file l) [
      | ok (row, after) ↦ ok after
      | err e ↦ err e
    ]

-- The rows when the work is over: `fail` is what the `except` clause does to the row. Where the
-- claim is lost, nothing is written.
unfoldable pub recorded : ProcessingClaim → ℕ → (String → PlaudFile → PlaudFile) → Worked → Library
recorded active ends fail (returned l) = l
recorded active ends fail (raised message l) = elim (committed active ends (fail message) l) [
  | ok after ↦ after
  | err e ↦ l
]

-- A narrow cycle under its claim: `work` is what it, and every other session, commits.
unfoldable pub narrow_cycle :
    Option String
    → ProcessingClaim
    → ℕ
    → ℕ
    → (String → PlaudFile → PlaudFile)
    → (Library → Worked)
    → Library
    → Library
narrow_cycle given active now ends fail work l =
    release_processing active.file active.token (elim (checked given active now l) [
      | ok after ↦ recorded active ends fail (work after)
      | err e ↦ l
    ])

abbrev pub derived_request : ClaimRequest
derived_request = record { require_audio = false; retry_mind_map = false; mark_processing = true }

abbrev pub mind_map_request : ClaimRequest
mind_map_request = record { require_audio = false; retry_mind_map = true; mark_processing = true }

-- `process_derived_artifacts`
unfoldable pub process_derived_artifacts :
    ℕ
    → ℕ
    → RetrySettings
    → (String → Bool)
    → Option String
    → String
    → String
    → ℕ
    → (Library → Worked)
    → Library
    → Claim Library
process_derived_artifacts concurrency now s exists given new id ends work l =
    under (take_claim concurrency now derived_request exists given new id l)
      (λ active claimed. narrow_cycle given active now ends (fail_row ends s) work claimed)

abbrev pub failed_run : ℕ → RetrySettings → String → StageRun → StageRun
failed_run now s message run =
    schedule_mind_map_retry now s
      (record run { status = failed; error = some message; completed_at = some now })

abbrev pub has_mind_map : PlaudFile → Bool
has_mind_map row = any (λ (run : StageRun). is_mind_map run.stage) row.stage_runs

-- The `except` clause of `process_mind_map_only`.
unfoldable pub fail_mind_map_row : ℕ → RetrySettings → String → PlaudFile → PlaudFile
fail_mind_map_row now s message row =
    let marked = record row { status = error; error = some message } in
    if not (is_processing row.status)
    then row
    else if has_mind_map row
    then record marked { stage_runs = on_mind_map (failed_run now s message) row.stage_runs }
    else schedule_pipeline_retry now s marked

-- `process_mind_map_only`
unfoldable pub process_mind_map_only :
    ℕ
    → ℕ
    → RetrySettings
    → (String → Bool)
    → Option String
    → String
    → String
    → ℕ
    → (Library → Worked)
    → Library
    → Claim Library
process_mind_map_only concurrency now s exists given new id ends work l =
    under (take_claim concurrency now mind_map_request exists given new id l)
      (λ active claimed. narrow_cycle given active now ends (fail_mind_map_row ends s) work claimed)

-- A change of the one run of the outline; without one the source raises, and changes nothing.
unfoldable pub on_outline : (StageRun → StageRun) → List StageRun → List StageRun
on_outline change [] = []
on_outline change (run ∷ runs) =
    let rest = on_outline change runs in
    if is_outline run.stage then change run ∷ runs else run ∷ rest

abbrev pub is_partial : FileStatus → Bool
is_partial partial = true
is_partial _ = false

abbrev pub is_unfinished : StageStatus → Bool
is_unfinished pending = true
is_unfinished running = true
is_unfinished failed = true
is_unfinished degraded = true
is_unfinished _ = false

abbrev pub is_left : StageRun → Bool
is_left run = not (is_outline run.stage) && (run.detail.stale || is_unfinished run.status)

abbrev pub waiting_outline : ℕ → RetrySettings → ℕ → StageRun → StageRun
waiting_outline now s count run = record run {
  detail = record run.detail {
    outline_only = true;
    outline_retry_count = count;
    outline_next_retry_at = due_at now (retry_delay_seconds count s);
  };
}

-- The row at the end of an outline cycle; `before` is the retry count when the cycle began.
unfoldable pub finish_outline_row : ℕ → RetrySettings → ℕ → Option String → PlaudFile → PlaudFile
finish_outline_row now s before (some failure) row = record row {
  stage_runs = on_outline (waiting_outline now s (before + 1)) row.stage_runs;
}
finish_outline_row now s before none row =
    if not (is_partial row.status)
    then row
    else if any is_left row.stage_runs
    then row
    else reset_pipeline_retry (record row { status = done; error = none })

-- What the outline's work ends with; `lost` is PipelineAlreadyRunning.
pub data Outlined : Type 0 where
  made : Library → Outlined
  broke : String → Library → Outlined
  lost : Library → Outlined

unfoldable pub finish_outline :
    ProcessingClaim → ℕ → RetrySettings → ℕ → Option String → Library → Library
finish_outline active now s before failure l =
    elim (committed active now (finish_outline_row now s before failure) l) [
      | ok after ↦ after
      | err e ↦ l
    ]

unfoldable pub outlined : ProcessingClaim → ℕ → RetrySettings → ℕ → Outlined → Library
outlined active now s before (made l) = finish_outline active now s before none l
outlined active now s before (broke message l) = finish_outline active now s before (some message) l
outlined active now s before (lost l) = l

-- `previous_detail.get("outline_retry_count")`, read before the claim.
abbrev pub previous_count : PlaudFile → ℕ
previous_count row = elim (find? (λ (run : StageRun). is_outline run.stage) row.stage_runs) [
  | none ↦ 0
  | some run ↦ run.detail.outline_retry_count
]

abbrev pub outline_request : ClaimRequest
outline_request = record { require_audio = false; retry_mind_map = false; mark_processing = false }

unfoldable pub outline_cycle :
    ProcessingClaim → ℕ → ℕ → RetrySettings → ℕ → (Library → Outlined) → Library → Library
outline_cycle active now ends s before work l =
    release_processing active.file active.token (elim (checked (some active.token) active now l) [
      | ok after ↦ outlined active ends s before (work after)
      | err e ↦ l
    ])

-- `process_outline_only`: any token is checked before the work.
unfoldable pub process_outline_only :
    ℕ
    → ℕ
    → RetrySettings
    → (String → Bool)
    → Option String
    → String
    → String
    → ℕ
    → (Library → Outlined)
    → Library
    → Claim Library
process_outline_only concurrency now s exists given new id ends work l = elim (find file_id id l) [
  | none ↦ err unknown_file
  | some row ↦
      under (take_claim concurrency now outline_request exists given new id l)
        (λ active claimed. outline_cycle active now ends s (previous_count row) work claimed)
]
