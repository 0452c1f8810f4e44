-- ===== src/Pipeline/Examples.antt =====
-- One recording, through the queue and a worker's hands.
use localplaud.Prelude.{
  ◌+◌, String, ◌≡◌, ◌≢◌, refl, Bool, true, false, none, some, [], ◌∷◌, ◌++◌, All, arith, find, put,
  eq_iff, count,
}
use localplaud.Pipeline.Recording.{
  partial, StageRun, PlaudFile, Library, file_id, transcribe, summarize, completed, pending,
  running, processing,
}
use localplaud.Pipeline.Claims.{
  ok, err, claim_lost, has_token, unclaimed, ClaimRequest, no_detail, claim_processing, claim_row,
  assert_processing_claim, release_processing, admits,
}
use localplaud.Pipeline.Lease.{taken, claim_fence}
use localplaud.Pipeline.Capacity.{World, claim, tick, here, next, IsWithin}
use localplaud.Pipeline.Slots.{Reach-IsWithin}
use localplaud.Pipeline.Retry.{
  RetrySettings, IsConfigured, retry_delay_seconds, schedule_pipeline_retry, IsPaced,
  schedule-IsPaced, reset_pipeline_retry,
}
use localplaud.Pipeline.Scope.{
  QueueSettings, derived_scope, pending_scope, is_overlong, is_filtered, narrow_scope,
}
use localplaud.Pipeline.Reprocess.{
  force, derived_only, QueueRequest, queue_row, queue_library_reprocess,
}
use localplaud.Pipeline.Queueing.{queue-derived_only}
use localplaud.Pipeline.Forcing.{queue-force}
use localplaud.Pipeline.Recovery.{reset_inflight}
use localplaud.Pipeline.Recovered.{IsOwned, reset_inflight-IsOwned, reset_inflight-live}
use localplaud.Pipeline.Cycle.{process_file, after_work, returned, finish_row}
use localplaud.Pipeline.Release.{
  process_file-releases, partial_row, unless, before_deadline, partial-retried,
}
use localplaud.Pipeline.Batch.{
  Batch, queue_library_reprocess-Batch, report, with_dry_run, queue_library_reprocess-dry_run,
}

-- The defaults of PipelineConfig.
abbrev defaults : RetrySettings
defaults = record {
  retry_max_attempts = 5;
  retry_base_seconds = 300;
  retry_max_seconds = 21600;
  retry_exhausted_interval_seconds = 86400;
}

defaults-IsConfigured : IsConfigured defaults
defaults-IsConfigured = record { base = omega arith; maximum = omega arith }

abbrev transcribed : StageRun
transcribed = record {
  stage = transcribe;
  status = completed;
  attempts = 1;
  detail = no_detail;
  error = none;
  completed_at = some 5;
}

-- A summary that a narrower request has marked.
abbrev marked : StageRun
marked = record {
  stage = summarize;
  status = pending;
  attempts = 0;
  detail = record no_detail { stale = true; derived_only = true };
  error = none;
  completed_at = none;
}

abbrev pub recording : PlaudFile
recording = record {
  id = "r1";
  status = partial;
  error = none;
  processing_token = none;
  processing_lease_until = none;
  audio_path = some "/audio/r1.ogg";
  is_trash = false;
  process_overlong = false;
  duration_ms = some 60000;
  start_time_ms = some 1000;
  has_local_transcript = true;
  pipeline_retry_count = 2;
  pipeline_next_retry_at = some 900;
  pipeline_last_failure_at = some 100;
  download_token = none;
  download_lease_until = none;
  origin = "plaud";
  downloaded_at = none;
  created_at = some 1;
  updated_at = none;
  attempt_rows = [];
  stage_runs = transcribed ∷ marked ∷ [];
}

schedule-IsPaced_example :
    IsPaced defaults 100 700
      (recording.pipeline_retry_count + 1)
      (schedule_pipeline_retry 100 defaults recording)
schedule-IsPaced_example = schedule-IsPaced 100 700 defaults recording

abbrev pub settings : QueueSettings
settings = record {
  retry = defaults;
  untranscribed_only_retry_hours = 24;
  auto_process_untranscribed_only = false;
  auto_skip_threshold_ms = none;
}

queue-derived_only_example :
    pending_scope settings 20 (queue_row 10 derived_only recording) ≡ some derived_scope
unfolding is_overlong
queue-derived_only_example =
    queue-derived_only settings 10 20 recording (omega arith) refl refl refl refl

queue-force_example : pending_scope settings 20 (queue_row 10 force recording) ≡ some derived_scope
unfolding is_overlong queue_row reset_pipeline_retry
queue-force_example = queue-force settings 10 20 recording refl refl refl refl (λ e. cc)

abbrev ask : QueueRequest
ask = record {
  mode = force;
  statuses = none;
  limit = some 1;
  dry_run = false;
  include_trash = true;
}

abbrev library : Library
library = recording ∷ record recording { id = "r2" } ∷ []

queue_library_reprocess-Batch_example :
    let (r, l') = queue_library_reprocess 10 ask library in Batch 10 ask 0 library l' r.queued
queue_library_reprocess-Batch_example = queue_library_reprocess-Batch 10 ask library refl

queue_library_reprocess-dry_run_example :
    let (r, l') = queue_library_reprocess 10 (with_dry_run true ask) library in
    let (s, _) = queue_library_reprocess 10 (with_dry_run false ask) library in
    (l' ≡ library) × (report r ≡ report s)
queue_library_reprocess-dry_run_example = queue_library_reprocess-dry_run 10 ask library

abbrev request : ClaimRequest
request = record { require_audio = true; retry_mind_map = false; mark_processing = true }

abbrev on_disk : String → Bool
on_disk path = true

abbrev held : Library
held = put file_id (taken 10 request "t1" recording) library

claimed_first : claim_processing 1 10 request on_disk "t1" "r1" library ≡ ok held
unfolding claim_processing admits find claim_row count
claimed_first = refl

claim_fence_example :
    (claim_processing 2 50 request on_disk "t2" "r1" held ≢ ok held)
    × ((row : PlaudFile) × (assert_processing_claim 50 none (some "t1") false "r1" held
          ≡ ok (row, held)))
    × (assert_processing_claim 50 none (some "t2") true "r1" held ≡ err claim_lost)
    × (release_processing "r1" "t2" held ≡ held)
claim_fence_example =
    claim_fence 1 10 request on_disk "t1" "r1" library held 2 50 request on_disk "t2" true held
      claimed_first (omega arith) (λ e. cc ((eq_iff "t1" "").1 e))
      (λ e. cc ((eq_iff "t2" "t1").1 e)) (λ e. cc ((eq_iff "t2" "").1 e))

abbrev start : World
start = record { now = 10; library = library }

start-IsWithin : IsWithin 1 start
unfolding find count
start-IsWithin = record { ids = (refl, (refl, tt)); slots = omega arith }

Reach-IsWithin_example : IsWithin 1 (record { now = 10 + 5; library = held })
Reach-IsWithin_example = Reach-IsWithin {concurrency = 1} {s = start} start-IsWithin (
    next (next here (claim start request on_disk "t1" "r1" held claimed_first))
      (tick (record { now = 10; library = held }) 5))

-- A worker died in the middle of a transcription, an hour before; another one lives.
abbrev stranded : PlaudFile
stranded = record recording {
  status = processing;
  processing_token = some "t0";
  processing_lease_until = some 5;
  stage_runs = record transcribed { status = running } ∷ [];
}

abbrev taken_one : PlaudFile
taken_one = taken 10 request "t1" recording

abbrev nobody : String → Bool
nobody token = false

reset_inflight-IsOwned_example :
    All (IsOwned 20) (reset_inflight 20 nobody (stranded ∷ taken_one ∷ [])).1
reset_inflight-IsOwned_example = reset_inflight-IsOwned 20 nobody (stranded ∷ taken_one ∷ [])

reset_inflight-live_example :
    (reset_inflight 20 nobody (stranded ∷ taken_one ∷ [])).1
    ≡ (reset_inflight 20 nobody (stranded ∷ [])).1 ++ taken_one ∷ []
unfolding reset_inflight
reset_inflight-live_example =
    reset_inflight-live 20 nobody (stranded ∷ []) taken_one [] (refl, refl, refl)

process_file-releases_example : has_token "t1" (unclaimed taken_one) ≡ false
unfolding process_file claim_processing admits find claim_row count after_work release_processing
    put
process_file-releases_example =
    process_file-releases 1 10 defaults on_disk "t1" "r1" 40 returned library
      (release_processing "r1" "t1" held) (unclaimed taken_one) refl refl

-- The stage that was marked keeps the narrow scope.
partial-retried_example :
    pending_scope settings 600 (partial_row 100 defaults false "index: failed" recording)
    ≡ unless
        (before_deadline 600 100 (retry_delay_seconds 3 defaults))
        (narrow_scope (partial_row 100 defaults false "index: failed" recording))
unfolding is_filtered is_overlong narrow_scope finish_row schedule_pipeline_retry
partial-retried_example =
    partial-retried settings 100 600 false "index: failed" recording refl (λ e. cc) (λ e. cc) refl
      refl
