-- ===== src/Pipeline/Reprocess.antt =====
-- The bulk queue: worker/pipeline.py, `queue_library_reprocess`. The library is given in the
-- order of its query, newest first; `invalidated` lists the recordings whose generated documents
-- it hands to the knowledge index. An unknown mode, which it refuses, is not a `Mode`.
use localplaud.Prelude.{
  ℕ, ◌+◌, String, Bool, true, false, not, ◌&&◌, ◌||◌, Option, none, some, List, [], ◌∷◌, ◌++◌, map,
  leb, any, take, str_eq, if◌then◌else◌,
}
use localplaud.Pipeline.Recording.{
  FileStatus, downloaded, partial, StageName, summarize, mind_map, outline, index, pending,
  StageRun, PlaudFile, Library,
}
use localplaud.Pipeline.Claims.{processing_claim_active, is_mind_map, no_detail}
use localplaud.Pipeline.Retry.{reset_pipeline_retry}
use localplaud.Pipeline.Scope.{is_outline}

pub data Mode : Type 0 where
  resume force derived_only : Mode

pub record QueueRequest : Type 0 where
  pub mode : Mode
  pub statuses : Option (FileStatus → Bool)
  pub limit : Option ℕ
  pub dry_run : Bool
  pub include_trash : Bool

pub record QueueResult : Type 0 where
  pub queued : ℕ
  pub skipped : ℕ
  pub processing : ℕ
  pub no_audio : ℕ
  pub queued_ids : List String
  pub invalidated : List String

abbrev pub is_summarize : StageName → Bool
is_summarize summarize = true
is_summarize _ = false

abbrev pub is_index : StageName → Bool
is_index index = true
is_index _ = false

-- The tuple `derived` of the queue; corrections are not in it.
abbrev pub is_regenerated : StageName → Bool
is_regenerated summarize = true
is_regenerated mind_map = true
is_regenerated outline = true
is_regenerated index = true
is_regenerated _ = false

abbrev pub unfinished : StageRun → StageRun
unfinished run = record run { status = pending; error = none; completed_at = none }

abbrev pub stale_run : StageRun → StageRun
stale_run run =
    if is_regenerated run.stage
    then record (unfinished run) {
      detail = record run.detail { stale = true; derived_only = true };
    }
    else run

abbrev pub missing_run : StageName → StageRun
missing_run stage = record {
  stage = stage;
  status = pending;
  attempts = 0;
  detail = record no_detail { stale = true; derived_only = true };
  error = none;
  completed_at = none;
}

-- The stage's new run, unless the recording has one.
unfoldable pub added : (StageName → Bool) → StageName → List StageRun → List StageRun
added is_stage stage runs =
    if any (λ run. is_stage run.stage) runs then [] else missing_run stage ∷ []

unfoldable pub derived_runs : List StageRun → List StageRun
derived_runs runs =
    map stale_run runs
    ++ (added is_summarize summarize runs
        ++ (added is_mind_map mind_map runs
            ++ (added is_outline outline runs ++ added is_index index runs)))

-- The common end of the queueing of one row: due at once, no alert.
abbrev pub due_now : ℕ → PlaudFile → PlaudFile
due_now now row = record (reset_pipeline_retry row) {
  error = none;
  pipeline_last_failure_at = some now;
  pipeline_next_retry_at = some now;
}

-- What queueing does to a row.
unfoldable pub queue_row : ℕ → Mode → PlaudFile → PlaudFile
queue_row now force row = record (due_now now row) {
  stage_runs = map unfinished row.stage_runs;
  status = downloaded;
}
queue_row now derived_only row = record (due_now now row) {
  stage_runs = derived_runs row.stage_runs;
  status = partial;
}
queue_row now resume row = record (due_now now row) {
  status = if row.has_local_transcript then partial else downloaded;
}

-- The generated documents that queueing invalidates.
abbrev invalidates : Mode → Bool
invalidates resume = false
invalidates _ = true

abbrev pub no_path : Option String → Bool
no_path none = true
no_path (some path) = str_eq path ""

abbrev pub lacks_transcript : Mode → PlaudFile → Bool
lacks_transcript derived_only row = not row.has_local_transcript
lacks_transcript _ row = false

-- The WHERE clauses of the query.
abbrev pub is_asked : QueueRequest → PlaudFile → Bool
is_asked ask row =
    elim ask.statuses [ none ↦ true | some chosen ↦ chosen row.status ]
    && (ask.include_trash || not row.is_trash)

-- `limit is not None and result["queued"] >= limit`
abbrev pub is_full : Option ℕ → ℕ → Bool
is_full none queued = false
is_full (some limit) queued = leb limit queued

-- What the loop does with the row that it reached.
pub data Verdict : Type 0 where
  unasked without_audio busy without_transcript eligible : Verdict

unfoldable pub judge : ℕ → QueueRequest → PlaudFile → Verdict
judge now ask row =
    if not (is_asked ask row)
    then unasked
    else if no_path row.audio_path
    then without_audio
    else if processing_claim_active now row
    then busy
    else if lacks_transcript ask.mode row
    then without_transcript
    else eligible

unfoldable pub counted : QueueRequest → PlaudFile → Verdict → QueueResult → QueueResult
counted ask row unasked r = r
counted ask row without_audio r = record r { no_audio = r.no_audio + 1 }
counted ask row busy r = record r { processing = r.processing + 1 }
counted ask row without_transcript r = record r { skipped = r.skipped + 1 }
counted ask row eligible r = record r {
  queued = r.queued + 1;
  queued_ids = r.queued_ids ++ row.id ∷ [];
  invalidated =
      (if not ask.dry_run && invalidates ask.mode
        then r.invalidated ++ row.id ∷ []
        else r.invalidated);
}

unfoldable pub written : ℕ → QueueRequest → PlaudFile → Verdict → PlaudFile
written now ask row eligible = if ask.dry_run then row else queue_row now ask.mode row
written now ask row _ = row

-- The loop of `queue_library_reprocess`; it stops at the first asked row past the limit.
unfoldable pub queue_rows : ℕ → QueueRequest → QueueResult → Library → QueueResult × Library
queue_rows now ask r [] = (r, [])
queue_rows now ask r (row ∷ rows) =
    let verdict = judge now ask row in
    let rest = queue_rows now ask (counted ask row verdict r) rows in
    if is_asked ask row && is_full ask.limit r.queued
    then (r, row ∷ rows)
    else (rest.0, written now ask row verdict ∷ rest.1)

abbrev pub nothing_queued : QueueResult
nothing_queued = record {
  queued = 0;
  skipped = 0;
  processing = 0;
  no_audio = 0;
  queued_ids = [];
  invalidated = [];
}

-- `queue_library_reprocess`; its answer lists at most fifty of the ids.
unfoldable pub queue_library_reprocess : ℕ → QueueRequest → Library → QueueResult × Library
queue_library_reprocess now ask l =
    let (r, after) = queue_rows now ask nothing_queued l in
    (record r { queued_ids = take 50 r.queued_ids }, after)
