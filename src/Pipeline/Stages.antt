-- ===== src/Pipeline/Stages.antt =====
-- The stages' state of worker/pipeline.py: `_set_stage_in_session`, `_begin_stage_in_session`
-- and `_finish_stage`, on the stage runs and attempts of one database and on the cost ledger that
-- the attempts are part of. The check of the processing claim, which
-- comes first, is that of Claims. Providers, models, profiles and latencies are labels that nothing
-- here reads and are not kept, and so is the memory peak; an error's text stands for its first 2,000
-- characters, and of a run's detail the generation and the queue's keys are kept.
use localplaud.Prelude.{
  ℕ, ◌+◌, max, String, Bool, true, false, not, ◌&&◌, Option, none, some, List, [], ◌∷◌, ◌++◌, map,
  ◌==◌, keep, find?, str_eq, if◌then◌else◌,
}
use localplaud.Pipeline.Recording.{
  StageName, convert, transcribe, align, diarize, correct, summarize, mind_map, outline, index,
  StageStatus, pending, running, completed, degraded, failed, skipped, Detail, StageRun,
}
use localplaud.Pipeline.Claims.{no_detail}
use localplaud.Pipeline.Scope.{is_outline}
use localplaud.Costs.Usage.{
  Usage, Catalog, Selection, normalize_usage, estimate_cost, pricing_for_stage,
}
use localplaud.Costs.Ledger.{StageAttempt, Reservation, IndexAttempt, AskMessage, Ledger}
use localplaud.Costs.Reservations.{listed, reservation_total}

-- StageName.value
abbrev pub stage_value : StageName → String
stage_value convert = "convert"
stage_value transcribe = "transcribe"
stage_value align = "align"
stage_value diarize = "diarize"
stage_value correct = "correct"
stage_value summarize = "summarize"
stage_value mind_map = "mind_map"
stage_value outline = "outline"
stage_value index = "index"

-- A row of stage_runs: `generation` is the detail's stale_generation.
pub record Run : Type 0 where
  pub run_file : String
  pub run : StageRun
  pub generation : Option String
  pub started_at : Option ℕ

-- A row of stage_attempts: the ledger's columns, and the others.
pub record Attempt : Type 0 where
  pub row : StageAttempt
  pub status : StageStatus
  pub begun_at : ℕ
  pub ended_at : Option ℕ
  pub attempt_error : Option String

pub record Tables : Type 0 where
  pub runs : List Run
  pub attempts : List Attempt
  pub reservations : List Reservation
  pub index_attempts : List IndexAttempt
  pub ask_messages : List AskMessage

abbrev pub ledger : Tables → Ledger
ledger t = record {
  reservations = t.reservations;
  stage_attempts = map (λ (a : Attempt). a.row) t.attempts;
  index_attempts = t.index_attempts;
  ask_messages = t.ask_messages;
}

-- The detail that a change writes: its queue keys and its generation.
pub record NewDetail : Type 0 where
  pub keys : Detail
  pub new_generation : Option String

-- The arguments of `_set_stage_in_session`; without `expected` no generation is expected.
pub record Change : Type 0 where
  pub stage : StageName
  pub new_status : StageStatus
  pub begin_attempt : Bool
  pub detail : Option NewDetail
  pub usage : Usage
  pub failure : Option String
  pub expected : Option (Option String)

abbrev pub is_run : String → StageName → Run → Bool
is_run file stage r = str_eq r.run_file file && str_eq (stage_value r.run.stage) (stage_value stage)

abbrev pub new_run : String → StageName → Run
new_run file stage = record {
  run_file = file;
  run = record {
    stage = stage;
    status = pending;
    attempts = 0;
    detail = no_detail;
    error = none;
    completed_at = none;
  };
  generation = none;
  started_at = none;
}

-- The stage's run, a new one where it is missing.
abbrev pub run_of : String → StageName → List Run → Run
run_of file stage runs = elim (find? (is_run file stage) runs) [
  | none ↦ new_run file stage
  | some r ↦ r
]

-- The commit of the run.
unfoldable pub put_run : String → StageName → Run → List Run → List Run
put_run file stage new [] = new ∷ []
put_run file stage new (r ∷ rest) =
    let later = put_run file stage new rest in if is_run file stage r then new ∷ rest else r ∷ later

abbrev pub same_generation : Option String → Option String → Bool
same_generation none none = true
same_generation (some a) (some b) = str_eq a b
same_generation _ _ = false

abbrev pub is_expected : Option (Option String) → Option String → Bool
is_expected none current = true
is_expected (some expected) current = same_generation current expected

-- {completed, degraded, failed, skipped}
abbrev pub is_closing : StageStatus → Bool
is_closing pending = false
is_closing running = false
is_closing _ = true

-- {degraded, failed, skipped}
abbrev pub keeps_cost : StageStatus → Bool
keeps_cost degraded = true
keeps_cost failed = true
keeps_cost skipped = true
keeps_cost _ = false

abbrev pub begun_run : ℕ → Run → Run
begun_run now r = record r {
  run = record r.run { attempts = r.run.attempts + 1; completed_at = none };
  started_at = some now;
}

abbrev pub new_attempt : ℕ → ℕ → String → Run → StageName → Attempt
new_attempt id now file r stage = record {
  row = record {
    id = id;
    file_id = file;
    stage = stage_value stage;
    attempt = r.run.attempts;
    is_running = true;
    estimated_cost = 0;
    usage = none;
    dispatch_reservation_ids = [];
  };
  status = running;
  begun_at = now;
  ended_at = none;
  attempt_error = none;
}

abbrev pub with_detail : Option NewDetail → Run → Run
with_detail none r = r
with_detail (some d) r = record r {
  run = record r.run { detail = d.keys };
  generation = d.new_generation;
}

-- The run after the change, its attempt counted already.
unfoldable pub changed_run : ℕ → Change → Run → Run
changed_run now c r =
    let detailed = with_detail c.detail r in
    let set = record detailed.run { status = c.new_status; error = c.failure } in
    record detailed {
      run = if is_closing c.new_status then record set { completed_at = some now } else set;
    }

-- The running attempt that a closed run ends.
abbrev pub is_ended : String → StageName → ℕ → Attempt → Bool
is_ended file stage attempt a =
    str_eq a.row.file_id file
    && str_eq a.row.stage (stage_value stage)
    && a.row.attempt == attempt
    && a.row.is_running

-- What the attempt is charged: a stage that did not complete keeps the highest of what was
-- projected, reserved and reported.
abbrev pub charge : StageStatus → ℕ → ℕ → ℕ → ℕ
charge status projected reserved cost =
    if keeps_cost status then max (max projected reserved) cost else cost

unfoldable pub ended : ℕ → Change → ℕ → ℕ → Attempt → Attempt
ended now c reserved cost a = record a {
  row = record a.row {
    is_running = false;
    estimated_cost = charge c.new_status a.row.estimated_cost reserved cost;
    usage = some (normalize_usage c.usage);
    dispatch_reservation_ids = [];
  };
  status = c.new_status;
  ended_at = some now;
  attempt_error = c.failure;
}

abbrev pub put_attempt : Attempt → List Attempt → List Attempt
put_attempt new attempts = map (λ (a : Attempt). if a.row.id == new.row.id then new else a) attempts

-- The end of an attempt: its reservations are released.
unfoldable pub end_attempt : ℕ → Change → ℕ → Attempt → Tables → Tables
end_attempt now c cost a t =
    let ids = a.row.dispatch_reservation_ids in
    record t {
      attempts = put_attempt (ended now c (reservation_total ids (ledger t)) cost a) t.attempts;
      reservations = keep (λ r. not (listed ids r.id)) t.reservations;
    }

unfoldable pub close_attempt : ℕ → String → Change → ℕ → ℕ → Tables → Tables
close_attempt now file c attempt cost t = elim (find? (is_ended file c.stage attempt) t.attempts) [
  | none ↦ t
  | some a ↦ end_attempt now c cost a t
]

-- The run and its attempt as the change finds them, a new attempt begun where it asks for one.
unfoldable pub started : ℕ → ℕ → String → Change → Run → Tables → Run × Tables
started now id file c r t =
    if c.begin_attempt
    then (
      begun_run now r,
      record t { attempts = t.attempts ++ new_attempt id now file (begun_run now r) c.stage ∷ [] },
    )
    else (r, t)

unfoldable pub write_stage : ℕ → ℕ → String → ℕ → Change → Run → Tables → Tables
write_stage now id file cost c found t =
    let (r, begun) = started now id file c found t in
    let written = record begun { runs = put_run file c.stage (changed_run now c r) begun.runs } in
    if is_closing c.new_status
    then close_attempt now file c r.run.attempts cost written
    else written

-- `_set_stage_in_session`: without a result where the stage's inputs have changed. `id` is the new
-- attempt's, `selection` the profile's choice for the stage.
unfoldable pub set_stage :
    ℕ → ℕ → Catalog → Option Selection → String → Change → Tables → Option Tables
set_stage now id catalog selection file c t =
    let found = run_of file c.stage t.runs in
    let cost = estimate_cost (normalize_usage c.usage) (pricing_for_stage catalog selection) in
    if is_expected c.expected found.generation
    then some (write_stage now id file cost c found t)
    else none

-- {key: value for key, value in previous_detail.items() if key.startswith("outline_")}
abbrev pub with_outline : Detail → Detail → Detail
with_outline previous d = record d {
  outline_only = previous.outline_only;
  outline_retry_count = previous.outline_retry_count;
  outline_next_retry_at = previous.outline_next_retry_at;
}

abbrev pub running_keys : Run → Detail
running_keys r =
    let kept = if r.run.detail.stale then r.run.detail else no_detail in
    if is_outline r.run.stage && r.run.detail.outline_only
    then with_outline r.run.detail kept
    else kept

abbrev pub no_usage : Usage
no_usage = record {
  requests = none;
  input_tokens = none;
  output_tokens = none;
  input_chars = none;
  output_chars = none;
  audio_milliseconds = none;
  tokens_estimated = false;
}

abbrev pub beginning : StageName → Run → Change
beginning stage r = record {
  stage = stage;
  new_status = running;
  begin_attempt = true;
  detail = some (record { keys = running_keys r; new_generation = r.generation });
  usage = no_usage;
  failure = none;
  expected = none;
}

-- `_begin_stage_in_session`: the generation that the attempt works on.
unfoldable pub begin_stage :
    ℕ → ℕ → Catalog → Option Selection → String → StageName → Tables → Option String × Tables
begin_stage now id catalog selection file stage t =
    let found = run_of file stage t.runs in
    (
      found.generation,
      elim (set_stage now id catalog selection file (beginning stage found) t) [
        | none ↦ t
        | some after ↦ after
      ],
    )

abbrev pub completing : StageName → NewDetail → Usage → Option String → Change
completing stage detail usage expected = record {
  stage = stage;
  new_status = completed;
  begin_attempt = false;
  detail = some detail;
  usage = usage;
  failure = none;
  expected = some expected;
}

-- `_finish_stage`, with the generation that the attempt worked on.
unfoldable pub finish_stage :
    ℕ
    → Catalog
    → Option Selection
    → String
    → StageName
    → NewDetail
    → Usage
    → Option String
    → Tables
    → Option Tables
finish_stage now catalog selection file stage detail usage expected t =
    set_stage now 0 catalog selection file (completing stage detail usage expected) t
