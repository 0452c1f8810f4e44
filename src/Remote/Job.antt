-- ===== src/Remote/Job.antt =====
-- The worker's job rows: remote/protocol.py, db/models.py (RemoteJob) and the row functions of
-- remote/server.py. A float progress is kept in hundredths, a time in microseconds; an artifact's
-- base64 JSON stands for what the server reads of it, and a digest for its text.
use localplaud.Prelude.{
  ℕ, ◌+◌, String, Bool, true, false, Option, none, some, List, [], map, if◌then◌else◌,
}

pub data JobStage : Type 0 where
  transcribe diarize summarize mind_map outline embed : JobStage

pub data JobStatus : Type 0 where
  queued running succeeded failed cancelled : JobStatus

pub data ErrorCode : Type 0 where
  worker_resource_exhausted stage_execution_failed : ErrorCode

pub record WorkerError : Type 0 where
  pub code : ErrorCode
  pub message : String
  pub retryable : Bool

-- `value` is missing once the payload has been released.
pub record InputReference : Type 0 where
  pub name : String
  pub media_type : String
  pub value : Option String
  pub sha256 : Option String

-- What `submit_job` reads of the options: the prompt versions, the title switch and the deferral
-- mark of the maintenance gate.
pub record JobOptions : Type 0 where
  pub title_only : Bool
  pub prompt_version : Option String
  pub note_prompt_version : Option String
  pub title_prompt_version : Option String
  pub maintenance_deferred : Bool

pub record JobSubmitRequest : Type 0 where
  pub idempotency_key : String
  pub stage : JobStage
  pub model : Option String
  pub inputs : List InputReference
  pub options : JobOptions

pub record Manifest : Type 0 where
  pub request : JobSubmitRequest
  pub input_payloads_released : Bool

-- The decoded result: its two prompt versions, or JSON that is no object, or no JSON in base64.
pub data Payload : Type 0 where
  garbled : Payload
  no_object : Payload
  result : (title_prompt_version note_prompt_version : Option String) → Payload

pub record Artifact : Type 0 where
  pub name : String
  pub media_type : String
  pub size : ℕ
  pub sha256 : String
  pub payload : Payload

pub record RemoteJob : Type 0 where
  pub id : String
  pub idempotency_key : String
  pub stage : JobStage
  pub model : Option String
  pub status : JobStatus
  pub progress : ℕ
  pub input_manifest : Manifest
  pub options : JobOptions
  pub artifacts : List Artifact
  pub error : Option WorkerError
  pub cancel_requested : Bool
  pub attempts : ℕ
  pub started_at : Option ℕ
  pub completed_at : Option ℕ

-- row.status in {queued, running}
abbrev pub is_open : JobStatus → Bool
is_open queued = true
is_open running = true
is_open _ = false

-- row.status in {succeeded, failed, cancelled}
abbrev pub is_terminal : JobStatus → Bool
is_terminal succeeded = true
is_terminal failed = true
is_terminal cancelled = true
is_terminal _ = false

abbrev pub drop_value : InputReference → InputReference
drop_value i = record i { value = none }

-- `none` is the ValueError.
unfoldable pub release_job_inputs : RemoteJob → Option RemoteJob
release_job_inputs row =
    if is_terminal row.status
    then some (record row {
      input_manifest = record {
        request = record (row.input_manifest.request) {
          inputs = map drop_value row.input_manifest.request.inputs;
        };
        input_payloads_released = true;
      };
    })
    else none

-- The row that `submit_job` adds, with the column defaults.
abbrev pub without_deferral : JobOptions → JobOptions
without_deferral o = record o { maintenance_deferred = false }

unfoldable pub new_job : String → JobSubmitRequest → RemoteJob
new_job id request = record {
  id = id;
  idempotency_key = request.idempotency_key;
  stage = request.stage;
  model = request.model;
  status = queued;
  progress = 0;
  input_manifest = record { request = request; input_payloads_released = false };
  options = without_deferral request.options;
  artifacts = [];
  error = none;
  cancel_requested = false;
  attempts = 0;
  started_at = none;
  completed_at = none;
}

-- The reset of an existing row that a resubmission runs again.
unfoldable pub requeue : JobSubmitRequest → RemoteJob → RemoteJob
requeue request row = record row {
  status = queued;
  progress = 0;
  error = none;
  artifacts = [];
  cancel_requested = false;
  started_at = none;
  completed_at = none;
  input_manifest = record { request = request; input_payloads_released = false };
  options = without_deferral request.options;
}

-- A job that the stage runs for the first time keeps its first start.
abbrev pub started_or : ℕ → Option ℕ → Option ℕ
started_or now none = some now
started_or now (some t) = some t

abbrev pub mark_running : ℕ → RemoteJob → RemoteJob
mark_running now row = record row {
  status = running;
  progress = 5;
  started_at = started_or now row.started_at;
  attempts = row.attempts + 1;
}

abbrev pub mark_cancelled : ℕ → RemoteJob → RemoteJob
mark_cancelled now row = record row { status = cancelled; progress = 100; completed_at = some now }

abbrev pub mark_succeeded : ℕ → List Artifact → RemoteJob → RemoteJob
mark_succeeded now artifacts row = record row {
  artifacts = artifacts;
  status = succeeded;
  progress = 100;
  completed_at = some now;
}

abbrev pub mark_failed : ℕ → WorkerError → RemoteJob → RemoteJob
mark_failed now error row = record row {
  status = failed;
  progress = 100;
  error = some error;
  completed_at = some now;
}

-- The exceptions that the worker tells apart.
pub data FailureKind : Type 0 where
  asr_resource timeout llm_transient llm_output_invalid os_error other : FailureKind

pub data Outcome : Type 0 where
  returned : List Artifact → Outcome
  raised : FailureKind → String → Outcome

unfoldable pub worker_error : FailureKind → String → WorkerError
worker_error asr_resource m = record {
  code = worker_resource_exhausted;
  message = m;
  retryable = true;
}
worker_error other m = record { code = stage_execution_failed; message = m; retryable = false }
worker_error _ m = record { code = stage_execution_failed; message = m; retryable = true }
