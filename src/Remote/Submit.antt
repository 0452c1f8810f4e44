-- ===== src/Remote/Submit.antt =====
-- `submit_job` of remote/server.py.
use localplaud.Prelude.{
  ℕ, String, Bool, true, false, not, ◌&&◌, Option, none, some, List, [], ◌∷◌, ◌++◌, find?, str_eq,
  if◌then◌else◌, put,
}
use localplaud.Remote.Job.{
  JobStage, summarize, outline, JobStatus, succeeded, failed, WorkerError, JobSubmitRequest,
  garbled, no_object, result, Artifact, RemoteJob, new_job, requeue,
}
use localplaud.Remote.Server.{Ledger, job_id, get, by_key}

abbrev pub outline_prompt_version : String
outline_prompt_version = "outline/v1"

abbrev pub note_version : String
note_version = "evidence-notes/v2"

abbrev pub title_version : String
title_version = "recording-title/v4"

-- options.get(key, current) == current
abbrev is_current : Option String → String → Bool
is_current none current = true
is_current (some v) current = str_eq v current

abbrev pub is_summarize : JobStage → Bool
is_summarize summarize = true
is_summarize _ = false

abbrev pub is_outline : JobStage → Bool
is_outline outline = true
is_outline _ = false

abbrev pub title_only : JobSubmitRequest → Bool
title_only r = is_summarize r.stage && r.options.title_only

-- The three 409 checks, before any row is read.
unfoldable pub has_supported_prompts : JobSubmitRequest → Bool
has_supported_prompts r =
    not (is_outline r.stage && not (is_current r.options.prompt_version outline_prompt_version))
    && not (
        is_summarize r.stage
        && not (title_only r)
        && not (is_current r.options.note_prompt_version note_version))
    && not (title_only r && not (is_current r.options.title_prompt_version title_version))

-- payload.get(key) == current, where a missing key is None
abbrev is_version : Option String → String → Bool
is_version none current = false
is_version (some v) current = str_eq v current

outdated_payload : Bool → Option Artifact → Bool
outdated_payload title none = true
outdated_payload title (some a) = elim a.payload [
  | garbled ↦ true
  | no_object ↦ true
  | result t n ↦ if title then not (is_version t title_version) else not (is_version n note_version)
]

abbrev is_succeeded : JobStatus → Bool
is_succeeded succeeded = true
is_succeeded _ = false

abbrev is_failed : JobStatus → Bool
is_failed failed = true
is_failed _ = false

-- `outdated_title or outdated_note`
unfoldable pub is_outdated : JobSubmitRequest → RemoteJob → Bool
unfolding outdated_payload
is_outdated r row =
    is_summarize r.stage
    && is_succeeded row.status
    && outdated_payload (title_only r) (find? (λ a. str_eq a.name "result.json") row.artifacts)

-- payload.get of a result that is no object, which only the note's branch catches.
abbrev is_no_object : Option Artifact → Bool
is_no_object none = false
is_no_object (some a) = elim a.payload [ garbled ↦ false | no_object ↦ true | result t n ↦ false ]

-- Whether reading the existing row's title raises the AttributeError.
unfoldable pub raises_attribute_error : JobSubmitRequest → RemoteJob → Bool
unfolding is_no_object
raises_attribute_error r row =
    title_only r
    && is_succeeded row.status
    && is_no_object (find? (λ a. str_eq a.name "result.json") row.artifacts)

-- The existing row is answered as it stands.
unfoldable pub is_reused : JobSubmitRequest → RemoteJob → Bool
unfolding is_outdated
is_reused r row = not (is_failed row.status) && not (is_outdated r row)

-- `_response`
pub record JobResponse : Type 0 where
  pub job_id : String
  pub idempotency_key : String
  pub stage : JobStage
  pub status : JobStatus
  pub progress : ℕ
  pub artifacts : List Artifact
  pub error : Option WorkerError

abbrev pub response : RemoteJob → JobResponse
response row = record {
  job_id = row.id;
  idempotency_key = row.idempotency_key;
  stage = row.stage;
  status = row.status;
  progress = row.progress;
  artifacts = row.artifacts;
  error = row.error;
}

-- The answer; `scheduled` says that the background task was added.
pub data Submitted : Type 0 where
  conflict : Submitted
  attribute_error : Submitted
  integrity_error : Submitted
  answered : JobResponse → (scheduled : Bool) → Submitted

after_integrity_error : Option RemoteJob → Submitted
after_integrity_error none = integrity_error
after_integrity_error (some row) = answered (response row) false

-- The flush of the new row, against the rows that are there by then.
unfoldable pub insert_job : String → JobSubmitRequest → Ledger → Submitted × Ledger
unfolding new_job after_integrity_error
insert_job id r l = elim (by_key r.idempotency_key l) [
  | some existing ↦ (after_integrity_error (some existing), l)
  | none ↦ elim (get id l) [
    | some other ↦ (after_integrity_error none, l)
    | none ↦ (answered (response (new_job id r)) true, l ++ new_job id r ∷ [])
  ]
]

-- `submit_job`: `id` is the new UUID, `race` what another session inserts between the select and
-- the flush.
unfoldable pub submit_job :
    String → (Ledger → Ledger) → JobSubmitRequest → Ledger → Submitted × Ledger
submit_job id race r l =
    if not (has_supported_prompts r) then (conflict, l) else elim (by_key r.idempotency_key l) [
      | none ↦ insert_job id r (race l)
      | some row ↦
          if raises_attribute_error r row
          then (attribute_error, l)
          else if is_reused r row
          then (answered (response row) false, l)
          else (answered (response (requeue r row)) true, put job_id (requeue r row) l)
    ]
