-- ===== src/Remote/Server.antt =====
-- The worker's job handlers: remote/server.py over its `remote_jobs` table. The exclusive SQLite
-- transaction of each `session_scope` is one function from a ledger to a ledger, and an exception
-- that leaves the scope rolls it back.
use localplaud.Prelude.{
  ℕ, String, Bool, true, not, ◌&&◌, Option, none, some, List, find?, keep, map, str_eq,
  if◌then◌else◌, find, put,
}
use localplaud.Remote.Job.{
  JobStatus, queued, running, JobSubmitRequest, Artifact, RemoteJob, is_open, release_job_inputs,
  mark_running, mark_cancelled, mark_succeeded, mark_failed, Outcome, returned, raised,
  worker_error,
}

abbrev pub Ledger : Type 0
Ledger = List RemoteJob

abbrev pub job_id : RemoteJob → String
job_id row = row.id

abbrev pub job_key : RemoteJob → String
job_key row = row.idempotency_key

abbrev pub get : String → Ledger → Option RemoteJob
get = find job_id

abbrev pub by_key : String → Ledger → Option RemoteJob
by_key = find job_key

-- `release_job_inputs(row)` at the end of a scope, and the commit; a ValueError rolls back.
unfoldable pub release_and_commit : RemoteJob → Ledger → Ledger
release_and_commit row l = elim (release_job_inputs row) [
  | none ↦ l
  | some released ↦ put job_id released l
]

-- `_defer_for_maintenance`
unfoldable pub defer_for_maintenance : String → Ledger → Ledger
defer_for_maintenance id l = elim (get id l) [
  | none ↦ l
  | some row ↦
      if is_open row.status
      then put job_id
          (record row { options = record (row.options) { maintenance_deferred = true } }) l
      else l
]

-- What the first scope of `_execute_admitted_job` decides.
pub data Begun : Type 0 where
  skipped : Begun
  cancelled_first : Begun
  invalid_manifest : Begun
  started : JobSubmitRequest → Begun

unfoldable pub begin_row : ℕ → RemoteJob → Ledger → Begun × Ledger
begin_row now row l =
    if not (is_open row.status)
    then (skipped, l)
    else if row.cancel_requested
    then (cancelled_first, release_and_commit (mark_cancelled now row) l)
    else if row.input_manifest.input_payloads_released
    then (invalid_manifest, l)
    else (started row.input_manifest.request, put job_id (mark_running now row) l)

-- The first scope. A manifest without its payloads does not validate: the request forbids the
-- extra key.
unfoldable pub begin_execution : ℕ → String → Ledger → Begun × Ledger
begin_execution now id l = elim (get id l) [ none ↦ (skipped, l) | some row ↦ begin_row now row l ]

unfoldable pub settle_row : ℕ → Outcome → RemoteJob → Ledger → Ledger
settle_row now (returned artifacts) row l =
    if row.cancel_requested
    then release_and_commit (mark_cancelled now row) l
    else release_and_commit (mark_succeeded now artifacts row) l
settle_row now (raised kind message) row l =
    release_and_commit (mark_failed now (worker_error kind message) row) l

-- The second scope: what the stage returned or raised is recorded.
unfoldable pub settle_execution : ℕ → String → Outcome → Ledger → Ledger
settle_execution now id outcome l = elim (get id l) [
  | none ↦ l
  | some row ↦ settle_row now outcome row l
]

finish : ℕ → String → (JobSubmitRequest → Outcome) → (Ledger → Ledger) → Begun × Ledger → Ledger
finish now id execute during (started request, l) =
    settle_execution now id (execute request) (during l)
finish now id execute during (_, l) = l

-- `_execute_admitted_job`: `execute` is the stage, `during` what other sessions commit meanwhile.
unfoldable pub execute_admitted_job :
    ℕ → ℕ → String → (JobSubmitRequest → Outcome) → (Ledger → Ledger) → Ledger → Ledger
unfolding finish
execute_admitted_job now later id execute during l =
    finish later id execute during (begin_execution now id l)

-- `execute_job`: the gate is asked before the GPU lock, and again once the lock is held; `waiting`
-- is what other sessions commit until then.
unfoldable pub execute_job :
    Bool
    → Bool
    → (Ledger → Ledger)
    → ℕ
    → ℕ
    → String
    → (JobSubmitRequest → Outcome)
    → (Ledger → Ledger)
    → Ledger
    → Ledger
execute_job paused paused_in_lock waiting now later id execute during l =
    if paused
    then defer_for_maintenance id l
    else if paused_in_lock
    then defer_for_maintenance id (waiting l)
    else execute_admitted_job now later id execute during (waiting l)

abbrev waits_deferred : RemoteJob → Bool
waits_deferred row = is_open row.status && row.options.maintenance_deferred

-- The ids that `resume_deferred_jobs` hands to `execute_job`.
unfoldable pub deferred_ids : Ledger → List String
deferred_ids l = map job_id (keep waits_deferred l)

abbrev waits : RemoteJob → Bool
waits row = is_open row.status

-- The ids that `resume_pending_jobs` hands to `execute_job`.
unfoldable pub pending_ids : Ledger → List String
pending_ids l = map job_id (keep waits l)

unfoldable pub cancel_row : ℕ → JobStatus → RemoteJob → Ledger → JobStatus × Ledger
cancel_row now queued row l = (
  JobStatus.cancelled,
  release_and_commit (mark_cancelled now (record row { cancel_requested = true })) l,
)
cancel_row now running row l = (running, put job_id (record row { cancel_requested = true }) l)
cancel_row now status row l = (status, l)

-- `cancel_job`; `none` is the 404.
unfoldable pub cancel_job : ℕ → String → Ledger → Option (JobStatus × Ledger)
cancel_job now id l = elim (get id l) [
  | none ↦ none
  | some row ↦ some (cancel_row now row.status row l)
]

-- `download_artifact`; `none` is the 404.
unfoldable pub download_artifact : String → String → Ledger → Option Artifact
download_artifact id name l = elim (get id l) [
  | none ↦ none
  | some row ↦ find? (λ a. str_eq a.name name) row.artifacts
]
