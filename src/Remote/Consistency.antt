-- ===== src/Remote/Consistency.antt =====
-- What holds of every job row between two transactions, and that each handler of
-- remote/server.py keeps it.
use localplaud.Prelude.{ℕ, ◌≤◌, String, ◌≡◌, ◌≢◌, true, false, none, some, List, [], arith}
use localplaud.Remote.Job.{
  queued, running, succeeded, failed, WorkerError, Artifact, JobSubmitRequest, RemoteJob, is_open,
  is_terminal, release_job_inputs, new_job, requeue, mark_running, mark_cancelled, mark_succeeded,
  mark_failed,
}

-- A row in use keeps its payloads and has no result yet; a finished one has dropped them.
pub record IsConsistent (row : RemoteJob) : Type 0 where
  pub finished :
      is_terminal row.status ≡ true
      → (row.input_manifest.input_payloads_released ≡ true)
        × (row.progress ≡ 100)
        × (row.completed_at ≢ none)
  pub unfinished :
      is_open row.status ≡ true
      → (row.input_manifest.input_payloads_released ≡ false)
        × (row.completed_at ≡ none)
        × (row.artifacts ≡ [])
        × (row.error ≡ none)
  pub fresh : row.status ≡ queued → (row.progress ≡ 0) × (row.cancel_requested ≡ false)
  pub begun :
      row.status ≡ running → (row.progress ≡ 5) × (row.started_at ≢ none) × (1 ≤ row.attempts)
  pub with_result : row.artifacts ≢ [] → row.status ≡ succeeded
  pub with_error : (row.status ≡ failed) → row.error ≢ none
  pub without_error : row.error ≢ none → row.status ≡ failed

pub new_job-IsConsistent : (id : String) (r : JobSubmitRequest) → IsConsistent (new_job id r)
unfolding new_job
new_job-IsConsistent id r = ground arith

pub requeue-IsConsistent : (r : JobSubmitRequest) (row : RemoteJob) → IsConsistent (requeue r row)
unfolding requeue
requeue-IsConsistent r row = ground arith

-- Each way to finish an open row, once its payloads are released.
pub cancelled-IsConsistent :
    (now : ℕ) (row freed : RemoteJob)
    → IsConsistent row
    → is_open row.status ≡ true
    → release_job_inputs (mark_cancelled now row) ≡ some freed
    → IsConsistent freed
unfolding release_job_inputs
cancelled-IsConsistent now row freed c o e = ground arith

pub succeeded-IsConsistent :
    (now : ℕ) (artifacts : List Artifact) (row freed : RemoteJob)
    → IsConsistent row
    → is_open row.status ≡ true
    → release_job_inputs (mark_succeeded now artifacts row) ≡ some freed
    → IsConsistent freed
unfolding release_job_inputs
succeeded-IsConsistent now artifacts row freed c o e = ground arith

pub failed-IsConsistent :
    (now : ℕ) (error : WorkerError) (row freed : RemoteJob)
    → IsConsistent row
    → is_open row.status ≡ true
    → release_job_inputs (mark_failed now error row) ≡ some freed
    → IsConsistent freed
unfolding release_job_inputs
failed-IsConsistent now error row freed c o e = ground arith

pub running-IsConsistent :
    (now : ℕ) (row : RemoteJob)
    → IsConsistent row
    → is_open row.status ≡ true
    → IsConsistent (mark_running now row)
running-IsConsistent now row c o = ground arith
