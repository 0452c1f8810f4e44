-- ===== src/Remote/Promises.antt =====
-- What the worker promises its controller.
use mathlib.Core.Path.{subst}
use localplaud.Prelude.{
  ℕ, String, ◌≡◌, ◌≢◌, refl, ◌∙◌, Bool, true, false, ◌||◌, inl, inr, some, List, [], arith, str_eq,
  eq_iff, Option-cases, any, any-keep, by_value, if◌then◌else◌, put, find-put, find-key, All-find,
}
use localplaud.Remote.Job.{
  JobStatus, running, succeeded, failed, JobSubmitRequest, RemoteJob, is_open, is_terminal,
  release_job_inputs, Artifact, mark_cancelled, mark_succeeded, Outcome, returned, raised,
}
use localplaud.Remote.Server.{
  Ledger, job_id, get, release_and_commit, defer_for_maintenance, invalid_manifest, begin_row,
  begin_execution, settle_row, settle_execution, execute_job, deferred_ids,
}
use localplaud.Remote.Consistency.{IsConsistent}
use localplaud.Remote.Safety.{IsSafe, get_own}
use localplaud.Remote.World.{World, IsSound, IsRunning}

begin_row-ne-invalid :
    (now : ℕ) (row : RemoteJob) (l : Ledger)
    → IsConsistent row
    → (begin_row now row l).0 ≢ invalid_manifest
unfolding begin_row
begin_row-ne-invalid now row l c = ground arith

-- A stage is never started from a manifest whose payloads were released.
begin-ne-invalid :
    (now : ℕ) (id : String) (l : Ledger)
    → IsSafe l
    → (begin_execution now id l).0 ≢ invalid_manifest
unfolding begin_execution
begin-ne-invalid now id l s = elim (Option-cases (get id l)) [
  | inl e ↦ rw (e, begin_execution) (λ h. cc)
  | inr (row, e) ↦
      rw (e, begin_execution)
        (begin_row-ne-invalid now row l (All-find job_id IsConsistent id l row e s.rows))
]

-- What a stage's outcome makes of its job, by whether a cancellation was asked for meanwhile.
abbrev pub verdict : Bool → Outcome → JobStatus
verdict asked (raised kind message) = failed
verdict true (returned artifacts) = JobStatus.cancelled
verdict false (returned artifacts) = succeeded

abbrev pub results : Bool → Outcome → List Artifact
results asked (raised kind message) = []
results true (returned artifacts) = []
results false (returned artifacts) = artifacts

-- A finished row is committed with its payloads released and its result as it was.
released_row :
    (marked old : RemoteJob) (l : Ledger)
    → get marked.id l ≡ some old
    → is_terminal marked.status ≡ true
    → (row : RemoteJob) × (get marked.id (release_and_commit marked l) ≡ some row)
      × (row.status ≡ marked.status)
      × (row.artifacts ≡ marked.artifacts)
      × (row.input_manifest.input_payloads_released ≡ true)
unfolding release_and_commit release_job_inputs
released_row marked old l e t = elim (Option-cases (release_job_inputs marked)) [
  | inl n ↦ ground arith
  | inr (freed, n) ↦
      (freed, rw (n, release_and_commit) (found freed n), ground arith, ground arith, ground arith)
]
  where
    found :
        (freed : RemoteJob)
        → release_job_inputs marked ≡ some freed
        → get marked.id (put job_id freed l) ≡ some freed
    found freed n =
        let same : freed.id ≡ marked.id = ground arith in
        find-put job_id marked.id freed l old (rw same e)
        ∙ rw ((eq_iff freed.id marked.id).1 same) refl

settled_row :
    (now : ℕ) (outcome : Outcome) (row : RemoteJob) (l : Ledger)
    → get row.id l ≡ some row
    → IsConsistent row
    → row.status ≡ running
    → (after : RemoteJob) × (get row.id (settle_row now outcome row l) ≡ some after)
      × (after.status ≡ verdict row.cancel_requested outcome)
      × (after.artifacts ≡ results row.cancel_requested outcome)
      × (after.input_manifest.input_payloads_released ≡ true)
unfolding settle_row
settled_row now (raised kind message) row l e c r =
    let (after, found, status, artifacts, freed) = released_row _ row l e refl in
    (after, found, status, artifacts ∙ (c.unfinished (rw r)).2, freed)
settled_row now (returned artifacts) row l e c r =
    by_value
      (λ b.
        (after : RemoteJob) × (get row.id (
            if b
            then release_and_commit (mark_cancelled now row) l
            else release_and_commit (mark_succeeded now artifacts row) l)
          ≡ some after)
        × (after.status ≡ verdict b (returned artifacts))
        × (after.artifacts ≡ results b (returned artifacts))
        × (after.input_manifest.input_payloads_released ≡ true))
      row.cancel_requested
      (λ _.
        let (after, found, status, kept, freed) =
          released_row (mark_cancelled now row) row l e refl in
        (after, found, status, kept ∙ (c.unfinished (rw r)).2, freed))
      (λ _. released_row (mark_succeeded now artifacts row) row l e refl)

-- The second transaction of a stage always finishes its job: the verdict and the results are
-- those of the outcome and of the cancellation flag, and the payloads are released.
pub settle_lem :
    (w : World) (now : ℕ) (id : String) (outcome : Outcome)
    → IsSound w
    → w.executing ≡ some id
    → (before after : RemoteJob) × (get id w.ledger ≡ some before)
      × (get id (settle_execution now id outcome w.ledger) ≡ some after)
      × (after.status ≡ verdict before.cancel_requested outcome)
      × (after.artifacts ≡ results before.cancel_requested outcome)
      × (after.input_manifest.input_payloads_released ≡ true)
unfolding settle_execution
settle_lem w now id outcome s locked =
    let (row, found, runs) = subst (IsRunning w.ledger) locked s.held in
    let own = get_own id w.ledger row found in
    let c = All-find job_id IsConsistent id w.ledger row found s.safe.rows in
    let (after, kept, status, artifacts, freed) = settled_row now outcome row w.ledger own c runs in
    (
      row,
      after,
      found,
      rw (found, settle_execution) (rw (find-key job_id id w.ledger row found) at kept),
      status,
      artifacts,
      freed,
    )

abbrev pub deferred : RemoteJob → RemoteJob
deferred row = record row { options = record (row.options) { maintenance_deferred = true } }

get-deferred :
    (id : String) (row : RemoteJob) (l : Ledger)
    → get id l ≡ some row
    → get id (put job_id (deferred row) l) ≡ some (deferred row)
get-deferred id row l e = rw (
  find-put job_id id (deferred row) l row (get_own id l row e),
  (eq_iff row.id id).1 (find-key job_id id l row e),
)

defer_lem :
    (id : String) (row : RemoteJob) (l : Ledger)
    → get id l ≡ some row
    → is_open row.status ≡ true
    → let after = defer_for_maintenance id l in
      (after ≡ put job_id (deferred row) l)
      × (get id after ≡ some (deferred row))
      × (any (λ k. str_eq k id) (deferred_ids after) ≡ true)
unfolding defer_for_maintenance deferred_ids
defer_lem id row l e o =
    rw (e, defer_for_maintenance, o)
      (
        refl,
        get-deferred id row l e,
        any-keep job_id id _ _ (deferred row) (get-deferred id row l e) (rw o),
      )

-- While the maintenance gate is closed, before the GPU lock or once it is held, a waiting job is
-- not started: its row changes in the deferral mark alone, and the scan after the pause finds it.
execute_job-paused :
    (paused paused_in_lock : Bool) (now later : ℕ) (id : String)
    (execute : JobSubmitRequest → Outcome) (during : Ledger → Ledger) (row : RemoteJob) (l : Ledger)
    → (paused || paused_in_lock) ≡ true
    → get id l ≡ some row
    → is_open row.status ≡ true
    → let after = execute_job paused paused_in_lock (λ m. m) now later id execute during l in
      (after ≡ put job_id (deferred row) l)
      × (get id after ≡ some (deferred row))
      × (any (λ k. str_eq k id) (deferred_ids after) ≡ true)
unfolding execute_job
execute_job-paused true locked now later id execute during row l p e o = defer_lem id row l e o
execute_job-paused false true now later id execute during row l p e o = defer_lem id row l e o
execute_job-paused false false now later id execute during row l p e o = cc
