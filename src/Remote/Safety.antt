-- ===== src/Remote/Safety.antt =====
-- The `remote_jobs` table between two transactions: consistent rows, unique ids and keys. Every
-- handler of remote/server.py keeps it, whatever the handler answers.
use mathlib.Core.Path.{subst}
use localplaud.Prelude.{
  ℕ, String, ◌≡◌, refl, sym, ◌∙◌, true, false, not, inl, inr, Option, none, some, All, All-append,
  arith, Bool-cases, Option-cases, by_test, put, HasUnique, All-put, All-find, find-key,
  HasUnique-put, find-other, HasUnique-append,
}
use localplaud.Remote.Job.{
  JobStatus, queued, running, JobSubmitRequest, RemoteJob, is_open, release_job_inputs, new_job,
  requeue, mark_running, mark_cancelled, mark_succeeded, Outcome, returned, raised, worker_error,
}
use localplaud.Remote.Server.{
  Ledger, job_id, job_key, get, by_key, release_and_commit, defer_for_maintenance, begin_row,
  begin_execution, settle_row, settle_execution, cancel_row, cancel_job, Begun,
}
use localplaud.Remote.Submit.{
  submit_job, insert_job, is_reused, has_supported_prompts, raises_attribute_error, Submitted,
}
use localplaud.Remote.Consistency.{
  IsConsistent, new_job-IsConsistent, requeue-IsConsistent, cancelled-IsConsistent,
  succeeded-IsConsistent, failed-IsConsistent, running-IsConsistent,
}

pub record IsSafe (l : Ledger) : Type 0 where
  pub rows : All IsConsistent l
  pub ids : HasUnique job_id l
  pub keys : HasUnique job_key l

pub get_own :
    (id : String) (l : Ledger) (row : RemoteJob) → get id l ≡ some row → get row.id l ≡ some row
get_own id l row e = subst (λ k. get k l ≡ some row) (sym (find-key job_id id l row e)) e

put-IsSafe :
    (new old : RemoteJob) (l : Ledger)
    → get new.id l ≡ some old
    → old.idempotency_key ≡ new.idempotency_key
    → IsConsistent new
    → IsSafe l
    → IsSafe (put job_id new l)
put-IsSafe new old l e same c s = record {
  rows = All-put job_id IsConsistent new l c s.rows;
  ids = HasUnique-put job_id job_id new l old e (find-key job_id new.id l old e) s.ids;
  keys = HasUnique-put job_id job_key new l old e same s.keys;
}

release_and_commit-IsSafe :
    (marked old : RemoteJob) (l : Ledger)
    → get marked.id l ≡ some old
    → old.idempotency_key ≡ marked.idempotency_key
    → ((freed : RemoteJob) → release_job_inputs marked ≡ some freed → IsConsistent freed)
    → IsSafe l
    → IsSafe (release_and_commit marked l)
unfolding release_and_commit release_job_inputs
release_and_commit-IsSafe marked old l e same c s =
    elim (Option-cases (release_job_inputs marked)) [
      | inl t ↦ rw (t, release_and_commit) s
      | inr (freed, t) ↦
          rw (t, release_and_commit)
            (put-IsSafe freed old l (rw (kept freed t).0 e) (same ∙ sym (kept freed t).1)
              (c freed t) s)
    ]
  where
    kept :
        (freed : RemoteJob)
        → release_job_inputs marked ≡ some freed
        → (freed.id ≡ marked.id) × (freed.idempotency_key ≡ marked.idempotency_key)
    kept freed t = ground arith

consistent : {row : RemoteJob} {l : Ledger} → get row.id l ≡ some row → IsSafe l → IsConsistent row
consistent {row} {l} e s = All-find job_id IsConsistent row.id l row e s.rows

begin_row-IsSafe :
    (now : ℕ) (row : RemoteJob) (l : Ledger)
    → get row.id l ≡ some row
    → IsSafe l
    → IsSafe (begin_row now row l).1
unfolding begin_row
begin_row-IsSafe now row l e s =
    by_test after (not (is_open row.status)) (λ _. s)
      λ o.
        by_test after row.cancel_requested
          (λ _.
            release_and_commit-IsSafe (mark_cancelled now row) row l e refl
              (λ freed. cancelled-IsConsistent now row freed (consistent e s) (was_open o)) s)
          λ _.
            by_test after row.input_manifest.input_payloads_released (λ _. s)
              λ _.
                put-IsSafe (mark_running now row) row l e refl
                  (running-IsConsistent now row (consistent e s) (was_open o)) s
  where
    after : Begun × Ledger → Type 0
    after w = IsSafe w.1

    was_open : not (is_open row.status) ≡ false → is_open row.status ≡ true
    was_open o = ground arith

pub begin-IsSafe :
    (now : ℕ) (id : String) (l : Ledger) → IsSafe l → IsSafe (begin_execution now id l).1
unfolding begin_execution
begin-IsSafe now id l s = elim (Option-cases (get id l)) [
  | inl e ↦ rw (e, begin_execution) s
  | inr (row, e) ↦ rw (e, begin_execution) (begin_row-IsSafe now row l (get_own id l row e) s)
]

settle_row-IsSafe :
    (now : ℕ) (outcome : Outcome) (row : RemoteJob) (l : Ledger)
    → get row.id l ≡ some row
    → is_open row.status ≡ true
    → IsSafe l
    → IsSafe (settle_row now outcome row l)
unfolding settle_row
settle_row-IsSafe now (raised kind message) row l e o s =
    release_and_commit-IsSafe _ row l e refl
      (λ freed. failed-IsConsistent now (worker_error kind message) row freed (consistent e s) o) s
settle_row-IsSafe now (returned artifacts) row l e o s =
    by_test IsSafe row.cancel_requested
      (λ _.
        release_and_commit-IsSafe (mark_cancelled now row) row l e refl
          (λ freed. cancelled-IsConsistent now row freed (consistent e s) o) s)
      λ _.
        release_and_commit-IsSafe (mark_succeeded now artifacts row) row l e refl
          (λ freed. succeeded-IsConsistent now artifacts row freed (consistent e s) o) s

-- The second scope keeps the table safe if the row is still in use.
pub settle-IsSafe :
    (now : ℕ) (id : String) (outcome : Outcome) (l : Ledger) (row : RemoteJob)
    → get id l ≡ some row
    → is_open row.status ≡ true
    → IsSafe l
    → IsSafe (settle_execution now id outcome l)
unfolding settle_execution
settle-IsSafe now id outcome l row e o s =
    rw (e, settle_execution) (settle_row-IsSafe now outcome row l (get_own id l row e) o s)

deferred-IsConsistent :
    (row : RemoteJob)
    → IsConsistent row
    → IsConsistent (record row { options = record (row.options) { maintenance_deferred = true } })
deferred-IsConsistent row c = record {
  finished = c.finished;
  unfinished = c.unfinished;
  fresh = c.fresh;
  begun = c.begun;
  with_result = c.with_result;
  with_error = c.with_error;
  without_error = c.without_error;
}

pub defer-IsSafe : (id : String) (l : Ledger) → IsSafe l → IsSafe (defer_for_maintenance id l)
unfolding defer_for_maintenance
defer-IsSafe id l s = elim (Option-cases (get id l)) [
  | inl e ↦ rw (e, defer_for_maintenance) s
  | inr (row, e) ↦ elim (Bool-cases (is_open row.status)) [
    | inr o ↦ rw (e, defer_for_maintenance, o) s
    | inl o ↦
        rw (e, defer_for_maintenance, o)
          (put-IsSafe _ row l (get_own id l row e) refl
            (deferred-IsConsistent row (consistent (get_own id l row e) s)) s)
  ]
]

-- Asking for a cancellation keeps a running row consistent.
asked-IsConsistent :
    (row : RemoteJob)
    → IsConsistent row
    → row.status ≡ running
    → IsConsistent (record row { cancel_requested = true })
asked-IsConsistent row c r = ground arith

asked_cancelled-IsConsistent :
    (now : ℕ) (row freed : RemoteJob)
    → IsConsistent row
    → row.status ≡ queued
    → release_job_inputs (mark_cancelled now (record row { cancel_requested = true })) ≡ some freed
    → IsConsistent freed
unfolding release_job_inputs
asked_cancelled-IsConsistent now row freed c q e = ground arith

-- What `cancel_job` does to a row, by its status.
cancel_row-IsSafe :
    (now : ℕ) (row : RemoteJob) (l : Ledger)
    → get row.id l ≡ some row
    → IsSafe l
    → IsSafe (cancel_row now row.status row l).1
unfolding cancel_row
cancel_row-IsSafe now row l e s = go row.status refl
  where
    go : (t : JobStatus) → row.status ≡ t → IsSafe (cancel_row now t row l).1
    go queued h =
        release_and_commit-IsSafe (mark_cancelled now (record row { cancel_requested = true })) row
          l e refl (λ freed. asked_cancelled-IsConsistent now row freed (consistent e s) h) s
    go running h = put-IsSafe _ row l e refl (asked-IsConsistent row (consistent e s) h) s
    go _ h = s

pub cancel-IsSafe :
    (now : ℕ) (id : String) (l l' : Ledger) (status : JobStatus)
    → IsSafe l
    → cancel_job now id l ≡ some (status, l')
    → IsSafe l'
unfolding cancel_job
cancel-IsSafe now id l l' status s h = elim (Option-cases (get id l)) [
  | inl e ↦ cc (rw (e, cancel_job) at h)
  | inr (row, e) ↦
      subst (λ (w : Option (JobStatus × Ledger)). elim w [ none ↦ Unit | some v ↦ IsSafe v.1 ])
        (rw (e, cancel_job) at h) (cancel_row-IsSafe now row l (get_own id l row e) s)
]

pub insert-IsSafe :
    (id : String) (r : JobSubmitRequest) (l : Ledger) → IsSafe l → IsSafe (insert_job id r l).1
unfolding insert_job new_job
insert-IsSafe id r l s = elim (Option-cases (by_key r.idempotency_key l)) [
  | inr (row, k) ↦ rw (k, insert_job) s
  | inl k ↦ elim (Option-cases (get id l)) [
    | inr (row, e) ↦ rw (k, e, insert_job) s
    | inl e ↦
        rw (k, e, insert_job)
          (record {
            rows = All-append IsConsistent l _ s.rows (new_job-IsConsistent id r, tt);
            ids = HasUnique-append job_id l (new_job id r) e s.ids;
            keys = HasUnique-append job_key l (new_job id r) k s.keys;
          })
  ]
]

requeue-IsSafe :
    (r : JobSubmitRequest) (row : RemoteJob) (l : Ledger)
    → by_key r.idempotency_key l ≡ some row
    → IsSafe l
    → IsSafe (put job_id (requeue r row) l)
unfolding requeue
requeue-IsSafe r row l k s =
    put-IsSafe (requeue r row) row l (find-other job_id job_key r.idempotency_key l row k s.ids)
      refl (requeue-IsConsistent r row) s

pub submit-IsSafe :
    (id : String) (race : Ledger → Ledger) (r : JobSubmitRequest) (l : Ledger)
    → IsSafe (race l)
    → IsSafe l
    → IsSafe (submit_job id race r l).1
unfolding submit_job
submit-IsSafe id race r l raced s = elim (Bool-cases (has_supported_prompts r)) [
  | inr p ↦ rw p s
  | inl p ↦ elim (Option-cases (by_key r.idempotency_key l)) [
    | inl k ↦ rw (p, k, submit_job) (insert-IsSafe id r (race l) raced)
    | inr (row, k) ↦
        rw (p, k, submit_job)
          (by_test {B = Submitted × Ledger} (λ out. IsSafe out.1) (raises_attribute_error r row)
            (λ _. s)
            λ _.
              by_test {B = Submitted × Ledger} (λ out. IsSafe out.1) (is_reused r row) (λ _. s)
                λ _. requeue-IsSafe r row l k s)
  ]
]
