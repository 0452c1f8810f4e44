-- ===== src/Remote/Retries.antt =====
-- Submitted again: what an answer shows, a retry of the request, and a resubmitted failure.
use mathlib.Core.Path.{subst}
use localplaud.Prelude.{
  ℕ, String, ◌≡◌, refl, Bool, true, false, not, inl, inr, none, some, arith, eq_refl, Bool-cases,
  Option-cases, by_test, find-new-append, put, find-put, find-other, find-put_other,
}
use localplaud.Remote.Job.{failed, JobSubmitRequest, RemoteJob, requeue, new_job}
use localplaud.Remote.Server.{
  Ledger, job_id, job_key, get, by_key, started, begin_row, begin_execution,
}
use localplaud.Remote.Submit.{
  submit_job, insert_job, is_reused, raises_attribute_error, has_supported_prompts, Submitted,
  answered, conflict, JobResponse, response,
}
use localplaud.Remote.Safety.{IsSafe}

-- The row that an answer shows, and that an immediate retry is answered from.
abbrev Answers : JobSubmitRequest → Submitted × Ledger → Type 0
Answers r (answered answer scheduled, l) =
    (row : RemoteJob) × (by_key r.idempotency_key l ≡ some row)
    × (response row ≡ answer)
    × (raises_attribute_error r row ≡ false)
    × (is_reused r row ≡ true)
Answers r _ = Unit

insert-Answers :
    (id : String) (r : JobSubmitRequest) (l : Ledger)
    → by_key r.idempotency_key l ≡ none
    → Answers r (insert_job id r l)
unfolding insert_job is_reused raises_attribute_error new_job
insert-Answers id r l k = elim (Option-cases (get id l)) [
  | inr (row, e) ↦ rw (k, e, insert_job) tt
  | inl e ↦
      rw (k, e, insert_job)
        (
          new_job id r,
          find-new-append job_key r.idempotency_key l (new_job id r) k (eq_refl r.idempotency_key),
          refl,
          ground arith,
          ground arith,
        )
]

submit-Answers :
    (id : String) (r : JobSubmitRequest) (l : Ledger)
    → IsSafe l
    → Answers r (submit_job id (λ m. m) r l)
unfolding submit_job is_reused raises_attribute_error requeue
submit-Answers id r l s =
    by_test (Answers r) (not (has_supported_prompts r)) (λ _. tt)
      λ _. elim (Option-cases (by_key r.idempotency_key l)) [
        | inl k ↦ rw (k, submit_job) (insert-Answers id r l k)
        | inr (row, k) ↦
            rw (k, submit_job)
              (by_test (Answers r) (raises_attribute_error r row) (λ _. tt)
                λ v.
                  by_test (Answers r) (is_reused r row) (λ u. (row, k, refl, v, u))
                    λ _. (
                      requeue r row,
                      find-put_other job_id job_key r.idempotency_key (requeue r row) l row k refl
                          refl s.ids,
                      refl,
                      ground arith,
                      ground arith,
                    ))
      ]

-- An immediate retry of an answered request gets the same answer, schedules nothing and changes
-- nothing, whether the first one found the job, ran it again or created it.
pub submit_retry :
    (id id' : String) (race : Ledger → Ledger) (r : JobSubmitRequest) (l : Ledger)
    (answer : JobResponse) (scheduled : Bool)
    → IsSafe l
    → (submit_job id (λ m. m) r l).0 ≡ answered answer scheduled
    → submit_job id' race r (submit_job id (λ m. m) r l).1
      ≡ (answered answer false, (submit_job id (λ m. m) r l).1)
unfolding submit_job
submit_retry id id' race r l answer scheduled s h =
    let l' = (submit_job id (λ m. m) r l).1 in
    let (row, found, shown, read, reused) =
      subst (λ a. Answers r (a, l')) h (submit-Answers id r l s) in
    elim (Bool-cases (has_supported_prompts r)) [
      | inl p ↦ again p l' row found shown read reused
      | inr p ↦ cc (h, refused p)
    ]
  where
    refused : has_supported_prompts r ≡ false → (submit_job id (λ m. m) r l).0 ≡ conflict
    refused p = rw (p, submit_job)

    again :
        has_supported_prompts r ≡ true
        → (l' : Ledger) (row : RemoteJob) → by_key r.idempotency_key l' ≡ some row
        → response row ≡ answer
        → raises_attribute_error r row ≡ false
        → is_reused r row ≡ true
        → submit_job id' race r l' ≡ (answered answer false, l')
    again p l' row found shown read reused = rw (p, submit_job, found, read, reused, shown)

rerun_failed :
    (r : JobSubmitRequest) (row : RemoteJob)
    → row.status ≡ failed
    → (raises_attribute_error r row ≡ false) × (is_reused r row ≡ false)
unfolding is_reused raises_attribute_error
rerun_failed r row f = (ground arith, ground arith)

begins_requeued :
    (now : ℕ) (r : JobSubmitRequest) (row : RemoteJob) (l : Ledger)
    → (begin_row now (requeue r row) l).0 ≡ started r
unfolding begin_row requeue
begins_requeued now r row l = refl

-- A failed job that its controller submits again runs from the new request.
resubmit-failed :
    (id : String) (now : ℕ) (race : Ledger → Ledger) (r : JobSubmitRequest) (row : RemoteJob)
    (l : Ledger)
    → IsSafe l
    → has_supported_prompts r ≡ true
    → by_key r.idempotency_key l ≡ some row
    → row.status ≡ failed
    → (begin_execution now row.id (submit_job id race r l).1).0 ≡ started r
unfolding submit_job requeue begin_execution
resubmit-failed id now race r row l s p k f =
    let own = find-other job_id job_key r.idempotency_key l row k s.ids in
    rw (p, submit_job, k, (rerun_failed r row f).0, (rerun_failed r row f).1)
      (rw (find-put job_id row.id (requeue r row) l row own, eq_refl row.id, begin_execution)
        (begins_requeued now r row (put job_id (requeue r row) l)))
