-- ===== src/Remote/World.antt =====
-- The worker process over time: web requests commit between the two transactions of the one stage
-- that the GPU lock lets run, and a crash forgets which stage that was.
use mathlib.Core.Path.{subst}
use localplaud.Prelude.{
  not, ℕ, String, ◌≡◌, ◌≢◌, refl, true, false, inl, inr, Option, none, some, [], ◌∷◌, ◌++◌, arith,
  str_eq, eq_iff, Bool-cases, Option-cases, by_test, put, find-put, find-key, find-other, some_eq,
  find-some-append,
}
use localplaud.Remote.Job.{
  JobStatus, queued, running, JobSubmitRequest, RemoteJob, is_open, release_job_inputs, requeue,
  mark_running, mark_cancelled, new_job, Outcome,
}
use localplaud.Remote.Server.{
  Ledger, job_id, job_key, get, by_key, release_and_commit, defer_for_maintenance, Begun, started,
  begin_row, begin_execution, settle_execution, cancel_row, cancel_job,
}
use localplaud.Remote.Submit.{
  submit_job, insert_job, is_reused, has_supported_prompts, raises_attribute_error, Submitted,
}
use localplaud.Remote.Safety.{
  IsSafe, get_own, begin-IsSafe, settle-IsSafe, defer-IsSafe, cancel-IsSafe, insert-IsSafe,
  submit-IsSafe,
}

-- `executing` is the job whose stage runs under the GPU lock.
pub record World : Type 0 where
  pub ledger : Ledger
  pub executing : Option String

-- The job holds the lock if its first transaction handed out a request.
abbrev pub holder : String → Begun → Option String
holder id (started request) = some id
holder id _ = none

pub data Step : World → World → Type 0 where
  submit :
      (w : World) (id : String) (r : JobSubmitRequest)
      → Step w (record w { ledger = (submit_job id (λ l. l) r w.ledger).1 })
  submit_raced :
      (w : World) (id : String) (r : JobSubmitRequest) (other : String) (rival : JobSubmitRequest)
      → Step w
          (record w { ledger = (submit_job id (λ l. (insert_job other rival l).1) r w.ledger).1 })
  cancel :
      (w : World) (now : ℕ) (id : String) (status : JobStatus) (l : Ledger)
      → cancel_job now id w.ledger ≡ some (status, l)
      → Step w (record w { ledger = l })
  defer :
      (w : World) (id : String) → Step w (record w { ledger = defer_for_maintenance id w.ledger })
  begin :
      (w : World) (now : ℕ) (id : String)
      → w.executing ≡ none
      → Step w (record {
        ledger = (begin_execution now id w.ledger).1;
        executing = holder id (begin_execution now id w.ledger).0;
      })
  settle :
      (w : World) (now : ℕ) (id : String) (outcome : Outcome)
      → w.executing ≡ some id
      → Step w (record { ledger = settle_execution now id outcome w.ledger; executing = none })
  crash : (w : World) → Step w (record w { executing = none })

pub data Reach (s : World) : World → Type 0 where
  here : Reach s s
  next : {t u : World} → Reach s t → Step t u → Reach s u

abbrev pub empty : World
empty = record { ledger = []; executing = none }

-- The row of the stage under way.
abbrev pub IsRunning : Ledger → Option String → Type 0
IsRunning l none = Unit
IsRunning l (some id) = (row : RemoteJob) × (get id l ≡ some row) × (row.status ≡ running)

pub record IsSound (w : World) : Type 0 where
  pub safe : IsSafe w.ledger
  pub held : IsRunning w.ledger w.executing

put-IsRunning :
    (new old : RemoteJob) (l : Ledger) (lock : Option String)
    → get new.id l ≡ some old
    → (old.status ≡ running → new.status ≡ running)
    → IsRunning l lock
    → IsRunning (put job_id new l) lock
put-IsRunning new old l none e same h = tt
put-IsRunning new old l (some id) e same (row, found, runs) = elim (Bool-cases (str_eq new.id id)) [
  | inl b ↦ (new, rw (find-put job_id id new l old e, b), same (ground (arith, eq_iff new.id id)))
  | inr b ↦ (row, rw (find-put job_id id new l old e, b) found, runs)
]

release_and_commit-IsRunning :
    (marked old : RemoteJob) (l : Ledger) (lock : Option String)
    → get marked.id l ≡ some old
    → old.status ≢ running
    → IsRunning l lock
    → IsRunning (release_and_commit marked l) lock
unfolding release_and_commit release_job_inputs
release_and_commit-IsRunning marked old l lock e idle h =
    elim (Option-cases (release_job_inputs marked)) [
      | inl t ↦ rw (t, release_and_commit) h
      | inr (freed, t) ↦
          rw (t, release_and_commit)
            (put-IsRunning freed old l lock (subst (λ k. get k l ≡ some old) (same_id freed t) e)
              (λ r. absurd (idle r)) h)
    ]
  where
    same_id : (freed : RemoteJob) → release_job_inputs marked ≡ some freed → marked.id ≡ freed.id
    same_id freed t = ground arith

defer-IsRunning :
    (id : String) (l : Ledger) (lock : Option String)
    → IsRunning l lock
    → IsRunning (defer_for_maintenance id l) lock
unfolding defer_for_maintenance
defer-IsRunning id l lock h = elim (Option-cases (get id l)) [
  | inl e ↦ rw (e, defer_for_maintenance) h
  | inr (row, e) ↦
      rw (e, defer_for_maintenance)
        (by_test (λ m. IsRunning m lock) (is_open row.status)
          (λ _. put-IsRunning _ row l lock (get_own id l row e) (λ r. r) h) (λ _. h))
]

cancel_row-IsRunning :
    (now : ℕ) (row : RemoteJob) (l : Ledger) (lock : Option String)
    → get row.id l ≡ some row
    → IsRunning l lock
    → IsRunning (cancel_row now row.status row l).1 lock
unfolding cancel_row
cancel_row-IsRunning now row l lock e h = go row.status refl
  where
    go : (t : JobStatus) → row.status ≡ t → IsRunning (cancel_row now t row l).1 lock
    go queued q =
        release_and_commit-IsRunning (mark_cancelled now (record row { cancel_requested = true }))
          row l lock e (λ r. cc) h
    go running r = put-IsRunning _ row l lock e (λ r. r) h
    go _ _ = h

cancel-IsRunning :
    (now : ℕ) (id : String) (l l' : Ledger) (status : JobStatus) (lock : Option String)
    → IsRunning l lock
    → cancel_job now id l ≡ some (status, l')
    → IsRunning l' lock
unfolding cancel_job
cancel-IsRunning now id l l' status lock h c = elim (Option-cases (get id l)) [
  | inl e ↦ cc (rw (e, cancel_job) at c)
  | inr (row, e) ↦
      subst (λ (w : JobStatus × Ledger). IsRunning w.1 lock) (some_eq (rw (e, cancel_job) at c))
        (cancel_row-IsRunning now row l lock (get_own id l row e) h)
]

insert-IsRunning :
    (id : String) (r : JobSubmitRequest) (l : Ledger) (lock : Option String)
    → IsRunning l lock
    → IsRunning (insert_job id r l).1 lock
unfolding insert_job
insert-IsRunning id r l lock h = elim (Option-cases (by_key r.idempotency_key l)) [
  | inr (row, k) ↦ rw (k, insert_job) h
  | inl k ↦ elim (Option-cases (get id l)) [
    | inr (row, e) ↦ rw (k, e, insert_job) h
    | inl e ↦ rw (k, e, insert_job) (appended lock h)
  ]
]
  where
    appended : (lock : Option String) → IsRunning l lock → IsRunning (l ++ new_job id r ∷ []) lock
    appended none h = tt
    appended (some k) (row, found, runs) = (row, find-some-append job_id k l _ row found, runs)

-- A row that is run again was not running.
rerun_idle :
    (r : JobSubmitRequest) (row : RemoteJob) → is_reused r row ≡ false → row.status ≢ running
unfolding is_reused
rerun_idle r row u run = ground arith

submit-IsRunning :
    (id : String) (race : Ledger → Ledger) (r : JobSubmitRequest) (l : Ledger)
    (lock : Option String)
    → IsSafe l
    → IsRunning (race l) lock
    → IsRunning l lock
    → IsRunning (submit_job id race r l).1 lock
unfolding submit_job requeue
submit-IsRunning id race r l lock s raced h = elim (Bool-cases (has_supported_prompts r)) [
  | inr p ↦ rw p h
  | inl p ↦ elim (Option-cases (by_key r.idempotency_key l)) [
    | inl k ↦ rw (p, k, submit_job) (insert-IsRunning id r (race l) lock raced)
    | inr (row, k) ↦
        rw (p, k, submit_job)
          (by_test {B = Submitted × Ledger} (λ out. IsRunning out.1 lock)
            (raises_attribute_error r row) (λ _. h)
            λ _.
              by_test {B = Submitted × Ledger} (λ out. IsRunning out.1 lock) (is_reused r row)
                (λ _. h)
                λ u.
                  put-IsRunning (requeue r row) row l lock
                    (find-other job_id job_key r.idempotency_key l row k s.ids)
                    (λ run. absurd (rerun_idle r row u run)) h)
  ]
]

-- The row that a first transaction starts is running after it.
begin-IsRunning :
    (now : ℕ) (id : String) (l : Ledger)
    → IsRunning (begin_execution now id l).1 (holder id (begin_execution now id l).0)
unfolding begin_execution begin_row
begin-IsRunning now id l = elim (Option-cases (get id l)) [
  | inl e ↦ rw (e, begin_execution) tt
  | inr (row, e) ↦
      rw (e, begin_execution)
        (by_test held (not (is_open row.status)) (λ _. tt)
          λ _.
            by_test held row.cancel_requested (λ _. tt)
              λ _.
                by_test held row.input_manifest.input_payloads_released (λ _. tt)
                  λ _. started_row row e)
]
  where
    held : Begun × Ledger → Type 0
    held w = IsRunning w.1 (holder id w.0)

    started_row :
        (row : RemoteJob)
        → get id l ≡ some row
        → held (started row.input_manifest.request, put job_id (mark_running now row) l)
    started_row row e = (
      mark_running now row,
      rw (
        find-put job_id id (mark_running now row) l row (get_own id l row e),
        (eq_iff row.id id).1 (find-key job_id id l row e),
      ),
      refl,
    )

Step-IsSound : {w v : World} → Step w v → IsSound w → IsSound v
Step-IsSound (submit w id r) s = record {
  safe = submit-IsSafe id (λ l. l) r w.ledger s.safe s.safe;
  held = submit-IsRunning id (λ l. l) r w.ledger w.executing s.safe s.held s.held;
}
Step-IsSound (submit_raced w id r other rival) s = record {
  safe = submit-IsSafe id _ r w.ledger (insert-IsSafe other rival w.ledger s.safe) s.safe;
  held =
      submit-IsRunning id _ r w.ledger w.executing s.safe
        (insert-IsRunning other rival w.ledger w.executing s.held) s.held;
}
Step-IsSound (cancel w now id status l c) s = record {
  safe = cancel-IsSafe now id w.ledger l status s.safe c;
  held = cancel-IsRunning now id w.ledger l status w.executing s.held c;
}
Step-IsSound (defer w id) s = record {
  safe = defer-IsSafe id w.ledger s.safe;
  held = defer-IsRunning id w.ledger w.executing s.held;
}
Step-IsSound (begin w now id free) s = record {
  safe = begin-IsSafe now id w.ledger s.safe;
  held = begin-IsRunning now id w.ledger;
}
Step-IsSound (settle w now id outcome locked) s = record {
  safe =
      let (row, found, runs) = subst (IsRunning w.ledger) locked s.held in
      settle-IsSafe now id outcome w.ledger row found (rw runs) s.safe;
  held = tt;
}
Step-IsSound (crash w) s = record { safe = s.safe; held = tt }

-- Whatever requests, cancellations, deferrals, stages and crashes come in whatever order, every
-- row of the table is consistent, no two rows share an id or an idempotency key, and the job whose
-- stage is under way is there and is still marked running.
pub Reach-IsSound : {w : World} → Reach empty w → IsSound w
Reach-IsSound here = record { safe = record { rows = tt; ids = tt; keys = tt }; held = tt }
Reach-IsSound (next r st) = Step-IsSound st (Reach-IsSound r)
