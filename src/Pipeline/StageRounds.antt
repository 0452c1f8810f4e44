-- ===== src/Pipeline/StageRounds.antt =====
-- A stage's round: begun, and finished on the generation of inputs that it began with.
use mathlib.Core.Path.{subst}
use localplaud.Prelude.{
  ℕ, ◌+◌, String, ◌≡◌, refl, sym, ap, ◌∙◌, Bool, true, false, inl, inr, Option, none, some, List,
  [], ◌∷◌, ◌++◌, arith, ==-refl, ==_iff, Bool-cases, any, find?, eq_refl, Option-cases, by_test,
  find?-passes,
}
use localplaud.Pipeline.Recording.{StageName, StageRun, completed}
use localplaud.Costs.Usage.{
  Usage, Catalog, Selection, normalize_usage, estimate_cost, pricing_for_stage,
}
use localplaud.Costs.Reservations.{reservation_total}
use localplaud.Pipeline.StageCosts.{write_closed}
use localplaud.Pipeline.Stages.{
  Run, Attempt, Tables, ledger, Change, NewDetail, stage_value, is_run, run_of, put_run,
  changed_run, with_detail, is_closing, begun_run, new_attempt, same_generation, is_ended, ended,
  put_attempt, end_attempt, started, write_stage, set_stage, begin_stage, beginning, completing,
  finish_stage,
}

find?-put_run :
    (file : String) (stage : StageName) (new : Run) (runs : List Run)
    → is_run file stage new ≡ true
    → find? (is_run file stage) (put_run file stage new runs) ≡ some new
unfolding put_run
find?-put_run file stage new [] h = rw h refl
find?-put_run file stage new (r ∷ runs) h = elim (Bool-cases (is_run file stage r)) [
  | inl t ↦ rw t (rw h refl)
  | inr f ↦ rw f (rw f (find?-put_run file stage new runs h))
]

-- The stage's run is the recording's and the stage's.
is_run-run_of :
    (file : String) (stage : StageName) (runs : List Run)
    → is_run file stage (run_of file stage runs) ≡ true
is_run-run_of file stage runs = elim (Option-cases (find? (is_run file stage) runs)) [
  | inl e ↦ rw (e, run_of) (rw (eq_refl file, eq_refl (stage_value stage)) refl)
  | inr (r, e) ↦ rw (e, run_of) (find?-passes (is_run file stage) runs r e)
]

with_detail_keeps :
    (d : Option NewDetail) (r : Run)
    → ((with_detail d r).run_file ≡ r.run_file)
      × ((with_detail d r).run.stage ≡ r.run.stage)
      × ((with_detail d r).run.attempts ≡ r.run.attempts)
with_detail_keeps none r = (refl, refl, refl)
with_detail_keeps (some d) r = (refl, refl, refl)

changed_run_keeps :
    (now : ℕ) (c : Change) (r : Run)
    → ((changed_run now c r).run_file ≡ r.run_file)
      × ((changed_run now c r).run.stage ≡ r.run.stage)
      × ((changed_run now c r).run.attempts ≡ r.run.attempts)
unfolding changed_run
changed_run_keeps now c r =
    let (file, stage, attempts) = with_detail_keeps c.detail r in
    (
      file,
      by_test (λ (s : StageRun). s.stage ≡ r.run.stage) (is_closing c.new_status) (λ _. stage)
          (λ _. stage),
      by_test (λ (s : StageRun). s.attempts ≡ r.run.attempts) (is_closing c.new_status)
          (λ _. attempts) (λ _. attempts),
    )

changed_run-is_run :
    (now : ℕ) (c : Change) (file : String) (stage : StageName) (r : Run)
    → is_run file stage (changed_run now c r) ≡ is_run file stage r
changed_run-is_run now c file stage r =
    let (same_file, same_stage, _) = changed_run_keeps now c r in rw (same_file, same_stage) refl

same_generation_refl : (g : Option String) → same_generation g g ≡ true
same_generation_refl none = refl
same_generation_refl (some a) = eq_refl a

-- A found run is the one that the next change finds.
written-run :
    (now : ℕ) (c : Change) (file : String) (stage : StageName) (r : Run) (runs : List Run)
    → is_run file stage r ≡ true
    → run_of file stage (put_run file stage (changed_run now c r) runs) ≡ changed_run now c r
written-run now c file stage r runs h =
    rw
      (
        find?-put_run file stage (changed_run now c r) runs
            (changed_run-is_run now c file stage r ∙ h),
        run_of,
      )
      refl

-- `begin_stage`, written out.
begun-tables :
    (now id : ℕ) (catalog : Catalog) (selection : Option Selection) (file : String)
    (stage : StageName) (t : Tables)
    → let r = run_of file stage t.runs in
      (begin_stage now id catalog selection file stage t).1 ≡ record t {
        runs = put_run file stage (changed_run now (beginning stage r) (begun_run now r)) t.runs;
        attempts = t.attempts ++ new_attempt id now file (begun_run now r) stage ∷ [];
      }
unfolding begin_stage set_stage write_stage started
begun-tables now id catalog selection file stage t = refl

put_attempt-ended :
    (test : Attempt → Bool) (new : Attempt) (l : List Attempt)
    → test new ≡ false
    → any test l ≡ false
    → any test (put_attempt new l) ≡ false
put_attempt-ended test new [] h k = refl
put_attempt-ended test new (x ∷ l) h k = ground (arith, put_attempt-ended test new l h)

find?-last :
    (test : Attempt → Bool) (l : List Attempt) (a : Attempt)
    → any test l ≡ false
    → test a ≡ true
    → find? test (l ++ a ∷ []) ≡ some a
find?-last test [] a h t = rw t refl
find?-last test (x ∷ l) a h t = ground (arith, find?-last test l a)

put_attempt-last :
    (test : Attempt → Bool) (new a : Attempt) (l : List Attempt)
    → any test l ≡ false
    → test new ≡ false
    → new.row.id ≡ a.row.id
    → any test (put_attempt new (l ++ a ∷ [])) ≡ false
put_attempt-last test new a [] h k same = rw ((==_iff a.row.id new.row.id).1 (sym same)) (rw k refl)
put_attempt-last test new a (x ∷ l) h k same = ground (arith, put_attempt-last test new a l)

-- The run that is begun, and its attempt.
abbrev begun : ℕ → String → StageName → Tables → Run
begun now file stage t =
    let r = run_of file stage t.runs in changed_run now (beginning stage r) (begun_run now r)

abbrev attempt_begun : ℕ → ℕ → String → StageName → Tables → Attempt
attempt_begun now id file stage t =
    new_attempt id now file (begun_run now (run_of file stage t.runs)) stage

begun-run_of :
    (now id : ℕ) (catalog : Catalog) (selection : Option Selection) (file : String)
    (stage : StageName) (t : Tables)
    → run_of file stage (begin_stage now id catalog selection file stage t).1.runs
      ≡ begun now file stage t
begun-run_of now id catalog selection file stage t =
    let r = run_of file stage t.runs in
    rw (begun-tables now id catalog selection file stage t) (
      written-run now (beginning stage r) file stage (begun_run now r) t.runs
        (is_run-run_of file stage t.runs))

-- The new attempt is the one that ends with the run.
begun-attempt :
    (now id : ℕ) (catalog : Catalog) (selection : Option Selection) (file : String)
    (stage : StageName) (t : Tables)
    → any (is_ended file stage ((run_of file stage t.runs).run.attempts + 1)) t.attempts ≡ false
    → find?
        (is_ended file stage ((run_of file stage t.runs).run.attempts + 1))
        (begin_stage now id catalog selection file stage t).1.attempts
      ≡ some (attempt_begun now id file stage t)
begun-attempt now id catalog selection file stage t h =
    rw (begun-tables now id catalog selection file stage t) (
      find?-last (is_ended file stage ((run_of file stage t.runs).run.attempts + 1)) t.attempts
        (attempt_begun now id file stage t) h
        (rw
          (
            eq_refl file,
            eq_refl (stage_value stage),
            ==-refl ((run_of file stage t.runs).run.attempts + 1),
          )
          refl))

finish-write :
    (later : ℕ) (catalog : Catalog) (selection : Option Selection) (file : String)
    (stage : StageName) (detail : NewDetail) (usage : Usage) (expected : Option String) (t : Tables)
    (r : Run)
    → run_of file stage t.runs ≡ r
    → same_generation r.generation expected ≡ true
    → finish_stage later catalog selection file stage detail usage expected t
      ≡ some (
          write_stage later 0 file
            (estimate_cost (normalize_usage usage) (pricing_for_stage catalog selection))
            (completing stage detail usage expected)
            r
            t)
unfolding finish_stage set_stage
finish-write later catalog selection file stage detail usage expected t r e g = rw e (rw g refl)

begun-is_run :
    (now : ℕ) (file : String) (stage : StageName) (t : Tables)
    → is_run file stage (begun now file stage t) ≡ true
begun-is_run now file stage t =
    let r = run_of file stage t.runs in
    changed_run-is_run now (beginning stage r) file stage (begun_run now r)
    ∙ is_run-run_of file stage t.runs

begun-attempts :
    (now : ℕ) (file : String) (stage : StageName) (t : Tables)
    → (begun now file stage t).run.attempts ≡ (run_of file stage t.runs).run.attempts + 1
begun-attempts now file stage t =
    let r = run_of file stage t.runs in
    (changed_run_keeps now (beginning stage r) (begun_run now r)).2

begun-generation :
    (now : ℕ) (file : String) (stage : StageName) (t : Tables)
    → (begun now file stage t).generation ≡ (run_of file stage t.runs).generation
unfolding changed_run
begun-generation now file stage t = refl

ended-is_ended :
    (later : ℕ) (c : Change) (held cost : ℕ) (file : String) (stage : StageName) (n : ℕ)
    (a : Attempt)
    → (is_ended file stage n (ended later c held cost a) ≡ false)
      × ((ended later c held cost a).row.id ≡ a.row.id)
unfolding ended
ended-is_ended later c held cost file stage n a = (ground arith, refl)

-- The end of an attempt leaves none with its number running.
end_attempt-free :
    (later cost : ℕ) (file : String) (stage : StageName) (c : Change) (a : Attempt)
    (l : List Attempt) (t : Tables) (n : ℕ)
    → t.attempts ≡ l ++ a ∷ []
    → any (is_ended file stage n) l ≡ false
    → any (is_ended file stage n) (end_attempt later c cost a t).attempts ≡ false
unfolding end_attempt
end_attempt-free later cost file stage c a l t n e free =
    let held = reservation_total a.row.dispatch_reservation_ids (ledger t) in
    let new = ended later c held cost a in
    let (closed, same) = ended-is_ended later c held cost file stage n a in
    subst (λ k. any (is_ended file stage n) (put_attempt new k) ≡ false) (sym e)
      (put_attempt-last (is_ended file stage n) new a l free closed same)

finish-stale :
    (later : ℕ) (catalog : Catalog) (selection : Option Selection) (file : String)
    (stage : StageName) (detail : NewDetail) (usage : Usage) (expected : Option String) (t : Tables)
    → same_generation (run_of file stage t.runs).generation expected ≡ false
    → finish_stage later catalog selection file stage detail usage expected t ≡ none
unfolding finish_stage set_stage
finish-stale later catalog selection file stage detail usage expected t e = rw e refl

-- A stage that is begun and then finished on the generation of inputs that it began with, with
-- nothing between, is completed: its run has one attempt more, no error and the time of the end, and
-- no attempt with that number is left running. At a time when the run has another generation, on any
-- tables, the stage cannot be finished. The condition is that no attempt with the next number is
-- running already.
pub begin-finish :
    (now id later : ℕ) (catalog : Catalog) (selection : Option Selection) (file : String)
    (stage : StageName) (detail : NewDetail) (usage : Usage) (t : Tables)
    → let n = (run_of file stage t.runs).run.attempts + 1 in
      let (g, t1) = begin_stage now id catalog selection file stage t in
      any (is_ended file stage n) t.attempts ≡ false
      → ((t' : Tables) × (finish_stage later catalog selection file stage detail usage g t1
            ≡ some t')
          × ((run_of file stage t'.runs).run.status ≡ completed)
          × ((run_of file stage t'.runs).run.attempts ≡ n)
          × ((run_of file stage t'.runs).run.error ≡ none)
          × ((run_of file stage t'.runs).run.completed_at ≡ some later)
          × (any (is_ended file stage n) t'.attempts ≡ false))
        × ((other : Tables)
            → same_generation (run_of file stage other.runs).generation g ≡ false
            → finish_stage later catalog selection file stage detail usage g other ≡ none)
unfolding begin_stage changed_run end_attempt
begin-finish now id later catalog selection file stage detail usage t free = (
  (
    after,
    finish-write later catalog selection file stage detail usage g t1 r1
          (begun-run_of now id catalog selection file stage t)
          (rw (begun-generation now file stage t) (same_generation_refl g))
        ∙ ap some (write_closed later 0 file cost c r1 t1 a refl refl found),
    rw last refl,
    rw last (changed_run_keeps later c r1).2 ∙ begun-attempts now file stage t,
    rw last refl,
    rw last refl,
    end_attempt-free later cost file stage c a t.attempts written n
        (ap (λ (m : Tables). m.attempts) (begun-tables now id catalog selection file stage t)) free,
  ),
  λ other e. finish-stale later catalog selection file stage detail usage g other e,
)
  where
    n : ℕ
    n = (run_of file stage t.runs).run.attempts + 1

    g : Option String
    g = (run_of file stage t.runs).generation

    t1 : Tables
    t1 = (begin_stage now id catalog selection file stage t).1

    r1 : Run
    r1 = begun now file stage t

    a : Attempt
    a = attempt_begun now id file stage t

    c : Change
    c = completing stage detail usage g

    cost : ℕ
    cost = estimate_cost (normalize_usage usage) (pricing_for_stage catalog selection)

    written : Tables
    written = record t1 { runs = put_run file stage (changed_run later c r1) t1.runs }

    after : Tables
    after = end_attempt later c cost a written

    found : find? (is_ended file stage r1.run.attempts) t1.attempts ≡ some a
    found =
        rw (begun-attempts now file stage t)
          (begun-attempt now id catalog selection file stage t free)

    last : run_of file stage after.runs ≡ changed_run later c r1
    last = written-run later c file stage r1 t1.runs (begun-is_run now file stage t)
