-- ===== src/Pipeline/Queueing.antt =====
-- The bulk queue against the daemon's selection: which rows it changes, and what becomes of them.
use localplaud.Prelude.{
  ℕ, ◌≤◌, ◌≡◌, refl, ◌∙◌, Bool, true, false, ◌&&◌, inl, inr, none, some, List, ◌++◌, map, arith,
  any, find?, any-append, any-map, any-map_some, find?-any, Bool-cases, Option-cases,
}
use localplaud.Pipeline.Recording.{
  StageName, summarize, mind_map, outline, index, StageRun, PlaudFile,
}
use localplaud.Pipeline.Claims.{processing_claim_active, is_mind_map}
use localplaud.Pipeline.Retry.{reset_pipeline_retry, retry_not_due}
use localplaud.Pipeline.Scope.{
  QueueSettings, is_queueable, derived_scope, is_outline, is_transcribed_run, is_overlong,
  is_filtered, is_derived_only_run, outline_pending, narrow_scope, is_waiting, scope_when_due,
  pending_scope,
}
use localplaud.Pipeline.Reprocess.{
  Mode, resume, force, derived_only, queue_row, derived_runs, added, stale_run, missing_run,
  is_summarize, is_index, due_now,
}

-- No outline retry is pending on its own: the daemon would take that first.
abbrev pub outline_only_run : StageRun → Bool
outline_only_run run = is_outline run.stage && run.detail.outline_only

outline_free :
    (row : PlaudFile) → any outline_only_run row.stage_runs ≡ false → outline_pending row ≡ none
outline_free row h = elim (Option-cases (find? (λ run. is_outline run.stage) row.stage_runs)) [
  | inl e ↦ rw (e, outline_pending) refl
  | inr (run, e) ↦
      let no =
        find?-any (λ run. is_outline run.stage) (λ run. run.detail.outline_only) row.stage_runs run
          h e in
      rw (e, no, outline_pending) refl
]

-- What the daemon does with a row that holds no claim and passes the filters.
pub pending_scope-open :
    (settings : QueueSettings) (now : ℕ) (row : PlaudFile)
    → processing_claim_active now row ≡ false
    → any outline_only_run row.stage_runs ≡ false
    → is_queueable row.status ≡ true
    → is_filtered settings now row ≡ false
    → is_overlong settings row ≡ false
    → pending_scope settings now row ≡ scope_when_due settings now row (narrow_scope row)
unfolding pending_scope
pending_scope-open settings now row c o s f v =
    rw (c, outline_free row o, s, f, v, pending_scope) refl

added-test :
    (test : StageRun → Bool) (is_stage : StageName → Bool) (stage : StageName)
    (runs : List StageRun)
    → test (missing_run stage) ≡ false
    → any test (added is_stage stage runs) ≡ false
unfolding added
added-test test is_stage stage runs h = ground arith

-- A test that neither the marking nor the new runs change.
derived_runs-test :
    (test : StageRun → Bool) (runs : List StageRun)
    → ((run : StageRun) → test (stale_run run) ≡ test run)
    → test (missing_run summarize) ≡ false
    → test (missing_run mind_map) ≡ false
    → test (missing_run outline) ≡ false
    → test (missing_run index) ≡ false
    → any test (derived_runs runs) ≡ any test runs
unfolding derived_runs
derived_runs-test test runs same s m o i =
    let tail1 = any-append test (added is_outline outline runs) (added is_index index runs) in
    let tail2 =
      any-append test (added is_mind_map mind_map runs)
        (added is_outline outline runs ++ added is_index index runs) in
    let tail3 = any-append test (added is_summarize summarize runs) (
      added is_mind_map mind_map runs
      ++ (added is_outline outline runs ++ added is_index index runs)) in
    let whole = any-append test (map stale_run runs) (
      added is_summarize summarize runs
      ++ (added is_mind_map mind_map runs
          ++ (added is_outline outline runs ++ added is_index index runs))) in
    ground (
      arith,
      whole,
      tail3,
      tail2,
      tail1,
      any-map test test stale_run runs same,
      added-test test is_summarize summarize runs s,
      added-test test is_mind_map mind_map runs m,
      added-test test is_outline outline runs o,
      added-test test is_index index runs i,
    )

-- The summary at least is marked for regeneration.
derived_runs-marked : (runs : List StageRun) → any is_derived_only_run (derived_runs runs) ≡ true
unfolding derived_runs added
derived_runs-marked runs =
    rw
      (any-append is_derived_only_run (map stale_run runs) (
        added is_summarize summarize runs
        ++ (added is_mind_map mind_map runs
            ++ (added is_outline outline runs ++ added is_index index runs))))
      (elim (Bool-cases (any (λ run. is_summarize run.stage) runs)) [
        | inl e ↦
            rw
              (any-map_some (λ run. is_summarize run.stage) is_derived_only_run stale_run runs
                (λ run h. ground arith) e)
              refl
        | inr e ↦ rw e (ground arith)
      ])

-- A row queued for regeneration has a run that it had not, or one that was reset.
module _ (settings : QueueSettings) (now later : ℕ) (row : PlaudFile) where
  -- Queueing leaves the claim columns as they were.
  pub queue_row-claim :
      (mode : Mode)
      → processing_claim_active later (queue_row now mode row) ≡ processing_claim_active later row
  unfolding queue_row reset_pipeline_retry
  queue_row-claim resume = refl
  queue_row-claim force = refl
  queue_row-claim derived_only = refl

  -- It is due from the moment of queueing on.
  due_now-due :
      now ≤ later
      → retry_not_due
          (due_now now row).pipeline_retry_count
          (due_now now row).pipeline_next_retry_at
          settings.retry
          later
        ≡ false
  unfolding retry_not_due
  due_now-due le = ground arith

regenerated_outline :
    (now : ℕ) (row : PlaudFile)
    → any outline_only_run (queue_row now derived_only row).stage_runs
      ≡ any outline_only_run row.stage_runs
unfolding queue_row
regenerated_outline now row =
    derived_runs-test outline_only_run row.stage_runs (λ run. ground arith) refl refl refl refl

regenerated_length :
    (settings : QueueSettings) (now : ℕ) (row : PlaudFile)
    → is_overlong settings (queue_row now derived_only row) ≡ is_overlong settings row
unfolding queue_row is_overlong reset_pipeline_retry
regenerated_length settings now row =
    rw
      (
        derived_runs-test is_transcribed_run row.stage_runs (λ run. ground arith) refl refl refl
            refl,
        is_overlong,
        queue_row,
      )
      refl

regenerated_due :
    (settings : QueueSettings) (now later : ℕ) (row : PlaudFile)
    → now ≤ later
    → scope_when_due settings later
        (queue_row now derived_only row)
        (narrow_scope (queue_row now derived_only row))
      ≡ some derived_scope
unfolding queue_row narrow_scope scope_when_due is_waiting
regenerated_due settings now later row le =
    rw (derived_runs-marked row.stage_runs)
      (rw (due_now-due settings now later row le, is_waiting, scope_when_due) (ground arith))

-- A recording that is queued for regeneration is selected for exactly that, from then on and for
-- as long as no claim holds it, provided that no outline retry is pending, that the backfill
-- pause is off and that the length cap admits it.
pub queue-derived_only :
    (settings : QueueSettings) (now later : ℕ) (row : PlaudFile)
    → now ≤ later
    → processing_claim_active later row ≡ false
    → any outline_only_run row.stage_runs ≡ false
    → settings.auto_process_untranscribed_only ≡ false
    → is_overlong settings row ≡ false
    → pending_scope settings later (queue_row now derived_only row) ≡ some derived_scope
queue-derived_only settings now later row le free o auto long =
    pending_scope-open settings later (queue_row now derived_only row)
      (queue_row-claim settings now later row derived_only ∙ free) (regenerated_outline now row ∙ o)
      (unfold queue_row in refl) (unfold is_filtered in rw auto refl)
      (regenerated_length settings now row ∙ long)
    ∙ regenerated_due settings now later row le
