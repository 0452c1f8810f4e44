-- ===== src/Pipeline/Forcing.antt =====
-- A forced queueing against the daemon's selection.
use localplaud.Prelude.{
  ℕ, ◌≡◌, ◌≢◌, refl, ap, ◌∙◌, Bool, false, ◌&&◌, inl, inr, none, some, arith, any, any-map,
  any-map_none, Option-cases, if◌then◌else◌,
}
use localplaud.Pipeline.Recording.{StageRun, PlaudFile}
use localplaud.Pipeline.Claims.{processing_claim_active, is_mind_map}
use localplaud.Pipeline.Retry.{reset_pipeline_retry}
use localplaud.Pipeline.Scope.{
  QueueSettings, Scope, is_derived, derived_scope, mind_map_scope, full_scope, is_transcribed_run,
  is_overlong, is_filtered, is_derived_only_run, is_mind_map_only_run, narrow_scope,
  resumes_from_transcript, scope_when_due, pending_scope,
}
use localplaud.Pipeline.Reprocess.{force, queue_row, unfinished}
use localplaud.Pipeline.Queueing.{outline_only_run, pending_scope-open, queue_row-claim}

forced_outline :
    (now : ℕ) (row : PlaudFile)
    → any outline_only_run (queue_row now force row).stage_runs
      ≡ any outline_only_run row.stage_runs
unfolding queue_row
forced_outline now row =
    any-map outline_only_run outline_only_run unfinished row.stage_runs (λ run. refl)

abbrev pub has_derived_flag : StageRun → Bool
has_derived_flag run = is_derived run.stage && run.detail.derived_only

abbrev pub has_mind_map_flag : StageRun → Bool
has_mind_map_flag run = is_mind_map run.stage && run.detail.mind_map_only

-- The scope that flags left by an earlier, narrower request impose.
abbrev pub imposed : PlaudFile → Scope
imposed row =
    if any has_derived_flag row.stage_runs
    then derived_scope
    else if any has_mind_map_flag row.stage_runs
    then mind_map_scope
    else full_scope

forced_scope : (now : ℕ) (row : PlaudFile) → narrow_scope (queue_row now force row) ≡ imposed row
unfolding queue_row narrow_scope resumes_from_transcript
forced_scope now row =
    rw
      (
        any-map has_derived_flag is_derived_only_run unfinished row.stage_runs
            (λ run. ground arith),
        any-map has_mind_map_flag is_mind_map_only_run unfinished row.stage_runs
            (λ run. ground arith),
        any-map_none is_transcribed_run unfinished row.stage_runs (λ run. ground arith),
      )
      (ground arith)

forced_due :
    (settings : QueueSettings) (now later : ℕ) (row : PlaudFile)
    → row.audio_path ≢ none
    → scope_when_due settings later
        (queue_row now force row)
        (narrow_scope (queue_row now force row))
      ≡ some (narrow_scope (queue_row now force row))
unfolding queue_row scope_when_due reset_pipeline_retry
forced_due settings now later row audio = elim (Option-cases row.audio_path) [
  | inl e ↦ elim (audio e) [ ]
  | inr (path, e) ↦ rw e refl
]

-- A recording that is queued with the mode force is selected at the scope its stage runs were
-- flagged for before: only the later stages, or only the mind map, while an earlier such request is
-- on record, and in full otherwise. The conditions are that no claim on it is live at that time,
-- that no outline retry is pending, that its audio is there, that the backfill pause is off and
-- that the length cap admits it.
pub queue-force :
    (settings : QueueSettings) (now later : ℕ) (row : PlaudFile)
    → processing_claim_active later row ≡ false
    → any outline_only_run row.stage_runs ≡ false
    → settings.auto_process_untranscribed_only ≡ false
    → is_overlong settings (queue_row now force row) ≡ false
    → row.audio_path ≢ none
    → pending_scope settings later (queue_row now force row) ≡ some (imposed row)
queue-force settings now later row free o auto long audio =
    pending_scope-open settings later (queue_row now force row)
      (queue_row-claim settings now later row force ∙ free) (forced_outline now row ∙ o)
      (unfold queue_row in refl) (unfold is_filtered in rw auto refl) long
    ∙ (forced_due settings now later row audio ∙ ap some (forced_scope now row))
