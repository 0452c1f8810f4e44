-- ===== src/Pipeline/Scope.antt =====
-- What the daemon may do with a recording now: worker/pipeline.py, `_recently_transcribed` and
-- `_pending_scope`.
use localplaud.Prelude.{
  ℕ, ◌+◌, ◌*◌, Bool, true, false, not, ◌&&◌, ◌||◌, Option, none, some, List, [], ◌∷◌, leb, find?,
  any, all, keep, if◌then◌else◌,
}
use localplaud.Pipeline.Recording.{
  FileStatus, downloaded, partial, error, StageName, convert, transcribe, align, diarize, correct,
  summarize, mind_map, outline, index, StageStatus, completed, skipped, StageRun, PlaudFile,
}
use localplaud.Pipeline.Claims.{processing_claim_active, is_some, is_mind_map}
use localplaud.Pipeline.Retry.{RetrySettings, second, retry_not_due}

-- The settings of PipelineConfig that select work.
pub record QueueSettings : Type 0 where
  pub retry : RetrySettings
  pub untranscribed_only_retry_hours : ℕ
  pub auto_process_untranscribed_only : Bool
  pub auto_skip_threshold_ms : Option ℕ

pub data Scope : Type 0 where
  outline_scope derived_scope mind_map_scope full_scope : Scope

abbrev pub is_completed : StageStatus → Bool
is_completed completed = true
is_completed _ = false

abbrev pub is_completed_or_skipped : StageStatus → Bool
is_completed_or_skipped completed = true
is_completed_or_skipped skipped = true
is_completed_or_skipped _ = false

abbrev pub is_transcribe : StageName → Bool
is_transcribe transcribe = true
is_transcribe _ = false

abbrev pub is_outline : StageName → Bool
is_outline outline = true
is_outline _ = false

abbrev pub is_speech : StageName → Bool
is_speech convert = true
is_speech transcribe = true
is_speech align = true
is_speech diarize = true
is_speech _ = false

-- `derived_stages`
abbrev pub is_derived : StageName → Bool
is_derived correct = true
is_derived summarize = true
is_derived mind_map = true
is_derived outline = true
is_derived index = true
is_derived _ = false

abbrev pub is_downloaded : FileStatus → Bool
is_downloaded downloaded = true
is_downloaded _ = false

abbrev pub is_queueable : FileStatus → Bool
is_queueable downloaded = true
is_queueable error = true
is_queueable partial = true
is_queueable _ = false

abbrev hour : ℕ
hour = 3600 * second

-- The loop of `_recently_transcribed`.
unfoldable pub recent_run : ℕ → ℕ → List StageRun → Bool
recent_run hours now [] = false
recent_run hours now (run ∷ runs) =
    let rest = recent_run hours now runs in
    if not (is_transcribe run.stage) || not (is_completed run.status)
    then rest
    else elim run.completed_at [ none ↦ rest | some at ↦ leb now (at + hours * hour) ]

-- `_recently_transcribed`
unfoldable pub recently_transcribed : QueueSettings → ℕ → PlaudFile → Bool
recently_transcribed settings now row =
    if leb settings.untranscribed_only_retry_hours 0
    then false
    else recent_run settings.untranscribed_only_retry_hours now row.stage_runs

abbrev pub is_transcribed_run : StageRun → Bool
is_transcribed_run run = is_transcribe run.stage && is_completed run.status

abbrev pub has_transcribed : PlaudFile → Bool
has_transcribed row = any is_transcribed_run row.stage_runs

-- A historical recording that `auto_process_untranscribed_only` leaves alone.
unfoldable pub is_filtered : QueueSettings → ℕ → PlaudFile → Bool
is_filtered settings now row =
    settings.auto_process_untranscribed_only
    && (row.has_local_transcript || has_transcribed row)
    && not (recently_transcribed settings now row)

-- threshold_ms is not None and row.duration_ms is not None and row.duration_ms >= threshold_ms
abbrev pub over_threshold : Option ℕ → Option ℕ → Bool
over_threshold none duration = false
over_threshold (some threshold) none = false
over_threshold (some threshold) (some duration) = leb threshold duration

-- A recording at or over the length cap that was never transcribed.
unfoldable pub is_overlong : QueueSettings → PlaudFile → Bool
is_overlong settings row =
    not row.process_overlong
    && over_threshold settings.auto_skip_threshold_ms row.duration_ms
    && not (has_transcribed row)

abbrev pub is_derived_only_run : StageRun → Bool
is_derived_only_run run =
    is_derived run.stage && run.detail.derived_only && not (is_completed run.status)

abbrev pub is_mind_map_only_run : StageRun → Bool
is_mind_map_only_run run =
    is_mind_map run.stage && run.detail.mind_map_only && not (is_completed run.status)

abbrev is_speech_run : StageRun → Bool
is_speech_run run = is_speech run.stage

-- Speech is finished and a later stage is not.
unfoldable pub resumes_from_transcript : PlaudFile → Bool
resumes_from_transcript row =
    row.has_local_transcript
    && has_transcribed row
    && all (λ run. is_completed_or_skipped run.status) (keep is_speech_run row.stage_runs)
    && any (λ run. is_derived run.stage && not (is_completed run.status)) row.stage_runs

-- The test of a pending outline: it is retried alone.
abbrev pub outline_pending : PlaudFile → Option StageRun
outline_pending row = elim (find? (λ run. is_outline run.stage) row.stage_runs) [
  | none ↦ none
  | some run ↦ if run.detail.outline_only && not (is_completed run.status) then some run else none
]

unfoldable pub outline_due : QueueSettings → ℕ → PlaudFile → StageRun → Option Scope
outline_due settings now row run =
    if row.is_trash
      || retry_not_due run.detail.outline_retry_count run.detail.outline_next_retry_at
          settings.retry now
    then none
    else some outline_scope

-- `derived_only` and `mind_map_only` of `_pending_scope`.
unfoldable pub narrow_scope : PlaudFile → Scope
narrow_scope row =
    if any is_derived_only_run row.stage_runs
    then derived_scope
    else if any is_mind_map_only_run row.stage_runs
    then mind_map_scope
    else if resumes_from_transcript row
    then derived_scope
    else full_scope

-- The backoff that holds a retry of this scope back: the mind map has its own.
unfoldable pub is_waiting : QueueSettings → ℕ → PlaudFile → Scope → Bool
is_waiting settings now row mind_map_scope =
    elim (find? (λ run. is_mind_map run.stage && run.detail.mind_map_only) row.stage_runs) [
      | none ↦ false
      | some run ↦
          retry_not_due run.detail.mind_map_retry_count run.detail.mind_map_next_retry_at
            settings.retry now
    ]
is_waiting settings now row _ =
    retry_not_due row.pipeline_retry_count row.pipeline_next_retry_at settings.retry now

abbrev pub needs_audio : Scope → Bool
needs_audio full_scope = true
needs_audio _ = false

unfoldable pub scope_when_due : QueueSettings → ℕ → PlaudFile → Scope → Option Scope
scope_when_due settings now row scope =
    if not (is_downloaded row.status) && is_waiting settings now row scope
    then none
    else if not (is_some row.audio_path) && needs_audio scope
    then none
    else some scope

-- `_pending_scope`
unfoldable pub pending_scope : QueueSettings → ℕ → PlaudFile → Option Scope
pending_scope settings now row =
    if processing_claim_active now row then none else elim (outline_pending row) [
      | some run ↦ outline_due settings now row run
      | none ↦
          if not (is_queueable row.status)
            || is_filtered settings now row
            || is_overlong settings row
          then none
          else scope_when_due settings now row (narrow_scope row)
    ]
