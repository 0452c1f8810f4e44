-- ===== src/Pipeline/CycleExamples.antt =====
-- Narrow cycles over a recording in processing, whose work raises.
use localplaud.Prelude.{◌≡◌, refl, inl, inr, none, some, str_eq, [], ◌∷◌, find}
use localplaud.Pipeline.Recording.{processing, error, PlaudFile, Library, file_id}
use localplaud.Pipeline.Claims.{ok, ProcessingClaim, assert_processing_claim, check_claim}
use localplaud.Pipeline.Retry.{retry_delay_seconds, schedule_pipeline_retry}
use localplaud.Pipeline.Scope.{pending_scope, narrow_scope, is_filtered, is_overlong}
use localplaud.Pipeline.Cycle.{Worked, raised}
use localplaud.Pipeline.Release.{unless, before_deadline}
use localplaud.Pipeline.Narrow.{
  process_derived_artifacts, made, take_claim, checked, narrow_cycle, process_mind_map_only,
  fail_mind_map_row,
}
use localplaud.Pipeline.Freed.{IsFree, narrow-IsFree}
use localplaud.Pipeline.Failing.{failed_row, failing-retried}
use localplaud.Pipeline.Examples.{recording, settings}

abbrev busy : PlaudFile
busy = record recording {
  status = processing;
  processing_token = some "t1";
  processing_lease_until = some 5000;
}

abbrev claim : ProcessingClaim
claim = record { file = "r1"; token = "t1" }

abbrev failing : Library → Worked
failing l = raised "index: failed" l

abbrev rebuilt : Library
rebuilt =
    narrow_cycle (some "t1") claim 10 40 (fail_mind_map_row 40 settings.retry) failing (busy ∷ [])

narrow-IsFree_example : IsFree "t1" "r1" rebuilt
unfolding process_mind_map_only take_claim
narrow-IsFree_example =
    narrow-IsFree 1 10 40 settings.retry (λ path. str_eq path "/audio/r1.ogg") (some "t1") "t9" "r1"
      failing made (busy ∷ []) rebuilt (inr (inl refl))

failing-retried_example :
    let r = failed_row 40 settings.retry "index: failed" busy in
    (after : Library) × (process_derived_artifacts 1 10 settings.retry
        (λ path. str_eq path "/audio/r1.ogg")
        (some "t1")
        "t9"
        "r1"
        40
        failing
        (busy ∷ [])
      ≡ ok after)
    × (find file_id "r1" after ≡ some r)
    × (r.status ≡ error)
    × (r.error ≡ some "index: failed")
    × (r.processing_token ≡ none)
    × (pending_scope settings 600 r
        ≡ unless (before_deadline 600 40 (retry_delay_seconds 3 settings.retry)) (narrow_scope r))
unfolding take_claim checked assert_processing_claim check_claim find is_filtered is_overlong
    narrow_scope schedule_pipeline_retry
failing-retried_example =
    failing-retried settings 1 (λ path. str_eq path "/audio/r1.ogg") (some "t1") "t9" "r1" claim 10
      40 600 failing "index: failed" (busy ∷ []) (busy ∷ []) (busy ∷ []) (busy ∷ []) busy refl refl
      refl refl refl refl refl refl (λ e. cc) (λ e. cc) refl refl
