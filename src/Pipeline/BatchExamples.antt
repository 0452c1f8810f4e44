-- ===== src/Pipeline/BatchExamples.antt =====
-- Batches of the daemon over a new recording, a full retry and one that waits for its notes.
use localplaud.Prelude.{◌≡◌, ◌⊎◌, find, true, arith, refl, false, some, [], ◌∷◌}
use localplaud.Pipeline.Recording.{PlaudFile, file_id, downloaded, error}
use localplaud.Pipeline.Retry.{retry_not_due}
use localplaud.Pipeline.Scope.{
  pending_scope, is_filtered, is_overlong, narrow_scope, resumes_from_transcript, scope_when_due,
  is_waiting, full_scope, is_downloaded,
}
use localplaud.Pipeline.Dispatch.{items, batch, starts, new_recordings_waiting}
use localplaud.Pipeline.Starting.{IsWaiting, starts_lem}
use localplaud.Pipeline.Batching.{Leads, batch-Leads}
use localplaud.Pipeline.Sharing.{IsShared, batch-IsShared}
use localplaud.Pipeline.Examples.{recording, settings}

abbrev unheard : PlaudFile
unheard = record recording {
  id = "r3";
  status = error;
  has_local_transcript = false;
  stage_runs = [];
}

abbrev new : PlaudFile
new = record unheard { id = "r4"; status = downloaded; start_time_ms = some 7 }

batch-Leads_example : Leads (batch settings 1000 (some 2) (recording ∷ unheard ∷ new ∷ []))
unfolding items pending_scope is_filtered is_overlong narrow_scope resumes_from_transcript
    scope_when_due is_waiting retry_not_due
batch-Leads_example =
    batch-Leads settings 1000 (some 2) (recording ∷ unheard ∷ new ∷ []) refl (λ e. cc)

batch-IsShared_example : IsShared (batch settings 1000 (some 2) (recording ∷ unheard ∷ []))
unfolding items pending_scope is_filtered is_overlong narrow_scope resumes_from_transcript
    scope_when_due is_waiting retry_not_due
batch-IsShared_example =
    batch-IsShared settings 1000 2 (recording ∷ unheard ∷ []) refl (omega arith) refl refl

abbrev newer : PlaudFile
newer = record new { id = "r5"; start_time_ms = some 8 }

starts_lem_example :
    (row : PlaudFile) × (find file_id "r4" (recording ∷ new ∷ newer ∷ []) ≡ some row)
    × (pending_scope settings 1000 row ≡ some full_scope)
    × ((is_downloaded row.status ≡ true) ⊎ ¬ IsWaiting settings 1000 (recording ∷ new ∷ newer ∷ []))
unfolding starts new_recordings_waiting find pending_scope is_filtered is_overlong narrow_scope
    resumes_from_transcript scope_when_due is_waiting retry_not_due
starts_lem_example = starts_lem settings 1000 (recording ∷ new ∷ newer ∷ []) "r4" full_scope refl
