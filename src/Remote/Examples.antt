-- ===== src/Remote/Examples.antt =====
-- Runs of the worker: a transcription that is submitted, cancelled, failed and submitted again.
use localplaud.Prelude.{map, find, ◌≡◌, refl, true, false, none, some, [], ◌∷◌, find}
use localplaud.Remote.Job.{
  drop_value, worker_error, transcribe, failed, JobOptions, JobSubmitRequest, RemoteJob, Outcome,
  raised, asr_resource, new_job, worker_error,
}
use localplaud.Remote.Server.{begin_row, get, begin_execution, begin_row, settle_execution}
use localplaud.Remote.Submit.{submit_job, insert_job, has_supported_prompts, answered, response}
use localplaud.Remote.World.{
  World, empty, Reach, here, next, submit, begin, settle, IsSound, Reach-IsSound,
}
use localplaud.Remote.Promises.{settle_lem, verdict, results}
use localplaud.Remote.Retries.{submit_retry}

abbrev plain : JobOptions
plain = record {
  title_only = false;
  prompt_version = none;
  note_prompt_version = none;
  title_prompt_version = none;
  maintenance_deferred = false;
}

abbrev request : JobSubmitRequest
request = record {
  idempotency_key = "k1";
  stage = transcribe;
  model = none;
  inputs =
      record { name = "audio"; media_type = "audio/wav"; value = some "UklGRg=="; sha256 = none }
      ∷ [];
  options = plain;
}

abbrev submitted : World
submitted = record empty { ledger = (submit_job "j1" (λ l. l) request []).1 }

to_submitted : Reach empty submitted
to_submitted = next here (submit empty "j1" request)

abbrev begun : World
begun = record { ledger = (begin_execution 10 "j1" submitted.ledger).1; executing = some "j1" }

to_begun : Reach empty begun
unfolding submit_job insert_job new_job has_supported_prompts begin_execution begin_row find
to_begun = next to_submitted (begin submitted 10 "j1" refl)

abbrev crashed_stage : Outcome
crashed_stage = raised asr_resource "killed"

abbrev after_failure : World
after_failure = record {
  ledger = settle_execution 20 "j1" crashed_stage begun.ledger;
  executing = none;
}

to_after_failure : Reach empty after_failure
to_after_failure = next to_begun (settle begun 20 "j1" crashed_stage refl)

Reach-IsSound_example : IsSound after_failure
Reach-IsSound_example = Reach-IsSound to_after_failure

settle_lem_example :
    (before after : RemoteJob) × (get "j1" begun.ledger ≡ some before)
    × (get "j1" (settle_execution 20 "j1" crashed_stage begun.ledger) ≡ some after)
    × (after.status ≡ verdict before.cancel_requested crashed_stage)
    × (after.artifacts ≡ results before.cancel_requested crashed_stage)
    × (after.input_manifest.input_payloads_released ≡ true)
settle_lem_example = settle_lem begun 20 "j1" crashed_stage (Reach-IsSound to_begun) refl

submit_retry_example :
    submit_job "j2" (λ l. l) request submitted.ledger
    ≡ (answered (response (new_job "j1" request)) false, submitted.ledger)
unfolding submit_job insert_job has_supported_prompts find
submit_retry_example =
    submit_retry "j1" "j2" (λ l. l) request [] (response (new_job "j1" request)) true
      (Reach-IsSound here).safe refl

abbrev failed_row : RemoteJob
failed_row = record (new_job "j1" request) {
  status = failed;
  progress = 100;
  input_manifest = record {
    request = record request { inputs = map drop_value request.inputs };
    input_payloads_released = true;
  };
  error = some (worker_error asr_resource "killed");
  attempts = 1;
  started_at = some 10;
  completed_at = some 20;
}
