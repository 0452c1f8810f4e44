-- ===== src/Pipeline/Failing.antt =====
-- A cycle for the notes alone whose work raises: the row that it leaves, and what the daemon makes of it.
use mathlib.Core.Path.{subst}
use localplaud.Prelude.{
  ℕ, ◌+◌, String, ◌≡◌, ◌≢◌, refl, sym, ap, ◌∙◌, Bool, true, false, Option, none, some, any, by_test,
  find, put, find-put, find-key, eq_refl, eq_iff,
}
use localplaud.Pipeline.Recording.{error, PlaudFile, Library, file_id}
use localplaud.Pipeline.Claims.{
  ok, ProcessingClaim, has_token, unclaimed, release_processing, check_claim,
  assert_processing_claim, processing_claim_active,
}
use localplaud.Pipeline.Recovery.{is_processing}
use localplaud.Pipeline.Retry.{
  RetrySettings, retry_delay_seconds, schedule_pipeline_retry, retry_not_due, schedule-due,
}
use localplaud.Pipeline.Scope.{
  QueueSettings, mind_map_scope, is_filtered, is_overlong, narrow_scope, pending_scope,
}
use localplaud.Pipeline.Queueing.{outline_only_run, pending_scope-open}
use localplaud.Pipeline.Cycle.{committed, Worked, raised, fail_row}
use localplaud.Pipeline.Release.{unless, before_deadline, waits}
use localplaud.Pipeline.Narrow.{
  checked, recorded, narrow_cycle, take_claim, derived_request, process_derived_artifacts,
}

-- The row of a recording whose work raised.
abbrev pub failed_row : ℕ → RetrySettings → String → PlaudFile → PlaudFile
failed_row now s message row =
    unclaimed (schedule_pipeline_retry now s (record row { status = error; error = some message }))

fail_row-processing :
    (now : ℕ) (s : RetrySettings) (message : String) (row : PlaudFile)
    → is_processing row.status ≡ true
    → unclaimed (fail_row now s message row) ≡ failed_row now s message row
unfolding fail_row
fail_row-processing now s message row h = rw h refl

fail_row_keeps :
    (now : ℕ) (s : RetrySettings) (message token : String) (row : PlaudFile)
    → let r = fail_row now s message row in
      (r.id ≡ row.id) × (has_token token r ≡ has_token token row)
unfolding fail_row schedule_pipeline_retry
fail_row_keeps now s message token row =
    by_test (λ r. (r.id ≡ row.id) × (has_token token r ≡ has_token token row))
      (is_processing row.status) (λ _. (refl, refl)) (λ _. (refl, refl))

-- A write under a claim that still holds.
committed-held :
    (active : ProcessingClaim) (now : ℕ) (change : PlaudFile → PlaudFile) (l : Library)
    (row : PlaudFile)
    → find file_id active.file l ≡ some row
    → has_token active.token row ≡ true
    → processing_claim_active now row ≡ true
    → committed active now change l ≡ ok (put file_id (change row) l)
unfolding committed assert_processing_claim check_claim
committed-held active now change l row f mine live =
    rw (eq_refl active.file, f, committed, assert_processing_claim)
      (rw (mine, live, check_claim) refl)

put_found :
    (id : String) (l : Library) (row new : PlaudFile)
    → find file_id id l ≡ some row
    → new.id ≡ row.id
    → find file_id id (put file_id new l) ≡ some new
put_found id l row new f same =
    let key = same ∙ find-key file_id id l row f in
    rw
      (
        find-put file_id id new l row (subst (λ k. find file_id k l ≡ some row) (sym key) f),
        (eq_iff new.id id).1 key,
      )
      refl

release-found :
    (id token : String) (l : Library) (row new : PlaudFile)
    → find file_id id l ≡ some row
    → new.id ≡ row.id
    → has_token token new ≡ true
    → find file_id id (release_processing id token (put file_id new l)) ≡ some (unclaimed new)
unfolding release_processing
release-found id token l row new f same mine =
    let here = put_found id l row new f same in
    rw (here, release_processing)
      (rw mine (put_found id (put file_id new l) new (unclaimed new) here refl))

-- The row that the cycle leaves.
failing-stored :
    (s : RetrySettings) (given : Option String) (active : ProcessingClaim) (now ends : ℕ)
    (work : Library → Worked) (message : String) (l held m : Library) (row : PlaudFile)
    → checked given active now l ≡ ok held
    → work held ≡ raised message m
    → find file_id active.file m ≡ some row
    → has_token active.token row ≡ true
    → processing_claim_active ends row ≡ true
    → is_processing row.status ≡ true
    → find file_id active.file (narrow_cycle given active now ends (fail_row ends s) work l)
      ≡ some (failed_row ends s message row)
unfolding narrow_cycle recorded
failing-stored s given active now ends work message l held m row c w f mine live busy =
    let change = fail_row ends s message in
    rw (c, narrow_cycle)
      (rw (w, recorded)
        (rw (committed-held active ends change m row f mine live, recorded)
          (release-found active.file active.token m row (change row) f
              (fail_row_keeps ends s message active.token row).0
              ((fail_row_keeps ends s message active.token row).1 ∙ mine)
            ∙ ap some (fail_row-processing ends s message row busy))))

failed-due :
    (settings : QueueSettings) (now later : ℕ) (message : String) (row : PlaudFile)
    → let r = failed_row now settings.retry message row in
      retry_not_due r.pipeline_retry_count r.pipeline_next_retry_at settings.retry later
      ≡ before_deadline later now
          (retry_delay_seconds (row.pipeline_retry_count + 1) settings.retry)
failed-due settings now later message row =
    schedule-due now later settings.retry (record row { status = error; error = some message })

-- Where process_derived_artifacts has its claim, given to it or taken by it, and its work raises
-- while the claim holds and the recording is marked as processing, the recording becomes an error
-- with that message, without a claim, and the daemon leaves it alone until the deadline of its
-- backoff, and from then on selects it at its narrow scope; without a deadline it never does. The
-- conditions are that the mind map's own backoff does not apply, that no outline retry is pending,
-- that the audio is there and that the daemon's filters admit the recording.
pub failing-retried :
    (settings : QueueSettings) (concurrency : ℕ) (exists : String → Bool) (given : Option String)
    (new id : String) (active : ProcessingClaim) (now ends later : ℕ) (work : Library → Worked)
    (message : String) (l claimed held m : Library) (row : PlaudFile)
    → let r = failed_row ends settings.retry message row in
      take_claim concurrency now derived_request exists given new id l ≡ ok (active, claimed)
      → checked given active now claimed ≡ ok held
      → work held ≡ raised message m
      → find file_id active.file m ≡ some row
      → has_token active.token row ≡ true
      → processing_claim_active ends row ≡ true
      → is_processing row.status ≡ true
      → any outline_only_run row.stage_runs ≡ false
      → narrow_scope r ≢ mind_map_scope
      → row.audio_path ≢ none
      → is_filtered settings later r ≡ false
      → is_overlong settings r ≡ false
      → (after : Library) × (process_derived_artifacts concurrency now settings.retry exists given
            new id ends work l
          ≡ ok after)
        × (find file_id active.file after ≡ some r)
        × (r.status ≡ error)
        × (r.error ≡ some message)
        × (r.processing_token ≡ none)
        × (pending_scope settings later r
            ≡ unless
                (before_deadline later ends
                  (retry_delay_seconds (row.pipeline_retry_count + 1) settings.retry))
                (narrow_scope r))
unfolding process_derived_artifacts
failing-retried settings concurrency exists given new id active now ends later work message l
      claimed held m row k c w f mine live busy o ne audio fi ov =
    (
      narrow_cycle given active now ends (fail_row ends settings.retry) work claimed,
      rw k refl,
      failing-stored settings.retry given active now ends work message claimed held m row c w f mine
          live busy,
      unfold schedule_pipeline_retry in refl,
      unfold schedule_pipeline_retry in refl,
      refl,
      pending_scope-open settings later r refl (unfold schedule_pipeline_retry in o)
            (unfold schedule_pipeline_retry in refl) fi ov
          ∙ (waits settings later r (narrow_scope r) ne (unfold schedule_pipeline_retry in refl)
                (unfold schedule_pipeline_retry in audio)
              ∙ ap (λ t. unless t (narrow_scope r)) (failed-due settings ends later message row)),
    )
  where
    r : PlaudFile
    r = failed_row ends settings.retry message row
