-- ===== src/Pipeline/Release.antt =====
-- What a recording's cycle leaves behind, however its work ends.
use mathlib.Core.Path.{subst}
use localplaud.Prelude.{
  ℕ, ◌+◌, ◌*◌, String, ◌≡◌, ◌≢◌, refl, sym, ap, ◌∙◌, Bool, true, false, inl, inr, Option, none,
  some, List, arith, ltb, any, any-map, eq_iff, Option-cases, by_test, if◌then◌else◌, find, put,
  find-put, find-key, some_eq, map,
}
use localplaud.Pipeline.Recording.{StageRun, PlaudFile, Library, file_id}
use localplaud.Pipeline.Claims.{
  Claim, ok, err, ClaimRequest, ProcessingClaim, claim_processing, has_token, unclaimed,
  release_processing,
}
use localplaud.Pipeline.Retry.{
  RetrySettings, second, retry_delay_seconds, schedule_pipeline_retry, retry_not_due, schedule-due,
}
use localplaud.Pipeline.Scope.{
  QueueSettings, Scope, is_downloaded, outline_scope, derived_scope, mind_map_scope, full_scope,
  is_filtered, is_overlong, narrow_scope, is_waiting, scope_when_due, pending_scope,
}
use localplaud.Pipeline.Queueing.{outline_only_run, pending_scope-open}
use localplaud.Pipeline.Cycle.{
  finish_row, mark_derived_only, Worked, after_work, process_file, returned, raised, record_failure,
}

-- A release leaves the row, if it is there, without the token.
pub release-token :
    (id token : String) (l : Library) (row : PlaudFile)
    → find file_id id (release_processing id token l) ≡ some row
    → has_token token row ≡ false
unfolding release_processing
release-token id token l row h = elim (Option-cases (find file_id id l)) [
  | inl e ↦ cc (rw (e, release_processing) at h, e)
  | inr (old, e) ↦
      by_test (λ m. find file_id id m ≡ some row → has_token token row ≡ false)
        (has_token token old) (λ _ k. rw⁻¹ (some_eq (sym (found old e) ∙ k)) refl)
        (λ other k. rw⁻¹ (some_eq (sym e ∙ k)) other) (rw (e, release_processing) at h)
]
  where
    found :
        (old : PlaudFile)
        → find file_id id l ≡ some old
        → find file_id id (put file_id (unclaimed old) l) ≡ some (unclaimed old)
    found old e =
        let same = find-key file_id id l old e in
        rw
          (
            find-put file_id id (unclaimed old) l old
                (subst (λ k. find file_id k l ≡ some old) (sym same) e),
            (eq_iff old.id id).1 same,
          )
          refl

pub ok_eq {ℓ} : {A : Type ℓ} {a b : A} → ok a ≡ ok b → a ≡ b
ok_eq h = cc

after_work-token :
    (active : ProcessingClaim) (now : ℕ) (s : RetrySettings) (worked : Worked) (row : PlaudFile)
    → find file_id active.file (after_work active now s worked) ≡ some row
    → has_token active.token row ≡ false
unfolding after_work
after_work-token active now s (returned l) row h = release-token active.file active.token l row h
after_work-token active now s (raised message l) row h =
    release-token active.file active.token (record_failure active now s message l) row h

-- Whatever the work did, and whether it returned or raised, the recording is not left with the
-- token that its processing took.
pub process_file-releases :
    (concurrency now : ℕ) (s : RetrySettings) (exists : String → Bool) (token id : String)
    (ends : ℕ) (work : Library → Worked) (l l' : Library) (row : PlaudFile)
    → process_file concurrency now s exists token id ends work l ≡ ok l'
    → find file_id id l' ≡ some row
    → has_token token row ≡ false
unfolding process_file
process_file-releases concurrency now s exists token id ends work l l' row h f =
    ended (claim_processing concurrency now ask exists token id l) h
  where
    ask : ClaimRequest
    ask = record { require_audio = true; retry_mind_map = false; mark_processing = true }

    ended :
        (c : Claim Library)
        → elim c [
          | ok claimed ↦ ok (after_work (record { file = id; token = token }) ends s (work claimed))
          | err e ↦ err e
        ]
          ≡ ok l'
        → has_token token row ≡ false
    ended (ok claimed) eq =
        after_work-token (record { file = id; token = token }) ends s (work claimed) row
          (subst (λ m. find file_id id m ≡ some row) (sym (ok_eq eq)) f)
    ended (err e) eq = cc

-- A partial cycle's row, once the claim is released.
abbrev pub partial_row : ℕ → RetrySettings → Bool → String → PlaudFile → PlaudFile
partial_row now s derived_only errors row =
    unclaimed (finish_row now s derived_only (some errors) row)

-- No scope while the recording waits.
abbrev pub unless : Bool → Scope → Option Scope
unless held scope = if held then none else some scope

-- A failure at `now` with this delay still holds `later` back; without a delay it always does.
abbrev pub before_deadline : ℕ → ℕ → Option ℕ → Bool
before_deadline later now none = true
before_deadline later now (some delay) = ltb later (now + delay * second)

waiting-full :
    (settings : QueueSettings) (now : ℕ) (row : PlaudFile) (scope : Scope)
    → scope ≢ mind_map_scope
    → is_waiting settings now row scope
      ≡ retry_not_due row.pipeline_retry_count row.pipeline_next_retry_at settings.retry now
unfolding is_waiting
waiting-full settings now row outline_scope ne = refl
waiting-full settings now row derived_scope ne = refl
waiting-full settings now row full_scope ne = refl
waiting-full settings now row mind_map_scope ne = elim (ne refl) [ ]

marked-outline :
    (derived : Bool) (runs : List StageRun)
    → any outline_only_run (if derived then map mark_derived_only runs else runs)
      ≡ any outline_only_run runs
marked-outline true runs =
    any-map outline_only_run outline_only_run mark_derived_only runs (λ run. ground arith)
marked-outline false runs = refl

partial-due :
    (settings : QueueSettings) (now later : ℕ) (derived : Bool) (errors : String) (row : PlaudFile)
    → let r = partial_row now settings.retry derived errors row in
      retry_not_due r.pipeline_retry_count r.pipeline_next_retry_at settings.retry later
      ≡ before_deadline later now
          (retry_delay_seconds (row.pipeline_retry_count + 1) settings.retry)
unfolding finish_row
partial-due settings now later derived errors row = schedule-due now later settings.retry _

-- The wait that the file's own backoff imposes.
pub waits :
    (settings : QueueSettings) (later : ℕ) (row : PlaudFile) (scope : Scope)
    → scope ≢ mind_map_scope
    → is_downloaded row.status ≡ false
    → row.audio_path ≢ none
    → scope_when_due settings later row scope
      ≡ unless
          (retry_not_due row.pipeline_retry_count row.pipeline_next_retry_at settings.retry later)
          scope
unfolding scope_when_due
waits settings later row scope ne st audio = elim (Option-cases row.audio_path) [
  | inl e ↦ elim (audio e) [ ]
  | inr (path, e) ↦ rw (waiting-full settings later row scope ne, e, st) refl
]

-- After a cycle that failed in part, and once its claim is released, the daemon leaves the
-- recording alone until the deadline of its backoff, and from then on selects it at its narrow
-- scope; without a deadline it never does. The conditions are that the mind map's own backoff
-- does not apply, that no outline retry is pending, that the audio is there and that the
-- daemon's filters admit the recording.
pub partial-retried :
    (settings : QueueSettings) (now later : ℕ) (derived : Bool) (errors : String) (row : PlaudFile)
    → let r = partial_row now settings.retry derived errors row in
      any outline_only_run row.stage_runs ≡ false
      → narrow_scope r ≢ mind_map_scope
      → row.audio_path ≢ none
      → is_filtered settings later r ≡ false
      → is_overlong settings r ≡ false
      → pending_scope settings later r
        ≡ unless
            (before_deadline later now
              (retry_delay_seconds (row.pipeline_retry_count + 1) settings.retry))
            (narrow_scope r)
partial-retried settings now later derived errors row o ne audio f v =
    let r = partial_row now settings.retry derived errors row in
    pending_scope-open settings later r refl
      (unfold finish_row schedule_pipeline_retry in (marked-outline derived row.stage_runs ∙ o))
      (unfold finish_row schedule_pipeline_retry in refl) f v
    ∙ (waits settings later r (narrow_scope r) ne
          (unfold finish_row schedule_pipeline_retry in refl)
          (unfold finish_row schedule_pipeline_retry in audio)
        ∙ ap (λ t. unless t (narrow_scope r)) (partial-due settings now later derived errors row))
