-- ===== src/Pipeline/Claims.antt =====
-- The durable processing lease of a recording: worker/pipeline.py, `_admit_processing` to
-- `_release_processing`, and `release_processing_claim`. Each function is one exclusive transaction.
use localplaud.Prelude.{
  ℕ, ◌+◌, ◌*◌, max, String, Bool, true, false, not, ◌&&◌, ◌||◌, Option, none, some, List, [], ◌∷◌,
  ltb, leb, str_eq, if◌then◌else◌, find, put, count,
}
use localplaud.Pipeline.Recording.{
  FileStatus, processing, StageName, mind_map, pending, Detail, StageRun, PlaudFile, Library,
  file_id,
}

pub data ClaimError : Type 0 where
  capacity_busy unknown_file audio_missing already_running wrong_recording claim_lost : ClaimError

pub data Claim {ℓ} (A : Type ℓ) : Type ℓ where
  ok : A → Claim A
  err : ClaimError → Claim A

-- timedelta(hours=24)
abbrev pub processing_lease : ℕ
processing_lease = 24 * 3600 * 1000000

abbrev pub is_some {ℓ} : {A : Type ℓ} → Option A → Bool
is_some none = false
is_some (some a) = true

-- processing_lease_until > now, where NULL compares as false
abbrev pub leased_after : ℕ → Option ℕ → Bool
leased_after now none = false
leased_after now (some lease) = ltb now lease

-- The rows that the admission query and `active_recordings` count.
abbrev pub holds_lease : ℕ → PlaudFile → Bool
holds_lease now row = is_some row.processing_token && leased_after now row.processing_lease_until

-- `_admit_processing`: false is PipelineCapacityBusy.
unfoldable pub admits : ℕ → ℕ → String → Library → Bool
admits concurrency now id l =
    not (leb (max 1 concurrency) (count (λ r. holds_lease now r && not (str_eq (file_id r) id)) l))

-- `processing_claim_active`: an empty token is no token.
abbrev pub processing_claim_active : ℕ → PlaudFile → Bool
processing_claim_active now row =
    elim row.processing_token [ none ↦ false | some token ↦ not (str_eq token "") ]
    && leased_after now row.processing_lease_until

-- The WHERE clause of the claiming UPDATE, beside the id.
abbrev pub is_claimable : ℕ → PlaudFile → Bool
is_claimable now row =
    not (is_some row.processing_token) || not (leased_after now row.processing_lease_until)

abbrev pub claimed : ℕ → Bool → String → PlaudFile → PlaudFile
claimed now mark_processing token row =
    if mark_processing
    then record row {
      processing_token = some token;
      processing_lease_until = some (now + processing_lease);
      status = processing;
      error = none;
    }
    else record row {
      processing_token = some token;
      processing_lease_until = some (now + processing_lease);
    }

-- row.audio_path and Path(row.audio_path).exists()
abbrev pub has_audio : (String → Bool) → Option String → Bool
has_audio exists none = false
has_audio exists (some path) = not (str_eq path "") && exists path

abbrev pub no_detail : Detail
no_detail = record {
  stale = false;
  derived_only = false;
  mind_map_only = false;
  mind_map_retry_count = 0;
  mind_map_next_retry_at = none;
  mind_map_last_failure_at = none;
  outline_only = false;
  outline_retry_count = 0;
  outline_next_retry_at = none;
  reindex_only = false;
}

abbrev pub is_mind_map : StageName → Bool
is_mind_map mind_map = true
is_mind_map _ = false

-- The stage run that a scoped retry needs is added if it is missing.
unfoldable pub with_mind_map_run : List StageRun → List StageRun
with_mind_map_run [] =
    record {
      stage = mind_map;
      status = pending;
      attempts = 0;
      detail = no_detail;
      error = none;
      completed_at = none;
    }
    ∷ []
with_mind_map_run (run ∷ runs) =
    let rest = with_mind_map_run runs in if is_mind_map run.stage then run ∷ runs else run ∷ rest

abbrev pub scoped : Bool → PlaudFile → PlaudFile
scoped retry_mind_map row =
    if retry_mind_map then record row { stage_runs = with_mind_map_run row.stage_runs } else row

-- What a caller of `_claim_processing` chooses.
pub record ClaimRequest : Type 0 where
  pub require_audio : Bool
  pub retry_mind_map : Bool
  pub mark_processing : Bool

unfoldable pub claim_row :
    ℕ → ClaimRequest → (String → Bool) → String → PlaudFile → Library → Claim Library
claim_row now ask exists token row l =
    if ask.require_audio && not (has_audio exists row.audio_path)
    then err audio_missing
    else if is_claimable now row
    then ok (put file_id (scoped ask.retry_mind_map (claimed now ask.mark_processing token row)) l)
    else err already_running

-- `_claim_processing`: `token` is the new token, `exists` the file system.
unfoldable pub claim_processing :
    ℕ → ℕ → ClaimRequest → (String → Bool) → String → String → Library → Claim Library
claim_processing concurrency now ask exists token id l =
    if not (admits concurrency now id l) then err capacity_busy else elim (find file_id id l) [
      | none ↦ err unknown_file
      | some row ↦ claim_row now ask exists token row l
    ]

-- `current_processing_claim()`
pub record ProcessingClaim : Type 0 where
  pub file : String
  pub token : String

abbrev pub active_token : Option ProcessingClaim → Option String
active_token none = none
active_token (some active) = some active.token

-- token or (active.token if active is not None else None)
abbrev pub expected_token : Option String → Option ProcessingClaim → Option String
expected_token none active = active_token active
expected_token (some token) active = if str_eq token "" then active_token active else some token

abbrev pub writes_other : String → Option ProcessingClaim → Bool
writes_other id none = false
writes_other id (some active) = not (str_eq active.file id)

-- processing_token == expected
abbrev pub has_token : String → PlaudFile → Bool
has_token expected row = elim row.processing_token [ none ↦ false | some t ↦ str_eq t expected ]

unfoldable pub check_claim :
    ℕ → Bool → Option String → PlaudFile → Library → Claim (PlaudFile × Library)
check_claim now renew none row l = ok (row, l)
check_claim now renew (some expected) row l =
    if not (has_token expected row && processing_claim_active now row)
    then err claim_lost
    else if renew
    then ok (
      record row { processing_lease_until = some (now + processing_lease) },
      put file_id (record row { processing_lease_until = some (now + processing_lease) }) l,
    )
    else ok (row, l)

-- `_assert_processing_claim_in_session`
unfoldable pub assert_processing_claim :
    ℕ
    → Option ProcessingClaim
    → Option String
    → Bool
    → String
    → Library
    → Claim (PlaudFile × Library)
assert_processing_claim now active token renew id l =
    if writes_other id active then err wrong_recording else elim (find file_id id l) [
      | none ↦ err unknown_file
      | some row ↦ check_claim now renew (expected_token token active) row l
    ]

abbrev pub unclaimed : PlaudFile → PlaudFile
unclaimed row = record row { processing_token = none; processing_lease_until = none }

-- `_release_processing`
unfoldable pub release_processing : String → String → Library → Library
release_processing id token l = elim (find file_id id l) [
  | none ↦ l
  | some row ↦ if has_token token row then put file_id (unclaimed row) l else l
]

-- `release_processing_claim`: with a status only a live claim is released.
unfoldable pub release_processing_claim :
    ℕ → String → String → Option (FileStatus × Option String) → Library → Library
release_processing_claim now id token restored l = elim (find file_id id l) [
  | none ↦ l
  | some row ↦ elim restored [
    | none ↦ if has_token token row then put file_id (unclaimed row) l else l
    | some (status, error) ↦
        if has_token token row && leased_after now row.processing_lease_until
        then put file_id (record (unclaimed row) { status = status; error = error }) l
        else l
  ]
]
