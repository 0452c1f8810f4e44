-- ===== src/Pipeline/Fallback.antt =====
-- The providers of one stage, in order: providers/fallback.py, `candidate_snapshots`, and
-- worker/pipeline.py, `_run_fallback_stage` and `_retry_resource_failures`. A candidate's operation
-- is an argument, with what it raises; the stage's inputs are current at a position or not.
use localplaud.Prelude.{
  ℕ, zero, suc, ◌+◌, String, Bool, true, false, not, ◌||◌, List, [], ◌∷◌, if◌then◌else◌,
}

-- A snapshot's selection for the stage, with its place among the fallbacks.
pub record Candidate {ℓ} (S : Type ℓ) : Type ℓ where
  pub selection : S
  pub index : ℕ
  pub primary : Bool

-- The fallbacks that quality resolution did not refuse, each with its place in the policy.
unfoldable pub fallbacks {ℓ} : {S : Type ℓ} → (S → Bool) → ℕ → List S → List (Candidate S)
fallbacks accepted index [] = []
fallbacks accepted index (s ∷ rest) =
    let later = fallbacks accepted (index + 1) rest in
    if accepted s then record { selection = s; index = index; primary = false } ∷ later else later

-- `candidate_snapshots`
unfoldable pub candidate_snapshots {ℓ} : {S : Type ℓ} → (S → Bool) → S → List S → List (Candidate S)
candidate_snapshots accepted selection policy =
    record { selection = selection; index = 0; primary = true } ∷ fallbacks accepted 1 policy

-- An exception, and what `is_retryable_fallback_error` and `_is_resource_failure` say of it.
pub record StageError : Type 0 where
  pub message : String
  pub retryable : Bool
  pub is_resource_failure : Bool

pub data Operated {ℓ} (A : Type ℓ) : Type ℓ where
  returned : A → Operated A
  raised : StageError → Operated A

-- The attempts that the stage records, one for each candidate that began.
pub data Attempt {ℓ} (S : Type ℓ) : Type ℓ where
  finished : Candidate S → Attempt S
  failed : Candidate S → StageError → Attempt S

-- The RuntimeError of a stage without candidates.
abbrev pub no_candidate : StageError
no_candidate = record {
  message = "no candidate executed";
  retryable = false;
  is_resource_failure = false;
}

abbrev pub is_empty {ℓ} : {A : Type ℓ} → List A → Bool
is_empty [] = true
is_empty (x ∷ rest) = false

-- The loop of `_run_fallback_stage` from a position on: what it returns or raises, and its attempts.
unfoldable pub run_candidates {ℓ κ} :
    {S : Type ℓ} {A : Type κ}
    → (ℕ → Bool)
    → (Candidate S → Operated A)
    → ℕ
    → List (Candidate S)
    → Operated (A × Candidate S) × List (Attempt S)
run_candidates current operation position [] = (raised no_candidate, [])
run_candidates current operation position (c ∷ rest) =
    let later = run_candidates current operation (position + 1) rest in
    elim (operation c) [
      | returned value ↦ (returned (value, c), finished c ∷ [])
      | raised e ↦
          if not (current position) || not e.retryable || is_empty rest
          then (raised e, failed c e ∷ [])
          else (later.0, failed c e ∷ later.1)
    ]

-- `_run_fallback_stage`
unfoldable pub run_fallback_stage {ℓ κ} :
    {S : Type ℓ} {A : Type κ}
    → (S → Bool)
    → (ℕ → Bool)
    → (Candidate S → Operated A)
    → S
    → List S
    → Operated (A × Candidate S) × List (Attempt S)
run_fallback_stage accepted current operation selection policy =
    run_candidates current operation 0 (candidate_snapshots accepted selection policy)

-- The PipelineAlreadyRunning of a renewal that finds the claim lost.
abbrev pub claim_lost : StageError
claim_lost = record {
  message = "processing claim is no longer active";
  retryable = false;
  is_resource_failure = false;
}

-- `_retry_resource_failures`: `operation` gives what the n-th call ends with, `renewed` whether the
-- claim is still there to be renewed after it.
unfoldable pub retry_resource_failures {ℓ} :
    {A : Type ℓ} → (ℕ → Bool) → ℕ → (ℕ → Operated A) → ℕ → Operated A × ℕ
retry_resource_failures renewed zero operation calls = (operation calls, calls + 1)
retry_resource_failures renewed (suc left) operation calls =
    let later = retry_resource_failures renewed left operation (calls + 1) in
    elim (operation calls) [
      | returned value ↦ (returned value, calls + 1)
      | raised e ↦
          if not e.is_resource_failure
          then (raised e, calls + 1)
          else if not (renewed calls)
          then (raised claim_lost, calls + 1)
          else later
    ]
