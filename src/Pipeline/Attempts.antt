-- ===== src/Pipeline/Attempts.antt =====
-- What a stage with fallbacks promises, and how often a stage is run for memory.
use localplaud.Prelude.{
  ℕ, zero, suc, ◌+◌, ◌≤◌, ◌≡◌, refl, Bool, true, not, List, [], ◌∷◌, ◌++◌, arith, if◌then◌else◌,
  by_test,
}
use localplaud.Pipeline.Fallback.{
  claim_lost, Candidate, StageError, Operated, returned, raised, Attempt, finished, failed,
  retry_resource_failures,
}

module _ {ℓ κ} {S : Type ℓ} {A : Type κ} (current : ℕ → Bool)
    (operation : Candidate S → Operated A) where
  -- Candidates that begin at a position and fail so that the next one is tried, with their records.
  pub data FallsThrough : ℕ → List (Candidate S) → List (Attempt S) → Type (ℓ ⊔ κ) where
    none_tried : (position : ℕ) → FallsThrough position [] []
    one_more :
        {position : ℕ} {cs : List (Candidate S)} {log : List (Attempt S)} (c : Candidate S)
        (e : StageError)
        → operation c ≡ raised e
        → e.retryable ≡ true
        → current position ≡ true
        → FallsThrough (position + 1) cs log
        → FallsThrough position (c ∷ cs) (failed c e ∷ log)

  -- The attempts of a stage that ends with this result.
  abbrev pub Answered :
      A
      → Candidate S
      → List (Attempt S)
      → Operated (A × Candidate S) × List (Attempt S)
      → Type (ℓ ⊔ κ)
  Answered value c log out = (out.0 ≡ returned (value, c)) × (out.1 ≡ log ++ finished c ∷ [])

-- How many calls were made, and how they end, from the given number on with so many retries left.
abbrev IsBounded {ℓ} : {A : Type ℓ} → ℕ → ℕ → Operated A × ℕ → Type ℓ
IsBounded left calls (result, made) =
    (calls + 1 ≤ made)
    × (made ≤ calls + left + 1)
    × ((e : StageError)
        → result ≡ raised e
        → e.is_resource_failure ≡ true
        → made ≡ calls + left + 1)

same_error {ℓ} :
    {A : Type ℓ} (o o' : Operated A) (e f : StageError)
    → o ≡ raised e
    → o' ≡ raised f
    → o ≡ o'
    → e ≡ f
same_error o o' e f h k eq = cc

retry-IsBounded {ℓ} :
    {A : Type ℓ} (renewed : ℕ → Bool) (left calls : ℕ) (operation : ℕ → Operated A)
    → IsBounded left calls (retry_resource_failures renewed left operation calls)
unfolding retry_resource_failures
retry-IsBounded renewed zero calls operation = (omega arith, omega arith, λ e _ _. omega arith)
retry-IsBounded {A = A} renewed (suc left) calls operation =
    ended (operation calls) (retry-IsBounded renewed left (calls + 1) operation)
  where
    later : Operated A × ℕ
    later = retry_resource_failures renewed left operation (calls + 1)

    ended :
        (o : Operated A)
        → IsBounded {A = A} left (calls + 1) later
        → IsBounded {A = A} (suc left) calls (elim o [
          | returned value ↦ (returned value, calls + 1)
          | raised e ↦
              if not e.is_resource_failure
              then (raised e, calls + 1)
              else if not (renewed calls)
              then (raised claim_lost, calls + 1)
              else later
        ])
    ended (returned value) ih = (omega arith, omega arith, λ e h _. cc)
    ended (raised e) (low, high, all_used) =
        by_test {B = Operated A × ℕ} (IsBounded {A = A} (suc left) calls)
          (not e.is_resource_failure)
          (λ other. (
            omega arith,
            omega arith,
            λ f h k. ground (arith, same_error {A = A} _ _ e f refl refl h),
          ))
          λ _.
            by_test {B = Operated A × ℕ} (IsBounded {A = A} (suc left) calls) (not (renewed calls))
              (λ lost. (
                omega arith,
                omega arith,
                λ f h k. ground (arith, same_error {A = A} _ _ claim_lost f refl refl h),
              ))
              (λ _.
                (omega (arith, low), omega (arith, high), λ f h k. omega (arith, all_used f h k)))

-- A speech stage is called at least once and at most once more than the configured retries, whether
-- or not its claim can be renewed between the calls; where it ends with a failure for memory, every
-- retry has been used.
pub retry_resource_failures-bounds {ℓ} :
    {A : Type ℓ} (renewed : ℕ → Bool) (retries : ℕ) (operation : ℕ → Operated A)
    → let (result, made) = retry_resource_failures renewed retries operation 0 in
      (1 ≤ made)
      × (made ≤ retries + 1)
      × ((e : StageError) → result ≡ raised e → e.is_resource_failure ≡ true → made ≡ retries + 1)
retry_resource_failures-bounds renewed retries operation =
    let (low, high, used) = retry-IsBounded renewed retries 0 operation in
    (omega (arith, low), omega (arith, high), λ e h k. omega (arith, used e h k))
