-- ===== src/Pipeline/StageExamples.antt =====
-- A stage whose first provider is unavailable, and one that runs out of memory.
use localplaud.Prelude.{ℕ, ◌≤◌, ◌≡◌, String, Bool, true, false, not, str_eq, if◌then◌else◌}
use localplaud.Pipeline.Fallback.{
  Candidate, StageError, Operated, returned, raised, retry_resource_failures,
}
use localplaud.Pipeline.Attempts.{retry_resource_failures-bounds}

abbrev unavailable : StageError
unavailable = record { message = "unavailable"; retryable = true; is_resource_failure = false }

abbrev killed : StageError
killed = record { message = "killed"; retryable = true; is_resource_failure = true }

abbrev accepted : String → Bool
accepted provider = not (str_eq provider "small")

abbrev always : ℕ → Bool
always position = true

abbrev operation : Candidate String → Operated ℕ
operation c = if c.primary then raised unavailable else returned 7

abbrev first : Candidate String
first = record { selection = "cloud"; index = 0; primary = true }

abbrev second : Candidate String
second = record { selection = "local"; index = 2; primary = false }

abbrev out_of_memory : ℕ → Operated ℕ
out_of_memory call = raised killed

retry_resource_failures-bounds_example :
    let (result, made) = retry_resource_failures (λ _. true) 2 out_of_memory 0 in
    (1 ≤ made)
    × (made ≤ 3)
    × ((e : StageError) → result ≡ raised e → e.is_resource_failure ≡ true → made ≡ 3)
retry_resource_failures-bounds_example = retry_resource_failures-bounds (λ _. true) 2 out_of_memory
