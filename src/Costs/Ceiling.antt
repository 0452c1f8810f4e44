-- ===== src/Costs/Ceiling.antt =====
-- The check before a stage's provider call: providers/usage.py, `enforce_cost_ceiling`. The ledger's
-- transaction is the recording's, whose budget the stage shares.
use localplaud.Prelude.{
  ℕ, ◌+◌, String, not, ◌&&◌, Option, none, some, List, [], ◌∷◌, map, ltb, ◌==◌, str_eq,
  if◌then◌else◌,
}
use localplaud.Costs.Usage.{
  Usage, Catalog, Selection, normalize_usage, estimate_cost, pricing_for_stage, is_external,
}
use localplaud.Costs.Ledger.{StageAttempt, Ledger, spent}
use localplaud.Costs.Reservations.{
  Costed, ok, err, unknown_cost, over_ceiling, Snapshot, has_pricing,
}

-- The later of two attempts, by attempt number.
abbrev pub later_attempt : StageAttempt → Option StageAttempt → StageAttempt
later_attempt a none = a
later_attempt a (some b) = if ltb a.attempt b.attempt then b else a

-- The running attempt of the stage, the last where there are several.
unfoldable pub running_attempt : String → String → List StageAttempt → Option StageAttempt
running_attempt file_id stage [] = none
running_attempt file_id stage (a ∷ rest) =
    let best = running_attempt file_id stage rest in
    if str_eq a.file_id file_id && str_eq a.stage stage && a.is_running
    then some (later_attempt a best)
    else best

-- The projection replaces what the attempt had.
unfoldable pub project_attempt : ℕ → Usage → ℕ → List StageAttempt → List StageAttempt
project_attempt id usage projected attempts =
    map
      (λ (a : StageAttempt).
        if a.id == id
        then record a { usage = some (normalize_usage usage); estimated_cost = projected }
        else a)
      attempts

unfoldable pub projected_ledger : String → String → Usage → ℕ → Ledger → Ledger
projected_ledger file_id stage usage projected l =
    elim (running_attempt file_id stage l.stage_attempts) [
      | none ↦ l
      | some a ↦ record l { stage_attempts = project_attempt a.id usage projected l.stage_attempts }
    ]

-- `enforce_cost_ceiling`, under a ceiling.
unfoldable pub enforce_under :
    Catalog → String → String → Option Selection → ℕ → Usage → Ledger → Costed (ℕ × Ledger)
enforce_under c file_id stage selection ceiling usage l =
    let pricing = pricing_for_stage c selection in
    let projected = estimate_cost usage pricing in
    if is_external selection && not (has_pricing pricing)
    then err unknown_cost
    else if ltb ceiling (spent (some file_id) l + projected)
    then err over_ceiling
    else ok (projected, projected_ledger file_id stage usage projected l)

-- `enforce_cost_ceiling`: without a ceiling nothing is enforced.
unfoldable pub enforce_cost_ceiling :
    Catalog → String → String → Snapshot → Usage → Ledger → Costed (ℕ × Ledger)
enforce_cost_ceiling c file_id stage snapshot usage l = elim snapshot.cost_ceiling [
  | none ↦ ok (0, l)
  | some ceiling ↦ enforce_under c file_id stage (snapshot.stages stage) ceiling usage l
]
