-- ===== src/Pipeline/TableExamples.antt =====
-- A summary that is begun, and one that fails while a dispatch is reserved for it.
use localplaud.Prelude.{◌+◌, ◌≤◌, ◌≡◌, refl, true, false, none, some, Option, String, [], ◌∷◌, any}
use localplaud.Pipeline.Recording.{summarize, running, completed, failed}
use localplaud.Pipeline.Claims.{no_detail}
use localplaud.Costs.Usage.{Catalog, estimate_cost, normalize_usage, pricing_for_stage}
use localplaud.Costs.Ledger.{Reservation, active, spent}
use localplaud.Costs.Reservations.{reservation_total}
use localplaud.Pipeline.Stages.{
  Run, Attempt, Tables, ledger, Change, NewDetail, new_attempt, no_usage, is_ended, run_of, charge,
  keeps_cost, set_stage, begin_stage, finish_stage, same_generation,
}
use localplaud.Pipeline.StageCosts.{freed, set_stage-spent}
use localplaud.Pipeline.StageRounds.{begin-finish}

abbrev run : Run
run = record {
  run_file = "r1";
  run = record {
    stage = summarize;
    status = running;
    attempts = 1;
    detail = no_detail;
    error = none;
    completed_at = none;
  };
  generation = some "g1";
  started_at = some 10;
}

abbrev attempt : Attempt
attempt =
    let new = new_attempt 5 10 "r1" run summarize in
    record new {
      row = record new.row { estimated_cost = 300; dispatch_reservation_ids = "d1" ∷ [] };
    }

abbrev dispatch : Reservation
dispatch = record {
  id = "d1";
  scope = some "r1";
  operation = "summarize";
  status = active;
  entries = [];
  estimated_cost = 500;
  model = none;
  owner = none;
  lease_until = some 99;
  profile_fingerprint = none;
  completed_at = none;
}

abbrev tables : Tables
tables = record {
  runs = run ∷ [];
  attempts = attempt ∷ [];
  reservations = dispatch ∷ [];
  index_attempts = [];
  ask_messages = [];
}

abbrev catalog : Catalog
catalog = record { connections = []; models = [] }

abbrev failing : Change
failing = record {
  stage = summarize;
  new_status = failed;
  begin_attempt = false;
  detail = none;
  usage = no_usage;
  failure = some "timeout";
  expected = none;
}

abbrev after : Tables
after = elim (set_stage 60 0 catalog none "r1" failing tables) [ none ↦ tables | some t ↦ t ]

set_stage-spent_example :
    let cost = estimate_cost (normalize_usage no_usage) (pricing_for_stage catalog none) in
    (spent (some "r1") (ledger after) + freed ("d1" ∷ []) "r1" (dispatch ∷ [])
      ≡ spent (some "r1") (ledger tables)
        + charge failed 300 (reservation_total ("d1" ∷ []) (ledger tables)) cost)
    × (keeps_cost failed ≡ true
        → spent (some "r1") (ledger tables) ≤ spent (some "r1") (ledger after))
unfolding set_stage
set_stage-spent_example =
    set_stage-spent 60 0 catalog none "r1" failing tables after attempt (refl, tt) refl refl refl
      refl

abbrev idle : Tables
idle = record tables { attempts = []; reservations = [] }

abbrev begun : Option String × Tables
begun = begin_stage 100 6 catalog none "r1" summarize idle

abbrev written : NewDetail
written = record { keys = no_detail; new_generation = some "g1" }

begin-finish_example :
    ((t' : Tables) × (finish_stage 200 catalog none "r1" summarize written no_usage begun.0 begun.1
        ≡ some t')
      × ((run_of "r1" summarize t'.runs).run.status ≡ completed)
      × ((run_of "r1" summarize t'.runs).run.attempts ≡ 2)
      × ((run_of "r1" summarize t'.runs).run.error ≡ none)
      × ((run_of "r1" summarize t'.runs).run.completed_at ≡ some 200)
      × (any (is_ended "r1" summarize 2) t'.attempts ≡ false))
    × ((other : Tables)
        → same_generation (run_of "r1" summarize other.runs).generation begun.0 ≡ false
        → finish_stage 200 catalog none "r1" summarize written no_usage begun.0 other ≡ none)
begin-finish_example = begin-finish 100 6 200 catalog none "r1" summarize written no_usage idle refl
