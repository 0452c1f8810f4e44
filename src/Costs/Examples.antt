-- ===== src/Costs/Examples.antt =====
-- A ledger with one open dispatch of a crashed process, and a priced call under a ceiling.
use localplaud.Prelude.{round_div, ◌≡◌, refl, true, false, none, some, [], ◌∷◌, find, keep, sum}
use localplaud.Costs.Usage.{
  Usage, Pricing, Selection, Catalog, estimate_cost, pricing_for_stage, catalog_pricing,
  scaled_cost, normalize_usage, normal_tokens, is_estimated,
}
use localplaud.Costs.Ledger.{
  active, Reservation, StageAttempt, Ledger, spent, stage_spent, note_spent, ask_spent, reserved,
}
use localplaud.Costs.Reservations.{
  Snapshot, Dispatch, reserve_provider_cost, reserve_selected, reserve_row,
}
use localplaud.Costs.Recovery.{recover_reservations}
use localplaud.Costs.Budget.{Reserved, reserve_provider_cost-Reserved}
use localplaud.Costs.Recovered.{is_open, is_kept, recover_reservations-settles}

abbrev selection : Selection
selection = record {
  connection = some "openai";
  model = some "mini";
  execution_target = some "cloud";
}

abbrev pricing : Pricing
pricing = record {
  per_request = 5;
  input_per_million_tokens = 2000000;
  output_per_million_tokens = 0;
  audio_per_minute = 0;
}

abbrev catalog : Catalog
catalog = record {
  connections = record { id = 1; key = "openai" } ∷ [];
  models = record { connection_id = 1; model_key = "mini"; pricing = some pricing } ∷ [];
}

abbrev usage : Usage
usage = record {
  requests = none;
  input_tokens = none;
  output_tokens = none;
  input_chars = some 40;
  output_chars = none;
  audio_milliseconds = none;
  tokens_estimated = false;
}

abbrev snapshot : Snapshot
snapshot = record { stages = λ stage. some selection; cost_ceiling = some 100 }

abbrev crashed : Reservation
crashed = record {
  id = "d1";
  scope = some "r1";
  operation = "summarize";
  status = active;
  entries = [];
  estimated_cost = 30;
  model = none;
  owner = some "old";
  lease_until = some 900;
  profile_fingerprint = none;
  completed_at = none;
}

abbrev attempt : StageAttempt
attempt = record {
  id = 7;
  file_id = "r1";
  stage = "summarize";
  attempt = 1;
  is_running = true;
  estimated_cost = 10;
  usage = none;
  dispatch_reservation_ids = "d1" ∷ [];
}

abbrev ledger : Ledger
ledger = record {
  reservations = crashed ∷ [];
  stage_attempts = attempt ∷ [];
  index_attempts = [];
  ask_messages = [];
}

abbrev dispatch : Dispatch
dispatch = record { now = 50; owner = "new"; fingerprint = "f" }

-- Thirty units are reserved, and forty input characters cost twenty-five more.
abbrev after : Ledger
after = reserve_row dispatch "d2" (some "r1") "summarize" false usage 25 selection ledger

reserve_provider_cost-Reserved_example : Reserved (some "r1") (some 100) 20 ledger 25 after
unfolding reserve_provider_cost reserve_selected estimate_cost pricing_for_stage catalog_pricing
    scaled_cost normalize_usage round_div normal_tokens is_estimated spent stage_spent note_spent
    ask_spent reserved sum find
reserve_provider_cost-Reserved_example =
    reserve_provider_cost-Reserved dispatch catalog "d2" (some "r1") "summarize" snapshot usage 20
      ledger after 25 (λ row e. cc) refl

recover_reservations-settles_example :
    let (_, l') = recover_reservations 60 (some "old") ledger in
    (keep is_open l'.reservations ≡ keep (is_kept 60 (some "old")) (crashed ∷ []))
    × (recover_reservations 60 (some "old") l' ≡ (0, l'))
recover_reservations-settles_example = recover_reservations-settles 60 (some "old") ledger
