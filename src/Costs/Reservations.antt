-- ===== src/Costs/Reservations.antt =====
-- The reservations of the cost ledger: providers/usage.py, `reserve_provider_cost`,
-- `finalize_provider_cost_reservations` and `provider_cost_reservation_total`, each one transaction
-- under `lock_cost_budget`.
use localplaud.Prelude.{
  ℕ, ◌+◌, ◌*◌, String, Bool, true, false, not, ◌&&◌, Option, none, some, List, [], ◌∷◌, ◌++◌, map,
  ltb, leb, any, keep, str_eq, if◌then◌else◌, find, put, sum,
}
use localplaud.Costs.Usage.{
  Usage, Pricing, Selection, Catalog, normalize_usage, estimate_cost, pricing_for_stage,
  is_external,
}
use localplaud.Costs.Ledger.{
  DispatchStatus, DispatchEntry, Reservation, Ledger, reservation_id, when, spent, active,
}

-- A profile snapshot: the selection of each stage, and the policy's ceiling.
pub record Snapshot : Type 0 where
  pub stages : String → Option Selection
  pub cost_ceiling : Option ℕ

pub data CostError : Type 0 where
  missing_selection unknown_cost over_ceiling : CostError

pub data Costed {ℓ} (A : Type ℓ) : Type ℓ where
  ok : A → Costed A
  err : CostError → Costed A

-- `_PROVIDER_DISPATCH_LEASE`
abbrev pub dispatch_lease : ℕ
dispatch_lease = 24 * 3600 * 1000000

-- What a dispatch brings beside the ledger: its owner, the clock, its profile's fingerprint.
pub record Dispatch : Type 0 where
  pub now : ℕ
  pub owner : String
  pub fingerprint : String

abbrev pub entry_of : Usage → ℕ → Selection → DispatchEntry
entry_of usage projected selection = record {
  usage = normalize_usage usage;
  projected = projected;
  connection = selection.connection;
  model = selection.model;
}

-- The row of a first call, and what a later call adds to it.
abbrev pub new_reservation : String → Option String → String → Reservation
new_reservation id file_id operation = record {
  id = id;
  scope = file_id;
  operation = operation;
  status = active;
  entries = [];
  estimated_cost = 0;
  model = none;
  owner = none;
  lease_until = none;
  profile_fingerprint = none;
  completed_at = none;
}

abbrev pub extended : Dispatch → Usage → ℕ → Selection → Reservation → Reservation
extended d usage projected selection row = record row {
  entries = row.entries ++ entry_of usage projected selection ∷ [];
  estimated_cost = row.estimated_cost + projected;
  model = selection.model;
  status = active;
  owner = some d.owner;
  lease_until = some (d.now + dispatch_lease);
  profile_fingerprint = some d.fingerprint;
  completed_at = none;
}

abbrev pub over : Option ℕ → ℕ → Bool
over none total = false
over (some ceiling) total = ltb ceiling total

abbrev pub has_ceiling : Option ℕ → Bool
has_ceiling none = false
has_ceiling (some ceiling) = true

abbrev pub has_pricing : Option Pricing → Bool
has_pricing none = false
has_pricing (some p) = true

-- The write of `reserve_provider_cost`: nothing for a free local call without a ceiling.
unfoldable pub reserve_row :
    Dispatch → String → Option String → String → Bool → Usage → ℕ → Selection → Ledger → Ledger
reserve_row d id file_id operation is_free usage projected selection l =
    elim (find reservation_id id l.reservations) [
      | some row ↦ record l {
        reservations = put reservation_id (extended d usage projected selection row) l.reservations;
      }
      | none ↦ if is_free then l else record l {
        reservations =
            l.reservations
            ++ extended d usage projected selection (new_reservation id file_id operation) ∷ [];
      }
    ]

-- `reserve_provider_cost` once the stage's selection is known.
unfoldable pub reserve_selected :
    Dispatch
    → Catalog
    → String
    → Option String
    → String
    → Option ℕ
    → Usage
    → ℕ
    → Selection
    → Ledger
    → Costed (ℕ × Ledger)
reserve_selected d c id file_id operation ceiling usage additional selection l =
    let pricing = pricing_for_stage c (some selection) in
    let external = is_external (some selection) in
    let projected = estimate_cost usage pricing in
    if has_ceiling ceiling && external && not (has_pricing pricing)
    then err unknown_cost
    else if over ceiling (spent file_id l + additional + projected)
    then err over_ceiling
    else ok (
      projected,
      reserve_row d id file_id operation
          (not (has_ceiling ceiling) && leb projected 0 && not external) usage projected selection
          l,
    )

-- `reserve_provider_cost`
unfoldable pub reserve_provider_cost :
    Dispatch
    → Catalog
    → String
    → Option String
    → String
    → Snapshot
    → Usage
    → ℕ
    → Ledger
    → Costed (ℕ × Ledger)
reserve_provider_cost d c id file_id operation snapshot usage additional l =
    elim (snapshot.stages operation) [
      | none ↦ err missing_selection
      | some selection ↦
          reserve_selected d c id file_id operation snapshot.cost_ceiling usage additional selection
            l
    ]

abbrev pub listed : List String → String → Bool
listed ids id = any (λ k. str_eq k id) ids

abbrev pub finished : ℕ → DispatchStatus → Reservation → Reservation
finished now status r = record r { status = status; lease_until = none; completed_at = some now }

-- `finalize_provider_cost_reservations`
unfoldable pub finalize_reservations : ℕ → List String → DispatchStatus → Bool → Ledger → Ledger
finalize_reservations now ids status true l = record l {
  reservations = keep (λ r. not (listed ids r.id)) l.reservations;
}
finalize_reservations now ids status false l = record l {
  reservations = map (λ r. if listed ids r.id then finished now status r else r) l.reservations;
}

-- `provider_cost_reservation_total`
unfoldable pub reservation_total : List String → Ledger → ℕ
reservation_total ids l =
    sum (λ (r : Reservation). when (listed ids r.id) r.estimated_cost) l.reservations
