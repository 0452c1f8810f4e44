-- ===== src/Costs/Recovery.antt =====
-- The recovery after a restart: providers/usage.py, `recover_provider_dispatch_reservations`.
use localplaud.Prelude.{
  ℕ, max, String, Bool, true, false, not, ◌&&◌, ◌||◌, Option, none, some, List, [], ◌∷◌, map, leb,
  ◌==◌, any, keep, str_eq, if◌then◌else◌, sum, length,
}
use localplaud.Costs.Usage.{or_empty}
use localplaud.Costs.Ledger.{
  DispatchStatus, active, failed, Reservation, StageAttempt, IndexAttempt, Ledger, when,
}
use localplaud.Costs.Reservations.{listed, finished}

abbrev pub is_active : DispatchStatus → Bool
is_active active = true
is_active _ = false

abbrev pub owned_by : Option String → Option String → Bool
owned_by (some previous) (some owner) = str_eq owner previous
owned_by _ _ = false

-- The WHERE clause of the recovery.
unfoldable pub is_reclaimable : ℕ → Option String → Reservation → Bool
is_reclaimable now previous r =
    is_active r.status
    && (elim r.lease_until [ none ↦ true | some lease ↦ leb lease now ]
        || owned_by (or_empty previous) r.owner)

-- An attempt that a reservation is linked from, by the row's table and id.
pub data Link : Type 0 where
  unlinked : Link
  stage_link index_link : ℕ → Link

-- The last row of the stage table that lists the reservation.
unfoldable pub last_stage : String → List StageAttempt → Link
last_stage id [] = unlinked
last_stage id (a ∷ rest) =
    let later = last_stage id rest in
    elim later [
      | unlinked ↦ if listed a.dispatch_reservation_ids id then stage_link a.id else unlinked
      | link ↦ link
    ]

unfoldable pub last_index : String → List IndexAttempt → Link
last_index id [] = unlinked
last_index id (a ∷ rest) =
    let later = last_index id rest in
    elim later [
      | unlinked ↦ if listed a.dispatch_reservation_ids id then index_link a.id else unlinked
      | link ↦ link
    ]

-- `linked_attempts`: the index table is read last and wins.
unfoldable pub link_of : Ledger → String → Link
link_of l id = elim (last_index id l.index_attempts) [
  | unlinked ↦ last_stage id l.stage_attempts
  | link ↦ link
]

abbrev pub is_unlinked : Link → Bool
is_unlinked unlinked = true
is_unlinked _ = false

abbrev pub links_stage : ℕ → Link → Bool
links_stage id (stage_link k) = k == id
links_stage id _ = false

abbrev pub links_index : ℕ → Link → Bool
links_index id (index_link k) = k == id
links_index id _ = false

-- `linked_costs` of the attempt that the test recognises.
abbrev pub linked_cost : (Link → Bool) → Ledger → List Reservation → ℕ
linked_cost test l taken =
    sum (λ (r : Reservation). when (test (link_of l r.id)) r.estimated_cost) taken

-- The test of `linked_rows`.
abbrev pub has_link : (Link → Bool) → Ledger → List Reservation → Bool
has_link test l taken = any (λ (r : Reservation). test (link_of l r.id)) taken

unfoldable pub folded_stage : Ledger → List Reservation → StageAttempt → StageAttempt
folded_stage l taken a =
    if has_link (links_stage a.id) l taken
    then record a { estimated_cost = max a.estimated_cost (linked_cost (links_stage a.id) l taken) }
    else a

abbrev interrupted : ℕ → IndexAttempt → IndexAttempt
interrupted now a =
    if a.is_running
    then record a {
      is_running = false;
      error = some "provider dispatch interrupted by process restart";
      completed_at = some now;
    }
    else a

unfoldable pub folded_index : ℕ → Ledger → List Reservation → IndexAttempt → IndexAttempt
folded_index now l taken a =
    if has_link (links_index a.id) l taken
    then record (interrupted now a) {
      estimated_cost = max a.estimated_cost (linked_cost (links_index a.id) l taken);
    }
    else a

-- What remains of the reservations: a linked one is deleted, another is closed as failed.
unfoldable pub closed : ℕ → Option String → Ledger → List Reservation → List Reservation
closed now previous l [] = []
closed now previous l (r ∷ rest) =
    let after = closed now previous l rest in
    if not (is_reclaimable now previous r)
    then r ∷ after
    else if is_unlinked (link_of l r.id)
    then finished now failed r ∷ after
    else after

-- `recover_provider_dispatch_reservations`
unfoldable pub recover_reservations : ℕ → Option String → Ledger → ℕ × Ledger
recover_reservations now previous l =
    let taken = keep (is_reclaimable now previous) l.reservations in
    (
      length taken,
      record l {
        reservations = closed now previous l l.reservations;
        stage_attempts = map (folded_stage l taken) l.stage_attempts;
        index_attempts = map (folded_index now l taken) l.index_attempts;
      },
    )
