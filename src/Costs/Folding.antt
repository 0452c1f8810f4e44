-- ===== src/Costs/Folding.antt =====
-- The money of a recovery: what a dispatch that is folded into its attempt adds.
use localplaud.Prelude.{ℕ, ◌+◌, ◌≡◌, max, false, not, List, [], ◌∷◌, ◌==◌, sum, any}
use localplaud.Costs.Ledger.{Reservation, StageAttempt, IndexAttempt, Ledger, when}
use localplaud.Costs.Recovery.{link_of, is_unlinked, linked_cost, links_stage, links_index}

-- The primary key is unique.
abbrev pub HasUniqueId {ℓ} : {A : Type ℓ} → (A → ℕ) → List A → Type 0
HasUniqueId id [] = Unit
HasUniqueId id (a ∷ rows) = (any (λ b. id b == id a) rows ≡ false) × HasUniqueId id rows

abbrev reserved_cost : Reservation → ℕ
reserved_cost r = r.estimated_cost

abbrev pub stage_cost : StageAttempt → ℕ
stage_cost a = a.estimated_cost

abbrev pub index_cost : IndexAttempt → ℕ
index_cost a = a.estimated_cost

abbrev linked_part : Ledger → Reservation → ℕ
linked_part l r = when (not (is_unlinked (link_of l r.id))) r.estimated_cost

-- All the money that the ledger's reservations and attempts hold.
abbrev pub total_cost : Ledger → ℕ
total_cost l =
    sum reserved_cost l.reservations
    + sum stage_cost l.stage_attempts
    + sum index_cost l.index_attempts

-- The larger of an attempt's own cost and that of the recovered dispatches that are linked from it.
abbrev pub stage_larger : Ledger → List Reservation → StageAttempt → ℕ
stage_larger l taken a = max a.estimated_cost (linked_cost (links_stage a.id) l taken)

abbrev pub index_larger : Ledger → List Reservation → IndexAttempt → ℕ
index_larger l taken a = max a.estimated_cost (linked_cost (links_index a.id) l taken)
