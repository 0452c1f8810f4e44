-- ===== src/Costs/Ledger.antt =====
-- The durable cost ledger of providers/usage.py and db/models.py: its rows, and what a budget has
-- spent (`_cost_budget_status`).
use localplaud.Prelude.{
  ℕ, ◌+◌, ◌-◌, String, Bool, true, false, not, ◌&&◌, Option, none, some, List, ltb, str_eq,
  if◌then◌else◌, sum,
}
use localplaud.Costs.Usage.{Usage}

pub data DispatchStatus : Type 0 where
  active completed failed : DispatchStatus

-- One entry of a reservation's `usage["reservations"]`.
pub record DispatchEntry : Type 0 where
  pub usage : Usage
  pub projected : ℕ
  pub connection : Option String
  pub model : Option String

-- ProviderCostReservation: `scope` is the scope key, without a file the library's.
pub record Reservation : Type 0 where
  pub id : String
  pub scope : Option String
  pub operation : String
  pub status : DispatchStatus
  pub entries : List DispatchEntry
  pub estimated_cost : ℕ
  pub model : Option String
  pub owner : Option String
  pub lease_until : Option ℕ
  pub profile_fingerprint : Option String
  pub completed_at : Option ℕ

pub record StageAttempt : Type 0 where
  pub id : ℕ
  pub file_id : String
  pub stage : String
  pub attempt : ℕ
  pub is_running : Bool
  pub estimated_cost : ℕ
  pub usage : Option Usage
  pub dispatch_reservation_ids : List String

-- KnowledgeIndexAttempt
pub record IndexAttempt : Type 0 where
  pub id : ℕ
  pub file_id : Option String
  pub is_running : Bool
  pub estimated_cost : ℕ
  pub dispatch_reservation_ids : List String
  pub error : Option String
  pub completed_at : Option ℕ

-- AskMessage, joined with its thread.
pub record AskMessage : Type 0 where
  pub thread_file_id : Option String
  pub is_assistant : Bool
  pub estimated_cost : ℕ

pub record Ledger : Type 0 where
  pub reservations : List Reservation
  pub stage_attempts : List StageAttempt
  pub index_attempts : List IndexAttempt
  pub ask_messages : List AskMessage

abbrev pub reservation_id : Reservation → String
reservation_id r = r.id

abbrev pub same_scope : Option String → Option String → Bool
same_scope none none = true
same_scope (some a) (some b) = str_eq a b
same_scope _ _ = false

-- A row's part of a sum.
abbrev pub when : Bool → ℕ → ℕ
when b n = if b then n else 0

unfoldable pub stage_spent : Option String → Ledger → ℕ
stage_spent none l = 0
stage_spent (some file_id) l =
    sum (λ (a : StageAttempt). when (str_eq a.file_id file_id && not a.is_running) a.estimated_cost)
      l.stage_attempts

unfoldable pub note_spent : Option String → Ledger → ℕ
note_spent file_id l =
    sum
      (λ (a : IndexAttempt).
        when (same_scope a.file_id file_id && not a.is_running) a.estimated_cost)
      l.index_attempts

unfoldable pub ask_spent : Option String → Ledger → ℕ
ask_spent file_id l =
    sum
      (λ (m : AskMessage).
        when (same_scope m.thread_file_id file_id && m.is_assistant) m.estimated_cost)
      l.ask_messages

abbrev pub reserved_part : Option String → Reservation → ℕ
reserved_part file_id r = when (same_scope r.scope file_id) r.estimated_cost

unfoldable pub reserved : Option String → Ledger → ℕ
reserved file_id l = sum (reserved_part file_id) l.reservations

unfoldable pub spent : Option String → Ledger → ℕ
spent file_id l =
    stage_spent file_id l + note_spent file_id l + ask_spent file_id l + reserved file_id l

pub record BudgetStatus : Type 0 where
  pub ceiling : Option ℕ
  pub total_spent : ℕ
  pub stage_part : ℕ
  pub note_part : ℕ
  pub ask_part : ℕ
  pub reserved_total : ℕ
  pub remaining : Option ℕ
  pub exceeded : Bool

-- `_cost_budget_status`
unfoldable pub cost_budget_status : Option ℕ → Option String → Ledger → BudgetStatus
cost_budget_status ceiling file_id l = record {
  ceiling = ceiling;
  total_spent = spent file_id l;
  stage_part = stage_spent file_id l;
  note_part = note_spent file_id l;
  ask_part = ask_spent file_id l;
  reserved_total = reserved file_id l;
  remaining = elim ceiling [ none ↦ none | some c ↦ some (c - spent file_id l) ];
  exceeded = elim ceiling [ none ↦ false | some c ↦ ltb c (spent file_id l) ];
}
