-- ===== src/Maintenance/Gate.antt =====
-- The admission gate of maintenance.py: `Gate.reserve`, `Ticket.close`, `Gate.queued` and
-- `Gate.snapshot` of one service, and the `begin` and `resume` of the control command. A method
-- under the gate's lock is one function. A ticket is known by its position among all that were
-- given out.
use localplaud.Prelude.{
  ℕ, zero, suc, ◌+◌, ◌-◌, String, Bool, true, false, not, ◌&&◌, Option, none, some, List, [], ◌∷◌,
  ◌++◌, ◌==◌, length, str_eq, if◌then◌else◌,
}

-- What `request.json` holds: nothing, a valid request, or what cannot be read as one.
pub data Request : Type 0 where
  absent unreadable : Request
  present : String → Request

pub record Gate : Type 0 where
  pub request : Request
  pub active : ℕ
  pub serving : Bool
  pub tickets : List Bool

-- self.request() is not None
abbrev pub is_paused : Request → Bool
is_paused absent = false
is_paused _ = true

-- `Gate.reserve`: `admitted` is the context's flag; `none` is MaintenancePaused.
unfoldable pub reserve : Bool → Bool → Bool → Gate → Option Gate
reserve inherit continuation admitted g =
    if not continuation && not (inherit && admitted) && is_paused g.request
    then none
    else some (record g { active = g.active + 1; tickets = g.tickets ++ true ∷ [] })

-- The ticket is open.
unfoldable pub is_open : ℕ → List Bool → Bool
is_open i [] = false
is_open zero (t ∷ rest) = t
is_open (suc i) (t ∷ rest) = is_open i rest

unfoldable pub shut : ℕ → List Bool → List Bool
shut i [] = []
shut zero (t ∷ rest) = false ∷ rest
shut (suc i) (t ∷ rest) = t ∷ shut i rest

-- `Ticket.close`: a second call does nothing.
unfoldable pub close : ℕ → Gate → Gate
close i g =
    if is_open i g.tickets
    then record g { active = g.active - 1; tickets = shut i g.tickets }
    else g

-- `Gate.queued`: a queue item is new admission; its ticket is closed once the target returned or
-- raised. `target` is what becomes of the gate until then; false is a refusal.
unfoldable pub queued : Bool → (Gate → Gate) → Gate → Bool × Gate
queued admitted target g = elim (reserve false false admitted g) [
  | none ↦ (false, g)
  | some entered ↦ (true, close (length g.tickets) (target entered))
]

-- The `request_id` of a snapshot is known and not null.
abbrev has_id : Request → Bool
has_id (present id) = true
has_id _ = false

-- `quiescent` of `Gate.snapshot`.
unfoldable pub quiescent : Gate → Bool
quiescent g = has_id g.request && g.serving && g.active == 0

-- `begin`, which needs that no request file is there.
unfoldable pub begin_maintenance : String → Gate → Option Gate
begin_maintenance id g = elim g.request [
  | absent ↦ some (record g { request = present id })
  | _ ↦ none
]

-- `resume`, which needs the id of the request that is there.
unfoldable pub resume_maintenance : String → Gate → Option Gate
resume_maintenance id g = elim g.request [
  | present k ↦ if str_eq k id then some (record g { request = absent }) else none
  | _ ↦ none
]
