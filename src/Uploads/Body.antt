-- ===== src/Uploads/Body.antt =====
-- `bounded_receive` and `bounded_send` of `UploadBodyLimitMiddleware.__call__`, over the flags that
-- the two share, and the end of the call. The endpoint is any sequence of calls of the two and a way
-- to end; a request message is its body's length, a response message any value.
use localplaud.Prelude.{ℕ, ◌+◌, Bool, true, false, not, List, [], ◌∷◌, ◌++◌, ltb, if◌then◌else◌}

-- What the server's receive yields: a message, or the cancellation of the request.
pub data Incoming : Type 0 where
  request : (body : ℕ) → Incoming
  disconnect other_message cancellation : Incoming

pub data Raised : Type 0 where
  body_too_large upload_disconnected : Raised

pub data Answer : Type 0 where
  delivered : (message : Incoming) → Answer
  raised : (error : Raised) → Answer

pub record Flags : Type 0 where
  pub received : ℕ
  pub exceeded : Bool
  pub rejected : Bool
  pub disconnected : Bool
  pub cancelled : Bool

abbrev pub fresh : Flags
fresh = record {
  received = 0;
  exceeded = false;
  rejected = false;
  disconnected = false;
  cancelled = false;
}

-- What reaches the client.
pub data Sent : Type 0 where
  response : (message : ℕ) → Sent
  rejection : Sent

unfoldable pub bounded_receive : ℕ → Incoming → Flags → Answer × Flags
bounded_receive limit cancellation s =
    (raised upload_disconnected, record s { cancelled = true; disconnected = true })
bounded_receive limit disconnect s = (raised upload_disconnected, record s { disconnected = true })
bounded_receive limit (request body) s =
    let s' = record s { received = s.received + body } in
    if ltb limit s'.received
    then (raised body_too_large, record s' { exceeded = true })
    else (delivered (request body), s')
bounded_receive limit other_message s = (delivered other_message, s)

unfoldable pub bounded_send : ℕ → Flags → List Sent × Flags
bounded_send message s =
    if s.disconnected
    then ([], s)
    else if s.exceeded
    then if not s.rejected then (rejection ∷ [], record s { rejected = true }) else ([], s)
    else (response message ∷ [], s)

-- The endpoint's calls, and how it ends: it returns or raises.
pub data Call : Type 0 where
  receives : (incoming : Incoming) → Call
  sends : (message : ℕ) → Call

pub data Ending : Type 0 where
  returns raises_too_large raises_disconnected raises_another : Ending

abbrev pub got_of : Answer → List Incoming → List Incoming
got_of (delivered m) got = m ∷ got
got_of (raised e) got = got

-- The endpoint between the two: what it was delivered, what was sent, the flags after.
unfoldable pub endpoint : ℕ → List Call → Flags → List Incoming × (List Sent × Flags)
endpoint limit [] s = ([], ([], s))
endpoint limit (receives incoming ∷ calls) s =
    let (answer, s') = bounded_receive limit incoming s in
    let (got, out) = endpoint limit calls s' in (got_of answer got, out)
endpoint limit (sends message ∷ calls) s =
    let (now, s') = bounded_send message s in
    let (got, later) = endpoint limit calls s' in (got, (now ++ later.0, later.1))

-- The except clauses.
unfoldable pub conclude : Ending → Flags → List Sent
conclude raises_too_large s = if not s.rejected then rejection ∷ [] else []
conclude raises_disconnected s = []
conclude returns s = []
conclude raises_another s = []

-- The guarded part of the call: what the endpoint got, what was sent, and whether the cancellation
-- is raised again.
unfoldable pub serve : ℕ → List Call → Ending → List Incoming × (List Sent × Bool)
serve limit calls ending =
    let (got, (sent, s)) = endpoint limit calls fresh in
    (got, (sent ++ conclude ending s, s.cancelled))
