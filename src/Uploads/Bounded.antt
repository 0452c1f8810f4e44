-- ===== src/Uploads/Bounded.antt =====
-- What the bounded receive and send keep, whatever the endpoint does.
use mathlib.Core.Path.{subst}
use mathlib.Core.List.{cons≢nil}
use localplaud.Prelude.{
  ℕ, ◌+◌, ◌≤◌, ◌<◌, ◌≡◌, ◌⊎◌, refl, ap, ◌++◌, true, false, inl, inr, List, [], ◌∷◌, arith, ltb,
  ltb→lt, by_test,
}
use localplaud.Uploads.Body.{
  Incoming, request, disconnect, other_message, cancellation, Answer, Flags, fresh, bounded_receive,
  bounded_send, got_of, Call, receives, sends, Ending, endpoint, serve,
}

-- The sizes of the request bodies, of what is got and of what calls receive.
abbrev pub sizes : List Incoming → List ℕ
sizes [] = []
sizes (request body ∷ rest) = body ∷ sizes rest
sizes (m ∷ rest) = sizes rest

abbrev pub asked : List Call → List ℕ
asked [] = []
asked (receives (request body) ∷ calls) = body ∷ asked calls
asked (call ∷ calls) = asked calls

abbrev pub total : List ℕ → ℕ
total [] = 0
total (n ∷ rest) = n + total rest

-- The next size is too much.
abbrev pub Stops : ℕ → ℕ → List ℕ → Type 0
Stops limit used [] = Unit
Stops limit used (n ∷ rest) = limit < used + n

not_above : (a b : ℕ) → ltb a b ≡ false → b ≤ a
not_above a b h = ground arith

bounded_send-received : (m : ℕ) (s : Flags) → (bounded_send m s).1.received ≡ s.received
unfolding bounded_send
bounded_send-received m s = ground arith

-- The sizes that are got from `received` bytes on.
abbrev Got : ℕ → ℕ → List ℕ → List ℕ → Type 0
Got limit received wanted got =
    (rest : List ℕ) × ((wanted ≡ got ++ rest)
      × (((got ≡ []) ⊎ (total got + received ≤ limit)) × Stops limit (received + total got) rest))

Got-above :
    (limit received body : ℕ) (wanted got : List ℕ)
    → limit < received + body
    → Got limit (received + body) wanted got
    → Got limit received (body ∷ wanted) got
Got-above limit received body wanted [] l h = (body ∷ wanted, (refl, (inl refl, omega arith)))
Got-above limit received body wanted (n ∷ got) l (rest, (e, (inl f, stop))) = absurd (cons≢nil f)
Got-above limit received body wanted (n ∷ got) l (rest, (e, (inr f, stop))) = absurd (omega arith)

Stops-at : (limit a b : ℕ) (rest : List ℕ) → a ≡ b → Stops limit a rest → Stops limit b rest
Stops-at limit a b [] e h = tt
Stops-at limit a b (n ∷ rest) e h = omega arith

Got-below :
    (limit received body : ℕ) (wanted got : List ℕ)
    → received + body ≤ limit
    → Got limit (received + body) wanted got
    → Got limit received (body ∷ wanted) (body ∷ got)
Got-below limit received body wanted got l (rest, (e, (few, stop))) = (
  rest,
  (
    ap (λ ns. body ∷ ns) e,
    (
      inr (within few),
      Stops-at limit (received + body + total got) (received + (body + total got)) rest
          (omega arith) stop,
    ),
  ),
)
  where
    within :
        (got ≡ []) ⊎ (total got + (received + body) ≤ limit) → body + total got + received ≤ limit
    within (inl f) = rw f (omega arith)
    within (inr f) = omega arith

endpoint-sizes :
    (limit : ℕ) (calls : List Call) (s : Flags)
    → Got limit s.received (asked calls) (sizes (endpoint limit calls s).0)
unfolding endpoint bounded_receive
endpoint-sizes limit [] s = ([], (refl, (inl refl, tt)))
endpoint-sizes limit (sends m ∷ calls) s =
    subst (λ n. Got limit n (asked calls) (sizes (endpoint limit calls (bounded_send m s).1).0))
      (bounded_send-received m s) (endpoint-sizes limit calls (bounded_send m s).1)
endpoint-sizes limit (receives cancellation ∷ calls) s = endpoint-sizes limit calls _
endpoint-sizes limit (receives disconnect ∷ calls) s = endpoint-sizes limit calls _
endpoint-sizes limit (receives other_message ∷ calls) s = endpoint-sizes limit calls _
endpoint-sizes limit (receives (request body) ∷ calls) s =
    by_test {B = Answer × Flags}
      (λ r.
        Got limit s.received (body ∷ asked calls) (sizes (got_of r.0 (endpoint limit calls r.1).0)))
      (ltb limit (s.received + body))
      (λ t.
        let s' = record s { received = s.received + body; exceeded = true } in
        Got-above limit s.received body (asked calls) (sizes (endpoint limit calls s').0)
          (ltb→lt _ _ t) (endpoint-sizes limit calls s'))
      (λ f.
        let s' = record s { received = s.received + body } in
        Got-below limit s.received body (asked calls) (sizes (endpoint limit calls s').0)
          (not_above _ _ f) (endpoint-sizes limit calls s'))

-- The first sizes of those wanted, as many as the limit holds.
abbrev pub IsLongestFit : ℕ → List ℕ → List ℕ → Type 0
IsLongestFit limit wanted got =
    (rest : List ℕ) × ((wanted ≡ got ++ rest)
      × ((total got ≤ limit) × Stops limit (total got) rest))

pub serve-sizes :
    (limit : ℕ) (calls : List Call) (ending : Ending)
    → IsLongestFit limit (asked calls) (sizes (serve limit calls ending).0)
unfolding serve
serve-sizes limit calls ending =
    let got = sizes (endpoint limit calls fresh).0 in
    let (rest, (e, (few, stop))) = endpoint-sizes limit calls fresh in
    (
      rest,
      (e, (within got few, Stops-at limit (0 + total got) (total got) rest (omega arith) stop)),
    )
  where
    within : (got : List ℕ) → (got ≡ []) ⊎ (total got + 0 ≤ limit) → total got ≤ limit
    within got (inl f) = rw f (omega arith)
    within got (inr f) = omega arith
