-- ===== src/Uploads/Rejects.antt =====
-- What the client is sent while it stays connected, to the last response.
use localplaud.Prelude.{
  ℕ, ◌+◌, ◌≡◌, refl, sym, ap, ◌∙◌, Bool, true, false, inl, inr, List, [], ◌∷◌, ◌++◌, arith, ltb,
  by_test, if◌then◌else◌,
}
use localplaud.Uploads.Body.{
  request, disconnect, other_message, cancellation, Answer, Flags, fresh, Sent, response, rejection,
  bounded_receive, Call, receives, sends, Ending, returns, raises_too_large, raises_disconnected,
  raises_another, endpoint, conclude, serve,
}
use localplaud.Uploads.Answered.{sent_by, by_send, after_send, rejected-silent}

-- No call finds the client gone.
abbrev pub is_connected : List Call → Bool
is_connected [] = true
is_connected (receives disconnect ∷ calls) = false
is_connected (receives cancellation ∷ calls) = false
is_connected (call ∷ calls) = is_connected calls

-- The responses that the endpoint sends before it has asked for more bytes than the limit.
abbrev pub early : ℕ → ℕ → List Call → List Sent
early limit asked [] = []
early limit asked (receives (request body) ∷ calls) = early limit (asked + body) calls
early limit asked (receives i ∷ calls) = early limit asked calls
early limit asked (sends m ∷ calls) =
    let rest = early limit asked calls in if ltb limit asked then rest else response m ∷ rest

-- The rejection, where a response comes after that, or the error of the size is let through.
abbrev pub late : ℕ → ℕ → List Call → Ending → List Sent
late limit asked [] raises_too_large = rejection ∷ []
late limit asked [] ending = []
late limit asked (receives (request body) ∷ calls) ending = late limit (asked + body) calls ending
late limit asked (receives i ∷ calls) ending = late limit asked calls ending
late limit asked (sends m ∷ calls) ending =
    let rest = late limit asked calls ending in if ltb limit asked then rejection ∷ [] else rest

still_above : (limit asked body : ℕ) → ltb limit asked ≡ true → ltb limit (asked + body) ≡ true
still_above limit asked body h = ground arith

still_below : (limit asked body : ℕ) → ltb limit (asked + body) ≡ false → ltb limit asked ≡ false
still_below limit asked body h = ground arith

early-late :
    (limit asked : ℕ) (calls : List Call) → ltb limit asked ≡ true → early limit asked calls ≡ []
early-late limit asked [] h = refl
early-late limit asked (receives (request body) ∷ calls) h =
    early-late limit (asked + body) calls (still_above limit asked body h)
early-late limit asked (receives disconnect ∷ calls) h = early-late limit asked calls h
early-late limit asked (receives cancellation ∷ calls) h = early-late limit asked calls h
early-late limit asked (receives other_message ∷ calls) h = early-late limit asked calls h
early-late limit asked (sends m ∷ calls) h = rw h (early-late limit asked calls h)

-- What is sent from some flags on.
abbrev Expected : ℕ → ℕ → List Call → Ending → List Sent → Type 0
Expected limit asked calls ending sent =
    sent ≡ early limit asked calls ++ late limit asked calls ending

conclude-Expected :
    (limit : ℕ) (ending : Ending) (s : Flags)
    → s.rejected ≡ false
    → Expected limit s.received [] ending (conclude ending s)
unfolding conclude
conclude-Expected limit raises_too_large s r = rw r refl
conclude-Expected limit raises_disconnected s r = refl
conclude-Expected limit returns s r = refl
conclude-Expected limit raises_another s r = refl

expected :
    (limit : ℕ) (calls : List Call) (ending : Ending) (s : Flags)
    → s.rejected ≡ false
    → s.disconnected ≡ false
    → s.exceeded ≡ ltb limit s.received
    → is_connected calls ≡ true
    → Expected limit s.received calls ending (sent_by limit calls ending s)
unfolding endpoint bounded_receive
expected limit [] ending s r d e q = conclude-Expected limit ending s r
expected limit (receives cancellation ∷ calls) ending s r d e q = cc
expected limit (receives disconnect ∷ calls) ending s r d e q = cc
expected limit (receives other_message ∷ calls) ending s r d e q =
    expected limit calls ending s r d e q
expected limit (receives (request body) ∷ calls) ending s r d e q =
    by_test {B = Answer × Flags}
      (λ p. Expected limit (s.received + body) calls ending (sent_by limit calls ending p.1))
      (ltb limit (s.received + body))
      (λ t.
        expected limit calls ending (record s { received = s.received + body; exceeded = true }) r d
          (sym t) q)
      (λ f.
        expected limit calls ending (record s { received = s.received + body }) r d
          (e ∙ still_below limit s.received body f ∙ sym f) q)
expected limit (sends m ∷ calls) ending s r d e q =
    by_send
      (λ p. Expected limit s.received (sends m ∷ calls) ending (after_send limit calls ending p)) m
      s
      (λ gone. elim gone [
        | inl c ↦ let clash = rw d at c in cc
        | inr c ↦ let clash = rw r at c in cc
      ])
      (λ here over n.
        let above : ltb limit s.received ≡ true = sym e ∙ over in
        rw (above, early-late limit s.received calls above)
          (ap (λ rest. rejection ∷ rest)
            (rejected-silent limit calls ending (record s { rejected = true }) over refl)))
      (λ under.
        let below : ltb limit s.received ≡ false = sym e ∙ under in
        rw below (ap (λ rest. response m ∷ rest) (expected limit calls ending s r d e q)))

-- A client that stays connected is sent exactly the responses that the endpoint gives before it has
-- asked for more bytes than the limit, and then the rejection with 413, if the endpoint responds
-- after that or lets the error of the body's size through, and nothing else: no response of the
-- endpoint's own comes after the limit is passed.
pub serve-rejects :
    (limit : ℕ) (calls : List Call) (ending : Ending)
    → is_connected calls ≡ true
    → (serve limit calls ending).1.0 ≡ early limit 0 calls ++ late limit 0 calls ending
unfolding serve
serve-rejects limit calls ending q = expected limit calls ending fresh refl refl (nothing limit) q
  where
    nothing : (limit : ℕ) → false ≡ ltb limit 0
    nothing limit = ground arith
