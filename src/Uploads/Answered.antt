-- ===== src/Uploads/Answered.antt =====
-- What the client is sent, in which order.
use localplaud.Prelude.{
  ℕ, ◌+◌, ◌≡◌, ◌⊎◌, refl, sym, ◌∙◌, Bool, true, false, not, inl, inr, List, [], ◌∷◌, ◌++◌, ltb,
  by_test,
}
use localplaud.Uploads.Body.{
  Incoming, request, disconnect, other_message, cancellation, Answer, Flags, Sent, response,
  rejection, bounded_receive, bounded_send, Call, receives, sends, Ending, returns,
  raises_too_large, raises_disconnected, raises_another, endpoint, conclude,
}

-- At most one rejection, and nothing after it.
abbrev pub IsAnswered : List Sent → Type 0
IsAnswered [] = Unit
IsAnswered (response m ∷ rest) = IsAnswered rest
IsAnswered (rejection ∷ rest) = rest ≡ []

-- What the calls send and the end adds.
abbrev pub closed : Ending → List Sent × Flags → List Sent
closed ending (sent, s) = sent ++ conclude ending s

abbrev pub sent_by : ℕ → List Call → Ending → Flags → List Sent
sent_by limit calls ending s = closed ending (endpoint limit calls s).1

receive-exceeded :
    (limit : ℕ) (i : Incoming) (s : Flags)
    → s.exceeded ≡ true
    → (bounded_receive limit i s).1.exceeded ≡ true
unfolding bounded_receive
receive-exceeded limit cancellation s e = e
receive-exceeded limit disconnect s e = e
receive-exceeded limit other_message s e = e
receive-exceeded limit (request body) s e =
    by_test {B = Answer × Flags} (λ p. p.1.exceeded ≡ true) (ltb limit (s.received + body))
      (λ t. refl) (λ f. e)

pub receive-rejected :
    (limit : ℕ) (i : Incoming) (s : Flags) → (bounded_receive limit i s).1.rejected ≡ s.rejected
unfolding bounded_receive
receive-rejected limit cancellation s = refl
receive-rejected limit disconnect s = refl
receive-rejected limit other_message s = refl
receive-rejected limit (request body) s =
    by_test {B = Answer × Flags} (λ p. p.1.rejected ≡ s.rejected) (ltb limit (s.received + body))
      (λ t. refl) (λ f. refl)

-- The three things that a send can do.
pub by_send :
    (P : List Sent × Flags → Type 0) (m : ℕ) (s : Flags)
    → ((s.disconnected ≡ true) ⊎ (s.rejected ≡ true) → P ([], s))
    → (s.disconnected ≡ false
        → s.exceeded ≡ true
        → s.rejected ≡ false
        → P (rejection ∷ [], record s { rejected = true }))
    → (s.exceeded ≡ false → P (response m ∷ [], s))
    → P (bounded_send m s)
unfolding bounded_send
by_send P m s quiet rejects passes =
    by_test P s.disconnected (λ gone. quiet (inl gone))
      (λ here.
        by_test P s.exceeded
          (λ e.
            by_test P (not s.rejected) (λ n. rejects here e (was_not s.rejected n))
              (λ n. quiet (inr (was s.rejected n))))
          passes)
  where
    was : (b : Bool) → not b ≡ false → b ≡ true
    was true n = refl
    was false n = sym n

    was_not : (b : Bool) → not b ≡ true → b ≡ false
    was_not true n = sym n
    was_not false n = refl

-- What the calls send and the end adds, after a send.
abbrev pub after_send : ℕ → List Call → Ending → List Sent × Flags → List Sent
after_send limit rest ending (now, s) =
    let out = (endpoint limit rest s).1 in closed ending (now ++ out.0, out.1)

conclude-silent : (ending : Ending) (s : Flags) → s.rejected ≡ true → conclude ending s ≡ []
unfolding conclude
conclude-silent raises_too_large s r = rw r refl
conclude-silent raises_disconnected s r = refl
conclude-silent returns s r = refl
conclude-silent raises_another s r = refl

pub rejected-silent :
    (limit : ℕ) (calls : List Call) (ending : Ending) (s : Flags)
    → s.exceeded ≡ true
    → s.rejected ≡ true
    → sent_by limit calls ending s ≡ []
unfolding endpoint
rejected-silent limit [] ending s e r = conclude-silent ending s r
rejected-silent limit (receives i ∷ calls) ending s e r =
    rejected-silent limit calls ending (bounded_receive limit i s).1 (receive-exceeded limit i s e)
      (receive-rejected limit i s ∙ r)
rejected-silent limit (sends m ∷ calls) ending s e r =
    by_send (λ p. after_send limit calls ending p ≡ []) m s
      (λ q. rejected-silent limit calls ending s e r) (λ here x n. let clash = rw r at n in cc)
      (λ x. let clash = rw x at e in cc)
