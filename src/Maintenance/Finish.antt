-- ===== src/Maintenance/Finish.antt =====
-- Drains come to their end: the ends of all activities, and a queue item from its admission on.
use localplaud.Prelude.{
  ℕ, zero, suc, ◌+◌, ◌<◌, String, ◌≡◌, refl, ◌∙◌, Bool, true, false, inl, inr, none, some, List, [],
  ◌∷◌, ◌++◌, arith, ◌==◌, length, Bool-cases, by_test, ◌⊎◌, ==_iff, if◌then◌else◌,
}
use localplaud.Maintenance.Gate.{
  present, Gate, is_paused, reserve, is_open, shut, close, quiescent, queued,
}
use localplaud.Maintenance.Drain.{Reach, open_count, IsCounted, close-IsCounted, Reach-IsCounted}

-- The ends of the first `n` activities.
unfoldable pub finish_first : ℕ → Gate → Gate
finish_first zero g = g
finish_first (suc n) g = close n (finish_first n g)

shut-is_open :
    (i j : ℕ) (l : List Bool) → is_open j (shut i l) ≡ (if i == j then false else is_open j l)
unfolding is_open shut
shut-is_open i j [] = ground arith
shut-is_open zero zero (t ∷ l) = refl
shut-is_open zero (suc j) (t ∷ l) = ground arith
shut-is_open (suc i) zero (t ∷ l) = ground arith
shut-is_open (suc i) (suc j) (t ∷ l) = ground (arith, shut-is_open i j l)

close-is_open :
    (i j : ℕ) (g : Gate)
    → is_open j (close i g).tickets ≡ (if i == j then false else is_open j g.tickets)
unfolding close
close-is_open i j g =
    by_test (λ (h : Gate). is_open j h.tickets ≡ (if i == j then false else is_open j g.tickets))
      (is_open i g.tickets) (λ _. shut-is_open i j g.tickets)
      (λ ended. same (Bool-cases (i == j)) ended)
  where
    same :
        (i == j) ≡ true ⊎ (i == j) ≡ false
        → is_open i g.tickets ≡ false
        → is_open j g.tickets ≡ (if i == j then false else is_open j g.tickets)
    same (inl e) ended = rw e (rw⁻¹ ((==_iff i j).0 e) ended)
    same (inr e) ended = rw e refl

finish_first-shut : (n j : ℕ) (g : Gate) → j < n → is_open j (finish_first n g).tickets ≡ false
unfolding finish_first
finish_first-shut zero j g lt = ground arith
finish_first-shut (suc n) j g lt =
    ground (arith, close-is_open n j (finish_first n g), finish_first-shut n j g)

-- Closing keeps the number of tickets.
shut-length : (i : ℕ) (l : List Bool) → length (shut i l) ≡ length l
unfolding shut
shut-length i [] = refl
shut-length zero (t ∷ l) = refl
shut-length (suc i) (t ∷ l) = omega (arith, shut-length i l)

close-length : (i : ℕ) (g : Gate) → length (close i g).tickets ≡ length g.tickets
unfolding close
close-length i g =
    by_test (λ (h : Gate). length h.tickets ≡ length g.tickets) (is_open i g.tickets)
      (λ _. shut-length i g.tickets) (λ _. refl)

finish_first-length : (n : ℕ) (g : Gate) → length (finish_first n g).tickets ≡ length g.tickets
unfolding finish_first
finish_first-length zero g = refl
finish_first-length (suc n) g = close-length n (finish_first n g) ∙ finish_first-length n g

all_shut : (l : List Bool) → ((j : ℕ) → j < length l → is_open j l ≡ false) → open_count l ≡ 0
unfolding open_count is_open
all_shut [] h = refl
all_shut (true ∷ l) h = cc (h 0 (omega arith))
all_shut (false ∷ l) h = all_shut l (λ j lt. h (suc j) (omega (arith, lt)))

finish_first-IsCounted : (n : ℕ) (g : Gate) → IsCounted g → IsCounted (finish_first n g)
unfolding finish_first
finish_first-IsCounted zero g h = h
finish_first-IsCounted (suc n) g h =
    close-IsCounted n (finish_first n g) (finish_first-IsCounted n g h)

close-state :
    (i : ℕ) (g : Gate) → ((close i g).request ≡ g.request) × ((close i g).serving ≡ g.serving)
unfolding close
close-state i g =
    by_test (λ (h : Gate). (h.request ≡ g.request) × (h.serving ≡ g.serving)) (is_open i g.tickets)
      (λ _. (refl, refl)) (λ _. (refl, refl))

finish_first-state :
    (n : ℕ) (g : Gate)
    → ((finish_first n g).request ≡ g.request) × ((finish_first n g).serving ≡ g.serving)
unfolding finish_first
finish_first-state zero g = (refl, refl)
finish_first-state (suc n) g =
    let (a, b) = finish_first-state n g in
    let (c, d) = close-state n (finish_first n g) in (c ∙ a, d ∙ b)

-- A drain ends: from any state that a paused and serving gate can be in, once every activity that
-- was admitted has ended, the service reports itself quiescent.
pub finish_first-quiescent :
    (id : String) {s t : Gate}
    → IsCounted s
    → Reach s t
    → t.request ≡ present id
    → t.serving ≡ true
    → quiescent (finish_first (length t.tickets) t) ≡ true
unfolding quiescent
finish_first-quiescent id {s} {t} h r asked on =
    let n = length t.tickets in
    let (request, serving) = finish_first-state n t in
    let idle : (finish_first n t).active ≡ 0 =
      finish_first-IsCounted n t (Reach-IsCounted h r)
      ∙ all_shut (finish_first n t).tickets
          (λ j lt. finish_first-shut n j t (omega (arith, lt, finish_first-length n t))) in
    rw (request ∙ asked, serving ∙ on, idle) refl

last-is_open : (l : List Bool) → is_open (length l) (l ++ true ∷ []) ≡ true
unfolding is_open
last-is_open [] = refl
last-is_open (t ∷ l) = last-is_open l

refused :
    (admitted : Bool) (g : Gate)
    → is_paused g.request ≡ true
    → reserve false false admitted g ≡ none
unfolding reserve
refused admitted g paused = rw paused refl

let_in :
    (admitted : Bool) (g : Gate)
    → is_paused g.request ≡ false
    → reserve false false admitted g
      ≡ some (record g { active = g.active + 1; tickets = g.tickets ++ true ∷ [] })
unfolding reserve
let_in admitted g free = rw free refl

queued-entered :
    (admitted : Bool) (g : Gate)
    → is_paused g.request ≡ false
    → (queued admitted (λ h. h) g).1.active ≡ g.active
unfolding queued close
queued-entered admitted g free =
    rw (let_in admitted g free, queued) (rw (last-is_open g.tickets, close) (omega arith))

-- A queue item is refused under a pause, even from within admitted work, and leaves the gate as it
-- was; at any other time its target runs, and once it has ended the count is what it was before.
queued_lem :
    (admitted : Bool) (target : Gate → Gate) (g : Gate)
    → (is_paused g.request ≡ true → queued admitted target g ≡ (false, g))
      × (is_paused g.request ≡ false → (queued admitted (λ h. h) g).1.active ≡ g.active)
unfolding queued
queued_lem admitted target g =
    ((λ paused. rw (refused admitted g paused, queued) refl), queued-entered admitted g)
