-- ===== src/Maintenance/Drain.antt =====
-- Draining: the gate's count is the number of open tickets, so a quiescent service has none.
use localplaud.Prelude.{
  ℕ, zero, suc, ◌+◌, String, ◌≡◌, refl, sym, ◌∙◌, Bool, true, false, ◌&&◌, ◌||◌, Option, none, some,
  List, [], ◌∷◌, ◌++◌, arith, any, by_test,
}
use localplaud.Maintenance.Gate.{
  unreadable, Gate, is_paused, reserve, is_open, shut, close, quiescent, begin_maintenance,
  resume_maintenance,
}

-- What happens to a service's gate, in any order: admissions of every kind, ends of admitted work,
-- once or again, the start and the stop of serving, and the control command.
pub data Step : Gate → Gate → Type 0 where
  enter :
      (inherit continuation admitted : Bool) (g g' : Gate)
      → reserve inherit continuation admitted g ≡ some g'
      → Step g g'
  leave : (i : ℕ) (g : Gate) → Step g (close i g)
  serve : (on : Bool) (g : Gate) → Step g (record g { serving = on })
  pause : (id : String) (g g' : Gate) → begin_maintenance id g ≡ some g' → Step g g'
  resume : (id : String) (g g' : Gate) → resume_maintenance id g ≡ some g' → Step g g'
  corrupt : (g : Gate) → Step g (record g { request = unreadable })

pub data Reach (s : Gate) : Gate → Type 0 where
  here : Reach s s
  next : {t u : Gate} → Reach s t → Step t u → Reach s u

-- The tickets that are open.
unfoldable pub open_count : List Bool → ℕ
open_count [] = 0
open_count (true ∷ rest) = suc (open_count rest)
open_count (false ∷ rest) = open_count rest

-- The count is right.
abbrev pub IsCounted : Gate → Type 0
IsCounted g = g.active ≡ open_count g.tickets

open_count-new : (l : List Bool) → open_count (l ++ true ∷ []) ≡ open_count l + 1
unfolding open_count
open_count-new [] = omega arith
open_count-new (true ∷ l) = omega (arith, open_count-new l)
open_count-new (false ∷ l) = open_count-new l

open_count-shut :
    (i : ℕ) (l : List Bool) → is_open i l ≡ true → open_count (shut i l) + 1 ≡ open_count l
unfolding open_count shut is_open
open_count-shut i [] h = cc
open_count-shut zero (true ∷ l) h = omega arith
open_count-shut zero (false ∷ l) h = cc
open_count-shut (suc i) (true ∷ l) h = omega (arith, open_count-shut i l h)
open_count-shut (suc i) (false ∷ l) h = open_count-shut i l h

pub close-IsCounted : (i : ℕ) (g : Gate) → IsCounted g → IsCounted (close i g)
unfolding close
close-IsCounted i g h =
    by_test IsCounted (is_open i g.tickets)
      (λ yes. omega (arith, open_count-shut i g.tickets yes, h)) (λ _. h)

reserve-IsCounted :
    (inherit continuation admitted : Bool) (g g' : Gate)
    → reserve inherit continuation admitted g ≡ some g'
    → IsCounted g
    → IsCounted g'
unfolding reserve
reserve-IsCounted inherit continuation admitted g g' e h = ground (arith, open_count-new g.tickets)

begin-IsCounted :
    (id : String) (g g' : Gate) → begin_maintenance id g ≡ some g' → IsCounted g → IsCounted g'
unfolding begin_maintenance
begin-IsCounted id g g' e h = ground arith

resume-IsCounted :
    (id : String) (g g' : Gate) → resume_maintenance id g ≡ some g' → IsCounted g → IsCounted g'
unfolding resume_maintenance
resume-IsCounted id g g' e h = ground arith

Step-IsCounted : {g g' : Gate} → Step g g' → IsCounted g → IsCounted g'
Step-IsCounted (enter inherit continuation admitted g g' e) h =
    reserve-IsCounted inherit continuation admitted g g' e h
Step-IsCounted (leave i g) h = close-IsCounted i g h
Step-IsCounted (serve on g) h = h
Step-IsCounted (pause id g g' e) h = begin-IsCounted id g g' e h
Step-IsCounted (resume id g g' e) h = resume-IsCounted id g g' e h
Step-IsCounted (corrupt g) h = h

pub Reach-IsCounted : {s t : Gate} → IsCounted s → Reach s t → IsCounted t
Reach-IsCounted h here = h
Reach-IsCounted h (next r st) = Step-IsCounted st (Reach-IsCounted h r)

none_open : (l : List Bool) → open_count l ≡ 0 → any (λ held. held) l ≡ false
unfolding open_count
none_open [] h = refl
none_open (true ∷ l) h = ground arith
none_open (false ∷ l) h = none_open l h

abbrev pub is_admitted : Option Gate → Bool
is_admitted none = false
is_admitted (some g) = true

paused_reserve :
    (inherit continuation admitted : Bool) (g : Gate)
    → is_paused g.request ≡ true
    → is_admitted (reserve inherit continuation admitted g)
      ≡ (continuation || (inherit && admitted))
unfolding reserve
paused_reserve inherit true admitted g p = refl
paused_reserve true false true g p = refl
paused_reserve true false false g p = rw p refl
paused_reserve false false admitted g p = rw p refl

-- Whatever was admitted, ended, paused and resumed before, a service that reports itself
-- quiescent has no admitted work left, and it admits a request exactly where that is a
-- continuation, or inherits the admission of work around it.
pub Reach-quiescent :
    {s t : Gate}
    → IsCounted s
    → Reach s t
    → quiescent t ≡ true
    → (any (λ held. held) t.tickets ≡ false)
      × ((inherit continuation admitted : Bool)
          → is_admitted (reserve inherit continuation admitted t)
            ≡ (continuation || (inherit && admitted)))
unfolding quiescent
Reach-quiescent {s} {t} h r q = (
  none_open t.tickets (sym (Reach-IsCounted h r) ∙ idle),
  λ inherit continuation admitted. paused_reserve inherit continuation admitted t paused,
)
  where
    idle : t.active ≡ 0
    idle = ground arith

    paused : is_paused t.request ≡ true
    paused = ground arith
