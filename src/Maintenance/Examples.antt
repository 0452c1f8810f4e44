-- ===== src/Maintenance/Examples.antt =====
-- A service that takes two activities, is paused, ends one of them, and then the other.
use localplaud.Prelude.{Bool, ◌&&◌, ◌||◌, ◌≡◌, refl, true, false, [], ◌∷◌, any}
use localplaud.Maintenance.Gate.{
  Gate, absent, present, reserve, begin_maintenance, close, is_open, shut, quiescent,
}
use localplaud.Maintenance.Drain.{
  enter, leave, pause, Reach, here, next, open_count, is_admitted, Reach-quiescent,
}
use localplaud.Maintenance.Finish.{finish_first, finish_first-quiescent}

abbrev started : Gate
started = record { request = absent; active = 0; serving = true; tickets = [] }

abbrev busy : Gate
busy = record { request = absent; active = 2; serving = true; tickets = true ∷ true ∷ [] }

abbrev paused : Gate
paused = record busy { request = present "0f" }

abbrev drained : Gate
drained = record {
  request = present "0f";
  active = 0;
  serving = true;
  tickets = false ∷ false ∷ [];
}

to_paused : Reach started paused
unfolding reserve begin_maintenance
to_paused =
    next
      (next
        (next here (
          enter true false false started (record started { active = 1; tickets = true ∷ [] }) refl))
        (enter true false false (record started { active = 1; tickets = true ∷ [] }) busy refl))
      (pause "0f" busy paused refl)

to_drained : Reach started drained
unfolding close is_open shut
to_drained = next (next to_paused (leave 1 paused)) (leave 0 (close 1 paused))

Reach-quiescent_example :
    (any (λ held. held) drained.tickets ≡ false)
    × ((inherit continuation admitted : Bool)
        → is_admitted (reserve inherit continuation admitted drained)
          ≡ (continuation || (inherit && admitted)))
unfolding open_count quiescent
Reach-quiescent_example = Reach-quiescent {s = started} {t = drained} refl to_drained refl

finish_first-quiescent_example : quiescent (finish_first 2 paused) ≡ true
unfolding open_count
finish_first-quiescent_example =
    finish_first-quiescent "0f" {s = started} {t = paused} refl to_paused refl refl
