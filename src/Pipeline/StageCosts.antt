-- ===== src/Pipeline/StageCosts.antt =====
-- The money of a stage's end: the attempt is charged, its reservations are released.
use mathlib.Core.Path.{subst}
use localplaud.Prelude.{
  some_eq, ℕ, ◌+◌, ◌≤◌, String, ◌≡◌, refl, sym, ap, ◌∙◌, Bool, true, false, not, ◌&&◌, inl, inr,
  Option, some, List, [], ◌∷◌, map, arith, ◌==◌, ==_iff, Bool-cases, any, keep, find?, find?-passes,
  by_test, sum, str_eq,
}
use localplaud.Pipeline.Recording.{StageName}
use localplaud.Costs.Usage.{Catalog, Selection, normalize_usage, estimate_cost, pricing_for_stage}
use localplaud.Costs.Ledger.{
  StageAttempt, Reservation, when, reserved_part, stage_spent, note_spent, ask_spent, reserved,
  spent,
}
use localplaud.Costs.Reservations.{listed, reservation_total}
use localplaud.Costs.Folding.{HasUniqueId}
use localplaud.Pipeline.Stages.{
  Run, Attempt, Tables, ledger, Change, run_of, changed_run, put_run, is_expected, is_closing,
  keeps_cost, charge, is_ended, ended, put_attempt, end_attempt, close_attempt, started,
  write_stage, set_stage,
}

abbrev attempt_id : Attempt → ℕ
attempt_id a = a.row.id

put-absent :
    (new : Attempt) (l : List Attempt)
    → any (λ a. attempt_id a == attempt_id new) l ≡ false
    → put_attempt new l ≡ l
put-absent new [] h = refl
put-absent new (x ∷ l) h = elim (Bool-cases (x.row.id == new.row.id)) [
  | inl b ↦ cc (rw b at h)
  | inr b ↦ rw b (ap (λ rest. x ∷ rest) (put-absent new l (rw b at h)))
]

found-any :
    (test : Attempt → Bool) (l : List Attempt) (a : Attempt)
    → find? test l ≡ some a
    → any (λ b. attempt_id b == attempt_id a) l ≡ true
found-any test [] a e = cc
found-any test (x ∷ l) a e = elim (Bool-cases (test x)) [
  | inl t ↦
      let same : x ≡ a = some_eq (rw t at e) in
      rw ((==_iff x.row.id a.row.id).1 (ap attempt_id same)) refl
  | inr t ↦
      by_test (λ b. b ≡ true) (x.row.id == a.row.id) (λ _. refl)
        (λ _. found-any test l a (rw t at e))
]

-- The commit of the attempt that a test finds changes a sum by that attempt alone.
put-sum :
    (f : StageAttempt → ℕ) (test : Attempt → Bool) (new : Attempt) (l : List Attempt) (a : Attempt)
    → HasUniqueId attempt_id l
    → find? test l ≡ some a
    → attempt_id new ≡ attempt_id a
    → sum f (map (λ (b : Attempt). b.row) (put_attempt new l)) + f a.row
      ≡ sum f (map (λ (b : Attempt). b.row) l) + f new.row
unfolding sum
put-sum f test new [] a u e same = cc
put-sum f test new (x ∷ l) a u e same = elim (Bool-cases (test x)) [
  | inl t ↦
      let it : x ≡ a = some_eq (rw t at e) in
      let key : x.row.id ≡ new.row.id = ap attempt_id it ∙ sym same in
      let cost : f x.row ≡ f a.row = ap (λ (b : Attempt). f b.row) it in
      rw
        (
          (==_iff x.row.id new.row.id).1 key,
          put-absent new l (subst (λ k. any (λ b. attempt_id b == k) l ≡ false) key u.0),
        )
        (omega (arith, cost))
  | inr t ↦
      let rest = rw t at e in
      rw (other x l a u.0 (found-any test l a rest) same)
        (omega (arith, put-sum f test new l a u.1 rest same))
]
  where
    other :
        (x : Attempt) (l : List Attempt) (a : Attempt)
        → any (λ b. attempt_id b == attempt_id x) l ≡ false
        → any (λ b. attempt_id b == attempt_id a) l ≡ true
        → attempt_id new ≡ attempt_id a
        → (x.row.id == new.row.id) ≡ false
    other x l a h k same = elim (Bool-cases (x.row.id == new.row.id)) [
      | inr b ↦ b
      | inl b ↦
          let key = (==_iff x.row.id new.row.id).0 b ∙ same in
          cc (subst (λ k. any (λ b. attempt_id b == k) l ≡ false) key h, k)
    ]

-- What the listed reservations hold of a budget.
abbrev pub freed : List String → String → List Reservation → ℕ
freed ids file l = sum (λ (r : Reservation). when (listed ids r.id) (reserved_part (some file) r)) l

keep-sum :
    (ids : List String) (file : String) (l : List Reservation)
    → sum (reserved_part (some file)) (keep (λ r. not (listed ids r.id)) l) + freed ids file l
      ≡ sum (reserved_part (some file)) l
unfolding sum
keep-sum ids file [] = refl
keep-sum ids file (r ∷ l) = ground (arith, keep-sum ids file l)

freed-le :
    (ids : List String) (file : String) (l : List Reservation)
    → freed ids file l ≤ sum (λ (r : Reservation). when (listed ids r.id) r.estimated_cost) l
unfolding sum
freed-le ids file [] = omega arith
freed-le ids file (r ∷ l) = ground (arith, freed-le ids file l)

is_ended_parts :
    (file : String) (stage : StageName) (attempt : ℕ) (a : Attempt)
    → is_ended file stage attempt a ≡ true
    → (str_eq a.row.file_id file ≡ true) × (a.row.is_running ≡ true)
is_ended_parts file stage attempt a h = ground arith

-- The attempt that ends does not count before, and is charged to its recording after.
ended-sum :
    (now : ℕ) (file : String) (c : Change) (attempt cost held : ℕ) (l : List Attempt) (a : Attempt)
    → HasUniqueId attempt_id l
    → find? (is_ended file c.stage attempt) l ≡ some a
    → let f : StageAttempt → ℕ =
        λ b. when (str_eq b.file_id file && not b.is_running) b.estimated_cost in
      sum f (map (λ (b : Attempt). b.row) (put_attempt (ended now c held cost a) l))
      ≡ sum f (map (λ (b : Attempt). b.row) l) + charge c.new_status a.row.estimated_cost held cost
ended-sum now file c attempt cost held l a u e =
    let f : StageAttempt → ℕ =
      λ b. when (str_eq b.file_id file && not b.is_running) b.estimated_cost in
    let (mine, runs) =
      is_ended_parts file c.stage attempt a (find?-passes (is_ended file c.stage attempt) l a e) in
    let before : f a.row ≡ 0 = rw (mine, runs) refl in
    let after : f (ended now c held cost a).row
        ≡ charge c.new_status a.row.estimated_cost held cost =
      unfold ended in rw mine refl in
    omega (
      arith,
      put-sum f (is_ended file c.stage attempt) (ended now c held cost a) l a u e
          (unfold ended in refl),
      before,
      after,
    )

end_attempt-spent :
    (now : ℕ) (file : String) (c : Change) (attempt cost : ℕ) (a : Attempt) (t : Tables)
    → HasUniqueId attempt_id t.attempts
    → find? (is_ended file c.stage attempt) t.attempts ≡ some a
    → let ids = a.row.dispatch_reservation_ids in
      spent (some file) (ledger (end_attempt now c cost a t)) + freed ids file t.reservations
      ≡ spent (some file) (ledger t)
        + charge c.new_status a.row.estimated_cost (reservation_total ids (ledger t)) cost
unfolding end_attempt spent stage_spent note_spent ask_spent reserved
end_attempt-spent now file c attempt cost a t u e = omega (
  arith,
  ended-sum now file c attempt cost (reservation_total a.row.dispatch_reservation_ids (ledger t))
      t.attempts a u e,
  keep-sum a.row.dispatch_reservation_ids file t.reservations,
)

charge_bounds :
    (file : String) (c : Change) (cost : ℕ) (a : Attempt) (t : Tables)
    → keeps_cost c.new_status ≡ true
    → let ids = a.row.dispatch_reservation_ids in
      freed ids file t.reservations
      ≤ charge c.new_status a.row.estimated_cost (reservation_total ids (ledger t)) cost
unfolding reservation_total
charge_bounds file c cost a t h =
    rw h (omega (arith, freed-le a.row.dispatch_reservation_ids file t.reservations))

pub write_closed :
    (now id : ℕ) (file : String) (cost : ℕ) (c : Change) (r : Run) (t : Tables) (a : Attempt)
    → c.begin_attempt ≡ false
    → is_closing c.new_status ≡ true
    → find? (is_ended file c.stage r.run.attempts) t.attempts ≡ some a
    → write_stage now id file cost c r t
      ≡ end_attempt now c cost a
          (record t { runs = put_run file c.stage (changed_run now c r) t.runs })
unfolding write_stage started close_attempt
write_closed now id file cost c r t a waits closes found =
    rw (waits, started) (rw (closes) (rw (found, close_attempt) refl))

-- Where a change closes a stage, and with it the running attempt of the stage's run, the recording's
-- spend loses what that attempt's reservations held of its budget, and gains the attempt's charge:
-- the reported cost where the stage completed, and else the highest of the projected, the reserved
-- and the reported cost, so that a stage that did not complete never lowers the spend. The condition
-- is that the attempts' ids are a key.
pub set_stage-spent :
    (now id : ℕ) (catalog : Catalog) (selection : Option Selection) (file : String) (c : Change)
    (t t' : Tables) (a : Attempt)
    → HasUniqueId attempt_id t.attempts
    → c.begin_attempt ≡ false
    → is_closing c.new_status ≡ true
    → find? (is_ended file c.stage (run_of file c.stage t.runs).run.attempts) t.attempts ≡ some a
    → set_stage now id catalog selection file c t ≡ some t'
    → let ids = a.row.dispatch_reservation_ids in
      let cost = estimate_cost (normalize_usage c.usage) (pricing_for_stage catalog selection) in
      let before = spent (some file) (ledger t) in
      let after = spent (some file) (ledger t') in
      (after + freed ids file t.reservations
        ≡ before + charge c.new_status a.row.estimated_cost (reservation_total ids (ledger t)) cost)
      × (keeps_cost c.new_status ≡ true → before ≤ after)
unfolding set_stage
set_stage-spent now id catalog selection file c t t' a u waits closes found set =
    by_test (λ m. m ≡ some t' → Settled) (is_expected c.expected r.generation)
      (λ _ h.
        rw (← (sym (write_closed now id file cost c r t a waits closes found) ∙ some_eq h)) settled)
      (λ _ h. cc) set
  where
    r : Run
    r = run_of file c.stage t.runs

    cost : ℕ
    cost = estimate_cost (normalize_usage c.usage) (pricing_for_stage catalog selection)

    Adds : Tables → Type 0
    Adds m =
        let ids = a.row.dispatch_reservation_ids in
        let before = spent (some file) (ledger t) in
        let after = spent (some file) (ledger m) in
        (after + freed ids file t.reservations
          ≡ before
            + charge c.new_status a.row.estimated_cost (reservation_total ids (ledger t)) cost)
        × (keeps_cost c.new_status ≡ true → before ≤ after)

    Settled : Type 0
    Settled = Adds t'

    settled : Adds (
        end_attempt now c cost a
          (record t { runs = put_run file c.stage (changed_run now c r) t.runs }))
    settled =
        let m = record t { runs = put_run file c.stage (changed_run now c r) t.runs } in
        let exact = end_attempt-spent now file c r.run.attempts cost a m u found in
        (exact, λ k. omega (arith, exact, charge_bounds file c cost a t k))
