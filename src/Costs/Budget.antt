-- ===== src/Costs/Budget.antt =====
-- The ceiling of the cost ledger: what a reservation adds, and to which budget.
use mathlib.Core.Path.{subst}
use localplaud.Prelude.{
  ℕ, ◌+◌, ◌≤◌, String, ◌≡◌, refl, sym, ap, ◌∙◌, Bool, true, false, not, ◌&&◌, inl, inr, Option,
  none, some, List, [], ◌∷◌, ◌++◌, arith, leb, eq_refl, Option-cases, by_test, find, put, find-key,
  sum, sum-append, sum-put,
}
use localplaud.Costs.Usage.{
  Usage, Catalog, Selection, Pricing, estimate_cost, pricing_for_stage, is_external,
}
use localplaud.Costs.Ledger.{
  Reservation, Ledger, reservation_id, same_scope, when, reserved_part, reserved, spent,
  stage_spent, note_spent, ask_spent,
}
use localplaud.Costs.Reservations.{
  Costed, ok, Dispatch, Snapshot, extended, new_reservation, reserve_row, reserve_selected,
  reserve_provider_cost, over, has_ceiling, has_pricing,
}

pub same_scope_refl : (s : Option String) → same_scope s s ≡ true
same_scope_refl none = refl
same_scope_refl (some a) = eq_refl a

-- The reservation's row, where there is one, is on the budget that the caller names.
abbrev pub IsFor : String → Option String → Ledger → Type 0
IsFor id file_id l =
    (row : Reservation) → find reservation_id id l.reservations ≡ some row → row.scope ≡ file_id

when-add : (b : Bool) (a n : ℕ) → when b (a + n) ≡ when b a + when b n
when-add true a n = refl
when-add false a n = refl

extended_part :
    (d : Dispatch) (usage : Usage) (projected : ℕ) (selection : Selection) (s : Option String)
    (row : Reservation)
    → reserved_part s (extended d usage projected selection row)
      ≡ reserved_part s row + when (same_scope row.scope s) projected
extended_part d usage projected selection s row =
    when-add (same_scope row.scope s) row.estimated_cost projected

new_part : (b : Bool) → when b 0 ≡ 0
new_part true = refl
new_part false = refl

singleton_sum :
    (s : Option String) (r : Reservation) → sum (reserved_part s) (r ∷ []) ≡ reserved_part s r
unfolding sum
singleton_sum s r = omega arith

reserve_row-reserved :
    (d : Dispatch) (id : String) (file_id : Option String) (operation : String) (is_free : Bool)
    (usage : Usage) (projected : ℕ) (selection : Selection) (l : Ledger) (s : Option String)
    → IsFor id file_id l
    → (is_free ≡ true → projected ≡ 0)
    → reserved s (reserve_row d id file_id operation is_free usage projected selection l)
      ≡ reserved s l + when (same_scope file_id s) projected
unfolding reserved reserve_row
reserve_row-reserved d id file_id operation is_free usage projected selection l s mine zero =
    elim (Option-cases (find reservation_id id l.reservations)) [
      | inl e ↦
          rw (e, reserve_row)
            (by_test
              (λ (m : Ledger).
                sum (reserved_part s) m.reservations
                ≡ sum (reserved_part s) l.reservations + when (same_scope file_id s) projected)
              is_free (λ t. nothing (zero t)) (λ _. appended))
      | inr (row, e) ↦ rw (e, reserve_row) (grown row e)
    ]
  where
    nothing :
        projected ≡ 0
        → sum (reserved_part s) l.reservations
          ≡ sum (reserved_part s) l.reservations + when (same_scope file_id s) projected
    nothing z = ground arith

    first : Reservation
    first = extended d usage projected selection (new_reservation id file_id operation)

    appended :
        sum (reserved_part s) (l.reservations ++ first ∷ [])
        ≡ sum (reserved_part s) l.reservations + when (same_scope file_id s) projected
    appended =
        let added =
          extended_part d usage projected selection s (new_reservation id file_id operation) in
        omega (
          arith,
          sum-append (reserved_part s) l.reservations (first ∷ []),
          singleton_sum s first,
          added,
          new_part (same_scope file_id s),
        )

    grown :
        (row : Reservation)
        → find reservation_id id l.reservations ≡ some row
        → sum
            (reserved_part s)
            (put reservation_id (extended d usage projected selection row) l.reservations)
          ≡ sum (reserved_part s) l.reservations + when (same_scope file_id s) projected
    grown row e =
        let new = extended d usage projected selection row in
        let found =
          subst (λ k. find reservation_id k l.reservations ≡ some row)
            (sym (find-key reservation_id id l.reservations row e)) e in
        let change = sum-put (reserved_part s) reservation_id new l.reservations row found in
        let added : reserved_part s new
            ≡ reserved_part s row + when (same_scope file_id s) projected =
          extended_part d usage projected selection s row
          ∙ ap (λ t. reserved_part s row + when (same_scope t s) projected) (mine row e) in
        omega (arith, change, added)

-- The spend that is not reserved.
abbrev SameSpend : Option String → Ledger → Ledger → Type 0
SameSpend s l l' =
    (stage_spent s l' ≡ stage_spent s l)
    × (note_spent s l' ≡ note_spent s l)
    × (ask_spent s l' ≡ ask_spent s l)

other_tables :
    (s : Option String) (l : Ledger) (rows : List Reservation)
    → SameSpend s l (record l { reservations = rows })
unfolding stage_spent note_spent ask_spent
other_tables none l rows = (refl, refl, refl)
other_tables (some file_id) l rows = (refl, refl, refl)

reserve_row-SameSpend :
    (d : Dispatch) (id : String) (file_id : Option String) (operation : String) (is_free : Bool)
    (usage : Usage) (projected : ℕ) (selection : Selection) (l : Ledger) (s : Option String)
    → SameSpend s l (reserve_row d id file_id operation is_free usage projected selection l)
unfolding reserve_row
reserve_row-SameSpend d id file_id operation is_free usage projected selection l s =
    elim (Option-cases (find reservation_id id l.reservations)) [
      | inl e ↦
          rw (e, reserve_row)
            (by_test (SameSpend s l) is_free (λ _. (refl, refl, refl)) (λ _. other_tables s l _))
      | inr (row, e) ↦ rw (e, reserve_row) (other_tables s l _)
    ]

-- The effect of a reservation on every budget.
reserve_row-spent :
    (d : Dispatch) (id : String) (file_id : Option String) (operation : String) (is_free : Bool)
    (usage : Usage) (projected : ℕ) (selection : Selection) (l : Ledger) (s : Option String)
    → IsFor id file_id l
    → (is_free ≡ true → projected ≡ 0)
    → spent s (reserve_row d id file_id operation is_free usage projected selection l)
      ≡ spent s l + when (same_scope file_id s) projected
unfolding spent
reserve_row-spent d id file_id operation is_free usage projected selection l s mine zero =
    let (a, b, c) =
      reserve_row-SameSpend d id file_id operation is_free usage projected selection l s in
    omega (
      arith,
      reserve_row-reserved d id file_id operation is_free usage projected selection l s mine zero,
      a,
      b,
      c,
    )

-- What a reservation that succeeds with `projected` leaves behind.
abbrev pub Reserved : Option String → Option ℕ → ℕ → Ledger → ℕ → Ledger → Type 0
Reserved file_id ceiling additional l projected l' =
    ((s : Option String) → spent s l' ≡ spent s l + when (same_scope file_id s) projected)
    × ((limit : ℕ) → ceiling ≡ some limit → spent file_id l' + additional ≤ limit)

ok_eq {ℓ} : {A : Type ℓ} {a b : A} → ok a ≡ ok b → a ≡ b
ok_eq h = cc

is_free-zero : (a b : Bool) (n : ℕ) → not a && leb n 0 && not b ≡ true → n ≡ 0
is_free-zero a b n h = ground arith

-- The budget's spend with the new cost is what the check compared.
fitting :
    (file_id : Option String) (ceiling : Option ℕ) (additional cost before after : ℕ)
    → over ceiling (before + additional + cost) ≡ false
    → after ≡ before + when (same_scope file_id file_id) cost
    → (limit : ℕ) → ceiling ≡ some limit
    → after + additional ≤ limit
fitting file_id ceiling additional cost before after fits e limit c =
    ground (arith, same_scope_refl file_id)

reserve_selected-Reserved :
    (d : Dispatch) (c : Catalog) (id : String) (file_id : Option String) (operation : String)
    (ceiling : Option ℕ) (usage : Usage) (additional : ℕ) (selection : Selection) (l l' : Ledger)
    (projected : ℕ)
    → IsFor id file_id l
    → reserve_selected d c id file_id operation ceiling usage additional selection l
      ≡ ok (projected, l')
    → Reserved file_id ceiling additional l projected l'
unfolding reserve_selected
reserve_selected-Reserved d c id file_id operation ceiling usage additional selection l l' projected
      mine =
    by_test Good (has_ceiling ceiling && is_external (some selection) && not (has_pricing pricing))
      (λ _ h. cc)
      λ _.
        by_test Good (over ceiling (spent file_id l + additional + cost)) (λ _ h. cc)
          λ fits h.
            let left =
              reserve_row-spent d id file_id operation
                (not (has_ceiling ceiling) && leb cost 0 && not (is_external (some selection)))
                usage cost selection l in
            let zero = is_free-zero (has_ceiling ceiling) (is_external (some selection)) cost in
            subst {A = ℕ × Ledger} (λ out. Reserved file_id ceiling additional l out.0 out.1)
              (ok_eq h)
              (
                (λ s. left s mine zero),
                fitting file_id ceiling additional cost (spent file_id l) _ fits
                    (left file_id mine zero),
              )
  where
    pricing : Option Pricing
    pricing = pricing_for_stage c (some selection)

    cost : ℕ
    cost = estimate_cost usage pricing

    Good : Costed (ℕ × Ledger) → Type 0
    Good r = r ≡ ok (projected, l') → Reserved file_id ceiling additional l projected l'

-- A provider call that is reserved adds its projection to the budget it names, and to no other,
-- and keeps that budget, with what the caller spent besides, at or under the profile's ceiling.
-- The condition is that the reservation's row, where there is one, is on that budget.
pub reserve_provider_cost-Reserved :
    (d : Dispatch) (c : Catalog) (id : String) (file_id : Option String) (operation : String)
    (snapshot : Snapshot) (usage : Usage) (additional : ℕ) (l l' : Ledger) (projected : ℕ)
    → IsFor id file_id l
    → reserve_provider_cost d c id file_id operation snapshot usage additional l
      ≡ ok (projected, l')
    → Reserved file_id snapshot.cost_ceiling additional l projected l'
unfolding reserve_provider_cost
reserve_provider_cost-Reserved d c id file_id operation snapshot usage additional l l' projected
      mine h =
    elim (Option-cases (snapshot.stages operation)) [
      | inl e ↦ cc (rw (e, reserve_provider_cost) at h)
      | inr (selection, e) ↦
          reserve_selected-Reserved d c id file_id operation snapshot.cost_ceiling usage additional
            selection l l' projected mine (rw (e, reserve_provider_cost) at h)
    ]
