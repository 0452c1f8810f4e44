-- ===== src/Costs/Recovered.antt =====
-- After a recovery: which dispatches are still open, and that a second recovery finds nothing.
use localplaud.Prelude.{
  ℕ, String, ◌≡◌, refl, sym, ap, ◌∙◌, Bool, true, false, not, inl, inr, Bool-cases, ◌&&◌, ◌||◌, ltb,
  leb, str_eq, Option, none, some, List, [], ◌∷◌, map, arith, keep,
}
use localplaud.Costs.Ledger.{Reservation, StageAttempt, IndexAttempt, Ledger}
use localplaud.Costs.Usage.{or_empty}
use localplaud.Costs.Recovery.{
  owned_by, is_reclaimable, is_active, closed, folded_stage, folded_index, recover_reservations,
}

-- The rows of the dispatches that are still open.
abbrev pub is_open : Reservation → Bool
is_open r = is_active r.status

-- The lease runs on.
abbrev pub runs_on : ℕ → Option ℕ → Bool
runs_on now none = false
runs_on now (some lease) = ltb now lease

-- The replaced owner, where one is named, is the row's.
abbrev pub is_replaced : Option String → Option String → Bool
is_replaced none owner = false
is_replaced (some previous) none = false
is_replaced (some previous) (some owner) = not (str_eq previous "") && str_eq owner previous

-- Those that a recovery at `now` after `previous` leaves alone.
abbrev pub is_kept : ℕ → Option String → Reservation → Bool
is_kept now previous r =
    is_open r && (runs_on now r.lease_until && not (is_replaced previous r.owner))

named_none :
    (now l : ℕ) (p : String)
    → str_eq p "" ≡ true
    → (owner : Option String)
    → (ltb now l && not (is_replaced (some p) owner))
      ≡ not (leb l now || owned_by (or_empty (some p)) owner)
named_none now l p e none = rw e (ground arith)
named_none now l p e (some o) = rw e (ground arith)

named_some :
    (now l : ℕ) (p : String)
    → str_eq p "" ≡ false
    → (owner : Option String)
    → (ltb now l && not (is_replaced (some p) owner))
      ≡ not (leb l now || owned_by (or_empty (some p)) owner)
named_some now l p e none = rw e (ground arith)
named_some now l p e (some o) = rw e (ground arith)

reclaimable_kept :
    (now : ℕ) (previous : Option String) (r : Reservation)
    → is_kept now previous r ≡ (is_open r && not (is_reclaimable now previous r))
unfolding is_reclaimable
reclaimable_kept now previous r = by_fields (is_active r.status) r.lease_until previous r.owner
  where
    by_fields :
        (open' : Bool) (lease : Option ℕ) (previous owner : Option String)
        → (open' && (runs_on now lease && not (is_replaced previous owner))) ≡ (
            open'
            && not (
                open'
                && (elim lease [ none ↦ true | some l ↦ leb l now ]
                    || owned_by (or_empty previous) owner)))
    by_fields false lease previous owner = refl
    by_fields true none previous owner = refl
    by_fields true (some l) none owner = ground arith
    by_fields true (some l) (some p) owner = elim (Bool-cases (str_eq p "")) [
      | inl e ↦ named_none now l p e owner
      | inr e ↦ named_some now l p e owner
    ]

closed-open :
    (now : ℕ) (previous : Option String) (l : Ledger) (rows : List Reservation)
    → keep is_open (closed now previous l rows)
      ≡ keep (λ r. is_open r && not (is_reclaimable now previous r)) rows
unfolding closed is_reclaimable
closed-open now previous l [] = refl
closed-open now previous l (r ∷ rows) = ground (arith, closed-open now previous l rows)

keep_same :
    {A : Type 0} {f g : A → Bool} (xs : List A) → ((a : A) → f a ≡ g a) → keep f xs ≡ keep g xs
keep_same xs h = ap (λ t. keep t xs) (λ i a. h a i)

closed-none :
    (now : ℕ) (previous : Option String) (l : Ledger) (rows : List Reservation)
    → keep (is_reclaimable now previous) (closed now previous l rows) ≡ []
unfolding closed is_reclaimable
closed-none now previous l [] = refl
closed-none now previous l (r ∷ rows) = ground (arith, closed-none now previous l rows)

closed-again :
    (now : ℕ) (previous : Option String) (l l' : Ledger) (rows : List Reservation)
    → closed now previous l' (closed now previous l rows) ≡ closed now previous l rows
unfolding closed is_reclaimable
closed-again now previous l l' [] = refl
closed-again now previous l l' (r ∷ rows) = ground (arith, closed-again now previous l l' rows)

unlinked_stage : (l : Ledger) (rows : List StageAttempt) → map (folded_stage l []) rows ≡ rows
unfolding folded_stage
unlinked_stage l [] = refl
unlinked_stage l (a ∷ rows) = ap (λ rest. a ∷ rest) (unlinked_stage l rows)

unlinked_index :
    (now : ℕ) (l : Ledger) (rows : List IndexAttempt) → map (folded_index now l []) rows ≡ rows
unfolding folded_index
unlinked_index now l [] = refl
unlinked_index now l (a ∷ rows) = ap (λ rest. a ∷ rest) (unlinked_index now l rows)

-- A recovery leaves open exactly the dispatches that were open, whose lease runs on and that no
-- replaced owner holds, in their order, as they were; and a second one at that time, after the
-- same owner, finds nothing and changes nothing.
pub recover_reservations-settles :
    (now : ℕ) (previous : Option String) (l : Ledger)
    → let (_, l') = recover_reservations now previous l in
      (keep is_open l'.reservations ≡ keep (is_kept now previous) l.reservations)
      × (recover_reservations now previous l' ≡ (0, l'))
unfolding recover_reservations
recover_reservations-settles now previous l =
    let l' = (recover_reservations now previous l).1 in
    (
      closed-open now previous l l.reservations
          ∙ keep_same l.reservations (λ r. sym (reclaimable_kept now previous r)),
      rw (closed-none now previous l l.reservations) (λ i. (
        0,
        record {
          reservations = closed-again now previous l l' l.reservations i;
          stage_attempts = unlinked_stage l' l'.stage_attempts i;
          index_attempts = unlinked_index now l' l'.index_attempts i;
          ask_messages = l.ask_messages;
        },
      )),
    )
