-- ===== src/Pipeline/Batching.antt =====
-- The daemon's batch puts new recordings first.
use localplaud.Prelude.{
  ℕ, zero, suc, ◌+◌, ◌-◌, ◌≤◌, ◌≡◌, ◌≢◌, ◌⊎◌, refl, sym, ap, ◌∙◌, Bool, true, false, not, ◌&&◌,
  ◌||◌, inl, inr, Option, none, some, List, [], ◌∷◌, arith, leb, any, keep, find?, take, length,
  Bool-cases, by_test,
}
use localplaud.Pipeline.Recording.{Library}
use localplaud.Pipeline.Scope.{QueueSettings}
use localplaud.Pipeline.Dispatch.{
  Item, is_fresh, queue_key, key_above, insert_item, sort_items, items, is_full_retry, is_narrow,
  reserve_slot, select_batch, batch,
}

insert_item-any :
    (test : Item → Bool) (x : Item) (l : List Item)
    → any test (insert_item x l) ≡ test x || any test l
unfolding insert_item
insert_item-any test x [] = ground arith
insert_item-any test x (y ∷ rest) = ground (arith, insert_item-any test x rest)

pub sort_items-any : (test : Item → Bool) (l : List Item) → any test (sort_items l) ≡ any test l
unfolding sort_items
sort_items-any test [] = refl
sort_items-any test (x ∷ rest) =
    ground (arith, sort_items-any test rest, insert_item-any test x (sort_items rest))

insert_item-length : (x : Item) (l : List Item) → length (insert_item x l) ≡ length l + 1
unfolding insert_item
insert_item-length x [] = omega arith
insert_item-length x (y ∷ rest) = ground (arith, insert_item-length x rest)

-- The first item is new, if one is.
abbrev FreshFirst : List Item → Type 0
FreshFirst [] = Unit
FreshFirst (x ∷ rest) = any is_fresh (x ∷ rest) ≡ true → is_fresh x ≡ true

-- A new item stands above one that is not.
above-fresh :
    (x y : Item)
    → is_fresh x ≡ false
    → is_fresh y ≡ true
    → key_above (queue_key y) (queue_key x) ≡ true
unfolding key_above queue_key
above-fresh x y h k = rw (h, k) refl

not_below :
    (x y : Item)
    → key_above (queue_key y) (queue_key x) ≡ true
    → is_fresh x ≡ true
    → is_fresh y ≡ true
unfolding key_above queue_key
not_below x y h k = elim (Bool-cases (is_fresh y)) [ inl e ↦ e | inr e ↦ cc (rw (k, e) at h) ]

insert_item-FreshFirst : (x : Item) (l : List Item) → FreshFirst l → FreshFirst (insert_item x l)
unfolding insert_item
insert_item-FreshFirst x [] h = λ k. ground arith
insert_item-FreshFirst x (y ∷ rest) h =
    by_test FreshFirst (key_above (queue_key y) (queue_key x))
      (λ up k. stays up k (Bool-cases (is_fresh y)))
      (λ down k. leads down k (Bool-cases (is_fresh x)))
  where
    stays :
        key_above (queue_key y) (queue_key x) ≡ true
        → any is_fresh (y ∷ insert_item x rest) ≡ true
        → is_fresh y ≡ true ⊎ is_fresh y ≡ false
        → is_fresh y ≡ true
    stays up k (inl e) = e
    stays up k (inr e) =
        let found : is_fresh x || any is_fresh rest ≡ true =
          sym (insert_item-any is_fresh x rest) ∙ rw e at k in
        elim (Bool-cases (is_fresh x)) [
          | inl f ↦ not_below x y up f
          | inr f ↦ h (rw e (rw f at found))
        ]

    leads :
        key_above (queue_key y) (queue_key x) ≡ false
        → any is_fresh (x ∷ y ∷ rest) ≡ true
        → is_fresh x ≡ true ⊎ is_fresh x ≡ false
        → is_fresh x ≡ true
    leads down k (inl e) = e
    leads down k (inr e) = cc (sym down ∙ above-fresh x y e (h (rw e at k)))

sort_items-FreshFirst : (l : List Item) → FreshFirst (sort_items l)
unfolding sort_items
sort_items-FreshFirst [] = tt
sort_items-FreshFirst (x ∷ rest) =
    insert_item-FreshFirst x (sort_items rest) (sort_items-FreshFirst rest)

take-length {ℓ} : {A : Type ℓ} (n : ℕ) (l : List A) → length (take n l) ≤ n
take-length n [] = omega arith
take-length zero (x ∷ l) = omega arith
take-length (suc n) (x ∷ l) = omega (arith, take-length n l)

pub reserve_slot-length : (limit : ℕ) (l : List Item) → length (reserve_slot limit l) ≤ limit
unfolding reserve_slot
reserve_slot-length limit l =
    by_test {B = List Item} (λ b. length b ≤ limit)
      (leb 2 limit && not (any is_fresh l) && any is_narrow l)
      (λ two. slot (find? is_full_retry l) (room two)) (λ _. take-length limit l)
  where
    room : leb 2 limit && not (any is_fresh l) && any is_narrow l ≡ true → 2 ≤ limit
    room two = ground arith

    slot :
        (o : Option Item)
        → 2 ≤ limit
        → length (elim o [
          | none ↦ take limit l
          | some first ↦ first ∷ take (limit - 1) (keep (λ item. not (is_full_retry item)) l)
        ])
          ≤ limit
    slot none two = take-length limit l
    slot (some first) two =
        omega (arith, take-length (limit - 1) (keep (λ item. not (is_full_retry item)) l), two)

-- A new recording that waits leads its batch.
abbrev pub Leads : List Item → Type 0
Leads l = (first : Item) × (rest : List Item) × (l ≡ first ∷ rest) × (is_fresh first ≡ true)

take-Leads :
    (n : ℕ) (l : List Item) → FreshFirst l → any is_fresh l ≡ true → n ≢ 0 → Leads (take n l)
take-Leads n [] h k ne = cc
take-Leads zero (x ∷ l) h k ne = elim (ne refl) [ ]
take-Leads (suc n) (x ∷ l) h k ne = (x, take n l, refl, h k)

select_batch-Leads :
    (limit : Option ℕ) (l : List Item)
    → FreshFirst l
    → any is_fresh l ≡ true
    → limit ≢ some 0
    → Leads (select_batch limit l)
unfolding select_batch reserve_slot
select_batch-Leads none [] h k ne = cc
select_batch-Leads none (x ∷ l) h k ne = (x, l, refl, h k)
select_batch-Leads (some limit) l h k ne =
    by_test {B = List Item} Leads (leb 2 limit && not (any is_fresh l) && any is_narrow l)
      (λ slot. cc (no_slot slot)) (λ _. take-Leads limit l h k (λ e. ne (ap some e)))
  where
    no_slot : leb 2 limit && not (any is_fresh l) && any is_narrow l ≡ true → true ≡ false
    no_slot slot = ground arith

-- While a new recording may be processed, the batch begins with one, whatever retries are due.
pub batch-Leads :
    (settings : QueueSettings) (now : ℕ) (limit : Option ℕ) (l : Library)
    → any is_fresh (items settings now l) ≡ true
    → limit ≢ some 0
    → Leads (batch settings now limit l)
unfolding batch
batch-Leads settings now limit l fresh ne =
    select_batch-Leads limit (sort_items (items settings now l))
      (sort_items-FreshFirst (items settings now l))
      (sort_items-any is_fresh (items settings now l) ∙ fresh) ne
