-- ===== src/Pipeline/Sharing.antt =====
-- The batch's size, and its slot for a full retry where no recording is new.
use localplaud.Prelude.{
  ℕ, zero, suc, ◌-◌, ◌≤◌, ◌≡◌, refl, sym, ◌∙◌, Bool, true, false, not, ◌&&◌, inl, inr, none, some,
  List, [], ◌∷◌, arith, leb, any, keep, find?, find?-passes, take, length, Option-cases, by_test,
}
use localplaud.Pipeline.Recording.{Library}
use localplaud.Pipeline.Scope.{QueueSettings}
use localplaud.Pipeline.Dispatch.{
  Item, is_fresh, sort_items, items, is_full_retry, is_narrow, reserve_slot, select_batch, batch,
}
use localplaud.Pipeline.Batching.{sort_items-any, reserve_slot-length}

find?-hit {ℓ} :
    {A : Type ℓ} (test : A → Bool) (l : List A)
    → any test l ≡ true
    → (x : A) × (find? test l ≡ some x)
find?-hit {A = A} test l h = elim (Option-cases (find? test l)) [
  | inl e ↦ cc (sym (find?-miss test l e) ∙ h)
  | inr found ↦ found
]
  where
    find?-miss : (test : A → Bool) (l : List A) → find? test l ≡ none → any test l ≡ false
    find?-miss test [] e = refl
    find?-miss test (x ∷ l) e = ground (arith, find?-miss test l)

others-pass {ℓ} :
    {A : Type ℓ} (test : A → Bool) (n : ℕ) (l : List A)
    → any test (take n (keep (λ x. not (test x)) l)) ≡ false
others-pass {A = A} test n l = taken n (keep (λ x. not (test x)) l) (kept l)
  where
    taken : (n : ℕ) (l : List A) → any test l ≡ false → any test (take n l) ≡ false
    taken n [] h = refl
    taken zero (x ∷ l) h = refl
    taken (suc n) (x ∷ l) h = ground (arith, taken n l)

    kept : (l : List A) → any test (keep (λ x. not (test x)) l) ≡ false
    kept [] = refl
    kept (x ∷ l) = ground (arith, kept l)

take-some {ℓ} :
    {A : Type ℓ} (n : ℕ) (x : A) (rest : List A) → 1 ≤ n → 1 ≤ length (take n (x ∷ rest))
take-some zero x rest le = omega (arith, le)
take-some (suc n) x rest le = omega arith

-- Narrow work is no full retry, so it is among the others.
narrow-kept :
    (n : ℕ) (l : List Item)
    → any is_narrow l ≡ true
    → 1 ≤ n
    → 1 ≤ length (take n (keep (λ item. not (is_full_retry item)) l))
narrow-kept n [] h le = cc
narrow-kept n (x ∷ l) h le =
    by_test {B = List Item} (λ m. 1 ≤ length (take n m)) (not (is_full_retry x))
      (λ _. take-some n x _ le) (λ full. narrow-kept n l (later full) le)
  where
    later : not (is_full_retry x) ≡ false → any is_narrow l ≡ true
    later full = ground arith

-- The batch begins with a full retry, and has other work and no second full retry after it.
abbrev pub IsShared : List Item → Type 0
IsShared l =
    (first : Item) × (rest : List Item) × (l ≡ first ∷ rest)
    × (is_full_retry first ≡ true)
    × (any is_full_retry rest ≡ false)
    × (1 ≤ length rest)

reserve_slot-IsShared :
    (limit : ℕ) (l : List Item)
    → any is_fresh l ≡ false
    → 2 ≤ limit
    → any is_full_retry l ≡ true
    → any is_narrow l ≡ true
    → IsShared (reserve_slot limit l)
unfolding reserve_slot
reserve_slot-IsShared limit l stale two full narrow =
    let (first, found) = find?-hit is_full_retry l full in
    by_test {B = List Item} IsShared (leb 2 limit && not (any is_fresh l) && any is_narrow l)
      (λ _. rw found (
        first,
        take (limit - 1) (keep (λ item. not (is_full_retry item)) l),
        refl,
        find?-passes is_full_retry l first found,
        others-pass is_full_retry (limit - 1) l,
        narrow-kept (limit - 1) l narrow (omega (arith, two)),
      ))
      (λ never. cc (sym never ∙ ready))
  where
    ready : leb 2 limit && not (any is_fresh l) && any is_narrow l ≡ true
    ready = ground arith

-- Where no new recording may be processed, and both a full retry and regeneration work are due, a
-- batch of two or more holds one full retry, which begins it, and other work: neither starves.
pub batch-IsShared :
    (settings : QueueSettings) (now limit : ℕ) (l : Library)
    → any is_fresh (items settings now l) ≡ false
    → 2 ≤ limit
    → any is_full_retry (items settings now l) ≡ true
    → any is_narrow (items settings now l) ≡ true
    → IsShared (batch settings now (some limit) l)
unfolding batch select_batch
batch-IsShared settings now limit l stale two full narrow =
    let sorted = sort_items (items settings now l) in
    reserve_slot-IsShared limit sorted (sort_items-any is_fresh (items settings now l) ∙ stale) two
      (sort_items-any is_full_retry (items settings now l) ∙ full)
      (sort_items-any is_narrow (items settings now l) ∙ narrow)

-- A bounded batch never holds more than its limit.
pub batch-length :
    (settings : QueueSettings) (now limit : ℕ) (l : Library)
    → length (batch settings now (some limit) l) ≤ limit
unfolding batch select_batch
batch-length settings now limit l = reserve_slot-length limit (sort_items (items settings now l))
