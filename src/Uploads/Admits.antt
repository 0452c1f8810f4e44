-- ===== src/Uploads/Admits.antt =====
-- What the length check of the upload middleware decides, in numbers.
use localplaud.Prelude.{
  ℕ, ◌≤◌, ◌<◌, ◌≡◌, refl, sym, ◌∙◌, Bool, true, false, not, ◌||◌, inl, inr, List, [], ◌∷◌, arith,
  ltb, ltb→lt, ◌==◌, ==_iff, ==-refl, all, Bool-cases, by_test, In,
}
use localplaud.Uploads.Length.{
  is_digit, is_number, same_bytes, strip_zeros, or_zero, decimal, is_longer, Verdict, admitted,
  invalid, too_large, check_length,
}
use localplaud.Uploads.Digits.{number}
use localplaud.Uploads.Compared.{is_longer-lt, stripped-led, stripped-digits, stripped-number}
use localplaud.Uploads.Decimals.{decimal-number, decimal-digits, decimal-led}

-- Every header is the same number's digits.
abbrev IsOneNumber : List (List ℕ) → Type 0
IsOneNumber headers =
    (value : List ℕ)
    → In value headers
    → (is_number value ≡ true) × ((other : List ℕ) → In other headers → value ≡ other)

-- The limit against what a header declares.
abbrev pub Means : ℕ → List (List ℕ) → Verdict → Type 0
Means limit headers admitted =
    IsOneNumber headers × ((value : List ℕ) → In value headers → number value ≤ limit)
Means limit headers too_large =
    IsOneNumber headers × ((value : List ℕ) × (In value headers × (limit < number value)))
Means limit headers invalid = ¬ IsOneNumber headers

same_bytes-eq : (as' bs : List ℕ) → same_bytes as' bs ≡ true → as' ≡ bs
unfolding same_bytes
same_bytes-eq [] [] h = refl
same_bytes-eq [] (b ∷ bs) h = cc
same_bytes-eq (a ∷ as') [] h = cc
same_bytes-eq (a ∷ as') (b ∷ bs) h = elim (Bool-cases (a == b)) [
  | inl e ↦ rw ((==_iff a b).0 e, same_bytes-eq as' bs (rw e at h)) refl
  | inr e ↦ let clash = rw e at h in cc
]

same_bytes_refl : (as' : List ℕ) → same_bytes as' as' ≡ true
unfolding same_bytes
same_bytes_refl [] = refl
same_bytes_refl (a ∷ as') = rw (==-refl a) (same_bytes_refl as')

all-In :
    {A : Type 0} (test : A → Bool) (xs : List A)
    → all test xs ≡ true
    → (a : A) → In a xs
    → test a ≡ true
all-In test [] h a m = absurd m
all-In test (x ∷ xs) h a m = elim (Bool-cases (test x)) [
  | inr e ↦ let clash = rw e at h in cc
  | inl e ↦ elim m [ inl same ↦ rw (← same) e | inr later ↦ all-In test xs (rw e at h) a later ]
]

all-In_back :
    {A : Type 0} (test : A → Bool) (xs : List A)
    → ((a : A) → In a xs → test a ≡ true)
    → all test xs ≡ true
all-In_back test [] h = refl
all-In_back test (x ∷ xs) h = rw (h x (inl refl)) (all-In_back test xs (λ a m. h a (inr m)))

number-digits : (value : List ℕ) → is_number value ≡ true → all is_digit value ≡ true
number-digits [] h = cc
number-digits (c ∷ cs) h = h

-- The texts compare as the numbers do.
compared :
    (limit : ℕ) (value : List ℕ)
    → 1 ≤ limit
    → is_number value ≡ true
    → is_longer (or_zero (strip_zeros value)) (decimal limit) ≡ ltb limit (number value)
compared limit value one h =
    is_longer-lt (or_zero (strip_zeros value)) (decimal limit) (stripped-led value)
      (stripped-digits value (number-digits value h)) (decimal-led limit one) (decimal-digits limit)
    ∙ (rw (decimal-number limit, stripped-number value) refl)

one_number :
    (value : List ℕ) (rest : List (List ℕ))
    → all is_number (value ∷ rest) ≡ true
    → all (same_bytes value) rest ≡ true
    → IsOneNumber (value ∷ rest)
one_number value rest numbers same w m =
    (all-In is_number (value ∷ rest) numbers w m, λ v k. sym (is_value w m) ∙ is_value v k)
  where
    is_value : (v : List ℕ) → In v (value ∷ rest) → value ≡ v
    is_value v (inl e) = e
    is_value v (inr k) = same_bytes-eq value v (all-In (same_bytes value) rest same v k)

one_number-tests :
    (value : List ℕ) (rest : List (List ℕ))
    → IsOneNumber (value ∷ rest)
    → (not (all is_number (value ∷ rest)) || not (all (same_bytes value) rest)) ≡ false
one_number-tests value rest h =
    let numbers = all-In_back is_number (value ∷ rest) (λ a m. (h a m).0) in
    let same =
      all-In_back (same_bytes value) rest
        (λ a m. rw (← (h value (inl refl)).1 a (inr m)) (same_bytes_refl value)) in
    rw (numbers, same) refl

passed_left : (a b : Bool) → (not a || not b) ≡ false → a ≡ true
passed_left true b h = refl
passed_left false b h = sym h

passed_right : (a b : Bool) → (not a || not b) ≡ false → b ≡ true
passed_right true true h = refl
passed_right true false h = sym h
passed_right false b h = cc

not_above : (a b : ℕ) → ltb a b ≡ false → b ≤ a
not_above a b h = ground arith

-- With a positive limit, the check admits a request exactly when its Content-Length headers, if it
-- has any, are all the digits of one number that is at most the limit; it finds them invalid exactly
-- when they are not all the same digits, and too large exactly when they are and the number that
-- they write is above the limit. The number may have any length and any leading zeros.
pub check_length-Means :
    (limit : ℕ) (headers : List (List ℕ))
    → 1 ≤ limit
    → Means limit headers (check_length limit headers)
unfolding check_length
check_length-Means limit [] one = ((λ w m. absurd m), λ w m. absurd m)
check_length-Means limit (value ∷ rest) one =
    by_test (λ v. Means limit (value ∷ rest) v)
      (not (all is_number (value ∷ rest)) || not (all (same_bytes value) rest))
      (λ t h. let clash = one_number-tests value rest h in cc)
      (λ f.
        let numbers : all is_number (value ∷ rest) ≡ true = passed_left _ _ f in
        let same : all (same_bytes value) rest ≡ true = passed_right _ _ f in
        let h = one_number value rest numbers same in
        let verdict = compared limit value one (h value (inl refl)).0 in
        by_test (λ v. Means limit (value ∷ rest) v)
          (is_longer (or_zero (strip_zeros value)) (decimal limit))
          (λ t. (h, (value, (inl refl, ltb→lt _ _ (sym verdict ∙ t)))))
          (λ f'. (h, λ w m. rw (← (h value (inl refl)).1 w m) (not_above _ _ (sym verdict ∙ f')))))
