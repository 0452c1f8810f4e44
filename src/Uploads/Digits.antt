-- ===== src/Uploads/Digits.antt =====
-- Digits compared as texts compare as the numbers that they write.
use localplaud.Prelude.{
  ℕ, zero, suc, ◌+◌, ◌-◌, ◌*◌, ◌≤◌, ◌<◌, ◌≡◌, ◌⊎◌, refl, sym, ◌∙◌, Bool, true, false, not, inl, inr,
  List, [], ◌∷◌, arith, ltb, lt→ltb, ◌==◌, all, length, Bool-cases,
}
use localplaud.Uploads.Length.{is_digit, comes_after}

-- Ten to the number of digits.
unfoldable pub power : List ℕ → ℕ
power [] = 1
power (c ∷ cs) = 10 * power cs

-- The number that digits write.
unfoldable pub number : List ℕ → ℕ
number [] = 0
number (c ∷ cs) = (c - b'0') * power cs + number cs

-- No zero leads, unless it is all there is.
abbrev pub is_led : List ℕ → Bool
is_led [] = false
is_led (c ∷ []) = true
is_led (c ∷ d ∷ cs) = not (c == b'0')

mul_le : (a b p : ℕ) → a ≤ b → a * p ≤ b * p
mul_le a b zero h = omega arith
mul_le a b (suc p) h = let rest = mul_le a b p h in omega arith

digit_le : (c : ℕ) → is_digit c ≡ true → c - b'0' ≤ 9
digit_le c h = ground arith

pub number-lt : (cs : List ℕ) → all is_digit cs ≡ true → number cs < power cs
unfolding number power
number-lt [] h = omega arith
number-lt (c ∷ cs) h = elim (Bool-cases (is_digit c)) [
  | inl e ↦
      let rest = number-lt cs (rw e at h) in
      let top = mul_le (c - b'0') 9 (power cs) (digit_le c e) in omega arith
  | inr e ↦ let clash = rw e at h in cc
]

pub power-pos : (cs : List ℕ) → 1 ≤ power cs
unfolding power
power-pos [] = omega arith
power-pos (c ∷ cs) = let rest = power-pos cs in omega arith

pub power_mono : (cs ds : List ℕ) → length cs ≤ length ds → power cs ≤ power ds
unfolding power
power_mono [] ds h = power-pos ds
power_mono (c ∷ cs) [] h = absurd (omega arith)
power_mono (c ∷ cs) (d ∷ ds) h = let rest = power_mono cs ds (omega arith) in omega arith

power-same : (cs ds : List ℕ) → length cs ≡ length ds → power cs ≡ power ds
power-same cs ds e =
    let up = power_mono cs ds (omega arith) in
    let down = power_mono ds cs (omega arith) in omega arith

-- A greater first digit decides.
number-first :
    (a b : ℕ) (as' bs : List ℕ)
    → length as' ≡ length bs
    → is_digit a ≡ true
    → a < b
    → all is_digit as' ≡ true
    → number (a ∷ as') < number (b ∷ bs)
unfolding number
number-first a b as' bs e d l h =
    let below = number-lt as' h in
    let same = power-same as' bs e in
    let top = mul_le (suc (a - b'0')) (b - b'0') (power bs) (ground arith) in
    rw same (let under : number as' < power bs = rw (← same) below in omega arith)

pub three : (a b : ℕ) → (a < b) ⊎ ((a ≡ b) ⊎ (b < a))
three a b = ground arith

pub not_lt : (a b : ℕ) → b ≤ a → ltb a b ≡ false
not_lt a b h = ground arith

pub not_same : (a b : ℕ) → a < b → (a == b) ≡ false
not_same a b h = ground arith

pub is_same : (a b : ℕ) → a ≡ b → (a == b) ≡ true
is_same a b h = ground arith

ltb_add : (a b x y : ℕ) → x ≡ y → ltb a b ≡ ltb (y + a) (x + b)
ltb_add a b x y e = ground arith

pub digits_split :
    (c : ℕ) (cs : List ℕ)
    → all is_digit (c ∷ cs) ≡ true
    → (is_digit c ≡ true) × (all is_digit cs ≡ true)
digits_split c cs h = elim (Bool-cases (is_digit c)) [
  | inl e ↦ (e, rw e at h)
  | inr e ↦ let clash = rw e at h in cc
]

-- Equal lengths are enough to compare byte by byte.
pub comes_after-lt :
    (as' bs : List ℕ)
    → length as' ≡ length bs
    → all is_digit as' ≡ true
    → all is_digit bs ≡ true
    → comes_after as' bs ≡ ltb (number bs) (number as')
unfolding comes_after number
comes_after-lt [] [] e h k = refl
comes_after-lt [] (b ∷ bs) e h k = absurd (omega arith)
comes_after-lt (a ∷ as') [] e h k = absurd (omega arith)
comes_after-lt (a ∷ as') (b ∷ bs) e h k =
    let (da, ha) = digits_split a as' h in
    let (db, hb) = digits_split b bs k in
    elim (three a b) [
      | inl l ↦
          let less = number-first a b as' bs (omega arith) da l ha in
          rw (not_lt b a (omega arith), not_same a b (omega arith)) (sym (not_lt _ _ (omega arith)))
      | inr (inl same) ↦
          rw (not_lt b a (omega arith), is_same a b same)
            (comes_after-lt as' bs (omega arith) ha hb
              ∙ ltb_add (number bs) (number as') _ _
                  (rw (same, power-same as' bs (omega arith)) refl))
      | inr (inr l) ↦
          let less = number-first b a bs as' (omega arith) db l hb in
          rw (lt→ltb b a l) (sym (lt→ltb _ _ (omega arith)))
    ]
