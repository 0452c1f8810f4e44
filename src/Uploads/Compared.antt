-- ===== src/Uploads/Compared.antt =====
-- Digits with no leading zero compare by length first.
use localplaud.Prelude.{
  ℕ, zero, suc, ◌+◌, ◌-◌, ◌*◌, ◌≤◌, ◌<◌, ◌≡◌, refl, sym, true, false, inl, inr, List, [], ◌∷◌,
  arith, ltb, lt→ltb, ◌==◌, all, length, Bool-cases,
}
use localplaud.Uploads.Length.{is_digit, strip_zeros, or_zero, is_longer}
use localplaud.Uploads.Digits.{
  power, number, is_led, number-lt, power_mono, comes_after-lt, digits_split, three, not_lt,
  not_same, is_same,
}

led_first : (c : ℕ) (cs : List ℕ) → (c == b'0') ≡ false → is_led (c ∷ cs) ≡ true
led_first c [] e = refl
led_first c (d ∷ cs) e = rw e refl

zero_first : (c p r : ℕ) → (c == b'0') ≡ true → r ≡ (c - b'0') * p + r
zero_first c p r e = let none_left : c - b'0' ≡ 0 = ground arith in rw none_left (omega arith)

first_counts : (c p : ℕ) → is_digit c ≡ true → (c == b'0') ≡ false → p ≤ (c - b'0') * p
first_counts c zero h n = omega arith
first_counts c (suc p) h n =
    let rest = first_counts c p h n in let one : 1 ≤ c - b'0' = ground arith in omega arith

-- A leading digit other than zero.
led_least :
    (c d : ℕ) (cs : List ℕ)
    → is_led (c ∷ d ∷ cs) ≡ true
    → all is_digit (c ∷ d ∷ cs) ≡ true
    → power (d ∷ cs) ≤ number (c ∷ d ∷ cs)
unfolding number
led_least c d cs l h = elim (Bool-cases (c == b'0')) [
  | inl e ↦ let clash = rw e at l in cc
  | inr e ↦
      let (hc, rest) = digits_split c (d ∷ cs) h in
      let least = first_counts c (power (d ∷ cs)) hc e in omega arith
]

longer-lt :
    (as' bs : List ℕ)
    → is_led as' ≡ true
    → all is_digit as' ≡ true
    → all is_digit bs ≡ true
    → 1 ≤ length bs
    → length bs < length as'
    → number bs < number as'
longer-lt [] bs l h k one e = absurd (omega arith)
longer-lt (a ∷ []) bs l h k one e = absurd (omega arith)
longer-lt (a ∷ d ∷ as') bs l h k one e =
    let least = led_least a d as' l h in
    let below = number-lt bs k in let shorter = power_mono bs (d ∷ as') (omega arith) in omega arith

led-length : (cs : List ℕ) → is_led cs ≡ true → 1 ≤ length cs
led-length [] h = cc
led-length (c ∷ cs) h = omega arith

-- The comparison of texts is that of the numbers.
pub is_longer-lt :
    (value limit : List ℕ)
    → is_led value ≡ true
    → all is_digit value ≡ true
    → is_led limit ≡ true
    → all is_digit limit ≡ true
    → is_longer value limit ≡ ltb (number limit) (number value)
unfolding is_longer
is_longer-lt value limit lv dv ll dl = elim (three (length value) (length limit)) [
  | inl e ↦
      let less = longer-lt limit value ll dl dv (led-length value lv) e in
      rw (not_lt (length limit) (length value) (omega arith), not_same _ _ e)
        (sym (not_lt _ _ (omega arith)))
  | inr (inl e) ↦
      rw (not_lt (length limit) (length value) (omega arith), is_same _ _ e)
        (comes_after-lt value limit e dv dl)
  | inr (inr e) ↦
      let more = longer-lt value limit lv dv dl (led-length limit ll) e in
      rw (lt→ltb _ _ e) (sym (lt→ltb _ _ more))
]

-- What lstrip and the zero in its place leave.
pub stripped-led : (cs : List ℕ) → is_led (or_zero (strip_zeros cs)) ≡ true
unfolding strip_zeros
stripped-led [] = refl
stripped-led (c ∷ cs) = elim (Bool-cases (c == b'0')) [
  | inl e ↦ rw e (stripped-led cs)
  | inr e ↦ rw e (led_first c cs e)
]

pub stripped-digits :
    (cs : List ℕ) → all is_digit cs ≡ true → all is_digit (or_zero (strip_zeros cs)) ≡ true
unfolding strip_zeros
stripped-digits [] h = refl
stripped-digits (c ∷ cs) h = elim (Bool-cases (c == b'0')) [
  | inl e ↦ let (hc, rest) = digits_split c cs h in rw e (stripped-digits cs rest)
  | inr e ↦ rw e h
]

pub stripped-number : (cs : List ℕ) → number (or_zero (strip_zeros cs)) ≡ number cs
unfolding strip_zeros number power
stripped-number [] = refl
stripped-number (c ∷ cs) = elim (Bool-cases (c == b'0')) [
  | inl e ↦ rw (e, stripped-number cs) (zero_first c (power cs) (number cs) e)
  | inr e ↦ rw e refl
]
