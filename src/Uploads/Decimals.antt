-- ===== src/Uploads/Decimals.antt =====
-- The limit's own digits write the limit.
use localplaud.Prelude.{
  ℕ, zero, suc, ◌+◌, ◌-◌, ◌*◌, ◌/◌, ◌%◌, ◌≤◌, ◌<◌, ◌≡◌, refl, ◌∙◌, true, false, inl, inr, List, [],
  ◌∷◌, arith, ltb, ltb→lt, all, Bool-cases,
}
use localplaud.Uploads.Length.{is_digit, digits, decimal}
use localplaud.Uploads.Digits.{power, number, is_led}

digit_of : (n : ℕ) → n < 10 → is_digit (b'0' + n) ≡ true
digit_of n h = ground arith

not_less : (n : ℕ) → ltb n 10 ≡ false → 10 ≤ n
not_less n h = ground arith

fewer : (n f : ℕ) → 10 ≤ n → n < suc f → n / 10 < f
fewer n f h k = omega arith

rest_digit : (n : ℕ) → n % 10 < 10
rest_digit n = omega arith

one_digit : (n p r : ℕ) → (b'0' + n - b'0') * p + r ≡ n * p + r
one_digit n p r = let same : b'0' + n - b'0' ≡ n = omega arith in rw same refl

mul_add : (a b p : ℕ) → (a + b) * p ≡ a * p + b * p
mul_add a b zero = omega arith
mul_add a b (suc p) = let rest = mul_add a b p in omega arith

mul_ten : (a p : ℕ) → a * (10 * p) ≡ a * 10 * p
mul_ten a zero = omega arith
mul_ten a (suc p) = let rest = mul_ten a p in omega arith

shift_digit : (n p r : ℕ) → n / 10 * (10 * p) + ((b'0' + n % 10 - b'0') * p + r) ≡ n * p + r
shift_digit n p r =
    let one = one_digit (n % 10) p r in
    let ten = mul_ten (n / 10) p in
    let both = mul_add (n / 10 * 10) (n % 10) p in
    let whole : n / 10 * 10 + n % 10 ≡ n = omega arith in
    let parts : n * p ≡ n / 10 * 10 * p + n % 10 * p = rw whole at both in omega arith

led_digit : (n : ℕ) (rest : List ℕ) → 1 ≤ n → is_led ((b'0' + n) ∷ rest) ≡ true
led_digit n [] h = refl
led_digit n (c ∷ cs) h = ground arith

digits-number :
    (fuel n : ℕ) (rest : List ℕ)
    → n < fuel
    → number (digits fuel n rest) ≡ n * power rest + number rest
unfolding digits number power
digits-number zero n rest h = absurd (omega arith)
digits-number (suc f) n rest h = elim (Bool-cases (ltb n 10)) [
  | inl e ↦ rw e (one_digit n (power rest) (number rest))
  | inr e ↦ rw e (
      digits-number f (n / 10) ((b'0' + n % 10) ∷ rest) (fewer n f (not_less n e) h)
      ∙ shift_digit n (power rest) (number rest))
]

digits-digits :
    (fuel n : ℕ) (rest : List ℕ)
    → n < fuel
    → all is_digit rest ≡ true
    → all is_digit (digits fuel n rest) ≡ true
unfolding digits
digits-digits zero n rest h d = absurd (omega arith)
digits-digits (suc f) n rest h d = elim (Bool-cases (ltb n 10)) [
  | inl e ↦ rw (e, digit_of n (ltb→lt n 10 e)) d
  | inr e ↦ rw e (
      digits-digits f (n / 10) ((b'0' + n % 10) ∷ rest) (fewer n f (not_less n e) h)
        (rw (digit_of (n % 10) (rest_digit n)) d))
]

digits-led : (fuel n : ℕ) (rest : List ℕ) → n < fuel → 1 ≤ n → is_led (digits fuel n rest) ≡ true
unfolding digits
digits-led zero n rest h one = absurd (omega arith)
digits-led (suc f) n rest h one = elim (Bool-cases (ltb n 10)) [
  | inl e ↦ rw e (led_digit n rest one)
  | inr e ↦
      let big = not_less n e in
      rw e (digits-led f (n / 10) ((b'0' + n % 10) ∷ rest) (fewer n f big h) (omega arith))
]

pub decimal-number : (n : ℕ) → number (decimal n) ≡ n
unfolding decimal number power
decimal-number n = digits-number (suc n) n [] (omega arith) ∙ omega arith

pub decimal-digits : (n : ℕ) → all is_digit (decimal n) ≡ true
unfolding decimal
decimal-digits n = digits-digits (suc n) n [] (omega arith) refl

pub decimal-led : (n : ℕ) → 1 ≤ n → is_led (decimal n) ≡ true
unfolding decimal
decimal-led n h = digits-led (suc n) n [] (omega arith) h
