-- ===== src/Uploads/Length.antt =====
-- The check of the Content-Length headers in `UploadBodyLimitMiddleware.__call__`. A header's value is
-- the list of its bytes.
use localplaud.Prelude.{
  ℕ, zero, suc, ◌+◌, ◌/◌, ◌%◌, Bool, true, false, not, ◌&&◌, ◌||◌, List, [], ◌∷◌, ltb, leb, ◌==◌,
  all, length, if◌then◌else◌,
}

-- bytes.isdigit, of one byte
abbrev pub is_digit : ℕ → Bool
is_digit c = leb b'0' c && leb c b'9'

-- value and value.isdigit()
abbrev pub is_number : List ℕ → Bool
is_number [] = false
is_number (c ∷ cs) = all is_digit (c ∷ cs)

unfoldable pub same_bytes : List ℕ → List ℕ → Bool
same_bytes [] [] = true
same_bytes (a ∷ as') (b ∷ bs) = a == b && same_bytes as' bs
same_bytes _ _ = false

-- lstrip(b"0")
unfoldable pub strip_zeros : List ℕ → List ℕ
strip_zeros [] = []
strip_zeros (c ∷ cs) = let rest = strip_zeros cs in if c == b'0' then rest else c ∷ cs

abbrev pub or_zero : List ℕ → List ℕ
or_zero [] = b'0' ∷ []
or_zero (c ∷ cs) = c ∷ cs

-- str(n).encode("ascii"), on as much fuel as the number has digits at most.
unfoldable pub digits : ℕ → ℕ → List ℕ → List ℕ
digits zero n rest = rest
digits (suc fuel) n rest =
    let more = digits fuel (n / 10) ((b'0' + n % 10) ∷ rest) in
    if ltb n 10 then (b'0' + n) ∷ rest else more

unfoldable pub decimal : ℕ → List ℕ
decimal n = digits (suc n) n []

-- a > b on bytes
unfoldable pub comes_after : List ℕ → List ℕ → Bool
comes_after [] bs = false
comes_after (a ∷ as') [] = true
comes_after (a ∷ as') (b ∷ bs) = ltb b a || (a == b && comes_after as' bs)

-- The comparison of the stripped value with the limit's digits.
unfoldable pub is_longer : List ℕ → List ℕ → Bool
is_longer value limit =
    ltb (length limit) (length value) || (length value == length limit && comes_after value limit)

-- What the headers lead to: the request goes on, is invalid (400), or too large (413).
pub data Verdict : Type 0 where
  admitted invalid too_large : Verdict

unfoldable pub check_length : ℕ → List (List ℕ) → Verdict
check_length max_body_bytes [] = admitted
check_length max_body_bytes (value ∷ rest) =
    if not (all is_number (value ∷ rest)) || not (all (same_bytes value) rest)
    then invalid
    else if is_longer (or_zero (strip_zeros value)) (decimal max_body_bytes)
    then too_large
    else admitted
