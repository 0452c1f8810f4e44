-- ===== src/Uploads/Examples.antt =====
-- The bound on upload bodies at concrete requests.
use localplaud.Prelude.{ℕ, ◌≡◌, refl, false, List, [], ◌∷◌, ◌++◌, arith}
use localplaud.Uploads.Length.{
  check_length, admitted, invalid, too_large, same_bytes, is_longer, decimal, digits, strip_zeros,
  comes_after,
}
use localplaud.Uploads.Admits.{Means, check_length-Means}
use localplaud.Uploads.Body.{
  request, Call, receives, sends, returns, raises_too_large, rejection, serve, endpoint,
  bounded_receive, conclude,
}
use localplaud.Uploads.Rejects.{early, late, serve-rejects}

-- 0012 twice
abbrev twelve : List (List ℕ)
twelve = (b'0' ∷ b'0' ∷ b'1' ∷ b'2' ∷ []) ∷ (b'0' ∷ b'0' ∷ b'1' ∷ b'2' ∷ []) ∷ []

twelve_admitted : check_length 12 twelve ≡ admitted
unfolding check_length same_bytes is_longer decimal digits strip_zeros comes_after
twelve_admitted = refl

twelve-too_large : check_length 9 twelve ≡ too_large
unfolding check_length same_bytes is_longer decimal digits strip_zeros comes_after
twelve-too_large = refl

signed_invalid : check_length 9 ((b'+' ∷ b'1' ∷ []) ∷ []) ≡ invalid
unfolding check_length
signed_invalid = refl

-- Two messages, of which the second passes a limit of ten.
abbrev two_parts : List Call
two_parts = receives (request 8) ∷ receives (request 3) ∷ []

two_parts_served : serve 10 two_parts raises_too_large ≡ (request 8 ∷ [], (rejection ∷ [], false))
unfolding serve endpoint bounded_receive conclude
two_parts_served = refl

check_length-Means_example : Means 12 twelve (check_length 12 twelve)
check_length-Means_example = check_length-Means 12 twelve (omega arith)

-- A response before the limit is passed, and one after it.
abbrev answering : List Call
answering = sends 200 ∷ receives (request 8) ∷ receives (request 3) ∷ sends 201 ∷ []

serve-rejects_example :
    (serve 10 answering returns).1.0 ≡ early 10 0 answering ++ late 10 0 answering returns
serve-rejects_example = serve-rejects 10 answering returns refl
