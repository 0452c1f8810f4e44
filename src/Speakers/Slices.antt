-- ===== src/Speakers/Slices.antt =====
-- Slices of a list put together again.
use localplaud.Prelude.{
  ℕ, zero, suc, ◌-◌, ◌≤◌, ◌≡◌, refl, ap, List, [], ◌∷◌, ◌++◌, arith, take, length,
}
use localplaud.Speakers.Text.{drop, slice}

take-drop : {A : Type 0} (n : ℕ) (xs : List A) → take n xs ++ drop n xs ≡ xs
take-drop zero [] = refl
take-drop zero (x ∷ xs) = refl
take-drop (suc n) [] = refl
take-drop (suc n) (x ∷ xs) = ap (λ l. x ∷ l) (take-drop n xs)

pub slice-drop :
    {A : Type 0} (first last : ℕ) (xs : List A)
    → first ≤ last
    → slice first last xs ++ drop last xs ≡ drop first xs
slice-drop zero last xs h = let e : last - 0 ≡ last = omega arith in rw e (take-drop last xs)
slice-drop (suc first) zero xs h = absurd (omega arith)
slice-drop (suc first) (suc last) [] h = refl
slice-drop (suc first) (suc last) (x ∷ xs) h =
    let e : suc last - suc first ≡ last - first = omega arith in
    rw e (slice-drop first last xs (omega arith))

take-length : {A : Type 0} (xs : List A) → take (length xs) xs ≡ xs
take-length [] = refl
take-length (x ∷ xs) = ap (λ l. x ∷ l) (take-length xs)

pub slice-length :
    {A : Type 0} (first : ℕ) (xs : List A) → slice first (length xs) xs ≡ drop first xs
slice-length zero xs = let e : length xs - 0 ≡ length xs = omega arith in rw e (take-length xs)
slice-length (suc first) [] = refl
slice-length (suc first) (x ∷ xs) =
    let e : suc (length xs) - suc first ≡ length xs - first = omega arith in
    rw e (slice-length first xs)
