-- ===== src/Prelude/Lists.antt =====
-- Lists measured by native numbers, and predicates over lists by recursion.
use Prim.Native.Nat.{ℕ, zero, suc, ◌+◌}
use mathlib.Core.Path.{◌≡◌, refl}
use mathlib.Core.Bool.{Bool, true, false, ◌&&◌, ◌||◌}
use mathlib.Core.List.{List, [], ◌∷◌, ◌++◌, map}
use mathlib.Core.Option.{Option, none, some}
use native.Mathlib.Omega.{arith}
use localplaud.Prelude.Tests.{if◌then◌else◌}

module _ {ℓ} {A : Type ℓ} where
  abbrev pub length : List A → ℕ
  length [] = 0
  length (x ∷ xs) = suc (length xs)

  pub length-append : (xs ys : List A) → length (xs ++ ys) ≡ length xs + length ys
  length-append [] ys = omega arith
  length-append (x ∷ xs) ys = omega (arith, length-append xs ys)

  -- Python's `next((x for x in xs if test(x)), None)`.
  abbrev pub find? : (A → Bool) → List A → Option A
  find? test [] = none
  find? test (x ∷ xs) = if test x then some x else find? test xs

  -- Python's `any(test(x) for x in xs)`.
  abbrev pub any : (A → Bool) → List A → Bool
  any test [] = false
  any test (x ∷ xs) = if test x then true else any test xs

  -- Python's `all(test(x) for x in xs)`.
  abbrev pub all : (A → Bool) → List A → Bool
  all test [] = true
  all test (x ∷ xs) = if test x then all test xs else false

  -- Python's `[x for x in xs if test(x)]`.
  abbrev pub keep : (A → Bool) → List A → List A
  keep test [] = []
  keep test (x ∷ xs) = let rest = keep test xs in if test x then x ∷ rest else rest

-- Python's `xs[:n]`.
abbrev pub take {ℓ} : {A : Type ℓ} → ℕ → List A → List A
take n [] = []
take zero (x ∷ xs) = []
take (suc n) (x ∷ xs) = x ∷ take n xs

module _ {ℓ} {A : Type ℓ} where
  pub any-append :
      (test : A → Bool) (xs ys : List A) → any test (xs ++ ys) ≡ any test xs || any test ys
  any-append test [] ys = refl
  any-append test (x ∷ xs) ys = ground (arith, any-append test xs ys)

  pub any-map :
      (test test' : A → Bool) (f : A → A) (xs : List A)
      → ((x : A) → test' (f x) ≡ test x)
      → any test' (map f xs) ≡ any test xs
  any-map test test' f [] h = refl
  any-map test test' f (x ∷ xs) h = ground (arith, any-map test test' f xs h, h x)

  pub any-map_some :
      (test test' : A → Bool) (f : A → A) (xs : List A)
      → ((x : A) → test x ≡ true → test' (f x) ≡ true)
      → any test xs ≡ true
      → any test' (map f xs) ≡ true
  any-map_some test test' f [] h k = cc
  any-map_some test test' f (x ∷ xs) h k = ground (arith, any-map_some test test' f xs h, h x)

  pub any-map_none :
      (test : A → Bool) (f : A → A) (xs : List A)
      → ((x : A) → test (f x) ≡ false)
      → any test (map f xs) ≡ false
  any-map_none test f [] h = refl
  any-map_none test f (x ∷ xs) h = ground (arith, any-map_none test f xs h, h x)

  -- What a search returns passes its test.
  pub find?-passes :
      (test : A → Bool) (xs : List A) (x : A) → find? test xs ≡ some x → test x ≡ true
  find?-passes test [] x h = cc
  find?-passes test (y ∷ ys) x h = ground (arith, find?-passes test ys x)

  pub find?-any :
      (test fails : A → Bool) (xs : List A) (x : A)
      → any (λ y. test y && fails y) xs ≡ false
      → find? test xs ≡ some x
      → fails x ≡ false
  find?-any test fails [] x k h = cc
  find?-any test fails (y ∷ ys) x k h = ground (arith, find?-any test fails ys x)

abbrev pub All {ℓ κ} : {A : Type ℓ} → (A → Type κ) → List A → Type κ
All P [] = Unit
All P (x ∷ xs) = P x × All P xs

pub All-append {ℓ κ} :
    {A : Type ℓ} (P : A → Type κ) (xs ys : List A) → All P xs → All P ys → All P (xs ++ ys)
All-append P [] ys h k = k
All-append P (x ∷ xs) ys h k = (h.0, All-append P xs ys h.1 k)

pub All-map_weaken {ℓ κ ι} :
    {A : Type ℓ} (P : A → Type κ) (Q : A → Type ι) (f : (a : A) → P a → Q a) (xs : List A)
    → All P xs
    → All Q xs
All-map_weaken P Q f [] h = tt
All-map_weaken P Q f (x ∷ xs) h = (f x h.0, All-map_weaken P Q f xs h.1)
