-- ===== src/Prelude/Sums.antt =====
-- Python's `sum(f(x) for x in xs)` and SQL's `sum` over the rows of a table.
use mathlib.Core.Path.{◌≡◌, ap}
use mathlib.Core.Logic.{inl, inr}
use mathlib.Core.Option.{some}
use mathlib.Core.List.{List, [], ◌∷◌, ◌++◌}
use native.Mathlib.Omega.{arith}
use Prim.Native.Nat.{ℕ, ◌+◌}
use Prim.Native.String.{String}
use text.Mathlib.Text.{◌==◌ as str_eq}
use localplaud.Prelude.Tests.{Bool-cases}
use localplaud.Prelude.Table.{find, put, some_eq}

module _ {ℓ} {A : Type ℓ} (f : A → ℕ) where
  unfoldable pub sum : List A → ℕ
  sum [] = 0
  sum (x ∷ xs) = f x + sum xs

  pub sum-append : (xs ys : List A) → sum (xs ++ ys) ≡ sum xs + sum ys
  unfolding sum
  sum-append [] ys = omega arith
  sum-append (x ∷ xs) ys = omega (arith, sum-append xs ys)

  -- The commit of a row changes a sum by that row alone.
  pub sum-put :
      (key : A → String) (new : A) (l : List A) (old : A)
      → find key (key new) l ≡ some old
      → sum (put key new l) + f old ≡ sum l + f new
  unfolding find put sum
  sum-put key new [] old e = cc
  sum-put key new (row ∷ l) old e = elim (Bool-cases (str_eq (key row) (key new))) [
    | inl b ↦ rw b (rw (ap f (some_eq {a = row} {b = old} (rw b at e))) (omega arith))
    | inr b ↦ rw b (omega (arith, sum-put key new l old (rw b at e)))
  ]
