-- ===== src/Prelude/Counts.antt =====
-- Counting the rows of a table, and updates of all rows.
use mathlib.Core.Path.{◌≡◌, refl, ap, subst}
use mathlib.Core.Bool.{Bool, true, false, not, ◌&&◌}
use mathlib.Core.Logic.{inl, inr}
use mathlib.Core.Option.{none, some}
use mathlib.Core.List.{List, [], ◌∷◌, map}
use native.Mathlib.Omega.{arith}
use Prim.Native.Nat.{ℕ, ◌+◌, ◌≤◌}
use Prim.Native.String.{String}
use text.Mathlib.Text.{◌==◌ as str_eq}
use text.Mathlib.TextEquality.{eq_iff}
use localplaud.Prelude.Tests.{Bool-cases}
use localplaud.Prelude.Table.{find, put, HasUnique, some_eq}

-- 1 for a row that a query counts
abbrev pub bit : Bool → ℕ
bit true = 1
bit false = 0

module _ {ℓ} {A : Type ℓ} where
  -- select(func.count()).where(test)
  unfoldable pub count : (A → Bool) → List A → ℕ
  count test [] = 0
  count test (row ∷ l) = bit (test row) + count test l

  pub count-le :
      (test test' : A → Bool) (l : List A)
      → ((row : A) → test row ≡ true → test' row ≡ true)
      → count test l ≤ count test' l
  unfolding count
  count-le test test' [] h = omega arith
  count-le test test' (row ∷ l) h = elim (Bool-cases (test row)) [
    | inl t ↦ rw (t, h row t) (omega (arith, count-le test test' l h))
    | inr t ↦ rw t (omega (arith, count-le test test' l h))
  ]

module _ {ℓ} {A : Type ℓ} (key : A → String) (test : A → Bool) where
  -- The commit of a row changes a count by that row alone.
  pub count-put :
      (new : A) (l : List A) (old : A)
      → find key (key new) l ≡ some old
      → count test (put key new l) + bit (test old) ≡ count test l + bit (test new)
  unfolding find put count
  count-put new [] old e = cc
  count-put new (row ∷ l) old e = elim (Bool-cases (str_eq (key row) (key new))) [
    | inl b ↦
        rw b (rw (ap (λ r. bit (test r)) (some_eq {a = row} {b = old} (rw b at e))) (omega arith))
    | inr b ↦ rw b (omega (arith, count-put new l old (rw b at e)))
  ]

  count-absent :
      (k : String) (l : List A)
      → find key k l ≡ none
      → count (λ r. test r && not (str_eq (key r) k)) l ≡ count test l
  unfolding find count
  count-absent k [] e = refl
  count-absent k (row ∷ l) e = elim (Bool-cases (str_eq (key row) k)) [
    | inl b ↦ cc (rw b at e)
    | inr b ↦ rw b (ground (arith, count-absent k l (rw b at e)))
  ]

  -- The rows counted beside one row.
  pub count-others :
      (k : String) (l : List A) (old : A)
      → find key k l ≡ some old
      → HasUnique key l
      → count (λ r. test r && not (str_eq (key r) k)) l + bit (test old) ≡ count test l
  unfolding find count
  count-others k [] old e u = cc
  count-others k (row ∷ l) old e u = elim (Bool-cases (str_eq (key row) k)) [
    | inl b ↦
        let same : test row ≡ test old = ap test (some_eq {a = row} {b = old} (rw b at e)) in
        let rest =
          count-absent k l (subst (λ c. find key c l ≡ none) ((eq_iff (key row) k).0 b) u.0) in
        rw b (ground (arith, same, rest))
    | inr b ↦ rw b (ground (arith, count-others k l old (rw b at e) u.1))
  ]

-- An UPDATE of every row that keeps the key.
module _ {ℓ} {A : Type ℓ} (key : A → String) (f : A → A)
    (same : (row : A) → key (f row) ≡ key row) where
  find-map-none : (k : String) (l : List A) → find key k l ≡ none → find key k (map f l) ≡ none
  unfolding find
  find-map-none k [] e = refl
  find-map-none k (row ∷ l) e = rw (same row) (ground (arith, find-map-none k l))

  pub HasUnique-map : (l : List A) → HasUnique key l → HasUnique key (map f l)
  HasUnique-map [] u = tt
  HasUnique-map (row ∷ l) u = (rw (same row) (find-map-none (key row) l u.0), HasUnique-map l u.1)

pub count-map-le {ℓ} :
    {A : Type ℓ} (test : A → Bool) (f : A → A) (l : List A)
    → ((row : A) → test (f row) ≡ true → test row ≡ true)
    → count test (map f l) ≤ count test l
unfolding count
count-map-le test f [] h = omega arith
count-map-le test f (row ∷ l) h = elim (Bool-cases (test (f row))) [
  | inl t ↦ rw (t, h row t) (omega (arith, count-map-le test f l h))
  | inr t ↦ rw t (omega (arith, count-map-le test f l h))
]
