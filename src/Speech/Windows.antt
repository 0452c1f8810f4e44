-- ===== src/Speech/Windows.antt =====
-- Splitting: the windows of a long region are bounded, apart, and cover it.
use localplaud.Prelude.{
  ℕ, zero, suc, ◌+◌, ◌-◌, ◌≤◌, ◌<◌, min, ◌≡◌, ◌≢◌, true, not, ◌&&◌, List, [], ◌∷◌, ◌++◌, arith, ltb,
  ◌==◌, any-append, All, All-append, by_test,
}
use localplaud.Speech.Regions.{Region, windows, split, split_all}
use localplaud.Speech.Merge.{holds, covers, IsDisjoint, IsDisjoint-lower}

-- No longer than the budget, where there is one.
abbrev pub IsBounded : ℕ → Region → Type 0
IsBounded size r = size ≢ 0 → r.stop ≤ r.start + size

windows-IsBounded :
    (fuel size cursor stop : ℕ) → All (IsBounded size) (windows fuel size cursor stop)
unfolding windows
windows-IsBounded zero size cursor stop = tt
windows-IsBounded (suc fuel) size cursor stop =
    by_test (All (IsBounded size)) (ltb cursor stop)
      (λ _. ((λ _. omega arith), windows-IsBounded fuel size (cursor + size) stop)) (λ _. tt)

windows-apart :
    (fuel size cursor stop bound : ℕ) (rest : List Region)
    → 1 ≤ size
    → bound ≤ cursor
    → bound ≤ stop
    → IsDisjoint stop rest
    → IsDisjoint bound (windows fuel size cursor stop ++ rest)
unfolding windows
windows-apart zero size cursor stop bound rest one le le' h = IsDisjoint-lower bound stop rest le' h
windows-apart (suc fuel) size cursor stop bound rest one le le' h =
    by_test (λ l. IsDisjoint bound (l ++ rest)) (ltb cursor stop)
      (λ more. (
        le,
        ground arith,
        windows-apart fuel size (cursor + size) stop (min (cursor + size) stop) rest one
            (omega arith) (omega arith) h,
      ))
      (λ _. IsDisjoint-lower bound stop rest le' h)

-- With as much fuel as there are ticks the loop reaches the end.
windows-covers :
    (fuel size cursor stop t : ℕ)
    → 1 ≤ size
    → stop ≤ cursor + fuel
    → cursor ≤ t
    → t < stop
    → covers t (windows fuel size cursor stop) ≡ true
unfolding windows
windows-covers zero size cursor stop t one enough from to = ground arith
windows-covers (suc fuel) size cursor stop t one enough from to =
    ground (arith, windows-covers fuel size (cursor + size) stop t)

pub split-IsBounded : (size : ℕ) (r : Region) → All (IsBounded size) (split size r)
unfolding split
split-IsBounded size r =
    by_test (All (IsBounded size)) (not (size == 0) && ltb size (r.stop - r.start))
      (λ _. windows-IsBounded (r.stop - r.start) size r.start r.stop)
      (λ short. ((λ some_size. ground arith), tt))

split-apart :
    (size bound : ℕ) (r : Region) (rest : List Region)
    → bound ≤ r.start
    → r.start < r.stop
    → IsDisjoint r.stop rest
    → IsDisjoint bound (split size r ++ rest)
unfolding split
split-apart size bound r rest from full h =
    by_test (λ l. IsDisjoint bound (l ++ rest)) (not (size == 0) && ltb size (r.stop - r.start))
      (λ long.
        windows-apart (r.stop - r.start) size r.start r.stop bound rest (ground arith) from
          (omega (arith, from, full)) h)
      (λ _. (from, full, h))

split-covers : (size t : ℕ) (r : Region) → holds t r ≡ true → covers t (split size r) ≡ true
unfolding split
split-covers size t r h =
    by_test (λ l. covers t l ≡ true) (not (size == 0) && ltb size (r.stop - r.start))
      (λ long.
        windows-covers (r.stop - r.start) size r.start r.stop t (ground arith) (omega arith)
          (ground arith) (ground arith))
      (λ _. ground arith)

pub split_all-IsBounded : (size : ℕ) (l : List Region) → All (IsBounded size) (split_all size l)
unfolding split_all
split_all-IsBounded size [] = tt
split_all-IsBounded size (r ∷ rest) =
    All-append (IsBounded size) (split size r) (split_all size rest) (split-IsBounded size r)
      (split_all-IsBounded size rest)

pub split_all-IsDisjoint :
    (size bound : ℕ) (l : List Region) → IsDisjoint bound l → IsDisjoint bound (split_all size l)
unfolding split_all
split_all-IsDisjoint size bound [] h = tt
split_all-IsDisjoint size bound (r ∷ rest) (from, full, h) =
    split-apart size bound r (split_all size rest) from full
      (split_all-IsDisjoint size r.stop rest h)

pub split_all-covers :
    (size t : ℕ) (l : List Region) → covers t l ≡ true → covers t (split_all size l) ≡ true
unfolding split_all
split_all-covers size t [] k = k
split_all-covers size t (r ∷ rest) k = ground (
  arith,
  any-append (holds t) (split size r) (split_all size rest),
  split-covers size t r,
  split_all-covers size t rest,
)
