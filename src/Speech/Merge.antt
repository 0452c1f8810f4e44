-- ===== src/Speech/Merge.antt =====
-- Sorting, merging and padding keep what is covered, and leave the regions apart.
use localplaud.Prelude.{
  ℕ, ◌+◌, ◌-◌, ◌≤◌, ◌<◌, max, ◌≡◌, refl, Bool, true, false, ◌&&◌, ◌||◌, List, [], ◌∷◌, map, arith,
  ltb, leb, any, keep, by_test, by_value,
}
use localplaud.Speech.Regions.{
  Region, comes_first, insert, sort, is_nonempty, merge_into, merge, padded,
}

abbrev pub holds : ℕ → Region → Bool
holds t r = leb r.start t && ltb t r.stop

-- The instant is in one of the regions.
abbrev pub covers : ℕ → List Region → Bool
covers t l = any (holds t) l

-- Non-empty regions that begin at or after a bound, in the order of their starts.
abbrev pub IsAscending : ℕ → List Region → Type 0
IsAscending bound [] = Unit
IsAscending bound (r ∷ rest) = (bound ≤ r.start) × (r.start < r.stop) × IsAscending r.start rest

-- Non-empty regions each of which begins at or after the end of the one before.
abbrev pub IsDisjoint : ℕ → List Region → Type 0
IsDisjoint bound [] = Unit
IsDisjoint bound (r ∷ rest) = (bound ≤ r.start) × (r.start < r.stop) × IsDisjoint r.stop rest

pub IsAscending-lower : (a b : ℕ) (l : List Region) → a ≤ b → IsAscending b l → IsAscending a l
IsAscending-lower a b [] le h = h
IsAscending-lower a b (r ∷ rest) le (from, full, h) = (omega (arith, from), full, h)

pub IsDisjoint-lower : (a b : ℕ) (l : List Region) → a ≤ b → IsDisjoint b l → IsDisjoint a l
IsDisjoint-lower a b [] le h = h
IsDisjoint-lower a b (r ∷ rest) le (from, full, h) = (omega (arith, from), full, h)

insert-IsAscending :
    (a : Region) (bound : ℕ) (l : List Region)
    → bound ≤ a.start
    → a.start < a.stop
    → IsAscending bound l
    → IsAscending bound (insert a l)
unfolding insert
insert-IsAscending a bound [] le full h = (le, full, tt)
insert-IsAscending a bound (b ∷ rest) le full (from, more, h) =
    by_test (IsAscending bound) (comes_first a b) (λ first. (le, full, (ground arith, more, h)))
      (λ later. (from, more, insert-IsAscending a b.start rest (ground arith) full h))

pub sort-IsAscending : (l : List Region) → IsAscending 0 (sort (keep is_nonempty l))
unfolding sort
sort-IsAscending [] = tt
sort-IsAscending (r ∷ rest) =
    by_test (λ l. IsAscending 0 (sort l)) (is_nonempty r)
      (λ full.
        insert-IsAscending r 0 (sort (keep is_nonempty rest)) (omega arith) (ground arith)
          (sort-IsAscending rest))
      (λ _. sort-IsAscending rest)

insert-covers :
    (t : ℕ) (a : Region) (l : List Region) → covers t (insert a l) ≡ holds t a || covers t l
unfolding insert
insert-covers t a [] = ground arith
insert-covers t a (b ∷ rest) = ground (arith, insert-covers t a rest)

pub sort-covers : (t : ℕ) (l : List Region) → covers t (sort (keep is_nonempty l)) ≡ covers t l
unfolding sort
sort-covers t [] = refl
sort-covers t (r ∷ rest) =
    ground (arith, sort-covers t rest, insert-covers t r (sort (keep is_nonempty rest)))

merge_into-IsDisjoint :
    (gap : ℕ) (current : Region) (l : List Region)
    → current.start < current.stop
    → IsAscending current.start l
    → IsDisjoint current.start (merge_into gap current l)
unfolding merge_into
merge_into-IsDisjoint gap current [] full h = (omega arith, full, tt)
merge_into-IsDisjoint gap current (r ∷ rest) full (from, more, h) =
    by_value
      (λ near.
        IsDisjoint current.start (elim near [
          | true ↦ merge_into gap joined rest
          | false ↦ current ∷ merge_into gap r rest
        ]))
      (leb r.start (current.stop + gap))
      (λ near.
        merge_into-IsDisjoint gap joined rest (omega (arith, full))
          (IsAscending-lower current.start r.start rest from h))
      (λ far. (
        omega arith,
        full,
        IsDisjoint-lower current.stop r.start (merge_into gap r rest) (ground arith)
            (merge_into-IsDisjoint gap r rest more h),
      ))
  where
    joined : Region
    joined = record { start = current.start; stop = max current.stop r.stop }

merge_into-covers :
    (t gap : ℕ) (current : Region) (l : List Region)
    → IsAscending current.start l
    → covers t (current ∷ l) ≡ true
    → covers t (merge_into gap current l) ≡ true
unfolding merge_into
merge_into-covers t gap current [] h k = k
merge_into-covers t gap current (r ∷ rest) (from, more, h) k =
    by_value
      (λ near.
        covers t (elim near [
          | true ↦ merge_into gap joined rest
          | false ↦ current ∷ merge_into gap r rest
        ])
        ≡ true)
      (leb r.start (current.stop + gap))
      (λ near.
        merge_into-covers t gap joined rest (IsAscending-lower current.start r.start rest from h)
          (ground arith))
      (λ far. ground (arith, merge_into-covers t gap r rest h))
  where
    joined : Region
    joined = record { start = current.start; stop = max current.stop r.stop }

pub merge-IsDisjoint :
    (gap bound : ℕ) (l : List Region) → IsAscending bound l → IsDisjoint bound (merge gap l)
unfolding merge
merge-IsDisjoint gap bound [] h = tt
merge-IsDisjoint gap bound (r ∷ rest) (from, full, h) =
    IsDisjoint-lower bound r.start (merge_into gap r rest) from
      (merge_into-IsDisjoint gap r rest full h)

pub merge-covers :
    (t gap bound : ℕ) (l : List Region)
    → IsAscending bound l
    → covers t l ≡ true
    → covers t (merge gap l) ≡ true
unfolding merge
merge-covers t gap bound [] h k = k
merge-covers t gap bound (r ∷ rest) (from, full, h) k = merge_into-covers t gap r rest h k

pub IsDisjoint-IsAscending :
    (bound : ℕ) (l : List Region) → IsDisjoint bound l → IsAscending bound l
IsDisjoint-IsAscending bound [] h = h
IsDisjoint-IsAscending bound (r ∷ rest) (from, full, h) = (
  from,
  full,
  IsAscending-lower r.start r.stop rest (omega (arith, full))
      (IsDisjoint-IsAscending r.stop rest h),
)

pub pad-IsAscending :
    (pad bound : ℕ) (l : List Region)
    → IsAscending bound l
    → IsAscending (bound - pad) (map (padded pad) l)
pad-IsAscending pad bound [] h = h
pad-IsAscending pad bound (r ∷ rest) (from, full, h) =
    (omega (arith, from), omega (arith, full), pad-IsAscending pad r.start rest h)

pub pad-covers :
    (t pad : ℕ) (l : List Region) → covers t l ≡ true → covers t (map (padded pad) l) ≡ true
pad-covers t pad [] k = k
pad-covers t pad (r ∷ rest) k = ground (arith, pad-covers t pad rest)
