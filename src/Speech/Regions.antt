-- ===== src/Speech/Regions.antt =====
-- The chunk planner of asr/vad.py, `merge_speech_regions`. Times are whole ticks of any fixed
-- resolution, so the sums and differences are exact, unlike those of the source's floats.
use localplaud.Prelude.{
  ℕ, zero, suc, ◌+◌, ◌-◌, min, max, Bool, true, false, not, ◌&&◌, ◌||◌, List, [], ◌∷◌, ◌++◌, map,
  ltb, leb, ◌==◌, keep, if◌then◌else◌,
}

pub record Region : Type 0 where
  pub start : ℕ
  pub stop : ℕ

-- Tuples compare by start, then by end.
abbrev pub comes_first : Region → Region → Bool
comes_first a b = ltb a.start b.start || (a.start == b.start && leb a.stop b.stop)

unfoldable pub insert : Region → List Region → List Region
insert a [] = a ∷ []
insert a (b ∷ rest) =
    let later = insert a rest in if comes_first a b then a ∷ b ∷ rest else b ∷ later

-- sorted(...)
unfoldable pub sort : List Region → List Region
sort [] = []
sort (a ∷ rest) = insert a (sort rest)

abbrev pub is_nonempty : Region → Bool
is_nonempty r = ltb r.start r.stop

-- `merged` and `remerged`: `current` is the last entry of the source's list, and the loop appends
-- it once no later region is within the gap.
unfoldable pub merge_into : ℕ → Region → List Region → List Region
merge_into gap current [] = current ∷ []
merge_into gap current (r ∷ rest) = elim (leb r.start (current.stop + gap)) [
  | true ↦ merge_into gap (record { start = current.start; stop = max current.stop r.stop }) rest
  | false ↦ current ∷ merge_into gap r rest
]

unfoldable pub merge : ℕ → List Region → List Region
merge gap [] = []
merge gap (r ∷ rest) = merge_into gap r rest

-- (max(0.0, start - pad_s), end + pad_s)
abbrev pub padded : ℕ → Region → Region
padded pad r = record { start = r.start - pad; stop = r.stop + pad }

-- The `while cursor < end` loop, on fuel.
unfoldable pub windows : ℕ → ℕ → ℕ → ℕ → List Region
windows zero size cursor stop = []
windows (suc fuel) size cursor stop =
    let rest = windows fuel size (cursor + size) stop in
    if ltb cursor stop
    then record { start = cursor; stop = min (cursor + size) stop } ∷ rest
    else []

-- A region that is over the budget, in windows; the loop makes at most one step for each tick.
unfoldable pub split : ℕ → Region → List Region
split size r =
    if not (size == 0) && ltb size (r.stop - r.start)
    then windows (r.stop - r.start) size r.start r.stop
    else r ∷ []

unfoldable pub split_all : ℕ → List Region → List Region
split_all size [] = []
split_all size (r ∷ rest) = split size r ++ split_all size rest

-- `merge_speech_regions`
unfoldable pub merge_speech_regions : List Region → ℕ → ℕ → ℕ → List Region
merge_speech_regions regions min_gap pad max_region =
    split_all max_region
      (merge 0 (map (padded pad) (merge min_gap (sort (keep is_nonempty regions)))))
