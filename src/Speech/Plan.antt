-- ===== src/Speech/Plan.antt =====
-- The chunk plan as a whole.
use localplaud.Prelude.{ℕ, ◌-◌, ◌≡◌, ◌∙◌, true, List, map, keep, All, arith}
use localplaud.Speech.Regions.{Region, sort, is_nonempty, merge, padded, merge_speech_regions}
use localplaud.Speech.Merge.{
  covers, IsAscending, IsAscending-lower, IsDisjoint, sort-IsAscending, sort-covers,
  merge-IsDisjoint, merge-covers, IsDisjoint-IsAscending, pad-IsAscending, pad-covers,
}
use localplaud.Speech.Windows.{
  IsBounded, split_all-IsBounded, split_all-IsDisjoint, split_all-covers,
}

-- The regions once merged, and then padded.
abbrev joined : List Region → ℕ → List Region
joined regions min_gap = merge min_gap (sort (keep is_nonempty regions))

joined-IsDisjoint : (regions : List Region) (min_gap : ℕ) → IsDisjoint 0 (joined regions min_gap)
joined-IsDisjoint regions min_gap = merge-IsDisjoint min_gap 0 _ (sort-IsAscending regions)

spread-IsAscending :
    (regions : List Region) (min_gap pad : ℕ)
    → IsAscending 0 (map (padded pad) (joined regions min_gap))
spread-IsAscending regions min_gap pad =
    IsAscending-lower 0 (0 - pad) _ (omega arith)
      (pad-IsAscending pad 0 _ (IsDisjoint-IsAscending 0 _ (joined-IsDisjoint regions min_gap)))

-- The chunks are not empty, are in order and do not overlap; none is longer than the budget,
-- where that is not zero; and every instant of every speech region is in a chunk. So the loop
-- that cuts a long region always reaches its end.
pub merge_speech_regions-covers :
    (regions : List Region) (min_gap pad max_region : ℕ)
    → let chunks = merge_speech_regions regions min_gap pad max_region in
      IsDisjoint 0 chunks
      × All (IsBounded max_region) chunks
      × ((t : ℕ) → covers t regions ≡ true → covers t chunks ≡ true)
unfolding merge_speech_regions
merge_speech_regions-covers regions min_gap pad max_region = (
  split_all-IsDisjoint max_region 0 _
      (merge-IsDisjoint 0 0 _ (spread-IsAscending regions min_gap pad)),
  split_all-IsBounded max_region _,
  λ t k. split_all-covers max_region t _ (
      merge-covers t 0 0 _ (spread-IsAscending regions min_gap pad) (
        pad-covers t pad _
          (merge-covers t min_gap 0 _ (sort-IsAscending regions) (sort-covers t regions ∙ k)))),
)
