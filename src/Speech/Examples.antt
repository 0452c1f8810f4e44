-- ===== src/Speech/Examples.antt =====
-- A plan of three overlapping regions in chunks of at most ten ticks.
use localplaud.Prelude.{ℕ, ◌≡◌, true, List, [], ◌∷◌, All}
use localplaud.Speech.Regions.{Region, merge_speech_regions}
use localplaud.Speech.Merge.{covers, IsDisjoint}
use localplaud.Speech.Windows.{IsBounded}
use localplaud.Speech.Plan.{merge_speech_regions-covers}

abbrev speech : List Region
speech =
    record { start = 20; stop = 34 }
    ∷ record { start = 3; stop = 8 }
    ∷ record { start = 7; stop = 12 }
    ∷ record { start = 40; stop = 40 }
    ∷ []

merge_speech_regions-covers_example :
    let chunks = merge_speech_regions speech 2 1 10 in
    IsDisjoint 0 chunks
    × All (IsBounded 10) chunks
    × ((t : ℕ) → covers t speech ≡ true → covers t chunks ≡ true)
merge_speech_regions-covers_example = merge_speech_regions-covers speech 2 1 10
