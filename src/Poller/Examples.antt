-- ===== src/Poller/Examples.antt =====
-- A recording that is downloaded, while another worker that lost its claim is still about.
use localplaud.Prelude.{◌≡◌, ◌<◌, ◌+◌, ◌*◌, refl, false, none, [], ◌∷◌, find, put, eq_iff}
use localplaud.Pipeline.Recording.{PlaudFile, Library, discovered}
use localplaud.Pipeline.Examples.{recording}
use localplaud.Poller.Downloads.{
  Mode, claim_download, claimed_download, may_download, publish_download, fail_download,
}
use localplaud.Poller.Fence.{IsPublished, download_fence}

abbrev normal : Mode
normal = record { cache_only = false; claim_acquired = false }

abbrev found : PlaudFile
found = record recording { status = discovered; audio_path = none }

abbrev claimed : Library
claimed = claimed_download 10 normal "d2" found ∷ []

download_fence_example :
    (claim_download 30 normal "d1" "r1" claimed ≡ (false, claimed))
    × (publish_download 30 normal "d1" "/audio/r1.ogg" "r1" claimed ≡ (false, claimed))
    × (fail_download 30 normal "d1" "timeout" "r1" claimed ≡ claimed)
    × (30 < 10 + 3600 * 1000000
        → IsPublished "/audio/r1.ogg" "r1"
            (publish_download 30 normal "d2" "/audio/r1.ogg" "r1" claimed))
unfolding claim_download may_download find put
download_fence_example =
    download_fence 10 normal "d2" "r1" (found ∷ []) claimed 30 normal "d1" "/audio/r1.ogg" "timeout"
      refl (λ e. cc ((eq_iff "d1" "d2").1 e))
