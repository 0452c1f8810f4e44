-- ===== src/Poller/Fence.antt =====
-- The download claim as a fence, and the bound on the wait for a failed download.
use mathlib.Core.Path.{subst}
use localplaud.Prelude.{
  ℕ, ◌+◌, ◌-◌, ◌≤◌, ◌<◌, String, ◌≡◌, ◌≢◌, refl, sym, ap, ◌∙◌, Bool, true, false, inl, inr, none,
  some, arith, eq_iff, eq_refl, Option-cases, by_test, find, put, find-put, find-key, round_div,
}
use localplaud.Pipeline.Recording.{PlaudFile, Library, file_id}
use localplaud.Pipeline.Claims.{leased_after}
use localplaud.Poller.Downloads.{
  Mode, download_lease, may_download, claimed_download, claim_download, has_download_token,
  published, publish_download, fail_download, download_retry_due, download_retry_max_delay,
}

-- The row under `id` is being downloaded under `token` until a time.
abbrev pub IsTaken : String → String → ℕ → Library → Type 0
IsTaken token id until l =
    (row : PlaudFile) × (find file_id id l ≡ some row)
    × (row.download_token ≡ some token)
    × (row.download_lease_until ≡ some until)

-- The row that is found under its id once a change of it was committed.
found-changed :
    (id : String) (new row : PlaudFile) (l : Library)
    → new.id ≡ row.id
    → find file_id id l ≡ some row
    → find file_id id (put file_id new l) ≡ some new
found-changed id new row l same e =
    let mine = same ∙ find-key file_id id l row e in
    rw
      (
        find-put file_id id new l row (subst (λ k. find file_id k l ≡ some row) (sym mine) e),
        (eq_iff new.id id).1 mine,
      )
      refl

claimed_columns :
    (now : ℕ) (mode : Mode) (token : String) (row : PlaudFile)
    → let new = claimed_download now mode token row in
      (new.id ≡ row.id)
      × (new.download_token ≡ some token)
      × (new.download_lease_until ≡ some (now + download_lease))
claimed_columns now mode token row = ground arith

claim_download-IsTaken :
    (now : ℕ) (mode : Mode) (token id : String) (l l' : Library)
    → claim_download now mode token id l ≡ (true, l')
    → IsTaken token id (now + download_lease) l'
unfolding claim_download
claim_download-IsTaken now mode token id l l' h = elim (Option-cases (find file_id id l)) [
  | inl e ↦ cc (rw (e, claim_download) at h)
  | inr (row, e) ↦
      by_test {B = Bool × Library}
        (λ out. out ≡ (true, l') → IsTaken token id (now + download_lease) l')
        (may_download mode row)
        (λ _ k.
          subst {A = Library} (IsTaken token id (now + download_lease))
            (ap {A = Bool × Library} (λ out. out.1) k) (committed row e))
        (λ _ k. cc) (rw (e, claim_download) at h)
]
  where
    committed :
        (row : PlaudFile)
        → find file_id id l ≡ some row
        → IsTaken token id
            (now + download_lease)
            (put file_id (claimed_download now mode token row) l)
    committed row e =
        let (same, held, until) = claimed_columns now mode token row in
        (claimed_download now mode token row, found-changed id _ row l same e, held, until)

-- While a row is taken, no other claim gets it.
taken-excludes :
    (now until : ℕ) (mode : Mode) (token other id : String) (l : Library)
    → IsTaken token id until l
    → claim_download now mode other id l ≡ (false, l)
unfolding claim_download may_download
taken-excludes now until mode token other id l (row, e, t, u) =
    rw (e, claim_download) (rw (t, may_download) refl)

other-token :
    (token other : String) (row : PlaudFile)
    → row.download_token ≡ some token
    → other ≢ token
    → has_download_token other row ≡ false
other-token token other row t ne = ground (arith, eq_iff token other)

taken-fences :
    (now until : ℕ) (mode : Mode) (token other path message id : String) (l : Library)
    → IsTaken token id until l
    → other ≢ token
    → (publish_download now mode other path id l ≡ (false, l))
      × (fail_download now mode other message id l ≡ l)
unfolding publish_download fail_download
taken-fences now until mode token other path message id l (row, e, t, u) ne =
    let stranger = other-token token other row t ne in
    (rw (e, publish_download) (rw stranger refl), rw (e, fail_download) (rw stranger refl))

-- The owner's file is on the recording, and the claim is gone.
abbrev pub IsPublished : String → String → Bool × Library → Type 0
IsPublished path id (done, l) =
    (done ≡ true)
    × ((row : PlaudFile) × (find file_id id l ≡ some row)
        × (row.audio_path ≡ some path)
        × (row.download_token ≡ none))

published_columns :
    (now : ℕ) (mode : Mode) (path : String) (row : PlaudFile)
    → let new = published now mode path row in
      (new.id ≡ row.id) × (new.audio_path ≡ some path) × (new.download_token ≡ none)
published_columns now mode path row = ground arith

taken-publishes :
    (now until : ℕ) (mode : Mode) (token path id : String) (l : Library)
    → IsTaken token id until l
    → now < until
    → IsPublished path id (publish_download now mode token path id l)
unfolding publish_download
taken-publishes now until mode token path id l (row, e, t, u) lt =
    let (same, audio, gone) = published_columns now mode path row in
    let mine : has_download_token token row ≡ true = rw t (eq_refl token) in
    let live : leased_after now row.download_lease_until ≡ true = ground arith in
    rw (e, publish_download)
      (rw (mine, live)
        (refl, (published now mode path row, found-changed id _ row l same e, audio, gone)))

-- From a successful download claim on, and whatever other token is used: no second claim succeeds,
-- the other token can neither publish a file nor record a failure, and until the lease ends the
-- owner's file is published, which ends the claim.
pub download_fence :
    (now : ℕ) (mode : Mode) (token id : String) (l l' : Library) (now' : ℕ) (mode' : Mode)
    (other path message : String)
    → claim_download now mode token id l ≡ (true, l')
    → other ≢ token
    → (claim_download now' mode' other id l' ≡ (false, l'))
      × (publish_download now' mode' other path id l' ≡ (false, l'))
      × (fail_download now' mode' other message id l' ≡ l')
      × (now' < now + download_lease
          → IsPublished path id (publish_download now' mode token path id l'))
download_fence now mode token id l l' now' mode' other path message h ne =
    let until : ℕ = now + download_lease in
    let held = claim_download-IsTaken now mode token id l l' h in
    let (stays, quiet) = taken-fences now' until mode' token other path message id l' held ne in
    (
      taken-excludes now' until mode' token other id l' held,
      stays,
      quiet,
      λ lt. taken-publishes now' until mode token path id l' held lt,
    )

-- A failed download is retried six hours after its failure at the latest, and at once where the
-- recording was discovered as it failed.
download_retry_due-bounds :
    (failed_at discovered_at now : ℕ)
    → failed_at ≤ now
    → (failed_at + download_retry_max_delay ≤ now
        → download_retry_due (some failed_at) (some discovered_at) now ≡ true)
      × (failed_at ≤ discovered_at
          → download_retry_due (some failed_at) (some discovered_at) now ≡ true)
unfolding download_retry_due round_div
download_retry_due-bounds failed_at discovered_at now le = (
  (λ late. ground arith),
  λ young.
      let at_once : failed_at - discovered_at ≡ 0 = omega (arith, young) in
      rw at_once (ground arith),
)
