-- ===== src/Pipeline/Slots.antt =====
-- Every step keeps the recordings in processing within the limit.
use mathlib.Core.Path.{subst}
use localplaud.Prelude.{
  ℕ, HasUnique-map, count-map-le, ◌+◌, String, ◌≡◌, sym, Bool, true, ◌&&◌, inl, inr, Option, none,
  some, arith, Option-cases, by_test, if◌then◌else◌, find, put, find-key, count-le,
}
use localplaud.Pipeline.Recording.{FileStatus, PlaudFile, Library, file_id}
use localplaud.Pipeline.Claims.{
  Claim, ok, holds_lease, assert_processing_claim, check_claim, unclaimed, ProcessingClaim,
  has_token, release_processing, release_processing_claim, leased_after, processing_lease,
  expected_token, writes_other,
}
use localplaud.Pipeline.Recovery.{
  reset_inflight, reset_row, reset_download, interrupt, close_orphans,
}
use localplaud.Pipeline.Capacity.{
  World, Step, Reach, active, IsWithin, later_lease, put-IsWithin, claim-IsWithin, tick, claim,
  renew, release, restore, recover, here, next,
}

renewed_row :
    (now : ℕ) (token : String) (old row : PlaudFile) (l l' : Library)
    → check_claim now true (some token) old l ≡ ok (row, l')
    → (holds_lease now old ≡ true)
      × (row ≡ record old { processing_lease_until = some (now + processing_lease) })
      × (l' ≡ put file_id (record old { processing_lease_until = some (now + processing_lease) }) l)
unfolding check_claim
renewed_row now token old row l l' h = ground arith

-- Without a token nothing is checked and nothing changes.
unchecked :
    (now : ℕ) (old row : PlaudFile) (l l' : Library)
    → check_claim now true none old l ≡ ok (row, l')
    → l' ≡ l
unfolding check_claim
unchecked now old row l l' h = ground arith

renew-IsWithin :
    (concurrency now : ℕ) (active : Option ProcessingClaim) (token : Option String) (id : String)
    (row : PlaudFile) (l l' : Library)
    → assert_processing_claim now active token true id l ≡ ok (row, l')
    → IsWithin concurrency (record { now = now; library = l })
    → IsWithin concurrency (record { now = now; library = l' })
unfolding assert_processing_claim
renew-IsWithin concurrency now active token id row l l' =
    by_test Kept (writes_other id active) (λ _ h. cc)
      λ _. elim (Option-cases (find file_id id l)) [
        | inl e ↦ rw (e, assert_processing_claim) (λ h. cc)
        | inr (old, e) ↦
            rw (e, assert_processing_claim) (checked old e (expected_token token active))
      ]
  where
    Kept : Claim (PlaudFile × Library) → Type 0
    Kept r =
        r ≡ ok (row, l')
        → IsWithin concurrency (record { now = now; library = l })
        → IsWithin concurrency (record { now = now; library = l' })

    checked :
        (old : PlaudFile)
        → find file_id id l ≡ some old
        → (t : Option String) → Kept (check_claim now true t old l)
    checked old e none h s =
        subst (λ m. IsWithin concurrency (record { now = now; library = m }))
          (sym (unchecked now old row l l' h)) s
    checked old e (some t) h s =
        let (live, same, eq) = renewed_row now t old row l l' h in
        subst (λ m. IsWithin concurrency (record { now = now; library = m })) (sym eq)
          (put-IsWithin concurrency now _ old l
            (subst (λ k. find file_id k l ≡ some old) (sym (find-key file_id id l old e)) e)
            (λ _. live) s)

release-IsWithin :
    (concurrency now : ℕ) (id token : String) (l : Library)
    → IsWithin concurrency (record { now = now; library = l })
    → IsWithin concurrency (record { now = now; library = release_processing id token l })
unfolding release_processing
release-IsWithin concurrency now id token l s = elim (Option-cases (find file_id id l)) [
  | inl e ↦ rw (e, release_processing) s
  | inr (row, e) ↦
      rw (e, release_processing)
        (by_test (λ m. IsWithin concurrency (record { now = now; library = m }))
          (has_token token row)
          (λ _. put-IsWithin concurrency now (unclaimed row) row l (own row e) (λ h. cc) s)
          (λ _. s))
]
  where
    own : (row : PlaudFile) → find file_id id l ≡ some row → find file_id row.id l ≡ some row
    own row e = subst (λ k. find file_id k l ≡ some row) (sym (find-key file_id id l row e)) e

restore-IsWithin :
    (concurrency now : ℕ) (id token : String) (restored : Option (FileStatus × Option String))
    (l : Library)
    → IsWithin concurrency (record { now = now; library = l })
    → IsWithin concurrency
        (record { now = now; library = release_processing_claim now id token restored l })
unfolding release_processing_claim
restore-IsWithin concurrency now id token restored l s = elim (Option-cases (find file_id id l)) [
  | inl e ↦ rw (e, release_processing_claim) s
  | inr (row, e) ↦ rw (e, release_processing_claim) (cleared row (own row e) restored)
]
  where
    own : (row : PlaudFile) → find file_id id l ≡ some row → find file_id row.id l ≡ some row
    own row e = subst (λ k. find file_id k l ≡ some row) (sym (find-key file_id id l row e)) e

    Within : Library → Type 0
    Within m = IsWithin concurrency (record { now = now; library = m })

    cleared :
        (row : PlaudFile)
        → find file_id row.id l ≡ some row
        → (r : Option (FileStatus × Option String))
        → Within (elim r [
          | none ↦ if has_token token row then put file_id (unclaimed row) l else l
          | some (status, error) ↦
              if has_token token row && leased_after now row.processing_lease_until
              then put file_id (record (unclaimed row) { status = status; error = error }) l
              else l
        ])
    cleared row e none =
        by_test Within (has_token token row)
          (λ _. put-IsWithin concurrency now (unclaimed row) row l e (λ h. cc) s) (λ _. s)
    cleared row e (some (status, error)) =
        by_test Within (has_token token row && leased_after now row.processing_lease_until)
          (λ _. put-IsWithin concurrency now _ row l e (λ h. cc) s) (λ _. s)

reset_row-keeps :
    (now : ℕ) (owned : String → Bool) (row : PlaudFile)
    → (file_id (reset_row now owned row) ≡ file_id row)
      × (holds_lease now (reset_row now owned row) ≡ true → holds_lease now row ≡ true)
unfolding reset_row close_orphans interrupt reset_download
reset_row-keeps now owned row = (ground arith, λ h. ground arith)

Step-IsWithin :
    {concurrency : ℕ} {w v : World}
    → Step concurrency w v
    → IsWithin concurrency w
    → IsWithin concurrency v
Step-IsWithin {concurrency} (tick w n) s = record {
  ids = s.ids;
  slots = omega (
    arith,
    count-le (holds_lease (w.now + n)) (holds_lease w.now) w.library (later_lease w.now n),
    s.slots,
  );
}
Step-IsWithin {concurrency} (claim w ask exists token id l h) s =
    claim-IsWithin concurrency w.now ask exists token id w.library l h s
Step-IsWithin {concurrency} (renew w active token id row l h) s =
    renew-IsWithin concurrency w.now active token id row w.library l h s
Step-IsWithin {concurrency} (release w id token) s =
    release-IsWithin concurrency w.now id token w.library s
Step-IsWithin {concurrency} (restore w id token restored) s =
    restore-IsWithin concurrency w.now id token restored w.library s
Step-IsWithin {concurrency} (recover w owned) s = record {
  ids =
      unfold reset_inflight in
      HasUnique-map file_id (reset_row w.now owned) (λ r. (reset_row-keeps w.now owned r).0)
        w.library s.ids;
  slots =
      unfold reset_inflight in
      omega (
        arith,
        count-map-le (holds_lease w.now) (reset_row w.now owned) w.library
            (λ r. (reset_row-keeps w.now owned r).1),
        s.slots,
      );
}

-- From a database within the limit, no sequence of claims, renewals, releases, recoveries and
-- ticks of the clock puts more recordings in processing than the configured concurrency, or one
-- where that is zero.
pub Reach-IsWithin :
    {concurrency : ℕ} {s t : World}
    → IsWithin concurrency s
    → Reach concurrency s t
    → IsWithin concurrency t
Reach-IsWithin h here = h
Reach-IsWithin h (next r st) = Step-IsWithin st (Reach-IsWithin h r)
