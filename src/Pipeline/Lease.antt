-- ===== src/Pipeline/Lease.antt =====
-- The processing lease as a fence: what a successful claim gives its owner, and denies to others.
use mathlib.Core.Path.{subst}
use localplaud.Prelude.{
  ℕ, ◌+◌, ◌<◌, String, ◌≡◌, ◌≢◌, sym, ◌∙◌, Bool, true, false, not, ◌&&◌, inl, inr, none, some,
  arith, str_eq, eq_iff, Bool-cases, Option-cases, by_test, find, put, find-put, find-key, some_eq,
}
use localplaud.Pipeline.Recording.{PlaudFile, Library, file_id}
use localplaud.Pipeline.Claims.{
  Claim, ok, err, claim_lost, processing_lease, admits, is_claimable, claimed, scoped, ClaimRequest,
  claim_row, claim_processing, check_claim, assert_processing_claim, release_processing, has_audio,
}

-- What the claimed row becomes.
abbrev pub taken : ℕ → ClaimRequest → String → PlaudFile → PlaudFile
taken now ask token row = scoped ask.retry_mind_map (claimed now ask.mark_processing token row)

pub taken_columns :
    (now : ℕ) (ask : ClaimRequest) (token : String) (row : PlaudFile)
    → let new = taken now ask token row in
      (new.id ≡ row.id)
      × (new.processing_token ≡ some token)
      × (new.processing_lease_until ≡ some (now + processing_lease))
taken_columns now ask token row = ground arith

ok_eq {ℓ} : {A : Type ℓ} {a b : A} → ok a ≡ ok b → a ≡ b
ok_eq h = cc

claim_row-eq_ok :
    (now : ℕ) (ask : ClaimRequest) (exists : String → Bool) (token : String) (row : PlaudFile)
    (l l' : Library)
    → claim_row now ask exists token row l ≡ ok l'
    → (is_claimable now row ≡ true) × (l' ≡ put file_id (taken now ask token row) l)
unfolding claim_row
claim_row-eq_ok now ask exists token row l l' =
    by_test Got (ask.require_audio && not (has_audio exists row.audio_path)) (λ _ h. cc)
      λ _. by_test Got (is_claimable now row) (λ c h. (c, sym (ok_eq h))) (λ _ h. cc)
  where
    Got : Claim Library → Type 0
    Got r =
        r ≡ ok l' → (is_claimable now row ≡ true) × (l' ≡ put file_id (taken now ask token row) l)

-- A claim that succeeds was admitted, found its row claimable, and changed that row alone.
pub claim-eq_ok :
    (concurrency now : ℕ) (ask : ClaimRequest) (exists : String → Bool) (token id : String)
    (l l' : Library)
    → claim_processing concurrency now ask exists token id l ≡ ok l'
    → (row : PlaudFile) × (find file_id id l ≡ some row)
      × (admits concurrency now id l ≡ true)
      × (is_claimable now row ≡ true)
      × (l' ≡ put file_id (taken now ask token row) l)
unfolding claim_processing
claim-eq_ok concurrency now ask exists token id l l' h =
    elim (Bool-cases (admits concurrency now id l)) [
      | inr a ↦ cc (rw (a, claim_processing) at h)
      | inl a ↦ elim (Option-cases (find file_id id l)) [
        | inl e ↦ cc (rw (a, e, claim_processing) at h)
        | inr (row, e) ↦
            let (c, eq) =
              claim_row-eq_ok now ask exists token row l l' (rw (a, e, claim_processing) at h) in
            (row, e, a, c, eq)
      ]
    ]

-- The row that is found under its id once it was committed.
find-taken :
    (now : ℕ) (ask : ClaimRequest) (token id : String) (row : PlaudFile) (l : Library)
    → find file_id id l ≡ some row
    → find file_id id (put file_id (taken now ask token row) l) ≡ some (taken now ask token row)
find-taken now ask token id row l e =
    let same = (taken_columns now ask token row).0 ∙ find-key file_id id l row e in
    rw (
      find-put file_id id (taken now ask token row) l row
          (subst (λ k. find file_id k l ≡ some row) (sym same) e),
      (eq_iff (taken now ask token row).id id).1 same,
    )

-- The row under `id` is held with `token` until a time.
abbrev pub IsHeld : String → String → ℕ → Library → Type 0
IsHeld token id until l =
    (row : PlaudFile) × (find file_id id l ≡ some row)
    × (row.processing_token ≡ some token)
    × (row.processing_lease_until ≡ some until)

pub claim-IsHeld :
    (concurrency now : ℕ) (ask : ClaimRequest) (exists : String → Bool) (token id : String)
    (l l' : Library)
    → claim_processing concurrency now ask exists token id l ≡ ok l'
    → IsHeld token id (now + processing_lease) l'
claim-IsHeld concurrency now ask exists token id l l' h =
    let (row, e, a, c, eq) = claim-eq_ok concurrency now ask exists token id l l' h in
    let (same, held, until) = taken_columns now ask token row in
    subst (IsHeld token id (now + processing_lease)) (sym eq)
      (taken now ask token row, find-taken now ask token id row l e, held, until)

-- While a row is held, no other claim gets it.
held-excludes :
    (concurrency now until : ℕ) (ask : ClaimRequest) (exists : String → Bool)
    (token token' id : String) (l l' : Library)
    → IsHeld token id until l
    → now < until
    → claim_processing concurrency now ask exists token' id l ≢ ok l'
held-excludes concurrency now until ask exists token token' id l l' (row, e, t, u) lt h =
    let (row', e', a, c, eq) = claim-eq_ok concurrency now ask exists token' id l l' h in
    ground (arith, some_eq {a = row} {b = row'} (sym e ∙ e'))

held_checked :
    (now until : ℕ) (token other : String) (renew : Bool) (row : PlaudFile) (l : Library)
    → row.processing_token ≡ some token
    → row.processing_lease_until ≡ some until
    → other ≢ token
    → check_claim now renew (some other) row l ≡ err claim_lost
unfolding check_claim
held_checked now until token other renew row l t u ne = ground (arith, eq_iff token other)

is_text : (token : String) → token ≢ "" → str_eq token "" ≡ false
is_text token ne = ground (arith, eq_iff token "")

-- A worker that holds another token cannot write.
held-fences :
    (now until : ℕ) (token other id : String) (renew : Bool) (l : Library)
    → IsHeld token id until l
    → other ≢ token
    → other ≢ ""
    → assert_processing_claim now none (some other) renew id l ≡ err claim_lost
unfolding assert_processing_claim
held-fences now until token other id renew l (row, e, t, u) ne text =
    rw (e, is_text other text, assert_processing_claim)
      (held_checked now until token other renew row l t u ne)

owner_checked :
    (now until : ℕ) (token : String) (row : PlaudFile) (l : Library)
    → row.processing_token ≡ some token
    → row.processing_lease_until ≡ some until
    → token ≢ ""
    → now < until
    → check_claim now false (some token) row l ≡ ok (row, l)
unfolding check_claim
owner_checked now until token row l t u ne lt = ground (arith, eq_iff token token, eq_iff token "")

held-grants :
    (now until : ℕ) (token id : String) (l : Library)
    → IsHeld token id until l
    → token ≢ ""
    → now < until
    → (row : PlaudFile) × (assert_processing_claim now none (some token) false id l ≡ ok (row, l))
unfolding assert_processing_claim
held-grants now until token id l (row, e, t, u) ne lt = (
  row,
  rw (e, is_text token ne, assert_processing_claim) (owner_checked now until token row l t u ne lt),
)

held-keeps :
    (until : ℕ) (token other id : String) (l : Library)
    → IsHeld token id until l
    → other ≢ token
    → release_processing id other l ≡ l
unfolding release_processing
held-keeps until token other id l (row, e, t, u) ne =
    rw (e, release_processing) (ground (arith, eq_iff token other))

-- From a successful claim until its lease ends, and whatever other non-empty token is used: no
-- second claim succeeds, the owner's writes pass, the other token's writes fail as lost, and a
-- release with the other token changes nothing.
pub claim_fence :
    (concurrency now : ℕ) (ask : ClaimRequest) (exists : String → Bool) (token id : String)
    (l l' : Library) (concurrency' now' : ℕ) (ask' : ClaimRequest) (exists' : String → Bool)
    (other : String) (renew : Bool) (l'' : Library)
    → claim_processing concurrency now ask exists token id l ≡ ok l'
    → now' < now + processing_lease
    → token ≢ ""
    → other ≢ token
    → other ≢ ""
    → (claim_processing concurrency' now' ask' exists' other id l' ≢ ok l'')
      × ((row : PlaudFile) × (assert_processing_claim now' none (some token) false id l'
            ≡ ok (row, l')))
      × (assert_processing_claim now' none (some other) renew id l' ≡ err claim_lost)
      × (release_processing id other l' ≡ l')
claim_fence concurrency now ask exists token id l l' concurrency' now' ask' exists' other renew l''
      h lt ne diff text =
    let held = claim-IsHeld concurrency now ask exists token id l l' h in
    let until : ℕ = now + processing_lease in
    (
      held-excludes concurrency' now' until ask' exists' token other id l' l'' held lt,
      held-grants now' until token id l' held ne lt,
      held-fences now' until token other id renew l' held diff text,
      held-keeps until token other id l' held diff,
    )
