-- ===== src/Pipeline/Capacity.antt =====
-- The shared recording slots: claims, renewals, releases, recoveries and the clock, in any order.
use mathlib.Core.Path.{subst}
use localplaud.Prelude.{
  ℕ, leb, ◌+◌, ◌≤◌, max, String, ◌≡◌, sym, ◌∙◌, Bool, true, false, not, Option, some, arith, find,
  put, find-key, HasUnique, HasUnique-put, count, count-put, count-others, bit,
}
use localplaud.Pipeline.Recording.{FileStatus, PlaudFile, Library, file_id}
use localplaud.Pipeline.Claims.{
  ok, holds_lease, admits, ClaimRequest, claim_processing, assert_processing_claim, ProcessingClaim,
  release_processing, release_processing_claim,
}
use localplaud.Pipeline.Recovery.{reset_inflight}
use localplaud.Pipeline.Lease.{taken, taken_columns, claim-eq_ok}

pub record World : Type 0 where
  pub now : ℕ
  pub library : Library

-- The steps of all processes that share the database, under one configured concurrency.
pub data Step (concurrency : ℕ) : World → World → Type 0 where
  tick : (w : World) (n : ℕ) → Step concurrency w (record w { now = w.now + n })
  claim :
      (w : World) (ask : ClaimRequest) (exists : String → Bool) (token id : String) (l : Library)
      → claim_processing concurrency w.now ask exists token id w.library ≡ ok l
      → Step concurrency w (record w { library = l })
  renew :
      (w : World) (active : Option ProcessingClaim) (token : Option String) (id : String)
      (row : PlaudFile) (l : Library)
      → assert_processing_claim w.now active token true id w.library ≡ ok (row, l)
      → Step concurrency w (record w { library = l })
  release :
      (w : World) (id token : String)
      → Step concurrency w (record w { library = release_processing id token w.library })
  restore :
      (w : World) (id token : String) (restored : Option (FileStatus × Option String))
      → Step concurrency w
          (record w { library = release_processing_claim w.now id token restored w.library })
  recover :
      (w : World) (owned : String → Bool)
      → Step concurrency w (record w { library = (reset_inflight w.now owned w.library).1 })

pub data Reach (concurrency : ℕ) (s : World) : World → Type 0 where
  here : Reach concurrency s s
  next : {t u : World} → Reach concurrency s t → Step concurrency t u → Reach concurrency s u

-- The recordings in processing, over all workspaces.
abbrev pub active : World → ℕ
active w = count (holds_lease w.now) w.library

pub record IsWithin (concurrency : ℕ) (w : World) : Type 0 where
  pub ids : HasUnique file_id w.library
  pub slots : active w ≤ max 1 concurrency

-- A lease that is live later is live now.
pub later_lease :
    (now n : ℕ) (row : PlaudFile) → holds_lease (now + n) row ≡ true → holds_lease now row ≡ true
later_lease now n row h = ground arith

-- A commit that leaves or ends the row's lease.
pub put-IsWithin :
    (concurrency now : ℕ) (new old : PlaudFile) (l : Library)
    → find file_id new.id l ≡ some old
    → (holds_lease now new ≡ true → holds_lease now old ≡ true)
    → IsWithin concurrency (record { now = now; library = l })
    → IsWithin concurrency (record { now = now; library = put file_id new l })
put-IsWithin concurrency now new old l e less s = record {
  ids = HasUnique-put file_id file_id new l old e (find-key file_id new.id l old e) s.ids;
  slots = fewer (count-put file_id (holds_lease now) new l old e) s.slots;
}
  where
    fewer :
        count (holds_lease now) (put file_id new l) + bit (holds_lease now old)
          ≡ count (holds_lease now) l + bit (holds_lease now new)
        → count (holds_lease now) l ≤ max 1 concurrency
        → count (holds_lease now) (put file_id new l) ≤ max 1 concurrency
    fewer eq le = ground arith

filled :
    (concurrency n k o b : ℕ) (new : Bool)
    → n + b ≡ k + bit new
    → o + b ≡ k
    → not (leb (max 1 concurrency) o) ≡ true
    → n ≤ max 1 concurrency
filled concurrency n k o b true p q r = ground arith
filled concurrency n k o b false p q r = ground arith

-- The claim that takes the last slot fills it, and no claim goes past it.
pub claim-IsWithin :
    (concurrency now : ℕ) (ask : ClaimRequest) (exists : String → Bool) (token id : String)
    (l l' : Library)
    → claim_processing concurrency now ask exists token id l ≡ ok l'
    → IsWithin concurrency (record { now = now; library = l })
    → IsWithin concurrency (record { now = now; library = l' })
unfolding admits
claim-IsWithin concurrency now ask exists token id l l' h s =
    let (row, e, a, c, eq) = claim-eq_ok concurrency now ask exists token id l l' h in
    let new = taken now ask token row in
    let mine = (taken_columns now ask token row).0 ∙ find-key file_id id l row e in
    let found : find file_id new.id l ≡ some row = rw mine e in
    subst (λ m. IsWithin concurrency (record { now = now; library = m })) (sym eq)
      (record {
        ids =
            HasUnique-put file_id file_id new l row found (sym (taken_columns now ask token row).0)
              s.ids;
        slots =
            filled concurrency _ _ _ _ (holds_lease now new)
              (count-put file_id (holds_lease now) new l row found)
              (count-others file_id (holds_lease now) id l row e s.ids) a;
      })
