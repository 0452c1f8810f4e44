-- ===== src/Pipeline/Batch.antt =====
-- The bulk queue as a whole: the rows that one call changes, and what it reports.
use mathlib.Core.Path.{subst}
use localplaud.Prelude.{
  ℕ, ◌+◌, ◌≤◌, ◌≡◌, refl, sym, ap, not, leb, Bool, true, false, ◌&&◌, Option, none, some, [], ◌∷◌,
  ◌++◌, arith, by_test, same_branch, if◌then◌else◌, take,
}
use localplaud.Pipeline.Recording.{PlaudFile, Library}
use localplaud.Pipeline.Claims.{processing_claim_active}
use localplaud.Pipeline.Reprocess.{
  QueueRequest, QueueResult, Verdict, eligible, unasked, without_audio, busy, without_transcript,
  judge, counted, written, queue_row, queue_rows, queue_library_reprocess, nothing_queued, is_full,
  is_asked, no_path, lacks_transcript,
}

-- The row is asked for, has audio, is in no worker's hands, and has a transcript where only what
-- is derived from one is made again.
abbrev pub can_queue : ℕ → QueueRequest → PlaudFile → Bool
can_queue now ask row =
    is_asked ask row
    && (not (no_path row.audio_path)
        && (not (processing_claim_active now row) && not (lacks_transcript ask.mode row)))

-- As many are queued as the limit allows, where there is one.
abbrev pub IsFull : Option ℕ → ℕ → Type 0
IsFull none queued = ⊥
IsFull (some limit) queued = limit ≤ queued

-- What a call does from some row on, with the number of queued rows before and after: it queues in
-- place each row that it can, and passes the others, until the limit is reached.
pub data Batch (now : ℕ) (ask : QueueRequest) : ℕ → Library → Library → ℕ → Type 0 where
  done : {q : ℕ} → Batch now ask q [] [] q
  full : {q : ℕ} (l : Library) → IsFull ask.limit q → Batch now ask q l l q
  pass :
      (row : PlaudFile) {q n : ℕ} {l l' : Library}
      → can_queue now ask row ≡ false
      → Batch now ask q l l' n
      → Batch now ask q (row ∷ l) (row ∷ l') n
  queue :
      (row : PlaudFile) {q n : ℕ} {l l' : Library}
      → can_queue now ask row ≡ true
      → ¬ IsFull ask.limit q
      → Batch now ask (q + 1) l l' n
      → Batch now ask q (row ∷ l) (queue_row now ask.mode row ∷ l') n

abbrev is_eligible : Verdict → Bool
is_eligible eligible = true
is_eligible _ = false

judge-can_queue :
    (now : ℕ) (ask : QueueRequest) (row : PlaudFile)
    → can_queue now ask row ≡ is_eligible (judge now ask row)
unfolding judge
judge-can_queue now ask row = ground arith

is_full-IsFull : (limit : Option ℕ) (q : ℕ) → is_full limit q ≡ true → IsFull limit q
is_full-IsFull none q h = cc
is_full-IsFull (some limit) q h = ground arith

open_limit : (limit : Option ℕ) (q : ℕ) → is_full limit q ≡ false → ¬ IsFull limit q
open_limit none q h = λ f. f
open_limit (some limit) q h = λ f. absurd (not_both limit q h f)
  where
    not_both : (limit q : ℕ) → leb limit q ≡ false → limit ≤ q → ⊥
    not_both limit q h f = ground arith

asked_first : (a f rest : Bool) → a && f ≡ false → a && rest ≡ true → f ≡ false
asked_first a f rest h k = ground arith

reached :
    (now : ℕ) (ask : QueueRequest) (r : QueueResult) (row : PlaudFile)
    → ask.dry_run ≡ false
    → is_asked ask row && is_full ask.limit r.queued ≡ false
    → (v : Verdict) → can_queue now ask row ≡ is_eligible v
    → {l l' : Library} {n : ℕ} → Batch now ask (counted ask row v r).queued l l' n
    → Batch now ask r.queued (row ∷ l) (written now ask row v ∷ l') n
unfolding counted written
reached now ask r row live room unasked e b = pass row e b
reached now ask r row live room without_audio e b = pass row e b
reached now ask r row live room busy e b = pass row e b
reached now ask r row live room without_transcript e b = pass row e b
reached now ask r row live room eligible e {l = l} {l' = l'} {n = n} b =
    subst
      (λ dry.
        Batch now ask r.queued (row ∷ l) ((if dry then row else queue_row now ask.mode row) ∷ l') n)
      (sym live)
      (queue row e (open_limit ask.limit r.queued (asked_first (is_asked ask row) _ _ room e)) b)

queue_rows-Batch :
    (now : ℕ) (ask : QueueRequest) (r : QueueResult) (l : Library)
    → ask.dry_run ≡ false
    → Batch now ask r.queued l (queue_rows now ask r l).1 (queue_rows now ask r l).0.queued
unfolding queue_rows
queue_rows-Batch now ask r [] live = done
queue_rows-Batch now ask r (row ∷ rows) live =
    by_test {B = QueueResult × Library}
      (λ out. Batch now ask r.queued (row ∷ rows) out.1 out.0.queued)
      (is_asked ask row && is_full ask.limit r.queued)
      (λ t. full (row ∷ rows) (is_full-IsFull ask.limit r.queued (and_right _ _ t)))
      (λ room.
        reached now ask r row live room (judge now ask row) (judge-can_queue now ask row)
          (queue_rows-Batch now ask (counted ask row (judge now ask row) r) rows live))
  where
    and_right : (a b : Bool) → a && b ≡ true → b ≡ true
    and_right a b h = ground arith

-- A call that is no dry run goes through the library in its order and queues in place every row that
-- is asked for, has audio, is in no worker's hands and, where only derived results are made again,
-- has a transcript, until as many are queued as the limit allows; it leaves every other row as it
-- was, and reports how many it queued.
pub queue_library_reprocess-Batch :
    (now : ℕ) (ask : QueueRequest) (l : Library)
    → ask.dry_run ≡ false
    → let (r, l') = queue_library_reprocess now ask l in Batch now ask 0 l l' r.queued
unfolding queue_library_reprocess
queue_library_reprocess-Batch now ask l live = queue_rows-Batch now ask nothing_queued l live

dry_rows :
    (now : ℕ) (ask : QueueRequest) (r : QueueResult) (l : Library)
    → ask.dry_run ≡ true
    → (queue_rows now ask r l).1 ≡ l
unfolding queue_rows written
dry_rows now ask r [] dry = refl
dry_rows now ask r (row ∷ rows) dry =
    by_test {B = QueueResult × Library} (λ out. out.1 ≡ row ∷ rows)
      (is_asked ask row && is_full ask.limit r.queued) (λ _. refl)
      λ _.
        untouched (judge now ask row)
          (dry_rows now ask (counted ask row (judge now ask row) r) rows dry)
  where
    untouched : (v : Verdict) {l : Library} → l ≡ rows → written now ask row v ∷ l ≡ row ∷ rows
    untouched eligible e = rw (dry, e) refl
    untouched unasked e = rw e refl
    untouched without_audio e = rw e refl
    untouched busy e = rw e refl
    untouched without_transcript e = rw e refl

-- A call's report, less the recordings whose documents it invalidates.
abbrev pub report : QueueResult → QueueResult
report r = record r { invalidated = [] }

-- The same call, as a dry run or not.
abbrev pub with_dry_run : Bool → QueueRequest → QueueRequest
with_dry_run dry ask = record ask { dry_run = dry }

counted-same :
    (ask : QueueRequest) (row : PlaudFile) (v : Verdict) (r r' : QueueResult)
    → report r ≡ report r'
    → report (counted (with_dry_run true ask) row v r)
      ≡ report (counted (with_dry_run false ask) row v r')
unfolding counted
counted-same ask row unasked r r' e = e
counted-same ask row without_audio r r' e =
    ap {A = QueueResult} (λ s. record s { no_audio = s.no_audio + 1 }) e
counted-same ask row busy r r' e =
    ap {A = QueueResult} (λ s. record s { processing = s.processing + 1 }) e
counted-same ask row without_transcript r r' e =
    ap {A = QueueResult} (λ s. record s { skipped = s.skipped + 1 }) e
counted-same ask row eligible r r' e =
    ap {A = QueueResult}
      (λ s. record s { queued = s.queued + 1; queued_ids = s.queued_ids ++ row.id ∷ [] }) e

queue_rows-same :
    (now : ℕ) (ask : QueueRequest) (r r' : QueueResult) (l : Library)
    → report r ≡ report r'
    → report (queue_rows now (with_dry_run true ask) r l).0
      ≡ report (queue_rows now (with_dry_run false ask) r' l).0
unfolding queue_rows judge
queue_rows-same now ask r r' [] e = e
queue_rows-same now ask r r' (row ∷ rows) e =
    same_branch {B = QueueResult × Library} (λ out out'. report out.0 ≡ report out'.0)
      (is_asked (with_dry_run true ask) row && is_full ask.limit r.queued)
      (is_asked (with_dry_run false ask) row && is_full ask.limit r'.queued)
      (ap {A = QueueResult} (λ s. is_asked ask row && is_full ask.limit s.queued) e) e
      (queue_rows-same now ask (counted (with_dry_run true ask) row (judge now ask row) r)
        (counted (with_dry_run false ask) row (judge now ask row) r') rows
        (counted-same ask row (judge now ask row) r r' e))

-- A dry run changes nothing and gives the very report of the call that is none.
pub queue_library_reprocess-dry_run :
    (now : ℕ) (ask : QueueRequest) (l : Library)
    → let (r, l') = queue_library_reprocess now (with_dry_run true ask) l in
      let (s, _) = queue_library_reprocess now (with_dry_run false ask) l in
      (l' ≡ l) × (report r ≡ report s)
unfolding queue_library_reprocess
queue_library_reprocess-dry_run now ask l = (
  dry_rows now (with_dry_run true ask) nothing_queued l refl,
  ap {A = QueueResult} (λ s. record s { queued_ids = take 50 s.queued_ids })
      (queue_rows-same now ask nothing_queued nothing_queued l refl),
)
