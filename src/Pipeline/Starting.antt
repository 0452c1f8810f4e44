-- ===== src/Pipeline/Starting.antt =====
-- When a job's turn comes: which of the batch's work starts, beside the new recordings that wait.
use localplaud.Prelude.{
  ℕ, String, ◌≡◌, ◌⊎◌, refl, ap, Bool, true, false, not, ◌&&◌, ◌||◌, inl, inr, Option, none, some,
  arith, find, find-hit_any, Option-cases,
}
use localplaud.Pipeline.Recording.{PlaudFile, Library, file_id}
use localplaud.Pipeline.Scope.{
  QueueSettings, Scope, outline_scope, derived_scope, mind_map_scope, full_scope, is_downloaded,
  pending_scope,
}
use localplaud.Pipeline.Dispatch.{new_recordings_waiting, same_work, still_pending, starts}

same_work-eq : (a b : Scope) → same_work a b ≡ true → a ≡ b
same_work-eq outline_scope b e = ground arith
same_work-eq derived_scope b e = ground arith
same_work-eq mind_map_scope b e = ground arith
same_work-eq full_scope b e = ground arith

still_pending-eq :
    (current : Option Scope) (scope : Scope)
    → still_pending current scope ≡ true
    → current ≡ some scope
still_pending-eq none scope e = cc
still_pending-eq (some current) scope e = ap some (same_work-eq current scope e)

both_lem : (p d w : Bool) → p && (d || not w) ≡ true → (p ≡ true) × ((d ≡ true) ⊎ (w ≡ false))
both_lem p d w h = ground arith

-- A new recording that the daemon would select is seen to wait.
new_recordings_waiting_lem :
    (settings : QueueSettings) (now : ℕ) (l : Library) (id : String) (row : PlaudFile)
    (scope : Scope)
    → find file_id id l ≡ some row
    → is_downloaded row.status ≡ true
    → row.is_trash ≡ false
    → pending_scope settings now row ≡ some scope
    → new_recordings_waiting settings now l ≡ true
unfolding new_recordings_waiting pending_scope
new_recordings_waiting_lem settings now l id row scope e new kept due =
    find-hit_any file_id id _ l row e (rw (new, kept, due) refl)

-- Some new recording waits: one that is not in the trash and that the daemon would select.
abbrev pub IsWaiting : QueueSettings → ℕ → Library → Type 0
IsWaiting settings now l =
    (id : String) × (row : PlaudFile) × (scope : Scope) × (find file_id id l ≡ some row)
    × (is_downloaded row.status ≡ true)
    × (row.is_trash ≡ false)
    × (pending_scope settings now row ≡ some scope)

-- When its turn comes, a job starts only where its recording is there and still wants just that
-- work, and is a new recording itself unless no new recording waits that is not in the trash and
-- that the daemon would select.
pub starts_lem :
    (settings : QueueSettings) (now : ℕ) (l : Library) (id : String) (scope : Scope)
    → starts settings now l id scope ≡ true
    → (row : PlaudFile) × (find file_id id l ≡ some row)
      × (pending_scope settings now row ≡ some scope)
      × ((is_downloaded row.status ≡ true) ⊎ ¬ IsWaiting settings now l)
unfolding starts
starts_lem settings now l id scope begun = elim (Option-cases (find file_id id l)) [
  | inl missing ↦ let clash = rw (missing, starts) at begun in cc
  | inr (row, found) ↦
      let (still, first) = both_lem _ _ _ (rw (found, starts) at begun) in
      (
        row,
        found,
        still_pending-eq _ scope still,
        elim first [
          | inl new ↦ inl new
          | inr idle ↦ inr (λ (other, waiting, due, e, new, kept, wanted).
              let busy =
                new_recordings_waiting_lem settings now l other waiting due e new kept wanted in
              cc)
        ],
      )
]
