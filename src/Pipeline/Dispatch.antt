-- ===== src/Pipeline/Dispatch.antt =====
-- The daemon's batch: worker/pipeline.py, `process_pending` up to the start of a job, with
-- `new_recordings_waiting`. Times of the sort key are in microseconds, so they compare as the
-- source's seconds do.
use Prim.Native.Nat.{Ordering}
use Prim.Native.String.{compare as text_compare}
use localplaud.Prelude.{
  ℕ, ◌-◌, ◌*◌, String, Bool, true, false, not, ◌&&◌, ◌||◌, Option, none, some, List, [], ◌∷◌, ltb,
  leb, ◌==◌, any, keep, find?, take, if◌then◌else◌, find,
}
use localplaud.Pipeline.Recording.{
  StageStatus, pending, running, failed, StageRun, PlaudFile, Library, file_id,
}
use localplaud.Pipeline.Claims.{is_mind_map}
use localplaud.Pipeline.Scope.{
  QueueSettings, Scope, outline_scope, derived_scope, mind_map_scope, full_scope, is_outline,
  is_downloaded, is_queueable, pending_scope,
}

pub record Item : Type 0 where
  pub row : PlaudFile
  pub scope : Scope

abbrev is_retried_outline : StageStatus → Bool
is_retried_outline pending = true
is_retried_outline failed = true
is_retried_outline running = true
is_retried_outline _ = false

-- The WHERE clause of the candidate query.
abbrev pub is_candidate : PlaudFile → Bool
is_candidate row =
    is_queueable row.status
    || any (λ run. is_outline run.stage && is_retried_outline run.status) row.stage_runs

unfoldable pub items : QueueSettings → ℕ → Library → List Item
items settings now [] = []
items settings now (row ∷ l) =
    let rest = items settings now l in
    if is_candidate row
    then elim (pending_scope settings now row) [
      | none ↦ rest
      | some scope ↦ record { row = row; scope = scope } ∷ rest
    ]
    else rest

abbrev or_else : Option ℕ → Option ℕ → Option ℕ
or_else none b = b
or_else (some a) b = some a

-- `timestamp`
abbrev timestamp : Option ℕ → ℕ
timestamp none = 0
timestamp (some t) = t

abbrev of_milliseconds : Option ℕ → Option ℕ
of_milliseconds none = none
of_milliseconds (some ms) = some (ms * 1000)

-- The deadline of the mind map's own backoff, or its last failure.
abbrev mind_map_event : List StageRun → ℕ
mind_map_event runs = elim (find? (λ run. is_mind_map run.stage) runs) [
  | none ↦ 0
  | some run ↦
      timestamp (or_else run.detail.mind_map_next_retry_at run.detail.mind_map_last_failure_at)
]

abbrev file_event : PlaudFile → ℕ
file_event row =
    timestamp
      (or_else row.pipeline_next_retry_at (or_else row.pipeline_last_failure_at row.created_at))

abbrev retry_event : Item → ℕ
retry_event item = elim item.scope [
  | mind_map_scope ↦ mind_map_event item.row.stage_runs
  | _ ↦ file_event item.row
]

abbrev pub is_fresh : Item → Bool
is_fresh item = is_downloaded item.row.status

pub record Key : Type 0 where
  pub fresh_tiebreak : ℕ
  pub recording_time : ℕ
  pub event_time : ℕ
  pub key_id : String

-- `queue_key`
unfoldable pub queue_key : Item → Key
queue_key item = record {
  fresh_tiebreak = if is_fresh item then 1 else 0;
  recording_time = timestamp (of_milliseconds item.row.start_time_ms);
  event_time =
      if is_fresh item
      then timestamp (or_else (of_milliseconds item.row.start_time_ms) item.row.created_at)
      else retry_event item;
  key_id = item.row.id;
}

abbrev text_above : String → String → Bool
text_above a b = elim (text_compare a b) [ Ordering.gt ↦ true | _ ↦ false ]

-- Tuples compare component by component.
unfoldable pub key_above : Key → Key → Bool
key_above a b =
    ltb b.fresh_tiebreak a.fresh_tiebreak
    || (a.fresh_tiebreak == b.fresh_tiebreak
        && (ltb b.recording_time a.recording_time
            || (a.recording_time == b.recording_time
                && (ltb b.event_time a.event_time
                    || (a.event_time == b.event_time && text_above a.key_id b.key_id)))))

unfoldable pub insert_item : Item → List Item → List Item
insert_item x [] = x ∷ []
insert_item x (y ∷ rest) =
    let later = insert_item x rest in
    if key_above (queue_key y) (queue_key x) then y ∷ later else x ∷ y ∷ rest

-- rows.sort(key=queue_key, reverse=True)
unfoldable pub sort_items : List Item → List Item
sort_items [] = []
sort_items (x ∷ rest) = insert_item x (sort_items rest)

abbrev pub is_full_scope : Scope → Bool
is_full_scope full_scope = true
is_full_scope _ = false

abbrev pub is_narrow_scope : Scope → Bool
is_narrow_scope derived_scope = true
is_narrow_scope mind_map_scope = true
is_narrow_scope _ = false

abbrev pub is_full_retry : Item → Bool
is_full_retry item = is_full_scope item.scope && not (is_fresh item)

abbrev pub is_narrow : Item → Bool
is_narrow item = is_narrow_scope item.scope

-- The batch with one slot for the first full retry, where that is due beside narrow work.
unfoldable pub reserve_slot : ℕ → List Item → List Item
reserve_slot limit rows =
    if leb 2 limit && not (any is_fresh rows) && any is_narrow rows
    then elim (find? is_full_retry rows) [
      | none ↦ take limit rows
      | some first ↦ first ∷ take (limit - 1) (keep (λ item. not (is_full_retry item)) rows)
    ]
    else take limit rows

-- `selected`
unfoldable pub select_batch : Option ℕ → List Item → List Item
select_batch none rows = rows
select_batch (some limit) rows = reserve_slot limit rows

-- The jobs of `process_pending`.
unfoldable pub batch : QueueSettings → ℕ → Option ℕ → Library → List Item
batch settings now limit l = select_batch limit (sort_items (items settings now l))

-- `new_recordings_waiting`
unfoldable pub new_recordings_waiting : QueueSettings → ℕ → Library → Bool
new_recordings_waiting settings now l =
    any
      (λ row.
        is_downloaded row.status
        && not row.is_trash
        && elim (pending_scope settings now row) [ none ↦ false | some scope ↦ true ])
      l

abbrev pub same_work : Scope → Scope → Bool
same_work outline_scope outline_scope = true
same_work derived_scope derived_scope = true
same_work mind_map_scope mind_map_scope = true
same_work full_scope full_scope = true
same_work _ _ = false

abbrev pub still_pending : Option Scope → Scope → Bool
still_pending none scope = false
still_pending (some current) scope = same_work current scope

-- The check of `_execute_pending`, once the job's turn comes: the work of the row that starts.
unfoldable pub starts : QueueSettings → ℕ → Library → String → Scope → Bool
starts settings now l id scope = elim (find file_id id l) [
  | none ↦ false
  | some row ↦
      still_pending (pending_scope settings now row) scope
      && (is_downloaded row.status || not (new_recordings_waiting settings now l))
]
