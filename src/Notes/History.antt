-- ===== src/Notes/History.antt =====
-- The version history of generated notes: note_history.py, and the displacement of a note by a new
-- one in `_persist_summary` of worker/pipeline.py. A note's lock is the exclusive transaction, so
-- the locked row is the row; a refused lock rolls the whole transaction back.
use localplaud.Prelude.{
  ℕ, ◌+◌, String, Bool, true, false, not, ◌&&◌, Option, none, some, List, [], ◌∷◌, map, ltb, ◌==◌,
  str_eq, any, keep, if◌then◌else◌,
}
use localplaud.Pipeline.Recording.{pending}
use localplaud.Notes.Contents.{
  TemplateSnapshot, Summary, SummaryRevision, UserNote, MapRun, Notes, Content, content_fingerprint,
  revision_fingerprint, same_content, Fields, or_empty,
}

abbrev pub in_chain : String → String → SummaryRevision → Bool
in_chain file_id template r = str_eq r.file_id file_id && str_eq r.template template

abbrev pub later_revision : SummaryRevision → Option SummaryRevision → SummaryRevision
later_revision r none = r
later_revision r (some b) = if ltb r.revision b.revision then b else r

-- order_by(SummaryRevision.revision.desc()).limit(1)
unfoldable pub latest : String → String → List SummaryRevision → Option SummaryRevision
latest file_id template [] = none
latest file_id template (r ∷ rest) =
    let best = latest file_id template rest in
    if in_chain file_id template r then some (later_revision r best) else best

abbrev pub number : Option SummaryRevision → ℕ
number none = 0
number (some r) = r.revision

-- `latest_revision_number`
unfoldable pub latest_revision_number : String → String → List SummaryRevision → ℕ
latest_revision_number file_id template rs = number (latest file_id template rs)

abbrev pub is_local : Fields → Bool
is_local fields = str_eq fields.source "local"

abbrev pub is_unchanged : Option Content → Content → Bool
is_unchanged none c = false
is_unchanged (some new) c = same_content c new

abbrev pub is_archived : Option SummaryRevision → Content → Bool
is_archived none c = false
is_archived (some r) c = same_content (revision_fingerprint r) c

abbrev pub archived : ℕ → String → ℕ → Summary → SummaryRevision
archived now reason revision row = record {
  file_id = row.file_id;
  template = row.template;
  revision = revision;
  fields = row.fields;
  profile = or_empty row.profile;
  created_at = some row.created_at;
  archived_at = some now;
  archive_reason = some reason;
}

-- `archive_summary`: the version that it writes, where it writes one.
unfoldable pub archive_summary :
    ℕ → String → Option Content → Summary → Notes → Option SummaryRevision × Notes
archive_summary now reason replacement row n =
    let before = latest row.file_id row.template n.revisions in
    let version = archived now reason (number before + 1) row in
    if not (is_local row.fields)
    then (none, n)
    else if is_unchanged replacement (content_fingerprint row)
    then (none, n)
    else if is_archived before (content_fingerprint row)
    then (none, n)
    else (some version, record n { revisions = version ∷ n.revisions })

-- session.delete(row)
abbrev pub remove : ℕ → List Summary → List Summary
remove id l = keep (λ s. not (s.id == id)) l

abbrev pub unlinked : ℕ → UserNote → UserNote
unlinked id note = elim note.source_summary_id [
  | none ↦ note
  | some source ↦ if source == id then record note { source_summary_id = none } else note
]

-- UPDATE user_notes SET source_summary_id = NULL, and the deletion of the row.
unfoldable pub drop_note : Summary → Notes → Notes
drop_note row n = record n {
  summaries = remove row.id n.summaries;
  user_notes = map (unlinked row.id) n.user_notes;
}

-- `delete_generated_note`
unfoldable pub delete_generated_note : ℕ → Summary → Notes → Notes
delete_generated_note now row n = drop_note row (archive_summary now "deleted" none row n).1

abbrev pub has_key : String → List String → Bool
has_key key keys = any (λ k. str_eq k key) keys

-- `legacy_note_templates`, for the template of a live local note.
abbrev pub is_legacy : List String → List String → String → Bool
is_legacy catalog active template =
    not (has_key template catalog)
    && not (has_key template active)
    && not (str_eq template "mind_map")
    && not (str_eq template "outline")

abbrev pub is_live : String → Summary → Bool
is_live file_id s = str_eq s.file_id file_id && is_local s.fields

abbrev pub allowed : Option (List String) → String → Bool
allowed none template = true
allowed (some only) template = has_key template only

-- The archived versions that go with a note that is retired without its history.
abbrev pub discarded : String → String → SummaryRevision → Bool
discarded file_id template r = in_chain file_id template r && is_local r.fields

unfoldable pub retire_note : ℕ → Bool → String → Summary → Notes → Notes
retire_note now keep_history file_id row n =
    let kept = (archive_summary now "retired-template" none row n).1 in
    let bare = record n {
      revisions = keep (λ r. not (discarded file_id row.template r)) n.revisions;
    } in
    drop_note row (if keep_history then kept else bare)

unfoldable pub retire_all : ℕ → Bool → String → List Summary → Notes → Notes
retire_all now keep_history file_id [] n = n
retire_all now keep_history file_id (row ∷ rows) n =
    retire_all now keep_history file_id rows (retire_note now keep_history file_id row n)

abbrev pub is_current : List String → String → Summary → Bool
is_current catalog file_id s = is_live file_id s && has_key s.template catalog

abbrev pub is_retired : List String → List String → Option (List String) → String → Summary → Bool
is_retired catalog active only file_id s =
    is_live file_id s && is_legacy catalog active s.template && allowed only s.template

-- `retire_legacy_notes`: the ids of the retired notes.
unfoldable pub retire_legacy_notes :
    ℕ → List String → List String → String → Bool → Option (List String) → Notes → List ℕ × Notes
retire_legacy_notes now catalog active file_id keep_history only n =
    let rows = keep (is_retired catalog active only file_id) n.summaries in
    if any (is_current catalog file_id) n.summaries
    then (map (λ (s : Summary). s.id) rows, retire_all now keep_history file_id rows n)
    else ([], n)

-- The row's UPDATE.
abbrev pub replace : Summary → List Summary → List Summary
replace new l = map (λ s. if s.id == new.id then new else s) l

abbrev pub is_map_of : String → Summary → Bool
is_map_of file_id s = is_live file_id s && str_eq s.template "mind_map"

abbrev pub source_key : Option TemplateSnapshot → Option String
source_key none = none
source_key (some t) = t.source_template_key

abbrev pub source_note : Option TemplateSnapshot → Option String
source_note none = none
source_note (some t) = t.source_note

-- Whether a recorded text is there and is another one.
abbrev pub differs : Option String → String → Bool
differs none text = false
differs (some recorded) text = not (str_eq recorded text)

abbrev pub agrees : Option String → String → Bool
agrees none text = false
agrees (some recorded) text = str_eq recorded text

abbrev pub marked : String → MapRun → MapRun
marked generation run = record run {
  status = pending;
  error = none;
  completed_at = none;
  stale = true;
  stale_generation = some generation;
  reason = some "note version restored";
}

abbrev pub new_run : String → MapRun
new_run file_id = record {
  run_file_id = file_id;
  status = pending;
  attempts = 0;
  error = none;
  completed_at = none;
  stale = false;
  stale_generation = none;
  reason = none;
}

abbrev pub mark_runs : String → String → List MapRun → List MapRun
mark_runs file_id generation [] = marked generation (new_run file_id) ∷ []
mark_runs file_id generation (run ∷ runs) =
    let rest = mark_runs file_id generation runs in
    if str_eq run.run_file_id file_id then marked generation run ∷ runs else run ∷ rest
