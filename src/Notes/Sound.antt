-- ===== src/Notes/Sound.antt =====
-- The tables of notes stay well-formed: ids are a key, and version numbers rise.
use localplaud.Prelude.{
  ℕ, String, ◌≢◌, true, Option, none, some, List, [], ◌∷◌, any, keep, by_test, In,
}
use localplaud.Notes.Contents.{
  Summary, SummaryRevision, Notes, Content, content_fingerprint, revision_fingerprint,
}
use localplaud.Notes.History.{
  archive_summary, has_key, drop_note, delete_generated_note, retire_note, retire_all, is_current,
  retire_legacy_notes, replace,
}
use localplaud.Notes.Restore.{
  displace, displace_note, is_displaced, restored_row, restore_summary_version, insert_note,
  persist_summary,
}
use localplaud.Notes.Held.{archive_summary-summaries}
use localplaud.Notes.Kept.{IsKeyed}
use localplaud.Notes.Versions.{IsKeyed-keep, IsKeyed-replace, mark_lem}
use localplaud.Notes.Persisted.{insert_note_lem, insert_note-IsKeyed}
use localplaud.Notes.Numbered.{IsNumbered, archive_summary-IsNumbered}

pub record IsSound (n : Notes) : Type 0 where
  pub keyed : IsKeyed n.summaries
  pub numbered : IsNumbered n.revisions

pub delete_generated_note-IsSound :
    (now : ℕ) (row : Summary) (n : Notes) → IsSound n → IsSound (delete_generated_note now row n)
unfolding delete_generated_note drop_note
delete_generated_note-IsSound now row n s = record {
  keyed =
      rw (archive_summary-summaries now "deleted" none row n) (IsKeyed-keep _ n.summaries s.keyed);
  numbered = archive_summary-IsNumbered now "deleted" none row n s.numbered;
}

retire_note-IsSound :
    (now : ℕ) (file_id : String) (row : Summary) (n : Notes)
    → IsSound n
    → IsSound (retire_note now true file_id row n)
unfolding retire_note drop_note
retire_note-IsSound now file_id row n s = record {
  keyed =
      rw (archive_summary-summaries now "retired-template" none row n)
        (IsKeyed-keep _ n.summaries s.keyed);
  numbered = archive_summary-IsNumbered now "retired-template" none row n s.numbered;
}

retire_all-IsSound :
    (now : ℕ) (file_id : String) (rows : List Summary) (n : Notes)
    → IsSound n
    → IsSound (retire_all now true file_id rows n)
unfolding retire_all
retire_all-IsSound now file_id [] n s = s
retire_all-IsSound now file_id (row ∷ rows) n s =
    retire_all-IsSound now file_id rows (retire_note now true file_id row n)
      (retire_note-IsSound now file_id row n s)

pub retire_legacy_notes-IsSound :
    (now : ℕ) (catalog active : List String) (file_id : String) (only : Option (List String))
    (n : Notes)
    → IsSound n
    → IsSound (retire_legacy_notes now catalog active file_id true only n).1
unfolding retire_legacy_notes
retire_legacy_notes-IsSound now catalog active file_id only n s =
    by_test (λ (out : List ℕ × Notes). IsSound out.1) (any (is_current catalog file_id) n.summaries)
      (λ _. retire_all-IsSound now file_id _ n s) (λ _. s)

displace-IsNumbered :
    (now : ℕ) (new : Content) (rows : List Summary) (n : Notes)
    → IsNumbered n.revisions
    → IsNumbered (displace now new rows n).revisions
unfolding displace
displace-IsNumbered now new [] n h = h
displace-IsNumbered now new (row ∷ rows) n h =
    displace-IsNumbered now new rows (displace_note now new row n)
      (archive_summary-IsNumbered now "regenerated" (some new) row n h)

module _ (digest : Content → String) where
  pub restore_summary_version-IsSound :
      (now : ℕ) (generation : String) (row : Summary) (target : SummaryRevision) (n : Notes)
      → IsSound n
      → IsSound (restore_summary_version digest now generation row target n).1
  unfolding restore_summary_version
  restore_summary_version-IsSound now generation row target n s =
      let new = some (revision_fingerprint target) in
      let kept = (archive_summary now "restore" new row n).1 in
      let live = restored_row target row in
      let (summaries, revisions) =
        mark_lem digest generation live (record kept { summaries = replace live kept.summaries }) in
      record {
        keyed =
            rw (summaries, archive_summary-summaries now "restore" new row n)
              (IsKeyed-replace n.summaries live s.keyed);
        numbered = rw revisions (archive_summary-IsNumbered now "restore" new row n s.numbered);
      }

  insert_note-IsSound :
      (now : ℕ) (generation : String) (new : Summary) (n : Notes)
      → IsSound n
      → ((s : Summary) → In s n.summaries → s.id ≢ new.id)
      → IsSound (insert_note digest now generation new n)
  insert_note-IsSound now generation new n s fresh = record {
    keyed = insert_note-IsKeyed digest now generation new n s.keyed fresh;
    numbered = rw (insert_note_lem digest now generation new n).1 (
        displace-IsNumbered now (content_fingerprint new) (keep (is_displaced new) n.summaries) n
          s.numbered);
  }

  pub persist_summary-IsSound :
      (now : ℕ) (generation : String) (catalog active : List String) (new : Summary) (n : Notes)
      → IsSound n
      → ((s : Summary) → In s n.summaries → s.id ≢ new.id)
      → IsSound (persist_summary digest now generation catalog active new n)
  unfolding persist_summary
  persist_summary-IsSound now generation catalog active new n s fresh =
      let m = insert_note digest now generation new n in
      let inserted = insert_note-IsSound now generation new n s fresh in
      by_test IsSound (has_key new.template catalog)
        (λ _. retire_legacy_notes-IsSound now catalog active new.file_id none m inserted)
        (λ _. inserted)
