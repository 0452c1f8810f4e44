-- ===== src/Notes/Restore.antt =====
-- The operations that make a version live: `restore_summary_version` of note_history.py, and the
-- displacement in `_persist_summary` of worker/pipeline.py. `digest` is `fingerprint_digest`, the
-- SHA-256 of a fingerprint.
use localplaud.Prelude.{
  ℕ, String, Bool, true, false, ◌&&◌, ◌||◌, Option, none, some, List, [], ◌∷◌, ◌++◌, str_eq, keep,
  find?, if◌then◌else◌,
}
use localplaud.Notes.Contents.{
  Summary, SummaryRevision, Notes, Content, content_fingerprint, revision_fingerprint,
}
use localplaud.Notes.History.{
  archive_summary, is_live, is_map_of, source_key, source_note, differs, agrees, mark_runs, replace,
  remove, has_key, retire_legacy_notes,
}

abbrev pub first_time : Option ℕ → Option ℕ → ℕ → ℕ
first_time (some t) archived_at now = t
first_time none (some t) now = t
first_time none none now = now

abbrev pub restored_row : SummaryRevision → Summary → Summary
restored_row target row = record row {
  fields = target.fields;
  profile = some target.profile;
  created_at = first_time target.created_at target.archived_at row.created_at;
  restored_from_revision = some target.revision;
}

abbrev pub displace_note : ℕ → Content → Summary → Notes → Notes
displace_note now new row n =
    let kept = (archive_summary now "regenerated" (some new) row n).1 in
    record kept { summaries = remove row.id kept.summaries }

-- The loop over the displaced notes.
unfoldable pub displace : ℕ → Content → List Summary → Notes → Notes
displace now new [] n = n
displace now new (row ∷ rows) n = displace now new rows (displace_note now new row n)

abbrev pub is_displaced : Summary → Summary → Bool
is_displaced new s = is_live new.file_id s && str_eq s.template new.template

module _ (digest : Content → String) where
  abbrev pub is_built_otherwise : Summary → Summary → Bool
  is_built_otherwise live_map restored =
      differs (source_key live_map.fields.template_snapshot) restored.template
      || agrees (source_note live_map.fields.template_snapshot)
          (digest (content_fingerprint restored))

  -- `_mark_dependent_mind_map_stale`
  unfoldable pub mark_dependent_mind_map_stale : String → Summary → Notes → Bool × Notes
  mark_dependent_mind_map_stale generation restored n =
      if str_eq restored.template "mind_map"
      then (false, n)
      else elim (find? (is_map_of restored.file_id) n.summaries) [
        | none ↦ (false, n)
        | some live_map ↦
            if is_built_otherwise live_map restored
            then (false, n)
            else (true, record n { map_runs = mark_runs restored.file_id generation n.map_runs })
      ]

  -- `restore_summary_version`
  unfoldable pub restore_summary_version :
      ℕ → String → Summary → SummaryRevision → Notes → Bool × Notes
  restore_summary_version now generation row target n =
      let kept = (archive_summary now "restore" (some (revision_fingerprint target)) row n).1 in
      let live = restored_row target row in
      mark_dependent_mind_map_stale generation live
        (record kept { summaries = replace live kept.summaries })

  -- The new note in the place of the displaced one.
  unfoldable pub insert_note : ℕ → String → Summary → Notes → Notes
  insert_note now generation new n =
      let cleared =
        displace now (content_fingerprint new) (keep (is_displaced new) n.summaries) n in
      let added = record cleared { summaries = cleared.summaries ++ new ∷ [] } in
      (mark_dependent_mind_map_stale generation new added).1

  -- `_persist_summary`, from the displacement on.
  unfoldable pub persist_summary : ℕ → String → List String → List String → Summary → Notes → Notes
  persist_summary now generation catalog active new n =
      let fresh = insert_note now generation new n in
      if has_key new.template catalog
      then (retire_legacy_notes now catalog active new.file_id true none fresh).1
      else fresh
