-- ===== src/Notes/Examples.antt =====
-- Notes of a recording: generated twice, restored, and under a template that is no longer offered.
use localplaud.Prelude.{
  ℕ, String, ◌≡◌, ◌≢◌, ◌⊎◌, refl, sym, ap, ◌∙◌, true, false, inl, inr, none, some, List, [], ◌∷◌,
  arith, In, map,
}
use native.Mathlib.Decide.{ℕ_discrete}
use localplaud.Notes.Contents.{
  Fields, Summary, SummaryRevision, Notes, Content, content_fingerprint, revision_fingerprint,
  same_content, UserNote,
}
use localplaud.Notes.History.{
  retire_all, retire_note, drop_note, archive_summary, latest, is_retired, is_current,
  retire_legacy_notes,
}
use localplaud.Notes.Restore.{
  persist_summary, restore_summary_version, insert_note, mark_dependent_mind_map_stale, displace,
}
use localplaud.Notes.Kept.{Keeps, IsKeyed}
use localplaud.Notes.Sound.{IsSound}
use localplaud.Notes.Timeline.{here, next, generate, Reach-Keeps}
use localplaud.Notes.Undo.{restore_undo, retire_legacy_notes-leaves}

abbrev wording : String → Fields
wording text = record {
  title = some "Weekly";
  content_md = text;
  llm_provider = some "ollama";
  model = none;
  source = "local";
  template_version = some 1;
  template_snapshot = none;
  input_transcript_id = some 4;
  input_transcript_revision = none;
  input_transcript_source = some "local";
}

abbrev note : ℕ → String → String → Summary
note id template text = record {
  id = id;
  file_id = "r1";
  template = template;
  fields = wording text;
  profile = none;
  created_at = 100;
  restored_from_revision = none;
}

abbrev first : Summary
first = note 1 "meeting" "We met."

abbrev second : Summary
second = note 3 "meeting" "We met on Monday."

abbrev legacy : Summary
legacy = note 2 "default" "Default note"

abbrev copy : UserNote
copy = record { note_id = 1; text = "mine"; source_summary_id = some 2 }

abbrev start : Notes
start = record {
  summaries = first ∷ legacy ∷ [];
  revisions = [];
  user_notes = copy ∷ [];
  map_runs = [];
}

abbrev digest : Content → String
digest c = c.fields.content_md

abbrev catalog : List String
catalog = "meeting" ∷ []

abbrev regenerated : Notes
regenerated = persist_summary digest 200 "g1" catalog [] second start

-- The first note and the legacy one are archived, and the copy's link to the latter is cleared.
regenerated_run :
    (map (λ (r : SummaryRevision). r.fields.content_md) regenerated.revisions
      ≡ "Default note" ∷ "We met." ∷ [])
    × (map (λ (s : Summary). s.id) regenerated.summaries ≡ 3 ∷ [])
    × (map (λ (c : UserNote). c.source_summary_id) regenerated.user_notes ≡ none ∷ [])
unfolding persist_summary insert_note displace mark_dependent_mind_map_stale retire_legacy_notes
    archive_summary latest same_content ℕ_discrete content_fingerprint retire_all retire_note
    drop_note
regenerated_run = (refl, refl, refl)

start-IsSound : IsSound start
start-IsSound = record { keyed = keyed; numbered = tt }
  where
    keyed : IsKeyed start.summaries
    keyed row (inl e) s (inl f) k = sym f ∙ e
    keyed row (inl e) s (inr (inl f)) k =
        absurd (omega (arith, ap (λ (t : Summary). t.id) e, ap (λ (t : Summary). t.id) f))
    keyed row (inr (inl e)) s (inl f) k =
        absurd (omega (arith, ap (λ (t : Summary). t.id) e, ap (λ (t : Summary). t.id) f))
    keyed row (inr (inl e)) s (inr (inl f)) k = sym f ∙ e
    keyed row (inr (inr e)) s f k = absurd e
    keyed row (inl e) s (inr (inr f)) k = absurd f
    keyed row (inr (inl e)) s (inr (inr f)) k = absurd f

new_id : (s : Summary) → In s start.summaries → s.id ≢ second.id
new_id s (inl e) k = omega (arith, ap (λ (t : Summary). t.id) e)
new_id s (inr (inl e)) k = omega (arith, ap (λ (t : Summary). t.id) e)
new_id s (inr (inr e)) k = absurd e

Reach-Keeps_example : Keeps start regenerated × IsSound regenerated
Reach-Keeps_example =
    Reach-Keeps digest start regenerated
      (next here (generate 200 "g1" catalog [] second start new_id)) start-IsSound

abbrev archived_first : SummaryRevision
archived_first = record {
  file_id = "r1";
  template = "meeting";
  revision = 1;
  fields = wording "We met.";
  profile = "{}";
  created_at = some 100;
  archived_at = some 200;
  archive_reason = some "regenerated";
}

abbrev shown : Notes
shown = record start { summaries = second ∷ []; revisions = archived_first ∷ [] }

abbrev restored : Notes
restored = (restore_summary_version digest 300 "g2" second archived_first shown).1

restore_undo_example :
    (live : Summary) × In live restored.summaries
    × (live.id ≡ 3)
    × (content_fingerprint live ≡ revision_fingerprint archived_first)
    × ((revision_fingerprint archived_first ≡ content_fingerprint second)
        ⊎ ((old : SummaryRevision) × In old restored.revisions
            × (old.file_id ≡ "r1")
            × ((later : ℕ) (again : String)
                → let k = (restore_summary_version digest later again live old restored).1 in
                  (back : Summary) × In back k.summaries
                  × (back.id ≡ 3)
                  × (content_fingerprint back ≡ content_fingerprint second))))
unfolding revision_fingerprint
restore_undo_example = restore_undo digest 300 "g2" second archived_first shown refl (inl refl)

abbrev retired : Notes
retired = (retire_legacy_notes 400 catalog [] "r1" false none start).1

retire_legacy_notes-leaves_example :
    In legacy retired.summaries
    ⊎ ((is_retired catalog [] none "r1" legacy ≡ true)
        × ((c : Summary) × In c retired.summaries × (is_current catalog "r1" c ≡ true)))
retire_legacy_notes-leaves_example =
    retire_legacy_notes-leaves 400 catalog [] "r1" false none start legacy start-IsSound.keyed
      (inr (inl refl))
