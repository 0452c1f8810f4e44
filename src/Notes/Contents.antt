-- ===== src/Notes/Contents.antt =====
-- The rows of note_history.py: Summary, SummaryRevision and UserNote of db/models.py, the run of the
-- mind map, and `content_fingerprint`. JSON values stand as their canonical text, but for the keys
-- of a template snapshot that are read.
use localplaud.Prelude.{
  ℕ, String, Bool, true, false, ◌≡◌, refl, Option, none, some, List, str_eq, eq_iff, arith,
}
use native.Mathlib.Decide.{ℕ_discrete}
use localplaud.Pipeline.Recording.{StageStatus}

pub record TemplateSnapshot : Type 0 where
  pub source_template_key : Option String
  pub source_note : Option String
  pub rest : String

-- SNAPSHOT_FIELDS: what is copied between the live row and an archived version.
pub record Fields : Type 0 where
  pub title : Option String
  pub content_md : String
  pub llm_provider : Option String
  pub model : Option String
  pub source : String
  pub template_version : Option ℕ
  pub template_snapshot : Option TemplateSnapshot
  pub input_transcript_id : Option ℕ
  pub input_transcript_revision : Option ℕ
  pub input_transcript_source : Option String

pub record Summary : Type 0 where
  pub id : ℕ
  pub file_id : String
  pub template : String
  pub fields : Fields
  pub profile : Option String
  pub created_at : ℕ
  pub restored_from_revision : Option ℕ

pub record SummaryRevision : Type 0 where
  pub file_id : String
  pub template : String
  pub revision : ℕ
  pub fields : Fields
  pub profile : String
  pub created_at : Option ℕ
  pub archived_at : Option ℕ
  pub archive_reason : Option String

pub record UserNote : Type 0 where
  pub note_id : ℕ
  pub text : String
  pub source_summary_id : Option ℕ

-- The mind map's StageRun of a recording.
pub record MapRun : Type 0 where
  pub run_file_id : String
  pub status : StageStatus
  pub attempts : ℕ
  pub error : Option String
  pub completed_at : Option ℕ
  pub stale : Bool
  pub stale_generation : Option String
  pub reason : Option String

-- The tables; summaries are in the order of their ids, archived versions the newest first.
pub record Notes : Type 0 where
  pub summaries : List Summary
  pub revisions : List SummaryRevision
  pub user_notes : List UserNote
  pub map_runs : List MapRun

-- What a fingerprint is taken of.
pub record Content : Type 0 where
  pub template : String
  pub fields : Fields
  pub profile : String

-- resolved_profile_snapshot or {}
abbrev pub or_empty : Option String → String
or_empty none = "{}"
or_empty (some p) = p

-- `content_fingerprint` of a live row, and of an archived one.
unfoldable pub content_fingerprint : Summary → Content
content_fingerprint s = record {
  template = s.template;
  fields = s.fields;
  profile = or_empty s.profile;
}

unfoldable pub revision_fingerprint : SummaryRevision → Content
revision_fingerprint r = record { template = r.template; fields = r.fields; profile = r.profile }

decide_text : (a b : String) (same : Bool) → str_eq a b ≡ same → Dec (a ≡ b)
decide_text a b true e = yes ((eq_iff a b).0 e)
decide_text a b false e = no (λ p. cc (e, (eq_iff a b).1 p))

String-discrete : Discrete String
unfolding decide_text
String-discrete a b = decide_text a b (str_eq a b) refl

Content-discrete : Discrete Content
unfolding String-discrete
Content-discrete = hlevel (String-discrete, ℕ_discrete)

unfoldable pub same_content : Content → Content → Bool
unfolding Content-discrete
same_content a b = elim (Content-discrete a b) [ yes _ ↦ true | no _ ↦ false ]

pub same_content-eq : (a b : Content) → same_content a b ≡ true → a ≡ b
unfolding same_content
same_content-eq a b h = ground arith
