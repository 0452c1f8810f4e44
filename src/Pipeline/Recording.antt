-- ===== src/Pipeline/Recording.antt =====
-- The recordings and their stage runs: db/models.py (FileStatus, StageName, StageStatus, StageRun
-- and the columns of PlaudFile that the pipeline reads). A time is in microseconds; a stage run's
-- `detail` is kept to the keys that the queue reads.
use localplaud.Prelude.{ℕ, String, Bool, Option, List}

pub data FileStatus : Type 0 where
  discovered metadata_only downloading downloaded processing partial done error : FileStatus

pub data StageName : Type 0 where
  convert transcribe align diarize correct summarize mind_map outline index : StageName

pub data StageStatus : Type 0 where
  pending running completed degraded failed skipped : StageStatus

pub record Detail : Type 0 where
  pub stale : Bool
  pub derived_only : Bool
  pub mind_map_only : Bool
  pub mind_map_retry_count : ℕ
  pub mind_map_next_retry_at : Option ℕ
  pub mind_map_last_failure_at : Option ℕ
  pub outline_only : Bool
  pub outline_retry_count : ℕ
  pub outline_next_retry_at : Option ℕ
  pub reindex_only : Bool

pub record StageRun : Type 0 where
  pub stage : StageName
  pub status : StageStatus
  pub attempts : ℕ
  pub detail : Detail
  pub error : Option String
  pub completed_at : Option ℕ

-- The columns of StageAttempt that the recovery reads and writes.
pub record AttemptRow : Type 0 where
  pub attempt_stage : StageName
  pub attempt_status : StageStatus
  pub attempt_error : Option String
  pub attempt_completed_at : Option ℕ

-- `updated_at` is read of rows in a download and of failed downloads only: the updates of a download
-- and of its recovery set it here, the other ones leave it.
pub record PlaudFile : Type 0 where
  pub id : String
  pub status : FileStatus
  pub error : Option String
  pub processing_token : Option String
  pub processing_lease_until : Option ℕ
  pub audio_path : Option String
  pub is_trash : Bool
  pub process_overlong : Bool
  pub duration_ms : Option ℕ
  pub start_time_ms : Option ℕ
  pub has_local_transcript : Bool
  pub pipeline_retry_count : ℕ
  pub pipeline_next_retry_at : Option ℕ
  pub pipeline_last_failure_at : Option ℕ
  pub download_token : Option String
  pub download_lease_until : Option ℕ
  pub origin : String
  pub downloaded_at : Option ℕ
  pub created_at : Option ℕ
  pub updated_at : Option ℕ
  pub stage_runs : List StageRun
  pub attempt_rows : List AttemptRow

abbrev pub Library : Type 0
Library = List PlaudFile

abbrev pub file_id : PlaudFile → String
file_id row = row.id
