-- ===== src/Lib.antt =====
-- localplaud: a verification library for the durable core of the recorder's local pipeline.
--
-- The program mirrors recordings from the Plaud cloud, transcribes them, and derives notes, mind
-- maps and a search index. Its state is a database that a daemon, web requests and command-line
-- processes share: a recording is downloaded and worked on under a lease, failures are retried on
-- deadlines that are rows too, provider calls are paid from a ledger with a ceiling, new work is
-- paused by a gate while a service is drained, and heavy stages can be sent to a remote worker
-- with a job table of its own. This library models those tables and the transactions on them, the
-- gate, the bounds on uploads and on a free quota, the paragraphs that speaker turns are grouped
-- into, and the planner that cuts speech into chunks for transcription.
--
-- Files and sources, below src/localplaud/:
--   Prelude and its children: Boolean tests, lists, sums and tables (a table is a list of rows with
--     a text key; `find` is the lookup, `put` the commit of one changed row).
--   Pipeline/Recording: FileStatus, StageName, StageStatus, StageRun and the columns of PlaudFile in
--     db/models.py that the pipeline reads.
--   Pipeline/Claims, Lease, Capacity, Slots: _admit_processing, _claim_processing,
--     _assert_processing_claim_in_session, _release_processing and release_processing_claim of
--     worker/pipeline.py; Lease treats one claim, Capacity and Slots all claims as steps of a
--     shared world.
--   Pipeline/Recovery, Recovered: reset_inflight of poller/poll.py.
--   Poller/Downloads, Fence: _download_one, _download_retry_due and reset_download_errors of
--     poller/poll.py.
--   Pipeline/Retry: _retry_delay_seconds, _schedule_pipeline_retry, reset_pipeline_retry and
--     _retry_not_due of worker/pipeline.py.
--   Pipeline/Scope: _recently_transcribed and _pending_scope of worker/pipeline.py.
--   Pipeline/Reprocess, Queueing, Forcing, Batch: queue_library_reprocess of worker/pipeline.py, one
--     row against the daemon's selection, and the loop as a whole.
--   Pipeline/Dispatch, Batching, Sharing, Starting: process_pending and new_recordings_waiting of
--     worker/pipeline.py.
--   Pipeline/Fallback, Attempts: providers/fallback.py, and _run_fallback_stage and
--     _retry_resource_failures of worker/pipeline.py.
--   Pipeline/Cycle, Release: _finish_processing_cycle, _finish_mind_map_cycle,
--     abandon_mind_map_rebuild and the shell of process_file in worker/pipeline.py.
--   Pipeline/Stages, StageCosts, StageRounds: _set_stage_in_session, _begin_stage_in_session and
--     _finish_stage of worker/pipeline.py, with the ledger that a stage's attempts are part of.
--   Pipeline/Narrow, Freed, Failing: process_derived_artifacts, process_mind_map_only and
--     process_outline_only with _finish_outline_cycle.
--   Costs/Usage, Ledger, Reservations, Ceiling, Recovery: providers/usage.py; Costs/Budget, Recovered
--     and Folding treat a reservation, the recovery, and the money that the recovery moves.
--   Speech/Regions: merge_speech_regions of asr/vad.py; Merge, Windows and Plan follow its steps.
--   Remote/Job, Server, Submit: the job rows and handlers of remote/protocol.py and
--     remote/server.py; Consistency, Safety and World treat them as steps, Promises and
--     Retries what a client of the worker is told.
--   Maintenance/Gate, Drain, Finish: the admission gate of maintenance.py.
--   Speakers/Text, Turns, Clauses, Runs, Grouping: worker/diarize.py, with Word and Segment of
--     asr/base.py; Assigned treats speaker_for, Rising, Slices, Kept, Grouped and Limited the paragraphs.
--   FreePool/Guard: openai_budget.py, treated by Reported, Complete and Closed.
--   Uploads/Length, Body: UploadBodyLimitMiddleware of api/upload_limits.py; Digits, Compared, Decimals
--     and Admits treat the length check, Bounded, Answered and Rejects the body.
--   Notes/Contents, History, Restore: note_history.py, and the displacement of a note by a new one in
--     _persist_summary of worker/pipeline.py; Held, Kept, Versions, Persisted, Numbered and Sound
--     treat the operations, Timeline all of them as steps, Undo a restored version.
--   The modules named Examples, BatchExamples, StageExamples, CycleExamples and
--     TableExamples run the theorems on concrete rows.
--
-- Choices. A handler's database session is one exclusive transaction, hence one function from the
-- rows to the rows; an exception that leaves it rolls back. What other sessions commit in between
-- is an argument, or a step of a relation. The clock, new ids and tokens, the file system, a
-- stage's work and a daemon's token pattern are arguments. Times are in microseconds and delays in
-- seconds; progress is in hundredths; money is in units of 1e-8 dollars, to which the source
-- rounds; speech regions are on whole ticks, and speaker turns on milliseconds, so that their sums
-- are exact. A JSON detail is kept to the keys that are read. Digests, base64 texts and the text of
-- messages stand for themselves.
--
-- Bounds. The loops are recursions on lists, but for the windows of a long region, which run on as
-- much fuel as the region has ticks, since each window takes at least one, the retries for
-- memory, which run on the number that is left, and the digits of a number, which are at most as many.
--
-- Not modelled: the stages themselves and their adapters, the web application beyond its bound on
-- uploads, the cloud client, stores and exports, and the database locks,
-- which the exclusive transactions stand for.
pub mod Prelude
pub mod Remote
pub mod Pipeline
pub mod Poller
pub mod Costs
pub mod Speech
pub mod Maintenance
pub mod Notes
pub mod FreePool
pub mod Speakers
pub mod Uploads
