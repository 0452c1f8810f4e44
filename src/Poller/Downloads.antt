-- ===== src/Poller/Downloads.antt =====
-- The downloads of poller/poll.py: `_download_one` with its three transactions,
-- `_download_retry_due` and `reset_download_errors`. The client's fetch, with the move of the file
-- into place, is an argument; the ingestion of cloud artifacts after a download is left out.
-- Each update of a row sets `updated_at`, as the column's `onupdate` does.
-- A caller that asks for the exception (`raise_errors`) sees it in place of the result false.
use localplaud.Prelude.{
  round_div, ℕ, ◌+◌, ◌-◌, ◌*◌, min, String, Bool, true, false, ◌&&◌, Option, none, some, map, leb,
  str_eq, if◌then◌else◌, find, put, sum,
}
use localplaud.Pipeline.Recording.{
  FileStatus, discovered, downloading, downloaded, partial, done, error, PlaudFile, Library,
  file_id,
}
use localplaud.Pipeline.Claims.{leased_after}
use localplaud.Pipeline.Recovery.{is_downloading, is_null, one_if}

-- `_DOWNLOAD_LEASE`, timedelta(hours=1)
abbrev pub download_lease : ℕ
download_lease = 3600 * 1000000

-- AUDIO_RESTORABLE_STATUSES
abbrev pub is_restorable : FileStatus → Bool
is_restorable done = true
is_restorable partial = true
is_restorable error = true
is_restorable _ = false

abbrev pub is_discovered : FileStatus → Bool
is_discovered discovered = true
is_discovered _ = false

abbrev pub is_error : FileStatus → Bool
is_error error = true
is_error _ = false

-- How a download is asked for: only to fill the cache again, or already marked by the caller.
pub record Mode : Type 0 where
  pub cache_only : Bool
  pub claim_acquired : Bool

-- The WHERE clause of the claim, beside the id.
unfoldable pub may_download : Mode → PlaudFile → Bool
may_download mode row =
    is_null row.download_token
    && (if mode.cache_only
        then str_eq row.origin "plaud"
          && is_null row.audio_path
          && is_restorable row.status
          && is_null row.processing_token
        else if mode.claim_acquired
        then is_downloading row.status
        else is_discovered row.status)

abbrev pub claimed_download : ℕ → Mode → String → PlaudFile → PlaudFile
claimed_download now mode token row =
    if mode.cache_only
    then record row {
      download_token = some token;
      download_lease_until = some (now + download_lease);
      updated_at = some now;
    }
    else record row {
      status = downloading;
      error = none;
      download_token = some token;
      download_lease_until = some (now + download_lease);
      updated_at = some now;
    }

-- The claiming UPDATE: whether it changed a row.
unfoldable pub claim_download : ℕ → Mode → String → String → Library → Bool × Library
claim_download now mode token id l = elim (find file_id id l) [
  | none ↦ (false, l)
  | some row ↦
      if may_download mode row
      then (true, put file_id (claimed_download now mode token row) l)
      else (false, l)
]

-- download_token == token
abbrev pub has_download_token : String → PlaudFile → Bool
has_download_token token row = elim row.download_token [ none ↦ false | some t ↦ str_eq t token ]

abbrev pub published : ℕ → Mode → String → PlaudFile → PlaudFile
published now mode path row =
    if mode.cache_only
    then record row {
      audio_path = some path;
      downloaded_at = some now;
      download_token = none;
      download_lease_until = none;
      updated_at = some now;
    }
    else record row {
      audio_path = some path;
      status = downloaded;
      downloaded_at = some now;
      error = none;
      download_token = none;
      download_lease_until = none;
      updated_at = some now;
    }

-- The transaction that publishes the file: false where the claim is lost.
unfoldable pub publish_download : ℕ → Mode → String → String → String → Library → Bool × Library
publish_download now mode token path id l = elim (find file_id id l) [
  | none ↦ (false, l)
  | some row ↦
      if has_download_token token row && leased_after now row.download_lease_until
      then (true, put file_id (published now mode path row) l)
      else (false, l)
]

abbrev pub failed_download : ℕ → Mode → String → PlaudFile → PlaudFile
failed_download now mode message row =
    if mode.cache_only
    then record row { download_token = none; download_lease_until = none; updated_at = some now }
    else record row {
      status = error;
      error = some message;
      download_token = none;
      download_lease_until = none;
      updated_at = some now;
    }

-- The UPDATE of the `except` clause.
unfoldable pub fail_download : ℕ → Mode → String → String → String → Library → Library
fail_download now mode token message id l = elim (find file_id id l) [
  | none ↦ l
  | some row ↦
      if has_download_token token row && leased_after now row.download_lease_until
      then put file_id (failed_download now mode message row) l
      else l
]

-- What the client's fetch ends with, and what other sessions commit until then.
pub data Fetched : Type 0 where
  fetched broke : String → Library → Fetched

unfoldable pub after_fetch : ℕ → Mode → String → String → Fetched → Bool × Library
after_fetch ends mode token id (fetched path l) = publish_download ends mode token path id l
after_fetch ends mode token id (broke message l) =
    (false, fail_download ends mode token message id l)

-- `_download_one`: `ends` is the time when the fetch is over.
unfoldable pub download_one :
    ℕ → ℕ → Mode → String → String → (Library → Fetched) → Library → Bool × Library
download_one now ends mode token id fetch l =
    let (claimed, after) = claim_download now mode token id l in
    if claimed then after_fetch ends mode token id (fetch after) else (false, l)

-- `_DOWNLOAD_RETRY_MAX_DELAY`, timedelta(hours=6)
abbrev pub download_retry_max_delay : ℕ
download_retry_max_delay = 6 * 3600 * 1000000

-- `_download_retry_due`: the wait is a quarter of the time since the discovery, six hours at most.
unfoldable pub download_retry_due : Option ℕ → Option ℕ → ℕ → Bool
download_retry_due none discovered_at now = true
download_retry_due (some failed_at) none now = true
download_retry_due (some failed_at) (some discovered_at) now =
    leb failed_at now
    && leb (min download_retry_max_delay (round_div (failed_at - discovered_at) 4))
        (now - failed_at)

abbrev pub is_retried_download : ℕ → PlaudFile → Bool
is_retried_download now row =
    is_error row.status
    && is_null row.audio_path
    && download_retry_due row.updated_at row.created_at now

abbrev rediscovered : ℕ → PlaudFile → PlaudFile
rediscovered now row = record row {
  status = discovered;
  error = none;
  download_token = none;
  download_lease_until = none;
  updated_at = some now;
}

-- `reset_download_errors`
unfoldable pub reset_download_errors : ℕ → Library → ℕ × Library
reset_download_errors now l = (
  sum (λ row. one_if (is_retried_download now row)) l,
  map (λ row. if is_retried_download now row then rediscovered now row else row) l,
)
