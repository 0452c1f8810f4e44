-- ===== src/Speakers/Grouping.antt =====
-- `group_speaker_segments` of worker/diarize.py. A segment comes with its source text, if it has one.
use localplaud.Prelude.{
  ℕ, suc, ◌+◌, ◌-◌, String, Bool, true, false, ◌&&◌, ◌||◌, Option, none, some, List, [], ◌∷◌, ◌++◌,
  ltb, leb, ◌==◌, all, length, max, map, if◌then◌else◌,
}
use localplaud.Speakers.Text.{Text, join_text, reverse}
use localplaud.Speakers.Turns.{Segment, is_named, same_speaker}
use localplaud.Speakers.Runs.{SpeakerRun, speaker_runs}

pub record Limits : Type 0 where
  pub max_gap : ℕ
  pub max_chars : ℕ
  pub max_duration : ℕ

-- The groups so far, the last one first, and the counts of the report.
pub record Grouping : Type 0 where
  pub grouped : List SpeakerRun
  pub merged_boundaries : ℕ
  pub limit_boundaries : ℕ

-- The runs of all segments, with the counts of splits and of segments that could not be split.
pub record Split : Type 0 where
  pub runs : List SpeakerRun
  pub split_boundaries : ℕ
  pub unsafe_mixed_segments : ℕ

pub record Report : Type 0 where
  pub segments : List Segment
  pub has_speakers : Bool
  pub input_segments : ℕ
  pub speaker_runs : ℕ
  pub output_segments : ℕ
  pub split_boundaries : ℕ
  pub merged_boundaries : ℕ
  pub limit_boundaries : ℕ
  pub unsafe_mixed_segments : ℕ

unfoldable pub is_same_run : ℕ → SpeakerRun → SpeakerRun → Bool
is_same_run max_gap previous run =
    previous.mergeable
    && (run.mergeable
        && (is_some previous.segment.speaker
            && (same_speaker previous.segment.speaker run.segment.speaker
                && (leb previous.segment.start run.segment.start
                    && leb run.segment.start (previous.segment.end + max_gap)))))
  where
    is_some : Option String → Bool
    is_some none = false
    is_some (some s) = true

unfoldable pub is_within : Limits → Segment → Bool
is_within limits segment =
    leb (length segment.text) limits.max_chars
    && leb segment.end (limits.max_duration + segment.start)

abbrev pub ungrouped : Grouping
ungrouped = record { grouped = []; merged_boundaries = 0; limit_boundaries = 0 }

abbrev pub segments_of : List SpeakerRun → List Segment
segments_of runs = map (λ run. run.segment) runs

abbrev pub is_labelled : List Segment → Bool
is_labelled [] = false
is_labelled (s ∷ ss) = all (λ segment. is_named segment.speaker) (s ∷ ss)

abbrev pub report_of : ℕ → Split → Grouping → Report
report_of input split g =
    let output = segments_of (reverse g.grouped) in
    record {
      segments = output;
      has_speakers = is_labelled output;
      input_segments = input;
      speaker_runs = length split.runs;
      output_segments = length g.grouped;
      split_boundaries = split.split_boundaries;
      merged_boundaries = g.merged_boundaries;
      limit_boundaries = g.limit_boundaries;
      unsafe_mixed_segments = split.unsafe_mixed_segments;
    }

module _ (is_space : ℕ → Bool) where
  -- The previous segment with the next one joined to it.
  unfoldable pub joined : Segment → Segment → Segment
  joined previous segment = record previous {
    text = join_text is_space previous.text segment.text;
    end = max previous.end segment.end;
    words = previous.words ++ segment.words;
  }

  unfoldable pub group_run : Limits → SpeakerRun → Grouping → Grouping
  group_run limits run g = elim g.grouped [
    | [] ↦ record g { grouped = run ∷ [] }
    | previous ∷ older ↦
        let candidate = joined previous.segment run.segment in
        if is_same_run limits.max_gap previous run
        then if is_within limits candidate
          then record g {
            grouped = record previous { segment = candidate } ∷ older;
            merged_boundaries = suc g.merged_boundaries;
          }
          else record g {
            grouped = run ∷ previous ∷ older;
            limit_boundaries = suc g.limit_boundaries;
          }
        else record g { grouped = run ∷ previous ∷ older }
  ]

  unfoldable pub group_runs : Limits → List SpeakerRun → Grouping → Grouping
  group_runs limits [] g = g
  group_runs limits (run ∷ runs) g = group_runs limits runs (group_run limits run g)

module _ (is_space is_alnum : ℕ → Bool) (fold : ℕ → Text) (carry : Text → Text → ℕ → ℕ) where
  -- The first loop, with the pause of one second that is its default.
  unfoldable pub split_segments : List (Segment × Option Text) → Split
  split_segments [] = record { runs = []; split_boundaries = 0; unsafe_mixed_segments = 0 }
  split_segments ((segment, source) ∷ rest) =
      let (runs, unsafe) = speaker_runs is_space is_alnum fold carry 1000 source segment in
      let later = split_segments rest in
      record {
        runs = runs ++ later.runs;
        split_boundaries = (length runs - 1) + later.split_boundaries;
        unsafe_mixed_segments = (if unsafe then 1 else 0) + later.unsafe_mixed_segments;
      }

  -- Limits of nothing are refused.
  unfoldable pub group_speaker_segments : Limits → List (Segment × Option Text) → Option Report
  group_speaker_segments limits segments =
      let split = split_segments segments in
      let g = group_runs is_space limits split.runs ungrouped in
      if ltb limits.max_chars 1 || limits.max_duration == 0
      then none
      else some (report_of (length segments) split g)
