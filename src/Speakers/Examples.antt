-- ===== src/Speakers/Examples.antt =====
-- The assignment and the grouping on a short conversation.
use localplaud.Prelude.{
  ℕ, ◌+◌, ◌≡◌, refl, Bool, true, Option, none, some, String, List, [], ◌∷◌, arith, In, inl, inr,
  leb, ◌&&◌, ◌==◌,
}
use localplaud.Speakers.Text.{
  Text, same_text, starts_with, is_cjk, join_text, lstrip, rstrip, strip,
}
use localplaud.Speakers.Turns.{
  Turn, Word, Segment, speaker_for, clause_speaker, weigh, add_weight, heaviest,
}
use localplaud.Speakers.Clauses.{
  clause_turns, word_spans, spans_from, find_word, word_key, turns_from, clauses_from, cut_position,
  is_clause_end, first_opening, is_cjk_at, lexical_count, lexical_left, lexical_right,
}
use localplaud.Speakers.Runs.{speaker_runs, turns_of, build_runs, take_turn, join_run, new_run}
use localplaud.Speakers.Grouping.{
  Limits, Report, split_segments, group_speaker_segments, group_runs, group_run, is_same_run,
  is_within, joined,
}
use localplaud.Speakers.Grouped.{words_of, input_words, group_speaker_segments-words}
use localplaud.Speakers.Limited.{IsLimited, group_speaker_segments-IsLimited}
use localplaud.Speakers.Assigned.{IsBest, speaker_for-IsBest}

-- The Unicode tests on ASCII, and a correction that moves no offset.
abbrev is_blank : ℕ → Bool
is_blank c = c == 32

abbrev is_letter : ℕ → Bool
is_letter c = leb b'a' c && leb c b'z'

abbrev same_case : ℕ → Text
same_case c = c ∷ []

abbrev no_change : Text → Text → ℕ → ℕ
no_change source target offset = offset

abbrev word : Text → ℕ → ℕ → String → Word
word text start end speaker = record {
  text = text;
  start = start;
  end = end;
  speaker = some speaker;
  confidence = none;
}

-- One segment of two speakers, "ab, c", and one of the second speaker, "d".
abbrev mixed : Segment
mixed = record {
  text = b'a' ∷ b'b' ∷ b',' ∷ 32 ∷ b'c' ∷ [];
  start = 0;
  end = 900;
  speaker = none;
  words = word (b'a' ∷ b'b' ∷ []) 0 400 "s1" ∷ word (b'c' ∷ []) 500 900 "s2" ∷ [];
}

abbrev after_mixed : Segment
after_mixed = record {
  text = b'd' ∷ [];
  start = 1000;
  end = 1200;
  speaker = some "s2";
  words = word (b'd' ∷ []) 1000 1200 "s2" ∷ [];
}

abbrev talk : List (Segment × Option Text)
talk = (mixed, none) ∷ (after_mixed, none) ∷ []

abbrev usual : Limits
usual = record { max_gap = 3000; max_chars = 1200; max_duration = 120000 }

abbrev grouped_talk : Option Report
grouped_talk = group_speaker_segments is_blank is_letter same_case no_change usual talk

group_speaker_segments-words_example :
    (report : Report) × ((grouped_talk ≡ some report)
      × ((words_of report.segments ≡ input_words talk)
          × ((report.speaker_runs ≡ report.input_segments + report.split_boundaries)
              × (report.speaker_runs ≡ report.output_segments + report.merged_boundaries))))
group_speaker_segments-words_example =
    group_speaker_segments-words is_blank is_letter same_case no_change usual talk (omega arith)
      (omega arith)

-- The first turn is cut at the comma; the second is merged with the next segment.
abbrev first_paragraph : Segment
first_paragraph = record {
  text = b'a' ∷ b'b' ∷ b',' ∷ [];
  start = 0;
  end = 400;
  speaker = some "s1";
  words = word (b'a' ∷ b'b' ∷ []) 0 400 "s1" ∷ [];
}

abbrev second_paragraph : Segment
second_paragraph = record {
  text = b'c' ∷ 32 ∷ b'd' ∷ [];
  start = 500;
  end = 1200;
  speaker = some "s2";
  words = word (b'c' ∷ []) 500 900 "s2" ∷ word (b'd' ∷ []) 1000 1200 "s2" ∷ [];
}

abbrev talk_report : Report
talk_report = record {
  segments = first_paragraph ∷ second_paragraph ∷ [];
  has_speakers = true;
  input_segments = 2;
  speaker_runs = 3;
  output_segments = 2;
  split_boundaries = 1;
  merged_boundaries = 1;
  limit_boundaries = 0;
  unsafe_mixed_segments = 0;
}

grouped_talk-report : grouped_talk ≡ some talk_report
unfolding group_speaker_segments split_segments group_runs group_run is_same_run is_within joined
    speaker_runs turns_of build_runs take_turn join_run new_run clause_turns word_spans spans_from
    find_word word_key turns_from clauses_from cut_position is_clause_end first_opening is_cjk_at
    lexical_count lexical_left lexical_right clause_speaker weigh add_weight heaviest same_text
    starts_with is_cjk join_text lstrip rstrip strip
grouped_talk-report = refl

group_speaker_segments-IsLimited_example :
    IsLimited usual
      (split_segments is_blank is_letter same_case no_change talk).runs
      second_paragraph
group_speaker_segments-IsLimited_example =
    group_speaker_segments-IsLimited is_blank is_letter same_case no_change usual talk talk_report
      grouped_talk-report second_paragraph (inr (inl refl))

-- Two turns with a gap between them.
abbrev turn_one : Turn
turn_one = (0, (400, "s1"))

abbrev turn_two : Turn
turn_two = (500, (900, "s2"))

speaker_for-IsBest_example :
    (turn : Turn) × (In turn (turn_one ∷ turn_two ∷ [])
      × ((turn.1.1 ≡ speaker_for turn_one (turn_two ∷ []) 300 600)
          × IsBest 300 600 (turn_one ∷ turn_two ∷ []) turn))
speaker_for-IsBest_example = speaker_for-IsBest turn_one (turn_two ∷ []) 300 600 (omega arith)
