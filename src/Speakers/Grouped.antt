-- ===== src/Speakers/Grouped.antt =====
-- What the grouping of runs keeps: the words, and the account of the boundaries.
use mathlib.Core.List.{append-nil, append_assoc, nil≢cons}
use localplaud.Prelude.{
  ℕ, suc, ◌+◌, ◌≤◌, ◌≡◌, refl, sym, ap, ◌∙◌, Bool, false, Option, some, List, [], ◌∷◌, ◌++◌, arith,
  ltb, ◌==◌, ◌||◌, length, by_test,
}
use localplaud.Speakers.Text.{Text, reverse}
use localplaud.Speakers.Turns.{Word, Segment}
use localplaud.Speakers.Runs.{SpeakerRun, speaker_runs}
use localplaud.Speakers.Grouping.{
  Limits, Grouping, Split, Report, split_segments, is_same_run, joined, is_within, group_run,
  group_runs, ungrouped, segments_of, report_of, group_speaker_segments,
}
use localplaud.Speakers.Kept.{
  all_words, kept, all_words-append, all_words-reverse, speaker_runs-words,
}

-- The words of segments, in order.
abbrev pub words_of : List Segment → List Word
words_of [] = []
words_of (segment ∷ segments) = segment.words ++ words_of segments

abbrev pub input_words : List (Segment × Option Text) → List Word
input_words [] = []
input_words (entry ∷ entries) = entry.0.words ++ input_words entries

length-append : {A : Type 0} (xs ys : List A) → length (xs ++ ys) ≡ length xs + length ys
length-append [] ys = omega arith
length-append (x ∷ xs) ys = let rest = length-append xs ys in omega arith

not_empty :
    (word : Word) (words : List Word) (runs : List SpeakerRun)
    → all_words runs ≡ word ∷ words
    → 1 ≤ length runs
not_empty word words [] h = absurd (nil≢cons h)
not_empty word words (run ∷ runs) h = omega arith

module _ (is_space is_alnum : ℕ → Bool) (fold : ℕ → Text) (carry : Text → Text → ℕ → ℕ) where
  abbrev runs_of : Option Text → Segment → List SpeakerRun
  runs_of source segment = (speaker_runs is_space is_alnum fold carry 1000 source segment).0

  abbrev parts : List (Segment × Option Text) → Split
  parts segments = split_segments is_space is_alnum fold carry segments

  split-words :
      (segments : List (Segment × Option Text))
      → all_words (parts segments).runs ≡ input_words segments
  unfolding split_segments
  split-words [] = refl
  split-words (entry ∷ entries) =
      all_words-append (runs_of entry.1 entry.0) (parts entries).runs
      ∙ ap (λ l. l ++ all_words (parts entries).runs)
          (speaker_runs-words is_space is_alnum fold carry 1000 entry.1 entry.0)
      ∙ ap (λ l. entry.0.words ++ l) (split-words entries)

  some_run : (source : Option Text) (segment : Segment) → 1 ≤ length (runs_of source segment)
  unfolding speaker_runs
  some_run source segment = by_words segment.words
    where
      by_words :
          (words : List Word) → 1 ≤ length (runs_of source (record segment { words = words }))
      by_words [] = omega arith
      by_words (word ∷ words) =
          let whole = record segment { words = word ∷ words } in
          not_empty word words (runs_of source whole)
            (speaker_runs-words is_space is_alnum fold carry 1000 source whole)

  split-length :
      (segments : List (Segment × Option Text))
      → length (parts segments).runs ≡ length segments + (parts segments).split_boundaries
  unfolding split_segments
  split-length [] = omega arith
  split-length (entry ∷ entries) =
      let here = some_run entry.1 entry.0 in
      let rest = split-length entries in
      let sum = length-append (runs_of entry.1 entry.0) (parts entries).runs in omega arith

  -- One more run in the account.
  abbrev Counted : Limits → SpeakerRun → Grouping → Grouping → Type 0
  Counted limits run g g' =
      (kept g'.grouped ≡ kept g.grouped ++ run.segment.words)
      × (length g'.grouped + g'.merged_boundaries ≡ suc (length g.grouped + g.merged_boundaries))

  group_run-Counted :
      (limits : Limits) (run : SpeakerRun) (g : Grouping)
      → Counted limits run g (group_run is_space limits run g)
  unfolding group_run joined
  group_run-Counted limits run g = by_groups g.grouped g.merged_boundaries g.limit_boundaries
    where
      by_groups :
          (grouped : List SpeakerRun) (m l : ℕ)
          → let g' : Grouping = record {
            grouped = grouped;
            merged_boundaries = m;
            limit_boundaries = l;
          } in
            Counted limits run g' (group_run is_space limits run g')
      by_groups [] m l = (refl, omega arith)
      by_groups (previous ∷ older) m l =
          let g' : Grouping = record {
            grouped = previous ∷ older;
            merged_boundaries = m;
            limit_boundaries = l;
          } in
          let candidate = joined is_space previous.segment run.segment in
          by_test (Counted limits run g') (is_same_run limits.max_gap previous run)
            (λ t.
              by_test (Counted limits run g') (is_within limits candidate)
                (λ w. (
                  sym (append_assoc (kept older) previous.segment.words run.segment.words),
                  omega arith,
                ))
                (λ w. (refl, omega arith)))
            (λ f. (refl, omega arith))

  group_runs-words :
      (limits : Limits) (runs : List SpeakerRun) (g : Grouping)
      → let g' = group_runs is_space limits runs g in
        (kept g'.grouped ≡ kept g.grouped ++ all_words runs)
        × (length g'.grouped + g'.merged_boundaries
            ≡ length runs + (length g.grouped + g.merged_boundaries))
  unfolding group_runs
  group_runs-words limits [] g = (sym (append-nil (kept g.grouped)), omega arith)
  group_runs-words limits (run ∷ runs) g =
      let next = group_run is_space limits run g in
      let (e, n) = group_run-Counted limits run g in
      let (k, m) = group_runs-words limits runs next in
      (
        k
            ∙ ap (λ l. l ++ all_words runs) e
            ∙ append_assoc (kept g.grouped) run.segment.words (all_words runs),
        omega arith,
      )

  words_of-segments : (runs : List SpeakerRun) → words_of (segments_of runs) ≡ all_words runs
  words_of-segments [] = refl
  words_of-segments (run ∷ runs) = ap (λ l. run.segment.words ++ l) (words_of-segments runs)

  -- With limits of at least one, the grouping succeeds, and the paragraphs hold the very words of the
  -- segments, each once and in the same order, whatever was split, merged, corrected or left as it
  -- was. The report adds up: the runs are as many as the segments and the boundaries at which one was
  -- split, and as many as the paragraphs and the boundaries that were merged away.
  pub group_speaker_segments-words :
      (limits : Limits) (segments : List (Segment × Option Text))
      → 1 ≤ limits.max_chars
      → 1 ≤ limits.max_duration
      → (report : Report) × ((group_speaker_segments is_space is_alnum fold carry limits segments
            ≡ some report)
          × ((words_of report.segments ≡ input_words segments)
              × ((report.speaker_runs ≡ report.input_segments + report.split_boundaries)
                  × (report.speaker_runs ≡ report.output_segments + report.merged_boundaries))))
  unfolding group_speaker_segments
  group_speaker_segments-words limits segments c d =
      let runs = (parts segments).runs in
      let g = group_runs is_space limits runs ungrouped in
      let (e, n) = group_runs-words limits runs ungrouped in
      let valid : (ltb limits.max_chars 1 || limits.max_duration == 0) ≡ false = ground arith in
      (
        report_of (length segments) (parts segments) g,
        (
          rw valid refl,
          (
            words_of-segments (reverse g.grouped)
                ∙ all_words-reverse g.grouped []
                ∙ append-nil (kept g.grouped)
                ∙ e
                ∙ split-words segments,
            (split-length segments, omega arith),
          ),
        ),
      )
