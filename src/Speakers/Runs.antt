-- ===== src/Speakers/Runs.antt =====
-- `_speaker_runs` and the running maximum of `_project_offsets` of worker/diarize.py. The character
-- difference of difflib, by which one offset is carried to a corrected text, is a parameter.
use localplaud.Prelude.{
  ℕ, String, Bool, true, false, not, Option, none, some, List, [], ◌∷◌, ◌++◌, any, all, length, max,
  if◌then◌else◌,
}
use localplaud.Speakers.Text.{Text, strip, slice, reverse}
use localplaud.Speakers.Turns.{Word, Segment, or_else, same_speaker, dominant_speaker}
use localplaud.Speakers.Clauses.{TextTurn, clause_turns}

pub record SpeakerRun : Type 0 where
  pub segment : Segment
  pub mergeable : Bool

-- len(set(speakers)) <= 1
abbrev pub is_one_speaker : Option String → List Word → Bool
is_one_speaker fallback [] = true
is_one_speaker fallback (word ∷ words) =
    all (λ other. same_speaker (or_else word.speaker fallback) (or_else other.speaker fallback))
      words

-- speakers[0], where there is one.
abbrev pub first_speaker : Option String → List Word → Option String
first_speaker fallback [] = fallback
first_speaker fallback (word ∷ _) = or_else word.speaker fallback

-- owned[0].start, and owned[-1].end: no turn is without words.
abbrev pub first_start : ℕ → List Word → ℕ
first_start default [] = default
first_start default (word ∷ _) = word.start

abbrev pub last_end : ℕ → List Word → ℕ
last_end default [] = default
last_end default (word ∷ words) = last_end word.end words

-- The offsets never decrease.
unfoldable pub project_offsets : (ℕ → ℕ) → ℕ → List TextTurn → List TextTurn
project_offsets carry least [] = []
project_offsets carry least (turn ∷ turns) =
    let position = max (carry turn.offset) least in
    record turn { offset = position } ∷ project_offsets carry position turns

-- The runs so far, the last one first, with the words and the text of leading turns that have none.
pub record Built : Type 0 where
  pub runs : List SpeakerRun
  pub pending_words : List Word
  pub pending_text : Text

abbrev pub nothing_built : Built
nothing_built = record { runs = []; pending_words = []; pending_text = [] }

abbrev pub next_first : List Word → List TextTurn → ℕ
next_first words [] = length words
next_first words (turn ∷ _) = turn.first

abbrev pub next_offset : Text → List TextTurn → ℕ
next_offset text [] = length text
next_offset text (turn ∷ _) = turn.offset

abbrev pub finish_runs : Segment → List SpeakerRun → List SpeakerRun × Bool
finish_runs segment [] = (record { segment = segment; mergeable = false } ∷ [], true)
finish_runs segment (run ∷ older) = (reverse (run ∷ older), false)

module _ (is_space is_alnum : ℕ → Bool) (fold : ℕ → Text) where
  -- A turn whose text has no letters or digits joins a neighbour.
  unfoldable pub join_run : Text → List Word → Built → Built
  join_run text owned b = elim b.runs [
    | run ∷ older ↦
        let previous = run.segment in
        record b {
          runs =
              record run {
                segment = record previous {
                  text = previous.text ++ text;
                  words = previous.words ++ owned;
                  end = max previous.end (last_end previous.end owned);
                };
              }
              ∷ older;
        }
    | [] ↦ record b {
      pending_words = b.pending_words ++ owned;
      pending_text = b.pending_text ++ text;
    }
  ]

  unfoldable pub new_run : Text → List Word → Option String → Built → Built
  new_run text turn_words speaker b =
      let owned = b.pending_words ++ turn_words in
      record {
        runs =
            record {
              segment = record {
                text = b.pending_text ++ text;
                start = first_start 0 owned;
                end = last_end 0 owned;
                speaker = speaker;
                words = owned;
              };
              mergeable = true;
            }
            ∷ b.runs;
        pending_words = [];
        pending_text = [];
      }

  -- One turn, before the turns `rest`.
  unfoldable pub take_turn : Segment → TextTurn → List TextTurn → Built → Built
  take_turn segment turn rest b =
      let text = strip is_space (slice turn.offset (next_offset segment.text rest) segment.text) in
      let owned = slice turn.first (next_first segment.words rest) segment.words in
      if not (any is_alnum text) then join_run text owned b else new_run text owned turn.speaker b

  unfoldable pub build_runs : Segment → List TextTurn → Built → Built
  build_runs segment [] b = b
  build_runs segment (turn ∷ rest) b = build_runs segment rest (take_turn segment turn rest b)

  -- The turns of the segment's own text, else those of its source text carried over.
  abbrev pub carried_turns :
      (Text → Text → ℕ → ℕ) → ℕ → Segment → Option Text → Option (List TextTurn)
  carried_turns carry pause_ms segment none = none
  carried_turns carry pause_ms segment (some []) = none
  carried_turns carry pause_ms segment (some (c ∷ cs)) =
      elim (clause_turns is_alnum fold (c ∷ cs) segment.words segment.speaker pause_ms) [
        | none ↦ none
        | some turns ↦ some (project_offsets (carry (c ∷ cs) segment.text) 0 turns)
      ]

  unfoldable pub turns_of :
      (Text → Text → ℕ → ℕ) → ℕ → Option Text → Segment → Option (List TextTurn)
  turns_of carry pause_ms source segment =
      elim (clause_turns is_alnum fold segment.text segment.words segment.speaker pause_ms) [
        | some turns ↦ some turns
        | none ↦ carried_turns carry pause_ms segment source
      ]

  unfoldable pub speaker_runs :
      (Text → Text → ℕ → ℕ) → ℕ → Option Text → Segment → List SpeakerRun × Bool
  speaker_runs carry pause_ms source segment = elim segment.words [
    | [] ↦ (record { segment = segment; mergeable = true } ∷ [], false)
    | word ∷ words ↦
        if is_one_speaker segment.speaker (word ∷ words)
        then (
          record {
            segment = record segment { speaker = first_speaker segment.speaker (word ∷ words) };
            mergeable = true;
          }
              ∷ [],
          false,
        )
        else elim (turns_of carry pause_ms source segment) [
          | none ↦ (
            record {
              segment = record segment { speaker = dominant_speaker segment };
              mergeable = false;
            }
                ∷ [],
            true,
          )
          | some turns ↦ finish_runs segment (build_runs segment turns nothing_built).runs
        ]
  ]
