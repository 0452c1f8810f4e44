-- ===== src/Speakers/Turns.antt =====
-- Words, segments and the speaker who holds most of a span: Word and Segment of asr/base.py,
-- `_dominant_speaker`, `_clause_speaker` and the assignment in `diarize` of worker/diarize.py. Times are
-- in milliseconds.
use localplaud.Prelude.{
  ℕ, ◌+◌, ◌-◌, String, Bool, true, false, not, ◌&&◌, Option, none, some, List, [], ◌∷◌, ltb, leb,
  str_eq, min, max, map, if◌then◌else◌,
}
use localplaud.Speakers.Text.{Text}

pub record Word : Type 0 where
  pub text : Text
  pub start : ℕ
  pub end : ℕ
  pub speaker : Option String
  pub confidence : Option ℕ

pub record Segment : Type 0 where
  pub text : Text
  pub start : ℕ
  pub end : ℕ
  pub speaker : Option String
  pub words : List Word

-- The truth of a speaker, and `a or b`.
abbrev pub is_named : Option String → Bool
is_named none = false
is_named (some s) = not (str_eq s "")

abbrev pub or_else : Option String → Option String → Option String
or_else a b = if is_named a then a else b

abbrev pub same_speaker : Option String → Option String → Bool
same_speaker none none = true
same_speaker (some a) (some b) = str_eq a b
same_speaker none (some b) = false
same_speaker (some a) none = false

-- weights[speaker] = weights.get(speaker, 0) + weight
unfoldable pub add_weight : String → ℕ → List (String × ℕ) → List (String × ℕ)
add_weight speaker weight [] = (speaker, weight) ∷ []
add_weight speaker weight (entry ∷ rest) =
    let later = add_weight speaker weight rest in
    if str_eq entry.0 speaker then (entry.0, entry.1 + weight) ∷ rest else entry ∷ later

-- max(weights, key=weights.get): the first of the heaviest.
unfoldable pub heaviest : String × ℕ → List (String × ℕ) → String
heaviest best [] = best.0
heaviest best (entry ∷ rest) = heaviest (if ltb best.1 entry.1 then entry else best) rest

abbrev pub heaviest_or : Option String → List (String × ℕ) → Option String
heaviest_or fallback [] = fallback
heaviest_or fallback (entry ∷ rest) = some (heaviest entry rest)

-- What a word weighs, besides its length.
unfoldable pub weigh : ℕ → Option String → List Word → List (String × ℕ) → List (String × ℕ)
weigh extra fallback [] weights = weights
weigh extra fallback (word ∷ words) weights =
    weigh extra fallback words (elim (or_else word.speaker fallback) [
      | none ↦ weights
      | some s ↦
          if str_eq s "" then weights else add_weight s (word.end - word.start + extra) weights
    ])

unfoldable pub dominant_speaker : Segment → Option String
dominant_speaker segment = heaviest_or segment.speaker (weigh 0 segment.speaker segment.words [])

unfoldable pub clause_speaker : List Word → Option String → Option String
clause_speaker words fallback = heaviest_or fallback (weigh 10 fallback words [])

-- A turn of the diarization: its start, its end and its speaker.
abbrev pub Turn : Type 0
Turn = ℕ × (ℕ × String)

unfoldable pub overlap : ℕ → ℕ → Turn → ℕ
overlap start end (t_start, (t_end, speaker)) = min end t_end - max start t_start

unfoldable pub distance : ℕ → ℕ → Turn → ℕ
distance start end (t_start, (t_end, speaker)) =
    if ltb end t_start then t_start - end else if ltb t_end start then start - t_end else 0

-- The first turn that holds an instant.
unfoldable pub holding : ℕ → List Turn → Option String
holding start [] = none
holding start ((t_start, (t_end, speaker)) ∷ turns) =
    let later = holding start turns in
    if leb t_start start && leb start t_end then some speaker else later

-- The loop for the first largest overlap, from the best so far.
unfoldable pub best_overlap : ℕ → ℕ → Option String × ℕ → List Turn → Option String × ℕ
best_overlap start end best [] = best
best_overlap start end best (turn ∷ turns) =
    let here = overlap start end turn in
    best_overlap start end (if ltb best.1 here then (some turn.1.1, here) else best) turns

-- min(turns, key=distance): the first of the closest.
unfoldable pub closest : ℕ → ℕ → Turn → List Turn → Turn
closest start end best [] = best
closest start end best (turn ∷ turns) =
    closest start end
      (if ltb (distance start end turn) (distance start end best) then turn else best) turns

abbrev pub or_closest : ℕ → ℕ → Turn → List Turn → Option String → String
or_closest start end first rest (some speaker) = speaker
or_closest start end first rest none = (closest start end first rest).1.1

-- speaker_for, on the turns first ∷ rest, of which there is one at least.
unfoldable pub speaker_for : Turn → List Turn → ℕ → ℕ → String
speaker_for first rest start end =
    or_closest start end first rest
      (elim (if leb end start then holding start (first ∷ rest) else none) [
        | some speaker ↦ some speaker
        | none ↦ (best_overlap start end (none, 0) (first ∷ rest)).0
      ])

abbrev pub assign_word : Turn → List Turn → Word → Word
assign_word first rest w = record w { speaker = some (speaker_for first rest w.start w.end) }

-- A segment's speaker is that of the most of its words, which end no earlier than they start.
unfoldable pub assign_segment : Turn → List Turn → Segment → Segment
assign_segment first rest segment = elim segment.words [
  | [] ↦ record segment { speaker = some (speaker_for first rest segment.start segment.end) }
  | word ∷ words ↦
      let spoken = map (assign_word first rest) (word ∷ words) in
      record segment {
        words = spoken;
        speaker =
            heaviest_or (some (speaker_for first rest segment.start segment.end))
              (weigh 0 none spoken []);
      }
]

-- diarize, once the diarization has found its turns.
unfoldable pub assign_speakers : List Turn → List Segment → List Segment
assign_speakers [] segments = segments
assign_speakers (first ∷ rest) segments = map (assign_segment first rest) segments
