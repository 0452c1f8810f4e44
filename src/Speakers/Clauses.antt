-- ===== src/Speakers/Clauses.antt =====
-- The division of a segment into clauses and turns: `_word_spans`, `_cut_position`, `_lexical_run` and
-- `_clause_turns` of worker/diarize.py.
use localplaud.Prelude.{
  ℕ, suc, ◌+◌, ◌-◌, String, Bool, false, not, ◌&&◌, ◌||◌, Option, none, some, List, [], ◌∷◌, ◌++◌,
  ltb, leb, any, take, length, if◌then◌else◌,
}
use localplaud.Speakers.Text.{
  Text, is_cjk, is_in, starts_with, same_text, drop, slice, reverse, clause_marks, opening_marks,
}
use localplaud.Speakers.Turns.{Word, same_speaker, clause_speaker}

abbrev pub Span : Type 0
Span = ℕ × ℕ

-- A turn of a segment: its first word, its place in the text, its speaker.
pub record TextTurn : Type 0 where
  pub first : ℕ
  pub offset : ℕ
  pub speaker : Option String

-- text[i] where it is read after a test that it is there.
unfoldable pub is_cjk_at : Text → ℕ → Bool
is_cjk_at text i = elim (drop i text) [ [] ↦ false | c ∷ _ ↦ is_cjk c ]

module _ (is_alnum : ℕ → Bool) (fold : ℕ → Text) where
  unfoldable pub word_key : Text → Text
  word_key [] = []
  word_key (c ∷ cs) = if is_alnum c then fold c ++ word_key cs else word_key cs

  abbrev or_here : Option ℕ → ℕ → ℕ
  or_here none position = position
  or_here (some start) position = start

  -- The inner loop, on the text from the position on: the word's span and what follows it.
  unfoldable pub find_word : Text → Option ℕ → Text → ℕ → Text → Option (Span × Text)
  find_word key start matched position [] =
      if same_text matched key then some ((or_here start position, position), []) else none
  find_word key start matched position (c ∷ rest) =
      let more = matched ++ fold c in
      let inside = find_word key (some (or_here start position)) more (suc position) rest in
      let outside = find_word key start matched (suc position) rest in
      if same_text matched key
      then some ((or_here start position, position), c ∷ rest)
      else if is_alnum c
      then if starts_with key more then inside else none
      else outside

  unfoldable pub spans_from : List Word → ℕ → Text → Option (List Span)
  spans_from [] position rest = if any is_alnum rest then none else some []
  spans_from (word ∷ words) position rest =
      elim (find_word (word_key word.text) none [] position rest) [
        | none ↦ none
        | some found ↦ elim (spans_from words found.0.1 found.1) [
          | none ↦ none
          | some spans ↦ some (found.0 ∷ spans)
        ]
      ]

  unfoldable pub word_spans : Text → List Word → Option (List Span)
  word_spans text words = spans_from words 0 text

  unfoldable pub lexical_count : Text → ℕ
  lexical_count [] = 0
  lexical_count (c ∷ cs) =
      let more = lexical_count cs in
      if is_in clause_marks c then 0 else if is_alnum c then suc more else more

  -- _lexical_run to the left, and to the right.
  unfoldable pub lexical_left : Text → ℕ → ℕ
  lexical_left text offset = lexical_count (reverse (take offset text))

  unfoldable pub lexical_right : Text → ℕ → ℕ
  lexical_right text offset = lexical_count (drop offset text)

-- The first opening mark in the gap, else its end.
unfoldable pub first_opening : Text → ℕ → ℕ
first_opening [] index = index
first_opening (c ∷ cs) index =
    let later = first_opening cs (suc index) in if is_in opening_marks c then index else later

unfoldable pub cut_position : Text → Span → Span → Option ℕ
cut_position text left right =
    if leb right.0 left.1
      && not (
          ltb left.0 left.1 && is_cjk_at text (left.1 - 1)
          || ltb right.0 right.1 && is_cjk_at text right.0)
    then none
    else if leb right.0 left.1
    then some right.0
    else some (first_opening (slice left.1 right.0 text) left.1)

module _ (is_alnum : ℕ → Bool) (fold : ℕ → Text) where
  -- Whether a clause ends between two words, at a cut.
  unfoldable pub is_clause_end : Text → ℕ → Word → Span → Word → Span → ℕ → Bool
  is_clause_end text pause_ms before left word right cut =
      any (is_in clause_marks) (slice left.1 right.0 text)
      || (leb (before.end + pause_ms) word.start
          && (leb 2 (lexical_left is_alnum fold text cut)
              && leb 2 (lexical_right is_alnum fold text cut)))

  -- The clauses that begin from the word `index` on: the first word and the place in the text.
  unfoldable pub clauses_from : Text → ℕ → Word → Span → ℕ → List Word → List Span → List (ℕ × ℕ)
  clauses_from text pause_ms before left index (word ∷ words) (right ∷ spans) =
      let rest = clauses_from text pause_ms word right (suc index) words spans in
      elim (cut_position text left right) [
        | none ↦ rest
        | some cut ↦
            if is_clause_end text pause_ms before left word right cut
            then (index, cut) ∷ rest
            else rest
      ]
  clauses_from text pause_ms before left index _ _ = []

  abbrev pub clauses : Text → ℕ → List Word → List Span → List (ℕ × ℕ)
  clauses text pause_ms (word ∷ words) (span ∷ spans) =
      (0, 0) ∷ clauses_from text pause_ms word span 1 words spans
  clauses text pause_ms _ _ = (0, 0) ∷ []

-- A turn begins where the clause's speaker is not the last turn's.
abbrev pub is_same_turn : Option (Option String) → Option String → Bool
is_same_turn none speaker = false
is_same_turn (some last) speaker = same_speaker last speaker

unfoldable pub turns_from :
    List Word → Option String → Option (Option String) → List (ℕ × ℕ) → List TextTurn
turns_from words fallback last [] = []
turns_from words fallback last (clause ∷ rest) =
    let speaker = clause_speaker (slice clause.0 (end_of rest) words) fallback in
    let same = turns_from words fallback last rest in
    let changed = turns_from words fallback (some speaker) rest in
    if is_same_turn last speaker
    then same
    else record { first = clause.0; offset = clause.1; speaker = speaker } ∷ changed
  where
    end_of : List (ℕ × ℕ) → ℕ
    end_of [] = length words
    end_of (next ∷ _) = next.0

module _ (is_alnum : ℕ → Bool) (fold : ℕ → Text) where
  unfoldable pub clause_turns : Text → List Word → Option String → ℕ → Option (List TextTurn)
  clause_turns text words fallback pause_ms = elim (word_spans is_alnum fold text words) [
    | none ↦ none
    | some spans ↦
        some (turns_from words fallback none (clauses is_alnum fold text pause_ms words spans))
  ]
