-- ===== src/Speakers/Kept.antt =====
-- The runs of a segment hold its words.
use mathlib.Core.Path.{subst}
use mathlib.Core.List.{append-nil, append_assoc, cons≢nil}
use localplaud.Prelude.{
  ℕ, ◌≡◌, ◌⊎◌, refl, sym, ap, ◌∙◌, Bool, not, inl, inr, Option, String, none, some, List, [], ◌∷◌,
  ◌++◌, arith, any, length, Option-cases, by_test, some_eq,
}
use localplaud.Speakers.Text.{Text, strip, drop, slice, reverse_onto}
use localplaud.Speakers.Turns.{Word, Segment}
use localplaud.Speakers.Clauses.{TextTurn, clause_turns}
use localplaud.Speakers.Runs.{
  SpeakerRun, is_one_speaker, Built, nothing_built, join_run, new_run, next_first, next_offset,
  take_turn, build_runs, carried_turns, turns_of, finish_runs, speaker_runs,
}
use localplaud.Speakers.Slices.{slice-drop, slice-length}
use localplaud.Speakers.Rising.{AreRising, Begins, project_offsets-Begins, clause_turns-Begins}

-- The words of runs, in order; of runs with the last one first.
abbrev pub all_words : List SpeakerRun → List Word
all_words [] = []
all_words (run ∷ runs) = run.segment.words ++ all_words runs

abbrev pub kept : List SpeakerRun → List Word
kept [] = []
kept (run ∷ older) = kept older ++ run.segment.words

pub all_words-append :
    (xs ys : List SpeakerRun) → all_words (xs ++ ys) ≡ all_words xs ++ all_words ys
all_words-append [] ys = refl
all_words-append (x ∷ xs) ys =
    ap (λ l. x.segment.words ++ l) (all_words-append xs ys)
    ∙ sym (append_assoc x.segment.words (all_words xs) (all_words ys))

pub all_words-reverse :
    (runs done : List SpeakerRun) → all_words (reverse_onto runs done) ≡ kept runs ++ all_words done
all_words-reverse [] done = refl
all_words-reverse (run ∷ older) done =
    all_words-reverse older (run ∷ done)
    ∙ sym (append_assoc (kept older) run.segment.words (all_words done))

-- The words still to come, before the turns.
abbrev left_over : List Word → List TextTurn → List Word
left_over words [] = []
left_over words (turn ∷ rest) = drop turn.first words

-- What is built holds, and what waits is empty once there is a run.
abbrev held : Built → List Word
held b = kept b.runs ++ b.pending_words

abbrev Waits : Built → Type 0
Waits b = (b.runs ≡ []) ⊎ (b.pending_words ≡ [])

next-left_over :
    (words : List Word) (turn : TextTurn) (rest : List TextTurn)
    → AreRising turn.first rest
    → slice turn.first (next_first words rest) words ++ left_over words rest ≡ drop turn.first words
next-left_over words turn [] h =
    append-nil (slice turn.first (length words) words) ∙ slice-length turn.first words
next-left_over words turn (next ∷ rest) h = slice-drop turn.first next.first words h.0

finish_runs-words :
    (segment : Segment) (runs : List SpeakerRun) (ws : List Word)
    → kept runs ++ ws ≡ segment.words
    → (runs ≡ []) ⊎ (ws ≡ [])
    → all_words (finish_runs segment runs).0 ≡ segment.words
finish_runs-words segment [] ws h w = append-nil segment.words
finish_runs-words segment (run ∷ older) ws h (inl e) = absurd (cons≢nil e)
finish_runs-words segment (run ∷ older) ws h (inr e) =
    all_words-reverse (run ∷ older) [] ∙ (rw e at h)

module _ (is_space is_alnum : ℕ → Bool) (fold : ℕ → Text) where
  join_run-held :
      (text : Text) (owned : List Word) (b : Built)
      → Waits b
      → (held (join_run is_space is_alnum fold text owned b) ≡ held b ++ owned)
        × Waits (join_run is_space is_alnum fold text owned b)
  unfolding join_run
  join_run-held text owned b w = by_runs b.runs b.pending_words b.pending_text w
    where
      by_runs :
          (runs : List SpeakerRun) (ws : List Word) (t : Text)
          → (runs ≡ []) ⊎ (ws ≡ [])
          → let b' : Built = record { runs = runs; pending_words = ws; pending_text = t } in
            (held (join_run is_space is_alnum fold text owned b') ≡ held b' ++ owned)
            × Waits (join_run is_space is_alnum fold text owned b')
      by_runs [] ws t w = (refl, inl refl)
      by_runs (run ∷ older) ws t (inl e) = absurd (cons≢nil e)
      by_runs (run ∷ older) ws t (inr e) = (
        rw e (
            append-nil (kept older ++ (run.segment.words ++ owned))
            ∙ sym (append_assoc (kept older) run.segment.words owned)
            ∙ ap (λ l. l ++ owned) (sym (append-nil (kept older ++ run.segment.words)))),
        inr e,
      )

  new_run-held :
      (text : Text) (owned : List Word) (speaker : Option String) (b : Built)
      → (held (new_run is_space is_alnum fold text owned speaker b) ≡ held b ++ owned)
        × Waits (new_run is_space is_alnum fold text owned speaker b)
  unfolding new_run
  new_run-held text owned speaker b =
      (append-nil _ ∙ sym (append_assoc (kept b.runs) b.pending_words owned), inr refl)

  take_turn-held :
      (segment : Segment) (turn : TextTurn) (rest : List TextTurn) (b : Built)
      → Waits b
      → (held (take_turn is_space is_alnum fold segment turn rest b)
          ≡ held b ++ slice turn.first (next_first segment.words rest) segment.words)
        × Waits (take_turn is_space is_alnum fold segment turn rest b)
  unfolding take_turn
  take_turn-held segment turn rest b w =
      let text = strip is_space (slice turn.offset (next_offset segment.text rest) segment.text) in
      let owned = slice turn.first (next_first segment.words rest) segment.words in
      by_test (λ next. (held next ≡ held b ++ owned) × Waits next) (not (any is_alnum text))
        (λ t. join_run-held text owned b w) (λ f. new_run-held text owned turn.speaker b)

  build_runs-held :
      (segment : Segment) (turns : List TextTurn) (least : ℕ) (b : Built)
      → AreRising least turns
      → Waits b
      → (held (build_runs is_space is_alnum fold segment turns b)
          ≡ held b ++ left_over segment.words turns)
        × Waits (build_runs is_space is_alnum fold segment turns b)
  unfolding build_runs
  build_runs-held segment [] least b h w = (sym (append-nil (held b)), w)
  build_runs-held segment (turn ∷ rest) least b (l, h) w =
      let next = take_turn is_space is_alnum fold segment turn rest b in
      let (e, w') = take_turn-held segment turn rest b w in
      let (k, w'') = build_runs-held segment rest turn.first next h w' in
      (
        k
            ∙ ap (λ l. l ++ left_over segment.words rest) e
            ∙ append_assoc (held b) _ (left_over segment.words rest)
            ∙ ap (λ l. held b ++ l) (next-left_over segment.words turn rest h),
        w'',
      )

  turns_of-Begins :
      (carry : Text → Text → ℕ → ℕ) (pause_ms : ℕ) (source : Option Text) (segment : Segment)
      (ts : List TextTurn)
      → turns_of is_space is_alnum fold carry pause_ms source segment ≡ some ts
      → Begins ts
  unfolding turns_of
  turns_of-Begins carry pause_ms source segment ts h = elim (Option-cases (turns segment.text)) [
    | inr (own, e) ↦ rw (← some_eq (rw (e, turns_of) at h)) (
        clause_turns-Begins is_alnum fold segment.text segment.words segment.speaker pause_ms own e)
    | inl e ↦ carried source (rw (e, turns_of) at h)
  ]
    where
      turns : Text → Option (List TextTurn)
      turns text = clause_turns is_alnum fold text segment.words segment.speaker pause_ms

      carried :
          (o : Option Text)
          → carried_turns is_space is_alnum fold carry pause_ms segment o ≡ some ts
          → Begins ts
      carried none k = cc
      carried (some []) k = cc
      carried (some (c ∷ cs)) k = elim (Option-cases (turns (c ∷ cs))) [
        | inl e ↦ let clash = rw (e, carried_turns) at k in cc
        | inr (own, e) ↦ rw (← some_eq (rw (e, carried_turns) at k)) (
            project_offsets-Begins (carry (c ∷ cs) segment.text) 0 own (
              clause_turns-Begins is_alnum fold (c ∷ cs) segment.words segment.speaker pause_ms own
                e))
      ]

  finished :
      (segment : Segment) (ts : List TextTurn)
      → Begins ts
      → all_words
          (finish_runs segment (build_runs is_space is_alnum fold segment ts nothing_built).runs).0
        ≡ segment.words
  finished segment [] h = absurd h
  finished segment (turn ∷ rest) (z, h) =
      let (e, w) =
        build_runs-held segment (turn ∷ rest) 0 nothing_built
          (omega arith, subst (λ n. AreRising n rest) (sym z) h) (inl refl) in
      let b = build_runs is_space is_alnum fold segment (turn ∷ rest) nothing_built in
      finish_runs-words segment b.runs b.pending_words (e ∙ ap (λ n. drop n segment.words) z) w

  -- A segment's runs hold its words, in their order.
  pub speaker_runs-words :
      (carry : Text → Text → ℕ → ℕ) (pause_ms : ℕ) (source : Option Text) (segment : Segment)
      → all_words (speaker_runs is_space is_alnum fold carry pause_ms source segment).0
        ≡ segment.words
  unfolding speaker_runs
  speaker_runs-words carry pause_ms source segment = by_words segment.words
    where
      by_words :
          (words : List Word)
          → all_words
              (speaker_runs is_space is_alnum fold carry pause_ms source
                (record segment { words = words })).0
            ≡ words
      by_words [] = refl
      by_words (word ∷ words) =
          let whole = record segment { words = word ∷ words } in
          by_test {B = List SpeakerRun × Bool} (λ r. all_words r.0 ≡ word ∷ words)
            (is_one_speaker segment.speaker (word ∷ words)) (λ t. append-nil (word ∷ words))
            (λ f.
              elim (Option-cases (turns_of is_space is_alnum fold carry pause_ms source whole)) [
                | inl e ↦ rw e (append-nil (word ∷ words))
                | inr (ts, e) ↦
                    rw e (finished whole ts (turns_of-Begins carry pause_ms source whole ts e))
              ])
