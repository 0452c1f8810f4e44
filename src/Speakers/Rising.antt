-- ===== src/Speakers/Rising.antt =====
-- The turns of a segment begin with its first word, and their first words rise.
use localplaud.Prelude.{
  ℕ, suc, ◌≤◌, ◌≡◌, refl, String, Bool, inl, inr, Option, none, some, List, [], ◌∷◌, arith, max,
  Option-cases, by_test, some_eq, if◌then◌else◌,
}
use localplaud.Speakers.Text.{Text}
use localplaud.Speakers.Turns.{Word}
use localplaud.Speakers.Clauses.{
  Span, TextTurn, word_spans, cut_position, is_clause_end, clauses_from, clauses, is_same_turn,
  turns_from, clause_turns,
}
use localplaud.Speakers.Runs.{project_offsets}

abbrev IsRising : ℕ → List (ℕ × ℕ) → Type 0
IsRising least [] = Unit
IsRising least (clause ∷ rest) = (least ≤ clause.0) × IsRising clause.0 rest

abbrev pub AreRising : ℕ → List TextTurn → Type 0
AreRising least [] = Unit
AreRising least (turn ∷ rest) = (least ≤ turn.first) × AreRising turn.first rest

-- The first turn has the first word.
abbrev pub Begins : List TextTurn → Type 0
Begins [] = ⊥
Begins (turn ∷ rest) = (turn.first ≡ 0) × AreRising 0 rest

IsRising-weaker : (a b : ℕ) (cs : List (ℕ × ℕ)) → a ≤ b → IsRising b cs → IsRising a cs
IsRising-weaker a b [] l h = tt
IsRising-weaker a b (c ∷ cs) l (h, k) = (omega arith, k)

AreRising-weaker : (a b : ℕ) (ts : List TextTurn) → a ≤ b → AreRising b ts → AreRising a ts
AreRising-weaker a b [] l h = tt
AreRising-weaker a b (t ∷ ts) l (h, k) = (omega arith, k)

module _ (is_alnum : ℕ → Bool) (fold : ℕ → Text) where
  clauses_from-IsRising :
      (text : Text) (pause : ℕ) (before : Word) (left : Span) (index : ℕ) (words : List Word)
      (spans : List Span)
      → IsRising index (clauses_from is_alnum fold text pause before left index words spans)
  unfolding clauses_from
  clauses_from-IsRising text pause before left index [] spans = tt
  clauses_from-IsRising text pause before left index (word ∷ words) [] = tt
  clauses_from-IsRising text pause before left index (word ∷ words) (right ∷ spans) =
      let rest = clauses_from is_alnum fold text pause word right (suc index) words spans in
      let below =
        IsRising-weaker index (suc index) rest (omega arith)
          (clauses_from-IsRising text pause word right (suc index) words spans) in
      elim (cut_position text left right)
        as (λ o. IsRising index (elim o [
          | none ↦ rest
          | some cut ↦
              if is_clause_end is_alnum fold text pause before left word right cut
              then (index, cut) ∷ rest
              else rest
        ])) [
          | none ↦ below
          | some cut ↦
              by_test (IsRising index)
                (is_clause_end is_alnum fold text pause before left word right cut)
                (λ t. (omega arith, below)) (λ f. below)
        ]

turns_from-AreRising :
    (words : List Word) (fallback : Option String) (last : Option (Option String)) (least : ℕ)
    (cs : List (ℕ × ℕ))
    → IsRising least cs
    → AreRising least (turns_from words fallback last cs)
unfolding turns_from
turns_from-AreRising words fallback last least [] h = tt
turns_from-AreRising words fallback last least (c ∷ cs) (h, k) =
    by_test (AreRising least) (is_same_turn last _)
      (λ t. AreRising-weaker least c.0 _ h (turns_from-AreRising words fallback last c.0 cs k))
      (λ f. (h, turns_from-AreRising words fallback (some _) c.0 cs k))

project_offsets-AreRising :
    (carry : ℕ → ℕ) (position least : ℕ) (ts : List TextTurn)
    → AreRising least ts
    → AreRising least (project_offsets carry position ts)
unfolding project_offsets
project_offsets-AreRising carry position least [] h = tt
project_offsets-AreRising carry position least (t ∷ ts) (h, k) =
    (h, project_offsets-AreRising carry (max (carry t.offset) position) t.first ts k)

pub project_offsets-Begins :
    (carry : ℕ → ℕ) (position : ℕ) (ts : List TextTurn)
    → Begins ts
    → Begins (project_offsets carry position ts)
unfolding project_offsets
project_offsets-Begins carry position [] h = h
project_offsets-Begins carry position (t ∷ ts) (h, k) =
    (h, project_offsets-AreRising carry (max (carry t.offset) position) 0 ts k)

module _ (is_alnum : ℕ → Bool) (fold : ℕ → Text) where
  clauses-Begins :
      (text : Text) (pause : ℕ) (words : List Word) (spans : List Span) (fallback : Option String)
      → Begins (turns_from words fallback none (clauses is_alnum fold text pause words spans))
  unfolding turns_from
  clauses-Begins text pause [] spans fallback = (refl, tt)
  clauses-Begins text pause (word ∷ words) [] fallback = (refl, tt)
  clauses-Begins text pause (word ∷ words) (span ∷ spans) fallback = (
    refl,
    turns_from-AreRising (word ∷ words) fallback (some _) 0 _ (
        IsRising-weaker 0 1 _ (omega arith)
          (clauses_from-IsRising is_alnum fold text pause word span 1 words spans)),
  )

  pub clause_turns-Begins :
      (text : Text) (words : List Word) (fallback : Option String) (pause : ℕ) (ts : List TextTurn)
      → clause_turns is_alnum fold text words fallback pause ≡ some ts
      → Begins ts
  unfolding clause_turns
  clause_turns-Begins text words fallback pause ts h =
      elim (Option-cases (word_spans is_alnum fold text words)) [
        | inl e ↦ let clash = rw (e, clause_turns) at h in cc
        | inr (spans, e) ↦
            let same = some_eq (rw (e, clause_turns) at h) in
            rw (← same) (clauses-Begins text pause words spans fallback)
      ]
