-- ===== src/Speakers/Limited.antt =====
-- The paragraphs keep to the limits.
use localplaud.Prelude.{
  ℕ, ◌+◌, ◌≤◌, ◌≡◌, ◌⊎◌, refl, Bool, true, inl, inr, Option, some, List, [], ◌∷◌, ltb, leb, leb→le,
  ◌==◌, ◌||◌, length, In, Bool-cases, by_test, some_eq,
}
use localplaud.Speakers.Text.{Text, reverse_onto}
use localplaud.Speakers.Turns.{Segment}
use localplaud.Speakers.Runs.{SpeakerRun}
use localplaud.Speakers.Grouping.{
  Limits, Grouping, Report, split_segments, is_same_run, joined, is_within, group_run, group_runs,
  ungrouped, segments_of, group_speaker_segments,
}

-- A run that is left as it is, or text and time within the limits.
abbrev pub IsLimited : Limits → List SpeakerRun → Segment → Type 0
IsLimited limits runs s =
    In s (segments_of runs)
    ⊎ ((length s.text ≤ limits.max_chars) × (s.end ≤ limits.max_duration + s.start))

is_within-IsLimited :
    (limits : Limits) (runs : List SpeakerRun) (s : Segment)
    → is_within limits s ≡ true
    → IsLimited limits runs s
unfolding is_within
is_within-IsLimited limits runs s h = elim (Bool-cases (leb (length s.text) limits.max_chars)) [
  | inl e ↦ inr (leb→le _ _ e, leb→le _ _ (rw e at h))
  | inr e ↦ let clash = rw e at h in cc
]

In-reverse_onto :
    (s : Segment) (runs done : List SpeakerRun)
    → In s (segments_of (reverse_onto runs done))
    → In s (segments_of runs) ⊎ In s (segments_of done)
In-reverse_onto s [] done h = inr h
In-reverse_onto s (run ∷ runs) done h = elim (In-reverse_onto s runs (run ∷ done) h) [
  | inl k ↦ inl (inr k)
  | inr (inl e) ↦ inl (inl e)
  | inr (inr k) ↦ inr k
]

module _ (is_space : ℕ → Bool) (limits : Limits) (P : Segment → Type 0)
    (within : (s : Segment) → is_within limits s ≡ true → P s) where
  abbrev All : List SpeakerRun → Type 0
  All runs = (s : Segment) → In s (segments_of runs) → P s

  group_run-All :
      (run : SpeakerRun) (g : Grouping)
      → P run.segment
      → All g.grouped
      → All (group_run is_space limits run g).grouped
  unfolding group_run
  group_run-All run g here h = by_groups g.grouped g.merged_boundaries g.limit_boundaries h
    where
      by_groups :
          (grouped : List SpeakerRun) (m l : ℕ)
          → All grouped
          → let g' : Grouping = record {
            grouped = grouped;
            merged_boundaries = m;
            limit_boundaries = l;
          } in
            All (group_run is_space limits run g').grouped
      by_groups [] m l h = λ s i. elim i [ inl e ↦ rw (← e) here | inr k ↦ absurd k ]
      by_groups (previous ∷ older) m l h =
          let candidate = joined is_space previous.segment run.segment in
          let added : All (run ∷ previous ∷ older) =
            λ s i. elim i [ inl e ↦ rw (← e) here | inr k ↦ h s k ] in
          by_test {B = Grouping} (λ next. All next.grouped)
            (is_same_run limits.max_gap previous run)
            (λ t.
              by_test {B = Grouping} (λ next. All next.grouped) (is_within limits candidate)
                (λ w s i. elim i [ inl e ↦ rw (← e) (within candidate w) | inr k ↦ h s (inr k) ])
                (λ w. added))
            (λ f. added)

  group_runs-All :
      (runs : List SpeakerRun) (g : Grouping)
      → All runs
      → All g.grouped
      → All (group_runs is_space limits runs g).grouped
  unfolding group_runs
  group_runs-All [] g h k = k
  group_runs-All (run ∷ runs) g h k =
      group_runs-All runs (group_run is_space limits run g) (λ s i. h s (inr i))
        (group_run-All run g (h run.segment (inl refl)) k)

module _ (is_space is_alnum : ℕ → Bool) (fold : ℕ → Text) (carry : Text → Text → ℕ → ℕ) where
  -- Every paragraph is one of the runs as it was, or has at most the allowed characters and spans at
  -- most the allowed time: runs are merged only within both limits.
  pub group_speaker_segments-IsLimited :
      (limits : Limits) (segments : List (Segment × Option Text)) (report : Report)
      → group_speaker_segments is_space is_alnum fold carry limits segments ≡ some report
      → (s : Segment) → In s report.segments
      → IsLimited limits (split_segments is_space is_alnum fold carry segments).runs s
  unfolding group_speaker_segments
  group_speaker_segments-IsLimited limits segments report h s i =
      let runs = (split_segments is_space is_alnum fold carry segments).runs in
      let g = group_runs is_space limits runs ungrouped in
      elim (Bool-cases (ltb limits.max_chars 1 || limits.max_duration == 0)) [
        | inl e ↦ let clash = rw e at h in cc
        | inr e ↦
            let same = some_eq (rw e at h) in
            elim (In-reverse_onto s g.grouped [] (rw (← same) at i)) [
              | inl k ↦
                  group_runs-All is_space limits (IsLimited limits runs)
                    (is_within-IsLimited limits runs) runs ungrouped (λ s' i'. inl i')
                    (λ s' i'. absurd i') s k
              | inr k ↦ absurd k
            ]
      ]
