-- ===== src/Speakers/Assigned.antt =====
-- Whose turn a span is given to.
use mathlib.Core.Path.{subst}
use localplaud.Prelude.{
  ℕ, ◌≤◌, ◌<◌, ◌≡◌, ◌⊎◌, refl, sym, ap, ◌∙◌, String, true, false, inl, inr, Option, none, some,
  List, [], ◌∷◌, arith, ltb, leb, leb→le, ltb→lt, In, Bool-cases, Option-cases, by_test, some_eq,
}
use localplaud.Speakers.Turns.{
  Turn, overlap, distance, holding, best_overlap, closest, or_closest, speaker_for,
}

-- The largest overlap, and with no overlap at all the smallest distance.
abbrev pub IsBest : ℕ → ℕ → List Turn → Turn → Type 0
IsBest start end turns turn =
    ((t : Turn) → In t turns → overlap start end t ≤ overlap start end turn)
    × (overlap start end turn ≡ 0
        → (t : Turn) → In t turns
        → distance start end turn ≤ distance start end t)

not_more : (a b : ℕ) → ltb a b ≡ false → b ≤ a
not_more a b h = ground arith

less_than : (a b : ℕ) → ltb a b ≡ true → a ≤ b
less_than a b h = ground arith

-- One of them all, and the closest.
abbrev Picks : ℕ → ℕ → Turn → List Turn → Turn → Type 0
Picks start end best turns r =
    ((r ≡ best) ⊎ In r turns)
    × ((distance start end r ≤ distance start end best)
        × ((t : Turn) → In t turns → distance start end r ≤ distance start end t))

Picks-step :
    (start end : ℕ) (best turn next : Turn) (turns : List Turn) (r : Turn)
    → Picks start end next turns r
    → (next ≡ best) ⊎ (next ≡ turn)
    → distance start end next ≤ distance start end best
    → distance start end next ≤ distance start end turn
    → Picks start end best (turn ∷ turns) r
Picks-step start end best turn next turns r (m, (b, all)) from l k = (
  elim m [
    | inr i ↦ inr (inr i)
    | inl e ↦ elim from [ inl f ↦ inl (e ∙ f) | inr f ↦ inr (inl (sym (e ∙ f))) ]
  ],
  (omega arith, λ t i. elim i [ inl e ↦ rw (← e) (omega arith) | inr j ↦ all t j ]),
)

closest-Picks :
    (start end : ℕ) (best : Turn) (turns : List Turn)
    → Picks start end best turns (closest start end best turns)
unfolding closest
closest-Picks start end best [] = (inl refl, (omega arith, λ t i. absurd i))
closest-Picks start end best (turn ∷ turns) =
    by_test {B = Turn} (λ next. Picks start end best (turn ∷ turns) (closest start end next turns))
      (ltb (distance start end turn) (distance start end best))
      (λ t.
        Picks-step start end best turn turn turns _ (closest-Picks start end turn turns) (inr refl)
          (less_than _ _ t) (omega arith))
      (λ f.
        Picks-step start end best turn best turns _ (closest-Picks start end best turns) (inl refl)
          (omega arith) (not_more _ _ f))

-- The best so far is kept, or a turn of these has the largest overlap.
abbrev Finds : ℕ → ℕ → Option String × ℕ → List Turn → Option String × ℕ → Type 0
Finds start end best turns r =
    ((r ≡ best)
      ⊎ ((turn : Turn) × (In turn turns
            × ((r ≡ (some turn.1.1, overlap start end turn)) × (best.1 < overlap start end turn)))))
    × ((best.1 ≤ r.1) × ((t : Turn) → In t turns → overlap start end t ≤ r.1))

Finds-step :
    (start end : ℕ) (best : Option String × ℕ) (turn : Turn) (next : Option String × ℕ)
    (turns : List Turn) (r : Option String × ℕ)
    → Finds start end next turns r
    → (next ≡ best)
      ⊎ ((next ≡ (some turn.1.1, overlap start end turn)) × (best.1 < overlap start end turn))
    → best.1 ≤ next.1
    → overlap start end turn ≤ next.1
    → Finds start end best (turn ∷ turns) r
Finds-step start end best turn next turns r (m, (b, all)) from l k = (
  elim m [
    | inr i ↦ let (t, (j, (e, k'))) = i in inr (t, (inr j, (e, omega arith)))
    | inl e ↦ elim from [
      | inl f ↦ inl (e ∙ f)
      | inr g ↦ let (f, more) = g in inr (turn, (inl refl, (e ∙ f, more)))
    ]
  ],
  (omega arith, λ t i. elim i [ inl e ↦ rw (← e) (omega arith) | inr j ↦ all t j ]),
)

best_overlap-Finds :
    (start end : ℕ) (best : Option String × ℕ) (turns : List Turn)
    → Finds start end best turns (best_overlap start end best turns)
unfolding best_overlap
best_overlap-Finds start end best [] = (inl refl, (omega arith, λ t i. absurd i))
best_overlap-Finds start end best (turn ∷ turns) =
    let here : Option String × ℕ = (some turn.1.1, overlap start end turn) in
    by_test {B = Option String × ℕ}
      (λ next. Finds start end best (turn ∷ turns) (best_overlap start end next turns))
      (ltb best.1 (overlap start end turn))
      (λ t.
        Finds-step start end best turn here turns _ (best_overlap-Finds start end here turns)
          (inr (refl, ltb→lt _ _ t)) (less_than _ _ t) (omega arith))
      (λ f.
        Finds-step start end best turn best turns _ (best_overlap-Finds start end best turns)
          (inl refl) (omega arith) (not_more _ _ f))

abbrev Holds : ℕ → String → List Turn → Type 0
Holds start speaker turns =
    (turn : Turn) × (In turn turns
      × ((turn.1.1 ≡ speaker) × ((turn.0 ≤ start) × (start ≤ turn.1.0))))

holding-Holds :
    (start : ℕ) (turns : List Turn) (speaker : String)
    → holding start turns ≡ some speaker
    → Holds start speaker turns
unfolding holding
holding-Holds start [] speaker h = cc
holding-Holds start ((t_start, (t_end, name)) ∷ turns) speaker h =
    elim (Bool-cases (leb t_start start)) [
      | inr e ↦ later (holding-Holds start turns speaker (rw e at h))
      | inl e ↦ elim (Bool-cases (leb start t_end)) [
        | inr f ↦ later (holding-Holds start turns speaker (rw (e, f) at h))
        | inl f ↦ (
          (t_start, (t_end, name)),
          (inl refl, (some_eq (rw (e, f) at h), (leb→le _ _ e, leb→le _ _ f))),
        )
      ]
    ]
  where
    later : Holds start speaker turns → Holds start speaker ((t_start, (t_end, name)) ∷ turns)
    later (turn, (i, rest)) = (turn, (inr i, rest))

no_overlap : (start end : ℕ) (t : Turn) → end ≤ start → overlap start end t ≡ 0
unfolding overlap
no_overlap start end (t_start, (t_end, name)) h = omega arith

no_distance :
    (start end : ℕ) (t : Turn)
    → start ≤ end
    → end ≤ start
    → t.0 ≤ start
    → start ≤ t.1.0
    → distance start end t ≡ 0
unfolding distance
no_distance start end (t_start, (t_end, name)) l k a b = ground arith

-- The turn behind a name.
abbrev Chosen : ℕ → ℕ → List Turn → String → Type 0
Chosen start end turns name =
    (turn : Turn) × (In turn turns × ((turn.1.1 ≡ name) × IsBest start end turns turn))

by_distance :
    (start end : ℕ) (first : Turn) (rest : List Turn)
    → ((t : Turn) → In t (first ∷ rest) → overlap start end t ≤ 0)
    → Chosen start end (first ∷ rest) (closest start end first rest).1.1
by_distance start end first rest none_of =
    let r = closest start end first rest in
    let (m, (b, all)) = closest-Picks start end first rest in
    (
      r,
      (
        elim m [ inl e ↦ inl (sym e) | inr i ↦ inr i ],
        (
          refl,
          (
            λ t i. let no = none_of t i in omega arith,
            λ z t i. elim i [ inl e ↦ rw (← e) b | inr j ↦ all t j ],
          ),
        ),
      ),
    )

by_overlap :
    (start end : ℕ) (first : Turn) (rest : List Turn)
    → Chosen start end
        (first ∷ rest)
        (or_closest start end first rest (best_overlap start end (none, 0) (first ∷ rest)).0)
by_overlap start end first rest =
    let r = best_overlap start end (none, 0) (first ∷ rest) in
    let (m, (b, all)) = best_overlap-Finds start end (none, 0) (first ∷ rest) in
    elim m [
      | inl e ↦
          subst (λ o. Chosen start end (first ∷ rest) (or_closest start end first rest o))
            (sym (ap (λ p. p.0) e))
            (by_distance start end first rest
              (λ t i. subst (λ n. overlap start end t ≤ n) (ap (λ p. p.1) e) (all t i)))
      | inr g ↦
          let (turn, (i, (e, some_time))) = g in
          subst (λ o. Chosen start end (first ∷ rest) (or_closest start end first rest o))
            (sym (ap (λ p. p.0) e))
            (
              turn,
              (
                i,
                (
                  refl,
                  (
                    λ t j. subst (λ n. overlap start end t ≤ n) (ap (λ p. p.1) e) (all t j),
                    λ z. absurd (omega arith),
                  ),
                ),
              ),
            )
    ]

-- A span that does not end before it starts is given the speaker of some turn of the recording: of
-- one that overlaps the span the most, and where no turn overlaps it of one that is closest to it.
pub speaker_for-IsBest :
    (first : Turn) (rest : List Turn) (start end : ℕ)
    → start ≤ end
    → (turn : Turn) × (In turn (first ∷ rest)
        × ((turn.1.1 ≡ speaker_for first rest start end) × IsBest start end (first ∷ rest) turn))
unfolding speaker_for
speaker_for-IsBest first rest start end l = elim (Bool-cases (leb end start)) [
  | inr e ↦ rw e (by_overlap start end first rest)
  | inl e ↦
      let k = leb→le _ _ e in
      elim (Option-cases (holding start (first ∷ rest))) [
        | inl h ↦ rw (e, h) (by_overlap start end first rest)
        | inr (name, h) ↦
            let (turn, (i, (same, (a, b)))) = holding-Holds start (first ∷ rest) name h in
            rw (e, h)
              (
                turn,
                (
                  i,
                  (
                    same,
                    (
                      λ t j. let flat = no_overlap start end t k in omega arith,
                      λ z t j. let near = no_distance start end turn l k a b in omega arith,
                    ),
                  ),
                ),
              )
      ]
]
