-- ===== src/Speakers/Text.antt =====
-- The text side of worker/diarize.py. A text is the list of its code points; the Unicode tests and the
-- case folding are parameters.
use localplaud.Prelude.{
  ℕ, zero, suc, ◌-◌, Bool, true, false, ◌&&◌, ◌||◌, List, [], ◌∷◌, ◌++◌, leb, ◌==◌, any, take,
  if◌then◌else◌,
}

abbrev pub Text : Type 0
Text = List ℕ

unfoldable pub is_cjk : ℕ → Bool
is_cjk c = leb 13312 c && leb c 19903 || (leb 19968 c && leb c 40959 || leb 63744 c && leb c 64255)

abbrev pub is_in : Text → ℕ → Bool
is_in chars c = any (λ d. c == d) chars

-- str.startswith
unfoldable pub starts_with : Text → Text → Bool
starts_with text [] = true
starts_with [] (p ∷ ps) = false
starts_with (c ∷ cs) (p ∷ ps) = c == p && starts_with cs ps

unfoldable pub same_text : Text → Text → Bool
same_text [] [] = true
same_text (a ∷ as') (b ∷ bs) = a == b && same_text as' bs
same_text _ _ = false

abbrev pub drop {ℓ} : {A : Type ℓ} → ℕ → List A → List A
drop zero xs = xs
drop (suc n) [] = []
drop (suc n) (x ∷ xs) = drop n xs

-- xs[first:last]
abbrev pub slice {ℓ} : {A : Type ℓ} → ℕ → ℕ → List A → List A
slice first last xs = take (last - first) (drop first xs)

abbrev pub reverse_onto {ℓ} : {A : Type ℓ} → List A → List A → List A
reverse_onto [] done = done
reverse_onto (x ∷ xs) done = reverse_onto xs (x ∷ done)

abbrev pub reverse {ℓ} : {A : Type ℓ} → List A → List A
reverse xs = reverse_onto xs []

-- _CLAUSE_MARKS
abbrev pub clause_marks : Text
clause_marks =
    65292 ∷ 12290 ∷ 65281 ∷ 65311 ∷ 65307 ∷ 65306 ∷ 12289 ∷ 8230 ∷ 44 ∷ 46 ∷ 33 ∷ 63 ∷ 59 ∷ 58 ∷ []

-- _OPENING_MARKS
abbrev pub opening_marks : Text
opening_marks = 40 ∷ 91 ∷ 123 ∷ 12300 ∷ 12302 ∷ 12304 ∷ 12298 ∷ 65288 ∷ 8220 ∷ 8216 ∷ []

abbrev pub closing : Text
closing =
    44 ∷ 46 ∷ 59 ∷ 58 ∷ 33 ∷ 63 ∷ 37 ∷ 41 ∷ 93 ∷ 125 ∷ 65292 ∷ 12290 ∷ 65281 ∷ 65311 ∷ 12289 ∷ 65307
    ∷ 65306 ∷ 12301 ∷ 12303 ∷ 12305 ∷ 65289 ∷ 12299 ∷ 8230 ∷ []

abbrev pub joining : Text
joining = 40 ∷ 91 ∷ 123 ∷ 12300 ∷ 12302 ∷ 12304 ∷ 12298 ∷ 65288 ∷ 45 ∷ 47 ∷ 39 ∷ []

abbrev pub inner : Text
inner = 45 ∷ 47 ∷ 39 ∷ []

abbrev pub wide_marks : Text
wide_marks =
    65292 ∷ 12290 ∷ 65281 ∷ 65311 ∷ 12289 ∷ 65307 ∷ 65306 ∷ 12301 ∷ 12303 ∷ 12305 ∷ 65289 ∷ 12299
    ∷ 8230 ∷ []

module _ (is_space : ℕ → Bool) where
  unfoldable pub lstrip : Text → Text
  lstrip [] = []
  lstrip (c ∷ cs) = let rest = lstrip cs in if is_space c then rest else c ∷ cs

  unfoldable pub rstrip : Text → Text
  rstrip text = reverse (lstrip (reverse text))

  unfoldable pub strip : Text → Text
  strip text = lstrip (rstrip text)

-- The tests of _join_text on the last character of the one and the first of the other.
abbrev pub is_joined : ℕ → ℕ → Bool
is_joined l r =
    is_in closing r
    || (is_in joining l
        || (is_in inner r || (is_cjk l && is_cjk r || is_in wide_marks l && is_cjk r)))

-- left and right, stripped: a space between them unless the two join.
abbrev pub joined_text : Text → Text → Text
joined_text left [] = left
joined_text left (r ∷ right) = elim (reverse left) [
  | [] ↦ r ∷ right
  | l ∷ _ ↦ if is_joined l r then left ++ r ∷ right else left ++ 32 ∷ r ∷ right
]

unfoldable pub join_text : (is_space : ℕ → Bool) → Text → Text → Text
join_text is_space left right = joined_text (rstrip is_space left) (lstrip is_space right)
