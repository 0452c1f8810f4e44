-- ===== src/Prelude/Members.antt =====
-- Membership in a list with its place kept, and what filters and maps do to it.
use mathlib.Core.Path.{◌≡◌, refl, ap}
use mathlib.Core.Logic.{◌⊎◌, inl, inr}
use mathlib.Core.Bool.{Bool, true}
use mathlib.Core.List.{List, [], ◌∷◌, ◌++◌, map}
use localplaud.Prelude.Tests.{Bool-cases}
use localplaud.Prelude.Lists.{keep}

module _ {A : Type 0} where
  abbrev pub In : A → List A → Type 0
  In a [] = ⊥
  In a (x ∷ xs) = (x ≡ a) ⊎ In a xs

  pub In-keep :
      (test : A → Bool) (a : A) (xs : List A) → In a xs → test a ≡ true → In a (keep test xs)
  In-keep test a [] h t = h
  In-keep test a (x ∷ xs) (inl e) t = rw (rw (← e) at t) (inl e)
  In-keep test a (x ∷ xs) (inr h) t = elim (Bool-cases (test x)) [
    | inl b ↦ rw b (inr (In-keep test a xs h t))
    | inr b ↦ rw b (In-keep test a xs h t)
  ]

  pub In-keep_back :
      (test : A → Bool) (a : A) (xs : List A) → In a (keep test xs) → In a xs × (test a ≡ true)
  In-keep_back test a [] h = absurd h
  In-keep_back test a (x ∷ xs) h = elim (Bool-cases (test x)) [
    | inl b ↦ elim (rw b at h) [
      | inl e ↦ (inl e, rw (← e) b)
      | inr k ↦ let (m, t) = In-keep_back test a xs k in (inr m, t)
    ]
    | inr b ↦ let (m, t) = In-keep_back test a xs (rw b at h) in (inr m, t)
  ]

  pub In-append : (a : A) (xs ys : List A) → In a xs → In a (xs ++ ys)
  In-append a [] ys h = absurd h
  In-append a (x ∷ xs) ys (inl e) = inl e
  In-append a (x ∷ xs) ys (inr h) = inr (In-append a xs ys h)

  pub In-append_right : (a : A) (xs ys : List A) → In a ys → In a (xs ++ ys)
  In-append_right a [] ys h = h
  In-append_right a (x ∷ xs) ys h = inr (In-append_right a xs ys h)

  pub In-append_back : (a : A) (xs ys : List A) → In a (xs ++ ys) → In a xs ⊎ In a ys
  In-append_back a [] ys h = inr h
  In-append_back a (x ∷ xs) ys (inl e) = inl (inl e)
  In-append_back a (x ∷ xs) ys (inr h) = elim (In-append_back a xs ys h) [
    | inl k ↦ inl (inr k)
    | inr k ↦ inr k
  ]

pub In-map : {A B : Type 0} (f : A → B) (a : A) (xs : List A) → In a xs → In (f a) (map f xs)
In-map f a [] h = absurd h
In-map f a (x ∷ xs) (inl e) = inl (ap f e)
In-map f a (x ∷ xs) (inr h) = inr (In-map f a xs h)

pub In-map_back :
    {A B : Type 0} (f : A → B) (b : B) (xs : List A)
    → In b (map f xs)
    → (a : A) × In a xs × (f a ≡ b)
In-map_back f b [] h = absurd h
In-map_back f b (x ∷ xs) (inl e) = (x, inl refl, e)
In-map_back f b (x ∷ xs) (inr h) = let (a, m, e) = In-map_back f b xs h in (a, inr m, e)
