-- ===== src/Prelude/Table.antt =====
-- A database table as a list of rows with a primary key of text: lookups, the commit of a row, and
-- a second unique column.
use mathlib.Core.Path.{◌≡◌, refl, sym, ap, ◌∙◌, subst}
use mathlib.Core.Bool.{Bool, true, false}
use mathlib.Core.Logic.{inl, inr}
use mathlib.Core.Option.{Option, none, some}
use mathlib.Core.List.{List, [], ◌∷◌, ◌++◌, map}
use native.Mathlib.Omega.{arith}
use Prim.Native.String.{String}
use text.Mathlib.Text.{◌==◌ as str_eq}
use text.Mathlib.TextEquality.{eq_iff}
use text.Mathlib.TextPositions.{eq_refl}
use localplaud.Prelude.Tests.{if◌then◌else◌, Bool-cases, by_test}
use localplaud.Prelude.Lists.{All, any, keep}

pub some_eq {ℓ} : {A : Type ℓ} {a b : A} → some a ≡ some b → a ≡ b
some_eq h = cc

module _ {ℓ} {A : Type ℓ} (key : A → String) where
  -- session.get(Row, id), or a select by a unique column
  unfoldable pub find : String → List A → Option A
  find k [] = none
  find k (row ∷ l) = if str_eq (key row) k then some row else find k l

  -- the commit of one changed row
  unfoldable pub put : A → List A → List A
  put new [] = []
  put new (row ∷ l) = if str_eq (key row) (key new) then new ∷ l else row ∷ put new l

  -- The column is unique.
  abbrev pub HasUnique : List A → Type ℓ
  HasUnique [] = Unit
  HasUnique (row ∷ l) = (find (key row) l ≡ none) × HasUnique l

  pub find-key : (k : String) (l : List A) (row : A) → find k l ≡ some row → key row ≡ k
  unfolding find
  find-key k [] row e = cc
  find-key k (first ∷ l) row e = elim (Bool-cases (str_eq (key first) k)) [
    | inl b ↦ subst (λ r. key r ≡ k) (some_eq (rw b at e)) ((eq_iff (key first) k).0 b)
    | inr b ↦ find-key k l row (rw b at e)
  ]

  pub find-put :
      (k : String) (new : A) (l : List A) (old : A)
      → find (key new) l ≡ some old
      → find k (put new l) ≡ (if str_eq (key new) k then some new else find k l)
  unfolding find put
  find-put k new [] old e = cc
  find-put k new (row ∷ l) old e = ground (
    arith,
    find-put k new l old,
    eq_iff (key row) (key new),
    eq_iff (key row) k,
    eq_iff (key new) k,
  )

module _ {ℓ κ} {A : Type ℓ} (key : A → String) (P : A → Type κ) where
  pub All-put : (new : A) (l : List A) → P new → All P l → All P (put key new l)
  unfolding put
  All-put new [] p h = tt
  All-put new (row ∷ l) p h = elim (Bool-cases (str_eq (key row) (key new))) [
    | inl e ↦ rw e (p, h.1)
    | inr e ↦ rw e (h.0, All-put new l p h.1)
  ]

  pub All-find : (k : String) (l : List A) (row : A) → find key k l ≡ some row → All P l → P row
  unfolding find
  All-find k [] row e h = cc
  All-find k (first ∷ l) row e h = elim (Bool-cases (str_eq (key first) k)) [
    | inl b ↦ subst P (some_eq (rw b at e)) h.0
    | inr b ↦ All-find k l row (rw b at e) h.1
  ]

module _ {ℓ} {A : Type ℓ} (key other : A → String) where
  -- A commit that keeps a second column changes no lookup by it that finds nothing.
  find-put-none :
      (k : String) (new : A) (l : List A) (old : A)
      → find key (key new) l ≡ some old
      → other old ≡ other new
      → find other k l ≡ none
      → find other k (put key new l) ≡ none
  unfolding find put
  find-put-none k new [] old e same h = refl
  find-put-none k new (row ∷ l) old e same h = elim (Bool-cases (str_eq (key row) (key new))) [
    | inl b ↦ rw b (
        ground (
          arith,
          some_eq {a = row} {b = old} (rw b at e),
          eq_iff (other row) k,
          eq_iff (other new) k,
        ))
    | inr b ↦ rw b (ground (arith, find-put-none k new l old (rw b at e)))
  ]

  pub HasUnique-put :
      (new : A) (l : List A) (old : A)
      → find key (key new) l ≡ some old
      → other old ≡ other new
      → HasUnique other l
      → HasUnique other (put key new l)
  unfolding find put
  HasUnique-put new [] old e same h = tt
  HasUnique-put new (row ∷ l) old e same h = elim (Bool-cases (str_eq (key row) (key new))) [
    | inl b ↦ rw b (
      subst (λ c. find other c l ≡ none) (ap other (some_eq {a = row} {b = old} (rw b at e)) ∙ same)
          h.0,
      h.1,
    )
    | inr b ↦ rw b (
      find-put-none (other row) new l old (rw b at e) same h.0,
      HasUnique-put new l old (rw b at e) same h.1,
    )
  ]

  -- A row that one unique column finds is found by the other.
  pub find-other :
      (k : String) (l : List A) (row : A)
      → find other k l ≡ some row
      → HasUnique key l
      → find key (key row) l ≡ some row
  unfolding find
  find-other k [] row e u = cc
  find-other k (first ∷ l) row e u = elim (Bool-cases (str_eq (other first) k)) [
    | inl b ↦
        subst (λ r. find key (key r) (first ∷ l) ≡ some r) (some_eq (rw b at e))
          (rw (eq_refl (key first)))
    | inr b ↦ ground (
      arith,
      find-other k l row (rw b at e) u.1,
      u.0,
      eq_iff (key first) (key row),
      ap (λ c. find key c l) {x = key first} {y = key row},
    )
  ]

  -- The commit of a changed row is seen through the other unique column too.
  pub find-put_other :
      (k : String) (new : A) (l : List A) (old : A)
      → find other k l ≡ some old
      → key new ≡ key old
      → other new ≡ other old
      → HasUnique key l
      → find other k (put key new l) ≡ some new
  unfolding find put
  find-put_other k new [] old e same kept u = cc
  find-put_other k new (first ∷ l) old e same kept u = elim (Bool-cases (str_eq (other first) k)) [
    | inl b ↦ ground (
      arith,
      some_eq {a = first} {b = old} (rw b at e),
      eq_iff (key first) (key new),
      eq_iff (other first) k,
      eq_iff (other new) k,
    )
    | inr b ↦ ground (
      arith,
      find-put_other k new l old (rw b at e) same kept u.1,
      find-other k l old (rw b at e) u.1,
      u.0,
      eq_iff (key first) (key new),
      ap (λ c. find key c l) {x = key first} {y = key old},
    )
  ]

module _ {ℓ} {A : Type ℓ} (key : A → String) where
  pub find-some-append :
      (k : String) (l more : List A) (row : A)
      → find key k l ≡ some row
      → find key k (l ++ more) ≡ some row
  unfolding find
  find-some-append k [] more row h = cc
  find-some-append k (first ∷ l) more row h = ground (arith, find-some-append k l more row)

  find-none-append :
      (k : String) (l : List A) (new : A)
      → find key k l ≡ none
      → str_eq (key new) k ≡ false
      → find key k (l ++ new ∷ []) ≡ none
  unfolding find
  find-none-append k [] new h n = rw n
  find-none-append k (row ∷ l) new h n = ground (arith, find-none-append k l new)

  pub find-new-append :
      (k : String) (l : List A) (new : A)
      → find key k l ≡ none
      → str_eq (key new) k ≡ true
      → find key k (l ++ new ∷ []) ≡ some new
  unfolding find
  find-new-append k [] new h same = rw same
  find-new-append k (row ∷ l) new h same = ground (arith, find-new-append k l new)

  -- A new row at the end, under a value that no row has.
  pub HasUnique-append :
      (l : List A) (new : A)
      → find key (key new) l ≡ none
      → HasUnique key l
      → HasUnique key (l ++ new ∷ [])
  unfolding find
  HasUnique-append [] new h u = (refl, tt)
  HasUnique-append (row ∷ l) new h u = (
    find-none-append (key row) l new u.0
        (ground (arith, eq_iff (key row) (key new), eq_iff (key new) (key row))),
    HasUnique-append l new (ground arith) u.1,
  )

  -- The keys that `select(Row.id).where(test)` reads.
  pub any-keep :
      (k : String) (test : A → Bool) (l : List A) (row : A)
      → find key k l ≡ some row
      → test row ≡ true
      → any (λ c. str_eq c k) (map key (keep test l)) ≡ true
  unfolding find
  any-keep k test [] row e h = cc
  any-keep k test (first ∷ l) row e h = elim (Bool-cases (str_eq (key first) k)) [
    | inl b ↦ rw (subst (λ r. test r ≡ true) (sym (some_eq (rw b at e))) h) (rw b)
    | inr b ↦
        by_test (λ ks. any (λ c. str_eq c k) (map key ks) ≡ true) (test first)
          (λ _. rw b (any-keep k test l row (rw b at e) h))
          (λ _. any-keep k test l row (rw b at e) h)
  ]

  -- A looked-up row that passes a test is one that passes it.
  pub find-hit_any :
      (k : String) (test : A → Bool) (l : List A) (row : A)
      → find key k l ≡ some row
      → test row ≡ true
      → any test l ≡ true
  unfolding find
  find-hit_any k test [] row e h = cc
  find-hit_any k test (first ∷ l) row e h = elim (Bool-cases (str_eq (key first) k)) [
    | inl b ↦ rw (subst (λ r. test r ≡ true) (sym (some_eq (rw b at e))) h)
    | inr b ↦ elim (Bool-cases (test first)) [
      | inl t ↦ rw t refl
      | inr t ↦ rw t (find-hit_any k test l row (rw b at e) h)
    ]
  ]
