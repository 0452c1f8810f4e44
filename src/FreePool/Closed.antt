-- ===== src/FreePool/Closed.antt =====
-- The guard fails closed: what it lets through was verified.
use mathlib.Core.Path.{subst}
use localplaud.Prelude.{
  ℕ, ◌+◌, ◌-◌, ◌*◌, ◌≤◌, ◌<◌, ◌≡◌, ◌⊎◌, refl, sym, ap, ◌∙◌, String, Bool, true, false, not, inl,
  inr, Option, none, some, List, [], ◌∷◌, arith, ltb, ltb→lt, str_eq, eq_iff, Bool-cases,
  Option-cases, some_eq, In, by_test,
}
use localplaud.FreePool.Guard.{
  Pool, Totals, Answer, model_pool, fetch_pool_totals, Cached, lookup, is_recent, recent,
  Surroundings, pool_totals, Budget, used_of, limit_of, is_over, assert_openai_free_pool,
}
use localplaud.FreePool.Reported.{reported, fetch_pool_totals-reported}
use localplaud.FreePool.Complete.{are_complete, fetch_endpoints_complete}

-- A call of the guard.
pub record GuardCall : Type 0 where
  pub budget : Budget
  pub model : String
  pub projected : ℕ
  pub around : Surroundings

within : (a b : ℕ) → not (ltb a b) ≡ true → b ≤ a
within a b h = ground arith

module _ (is_mini : String → Bool) where
  -- The ways that the totals come about: blocked, from the cache, or fetched.
  by_totals :
      (P : Option Totals × List Cached → Type 0) (s : Surroundings) (cache : List Cached)
      → P (none, cache)
      → ((key : String) (t : Totals)
          → s.cache_key ≡ some key
          → recent s.now (lookup key cache) ≡ some t
          → P (some t, cache))
      → ((key : String) (t : Totals)
          → s.cache_key ≡ some key
          → fetch_pool_totals is_mini s.answers ≡ some t
          → P (some t, record { key = key; fetched_at = s.later; totals = t } ∷ cache))
      → P (pool_totals is_mini s cache)
  unfolding pool_totals
  by_totals P s cache blocked old new = elim (Option-cases s.admin_key) [
    | inl a ↦ rw (a, pool_totals) blocked
    | inr (admin, a) ↦ elim (Option-cases s.cache_key) [
      | inl k ↦ rw (a, k, pool_totals) blocked
      | inr (key, k) ↦ elim (Option-cases (recent s.now (lookup key cache))) [
        | inr (t, r) ↦ rw (a, k, r, pool_totals) (old key t k r)
        | inl r ↦ elim (Option-cases (fetch_pool_totals is_mini s.answers)) [
          | inl f ↦ rw (a, k, r, f, pool_totals) blocked
          | inr (t, f) ↦ rw (a, k, r, f, pool_totals) (new key t k f)
        ]
      ]
    ]
  ]

  -- The ways of an answer: disabled, held against totals, or blocked.
  by_answer :
      (P : Bool × List Cached → Type 0) (b : Budget) (model : String) (projected : ℕ)
      (s : Surroundings) (cache : List Cached)
      → P (true, cache)
      → ((t : Totals)
          → (pool_totals is_mini s cache).0 ≡ some t
          → P (
            not (is_over b (model_pool is_mini model) projected t),
            (pool_totals is_mini s cache).1,
          ))
      → P (false, (pool_totals is_mini s cache).1)
      → P (assert_openai_free_pool is_mini b model projected s cache)
  unfolding assert_openai_free_pool
  by_answer P b model projected s cache off held blocked =
      by_test P (not b.enabled) (λ t. off)
        (λ f. elim (Option-cases (pool_totals is_mini s cache).0) [
          | inl e ↦ rw e blocked
          | inr (t, e) ↦ rw e (held t e)
        ])

  passed :
      (b : Budget) (model : String) (projected : ℕ) (s : Surroundings) (cache : List Cached)
      (V : Totals → Type 0)
      → ((t : Totals) → (pool_totals is_mini s cache).0 ≡ some t → V t)
      → b.enabled ≡ true
      → (assert_openai_free_pool is_mini b model projected s cache).0 ≡ true
      → (t : Totals) × (V t
          × ((used_of (model_pool is_mini model) t + projected) * b.scale
              ≤ limit_of (model_pool is_mini model) b * (b.scale - b.margin)))
  unfolding assert_openai_free_pool is_over
  passed b model projected s cache V v on h = elim (Option-cases (pool_totals is_mini s cache).0) [
    | inl e ↦ let clash = rw (on, e, assert_openai_free_pool) at h in cc
    | inr (t, e) ↦ (t, (v t e, within _ _ (rw (on, e, assert_openai_free_pool, is_over) at h)))
  ]

module _ (is_mini : String → Bool) where
  abbrev pub answer_to : GuardCall → List Cached → Bool × List Cached
  answer_to c cache = assert_openai_free_pool is_mini c.budget c.model c.projected c.around cache

  -- The cache after calls, of which the last comes first, from an empty one.
  abbrev pub cache_after : List GuardCall → List Cached
  cache_after [] = []
  cache_after (c ∷ earlier) = (answer_to c (cache_after earlier)).1

  -- Totals are what complete answers report for each pool, on all pages of all endpoints.
  abbrev pub IsReported : List (List Answer) → Totals → Type 0
  IsReported answers t =
      (are_complete answers ≡ true) × ((p : Pool) → used_of p t ≡ reported is_mini p answers)

  -- An earlier call fetched these totals at a time, under a key.
  abbrev pub IsFetched : List GuardCall → Option String → ℕ → Totals → Type 0
  IsFetched earlier key at t =
      (c : GuardCall) × (In c earlier
        × ((c.around.cache_key ≡ key) × ((c.around.later ≡ at) × IsReported c.around.answers t)))

  -- Every entry that the cache has was fetched.
  abbrev IsKept : List GuardCall → List Cached → Type 0
  IsKept earlier cache =
      (key : String) (entry : Cached)
      → lookup key cache ≡ some entry
      → IsFetched earlier (some key) entry.fetched_at entry.totals

  fetched-IsReported :
      (answers : List (List Answer)) (t : Totals)
      → fetch_pool_totals is_mini answers ≡ some t
      → IsReported answers t
  unfolding fetch_pool_totals
  fetched-IsReported answers t h = (
    fetch_endpoints_complete is_mini answers _ t h,
    λ p. fetch_pool_totals-reported is_mini p answers t h,
  )

  later-IsKept :
      (c : GuardCall) (earlier : List GuardCall) (cache : List Cached)
      → IsKept earlier cache
      → IsKept (c ∷ earlier) cache
  later-IsKept c earlier cache h key entry e =
      let (d, (i, rest)) = h key entry e in (d, (inr i, rest))

  added-IsKept :
      (c : GuardCall) (earlier : List GuardCall) (cache : List Cached) (key : String) (t : Totals)
      → IsKept earlier cache
      → c.around.cache_key ≡ some key
      → fetch_pool_totals is_mini c.around.answers ≡ some t
      → IsKept (c ∷ earlier) (record { key = key; fetched_at = c.around.later; totals = t } ∷ cache)
  unfolding lookup
  added-IsKept c earlier cache key t h k f asked entry e = elim (Bool-cases (str_eq key asked)) [
    | inl same ↦
        let is_entry = some_eq (rw (same, lookup) at e) in
        rw (← is_entry) (
          c,
          (
            inl refl,
            (
              k ∙ ap some ((eq_iff key asked).0 same),
              (refl, fetched-IsReported c.around.answers t f),
            ),
          ),
        )
    | inr other ↦ later-IsKept c earlier cache h asked entry (rw (other, lookup) at e)
  ]

  totals-IsKept :
      (c : GuardCall) (earlier : List GuardCall) (cache : List Cached)
      → IsKept earlier cache
      → IsKept (c ∷ earlier) (pool_totals is_mini c.around cache).1
  totals-IsKept c earlier cache h =
      by_totals is_mini (λ out. IsKept (c ∷ earlier) out.1) c.around cache
        (later-IsKept c earlier cache h) (λ key t k r. later-IsKept c earlier cache h)
        (λ key t k f. added-IsKept c earlier cache key t h k f)

  answer-IsKept :
      (c : GuardCall) (earlier : List GuardCall) (cache : List Cached)
      → IsKept earlier cache
      → IsKept (c ∷ earlier) (answer_to c cache).1
  answer-IsKept c earlier cache h =
      by_answer is_mini (λ out. IsKept (c ∷ earlier) out.1) c.budget c.model c.projected c.around
        cache (later-IsKept c earlier cache h) (λ t e. totals-IsKept c earlier cache h)
        (totals-IsKept c earlier cache h)

  cache_after-IsKept : (calls : List GuardCall) → IsKept calls (cache_after calls)
  unfolding lookup
  cache_after-IsKept [] = λ key entry e. cc
  cache_after-IsKept (c ∷ earlier) =
      answer-IsKept c earlier (cache_after earlier) (cache_after-IsKept earlier)

  -- Totals that were fetched for this call, or by an earlier one less than a minute before, under
  -- the same key.
  abbrev pub IsVerified : Surroundings → List GuardCall → Totals → Type 0
  IsVerified s earlier t =
      IsReported s.answers t
      ⊎ ((at : ℕ) × (IsFetched earlier s.cache_key at t × (s.now < at + 60000)))

  recent-IsVerified :
      (s : Surroundings) (earlier : List GuardCall) (cache : List Cached) (key : String)
      (t : Totals)
      → IsKept earlier cache
      → s.cache_key ≡ some key
      → recent s.now (lookup key cache) ≡ some t
      → IsVerified s earlier t
  unfolding is_recent
  recent-IsVerified s earlier cache key t h k r = elim (Option-cases (lookup key cache)) [
    | inl e ↦ let clash = rw e at r in cc
    | inr (entry, e) ↦ elim (Bool-cases (ltb s.now (entry.fetched_at + 60000))) [
      | inl b ↦
          let same : entry.totals ≡ t = some_eq (rw (e, is_recent, b, recent) at r) in
          inr (
            entry.fetched_at,
            (
              subst (λ o. IsFetched earlier o entry.fetched_at t) (sym k)
                  (subst (λ u. IsFetched earlier (some key) entry.fetched_at u) same
                    (h key entry e)),
              ltb→lt _ _ b,
            ),
          )
      | inr b ↦ let clash = rw (e, is_recent, b, recent) at r in cc
    ]
  ]

  pool_totals-IsVerified :
      (s : Surroundings) (earlier : List GuardCall) (cache : List Cached)
      → IsKept earlier cache
      → (t : Totals) → (pool_totals is_mini s cache).0 ≡ some t
      → IsVerified s earlier t
  pool_totals-IsVerified s earlier cache h =
      by_totals is_mini (λ out. (t : Totals) → out.0 ≡ some t → IsVerified s earlier t) s cache
        (λ t e. cc)
        (λ key old k r t e.
          subst (IsVerified s earlier) (some_eq e)
            (recent-IsVerified s earlier cache key old h k r))
        (λ key new k f t e.
          subst (IsVerified s earlier) (some_eq e) (inl (fetched-IsReported s.answers new f)))

  -- After any calls of the guard, from an empty cache, a call that the enabled guard lets through was
  -- verified: the totals that it was held against are what complete and well-formed answers report
  -- for each pool on all pages of all endpoints, answers to a fetch of this call, or of one of those
  -- before under the same key that was over less than a minute ago; and with the tokens projected for
  -- the call the pool of its model stays within the limit less its margin.
  pub assert_openai_free_pool-IsVerified :
      (earlier : List GuardCall) (c : GuardCall)
      → c.budget.enabled ≡ true
      → (answer_to c (cache_after earlier)).0 ≡ true
      → (t : Totals) × (IsVerified c.around earlier t
          × ((used_of (model_pool is_mini c.model) t + c.projected) * c.budget.scale
              ≤ limit_of (model_pool is_mini c.model) c.budget
                * (c.budget.scale - c.budget.margin)))
  assert_openai_free_pool-IsVerified earlier c on h =
      passed is_mini c.budget c.model c.projected c.around (cache_after earlier)
        (IsVerified c.around earlier)
        (pool_totals-IsVerified c.around earlier (cache_after earlier) (cache_after-IsKept earlier))
        on h
