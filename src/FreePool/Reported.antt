-- ===== src/FreePool/Reported.antt =====
-- What the usage service reports for a pool, and the totals that are fetched.
use localplaud.Prelude.{
  ℕ, ◌+◌, ◌≡◌, ◌∙◌, String, Bool, inl, inr, Option, none, some, List, [], ◌∷◌, arith, str_eq,
  Bool-cases, Option-cases, some_eq, if◌then◌else◌,
}
use localplaud.FreePool.Guard.{
  Pool, high, mini, Totals, Count, tokens, malformed_count, UsageResult, Bucket, Answer, not_found,
  failed, page, model_pool, add_both, add_result, add_results, add_buckets, follow, fetch_pages,
  fetch_endpoints, fetch_pool_totals, used_of,
}

-- What the answers report for a pool, up to the last page of each endpoint.
abbrev amount : Count → ℕ
amount (tokens n) = n
amount malformed_count = 0

abbrev in_pool : Pool → Pool → ℕ → ℕ
in_pool high high n = n
in_pool high mini n = 0
in_pool mini high n = 0
in_pool mini mini n = n

module _ (is_mini : String → Bool) where
  abbrev of_result : Pool → UsageResult → ℕ
  of_result p r =
      in_pool p (model_pool is_mini r.model) (amount r.input_tokens + amount r.output_tokens)

  abbrev of_results : Pool → List (Option UsageResult) → ℕ
  of_results p [] = 0
  of_results p (none ∷ rest) = of_results p rest
  of_results p (some r ∷ rest) = of_result p r + of_results p rest

  abbrev of_buckets : Pool → List Bucket → ℕ
  of_buckets p [] = 0
  of_buckets p (none ∷ rest) = of_buckets p rest
  of_buckets p (some results ∷ rest) = of_results p results + of_buckets p rest

  abbrev of_pages : Pool → List Answer → ℕ
  of_pages p [] = 0
  of_pages p (not_found ∷ rest) = 0
  of_pages p (failed ∷ rest) = 0
  of_pages p (page q ∷ rest) = of_buckets p q.buckets + (if q.has_more then of_pages p rest else 0)

  abbrev pub reported : Pool → List (List Answer) → ℕ
  reported p [] = 0
  reported p (answers ∷ rest) = of_pages p answers + reported p rest

  -- A step that adds n tokens to a pool's total.
  abbrev Adds : Pool → ℕ → Totals → Totals → Type 0
  Adds p n t t' = used_of p t' ≡ used_of p t + n

  add_result-Adds :
      (p : Pool) (r : UsageResult) (t t' : Totals)
      → add_result is_mini r t ≡ some t'
      → Adds p (of_result p r) t t'
  unfolding add_result
  add_result-Adds p r t t' h =
      by_counts p (model_pool is_mini r.model) r.input_tokens r.output_tokens h
    where
      by_counts :
          (p q : Pool) (i o : Count)
          → add_both is_mini q i o t ≡ some t'
          → Adds p (in_pool p q (amount i + amount o)) t t'
      by_counts high high (tokens i) (tokens o) h = rw (← some_eq h) (omega arith)
      by_counts high mini (tokens i) (tokens o) h = rw (← some_eq h) (omega arith)
      by_counts mini high (tokens i) (tokens o) h = rw (← some_eq h) (omega arith)
      by_counts mini mini (tokens i) (tokens o) h = rw (← some_eq h) (omega arith)
      by_counts p q (tokens i) malformed_count h = cc
      by_counts p q malformed_count o h = cc

  add_results-Adds :
      (p : Pool) (rs : List (Option UsageResult)) (t t' : Totals)
      → add_results is_mini rs t ≡ some t'
      → Adds p (of_results p rs) t t'
  unfolding add_results
  add_results-Adds p [] t t' h = rw (← some_eq h) (omega arith)
  add_results-Adds p (none ∷ rs) t t' h = cc
  add_results-Adds p (some r ∷ rs) t t' h = elim (Option-cases (add_result is_mini r t)) [
    | inl e ↦ let clash = rw (e, add_results) at h in cc
    | inr (u, e) ↦
        let one = add_result-Adds p r t u e in
        let rest = add_results-Adds p rs u t' (rw (e, add_results) at h) in omega arith
  ]

  add_buckets-Adds :
      (p : Pool) (bs : List Bucket) (t t' : Totals)
      → add_buckets is_mini bs t ≡ some t'
      → Adds p (of_buckets p bs) t t'
  unfolding add_buckets
  add_buckets-Adds p [] t t' h = rw (← some_eq h) (omega arith)
  add_buckets-Adds p (none ∷ bs) t t' h = cc
  add_buckets-Adds p (some rs ∷ bs) t t' h = elim (Option-cases (add_results is_mini rs t)) [
    | inl e ↦ let clash = rw (e, add_buckets) at h in cc
    | inr (u, e) ↦
        let one = add_results-Adds p rs t u e in
        let rest = add_buckets-Adds p bs u t' (rw (e, add_buckets) at h) in omega arith
  ]

  pub followed :
      (name : Option String) (further : Option Totals) (t : Totals)
      → follow is_mini name further ≡ some t
      → further ≡ some t
  followed none further t h = cc
  followed (some name) further t h = elim (Bool-cases (str_eq name "")) [
    | inl e ↦ let clash = rw (e, follow) at h in cc
    | inr e ↦ rw (e, follow) at h
  ]

  fetch_pages-Adds :
      (p : Pool) (answers : List Answer) (t t' : Totals)
      → fetch_pages is_mini answers t ≡ some t'
      → Adds p (of_pages p answers) t t'
  unfolding fetch_pages
  fetch_pages-Adds p [] t t' h = cc
  fetch_pages-Adds p (not_found ∷ rest) t t' h = rw (← some_eq h) (omega arith)
  fetch_pages-Adds p (failed ∷ rest) t t' h = cc
  fetch_pages-Adds p (page q ∷ rest) t t' h =
      elim (Option-cases (add_buckets is_mini q.buckets t)) [
        | inl e ↦ let clash = rw (e, fetch_pages) at h in cc
        | inr (u, e) ↦
            let one = add_buckets-Adds p q.buckets t u e in
            elim (Bool-cases q.has_more) [
              | inr f ↦
                  let same = some_eq (rw (e, f, fetch_pages) at h) in
                  rw (f, ← same) (one ∙ omega arith)
              | inl f ↦
                  let later =
                    followed q.next_page (fetch_pages is_mini rest u) t'
                      (rw (e, f, fetch_pages) at h) in
                  let two = fetch_pages-Adds p rest u t' later in rw f (omega arith)
            ]
      ]

  fetch_endpoints-Adds :
      (p : Pool) (endpoints : List (List Answer)) (t t' : Totals)
      → fetch_endpoints is_mini endpoints t ≡ some t'
      → Adds p (reported p endpoints) t t'
  unfolding fetch_endpoints
  fetch_endpoints-Adds p [] t t' h = rw (← some_eq h) (omega arith)
  fetch_endpoints-Adds p (answers ∷ rest) t t' h =
      elim (Option-cases (fetch_pages is_mini answers t)) [
        | inl e ↦ let clash = rw (e, fetch_endpoints) at h in cc
        | inr (u, e) ↦
            let one = fetch_pages-Adds p answers t u e in
            let two = fetch_endpoints-Adds p rest u t' (rw (e, fetch_endpoints) at h) in omega arith
      ]

  pub fetch_pool_totals-reported :
      (p : Pool) (endpoints : List (List Answer)) (t : Totals)
      → fetch_pool_totals is_mini endpoints ≡ some t
      → used_of p t ≡ reported p endpoints
  unfolding fetch_pool_totals
  fetch_pool_totals-reported high endpoints t h =
      let all = fetch_endpoints-Adds high endpoints _ t h in omega arith
  fetch_pool_totals-reported mini endpoints t h =
      let all = fetch_endpoints-Adds mini endpoints _ t h in omega arith
