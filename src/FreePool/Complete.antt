-- ===== src/FreePool/Complete.antt =====
-- Totals that are fetched come from answers that are complete and well formed.
use localplaud.Prelude.{
  String, ◌≡◌, refl, Bool, true, false, ◌&&◌, inl, inr, Option, none, some, List, [], ◌∷◌,
  Bool-cases, Option-cases, if◌then◌else◌,
}
use localplaud.FreePool.Guard.{
  Totals, Count, tokens, malformed_count, UsageResult, Bucket, Answer, not_found, failed, page,
  model_pool, add_both, add_result, add_results, add_buckets, fetch_pages, fetch_endpoints,
}
use localplaud.FreePool.Reported.{followed}

abbrev is_count : Count → Bool
is_count (tokens n) = true
is_count malformed_count = false

abbrev good_results : List (Option UsageResult) → Bool
good_results [] = true
good_results (none ∷ rest) = false
good_results (some r ∷ rest) =
    is_count r.input_tokens && (is_count r.output_tokens && good_results rest)

abbrev good_buckets : List Bucket → Bool
good_buckets [] = true
good_buckets (none ∷ rest) = false
good_buckets (some results ∷ rest) = good_results results && good_buckets rest

-- An endpoint's answers go on to its last page, each well formed, or to a 404.
abbrev is_complete : List Answer → Bool
is_complete [] = false
is_complete (not_found ∷ rest) = true
is_complete (failed ∷ rest) = false
is_complete (page q ∷ rest) =
    good_buckets q.buckets && (if q.has_more then is_complete rest else true)

abbrev pub are_complete : List (List Answer) → Bool
are_complete [] = true
are_complete (answers ∷ rest) = is_complete answers && are_complete rest

module _ (is_mini : String → Bool) where
  add_result-good :
      (r : UsageResult) (t t' : Totals)
      → add_result is_mini r t ≡ some t'
      → (is_count r.input_tokens ≡ true) × (is_count r.output_tokens ≡ true)
  unfolding add_result
  add_result-good r t t' h = by_counts r.input_tokens r.output_tokens h
    where
      by_counts :
          (i o : Count)
          → add_both is_mini (model_pool is_mini r.model) i o t ≡ some t'
          → (is_count i ≡ true) × (is_count o ≡ true)
      by_counts (tokens i) (tokens o) h = (refl, refl)
      by_counts (tokens i) malformed_count h = cc
      by_counts malformed_count o h = cc

  add_results-good :
      (rs : List (Option UsageResult)) (t t' : Totals)
      → add_results is_mini rs t ≡ some t'
      → good_results rs ≡ true
  unfolding add_results
  add_results-good [] t t' h = refl
  add_results-good (none ∷ rs) t t' h = cc
  add_results-good (some r ∷ rs) t t' h = elim (Option-cases (add_result is_mini r t)) [
    | inl e ↦ let clash = rw (e, add_results) at h in cc
    | inr (u, e) ↦
        let (i, o) = add_result-good r t u e in
        rw (i, o) (add_results-good rs u t' (rw (e, add_results) at h))
  ]

  add_buckets-good :
      (bs : List Bucket) (t t' : Totals)
      → add_buckets is_mini bs t ≡ some t'
      → good_buckets bs ≡ true
  unfolding add_buckets
  add_buckets-good [] t t' h = refl
  add_buckets-good (none ∷ bs) t t' h = cc
  add_buckets-good (some rs ∷ bs) t t' h = elim (Option-cases (add_results is_mini rs t)) [
    | inl e ↦ let clash = rw (e, add_buckets) at h in cc
    | inr (u, e) ↦
        rw (add_results-good rs t u e) (add_buckets-good bs u t' (rw (e, add_buckets) at h))
  ]

  fetch_pages_complete :
      (answers : List Answer) (t t' : Totals)
      → fetch_pages is_mini answers t ≡ some t'
      → is_complete answers ≡ true
  unfolding fetch_pages
  fetch_pages_complete [] t t' h = cc
  fetch_pages_complete (not_found ∷ rest) t t' h = refl
  fetch_pages_complete (failed ∷ rest) t t' h = cc
  fetch_pages_complete (page q ∷ rest) t t' h =
      elim (Option-cases (add_buckets is_mini q.buckets t)) [
        | inl e ↦ let clash = rw (e, fetch_pages) at h in cc
        | inr (u, e) ↦ elim (Bool-cases q.has_more) [
          | inr f ↦ rw (add_buckets-good q.buckets t u e, f) refl
          | inl f ↦
              let later =
                followed is_mini q.next_page (fetch_pages is_mini rest u) t'
                  (rw (e, f, fetch_pages) at h) in
              rw (add_buckets-good q.buckets t u e, f) (fetch_pages_complete rest u t' later)
        ]
      ]

  pub fetch_endpoints_complete :
      (endpoints : List (List Answer)) (t t' : Totals)
      → fetch_endpoints is_mini endpoints t ≡ some t'
      → are_complete endpoints ≡ true
  unfolding fetch_endpoints
  fetch_endpoints_complete [] t t' h = refl
  fetch_endpoints_complete (answers ∷ rest) t t' h =
      elim (Option-cases (fetch_pages is_mini answers t)) [
        | inl e ↦ let clash = rw (e, fetch_endpoints) at h in cc
        | inr (u, e) ↦
            rw (fetch_pages_complete answers t u e)
              (fetch_endpoints_complete rest u t' (rw (e, fetch_endpoints) at h))
      ]
