-- ===== src/FreePool/Examples.antt =====
-- The guard on two endpoints' answers.
use localplaud.Prelude.{
  ◌+◌, ◌-◌, ◌*◌, ◌≤◌, ◌≡◌, refl, String, Bool, true, false, none, some, List, [], ◌∷◌, str_eq,
}
use localplaud.FreePool.Guard.{
  Totals, tokens, malformed_count, UsageResult, Answer, page, not_found, Surroundings, Budget,
  used_of, limit_of, model_pool, add_result, add_results, add_buckets, fetch_pages, fetch_endpoints,
  fetch_pool_totals, lookup, is_recent, pool_totals, is_over, assert_openai_free_pool,
}
use localplaud.FreePool.Closed.{
  GuardCall, answer_to, cache_after, IsVerified, assert_openai_free_pool-IsVerified,
}

abbrev small : String → Bool
small model = str_eq model "small"

abbrev usage : UsageResult
usage = record { model = "small"; input_tokens = tokens 70; output_tokens = tokens 10 }

abbrev last_page : UsageResult → Answer
last_page r =
    page (record { buckets = some (some r ∷ []) ∷ []; has_more = false; next_page = none })

abbrev today : List Answer → Surroundings
today answers = record {
  admin_key = some "admin";
  cache_key = some "today";
  now = 1000;
  later = 1200;
  answers = answers ∷ (not_found ∷ []) ∷ [];
}

abbrev half_margin : Budget
half_margin = record { enabled = true; high_limit = 0; mini_limit = 200; margin = 5; scale = 10 }

fits :
    (assert_openai_free_pool small half_margin "small" 20 (today (last_page usage ∷ [])) []).0
    ≡ true
unfolding assert_openai_free_pool is_over pool_totals lookup fetch_pool_totals fetch_endpoints
    fetch_pages add_buckets add_results add_result model_pool
fits = refl

-- One token more is over, and a malformed count refuses everything.
over :
    (assert_openai_free_pool small half_margin "small" 21 (today (last_page usage ∷ [])) []).0
    ≡ false
unfolding assert_openai_free_pool is_over pool_totals lookup fetch_pool_totals fetch_endpoints
    fetch_pages add_buckets add_results add_result model_pool
over = refl

malformed-refused :
    (assert_openai_free_pool small half_margin "small" 0
      (today (last_page (record usage { output_tokens = malformed_count }) ∷ []))
      []).0
    ≡ false
unfolding assert_openai_free_pool is_over pool_totals lookup fetch_pool_totals fetch_endpoints
    fetch_pages add_buckets add_results add_result model_pool
malformed-refused = refl

-- The same call, and one a second later that its fetch serves.
abbrev first_call : GuardCall
first_call = record {
  budget = half_margin;
  model = "small";
  projected = 20;
  around = today (last_page usage ∷ []);
}

abbrev next_call : GuardCall
next_call = record first_call { around = record (today []) { now = 2000 } }

served : (answer_to small next_call (cache_after small (first_call ∷ []))).0 ≡ true
unfolding assert_openai_free_pool is_over pool_totals lookup fetch_pool_totals fetch_endpoints
    fetch_pages add_buckets add_results add_result model_pool is_recent
served = refl

assert_openai_free_pool-IsVerified_example :
    (t : Totals) × (IsVerified small next_call.around (first_call ∷ []) t
      × ((used_of (model_pool small "small") t + 20) * 10
          ≤ limit_of (model_pool small "small") half_margin * (10 - 5)))
assert_openai_free_pool-IsVerified_example =
    assert_openai_free_pool-IsVerified small (first_call ∷ []) next_call refl served
