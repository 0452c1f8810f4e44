-- ===== src/FreePool/Guard.antt =====
-- openai_budget.py. What the usage service answers, page by page, is an argument, and so are the
-- matching of model names by fnmatch, the clock, the key of the cache and the administration key.
use localplaud.Prelude.{
  ℕ, ◌+◌, ◌-◌, ◌*◌, String, Bool, true, false, not, Option, none, some, List, [], ◌∷◌, ltb, str_eq,
  if◌then◌else◌,
}

pub data Pool : Type 0 where
  high mini : Pool

pub record Totals : Type 0 where
  pub high_tokens : ℕ
  pub mini_tokens : ℕ

-- A token count in an answer: a natural number, which a missing one is too, or anything else.
pub data Count : Type 0 where
  tokens : (amount : ℕ) → Count
  malformed_count : Count

pub record UsageResult : Type 0 where
  pub model : String
  pub input_tokens : Count
  pub output_tokens : Count

-- What is not an object or a list where one has to be is none.
abbrev pub Bucket : Type 0
Bucket = Option (List (Option UsageResult))

pub record Page : Type 0 where
  pub buckets : List Bucket
  pub has_more : Bool
  pub next_page : Option String

-- An answer: 404, a page, or an error of the transport, of its status or of its shape.
pub data Answer : Type 0 where
  not_found failed : Answer
  page : (payload : Page) → Answer

module _ (is_mini : String → Bool) where
  unfoldable pub model_pool : String → Pool
  model_pool model = if is_mini model then mini else high

  abbrev pub added : Pool → ℕ → Totals → Totals
  added high n t = record t { high_tokens = t.high_tokens + n }
  added mini n t = record t { mini_tokens = t.mini_tokens + n }

  abbrev pub add_count : Pool → Count → Totals → Option Totals
  add_count pool (tokens n) t = some (added pool n t)
  add_count pool malformed_count t = none

  abbrev pub add_both : Pool → Count → Count → Totals → Option Totals
  add_both pool (tokens n) output t = add_count pool output (added pool n t)
  add_both pool malformed_count output t = none

  unfoldable pub add_result : UsageResult → Totals → Option Totals
  add_result r t = add_both (model_pool r.model) r.input_tokens r.output_tokens t

  unfoldable pub add_results : List (Option UsageResult) → Totals → Option Totals
  add_results [] t = some t
  add_results (none ∷ rest) t = none
  add_results (some r ∷ rest) t = elim (add_result r t) [
    | none ↦ none
    | some t' ↦ add_results rest t'
  ]

  unfoldable pub add_buckets : List Bucket → Totals → Option Totals
  add_buckets [] t = some t
  add_buckets (none ∷ rest) t = none
  add_buckets (some results ∷ rest) t = elim (add_results results t) [
    | none ↦ none
    | some t' ↦ add_buckets rest t'
  ]

  -- A further page has a name.
  abbrev pub follow : Option String → Option Totals → Option Totals
  follow none further = none
  follow (some name) further = if str_eq name "" then none else further

  -- The loop over an endpoint's pages; where the answers end early, the request fails.
  unfoldable pub fetch_pages : List Answer → Totals → Option Totals
  fetch_pages [] t = none
  fetch_pages (not_found ∷ rest) t = some t
  fetch_pages (failed ∷ rest) t = none
  fetch_pages (page p ∷ rest) t = elim (add_buckets p.buckets t) [
    | none ↦ none
    | some t' ↦
        let further = fetch_pages rest t' in
        if not p.has_more then some t' else follow p.next_page further
  ]

  -- The three endpoints, each with its answers.
  unfoldable pub fetch_endpoints : List (List Answer) → Totals → Option Totals
  fetch_endpoints [] t = some t
  fetch_endpoints (answers ∷ rest) t = elim (fetch_pages answers t) [
    | none ↦ none
    | some t' ↦ fetch_endpoints rest t'
  ]

  unfoldable pub fetch_pool_totals : List (List Answer) → Option Totals
  fetch_pool_totals endpoints =
      fetch_endpoints endpoints (record { high_tokens = 0; mini_tokens = 0 })

-- The cache: the key, the time of the fetch in milliseconds and the totals.
pub record Cached : Type 0 where
  pub key : String
  pub fetched_at : ℕ
  pub totals : Totals

unfoldable pub lookup : String → List Cached → Option Cached
lookup key [] = none
lookup key (entry ∷ rest) =
    let later = lookup key rest in if str_eq entry.key key then some entry else later

-- An entry is used for less than sixty seconds.
unfoldable pub is_recent : ℕ → Cached → Bool
is_recent now entry = ltb now (entry.fetched_at + 60000)

abbrev pub recent : ℕ → Option Cached → Option Totals
recent now none = none
recent now (some entry) = if is_recent now entry then some entry.totals else none

-- A call's surroundings: the administration key, if it is set; the cache's key, if the time zone is
-- valid; the clock before and after a fetch; and the answers.
pub record Surroundings : Type 0 where
  pub admin_key : Option String
  pub cache_key : Option String
  pub now : ℕ
  pub later : ℕ
  pub answers : List (List Answer)

-- _pool_totals: none where the guard is blocked, and the cache after.
unfoldable pub pool_totals :
    (String → Bool) → Surroundings → List Cached → Option Totals × List Cached
pool_totals is_mini s cache = elim s.admin_key [
  | none ↦ (none, cache)
  | some admin ↦ elim s.cache_key [
    | none ↦ (none, cache)
    | some key ↦ elim (recent s.now (lookup key cache)) [
      | some totals ↦ (some totals, cache)
      | none ↦ elim (fetch_pool_totals is_mini s.answers) [
        | none ↦ (none, cache)
        | some totals ↦
            (some totals, record { key = key; fetched_at = s.later; totals = totals } ∷ cache)
      ]
    ]
  ]
]

-- The settings; the safety margin is the fraction margin / scale.
pub record Budget : Type 0 where
  pub enabled : Bool
  pub high_limit : ℕ
  pub mini_limit : ℕ
  pub margin : ℕ
  pub scale : ℕ

abbrev pub used_of : Pool → Totals → ℕ
used_of high t = t.high_tokens
used_of mini t = t.mini_tokens

abbrev pub limit_of : Pool → Budget → ℕ
limit_of high b = b.high_limit
limit_of mini b = b.mini_limit

-- used + projected > limit * (1 - margin / scale)
unfoldable pub is_over : Budget → Pool → ℕ → Totals → Bool
is_over b pool projected t =
    ltb (limit_of pool b * (b.scale - b.margin)) ((used_of pool t + projected) * b.scale)

-- assert_openai_free_pool: whether the call may be made, and the cache after.
unfoldable pub assert_openai_free_pool :
    (String → Bool) → Budget → String → ℕ → Surroundings → List Cached → Bool × List Cached
assert_openai_free_pool is_mini b model projected s cache =
    let (totals, cache') = pool_totals is_mini s cache in
    if not b.enabled then (true, cache) else elim totals [
      | none ↦ (false, cache')
      | some t ↦ (not (is_over b (model_pool is_mini model) projected t), cache')
    ]
