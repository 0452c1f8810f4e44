-- ===== src/Costs/Usage.antt =====
-- Usage records and the cost estimate of providers/usage.py: `normalize_usage`, `estimate_cost` and
-- `pricing_for_stage`. Money is counted in units of 1e-8 dollars, the precision to which every
-- estimate is rounded; audio is in milliseconds, to which the source rounds it.
use localplaud.Prelude.{
  round_div, ◌>>=◌, ℕ, ◌+◌, ◌*◌, ◌/◌, max, String, Bool, true, false, ◌&&◌, ◌||◌, Option, none,
  some, List, ◌==◌, find?, str_eq, if◌then◌else◌,
}

pub record Usage : Type 0 where
  pub requests : Option ℕ
  pub input_tokens : Option ℕ
  pub output_tokens : Option ℕ
  pub input_chars : Option ℕ
  pub output_chars : Option ℕ
  pub audio_milliseconds : Option ℕ
  pub tokens_estimated : Bool

-- math.ceil(chars / 4)
abbrev pub tokens_of_chars : ℕ → ℕ
tokens_of_chars chars = (chars + 3) / 4

-- The tokens that a usage record reports, or else an estimate from its characters.
unfoldable pub normal_tokens : Option ℕ → Option ℕ → Option ℕ
normal_tokens (some tokens) chars = some tokens
normal_tokens none none = none
normal_tokens none (some chars) = some (tokens_of_chars chars)

unfoldable pub is_estimated : Option ℕ → Option ℕ → Bool
is_estimated none (some chars) = true
is_estimated _ _ = false

-- `normalize_usage`
unfoldable pub normalize_usage : Usage → Usage
normalize_usage u = record u {
  input_tokens = normal_tokens u.input_tokens u.input_chars;
  output_tokens = normal_tokens u.output_tokens u.output_chars;
  tokens_estimated =
      u.tokens_estimated
      || is_estimated u.input_tokens u.input_chars
      || is_estimated u.output_tokens u.output_chars;
}

-- The catalog's rates; a missing one is zero.
pub record Pricing : Type 0 where
  pub per_request : ℕ
  pub input_per_million_tokens : ℕ
  pub output_per_million_tokens : ℕ
  pub audio_per_minute : ℕ

abbrev pub or_zero : Option ℕ → ℕ
or_zero none = 0
or_zero (some n) = n

-- int(normalized.get("requests") or 1), which is at least one.
abbrev pub request_count : Option ℕ → ℕ
request_count none = 1
request_count (some n) = max 1 n

-- The common denominator of the four terms: a million tokens, 60,000 milliseconds.
abbrev pub cost_scale : ℕ
cost_scale = 60000000000

unfoldable pub scaled_cost : Usage → Pricing → ℕ
scaled_cost u p =
    p.per_request * request_count u.requests * cost_scale
    + or_zero u.input_tokens * p.input_per_million_tokens * 60000
    + or_zero u.output_tokens * p.output_per_million_tokens * 60000
    + or_zero u.audio_milliseconds * p.audio_per_minute * 1000000

abbrev pub free : Pricing
free = record {
  per_request = 0;
  input_per_million_tokens = 0;
  output_per_million_tokens = 0;
  audio_per_minute = 0;
}

-- `estimate_cost`; no pricing is the empty one.
unfoldable pub estimate_cost : Usage → Option Pricing → ℕ
estimate_cost u none = round_div (scaled_cost (normalize_usage u) free) cost_scale
estimate_cost u (some p) = round_div (scaled_cost (normalize_usage u) p) cost_scale

-- A stage's selection in a profile snapshot.
pub record Selection : Type 0 where
  pub connection : Option String
  pub model : Option String
  pub execution_target : Option String

pub record ProviderConnection : Type 0 where
  pub id : ℕ
  pub key : String

pub record ModelCatalogEntry : Type 0 where
  pub connection_id : ℕ
  pub model_key : String
  pub pricing : Option Pricing

pub record Catalog : Type 0 where
  pub connections : List ProviderConnection
  pub models : List ModelCatalogEntry

-- The truth of an optional text.
abbrev pub or_empty : Option String → Option String
or_empty none = none
or_empty (some text) = if str_eq text "" then none else some text

-- The catalog's pricing of a model under a connection's key.
unfoldable pub catalog_pricing : Catalog → String → String → Option Pricing
catalog_pricing c connection_key model_key = do
  connection ← find? (λ row. str_eq row.key connection_key) c.connections
  model ←
      find? (λ row. row.connection_id == connection.id && str_eq row.model_key model_key) c.models
  model.pricing

-- `pricing_for_stage`
unfoldable pub pricing_for_stage : Catalog → Option Selection → Option Pricing
pricing_for_stage c none = none
pricing_for_stage c (some selection) = do
  connection_key ← or_empty selection.connection
  model_key ← or_empty selection.model
  catalog_pricing c connection_key model_key

-- execution_target in {"cloud", "remote_worker"}
abbrev pub is_external : Option Selection → Bool
is_external none = false
is_external (some selection) = elim selection.execution_target [
  | none ↦ false
  | some target ↦ str_eq target "cloud" || str_eq target "remote_worker"
]
