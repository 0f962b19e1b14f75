-- ===== src/Usage.antt =====
-- `TokenUsage` and its readers and printers in src/domain/translate.rs. Counts are `u64`: sums wrap
-- at 2 ^ 64. Costs are floats, whose operations are the parameter `Floats`.
pub mod Laws
pub mod Energy
use local_proxy.Base.{
  ℕ, ◌+◌, ◌-◌, ◌%◌, ◌^◌, max, Bool, true, false, not, ◌&&◌, ◌||◌, Option, none, some, List, [], ◌∷◌,
  if◌then◌else◌, Text, codes, ltb, is_some,
}
use local_proxy.Json.{
  Number, Value, number, object, Fields, get, get_field, as_u64, and_then, or_none, get_or, nat_of,
  obj, nat,
}

abbrev pub u64_mod : ℕ
u64_mod = 2 ^ 64

pub record TokenUsage : Type 0 where
  pub input : ℕ
  pub output : ℕ
  pub reasoning : ℕ
  pub cache_read : Option ℕ
  pub cache_write : ℕ
  pub cost_usd : Option ℕ

abbrev pub no_usage : TokenUsage
no_usage = record {
  input = 0;
  output = 0;
  reasoning = 0;
  cache_read = none;
  cache_write = 0;
  cost_usd = none;
}

abbrev no_count : ℕ → Bool
no_count n = not (ltb 0 n)

-- `part == TokenUsage::default()`, by the derived equality.
unfoldable pub is_default : TokenUsage → Bool
is_default u =
    no_count u.input
    && no_count u.output
    && no_count u.reasoning
    && not (is_some u.cache_read)
    && no_count u.cache_write
    && not (is_some u.cost_usd)

-- What the code uses of 64-bit floats, on their bit patterns.
pub record Floats : Type 0 where
  pub to_f64 : Number → ℕ
  pub add : ℕ → ℕ → ℕ

abbrev pub as_f64 : Floats → Value → Option ℕ
as_f64 fl (number n) = some (fl.to_f64 n)
as_f64 fl _ = none

abbrev float_of : Floats → Fields → Text → Option ℕ
float_of fl o k = and_then (get_field k o) (as_f64 fl)

abbrev sum_of : Floats → Option ℕ → Option ℕ → Option ℕ
sum_of fl (some p) (some c) = some (fl.add p c)
sum_of fl _ _ = none

unfoldable pub cost_from_usage : Floats → Fields → Option ℕ
cost_from_usage fl o =
    or_none (float_of fl o (codes "cost"))
      (sum_of fl (float_of fl o (codes "prompt_cost")) (float_of fl o (codes "completion_cost")))

abbrev pub num : Fields → Text → Option ℕ
num o k = and_then (get_field k o) as_u64

-- `num(details.get(inner))`, where the field `outer` is there.
abbrev pub detail : Fields → Text → Text → Option ℕ
detail o outer inner = and_then (get_field outer o) (λ d. nat_of d inner)

abbrev reasoning_of : Fields → ℕ
reasoning_of o =
    let first =
      get_or (detail o (codes "completion_tokens_details") (codes "reasoning_tokens")) 0 in
    get_or (detail o (codes "output_tokens_details") (codes "reasoning_tokens")) first

abbrev cached_of : Fields → Option ℕ
cached_of o =
    or_none (detail o (codes "prompt_tokens_details") (codes "cached_tokens"))
      (detail o (codes "input_tokens_details") (codes "cached_tokens"))

unfoldable pub parse_fields : Floats → Fields → TokenUsage
parse_fields fl o =
    let input = get_or (or_none (num o (codes "input_tokens")) (num o (codes "prompt_tokens"))) 0 in
    let output =
      get_or (or_none (num o (codes "output_tokens")) (num o (codes "completion_tokens"))) 0 in
    let read = num o (codes "cache_read_input_tokens") in
    let write = num o (codes "cache_creation_input_tokens") in
    let apart = is_some read || is_some write in
    let cached = (get_or read 0 + get_or write 0) % u64_mod in
    record {
      input = if apart then (input + cached) % u64_mod else input;
      output = output;
      reasoning = reasoning_of o;
      cache_read = if apart then read else cached_of o;
      cache_write = if apart then get_or write 0 else 0;
      cost_usd = cost_from_usage fl o;
    }

unfoldable pub parse_usage : Floats → Value → TokenUsage
parse_usage fl (object o) = parse_fields fl o
parse_usage fl _ = no_usage

-- `Option::max`, where `None` is the least.
abbrev pub max_option : Option ℕ → Option ℕ → Option ℕ
max_option none b = b
max_option (some a) none = some a
max_option (some a) (some b) = some (max a b)

unfoldable pub merge_usage : TokenUsage → TokenUsage → TokenUsage
merge_usage acc part = record {
  input = max acc.input part.input;
  output = max acc.output part.output;
  reasoning = max acc.reasoning part.reasoning;
  cache_read = max_option acc.cache_read part.cache_read;
  cache_write = max acc.cache_write part.cache_write;
  cost_usd = or_none part.cost_usd acc.cost_usd;
}

unfoldable pub usage_from_frame : Floats → Value → TokenUsage
usage_from_frame fl v = elim (get (codes "usage") v) [
  | some u ↦ parse_usage fl u
  | none ↦ elim (and_then (get (codes "message") v) (get (codes "usage"))) [
    | some u ↦ parse_usage fl u
    | none ↦ elim (and_then (get (codes "response") v) (get (codes "usage"))) [
      | some u ↦ parse_usage fl u
      | none ↦ no_usage
    ]
  ]
]

-- `a.saturating_add(b)` on `u64`.
abbrev pub saturating_add : ℕ → ℕ → ℕ
saturating_add a b = if ltb (a + b) u64_mod then a + b else u64_mod - 1

unfoldable pub anthropic_usage : TokenUsage → Value
anthropic_usage u = obj (
    (codes "input_tokens", nat (u.input - saturating_add (get_or u.cache_read 0) u.cache_write))
    ∷ (codes "output_tokens", nat u.output)
    ∷ (codes "cache_read_input_tokens", nat (get_or u.cache_read 0))
    ∷ (codes "cache_creation_input_tokens", nat u.cache_write)
    ∷ [])

abbrev reasoning_details : TokenUsage → Value
reasoning_details u =
    if ltb 0 u.reasoning then obj ((codes "reasoning_tokens", nat u.reasoning) ∷ []) else obj []

abbrev cached_details : TokenUsage → Value
cached_details u = obj ((codes "cached_tokens", nat (get_or u.cache_read 0)) ∷ [])

unfoldable pub openai_usage : TokenUsage → Value
openai_usage u = obj (
    (codes "prompt_tokens", nat u.input)
    ∷ (codes "completion_tokens", nat u.output)
    ∷ (codes "total_tokens", nat ((u.input + u.output) % u64_mod))
    ∷ (codes "prompt_tokens_details", cached_details u)
    ∷ (codes "completion_tokens_details", reasoning_details u)
    ∷ [])

unfoldable pub responses_usage : TokenUsage → Value
responses_usage u = obj (
    (codes "input_tokens", nat u.input)
    ∷ (codes "output_tokens", nat u.output)
    ∷ (codes "total_tokens", nat ((u.input + u.output) % u64_mod))
    ∷ (codes "input_tokens_details", cached_details u)
    ∷ (codes "output_tokens_details", reasoning_details u)
    ∷ [])
