-- ===== src/Usage/Laws.antt =====
-- The usage that src/domain/translate.rs prints and reads, and the merging of reports.
use local_proxy.Base.{
  ℕ, Option, true, ◌||◌, ◌==◌, ◌+◌, ◌<◌, ◌≤◌, none, some, ◌≡◌, arith, codes, text_eq, text_lt,
}
use local_proxy.Json.{get_field, insert_field, get_or}
use local_proxy.Usage.{
  TokenUsage, Floats, u64_mod, parse_usage, parse_fields, cost_from_usage, anthropic_usage,
  openai_usage, responses_usage,
}

-- What a printed report keeps: no reasoning for Anthropic, no unreported cache reads, no cost.
abbrev pub anthropic_view : TokenUsage → TokenUsage
anthropic_view u = record {
  input = u.input;
  output = u.output;
  reasoning = 0;
  cache_read = some (get_or u.cache_read 0);
  cache_write = u.cache_write;
  cost_usd = none;
}

abbrev pub openai_view : TokenUsage → TokenUsage
openai_view u = record {
  input = u.input;
  output = u.output;
  reasoning = u.reasoning;
  cache_read = some (get_or u.cache_read 0);
  cache_write = 0;
  cost_usd = none;
}

-- A usage whose cached tokens are part of its input reads back from the Anthropic form with its
-- counts, but for the reasoning tokens and the cost, which that form does not carry.
pub parse_usage-anthropic_usage :
    (fl : Floats) (u : TokenUsage)
    → get_or u.cache_read 0 + u.cache_write ≤ u.input
    → u.input < u64_mod
    → parse_usage fl (anthropic_usage u) ≡ anthropic_view u
unfolding parse_usage parse_fields cost_from_usage anthropic_usage codes get_field insert_field
    text_eq text_lt
parse_usage-anthropic_usage fl u h k = ground arith

-- From the OpenAI form a usage reads back with its counts, but for the cache writes and the cost.
pub parse_usage-openai_usage :
    (fl : Floats) (u : TokenUsage) → parse_usage fl (openai_usage u) ≡ openai_view u
unfolding parse_usage parse_fields cost_from_usage openai_usage codes get_field insert_field text_eq
    text_lt
parse_usage-openai_usage fl u = ground arith

-- So it does from the Responses form.
pub parse_usage-responses_usage :
    (fl : Floats) (u : TokenUsage) → parse_usage fl (responses_usage u) ≡ openai_view u
unfolding parse_usage parse_fields cost_from_usage responses_usage codes get_field insert_field
    text_eq text_lt
parse_usage-responses_usage fl u = ground arith

-- A usage by its counts, without the cost.
abbrev pub without_cost : TokenUsage → TokenUsage
without_cost u = record u { cost_usd = none }

-- `n` is the higher of two counts.
abbrev pub Highest : ℕ → ℕ → ℕ → Type 0
Highest a b n = (a ≤ n) × (b ≤ n) × ((n == a || n == b) ≡ true)

-- A count of cached tokens that may be unreported, which is then the lowest.
abbrev pub HighestReported : Option ℕ → Option ℕ → Option ℕ → Type 0
HighestReported none b o = o ≡ b
HighestReported (some a) none o = o ≡ some a
HighestReported (some a) (some b) o = (n : ℕ) × (o ≡ some n) × Highest a b n
