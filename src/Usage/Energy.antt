-- ===== src/Usage/Energy.antt =====
-- Energy and cost metadata, of src/domain/translate.rs.
use local_proxy.Base.{ℕ, Option, none, some, Text, codes}
use local_proxy.Json.{Value, Fields, get, get_field, as_object, and_then}
use local_proxy.Usage.{Floats, TokenUsage, as_f64}

pub record EnergyCost : Type 0 where
  pub energy_joules : Option ℕ
  pub energy_kwh : Option ℕ
  pub avg_power_watts : Option ℕ
  pub request_cost_usd : Option ℕ
  pub cache_savings_usd : Option ℕ

abbrev pub no_energy : EnergyCost
no_energy = record {
  energy_joules = none;
  energy_kwh = none;
  avg_power_watts = none;
  request_cost_usd = none;
  cache_savings_usd = none;
}

-- `cache_hit` and `as_cost` of `TokenUsage`.
unfoldable pub as_cost : TokenUsage → Option EnergyCost
as_cost u = elim u.cost_usd [
  | none ↦ none
  | some usd ↦ some (record no_energy { request_cost_usd = some usd })
]

module _ (fl : Floats) where
  abbrev float : Text → Fields → Option ℕ
  float k o = and_then (get_field k o) (as_f64 fl)

  abbrev energy_of : Fields → EnergyCost
  energy_of o = record no_energy {
    energy_joules = float (codes "energy_joules") o;
    energy_kwh = float (codes "energy_kwh") o;
    avg_power_watts = float (codes "avg_power_watts") o;
  }

  abbrev cost_of : Fields → EnergyCost
  cost_of o = record no_energy {
    request_cost_usd = float (codes "request_cost_usd") o;
    cache_savings_usd = float (codes "cache_savings_usd") o;
  }

  abbrev on_object : (Fields → EnergyCost) → Option Fields → Option EnergyCost
  on_object f none = none
  on_object f (some o) = some (f o)

  unfoldable pub energy_from_payload : Value → Option EnergyCost
  energy_from_payload v = on_object energy_of (as_object v)

  unfoldable pub cost_from_payload : Value → Option EnergyCost
  cost_from_payload v = on_object cost_of (as_object v)

  unfoldable pub energy_from_value : Value → Option EnergyCost
  energy_from_value v = on_object energy_of (and_then (get (codes "energy") v) as_object)

  unfoldable pub cost_from_value : Value → Option EnergyCost
  cost_from_value v = on_object cost_of (and_then (get (codes "cost") v) as_object)
