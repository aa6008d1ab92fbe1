-- ===== src/Model.antt =====
-- crates/zhir-core/src/model/mod.rs and model/session.rs: the values that a run's state holds.
use zhir.Prelude.{ℕ, ◌+◌, ◌-◌, ◌^◌, String, Bool, Option, none, some, List, Map, min, contains}
use zhir.Profile.{Extensions}

abbrev pub u64_max : ℕ
u64_max = 2 ^ 64 - 1

pub record Usage : Type 0 where
  pub input_tokens : Option ℕ
  pub output_tokens : Option ℕ
  pub total_tokens : Option ℕ
  pub reasoning_tokens : Option ℕ
  pub cache_read_tokens : Option ℕ
  pub cache_write_tokens : Option ℕ

abbrev or_zero : Option ℕ → ℕ
or_zero none = 0
or_zero (some n) = n

-- The inner `add` of `Usage::add`: a missing count leaves the sum as it was.
unfoldable pub add_tokens : Option ℕ → Option ℕ → Option ℕ
add_tokens a none = a
add_tokens a (some b) = some (min (or_zero a + b) u64_max)

-- `Usage::add`
unfoldable pub add_usage : Usage → Usage → Usage
unfolding add_tokens
add_usage a b = record {
  input_tokens = add_tokens a.input_tokens b.input_tokens;
  output_tokens = add_tokens a.output_tokens b.output_tokens;
  total_tokens = add_tokens a.total_tokens b.total_tokens;
  reasoning_tokens = add_tokens a.reasoning_tokens b.reasoning_tokens;
  cache_read_tokens = add_tokens a.cache_read_tokens b.cache_read_tokens;
  cache_write_tokens = add_tokens a.cache_write_tokens b.cache_write_tokens;
}

pub data Capability : Type 0 where
  structured_tools freeform_tools provider_tools parallel_tools parallel_control : Capability
  streaming usage structured_output json_mode seed duplex steering : Capability
  interrupt_output flush_input input_audio_control conversation_items delegation : Capability
  profile_updates async_results resume explicit_generation response_events : Capability
  local_projection replace_context streaming_input : Capability

unfoldable pub Capability-discrete : Discrete Capability
Capability-discrete = hlevel

pub record CapabilitySet (V : Type 0) : Type 0 where
  pub input_modalities : List String
  pub output_modalities : List String
  pub features : List Capability
  pub tool_choices : List String
  pub constraints : Map String (List V)
  pub extensions : Extensions V

unfoldable pub supports : {V : Type 0} → CapabilitySet V → Capability → Bool
unfolding contains Capability-discrete
supports c capability = contains Capability-discrete capability c.features

pub data ToolChoice : Type 0 where
  auto no_tool required : ToolChoice
  runtime_tool : (name : String) → ToolChoice
  provider_tool : (provider name : String) → ToolChoice

pub record ProviderToolSpec (V : Type 0) : Type 0 where
  pub provider : String
  pub name : String
  pub options : V

pub data ResponseFormat (V : Type 0) : Type 0 where
  json : ResponseFormat V
  schema : (name : String) (schema : V) → ResponseFormat V

pub data ResponseStatus : Type 0 where
  completed requires_results continuation failed cancelled incomplete : ResponseStatus

unfoldable pub ResponseStatus-discrete : Discrete ResponseStatus
ResponseStatus-discrete = hlevel

pub data AppendSource : Type 0 where
  submitted accepted : AppendSource

pub record ModelBinding (V : Type 0) : Type 0 where
  pub adapter : String
  pub payload : V

-- `NegotiatedProfile`, `Confirmation` and `EffectiveProfile` of crates/zhir-core/src/profile.rs.
pub record NegotiatedProfile (V : Type 0) : Type 0 where
  pub selected : Map String V
  pub unmet_preferences : Map String String

pub data Confirmation (V : Type 0) : Type 0 where
  provider verified : V → Confirmation V
  unknown : Confirmation V

pub record EffectiveProfile (V : Type 0) : Type 0 where
  pub values : Map String (Confirmation V)
