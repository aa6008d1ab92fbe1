-- ===== src/Run/Options.antt =====
-- `Limits` of crates/zhir-core/src/run/mod.rs, run/options.rs and `RuntimeToolSelection` of
-- tool/catalog.rs: the parameters that are frozen when a run starts.
use zhir.Prelude.{
  ℕ, ◌-◌, ◌^◌, String, Bool, false, not, ◌&&◌, ◌||◌, Option, none, some, List, [], ◌∷◌, ◌==◌, ltb,
  contains, same, is_empty, String-discrete, ℕ_discrete,
}
use zhir.Error.{Result, ok, invalid, catalog, empty_name, duplicate, refuse_if, ◌>>=◌, ◌>>◌}
use zhir.Value.{Json}
use zhir.Profile.{RequestProfile, is_finite, profile_eq}
use zhir.Model.{ProviderToolSpec, ToolChoice, ResponseFormat}

pub data RunMode : Type 0 where
  task interactive : RunMode

pub record Limits : Type 0 where
  pub max_generation_requests : ℕ
  pub max_runtime_tool_calls : ℕ
  pub max_inflight_operations : ℕ
  pub max_control_commands : ℕ
  pub max_session_events : ℕ
  pub max_media_streams : ℕ
  pub max_media_chunk_bytes : ℕ
  pub max_buffered_media_bytes : ℕ
  pub max_buffered_media_packets : ℕ
  pub max_operation_concurrency : ℕ
  pub max_observer_events : ℕ
  pub max_total_tokens : Option ℕ
  pub elapsed_ms : Option ℕ
  pub commit_timeout_ms : ℕ

abbrev pub u32_max : ℕ
u32_max = 2 ^ 32 - 1

-- `Limits::validate`
unfoldable pub validate_limits : Limits → Result (Unit {0})
validate_limits l =
    refuse_if
      (l.max_inflight_operations == 0
        || l.max_control_commands == 0
        || l.max_session_events == 0
        || l.max_observer_events == 0
        || l.max_media_streams == 0
        || l.max_buffered_media_packets == 0
        || (ltb u32_max l.max_control_commands
            || ltb u32_max l.max_session_events
            || ltb u32_max l.max_observer_events
            || ltb u32_max l.max_buffered_media_packets)
        || ltb u32_max l.max_buffered_media_bytes
        || l.max_media_chunk_bytes == 0
        || ltb l.max_buffered_media_bytes l.max_media_chunk_bytes
        || l.max_operation_concurrency == 0
        || l.commit_timeout_ms == 0)
      (invalid "invalid queue, media, concurrency or commit limits")

pub data RuntimeToolSelection : Type 0 where
  all : RuntimeToolSelection
  only : (names : List String) → RuntimeToolSelection
  no_tools : RuntimeToolSelection

-- The loop of `RuntimeToolSelection::validate`, over the names seen so far.
unfoldable pub validate_names : List String → List String → Result (Unit {0})
unfolding is_empty contains
validate_names seen [] = ok tt
validate_names seen (name ∷ names) = do
  refuse_if (is_empty name) (catalog empty_name)
  refuse_if (contains String-discrete name seen) (catalog (duplicate name ("selection" ∷ [])))
  validate_names (name ∷ seen) names

unfoldable pub validate_selection : RuntimeToolSelection → Result (Unit {0})
unfolding validate_names
validate_selection (only names) = validate_names [] names
validate_selection _ = ok tt

pub record RunOptions (V : Type 0) : Type 0 where
  pub runtime_tools : RuntimeToolSelection
  pub limits : Limits
  pub profile : RequestProfile V
  pub mode : RunMode
  pub provider_tools : List (ProviderToolSpec V)
  pub tool_choice : ToolChoice
  pub response_format : Option (ResponseFormat V)
  pub stream : Bool

abbrev pub nonfinite : Option ℕ → Bool
nonfinite none = false
nonfinite (some bits) = not (is_finite bits)

abbrev Identity : Type 0
Identity = String × String

unfoldable pub Identity-discrete : Discrete Identity
Identity-discrete = hlevel String-discrete

-- The loop over the provider tools, over the identities seen so far; it returns them all.
unfoldable pub collect_identities :
    {V : Type 0} → List Identity → List (ProviderToolSpec V) → Result (List Identity)
unfolding is_empty contains
collect_identities seen [] = ok seen
collect_identities seen (t ∷ ts) = do
  refuse_if
      (is_empty t.provider
        || is_empty t.name
        || contains Identity-discrete (t.provider, t.name) seen)
      (invalid "provider declarations require unique nonempty identities")
  collect_identities ((t.provider, t.name) ∷ seen) ts

abbrev choice_missing : ToolChoice → List Identity → Bool
choice_missing (ToolChoice.provider_tool provider name) seen =
    not (contains Identity-discrete (provider, name) seen)
choice_missing _ seen = false

-- `RunOptions::validate`
unfoldable pub validate_options : {V : Type 0} → RunOptions V → Result (Unit {0})
unfolding validate_limits validate_selection collect_identities contains
validate_options o = do
  validate_limits o.limits
  validate_selection o.runtime_tools
  refuse_if (nonfinite o.profile.generation.temperature) (invalid "nonfinite model temperature")
  identities ← collect_identities [] o.provider_tools
  refuse_if (choice_missing o.tool_choice identities)
      (invalid "selected provider tool is unavailable")

module _ {V : Type 0} ⦃j : Json V⦄ where
  unfoldable pub ToolSettings-discrete : Discrete (
      RuntimeToolSelection
      × Limits
      × RunMode
      × List (ProviderToolSpec V)
      × ToolChoice
      × Option (ResponseFormat V)
      × Bool)
  ToolSettings-discrete = hlevel (String-discrete, ℕ_discrete, j.discrete)

  -- The derived `==`.
  unfoldable pub options_eq : RunOptions V → RunOptions V → Bool
  unfolding ToolSettings-discrete profile_eq
  options_eq a b =
      profile_eq a.profile b.profile
      && same ToolSettings-discrete
          (
            a.runtime_tools, a.limits, a.mode, a.provider_tools, a.tool_choice, a.response_format,
            a.stream,
          )
          (
            b.runtime_tools, b.limits, b.mode, b.provider_tools, b.tool_choice, b.response_format,
            b.stream,
          )
