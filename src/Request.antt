-- ===== src/Request.antt =====
-- `ModelRequest` of crates/zhir-core/src/model/mod.rs.
use zhir.Prelude.{Bool, Option, List}
use zhir.Profile.{RequestProfile}
use zhir.Message.{Message}
use zhir.Model.{ProviderToolSpec, ResponseFormat, ToolChoice}
use zhir.Policies.Scheduling.{RuntimeToolSpec}

pub record ModelRequest (V : Type 0) : Type 0 where
  pub messages : List (Message V)
  pub runtime_tools : List (RuntimeToolSpec V)
  pub provider_tools : List (ProviderToolSpec V)
  pub profile : RequestProfile V
  pub tool_choice : ToolChoice
  pub response_format : Option (ResponseFormat V)
  pub stream : Bool
