-- ===== src/Run.antt =====
-- crates/zhir-core/src/run/mod.rs: the state of a run and its checkpoints.
pub mod Options
pub mod Operations
pub mod Validation
pub mod Consistency
pub mod Completed
pub mod References
pub mod Ticket
pub mod Tests
use zhir.Prelude.{
  ℕ, String, Bool, true, false, ◌&&◌, ◌||◌, not, Option, none, some, List, Map, is_empty, same,
  String-discrete, ℕ_discrete,
}
use zhir.Error.{Failure, Result, ok, invalid, refuse_if, for_each}
use zhir.Value.{Json}
use zhir.Resource.{ResourceRef}
use zhir.Profile.{RequestProfile, profile_eq}
use zhir.Operation.{
  Content, OperationState, OperationRecord, RecoveryRef, validate_content, empty_text,
  Content-discrete,
}
use zhir.Model.{
  Usage, CapabilitySet, ResponseStatus, AppendSource, ModelBinding, NegotiatedProfile,
  EffectiveProfile,
}
use zhir.History.Chain.{History}
use Options.{RunOptions}

pub record RunContext (V : Type 0) : Type 0 where
  pub run_id : String
  pub started_at_ms : ℕ
  pub deadline_at_ms : Option ℕ
  pub parent_run_id : Option String
  pub parent_runtime_tool_call_id : Option String
  pub metadata : Map String V

pub record Suspension (V : Type 0) : Type 0 where
  pub reason : String
  pub source : String
  pub wait_id : Option String
  pub metadata : Map String V

-- `Suspension::validate`
unfoldable pub validate_suspension : {V : Type 0} → Suspension V → Result (Unit {0})
unfolding is_empty
validate_suspension s =
    refuse_if (is_empty s.reason || is_empty s.source || empty_text s.wait_id)
      (invalid "invalid suspension identity")

pub data LimitReason : Type 0 where
  deadline generation_requests runtime_tool_calls total_tokens : LimitReason

pub data State (V : Type 0) : Type 0 where
  running : State V
  suspended : (suspension : Suspension V) → State V
  completed : (content : List (Content V)) → State V
  failed : (error : Failure) → State V
  cancelled : State V
  limited : (reason : LimitReason) → State V

-- `State::active`
unfoldable pub is_active : {V : Type 0} → State V → Bool
is_active running = true
is_active _ = false

-- `State::terminal`
unfoldable pub is_terminal : {V : Type 0} → State V → Bool
is_terminal running = false
is_terminal (suspended _) = false
is_terminal _ = true

-- `matches!(state, State::Completed { .. })`, and the same of `Suspended`.
abbrev pub is_completed : {V : Type 0} → State V → Bool
is_completed (completed _) = true
is_completed _ = false

abbrev pub is_suspended : {V : Type 0} → State V → Bool
is_suspended (suspended _) = true
is_suspended _ = false

module _ {V : Type 0} ⦃j : Json V⦄ where
  -- `State::validate`
  unfoldable pub validate_state : State V → Result (Unit {0})
  unfolding validate_suspension validate_content
  validate_state (suspended s) = validate_suspension s
  validate_state (completed content) = for_each validate_content content
  validate_state _ = ok tt

pub data CommandIntent (V : Type 0) : Type 0 where
  delegation_context : (operation_id : String) (content : List (Content V)) → CommandIntent V
  generate :
      (generation_id : String) (context_revision input_position profile_revision : ℕ)
      → CommandIntent V
  append :
      (entry context_revision input_position : ℕ) (source : AppendSource)
      (operation_id : Option String)
      → CommandIntent V
  replace_context : (context_revision : ℕ) → CommandIntent V
  update_profile : (revision : ℕ) (profile : RequestProfile V) → CommandIntent V
  interrupt_output : (generation_id : String) (output_epoch : ℕ) → CommandIntent V
  flush_input : CommandIntent V
  set_input_audio : (enabled : Bool) → CommandIntent V
  seal_user_input close : CommandIntent V

pub record PendingCommand (V : Type 0) : Type 0 where
  pub id : String
  pub intent : CommandIntent V
  pub sent : Bool

pub data SessionEstablishment : Type 0 where
  new opening established : SessionEstablishment

pub record SessionClosure (V : Type 0) : Type 0 where
  pub reason : String
  pub provider_data : V

pub record SessionSnapshot (V : Type 0) : Type 0 where
  pub binding : Option (ModelBinding V)
  pub capabilities : Option (CapabilitySet V)
  pub id : String
  pub generation_id : Option String
  pub establishment : SessionEstablishment
  pub ready : Bool
  pub generation_started : Bool
  pub context_revision : ℕ
  pub acknowledged_context_revision : ℕ
  pub reduced_context_revision : Option ℕ
  pub input_position : ℕ
  pub generated_input_position : ℕ
  pub needs_generation : Bool
  pub response_start : ℕ
  pub run_start : ℕ
  pub last_sequence : Option ℕ
  pub response_status : Option ResponseStatus
  pub recovery : Option (RecoveryRef V)
  pub output_epoch : ℕ
  pub media_archive : Option (ResourceRef V)
  pub input_closed : Bool
  pub input_audio_enabled : Bool
  pub closing : Bool
  pub closure : Option (SessionClosure V)
  pub profile_revision : ℕ
  pub profile : RequestProfile V
  pub negotiated : NegotiatedProfile V
  pub effective : EffectiveProfile V

pub record StreamCursor (V : Type 0) : Type 0 where
  pub sequence : ℕ
  pub epoch : ℕ
  pub sealed : ResourceRef V

pub record ActiveState (V : Type 0) : Type 0 where
  pub session : SessionSnapshot V
  pub operations : Map String (OperationRecord V)
  pub commands : List (PendingCommand V)
  pub media : Map String (StreamCursor V)

pub record Metrics : Type 0 where
  pub generation_requests : ℕ
  pub observed_responses : Option ℕ
  pub runtime_tool_calls : ℕ
  pub usage : Usage

pub data ControlAction : Type 0 where
  finished failed limited suspended cancelled : ControlAction

pub data Fact : Type 0 where
  started attached : Fact
  session : (session_id : String) (sequence : ℕ) → Fact
  operation : (operation_id : String) (state : OperationState) → Fact
  command : (command_id : String) → Fact
  conversation_insert : (source : String) → Fact
  history_rewrite : (reason : String) → Fact
  control : (action : ControlAction) → Fact
  media : (stream_id : String) (sequence : ℕ) → Fact
  generation_abandoned : (generation_id reason : String) → Fact

pub record Checkpoint (V : Type 0) : Type 0 where
  pub options : RunOptions V
  pub id : String
  pub parent_id : Option String
  pub revision : ℕ
  pub context : RunContext V
  pub history : History V
  pub state : State V
  pub active : ActiveState V
  pub metrics : Metrics
  pub fact : Fact
