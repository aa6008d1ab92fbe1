-- ===== src/Engine/State.antt =====
-- crates/zhir-kernel/src/engine/mod.rs: the state of the engine that runs one run, the work that it
-- receives and the tasks that it starts; `EventData` and `StateKind` of
-- crates/zhir-core/src/run/mod.rs, `SessionEvent` and `SessionCommand` of
-- crates/zhir-core/src/model/session.rs, `Control` of crates/zhir-kernel/src/control.rs.
use zhir.Prelude.{ℕ, String, Bool, Option, List, Map}
use zhir.Error.{Error, Result}
use zhir.Resource.{ResourceRef}
use zhir.Profile.{RequestProfile}
use zhir.Operation.{
  Content, CallRef, OperationEvent, OperationOutcome, OperationRecord, OperationState, RecoveryRef,
}
use zhir.Message.{Message, Output}
use zhir.Model.{AppendSource, CapabilitySet, EffectiveProfile, ResponseStatus, Usage}
use zhir.Run.{Checkpoint, Fact, Suspension}
use zhir.History.Entry.{HistoryEntry}

pub data StateKind : Type 0 where
  running suspended completed failed cancelled limited : StateKind

pub data EventData (V : Type 0) : Type 0 where
  observation_gap : (count : ℕ) → EventData V
  operation_changed : (operation_id : String) (state : OperationState) → EventData V
  model_delta : (generation_id : Option String) (delta : V) → EventData V
  operation_progress : (operation_id : String) (value : V) → EventData V
  checkpoint_committed :
      (checkpoint_id : String) (revision : ℕ) (state : StateKind) (fact : Fact) → EventData V

pub data SessionCommandBody (V : Type 0) : Type 0 where
  delegation_context :
      (operation_id : String) (origin : CallRef) (content : List (Content V)) → SessionCommandBody V
  generate :
      (generation_id : String) (context_revision input_position profile_revision : ℕ)
      → SessionCommandBody V
  append :
      (entry : HistoryEntry V) (context_revision input_position : ℕ) (source : AppendSource)
      → SessionCommandBody V
  replace_context : (entries : List (HistoryEntry V)) (context_revision : ℕ) → SessionCommandBody V
  update_profile : (revision : ℕ) (profile : RequestProfile V) → SessionCommandBody V
  interrupt_output : (generation_id : String) (output_epoch : ℕ) → SessionCommandBody V
  flush_input : SessionCommandBody V
  set_input_audio : (enabled : Bool) → SessionCommandBody V
  seal_user_input close : SessionCommandBody V

pub record SessionCommand (V : Type 0) : Type 0 where
  pub id : String
  pub body : SessionCommandBody V

pub record Completion (V : Type 0) : Type 0 where
  pub generation_id : String
  pub input_position : ℕ
  pub response_status : ResponseStatus
  pub usage : Usage
  pub model_id : Option String
  pub response_id : Option String
  pub finish_reason : Option String
  pub provider_data : V
  pub effective : EffectiveProfile V

-- The fields of `ResponseFinished` are a record of their own, and the level of an acknowledgement,
-- which the engine does not read, is left out.
pub data SessionEventBody (V : Type 0) : Type 0 where
  ready : (context_revision : ℕ) → SessionEventBody V
  response_started : (generation_id : String) (input_position : ℕ) → SessionEventBody V
  conversation_item : (item_id : String) (message : Message V) → SessionEventBody V
  acknowledged : (command_id : String) (recovery : Option (RecoveryRef V)) → SessionEventBody V
  delta : (generation_id : Option String) (delta : V) → SessionEventBody V
  output :
      (generation_id : Option String) (item_id caller_id : String) (output : Output V)
      → SessionEventBody V
  operation : (origin : CallRef) (event : OperationEvent V) → SessionEventBody V
  response_finished : (completion : Completion V) → SessionEventBody V
  recovery : (reference : RecoveryRef V) → SessionEventBody V
  closed : (reason : String) (provider_data : V) → SessionEventBody V

pub record SessionEvent (V : Type 0) : Type 0 where
  pub sequence : ℕ
  pub body : SessionEventBody V

-- `ToolExecution`: an active execution by the recovery reference of its handle, whose control and
-- events are channels.
pub data ToolExecution (V : Type 0) : Type 0 where
  finished : (outcome : OperationOutcome V) → ToolExecution V
  active : (recovery : Option (RecoveryRef V)) → ToolExecution V

pub data ApprovalDecision (V : Type 0) : Type 0 where
  allow : ApprovalDecision V
  deny : (reason : String) → ApprovalDecision V
  suspend : (suspension : Suspension V) → ApprovalDecision V

pub record SealedChunk : Type 0 where
  pub sequence : ℕ
  pub final : Bool

-- The fields of `SealedMedia` that the engine reads.
pub record SealedMedia : Type 0 where
  pub session_id : String
  pub stream_id : String
  pub epoch : ℕ
  pub chunks : List SealedChunk

-- `Work`, less the senders of replies; a binding that was admitted is its operation's identity.
pub data Work (V : Type 0) : Type 0 where
  model : (event : Result (Option (SessionEvent V))) → Work V
  started : (id : String) (execution : Result (ToolExecution V)) → Work V
  cancel_failed : (id : String) (error : Error) → Work V
  operation : (id : String) (event : Result (Option (OperationEvent V))) → Work V
  admitted : (bindings : List String) (decisions : Result (List (ApprovalDecision V))) → Work V
  media_ready input_ready : (segment : SealedMedia) (reference : ResourceRef V) → Work V
  input_sent : (result : Result (Unit {0})) → Work V
  media_done : Work V
  reply_done : (id : String) (result : Result (Unit {0})) → Work V
  progress : (id : String) (value : V) → Work V
  media_error : (error : Error) → Work V
  command_sent : (result : Result (Unit {0})) → Work V

pub data ControlBody (V : Type 0) : Type 0 where
  pause : (suspension : Suspension V) → ControlBody V
  input : (message : Message V) (source : String) → ControlBody V
  cancel_operation : (id : String) → ControlBody V
  reply_operation : (id : String) (value : V) → ControlBody V
  update_profile : (profile : RequestProfile V) → ControlBody V
  interrupt_output flush_input : ControlBody V
  set_input_audio : (enabled : Bool) → ControlBody V
  seal_user_input : ControlBody V

pub record ControlReceipt : Type 0 where
  pub command_id : String
  pub revision : ℕ

-- What `tasks.spawn` is given.
pub data Task (V : Type 0) : Type 0 where
  cancel_call : (id : String) → Task V
  reply_call : (id : String) (value : V) → Task V
  submit : (batch : List (SessionCommand V)) → Task V
  listen : (id : String) → Task V
  start_tool : (id : String) → Task V
  recover_tool : (operation : OperationRecord V) → Task V

-- What an engine holds beside its checkpoint, and what it has sent to the others: the tasks and the
-- replies to controls, the latest first.
pub record Volatile (V : Type 0) : Type 0 where
  -- the open session, by the capabilities that its control declares
  pub session_control : Option (CapabilitySet V)
  pub operation_controls : List String
  -- the operations with a cancellation token, and whether it is cancelled
  pub tokens : Map String Bool
  pub admitting : List String
  pub sent : List String
  pub sending : Bool
  pub input_sending : Bool
  pub held_input : Bool
  -- whether the channel of host media holds a packet, and whether it is closed
  pub media_queued : Bool
  pub media_closed : Bool
  pub media_pending : Bool
  pub ended_streams : Option (List String)
  -- the epoch before which output media is invalid
  pub valid_epoch : ℕ
  pub pending_replies : List String
  pub pending_starts : List String
  pub session_sequence : Option ℕ
  -- what `work.try_recv` finds, and the item that was taken and not yet handled
  pub work : List (Work V)
  pub stashed : Option (Work V)
  pub tasks : List (Task V)
  pub replies : List (Result ControlReceipt)

-- `Engine`, with a store of type S. The identities that were drawn and the readings of the clock are
-- counted, and the events that were emitted are kept, the latest first.
pub record Engine (V S : Type 0) : Type 0 where
  pub store : S
  pub current : Checkpoint V
  pub deadline : Option ℕ
  pub drawn : ℕ
  pub readings : ℕ
  pub events : List (EventData V)
  pub volatile : Volatile V
