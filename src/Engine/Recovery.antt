-- ===== src/Engine/Recovery.antt =====
-- crates/zhir-kernel/src/engine/controls.rs: `resolve` and `apply_recovery`, what the host decides before
-- the engine goes on with a recovered run.
use zhir.Prelude.{
  String, Bool, true, false, not, ◌&&◌, ◌||◌, Option, none, some, List, [], ◌∷◌, any, is_some,
  lookup, retain, same, String-discrete, if◌then◌else◌,
}
use zhir.Error.{invalid}
use zhir.Value.{Json}
use zhir.Operation.{
  OperationOutcome, OperationOwner, OperationRecord, OperationState, OperationState-discrete,
  RecoveryRef, terminal,
}
use zhir.Operation
use zhir.Message.{Message}
use zhir.Model.{ResponseStatus, CapabilitySet, supports, local_projection}
use zhir.History.Entry.{Hashing}
use zhir.Run.{
  Checkpoint, CommandIntent, ControlAction, Fact, PendingCommand, SessionEstablishment,
  SessionSnapshot, State, Suspension,
}
use zhir.Run
use zhir.Run.Operations.{is_just, any_operation}
use zhir.Storage.Commit.{HistoryDelta}
use zhir.Engine.State.{Engine}
use zhir.Engine.Action.{
  RunStore, Environment, Action, gets, ◌>>=◌, ◌>>◌, done, raise_if, or_raise, checkpoint,
}
use zhir.Engine.Changes.{put_operation, with_commands, with_session}
use zhir.Engine.Commit.{commit, suspend, WaitReason}
use zhir.Engine.Completion.{finish}
use zhir.Engine.Session.{declares, no_items}
use zhir.Engine.Commands.{is_generating}
use zhir.Engine.Controls.{insert_message}

-- `RecoveryResolution` of crates/zhir-core/src/operation.rs
pub data RecoveryResolution (V : Type 0) : Type 0 where
  complete : (operation_id : String) (outcome : OperationOutcome V) → RecoveryResolution V
  abandon : (operation_id reason : String) → RecoveryResolution V
  attach : (operation_id : String) (reference : RecoveryRef V) → RecoveryResolution V
  abandon_generation : (generation_id reason : String) → RecoveryResolution V

abbrev is_established : SessionEstablishment → Bool
is_established SessionEstablishment.new = false
is_established _ = true

module _ {V : Type 0} where
  abbrev is_local : Option (CapabilitySet V) → Bool
  is_local none = false
  is_local (some caps) = supports caps local_projection

  -- A provider's operation of a generation that has not ended.
  abbrev pends_for : String → OperationRecord V → Bool
  pends_for generation_id operation =
      not (terminal operation.state)
      && elim operation.owner [ Operation.provider _ ↦ true | _ ↦ false ]
      && is_just String-discrete operation.origin.generation_id generation_id

  abbrev generates : String → CommandIntent V → Bool
  generates generation_id (Run.generate id _ _ _) = same String-discrete id generation_id
  generates generation_id _ = false

module _ {V S : Type 0} ⦃j : Json V⦄ ⦃hashing : Hashing V⦄ ⦃store : RunStore V S⦄
    ⦃environment : Environment V⦄ where
  unfoldable pub attach_operation : String → RecoveryRef V → Action V S (Unit {0})
  attach_operation id reference = do
    current ← checkpoint
    operation ←
        or_raise (lookup String-discrete id current.active.operations)
          (invalid "unknown operation resolution")
    raise_if (terminal operation.state) (invalid "cannot attach terminal work")
    commit
        (put_operation id
          (record operation { recovery = some reference; state = OperationState.running }) current)
        (Fact.operation id OperationState.running) HistoryDelta.unchanged

  -- A generation whose response is lost is given up, and the model is to be called again.
  unfoldable pub give_up_generation : String → String → Action V S (Unit {0})
  give_up_generation generation_id reason = do
    current ← checkpoint
    let session : SessionSnapshot V = current.active.session
    raise_if (not (is_local session.capabilities))
        (invalid "only a local projection session can abandon a generation")
    raise_if
        (not (is_just String-discrete session.generation_id generation_id)
          || is_some session.response_status)
        (invalid "generation resolution has no matching unfinished generation")
    raise_if (any_operation (pends_for generation_id) current.active.operations)
        (invalid "settle the abandoned generation's provider operations first")
    commit
        (with_commands
          (retain (λ c. not (generates generation_id c.intent)) current.active.commands)
          (with_session
            (record session {
              response_status = some ResponseStatus.continuation;
              needs_generation = true;
            })
            current))
        (Fact.generation_abandoned generation_id reason) HistoryDelta.unchanged

  -- `Engine::resolve`
  abbrev pub resolve : RecoveryResolution V → Action V S (Unit {0})
  resolve (complete operation_id outcome) = finish operation_id outcome
  resolve (abandon operation_id reason) = finish operation_id (OperationOutcome.cancelled reason)
  resolve (attach operation_id reference) = attach_operation operation_id reference
  resolve (abandon_generation generation_id reason) = give_up_generation generation_id reason

  unfoldable pub resolve_all : List (RecoveryResolution V) → Action V S (Unit {0})
  resolve_all [] = done
  resolve_all (resolution ∷ resolutions) = do resolve resolution; resolve_all resolutions

  unfoldable pub insert_all : List (Message V) → Action V S (Unit {0})
  insert_all [] = done
  insert_all (message ∷ messages) = do insert_message message "resume"; insert_all messages

  -- Whether the service may hold work of the run that only the host can resolve.
  unfoldable pub is_uncertain : Engine V S → Bool
  is_uncertain e =
      is_generating e.current.active.session
      || any (λ c. c.sent) e.current.active.commands
      || not (no_items e.current.active.media)
      || is_established e.current.active.session.establishment && not (declares e local_projection)

  -- `Engine::apply_recovery`, of a recovered run.
  unfoldable pub apply_recovery :
      List (RecoveryResolution V) → List (Message V) → Action V S (Unit {0})
  apply_recovery resolutions messages = do
    resolve_all resolutions
    insert_all messages
    e ← gets (λ e. e)
    if any_operation (λ o. same OperationState-discrete o.state OperationState.unknown)
          e.current.active.operations
        then suspend WaitReason.recovery
        else if is_some e.current.active.session.recovery
        then done
        else if is_uncertain e
        then suspend WaitReason.recovery
        else done
