-- ===== src/Engine/Keeps/Operations.antt =====
-- The methods of operations.rs and completion.rs keep every invariant.
use zhir.Prelude.{ℕ, String, Option, none, some, List}
use zhir.Value.{Json}
use zhir.Operation.{
  OperationRecord, OperationState, OperationEvent, OperationUpdate, OperationOutcome,
  OperationOwner, RecoveryRef,
}
use zhir.Operation
use zhir.Message.{Message, ProviderToolCall}
use zhir.Model.{AppendSource}
use zhir.History.Entry.{Hashing, HistoryEntry}
use zhir.Run.{Checkpoint}
use zhir.Engine.State.{Engine}
use zhir.Engine.Action.{RunStore, Environment, Action}
use zhir.Engine.Keeps.{Keeps, keeps, IsInvariant, changes}
use zhir.Engine.Completion.{
  append_command, settle_with, finish_call, finish_provider, finish_local, finish_owned,
  finish_found, finish_at,
}
use zhir.Engine.Operations.{
  Cursor, by_cursor, add_context, update_state, advance, receive, receive_unknown, receive_found,
  operation_event, local_operation_update, unknown, install_operation,
}

module _ {V S : Type 0} ⦃j : Json V⦄ ⦃hashing : Hashing V⦄ ⦃store : RunStore V S⦄
    ⦃environment : Environment V⦄ {P : Engine V S → Type 0} (inv : IsInvariant P) where
  pub append_command-Keeps :
      (next : Checkpoint V) (entry : ℕ) (source : AppendSource) (id : Option String)
      → Keeps P (append_command {S = S} next entry source id)
  unfolding append_command
  append_command-Keeps next entry source id = search changes

  settle_with-Keeps :
      (id : String) (operation : OperationRecord V) (outcome : OperationOutcome V)
      (sequence : Option ℕ) (message : Message V) (source : AppendSource)
      (command_for : Option String)
      → Keeps P (settle_with id operation outcome sequence message source command_for)
  unfolding settle_with
  settle_with-Keeps id operation outcome sequence message source command_for =
      search (changes, append_command-Keeps)

  finish_local-Keeps :
      (id : String) (operation : OperationRecord V) (outcome : OperationOutcome V)
      (sequence : Option ℕ) (message : Message V)
      → Keeps P (finish_local id operation outcome sequence message)
  unfolding finish_local
  finish_local-Keeps id operation outcome sequence message = search (changes, settle_with-Keeps)

  finish_call-Keeps :
      (operation : OperationRecord V) (outcome : OperationOutcome V) (sequence : Option ℕ)
      (call : Option (ProviderToolCall V))
      → Keeps P (finish_call operation outcome sequence call)
  finish_call-Keeps operation outcome sequence none = search keeps
  finish_call-Keeps operation outcome sequence (some call) = search settle_with-Keeps

  finish_message-Keeps :
      (operation : OperationRecord V) (outcome : OperationOutcome V) (sequence : Option ℕ)
      (id : String) (origin : Option Operation.CallRef) (message : Message V)
      → Keeps P (
          finish_provider operation outcome sequence
            (some (record { id = id; origin = origin; message = message })))
  finish_message-Keeps operation outcome sequence id origin (Message.assistant output _) =
      search finish_call-Keeps
  finish_message-Keeps operation outcome sequence id origin _ = search keeps

  finish_provider-Keeps :
      (operation : OperationRecord V) (outcome : OperationOutcome V) (sequence : Option ℕ)
      (entry : Option (HistoryEntry V))
      → Keeps P (finish_provider operation outcome sequence entry)
  finish_provider-Keeps operation outcome sequence none = search keeps
  finish_provider-Keeps operation outcome sequence (some entry) =
      finish_message-Keeps operation outcome sequence entry.id entry.origin entry.message

  finish_owned-Keeps :
      (id : String) (operation : OperationRecord V) (outcome : OperationOutcome V)
      (sequence : Option ℕ) (owner : OperationOwner)
      → Keeps P (finish_owned id operation outcome sequence owner)
  finish_owned-Keeps id operation outcome sequence (Operation.runtime_tool name) =
      search finish_local-Keeps
  finish_owned-Keeps id operation outcome sequence Operation.delegation = search finish_local-Keeps
  finish_owned-Keeps id operation outcome sequence (Operation.provider _) =
      search (keeps, finish_provider-Keeps)

  finish_found-Keeps :
      (id : String) (outcome : OperationOutcome V) (sequence : Option ℕ) (current : Checkpoint V)
      (found : Option (OperationRecord V))
      → Keeps P (finish_found id outcome sequence current found)
  finish_found-Keeps id outcome sequence current none = search keeps
  finish_found-Keeps id outcome sequence current (some operation) =
      search (keeps, finish_owned-Keeps)

  pub finish_at-Keeps :
      (id : String) (outcome : OperationOutcome V) (sequence : Option ℕ)
      → Keeps P (finish_at id outcome sequence)
  unfolding finish_at
  finish_at-Keeps id outcome sequence = search (keeps, finish_found-Keeps)

  by_cursor-Keeps :
      (c : Cursor) (conflict : String) (m : Action V S (Unit {0}))
      → Keeps P m
      → Keeps P (by_cursor c conflict m)
  by_cursor-Keeps Cursor.fresh conflict m km = km
  by_cursor-Keeps Cursor.replayed conflict m km = search keeps
  by_cursor-Keeps Cursor.conflicting conflict m km = search keeps

  add_context-Keeps :
      (id : String) (operation : OperationRecord V) (event : OperationEvent V)
      (content : List (Operation.Content V))
      → Keeps P (add_context id operation event content)
  unfolding add_context
  add_context-Keeps id operation event content = search changes

  update_state-Keeps :
      (id : String) (operation : OperationRecord V) (event : OperationEvent V)
      → Keeps P (update_state id operation event)
  unfolding update_state
  update_state-Keeps id operation event = search changes

  advance-Keeps :
      (id : String) (operation : OperationRecord V) (event : OperationEvent V)
      (update : OperationUpdate V)
      → Keeps P (advance id operation event update)
  advance-Keeps id operation event (Operation.finished outcome) = search finish_at-Keeps
  advance-Keeps id operation event (Operation.progress value) = search changes
  advance-Keeps id operation event _ = search update_state-Keeps

  receive-Keeps :
      (id : String) (operation : OperationRecord V) (event : OperationEvent V)
      (update : OperationUpdate V)
      → Keeps P (receive id operation event update)
  receive-Keeps id operation event (Operation.context content) =
      search (keeps, by_cursor-Keeps, add_context-Keeps)
  receive-Keeps id operation event _ = search (by_cursor-Keeps, advance-Keeps)

  receive_unknown-Keeps :
      (id : String) (sequence : ℕ) (update : OperationUpdate V)
      → Keeps P (receive_unknown id sequence update)
  receive_unknown-Keeps id sequence (Operation.context _) = search keeps
  receive_unknown-Keeps id sequence (Operation.finished outcome) = search finish_at-Keeps
  receive_unknown-Keeps id sequence _ = search keeps

  receive_found-Keeps :
      (id : String) (event : OperationEvent V) (found : Option (OperationRecord V))
      → Keeps P (receive_found id event found)
  receive_found-Keeps id event none = search receive_unknown-Keeps
  receive_found-Keeps id event (some operation) = search receive-Keeps

  pub operation_event-Keeps :
      (id : String) (event : OperationEvent V) → Keeps P (operation_event id event)
  unfolding operation_event
  operation_event-Keeps id event = search (keeps, receive_found-Keeps)

  pub local_operation_update-Keeps :
      (id : String) (state : OperationState) (wait : Option V)
      → Keeps P (local_operation_update id state wait)
  unfolding local_operation_update
  local_operation_update-Keeps id state wait = search changes

  pub unknown-Keeps : (id reason : String) → Keeps P (unknown id reason)
  unfolding unknown
  unknown-Keeps id reason = search local_operation_update-Keeps

  pub install_operation-Keeps :
      (id : String) (handle : Option (RecoveryRef V)) → Keeps P (install_operation id handle)
  unfolding install_operation
  install_operation-Keeps id handle = search changes depth 12
