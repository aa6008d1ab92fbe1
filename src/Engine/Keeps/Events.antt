-- ===== src/Engine/Keeps/Events.antt =====
-- The methods of model_events.rs keep every invariant.
use zhir.Prelude.{ℕ, zero, suc, String, Bool, true, false, Option, none, some, List, [], ◌∷◌}
use zhir.Error.{Result, ok, err}
use zhir.Value.{Json}
use zhir.Operation.{
  CallRef, OperationEvent, OperationOwner, OperationRecord, OperationUpdate, RecoveryRef,
}
use zhir.Operation
use zhir.Message.{Message, Output}
use zhir.Message
use zhir.History.Entry.{Hashing, HistoryEntry}
use zhir.Run.{Checkpoint, CommandIntent}
use zhir.Run
use zhir.Engine.State.{Engine, SessionEvent, SessionEventBody, Work}
use zhir.Engine.State as Held
use zhir.Engine.Action.{RunStore, Environment, Action}
use zhir.Engine.Events.Output.{
  append_commands, stage_entries, record_queued, record_output, stage_new, stage_known,
  stage_output,
}
use zhir.Engine.Events.Response.{acknowledge_profile, acknowledge_command}
use zhir.Engine.Events.Apply.{
  Effects, begin_automatic, seal_task, start_response, become_ready, close_session, new_entries,
  converse, conclude_event, apply_body, apply_event,
}
use zhir.Engine.Events.Batch.{
  Applied, SessionBatch, fresh_sequence, apply_next, admit_event, join_item, drain, collect,
}
use zhir.Engine.Events.Model.{
  commit_staged, commit_batch, batch_event, commit_sequence, provider_unknown, provider_known,
  provider_found, provider_event, fresh_event, model_event,
}
use zhir.Engine.Keeps.{Keeps, Keeps-bind, keeps, changes, IsInvariant}
use zhir.Engine.Keeps.Operations.{append_command-Keeps, finish_at-Keeps, operation_event-Keeps}
use zhir.Engine.Keeps.Commands.{suspend-Keeps}

module _ {V S : Type 0} ⦃j : Json V⦄ ⦃hashing : Hashing V⦄ ⦃store : RunStore V S⦄
    ⦃environment : Environment V⦄ {P : Engine V S → Type 0} (inv : IsInvariant P) where
  append_commands-Keeps :
      (count : ℕ) (next : Checkpoint V) (index : ℕ)
      → Keeps P (append_commands {S = S} next index count)
  unfolding append_commands
  append_commands-Keeps zero next index = search keeps
  append_commands-Keeps (suc count) next index =
      Keeps-bind _ _ (append_command-Keeps inv _ _ _ _)
        λ changed. append_commands-Keeps count changed (suc index)

  stage_entries-Keeps :
      (next : Checkpoint V) (entries : List (HistoryEntry V))
      → Keeps P (stage_entries {S = S} next entries)
  unfolding stage_entries
  stage_entries-Keeps next entries = search (keeps, append_commands-Keeps) depth 9

  record_queued-Keeps :
      (next : Checkpoint V) (origin : CallRef) (owner : OperationOwner)
      → Keeps P (record_queued {S = S} next origin owner)
  unfolding record_queued
  record_queued-Keeps next origin owner = search changes

  record_output-Keeps :
      (next : Checkpoint V) (output : Output V) (origin : CallRef)
      → Keeps P (record_output {S = S} next output origin)
  unfolding record_output
  record_output-Keeps next (Message.delegation _) origin = search (keeps, record_queued-Keeps)
  record_output-Keeps next (Message.runtime_tool_call _) origin =
      search (keeps, record_queued-Keeps)
  record_output-Keeps next (Message.provider_tool_call _) origin = search keeps
  record_output-Keeps next (Message.content _) origin = search keeps

  stage_new-Keeps :
      (next : Checkpoint V) (entry : HistoryEntry V) (output : Output V) (origin : CallRef)
      → Keeps P (stage_new {S = S} next entry output origin)
  unfolding stage_new
  stage_new-Keeps next entry output origin =
      search (keeps, record_output-Keeps, stage_entries-Keeps)

  stage_known-Keeps :
      (next : Checkpoint V) (entry : HistoryEntry V) (output : Output V) (origin : CallRef)
      (known : Option (HistoryEntry V))
      → Keeps P (stage_known {S = S} next entry output origin known)
  stage_known-Keeps next entry output origin none = search stage_new-Keeps
  stage_known-Keeps next entry output origin (some _) = search keeps

  stage_output-Keeps :
      (next : Checkpoint V) (generation_id : Option String) (item_id caller_id : String)
      (output : Output V)
      → Keeps P (stage_output {S = S} next generation_id item_id caller_id output)
  unfolding stage_output
  stage_output-Keeps next generation_id item_id caller_id output = search (keeps, stage_known-Keeps)

  acknowledge_profile-Keeps :
      (intent : CommandIntent V) (next : Checkpoint V)
      → Keeps P (acknowledge_profile {S = S} intent next)
  acknowledge_profile-Keeps (Run.update_profile _ _) next = search keeps
  acknowledge_profile-Keeps _ next = search keeps

  acknowledge_command-Keeps :
      (next : Checkpoint V) (id : String) (reference : Option (RecoveryRef V))
      → Keeps P (acknowledge_command {S = S} next id reference)
  unfolding acknowledge_command
  acknowledge_command-Keeps next id reference = search (changes, acknowledge_profile-Keeps) depth 9

  begin_automatic-Keeps :
      (explicit : Bool) (next : Checkpoint V) (generation_id : String) (input_position : ℕ)
      → Keeps P (begin_automatic {S = S} explicit next generation_id input_position)
  begin_automatic-Keeps true next generation_id input_position = search keeps
  begin_automatic-Keeps false next generation_id input_position = search keeps

  seal_task-Keeps : (seals : Bool) (next : Checkpoint V) → Keeps P (seal_task {S = S} seals next)
  seal_task-Keeps false next = search keeps
  seal_task-Keeps true next = search changes

  start_response-Keeps :
      (next : Checkpoint V) (generation_id : String) (input_position : ℕ)
      → Keeps P (start_response {S = S} next generation_id input_position)
  unfolding start_response
  start_response-Keeps next generation_id input_position =
      search (keeps, begin_automatic-Keeps, seal_task-Keeps) depth 12

  become_ready-Keeps :
      (next : Checkpoint V) (revision : ℕ) → Keeps P (become_ready {S = S} next revision)
  unfolding become_ready
  become_ready-Keeps next revision = search keeps

  close_session-Keeps :
      (next : Checkpoint V) (reason : String) (data_of : V)
      → Keeps P (close_session {S = S} next reason data_of)
  unfolding close_session
  close_session-Keeps next reason data_of = search changes

  new_entries-Keeps :
      (entry : HistoryEntry V) (known : Option (HistoryEntry V))
      → Keeps P (new_entries {S = S} entry known)
  new_entries-Keeps entry none = search keeps
  new_entries-Keeps entry (some _) = search keeps

  converse-Keeps :
      (next : Checkpoint V) (item_id : String) (message : Message V)
      → Keeps P (converse {S = S} next item_id message)
  unfolding converse
  converse-Keeps next item_id message = search (keeps, new_entries-Keeps)

  conclude_event-Keeps :
      (next : Checkpoint V) (effects : Effects) (entries : List (HistoryEntry V))
      → Keeps P (conclude_event {S = S} next effects entries)
  unfolding conclude_event
  conclude_event-Keeps next effects entries = search (keeps, stage_entries-Keeps)

  apply_body-Keeps :
      (next : Checkpoint V) (body : SessionEventBody V) → Keeps P (apply_body {S = S} next body)
  apply_body-Keeps next (Held.ready _) = search (keeps, become_ready-Keeps, conclude_event-Keeps)
  apply_body-Keeps next (Held.response_started _ _) =
      search (keeps, start_response-Keeps, conclude_event-Keeps)
  apply_body-Keeps next (Held.conversation_item _ _) =
      search (keeps, converse-Keeps, conclude_event-Keeps)
  apply_body-Keeps next (Held.acknowledged _ _) =
      search (keeps, acknowledge_command-Keeps, conclude_event-Keeps)
  apply_body-Keeps next (Held.output _ _ _ _) = search (keeps, stage_output-Keeps)
  apply_body-Keeps next (Held.response_finished _) = search (keeps, conclude_event-Keeps)
  apply_body-Keeps next (Held.recovery _) = search conclude_event-Keeps
  apply_body-Keeps next (Held.closed _ _) =
      search (keeps, close_session-Keeps, conclude_event-Keeps)
  apply_body-Keeps next (Held.delta _ _) = search keeps
  apply_body-Keeps next (Held.operation _ _) = search keeps

  apply_event-Keeps :
      (next : Checkpoint V) (sequence : ℕ) (body : SessionEventBody V)
      → Keeps P (apply_event {S = S} next sequence body)
  unfolding apply_event
  apply_event-Keeps next sequence body = search apply_body-Keeps

  fresh_sequence-Keeps : (sequence : ℕ) → Keeps P (fresh_sequence {S = S} sequence)
  unfolding fresh_sequence
  fresh_sequence-Keeps sequence = search changes

  apply_next-Keeps :
      (batch : SessionBatch V) (sequence : ℕ) (body : SessionEventBody V)
      → Keeps P (apply_next {S = S} batch sequence body)
  unfolding apply_next
  apply_next-Keeps batch sequence body = search (keeps, apply_event-Keeps)

  admit_event-Keeps :
      (rest : Applied V → Action V S (Applied V))
      → ((applied : Applied V) → Keeps P (rest applied))
      → (batch : SessionBatch V) (event : SessionEvent V) (fresh : Result Bool)
      → Keeps P (admit_event rest batch event fresh)
  admit_event-Keeps rest k batch event (err _) = search keeps
  admit_event-Keeps rest k batch event (ok false) = k _
  admit_event-Keeps rest k batch event (ok true) = search (keeps, apply_next-Keeps)

  join_item-Keeps :
      (rest : Applied V → Action V S (Applied V))
      → ((applied : Applied V) → Keeps P (rest applied))
      → (batch : SessionBatch V) (item : Work V) (event : Option (SessionEvent V))
      → Keeps P (join_item rest batch item event)
  join_item-Keeps rest k batch item none = search changes
  join_item-Keeps rest k batch item (some event) =
      search (keeps, fresh_sequence-Keeps, admit_event-Keeps)

  drain-Keeps : (work : List (Work V)) (applied : Applied V) → Keeps P (drain {S = S} work applied)
  unfolding drain
  drain-Keeps [] (batch, r) = search keeps
  drain-Keeps (item ∷ work) (batch, err _) = search keeps
  drain-Keeps (item ∷ work) (batch, ok _) =
      let k : (applied : Applied V) → Keeps P (drain {S = S} work applied) = drain-Keeps work in
      search (changes, join_item-Keeps)

  collect-Keeps :
      (sequence : ℕ) (body : SessionEventBody V) → Keeps P (collect {S = S} sequence body)
  unfolding collect
  collect-Keeps sequence body = search (keeps, apply_next-Keeps, drain-Keeps)

  commit_staged-Keeps : (next : Checkpoint V) (sequence : ℕ) → Keeps P (commit_staged next sequence)
  unfolding commit_staged
  commit_staged-Keeps next sequence = search changes

  commit_batch-Keeps :
      (staged : Option (Checkpoint V)) (sequence : Option ℕ)
      → Keeps P (commit_batch staged sequence)
  commit_batch-Keeps none _ = search keeps
  commit_batch-Keeps (some next) none = search keeps
  commit_batch-Keeps (some next) (some sequence) = search commit_staged-Keeps

  batch_event-Keeps :
      (sequence : ℕ) (body : SessionEventBody V) → Keeps P (batch_event sequence body)
  unfolding batch_event
  batch_event-Keeps sequence body =
      search (changes, collect-Keeps, commit_batch-Keeps, suspend-Keeps) depth 9

  commit_sequence-Keeps : (sequence : ℕ) → Keeps P (commit_sequence sequence)
  unfolding commit_sequence
  commit_sequence-Keeps sequence = search changes

  provider_unknown-Keeps :
      (sequence : ℕ) (origin : CallRef) (update : OperationUpdate V)
      → Keeps P (provider_unknown sequence origin update)
  provider_unknown-Keeps sequence origin (Operation.finished _) =
      search (keeps, finish_at-Keeps, commit_sequence-Keeps)
  provider_unknown-Keeps sequence origin _ = search keeps

  provider_known-Keeps :
      (sequence : ℕ) (event : OperationEvent V) (operation : OperationRecord V)
      (owner : OperationOwner)
      → Keeps P (provider_known sequence event operation owner)
  provider_known-Keeps sequence event operation (Operation.provider _) =
      search (keeps, operation_event-Keeps, commit_sequence-Keeps)
  provider_known-Keeps sequence event operation _ = search keeps

  provider_found-Keeps :
      (sequence : ℕ) (origin : CallRef) (event : OperationEvent V)
      (found : Option (String × OperationRecord V))
      → Keeps P (provider_found sequence origin event found)
  provider_found-Keeps sequence origin event none = search provider_unknown-Keeps
  provider_found-Keeps sequence origin event (some _) = search provider_known-Keeps

  provider_event-Keeps :
      (sequence : ℕ) (origin : CallRef) (event : OperationEvent V)
      → Keeps P (provider_event sequence origin event)
  unfolding provider_event
  provider_event-Keeps sequence origin event = search (keeps, provider_found-Keeps)

  fresh_event-Keeps :
      (sequence : ℕ) (body : SessionEventBody V) → Keeps P (fresh_event sequence body)
  fresh_event-Keeps sequence (Held.delta _ _) = search changes
  fresh_event-Keeps sequence (Held.operation _ _) = search provider_event-Keeps
  fresh_event-Keeps sequence _ = search batch_event-Keeps

  pub model_event-Keeps : (event : SessionEvent V) → Keeps P (model_event event)
  unfolding model_event
  model_event-Keeps event = search (keeps, fresh_sequence-Keeps, fresh_event-Keeps)
