-- ===== src/Engine/Keeps/Workers.antt =====
-- The methods of admission.rs, workers.rs and lifecycle.rs keep every invariant.
use zhir.Prelude.{ℕ, String, Bool, true, false, Option, none, some, List, [], ◌∷◌}
use zhir.Error.{Error, Result, ok, err}
use zhir.Value.{Json}
use zhir.Resource.{ResourceRef}
use zhir.Operation.{OperationOwner, OperationRecord}
use zhir.Operation
use zhir.History.Entry.{Hashing}
use zhir.Run.{Suspension}
use zhir.Engine.State.{ApprovalDecision, Engine, SealedMedia, Task, ToolExecution, Work}
use zhir.Engine.State as Held
use zhir.Engine.Action.{RunStore, Environment}
use zhir.Engine.Admission.{
  begin_task, spawn_tool, start_allowed, decide, decide_all, admit_decisions, admitted, rebind,
  recover_owned, recover_all, recover_operations,
}
use zhir.Engine.Workers.{
  start_failed, started, session_ended, session_failed, lose, reply_settled, reply_done, suspend_on,
  seal_ready, handle_work, note_started, handle,
}
use zhir.Engine.Lifecycle.{
  WorkStatus, complete_run, finish_or_drain, wait_or_stay, finish_or_wait, advance_run, commit_end,
  settle_run,
}
use zhir.Engine.Keeps.{Keeps, Keeps-bind, keeps, changes, IsInvariant}
use zhir.Engine.Keeps.Operations.{
  finish_at-Keeps, operation_event-Keeps, unknown-Keeps, local_operation_update-Keeps,
  install_operation-Keeps,
}
use zhir.Engine.Keeps.Commands.{
  check-Keeps, generate-Keeps, prepare_command-Keeps, seal_cursor-Keeps, suspend-Keeps,
}
use zhir.Engine.Keeps.Events.{model_event-Keeps}

module _ {V S : Type 0} ⦃j : Json V⦄ ⦃hashing : Hashing V⦄ ⦃store : RunStore V S⦄
    ⦃environment : Environment V⦄ {P : Engine V S → Type 0} (inv : IsInvariant P) where
  begin_task-Keeps : (id : String) (task : Task V) → Keeps P (begin_task {S = S} id task)
  begin_task-Keeps id task = search changes

  spawn_tool-Keeps : (id : String) (task : Task V) → Keeps P (spawn_tool {S = S} id task)
  unfolding spawn_tool
  spawn_tool-Keeps id task = search (keeps, check-Keeps, begin_task-Keeps)

  start_allowed-Keeps :
      (id : String) (operation : OperationRecord V) → Keeps P (start_allowed id operation)
  unfolding start_allowed
  start_allowed-Keeps id operation = search (changes, check-Keeps, spawn_tool-Keeps) depth 9

  decide-Keeps :
      (id : String) (operation : Option (OperationRecord V)) (decision : ApprovalDecision V)
      → Keeps P (decide id operation decision)
  decide-Keeps id none decision = search keeps
  decide-Keeps id (some operation) Held.allow = search start_allowed-Keeps
  decide-Keeps id (some operation) (Held.deny _) = search (keeps, finish_at-Keeps)
  decide-Keeps id (some operation) (Held.suspend _) = search keeps

  decide_all-Keeps :
      (decisions : List (String × ApprovalDecision V)) → Keeps P (decide_all decisions)
  unfolding decide_all
  decide_all-Keeps [] = search keeps
  decide_all-Keeps ((id, decision) ∷ decisions) =
      let rest : Keeps P (decide_all decisions) = decide_all-Keeps decisions in
      search (keeps, decide-Keeps)

  admit_decisions-Keeps :
      (bindings : List String) (decisions : List (ApprovalDecision V))
      (suspension : Option (Suspension V))
      → Keeps P (admit_decisions bindings decisions suspension)
  admit_decisions-Keeps bindings decisions none = search decide_all-Keeps
  admit_decisions-Keeps bindings decisions (some _) = search changes

  admitted-Keeps :
      (bindings : List String) (answer : Result (List (ApprovalDecision V)))
      → Keeps P (admitted bindings answer)
  unfolding admitted
  admitted-Keeps bindings answer = search (changes, admit_decisions-Keeps)

  rebind-Keeps :
      (operation : OperationRecord V) (bound : Result (Unit {0})) → Keeps P (rebind operation bound)
  rebind-Keeps operation (ok _) = search spawn_tool-Keeps
  rebind-Keeps operation (err _) = search unknown-Keeps

  recover_owned-Keeps :
      (operation : OperationRecord V) (owner : OperationOwner)
      → Keeps P (recover_owned operation owner)
  recover_owned-Keeps operation Operation.delegation =
      search (keeps, begin_task-Keeps, unknown-Keeps)
  recover_owned-Keeps operation (Operation.runtime_tool _) = search (keeps, rebind-Keeps)
  recover_owned-Keeps operation (Operation.provider _) = search keeps

  recover_all-Keeps :
      (operations : List (String × OperationRecord V)) → Keeps P (recover_all operations)
  unfolding recover_all
  recover_all-Keeps [] = search keeps
  recover_all-Keeps ((_, operation) ∷ operations) =
      Keeps-bind _ _ (recover_owned-Keeps operation operation.owner)
        λ recovered. recover_all-Keeps operations

  pub recover_operations-Keeps : Keeps P recover_operations
  unfolding recover_operations
  recover_operations-Keeps = search (keeps, recover_all-Keeps)

  start_failed-Keeps :
      (id : String) (cancelling : Bool) (error : Error) → Keeps P (start_failed id cancelling error)
  start_failed-Keeps id true Error.cancelled = search finish_at-Keeps
  start_failed-Keeps id false Error.cancelled = search unknown-Keeps
  start_failed-Keeps id cancelling (Error.uncertain _) = search unknown-Keeps
  start_failed-Keeps id cancelling (Error.storage _) = search unknown-Keeps
  start_failed-Keeps id cancelling (Error.conflict _ _) = search unknown-Keeps
  start_failed-Keeps id cancelling (Error.protocol _) = search unknown-Keeps
  start_failed-Keeps id cancelling Error.deadline = search unknown-Keeps
  start_failed-Keeps id cancelling _ = search finish_at-Keeps

  started-Keeps :
      (id : String) (execution : Result (ToolExecution V)) → Keeps P (started id execution)
  unfolding started
  started-Keeps id (ok (Held.finished _)) = search finish_at-Keeps
  started-Keeps id (ok (Held.active _)) = search install_operation-Keeps
  started-Keeps id (err _) = search (keeps, start_failed-Keeps)

  session_ended-Keeps : Keeps P session_ended
  unfolding session_ended
  session_ended-Keeps = search (keeps, suspend-Keeps)

  session_failed-Keeps : (error : Error) → Keeps P (session_failed error)
  unfolding session_failed
  session_failed-Keeps error = search (keeps, suspend-Keeps)

  lose-Keeps : (id reason : String) → Keeps P (lose id reason)
  unfolding lose
  lose-Keeps id reason = search (keeps, unknown-Keeps)

  reply_settled-Keeps :
      (id : String) (result : Result (Unit {0})) → Keeps P (reply_settled id result)
  reply_settled-Keeps id (ok _) = search local_operation_update-Keeps
  reply_settled-Keeps id (err _) = search unknown-Keeps

  reply_done-Keeps : (id : String) (result : Result (Unit {0})) → Keeps P (reply_done id result)
  unfolding reply_done
  reply_done-Keeps id result = search (changes, reply_settled-Keeps)

  suspend_on-Keeps : (result : Result (Unit {0})) → Keeps P (suspend_on result)
  suspend_on-Keeps (ok _) = search keeps
  suspend_on-Keeps (err _) = search suspend-Keeps

  seal_ready-Keeps :
      (direction : String) (epoch : ℕ) (segment : SealedMedia) (reference : ResourceRef V)
      → Keeps P (seal_ready direction epoch segment reference)
  unfolding seal_ready
  seal_ready-Keeps direction epoch segment reference = search (keeps, seal_cursor-Keeps)

  handle_work-Keeps : (item : Work V) → Keeps P (handle_work item)
  unfolding handle_work
  handle_work-Keeps (Held.model (ok (some _))) = search model_event-Keeps
  handle_work-Keeps (Held.model (ok none)) = search session_ended-Keeps
  handle_work-Keeps (Held.model (err _)) = search session_failed-Keeps
  handle_work-Keeps (Held.started _ _) = search started-Keeps
  handle_work-Keeps (Held.cancel_failed _ _) = search lose-Keeps
  handle_work-Keeps (Held.operation _ (ok (some _))) = search operation_event-Keeps
  handle_work-Keeps (Held.operation _ (ok none)) = search lose-Keeps
  handle_work-Keeps (Held.operation _ (err _)) = search lose-Keeps
  handle_work-Keeps (Held.admitted _ _) = search admitted-Keeps
  handle_work-Keeps (Held.media_ready _ _) = search (keeps, seal_ready-Keeps)
  handle_work-Keeps (Held.input_ready _ _) = search seal_ready-Keeps
  handle_work-Keeps (Held.input_sent _) = search (changes, suspend_on-Keeps)
  handle_work-Keeps Held.media_done = search changes
  handle_work-Keeps (Held.reply_done _ _) = search reply_done-Keeps
  handle_work-Keeps (Held.progress _ _) = search changes
  handle_work-Keeps (Held.media_error _) = search keeps
  handle_work-Keeps (Held.command_sent _) = search (changes, suspend_on-Keeps)

  note_started-Keeps : (item : Work V) → Keeps P (note_started {S = S} item)
  note_started-Keeps (Held.started _ _) = search changes
  note_started-Keeps _ = search keeps

  pub handle-Keeps : (item : Work V) → Keeps P (handle item)
  unfolding handle
  handle-Keeps item = search (keeps, note_started-Keeps, handle_work-Keeps)

  complete_run-Keeps : Keeps P complete_run
  unfolding complete_run
  complete_run-Keeps = search changes

  finish_or_drain-Keeps : Keeps P finish_or_drain
  unfolding finish_or_drain
  finish_or_drain-Keeps = search (keeps, complete_run-Keeps, prepare_command-Keeps) depth 9

  wait_or_stay-Keeps : (e : Engine V S) (status : WorkStatus) → Keeps P (wait_or_stay e status)
  wait_or_stay-Keeps e status = search (keeps, suspend-Keeps)

  finish_or_wait-Keeps :
      (e : Engine V S) (status : WorkStatus) (moved : Bool)
      → Keeps P (finish_or_wait e status moved)
  finish_or_wait-Keeps e status true = search keeps
  finish_or_wait-Keeps e status false = search wait_or_stay-Keeps

  pub advance_run-Keeps : Keeps P advance_run
  unfolding advance_run
  advance_run-Keeps =
      search
        (keeps, generate-Keeps, finish_or_drain-Keeps, finish_or_wait-Keeps, wait_or_stay-Keeps)
        depth 9

  commit_end-Keeps : (error : Error) → Keeps P (commit_end {S = S} error)
  unfolding commit_end
  commit_end-Keeps error = search changes

  pub settle_run-Keeps : (result : Result (Unit {0})) → Keeps P (settle_run {S = S} result)
  settle_run-Keeps (ok _) = search keeps
  settle_run-Keeps (err (Error.storage _)) = search keeps
  settle_run-Keeps (err (Error.conflict _ _)) = search keeps
  settle_run-Keeps (err _) = search commit_end-Keeps
