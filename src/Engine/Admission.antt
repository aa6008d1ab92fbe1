-- ===== src/Engine/Admission.antt =====
-- crates/zhir-kernel/src/engine/admission.rs: the start of operations, their recovery, and what follows
-- the approval of a batch of calls.
use Prim.Native.String.{◌++◌ as append_text}
use zhir.Prelude.{
  String, Bool, true, false, not, Option, none, some, List, [], ◌∷◌, ◌==◌, leb, add, discard, find,
  insert, length, lookup, retain, same, String-discrete, if◌then◌else◌,
}
use zhir.Error.{Result, ok, err, protocol, new_failure}
use zhir.Value.{Json}
use zhir.Operation.{
  OperationOutcome, OperationOwner, OperationRecord, OperationState, OperationState-discrete,
}
use zhir.Operation
use zhir.Message.{Message, Output, RuntimeToolCall}
use zhir.Message
use zhir.History.Entry.{HistoryEntry, Hashing}
use zhir.History.Chain.{get}
use zhir.Run.{Checkpoint, ControlAction, Fact, LimitReason, State, Suspension}
use zhir.Storage.Commit.{HistoryDelta}
use zhir.Engine.State.{ApprovalDecision, Task, start_tool, recover_tool}
use zhir.Engine.State as Held
use zhir.Engine.Action.{
  RunStore, Environment, Action, next_u64, pure, lift, ◌>>=◌, ◌>>◌, done, raise_if, checkpoint,
  adjust, spawn, check,
}
use zhir.Engine.Changes.{put_operation}
use zhir.Engine.Commit.{commit}
use zhir.Engine.Completion.{finish}
use zhir.Engine.Operations.{unknown}

module _ {V : Type 0} where
  abbrev is_call_of : String → Output V → Bool
  is_call_of id (Message.runtime_tool_call call) = same String-discrete call.id id
  is_call_of id _ = false

  abbrev found_call : Option (Output V) → Result (RuntimeToolCall V)
  found_call (some (Message.runtime_tool_call call)) = ok call
  found_call _ = err (protocol "operation call entry mismatch")

  abbrev call_in : String → Message V → Result (RuntimeToolCall V)
  call_in id (Message.assistant output _) = found_call (find (is_call_of id) output)
  call_in id _ = err (protocol "operation call entry mismatch")

  abbrev call_at : String → Option (HistoryEntry V) → Result (RuntimeToolCall V)
  call_at id none = err (protocol "missing operation call")
  call_at id (some entry) = call_in id entry.message

  -- `Engine::call`
  unfoldable pub call_of : Checkpoint V → OperationRecord V → Result (RuntimeToolCall V)
  unfolding get
  call_of c operation = call_at operation.origin.call_id (get c.history operation.call_entry)

  -- The first decision to suspend.
  unfoldable pub first_suspension : List (ApprovalDecision V) → Option (Suspension V)
  first_suspension [] = none
  first_suspension (Held.suspend suspension ∷ _) = some suspension
  first_suspension (_ ∷ decisions) = first_suspension decisions

  abbrev is_queued : Option (OperationRecord V) → Bool
  is_queued none = false
  is_queued (some operation) = same OperationState-discrete operation.state OperationState.queued

  abbrev queued : Option (OperationRecord V) → Option (OperationRecord V)
  queued o = if is_queued o then o else none

  abbrev zip : List String → List (ApprovalDecision V) → List (String × ApprovalDecision V)
  zip (id ∷ ids) (decision ∷ decisions) = (id, decision) ∷ zip ids decisions
  zip _ _ = []

abbrev discard_all : List String → List String → List String
discard_all [] ids = ids
discard_all (id ∷ gone) ids = discard_all gone (discard String-discrete id ids)

abbrev is_recovering : OperationState → Bool
is_recovering OperationState.running = true
is_recovering OperationState.waiting = true
is_recovering OperationState.cancelling = true
is_recovering _ = false

module _ {V S : Type 0} where
  -- An operation has a token of its own and is one that starts.
  abbrev pub begin_task : String → Task V → Action V S (Unit {0})
  begin_task id task = do
    adjust (λ v. record v {
      pending_starts = add String-discrete id v.pending_starts;
      tokens = insert String-discrete id false v.tokens;
    })
    spawn task

module _ {V S : Type 0} ⦃environment : Environment V⦄ where
  -- `Engine::spawn_tool`
  unfoldable pub spawn_tool : String → Task V → Action V S (Unit {0})
  spawn_tool id task = do check; begin_task id task

module _ {V S : Type 0} ⦃j : Json V⦄ ⦃hashing : Hashing V⦄ ⦃store : RunStore V S⦄
    ⦃environment : Environment V⦄ where
  -- An operation that was allowed: its start is committed and counted before it is made.
  unfoldable pub start_allowed : String → OperationRecord V → Action V S Bool
  start_allowed id operation = do
    check
    current ← checkpoint
    if leb current.options.limits.max_runtime_tool_calls current.metrics.runtime_tool_calls
        then (commit (record current { state = State.limited LimitReason.runtime_tool_calls })
              (Fact.control ControlAction.limited) HistoryDelta.unchanged
            >> pure false)
        else do
          commit
              (put_operation id (record operation { state = OperationState.running })
                (record current {
                  metrics = record current.metrics {
                    runtime_tool_calls = next_u64 current.metrics.runtime_tool_calls;
                  };
                }))
              (Fact.operation id OperationState.running) HistoryDelta.unchanged
          spawn_tool id (start_tool id)
          pure true

  -- A decision on an operation that is still queued; the Boolean is whether the loop goes on.
  abbrev pub decide : String → Option (OperationRecord V) → ApprovalDecision V → Action V S Bool
  decide id none decision = pure true
  decide id (some operation) Held.allow = start_allowed id operation
  decide id (some operation) (Held.deny reason) =
      finish id (OperationOutcome.failure (new_failure "approval_denied" reason)) >> pure true
  decide id (some operation) (Held.suspend _) = pure true

  unfoldable pub decide_all : List (String × ApprovalDecision V) → Action V S (Unit {0})
  decide_all [] = done
  decide_all ((id, decision) ∷ decisions) =
      let rest = decide_all decisions in
      do
        current ← checkpoint
        goes_on ← decide id (queued (lookup String-discrete id current.active.operations)) decision
        if goes_on then rest else done

  abbrev pub admit_decisions :
      List String → List (ApprovalDecision V) → Option (Suspension V) → Action V S (Unit {0})
  admit_decisions bindings decisions (some suspension) = do
    current ← checkpoint
    commit (record current { state = State.suspended suspension })
        (Fact.control ControlAction.suspended) HistoryDelta.unchanged
  admit_decisions bindings decisions none = decide_all (zip bindings decisions)

  -- `Engine::admitted`
  unfoldable pub admitted : List String → Result (List (ApprovalDecision V)) → Action V S (Unit {0})
  admitted bindings answer = do
    decisions ← lift answer
    raise_if (not (length decisions == length bindings))
        (protocol "approval decision count differs from requests")
    adjust (λ v. record v { admitting = discard_all bindings v.admitting })
    admit_decisions bindings decisions (first_suspension decisions)

  abbrev pub rebind : OperationRecord V → Result (Unit {0}) → Action V S (Unit {0})
  rebind operation (ok _) = spawn_tool operation.id (recover_tool operation)
  rebind operation (err error) =
      unknown operation.id (append_text "recovery binding failed: " (environment.error_text error))

  -- An operation that was running when its engine ended, by its owner.
  abbrev pub recover_owned : OperationRecord V → OperationOwner → Action V S (Unit {0})
  recover_owned operation Operation.delegation =
      if environment.has_delegation
      then begin_task operation.id (recover_tool operation)
      else unknown operation.id "delegation handler unavailable"
  recover_owned operation (Operation.runtime_tool _) = do
    current ← checkpoint
    call ← lift (call_of current operation)
    rebind operation (environment.bind call)
  recover_owned operation (Operation.provider _) = done

  unfoldable pub recover_all : List (String × OperationRecord V) → Action V S (Unit {0})
  recover_all [] = done
  recover_all ((_, operation) ∷ operations) = do
    recover_owned operation operation.owner
    recover_all operations

  -- `Engine::recover_operations`
  unfoldable pub recover_operations : Action V S (Unit {0})
  recover_operations = do
    current ← checkpoint
    recover_all (retain (λ o. is_recovering o.1.state) current.active.operations)
