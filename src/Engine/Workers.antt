-- ===== src/Engine/Workers.antt =====
-- crates/zhir-kernel/src/engine/workers.rs: one handler for each kind of work.
use Prim.Native.String.{◌++◌ as append_text}
use zhir.Prelude.{
  ℕ, String, Bool, true, false, not, ◌&&◌, ◌||◌, Option, none, some, ◌==◌, discard, is_some, lookup,
  same, String-discrete, if◌then◌else◌,
}
use zhir.Error.{Error, Failure, Result, ok, err, uncertain, new_failure}
use zhir.Value.{Json}
use zhir.Resource.{ResourceRef}
use zhir.Operation.{
  OperationOutcome, OperationRecord, OperationState, OperationState-discrete, terminal,
}
use zhir.History.Entry.{Hashing}
use zhir.Run.{Checkpoint}
use zhir.Run.Operations.{any_operation}
use zhir.Engine.State.{SealedMedia, SessionEvent, ToolExecution, Work, operation_progress}
use zhir.Engine.State
use zhir.Engine.Action.{
  RunStore, Environment, Action, raise, ◌>>=◌, ◌>>◌, done, checkpoint, adjust, emit,
}
use zhir.Engine.Commit.{suspend, WaitReason}
use zhir.Engine.Completion.{finish}
use zhir.Engine.Operations.{operation_event, unknown, local_operation_update, install_operation}
use zhir.Engine.Media.{seal_cursor}
use zhir.Engine.Events.Model.{model_event}
use zhir.Engine.Admission.{admitted}

module _ {V : Type 0} where
  -- `failure` of crates/zhir-kernel/src/failure.rs. Of the errors that the model has, the catalog's
  -- stands for `Validation` and `Context` too.
  unfoldable pub failure_of : Environment V → Error → Failure
  failure_of given (Error.model f) = f
  failure_of given (Error.runtime_tool f) = f
  failure_of given (Error.invalid s) = new_failure "invalid_arguments" s
  failure_of given (Error.catalog c) =
      new_failure "invalid_arguments" (given.error_text (Error.catalog c))
  failure_of given (Error.resume r) = new_failure "resume" (given.error_text (Error.resume r))
  failure_of given (Error.protocol s) = new_failure "protocol" s
  failure_of given Error.deadline = new_failure "deadline" "operation deadline reached"
  failure_of given Error.cancelled = new_failure "cancelled" "operation cancelled"
  failure_of given error = new_failure "infrastructure" (given.error_text error)

module _ {V : Type 0} where
  abbrev is_open : Option (OperationRecord V) → Bool
  is_open none = false
  is_open (some operation) = not (terminal operation.state)

  abbrev in_state : OperationState → Option (OperationRecord V) → Bool
  in_state state none = false
  in_state state (some operation) = same OperationState-discrete operation.state state

  -- `operations.get(id).is_some_and(...)`
  abbrev pub is_open_in : Checkpoint V → String → Bool
  is_open_in c id = is_open (lookup String-discrete id c.active.operations)

  abbrev pub is_in_state : Checkpoint V → String → OperationState → Bool
  is_in_state c id state = in_state state (lookup String-discrete id c.active.operations)

abbrev is_uncertain : Error → Bool
is_uncertain (uncertain _) = true
is_uncertain _ = false

module _ {V S : Type 0} ⦃j : Json V⦄ ⦃hashing : Hashing V⦄ ⦃store : RunStore V S⦄
    ⦃environment : Environment V⦄ where
  -- `Engine::start_failed`: an error that leaves the external effect open makes the operation unknown.
  abbrev pub start_failed : String → Bool → Error → Action V S (Unit {0})
  start_failed id true Error.cancelled =
      finish id (OperationOutcome.cancelled "operation cancelled")
  start_failed id false Error.cancelled = unknown id (environment.error_text Error.cancelled)
  start_failed id cancelling (Error.uncertain s) =
      unknown id (environment.error_text (Error.uncertain s))
  start_failed id cancelling (Error.storage s) =
      unknown id (environment.error_text (Error.storage s))
  start_failed id cancelling (Error.conflict expected actual) =
      unknown id (environment.error_text (Error.conflict expected actual))
  start_failed id cancelling (Error.protocol s) =
      unknown id (environment.error_text (Error.protocol s))
  start_failed id cancelling Error.deadline = unknown id (environment.error_text Error.deadline)
  start_failed id cancelling error =
      finish id (OperationOutcome.failure (failure_of environment error))

  unfoldable pub started : String → Result (ToolExecution V) → Action V S (Unit {0})
  started id (ok (State.finished outcome)) = finish id outcome
  started id (ok (State.active handle)) = install_operation id handle
  started id (err error) = do
    current ← checkpoint
    start_failed id (is_in_state current id OperationState.cancelling) error

  -- The end of the session's events, and an error of the session.
  unfoldable pub session_ended : Action V S (Unit {0})
  session_ended = do
    current ← checkpoint
    if is_some current.active.session.closure then done else suspend WaitReason.recovery

  unfoldable pub session_failed : Error → Action V S (Unit {0})
  session_failed error = do
    current ← checkpoint
    if is_uncertain error
          || is_some current.active.session.recovery
          || any_operation (λ o. not (terminal o.state)) current.active.operations
        then suspend WaitReason.recovery
        else raise error

  -- An operation that has not ended becomes unknown.
  unfoldable pub lose : String → String → Action V S (Unit {0})
  lose id reason = do
    current ← checkpoint
    if is_open_in current id then unknown id reason else done

  -- What the host's tool answered to a reply.
  abbrev pub reply_settled : String → Result (Unit {0}) → Action V S (Unit {0})
  reply_settled id (ok _) = local_operation_update id OperationState.running none
  reply_settled id (err error) = unknown id (environment.error_text error)

  unfoldable pub reply_done : String → Result (Unit {0}) → Action V S (Unit {0})
  reply_done id result = do
    adjust (λ v. record v { pending_replies = discard String-discrete id v.pending_replies })
    current ← checkpoint
    if is_in_state current id OperationState.unknown then reply_settled id result else done

  -- A failure of what was sent suspends the run.
  abbrev pub suspend_on : Result (Unit {0}) → Action V S (Unit {0})
  suspend_on (ok _) = done
  suspend_on (err _) = suspend WaitReason.recovery

  -- A segment of this session in the epoch is committed; another is dropped.
  unfoldable pub seal_ready : String → ℕ → SealedMedia → ResourceRef V → Action V S (Unit {0})
  seal_ready direction epoch segment reference = do
    current ← checkpoint
    if segment.epoch == epoch && same String-discrete current.active.session.id segment.session_id
        then seal_cursor direction segment reference
        else done

  unfoldable pub handle_work : Work V → Action V S (Unit {0})
  handle_work (State.model (ok (some event))) = model_event event
  handle_work (State.model (ok none)) = session_ended
  handle_work (State.model (err error)) = session_failed error
  handle_work (State.started id execution) = started id execution
  handle_work (State.cancel_failed id error) =
      lose id (append_text "cancel failed: " (environment.error_text error))
  handle_work (State.operation id (ok (some event))) = operation_event id event
  handle_work (State.operation id (ok none)) =
      lose id "operation stream ended without a final result"
  handle_work (State.operation id (err _)) = lose id "operation stream ended without a final result"
  handle_work (State.admitted bindings decisions) = admitted bindings decisions
  handle_work (State.media_ready segment reference) = do
    current ← checkpoint
    seal_ready "output" current.active.session.output_epoch segment reference
  handle_work (State.input_ready segment reference) = seal_ready "input" 0 segment reference
  handle_work (State.input_sent result) = do
    adjust (λ v. record v { input_sending = false })
    suspend_on result
  handle_work State.media_done = adjust (λ v. record v { media_pending = false })
  handle_work (State.reply_done id result) = reply_done id result
  handle_work (State.progress id value) = emit (operation_progress id value)
  handle_work (State.media_error error) = raise error
  handle_work (State.command_sent result) = do
    adjust (λ v. record v { sending = false })
    suspend_on result

  abbrev pub note_started : Work V → Action V S (Unit {0})
  note_started (State.started id _) =
      adjust (λ v. record v { pending_starts = discard String-discrete id v.pending_starts })
  note_started _ = done

  -- `Engine::handle`
  unfoldable pub handle : Work V → Action V S (Unit {0})
  handle item = do note_started item; handle_work item
