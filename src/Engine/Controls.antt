-- ===== src/Engine/Controls.antt =====
-- crates/zhir-kernel/src/engine/controls.rs: what the host asks of a running engine.
use zhir.Prelude.{
  ℕ, String, Bool, true, false, not, ◌&&◌, ◌||◌, Option, none, some, List, [], ◌∷◌, ◌==◌, ltb, add,
  contains, insert, has_key, lookup, same, String-discrete, if◌then◌else◌,
}
use zhir.Error.{Result, ok, err, invalid, storage, conflict}
use zhir.Value.{Json}
use zhir.Profile.{RequestProfile}
use zhir.Operation.{
  OperationOutcome, OperationRecord, OperationState, OperationState-discrete, terminal,
}
use zhir.Message.{Message, validate_message}
use zhir.Model.{
  ResponseStatus, CapabilitySet, supports, submitted, local_projection, interrupt_output,
  flush_input, input_audio_control, profile_updates,
}
use zhir.Model
use zhir.History.Entry.{HistoryEntry, Hashing}
use zhir.History.Chain.{append, entries}
use zhir.Run.{
  Checkpoint, CommandIntent, ControlAction, Fact, PendingCommand, SessionEstablishment,
  SessionSnapshot, State, Suspension,
}
use zhir.Run
use zhir.Storage.Commit.{HistoryDelta}
use zhir.Engine.State.{ControlBody, ControlReceipt, Engine, cancel_call, reply_call}
use zhir.Engine.State as Asked
use zhir.Engine.Action.{
  RunStore, Environment, Action, next_u64, pure, lift, gets, attempt, ◌>>=◌, ◌>>◌, done, raise_if,
  or_raise, checkpoint, held, adjust, spawn, new_id,
}
use zhir.Engine.Changes.{put_operation, with_session}
use zhir.Engine.Commit.{commit}
use zhir.Engine.Completion.{append_command, finish}
use zhir.Engine.Operations.{unknown}
use zhir.Engine.Session.{declares, negotiate_profile}
use zhir.Engine.Commands.{prepare_command}

abbrev larger : Option ℕ → Option ℕ → Option ℕ
larger none b = b
larger (some a) none = some a
larger (some a) (some b) = some (if ltb a b then b else a)

-- A storage error or a conflict ends the engine; another error is the caller's.
abbrev pub fatal : Result String → Result (Unit {0})
fatal (err (storage text)) = err (storage text)
fatal (err (conflict expected actual)) = err (conflict expected actual)
fatal _ = ok tt

module _ {V : Type 0} where
  abbrev receipt : Checkpoint V → Result String → Result ControlReceipt
  receipt current (err error) = err error
  receipt current (ok id) = ok (record { command_id = id; revision = current.revision })

  abbrev is_user : Message V → Bool
  is_user (Message.user _) = true
  is_user _ = false

  abbrev profile_revision_of : CommandIntent V → Option ℕ
  profile_revision_of (Run.update_profile revision _) = some revision
  profile_revision_of _ = none

  -- `max()` of the revisions of the profiles that are pending.
  unfoldable pub last_profile : List (PendingCommand V) → Option ℕ
  last_profile [] = none
  last_profile (command ∷ commands) =
      larger (profile_revision_of command.intent) (last_profile commands)

module _ {V S : Type 0} ⦃j : Json V⦄ ⦃hashing : Hashing V⦄ ⦃store : RunStore V S⦄
    ⦃environment : Environment V⦄ where
  -- `Engine::insert`
  unfoldable pub insert_message : Message V → String → Action V S String
  insert_message message source = do
    current ← checkpoint
    raise_if
        (current.active.session.input_closed && is_user message || current.active.session.closing)
        (invalid "user input is sealed")
    lift (validate_message message)
    id ← new_id
    let entry : HistoryEntry V = record { id = id; origin = none; message = message }
    history ← lift (append current.history (entry ∷ []))
    next ←
        append_command
          (with_session
            (record current.active.session {
              input_position = next_u64 current.active.session.input_position;
              needs_generation = true;
            })
            (record current { history = history }))
          current.history.len submitted none
    commit next (Fact.conversation_insert source) (HistoryDelta.append (entry ∷ []))
    pure id

  unfoldable pub pause : Suspension V → Action V S String
  pause suspension = do
    current ← checkpoint
    commit (record current { state = State.suspended suspension })
        (Fact.control ControlAction.suspended) HistoryDelta.unchanged
    new_id

  -- `Engine::update_profile`
  unfoldable pub update_profile : RequestProfile V → Action V S String
  update_profile profile = do
    e ← gets (λ e. e)
    raise_if (not (declares e profile_updates))
        (invalid "model does not support running profile updates")
    negotiated ← lift (negotiate_profile e (entries e.current.history) profile)
    prepare_command (
        CommandIntent.update_profile
          (next_u64 (elim (last_profile e.current.active.commands) [
            | none ↦ e.current.active.session.profile_revision
            | some revision ↦ revision
          ]))
          profile)

  unfoldable pub interrupt : Action V S String
  interrupt = do
    e ← gets (λ e. e)
    raise_if (not (declares e Model.interrupt_output))
        (invalid "model does not support native interruption")
    generation_id ←
        or_raise e.current.active.session.generation_id (invalid "no generation to interrupt")
    raise_if (e.current.active.session.output_epoch == Model.u64_max)
        (invalid "output epoch overflow")
    prepare_command (
        CommandIntent.interrupt_output generation_id
          (next_u64 e.current.active.session.output_epoch))

  -- A command that needs a capability and open input.
  unfoldable pub input_command : Model.Capability → String → CommandIntent V → Action V S String
  input_command capability refusal intent = do
    e ← gets (λ e. e)
    raise_if (not (declares e capability)) (invalid refusal)
    raise_if e.current.active.session.input_closed (invalid "input is closed")
    prepare_command intent

  -- An operation that runs is asked to stop: the request is committed before it is made.
  unfoldable pub request_cancel : String → OperationRecord V → Action V S String
  request_cancel id operation = do
    current ← checkpoint
    commit (put_operation id (record operation { state = OperationState.cancelling }) current)
        (Fact.operation id OperationState.cancelling) HistoryDelta.unchanged
    v ← held
    if has_key String-discrete id v.tokens
        then adjust (λ w. record w { tokens = insert String-discrete id true w.tokens })
        else done
    if contains String-discrete id v.operation_controls then spawn (cancel_call id) else done
    pure id

  -- `Engine::cancel_operation`
  unfoldable pub cancel_operation : String → Action V S String
  cancel_operation id = do
    current ← checkpoint
    operation ←
        or_raise (lookup String-discrete id current.active.operations) (invalid "unknown operation")
    if terminal operation.state
        then pure id
        else if same OperationState-discrete operation.state OperationState.queued
        then (finish id (OperationOutcome.cancelled "cancelled before dispatch") >> pure id)
        else request_cancel id operation

  -- `Engine::reply_operation`
  unfoldable pub reply_operation : String → V → Action V S String
  reply_operation id value = do
    v ← held
    raise_if (not (contains String-discrete id v.operation_controls))
        (invalid "operation has no input channel")
    unknown id "reply awaiting external confirmation"
    adjust (λ w. record w { pending_replies = add String-discrete id w.pending_replies })
    spawn (reply_call id value)
    pure id

  abbrev pub control_body : ControlBody V → Action V S String
  control_body (Asked.input message source) = insert_message message source
  control_body (Asked.pause suspension) = pause suspension
  control_body (Asked.update_profile profile) = update_profile profile
  control_body Asked.interrupt_output = interrupt
  control_body Asked.flush_input =
      input_command Model.flush_input "session does not support input flushing"
        CommandIntent.flush_input
  control_body (Asked.set_input_audio enabled) =
      input_command input_audio_control "session does not support audio input control"
        (CommandIntent.set_input_audio enabled)
  control_body Asked.seal_user_input = prepare_command CommandIntent.seal_user_input
  control_body (Asked.cancel_operation id) = cancel_operation id
  control_body (Asked.reply_operation id value) = reply_operation id value

  -- `Engine::control`
  unfoldable pub control : ControlBody V → Action V S (Unit {0})
  control body = do
    result ← attempt (control_body body)
    current ← checkpoint
    adjust (λ v. record v { replies = receipt current result ∷ v.replies })
    lift (fatal result)
