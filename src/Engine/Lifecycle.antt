-- ===== src/Engine/Lifecycle.antt =====
-- crates/zhir-kernel/src/engine/lifecycle.rs: when a run goes on, waits or ends, and what it leaves
-- when it fails.
use zhir.Prelude.{
  String, Bool, true, false, not, ◌&&◌, ◌||◌, Option, List, [], ◌∷◌, ◌++◌, Map, ◌==◌, drop, is_some,
  map, if◌then◌else◌,
}
use zhir.Error.{Error, Result, ok, err, storage, conflict}
use zhir.Value.{Json}
use zhir.Operation.{Content, OperationOwner, OperationRecord, OperationState, terminal}
use zhir.Operation
use zhir.Message.{Message, visible_content}
use zhir.Model.{ResponseStatus, ResponseStatus-discrete, response_events, explicit_generation}
use zhir.History.Entry.{Hashing}
use zhir.History.Chain.{entries}
use zhir.History.Conversation.{conversation}
use zhir.Run.{Checkpoint, CommandIntent, ControlAction, Fact, LimitReason, State}
use zhir.Run.Operations.{is_just}
use zhir.Storage.Commit.{HistoryDelta}
use zhir.Engine.State.{Engine}
use zhir.Engine.Action.{
  RunStore, Environment, Action, pure, raise, gets, ◌>>=◌, ◌>>◌, done, checkpoint,
}
use zhir.Engine.Changes.{with_operations}
use zhir.Engine.Commit.{commit, suspend, WaitReason}
use zhir.Engine.Session.{declares, generate, no_items}
use zhir.Engine.Commands.{is_generating, prepare_command}
use zhir.Engine.Events.Apply.{is_task}
use zhir.Engine.Workers.{failure_of}

pub record WorkStatus : Type 0 where
  pub busy : Bool
  pub host_busy : Bool
  pub unknown : Bool
  pub progressing : Bool

abbrev is_host : OperationOwner → Bool
is_host (Operation.provider _) = false
is_host _ = true

abbrev is_unknown : OperationState → Bool
is_unknown OperationState.unknown = true
is_unknown _ = false

abbrev is_progressing : OperationState → Bool
is_progressing OperationState.waiting = false
is_progressing OperationState.unknown = false
is_progressing _ = true

abbrev is_status : Option ResponseStatus → ResponseStatus → Bool
is_status found status = is_just ResponseStatus-discrete found status

module _ {V : Type 0} where
  abbrev count_status : WorkStatus → OperationRecord V → WorkStatus
  count_status status operation = record {
    busy = true;
    host_busy = status.host_busy || is_host operation.owner;
    unknown = status.unknown || is_unknown operation.state;
    progressing = status.progressing || is_progressing operation.state;
  }

  -- The loop of `WorkStatus::read`.
  unfoldable pub read_from : WorkStatus → Map String (OperationRecord V) → WorkStatus
  unfolding terminal
  read_from status [] = status
  read_from status ((_, operation) ∷ operations) =
      read_from (if terminal operation.state then status else count_status status operation)
        operations

  -- `WorkStatus::read`
  abbrev pub read_status : Map String (OperationRecord V) → WorkStatus
  read_status operations =
      read_from (record { busy = false; host_busy = false; unknown = false; progressing = false })
        operations

module _ {V S : Type 0} ⦃environment : Environment V⦄ where
  -- `Engine::can_advance`
  unfoldable pub can_advance : Engine V S → WorkStatus → Bool
  can_advance e status =
      let session = e.current.active.session in
      (not status.busy
        || session.needs_generation
          && not status.host_busy
          && is_status session.response_status ResponseStatus.continuation)
      && session.ready
      && not (is_generating session)
      && no_items e.current.active.commands
      && not e.volatile.sending

  -- `Engine::input_finished`
  unfoldable pub input_finished : Engine V S → Bool
  input_finished e =
      let session = e.current.active.session in
      (not (declares e response_events)
        || is_status session.response_status ResponseStatus.completed
          && not session.needs_generation
          && session.generated_input_position == session.input_position)
      && (is_task e.current.options.mode || session.input_closed)

  -- `Engine::waiting_for_input`
  unfoldable pub waiting_for_input : Engine V S → WorkStatus → Bool
  waiting_for_input e status =
      status.busy
      && no_items e.current.active.commands
      && not e.volatile.sending
      && not status.progressing
      && (is_task e.current.options.mode || status.unknown)
      && no_items e.volatile.pending_replies
      && no_items e.volatile.pending_starts
      && is_some e.current.active.session.response_status

module _ {V : Type 0} ⦃j : Json V⦄ where
  abbrev shown : Message V → List (Content V)
  shown (Message.assistant output _) = visible_content output
  shown _ = []

  abbrev shown_all : List (Message V) → List (Content V)
  shown_all [] = []
  shown_all (message ∷ messages) = shown message ++ shown_all messages

  -- What a completed run answers: the content of its last response, or of the whole run where it is
  -- interactive.
  unfoldable pub final_content : Checkpoint V → List (Content V)
  unfolding conversation visible_content entries
  final_content c = shown_all (
      conversation (
        drop
          (if is_task c.options.mode
            then c.active.session.response_start
            else c.active.session.run_start)
          (entries c.history)))

module _ {V S : Type 0} ⦃j : Json V⦄ ⦃hashing : Hashing V⦄ ⦃store : RunStore V S⦄
    ⦃environment : Environment V⦄ where
  unfoldable pub complete_run : Action V S Bool
  complete_run = do
    current ← checkpoint
    commit (record current { state = State.completed (final_content current) })
        (Fact.control ControlAction.finished) HistoryDelta.unchanged
    pure true

  -- `Engine::finish_or_drain`
  unfoldable pub finish_or_drain : Action V S Bool
  finish_or_drain = do
    e ← gets (λ e. e)
    if is_some e.current.active.session.closure
        then (if e.volatile.media_pending || e.volatile.input_sending
            then pure false
            else complete_run)
        else if e.current.active.session.closing || e.volatile.input_sending
        then pure false
        else prepare_command CommandIntent.close >> pure true

  abbrev pub wait_or_stay : Engine V S → WorkStatus → Action V S Bool
  wait_or_stay e status =
      if waiting_for_input e status
      then suspend (if status.unknown then WaitReason.recovery else WaitReason.input) >> pure true
      else pure false

  abbrev pub finish_or_wait : Engine V S → WorkStatus → Bool → Action V S Bool
  finish_or_wait e status true = pure true
  finish_or_wait e status false = wait_or_stay e status

  -- `Engine::advance`: true when the run has moved.
  unfoldable pub advance_run : Action V S Bool
  advance_run = do
    e ← gets (λ e. e)
    let status : WorkStatus = read_status e.current.active.operations
    if can_advance e status
        then (if e.current.active.session.needs_generation && declares e explicit_generation
            then generate >> pure true
            else if input_finished e
            then finish_or_drain >>= finish_or_wait e status
            else wait_or_stay e status)
        else wait_or_stay e status

-- The state of a run that an error ends, and its fact.
abbrev pub ended_by : {V : Type 0} → Environment V → Error → State V × ControlAction
ended_by environment Error.cancelled = (State.cancelled, ControlAction.cancelled)
ended_by environment Error.deadline = (State.limited LimitReason.deadline, ControlAction.limited)
ended_by environment error = (State.failed (failure_of environment error), ControlAction.failed)

abbrev pub lost_state : OperationState → OperationState
lost_state OperationState.running = OperationState.unknown
lost_state OperationState.cancelling = OperationState.unknown
lost_state state = state

module _ {V : Type 0} where
  -- What may still run outside is unknown.
  unfoldable pub lose_all : Map String (OperationRecord V) → Map String (OperationRecord V)
  lose_all operations = map (λ o. (o.0, record o.1 { state = lost_state o.1.state })) operations

module _ {V S : Type 0} ⦃store : RunStore V S⦄ ⦃environment : Environment V⦄ where
  -- The last commit of a run that an error ends.
  unfoldable pub commit_end : Error → Action V S (Unit {0})
  commit_end error = do
    current ← checkpoint
    let (state, action) = ended_by environment error
    commit (with_operations (lose_all current.active.operations) (record current { state = state }))
        (Fact.control action) HistoryDelta.unchanged

  -- `Engine::settle`, whose result is read beside the checkpoint that is then current.
  abbrev pub settle_run : Result (Unit {0}) → Action V S (Unit {0})
  settle_run (ok _) = done
  settle_run (err (storage text)) = raise (storage text)
  settle_run (err (conflict expected actual)) = raise (conflict expected actual)
  settle_run (err error) = commit_end error
