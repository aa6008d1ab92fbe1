-- ===== src/Engine/Completion.antt =====
-- crates/zhir-kernel/src/engine/completion.rs, with `append_command` of commands.rs: an operation is
-- settled once, by an entry of the history.
use Prim.Native.String.{◌++◌ as append_text}
use zhir.Prelude.{
  ℕ, String, Bool, false, Option, none, some, List, [], ◌∷◌, any, lookup, remove, discard, same,
  String-discrete, if◌then◌else◌,
}
use zhir.Error.{protocol}
use zhir.Value.{Json}
use zhir.Operation.{
  CallRef, OperationRecord, OperationState, OperationOwner, OperationOutcome, OperationUpdate,
  outcome_state, outcome_content, validate_outcome, terminal, OperationOutcome-discrete,
}
use zhir.Operation
use zhir.Message.{
  Message, Output, ProviderToolCall, ProviderToolStatus, settlement, matches_outcome,
}
use zhir.Message
use zhir.Model.{AppendSource, submitted, accepted}
use zhir.History.Entry.{HistoryEntry, Hashing}
use zhir.History.Chain.{History, get, get_some, by_id, append}
use zhir.Run.{Checkpoint, CommandIntent, Fact}
use zhir.Storage.Commit.{HistoryDelta}
use zhir.Engine.Action.{
  RunStore, Environment, Action, next_u64, pure, raise, lift, ◌>>=◌, ◌>>◌, done, checkpoint, adjust,
  new_id,
}
use zhir.Engine.Changes.{or_else, put_operation, push_command, with_session}
use zhir.Engine.Commit.{commit}

-- The status of a provider call by the state of its operation.
abbrev pub status_of : OperationState → ProviderToolStatus
status_of Operation.succeeded = ProviderToolStatus.completed
status_of OperationState.cancelled = ProviderToolStatus.cancelled
status_of _ = ProviderToolStatus.failed

-- `format!("operation:{id}:result")`
abbrev pub result_id : String → String
result_id id = append_text "operation:" (append_text id ":result")

module _ {V : Type 0} ⦃j : Json V⦄ where
  abbrev is_settled_call : OperationOutcome V → Output V → Bool
  is_settled_call outcome (Message.provider_tool_call call) = matches_outcome call outcome
  is_settled_call outcome _ = false

  -- `same_outcome`
  unfoldable pub same_outcome : Message V → OperationOutcome V → Bool
  unfolding matches_outcome
  same_outcome (Message.runtime_tool _ _ previous) outcome =
      same OperationOutcome-discrete previous outcome
  same_outcome (Message.delegation_result _ previous) outcome =
      same OperationOutcome-discrete previous outcome
  same_outcome (Message.assistant output _) outcome = any (is_settled_call outcome) output
  same_outcome _ outcome = false

  -- `is_some_and(|entry| same_outcome(&entry.message, &outcome))`
  abbrev pub settled_by : Option (HistoryEntry V) → OperationOutcome V → Bool
  settled_by none outcome = false
  settled_by (some entry) outcome = same_outcome entry.message outcome

  -- `record.result_entry.expect(...)` and the entry there; without an index, where the code panics,
  -- there is none.
  abbrev pub result_of : History V → OperationRecord V → Option (HistoryEntry V)
  result_of h operation = get_some h operation.result_entry

module _ {V : Type 0} where
  abbrev pub finished_update : Option ℕ → OperationOutcome V → Option (OperationUpdate V)
  finished_update none outcome = none
  finished_update (some sequence) outcome = some (Operation.finished outcome)

  -- An operation with its result at an index of the history.
  abbrev pub settle : OperationRecord V → OperationOutcome V → Option ℕ → ℕ → OperationRecord V
  settle operation outcome sequence index = record operation {
    state = outcome_state outcome;
    last_sequence = or_else sequence operation.last_sequence;
    last_update = or_else (finished_update sequence outcome) operation.last_update;
    result_entry = some index;
    wait = none;
  }

  -- `find_map` of the first provider call.
  unfoldable pub first_call : List (Output V) → Option (ProviderToolCall V)
  first_call [] = none
  first_call (Message.provider_tool_call call ∷ _) = some call
  first_call (_ ∷ items) = first_call items

  -- The call with its result.
  abbrev pub settle_call : ProviderToolCall V → OperationOutcome V → ProviderToolCall V
  settle_call call outcome = record call {
    status = status_of (outcome_state outcome);
    output = outcome_content outcome;
    outcome = some (settlement outcome);
  }

  abbrev pub result_entry : String → OperationRecord V → Message V → HistoryEntry V
  result_entry id operation message = record {
    id = result_id id;
    origin = some operation.origin;
    message = message;
  }

module _ {V S : Type 0} ⦃environment : Environment V⦄ where
  -- `Engine::append_command`
  unfoldable pub append_command :
      Checkpoint V → ℕ → AppendSource → Option String → Action V S (Checkpoint V)
  append_command next entry source operation_id = do
    id ← new_id
    let revision : ℕ = next_u64 next.active.session.context_revision
    let advanced : Checkpoint V =
        with_session (record next.active.session { context_revision = revision }) next
    pure (
        push_command id
          (CommandIntent.append entry revision next.active.session.input_position source
            operation_id)
          advanced)

module _ {V S : Type 0} ⦃j : Json V⦄ ⦃hashing : Hashing V⦄ ⦃store : RunStore V S⦄
    ⦃environment : Environment V⦄ where
  -- The entry of the result, its command and the commit of both.
  unfoldable pub settle_with :
      String
      → OperationRecord V
      → OperationOutcome V
      → Option ℕ
      → Message V
      → AppendSource
      → Option String
      → Action V S (Unit {0})
  settle_with id operation outcome sequence message source command_for = do
    current ← checkpoint
    let entry : HistoryEntry V = result_entry id operation message
    history ← lift (append current.history (entry ∷ []))
    let index : ℕ = current.history.len
    next ←
        append_command
          (put_operation id (settle operation outcome sequence index)
            (record current { history = history }))
          index source command_for
    commit next (Fact.operation id (outcome_state outcome)) (HistoryDelta.append (entry ∷ []))

  -- `Engine::finish_provider`, over the first call of its entry. An entry that is missing, where the
  -- code panics, is refused.
  abbrev pub finish_call :
      OperationRecord V
      → OperationOutcome V
      → Option ℕ
      → Option (ProviderToolCall V)
      → Action V S (Unit {0})
  finish_call operation outcome sequence none = raise (protocol "provider call missing")
  finish_call operation outcome sequence (some call) =
      settle_with operation.id operation outcome sequence
        (Message.assistant (Message.provider_tool_call (settle_call call outcome) ∷ []) j.null)
        accepted none

  abbrev pub finish_provider :
      OperationRecord V
      → OperationOutcome V
      → Option ℕ
      → Option (HistoryEntry V)
      → Action V S (Unit {0})
  finish_provider operation outcome sequence none = raise (protocol "provider call entry mismatch")
  finish_provider operation outcome sequence (some entry) = elim entry.message [
    | Message.assistant output _ ↦ finish_call operation outcome sequence (first_call output)
    | _ ↦ raise (protocol "provider call entry mismatch")
  ]

  -- The result of the engine's own operation, after which its handles are dropped.
  unfoldable pub finish_local :
      String → OperationRecord V → OperationOutcome V → Option ℕ → Message V → Action V S (Unit {0})
  finish_local id operation outcome sequence message = do
    settle_with id operation outcome sequence message submitted (some id)
    adjust (λ v. record v {
      tokens = remove String-discrete id v.tokens;
      operation_controls = discard String-discrete id v.operation_controls;
    })

  -- An operation that is not settled, by its owner.
  abbrev pub finish_owned :
      String
      → OperationRecord V
      → OperationOutcome V
      → Option ℕ
      → OperationOwner
      → Action V S (Unit {0})
  finish_owned id operation outcome sequence (Operation.runtime_tool name) =
      finish_local id operation outcome sequence
        (Message.runtime_tool operation.origin.call_id name outcome)
  finish_owned id operation outcome sequence Operation.delegation =
      finish_local id operation outcome sequence
        (Message.delegation_result operation.origin.call_id outcome)
  finish_owned id operation outcome sequence (Operation.provider _) = do
    current ← checkpoint
    finish_provider operation outcome sequence (get current.history operation.call_entry)

  -- An outcome that is already there is accepted again, and another one refused.
  abbrev pub confirm : Option (HistoryEntry V) → OperationOutcome V → String → Action V S (Unit {0})
  confirm entry outcome conflict =
      if settled_by entry outcome then done else raise (protocol conflict)

  abbrev pub finish_found :
      String
      → OperationOutcome V
      → Option ℕ
      → Checkpoint V
      → Option (OperationRecord V)
      → Action V S (Unit {0})
  finish_found id outcome sequence current none =
      confirm (by_id current.history (result_id id)) outcome
        "unknown or conflicting operation completion"
  finish_found id outcome sequence current (some operation) =
      if terminal operation.state
      then confirm (result_of current.history operation) outcome "conflicting operation completion"
      else finish_owned id operation outcome sequence operation.owner

  -- `Engine::finish_at`
  unfoldable pub finish_at : String → OperationOutcome V → Option ℕ → Action V S (Unit {0})
  finish_at id outcome sequence = do
    lift (validate_outcome outcome)
    current ← checkpoint
    finish_found id outcome sequence current (lookup String-discrete id current.active.operations)

  -- `Engine::finish`
  abbrev pub finish : String → OperationOutcome V → Action V S (Unit {0})
  finish id outcome = finish_at id outcome none

module _ (V : Type 0) ⦃environment : Environment V⦄ where
  -- `provider_operation_id`
  unfoldable pub provider_operation_id : CallRef → String
  provider_operation_id origin = append_text "provider:" (
      environment.array_text (
        some origin.session_id
        ∷ origin.generation_id
        ∷ some origin.caller_id
        ∷ some origin.call_id
        ∷ []))
