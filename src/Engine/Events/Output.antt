-- ===== src/Engine/Events/Output.antt =====
-- crates/zhir-kernel/src/engine/model_events.rs: `stage_entries`, and `stage_output` with
-- `record_output`: an item of the model's output is an entry, and a call is an operation too.
use zhir.Prelude.{
  ℕ, suc, ◌-◌, String, Bool, true, false, not, ◌&&◌, ◌||◌, Option, none, some, List, [], ◌∷◌, Map,
  leb, length, find, is_empty, is_some, lookup, retain, same, String-discrete, if◌then◌else◌,
}
use zhir.Error.{protocol, invalid}
use zhir.Value.{Json}
use zhir.Operation.{CallRef, OperationOwner, OperationRecord, OperationState, terminal}
use zhir.Operation
use zhir.Message.{Message, Output, ProviderToolCall, ProviderToolStatus, validate_output}
use zhir.Message
use zhir.Model.{AppendSource, accepted, explicit_generation}
use zhir.Model
use zhir.History.Entry.{HistoryEntry, HistoryEntry-discrete, Hashing}
use zhir.History.Chain.{append, by_id}
use zhir.Run.{Checkpoint, SessionSnapshot}
use zhir.Storage.Commit.{OptionText-discrete}
use zhir.Engine.Action.{Environment, Action, pure, raise, lift, gets, ◌>>=◌, ◌>>◌, raise_if, new_id}
use zhir.Engine.Changes.{put_operation}
use zhir.Engine.Completion.{append_command, provider_operation_id}
use zhir.Engine.Session.{declares, no_items}

module _ {V S : Type 0} ⦃environment : Environment V⦄ where
  -- A command for each of the entries that were added, from an index on.
  unfoldable pub append_commands : Checkpoint V → ℕ → ℕ → Action V S (Checkpoint V)
  append_commands next index ℕ.zero = pure next
  append_commands next index (suc count) = do
    changed ← append_command next index accepted none
    append_commands changed (suc index) count

module _ {V S : Type 0} ⦃j : Json V⦄ ⦃hashing : Hashing V⦄ ⦃environment : Environment V⦄ where
  -- `Engine::stage_entries`
  unfoldable pub stage_entries : Checkpoint V → List (HistoryEntry V) → Action V S (Checkpoint V)
  stage_entries next entries = if no_items entries then pure next else do
    let start : ℕ = next.history.len
    history ← lift (append next.history entries)
    explicit ← gets (λ e. declares e explicit_generation)
    if explicit
        then append_commands (record next { history = history }) start (history.len - start)
        else pure (record next { history = history })

abbrev is_provider_of : String → OperationOwner → Bool
is_provider_of name (Operation.provider p) = same String-discrete p name
is_provider_of name _ = false

module _ {V : Type 0} where
  abbrev pub call_id_of : Output V → String → String
  call_id_of (Message.delegation request) item_id = request.id
  call_id_of (Message.runtime_tool_call call) item_id = call.id
  call_id_of (Message.provider_tool_call call) item_id = call.id
  call_id_of (Message.content _) item_id = item_id

  abbrev pub is_work : Output V → Bool
  is_work (Message.content _) = false
  is_work _ = true

  abbrev continues : ProviderToolCall V → CallRef → String × OperationRecord V → Bool
  continues call origin (_, operation) =
      not (terminal operation.state)
      && same String-discrete operation.origin.call_id call.id
      && same String-discrete operation.origin.caller_id origin.caller_id
      && is_provider_of call.provider operation.owner

  -- The origin of a provider call that continues an operation is that operation's.
  unfoldable pub origin_of : Map String (OperationRecord V) → Output V → CallRef → CallRef
  unfolding terminal
  origin_of operations (Message.provider_tool_call call) origin =
      elim (find (continues call origin) operations) [
        | none ↦ origin
        | some (_, operation) ↦ operation.origin
      ]
  origin_of operations _ origin = origin

  -- An operation that was not there.
  abbrev pub new_operation :
      String → CallRef → OperationOwner → OperationState → ℕ → OperationRecord V
  new_operation id origin owner state index = record {
    id = id;
    origin = origin;
    owner = owner;
    state = state;
    call_entry = index;
    result_entry = none;
    recovery = none;
    last_sequence = none;
    last_update = none;
    wait = none;
  }

  unfoldable pub unfinished : Map String (OperationRecord V) → ℕ
  unfolding terminal
  unfinished operations = length (retain (λ o. not (terminal o.1.state)) operations)

-- The state of an operation by the status of its provider call.
unfoldable pub state_of : ProviderToolStatus → OperationState
state_of ProviderToolStatus.pending = OperationState.running
state_of ProviderToolStatus.running = OperationState.running
state_of ProviderToolStatus.failed = OperationState.failed
state_of ProviderToolStatus.incomplete = OperationState.failed
state_of ProviderToolStatus.cancelled = OperationState.cancelled
state_of ProviderToolStatus.completed = OperationState.succeeded

module _ {V : Type 0} ⦃environment : Environment V⦄ where
  abbrev or_new : Option (OperationRecord V) → OperationRecord V → OperationRecord V
  or_new none operation = operation
  or_new (some old) operation = old

  -- The operation of a provider call: the one that is there, or a new one, in the call's state.
  unfoldable pub record_call : Checkpoint V → CallRef → ProviderToolCall V → Checkpoint V
  record_call next origin call =
      let id = provider_operation_id V origin in
      let state = state_of call.status in
      let index = next.history.len in
      let old =
        or_new (lookup String-discrete id next.active.operations)
          (new_operation id origin (Operation.provider call.provider) state index) in
      put_operation id
        (record old { state = state; result_entry = if terminal state then some index else none })
        next

module _ {V S : Type 0} ⦃environment : Environment V⦄ where
  unfoldable pub record_queued : Checkpoint V → CallRef → OperationOwner → Action V S (Checkpoint V)
  record_queued next origin owner = do
    id ← new_id
    pure (
        put_operation id (new_operation id origin owner OperationState.queued next.history.len)
          next)

  -- `Engine::record_output`
  unfoldable pub record_output : Checkpoint V → Output V → CallRef → Action V S (Checkpoint V)
  record_output next (Message.delegation request) origin = do
    able ← gets (λ e. declares e Model.delegation)
    raise_if (not able) (protocol "undeclared delegation capability")
    raise_if (leb next.options.limits.max_inflight_operations (length next.active.operations))
        (invalid "inflight operation capacity exceeded")
    record_queued next origin Operation.delegation
  record_output next (Message.runtime_tool_call call) origin = do
    raise_if (leb next.options.limits.max_inflight_operations (unfinished next.active.operations))
        (invalid "inflight operation capacity exceeded")
    record_queued next origin (Operation.runtime_tool call.name)
  record_output next (Message.provider_tool_call call) origin = pure (record_call next origin call)
  record_output next (Message.content _) origin = pure next

module _ {V : Type 0} where
  -- `generation_id.is_some()` and it is not the session's running generation.
  abbrev pub is_foreign : SessionSnapshot V → Option String → Bool
  is_foreign session generation_id =
      is_some generation_id
      && (not (same OptionText-discrete session.generation_id generation_id)
          || is_some session.response_status
          || not session.generation_started)

module _ {V : Type 0} ⦃j : Json V⦄ ⦃environment : Environment V⦄ where
  -- The entry of an item, named by what `serde_json` prints of its identities.
  abbrev pub output_entry :
      Checkpoint V → Option String → String → CallRef → Output V → HistoryEntry V
  output_entry next generation_id item_id origin output = record {
    id =
        environment.array_text
          (some next.active.session.id ∷ generation_id ∷ some origin.caller_id ∷ some item_id ∷ []);
    origin = some origin;
    message = Message.assistant (output ∷ []) j.null;
  }

module _ {V S : Type 0} ⦃j : Json V⦄ ⦃hashing : Hashing V⦄ ⦃environment : Environment V⦄ where
  -- An item that is new; the Boolean is late work after closing.
  unfoldable pub stage_new :
      Checkpoint V → HistoryEntry V → Output V → CallRef → Action V S (Checkpoint V × Bool)
  stage_new next entry output origin = do
    recorded ← record_output next output origin
    staged ← stage_entries recorded (entry ∷ [])
    pure (staged, next.active.session.closing && is_work output)

  -- An entry that is there already must be the same.
  abbrev pub stage_known :
      Checkpoint V
      → HistoryEntry V
      → Output V
      → CallRef
      → Option (HistoryEntry V)
      → Action V S (Checkpoint V × Bool)
  stage_known next entry output origin (some previous) =
      if same HistoryEntry-discrete previous entry
      then pure (next, false)
      else raise (protocol "conflicting output identity")
  stage_known next entry output origin none = stage_new next entry output origin

  -- `Engine::stage_output`
  unfoldable pub stage_output :
      Checkpoint V → Option String → String → String → Output V → Action V S (Checkpoint V × Bool)
  stage_output next generation_id item_id caller_id output = do
    raise_if (is_foreign next.active.session generation_id)
        (protocol "output belongs to another generation")
    lift (validate_output (output ∷ []))
    raise_if (is_empty item_id || is_empty caller_id)
        (protocol "output requires nonempty item and caller identities")
    let origin : CallRef = origin_of next.active.operations output (record {
      session_id = next.active.session.id;
      item_id = item_id;
      generation_id = generation_id;
      caller_id = caller_id;
      call_id = call_id_of output item_id;
    })
    let entry : HistoryEntry V = output_entry next generation_id item_id origin output
    stage_known next entry output origin (by_id next.history entry.id)
