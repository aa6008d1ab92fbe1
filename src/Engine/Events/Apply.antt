-- ===== src/Engine/Events/Apply.antt =====
-- crates/zhir-kernel/src/engine/model_events.rs: `apply_event`, one event of a session on a staged
-- checkpoint.
use zhir.Prelude.{
  ℕ, String, Bool, true, false, not, ◌&&◌, ◌||◌, Option, none, some, List, [], ◌∷◌, any, ltb, ◌==◌,
  is_empty, is_some, same, String-discrete, if◌then◌else◌,
}
use zhir.Error.{protocol}
use zhir.Value.{Json}
use zhir.Operation.{terminal}
use zhir.Message.{Message, Output, ProviderToolCall, validate_message}
use zhir.Message
use zhir.Model.{response_events, explicit_generation, streaming_input, conversation_items}
use zhir.History.Entry.{HistoryEntry, HistoryEntry-discrete, Hashing}
use zhir.History.Chain.{by_id}
use zhir.Run.{Checkpoint, CommandIntent, SessionEstablishment, SessionSnapshot}
use zhir.Run.Options.{RunMode}
use zhir.Run.Operations.{is_just, any_operation}
use zhir.Engine.State.{Completion, SessionEventBody}
use zhir.Engine.State
use zhir.Engine.Action.{
  Environment, Action, pure, raise, lift, gets, ◌>>=◌, ◌>>◌, raise_if, adjust, new_id,
}
use zhir.Engine.Changes.{push_command, with_session}
use zhir.Engine.Session.{declares, no_items}
use zhir.Engine.Commands.{is_generating}
use zhir.Engine.Events.Output.{stage_entries, stage_output}
use zhir.Engine.Events.Response.{acknowledge_command, complete_response}

pub record Effects : Type 0 where
  pub seal_user_input : Bool
  pub suspend : Bool
  pub provider_state : Bool

abbrev pub no_effects : Effects
no_effects = record { seal_user_input = false; suspend = false; provider_state = false }

abbrev pub is_task : RunMode → Bool
is_task RunMode.task = true
is_task _ = false

module _ {V : Type 0} where
  abbrev pub in_session : (SessionSnapshot V → SessionSnapshot V) → Checkpoint V → Checkpoint V
  in_session f next = with_session (f next.active.session) next

  abbrev pub is_plain : Output V → Bool
  is_plain (Message.content _) = true
  is_plain _ = false

  -- A whole message of a conversation is a user's, or an assistant's of content alone.
  unfoldable pub is_conversational : Message V → Bool
  is_conversational (Message.user _) = true
  is_conversational (Message.assistant output _) = not (any (λ o. not (is_plain o)) output)
  is_conversational _ = false

  abbrev pub is_call : Output V → Bool
  is_call (Message.provider_tool_call _) = true
  is_call _ = false

  -- Work that a closed session leaves behind.
  abbrev pub has_left_work : Checkpoint V → Bool
  has_left_work next =
      is_some next.active.session.closure
      && (any_operation (λ o. not (terminal o.state)) next.active.operations
          || not (no_items next.active.commands)
          || is_generating next.active.session)

  abbrev pub begun : String → ℕ → Checkpoint V → Checkpoint V
  begun generation_id input_position next =
      in_session
        (λ s. record s {
          generation_id = some generation_id;
          generated_input_position = input_position;
          generation_started = false;
          response_status = none;
          response_start = next.history.len;
        })
        next

module _ {V S : Type 0} ⦃environment : Environment V⦄ where
  -- A generation that the model has begun by itself.
  abbrev pub begin_automatic : Bool → Checkpoint V → String → ℕ → Action V S (Checkpoint V)
  begin_automatic true next generation_id input_position = pure next
  begin_automatic false next generation_id input_position = do
    raise_if
        (is_empty generation_id
          || ltb next.active.session.input_position input_position
          || is_generating next.active.session)
        (protocol "overlapping or invalid automatic generation")
    pure (begun generation_id input_position next)

  -- A task seals its streamed input with the first response.
  abbrev pub seal_task : Bool → Checkpoint V → Action V S (Checkpoint V × Effects)
  seal_task false next = pure (next, no_effects)
  seal_task true next = do
    id ← new_id
    pure (
      push_command id CommandIntent.seal_user_input
          (in_session (λ s. record s { input_closed = true }) next),
      record no_effects { seal_user_input = true },
    )

  unfoldable pub start_response : Checkpoint V → String → ℕ → Action V S (Checkpoint V × Effects)
  start_response next generation_id input_position = do
    reports ← gets (λ e. declares e response_events)
    raise_if (not reports) (protocol "undeclared response events")
    explicit ← gets (λ e. declares e explicit_generation)
    started ← begin_automatic explicit next generation_id input_position
    raise_if
        (started.active.session.generation_started
          || not (is_just String-discrete started.active.session.generation_id generation_id)
          || not (started.active.session.generated_input_position == input_position))
        (protocol "unexpected response start")
    streams ← gets (λ e. declares e streaming_input)
    seal_task (is_task next.options.mode && streams)
        (in_session (λ s. record s { generation_started = true }) started)

  unfoldable pub become_ready : Checkpoint V → ℕ → Action V S (Checkpoint V)
  become_ready next context_revision = do
    raise_if next.active.session.ready (protocol "duplicate session ready")
    raise_if (not (context_revision == next.active.session.acknowledged_context_revision))
        (protocol "initial projection revision mismatch")
    pure (
        in_session
          (λ s. record s { ready = true; establishment = SessionEstablishment.established }) next)

  unfoldable pub close_session : Checkpoint V → String → V → Action V S (Checkpoint V)
  close_session next reason provider_data = do
    raise_if (is_empty reason || is_some next.active.session.closure)
        (protocol "invalid or duplicate session closure")
    adjust (λ v. record v { media_closed = true })
    pure (
        in_session
          (λ s. record s {
            closure = some (record { reason = reason; provider_data = provider_data });
            input_closed = true;
          })
          next)

module _ {V : Type 0} ⦃environment : Environment V⦄ where
  abbrev pub conversation_entry : Checkpoint V → String → Message V → HistoryEntry V
  conversation_entry next item_id message = record {
    id =
        environment.array_text
          (some next.active.session.id ∷ some "conversation" ∷ some item_id ∷ []);
    origin = none;
    message = message;
  }

module _ {V S : Type 0} ⦃j : Json V⦄ ⦃hashing : Hashing V⦄ ⦃environment : Environment V⦄ where
  abbrev pub new_entries :
      HistoryEntry V → Option (HistoryEntry V) → Action V S (List (HistoryEntry V))
  new_entries entry none = pure (entry ∷ [])
  new_entries entry (some previous) =
      if same HistoryEntry-discrete previous entry
      then pure []
      else raise (protocol "conflicting conversation item")

  unfoldable pub converse : Checkpoint V → String → Message V → Action V S (List (HistoryEntry V))
  converse next item_id message = do
    able ← gets (λ e. declares e conversation_items)
    raise_if (not able || is_empty item_id || not (is_conversational message))
        (protocol "invalid conversation item")
    lift (validate_message message)
    let entry : HistoryEntry V = conversation_entry next item_id message
    new_entries entry (by_id next.history entry.id)

  -- The end of `apply_event`: the work that a closed session leaves, and the new entries.
  unfoldable pub conclude_event :
      Checkpoint V → Effects → List (HistoryEntry V) → Action V S (Checkpoint V × Effects)
  conclude_event next effects entries = do
    staged ← stage_entries next entries
    pure (staged, record effects { suspend = has_left_work next })

  -- An event of each kind, after its sequence. Operations and deltas are not batched.
  abbrev pub apply_body : Checkpoint V → SessionEventBody V → Action V S (Checkpoint V × Effects)
  apply_body next (State.ready context_revision) = do
    changed ← become_ready next context_revision
    conclude_event changed no_effects []
  apply_body next (State.response_started generation_id input_position) = do
    started ← start_response next generation_id input_position
    conclude_event started.0 started.1 []
  apply_body next (State.conversation_item item_id message) = do
    entries ← converse next item_id message
    conclude_event next no_effects entries
  apply_body next (State.acknowledged command_id reference) = do
    changed ← acknowledge_command next command_id reference
    conclude_event changed no_effects []
  apply_body next (State.output generation_id item_id caller_id output) = do
    staged ← stage_output next generation_id item_id caller_id output
    pure (staged.0, record no_effects { suspend = staged.1; provider_state = is_call output })
  apply_body next (State.response_finished completion) = do
    finished ← lift (complete_response next completion)
    conclude_event finished.0 no_effects (finished.1 ∷ [])
  apply_body next (State.recovery reference) =
      conclude_event (in_session (λ s. record s { recovery = some reference }) next) no_effects []
  apply_body next (State.closed reason provider_data) = do
    closed ← close_session next reason provider_data
    conclude_event closed no_effects []
  apply_body next (State.delta _ _) = pure (next, no_effects)
  apply_body next (State.operation _ _) = pure (next, no_effects)

  -- `Engine::apply_event`
  unfoldable pub apply_event :
      Checkpoint V → ℕ → SessionEventBody V → Action V S (Checkpoint V × Effects)
  apply_event next sequence body =
      apply_body (in_session (λ s. record s { last_sequence = some sequence }) next) body
