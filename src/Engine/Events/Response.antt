-- ===== src/Engine/Events/Response.antt =====
-- crates/zhir-kernel/src/engine/model_events.rs: `acknowledge_command` and `complete_response`.
use Prim.Native.String.{◌++◌ as append_text}
use zhir.Prelude.{
  ℕ, String, Bool, true, false, not, ◌||◌, Option, none, some, List, [], ◌∷◌, Map, map, leb, ltb,
  ◌==◌, insert, is_some, remove, retain, discard, same, String-discrete, if◌then◌else◌,
}
use zhir.Error.{Result, ok, err, protocol, new_failure}
use zhir.Error
use zhir.Value.{Json}
use zhir.Profile.{RequestProfile}
use zhir.Operation.{CallRef, OperationOwner, OperationRecord, RecoveryRef, terminal}
use zhir.Operation
use zhir.Message
use zhir.Model.{Confirmation, NegotiatedProfile, ResponseStatus, Usage, add_usage}
use zhir.History.Entry.{HistoryEntry}
use zhir.History.Chain.{entries}
use zhir.Run.{
  Checkpoint, CommandIntent, LimitReason, Metrics, PendingCommand, SessionSnapshot, State,
}
use zhir.Run
use zhir.Run.Operations.{is_just}
use zhir.Engine.State.{Completion}
use zhir.Engine.Action.{
  Environment, Action, next_u64, pure, lift, gets, ◌>>=◌, ◌>>◌, or_raise, adjust,
}
use zhir.Engine.Changes.{with_operations, with_commands, with_session, or_else}
use zhir.Engine.Session.{negotiate_profile}

abbrev or_zero : Option ℕ → ℕ
or_zero none = 0
or_zero (some n) = n

-- `extend` of a map.
unfoldable pub extend_map {ℓ} : {A : Type ℓ} → Map String A → Map String A → Map String A
extend_map m [] = m
extend_map m ((key, value) ∷ rest) = extend_map (insert String-discrete key value m) rest

abbrev counted : Metrics → Usage → Metrics
counted metrics usage = record metrics {
  usage = add_usage metrics.usage usage;
  observed_responses = some (next_u64 (or_zero metrics.observed_responses));
}

module _ {V : Type 0} where
  -- The confirmation of every value that was negotiated is unknown.
  abbrev pub unconfirmed : NegotiatedProfile V → Map String (Confirmation V)
  unconfirmed negotiated = map (λ e. (e.0, Confirmation.unknown)) negotiated.selected

  -- The first command of an identity, and the commands without it.
  unfoldable pub take_command :
      String → List (PendingCommand V) → Option (PendingCommand V × List (PendingCommand V))
  take_command id [] = none
  take_command id (command ∷ commands) =
      if same String-discrete command.id id
      then some (command, commands)
      else elim (take_command id commands) [
        | none ↦ none
        | some (found, rest) ↦ some (found, command ∷ rest)
      ]

  -- The result that a command carried leaves the operations.
  abbrev pub drop_result : CommandIntent V → Checkpoint V → Checkpoint V
  drop_result (Run.append _ _ _ _ (some operation_id)) next =
      with_operations (remove String-discrete operation_id next.active.operations) next
  drop_result _ next = next

  abbrev acknowledge_revision : ℕ → Checkpoint V → Result (Checkpoint V)
  acknowledge_revision revision next =
      if revision == next_u64 next.active.session.acknowledged_context_revision
      then ok (
          with_session (record next.active.session { acknowledged_context_revision = revision })
            next)
      else err (protocol "out-of-order projection acknowledgement")

  -- Projections are acknowledged in the order of their revisions.
  unfoldable pub acknowledge_projection : CommandIntent V → Checkpoint V → Result (Checkpoint V)
  acknowledge_projection (Run.append _ revision _ _ _) next = acknowledge_revision revision next
  acknowledge_projection (Run.replace_context revision) next = acknowledge_revision revision next
  acknowledge_projection _ next = ok next

  abbrev pub with_recovery : Option (RecoveryRef V) → Checkpoint V → Checkpoint V
  with_recovery reference next =
      with_session
        (record next.active.session { recovery = or_else reference next.active.session.recovery })
        next

  abbrev pub with_profile : ℕ → RequestProfile V → NegotiatedProfile V → Checkpoint V → Checkpoint V
  with_profile revision profile negotiated next =
      with_session
        (record next.active.session {
          negotiated = negotiated;
          effective = record { values = unconfirmed negotiated };
          profile_revision = revision;
          profile = profile;
        })
        next

module _ {V S : Type 0} ⦃j : Json V⦄ ⦃environment : Environment V⦄ where
  abbrev pub acknowledge_profile : CommandIntent V → Checkpoint V → Action V S (Checkpoint V)
  acknowledge_profile (Run.update_profile revision profile) next = do
    negotiated ← gets (λ e. negotiate_profile e (entries next.history) profile)
    values ← lift negotiated
    pure (with_profile revision profile values next)
  acknowledge_profile _ next = pure next

  -- `Engine::acknowledge_command`
  unfoldable pub acknowledge_command :
      Checkpoint V → String → Option (RecoveryRef V) → Action V S (Checkpoint V)
  acknowledge_command next command_id reference = do
    taken ←
        or_raise (take_command command_id next.active.commands)
          (protocol "acknowledgement has no pending command")
    let intent : CommandIntent V = taken.0.intent
    projected ←
        lift (acknowledge_projection intent (drop_result intent (with_commands taken.1 next)))
    profiled ← acknowledge_profile intent projected
    adjust (λ v. record v { sent = discard String-discrete command_id v.sent })
    pure (with_recovery reference profiled)

-- A provider's operation that has ended.
abbrev is_ended_call : {V : Type 0} → OperationRecord V → Bool
is_ended_call operation = elim operation.owner [
  | Operation.provider _ ↦ terminal operation.state
  | _ ↦ false
]

-- The state of the run after a response of a status.
abbrev state_after : {V : Type 0} → ResponseStatus → State V → State V
state_after ResponseStatus.failed state =
    State.failed (new_failure "generation_failed" "model response did not finish successfully")
state_after ResponseStatus.incomplete state =
    State.failed (new_failure "generation_failed" "model response did not finish successfully")
state_after ResponseStatus.cancelled state = State.cancelled
state_after _ state = state

abbrev wants_more : ResponseStatus → Bool
wants_more ResponseStatus.continuation = true
wants_more ResponseStatus.requires_results = true
wants_more _ = false

abbrev reaches : Option ℕ → Option ℕ → Bool
reaches (some limit) (some tokens) = leb limit tokens
reaches _ _ = false

module _ {V : Type 0} where
  abbrev limited_state : Checkpoint V → Metrics → State V → State V
  limited_state next metrics state =
      if reaches next.options.limits.max_total_tokens metrics.usage.total_tokens
      then State.limited LimitReason.total_tokens
      else state

  -- The session after a response.
  abbrev pub answered_session : SessionSnapshot V → Completion V → SessionSnapshot V
  answered_session session completion = record session {
    generated_input_position = completion.input_position;
    response_status = some completion.response_status;
    effective = record {
      values = extend_map (unconfirmed session.negotiated) completion.effective.values;
    };
    needs_generation =
        wants_more completion.response_status
        || ltb completion.input_position session.input_position;
  }

  -- A response that is not the one of the running generation, or outside the admitted input.
  unfoldable pub check_response : SessionSnapshot V → Completion V → Result (Unit {0})
  check_response session completion =
      Error.◌>>◌
        (Error.refuse_if
          (not (is_just String-discrete session.generation_id completion.generation_id)
            || is_some session.response_status
            || not session.generation_started)
          (protocol "duplicate or foreign response completion"))
        (Error.refuse_if
          (ltb completion.input_position session.generated_input_position
            || ltb session.input_position completion.input_position)
          (protocol "response input position is outside its admitted range"))

  unfoldable pub answered_checkpoint : Checkpoint V → Completion V → Checkpoint V
  unfolding add_usage extend_map
  answered_checkpoint next completion =
      let metrics = counted next.metrics completion.usage in
      let cleared =
        with_operations (retain (λ o. not (is_ended_call o.1)) next.active.operations) next in
      with_session (answered_session next.active.session completion) (record cleared {
        metrics = metrics;
        state = limited_state next metrics (state_after completion.response_status next.state);
      })

module _ {V : Type 0} ⦃environment : Environment V⦄ where
  -- The entry that marks the end of a response.
  abbrev pub completion_entry : String → Completion V → HistoryEntry V
  completion_entry session_id completion = record {
    id =
        append_text session_id (append_text ":" (append_text completion.generation_id ":finished"));
    origin = some (record {
      session_id = session_id;
      item_id = append_text completion.generation_id ":finished";
      generation_id = some completion.generation_id;
      caller_id = "model";
      call_id = "completion";
    });
    message = Message.assistant [] (
        environment.with_completion completion.provider_data completion.model_id
          completion.response_id completion.finish_reason);
  }

  -- `Engine::complete_response`
  unfoldable pub complete_response :
      Checkpoint V → Completion V → Result (Checkpoint V × HistoryEntry V)
  complete_response next completion =
      Error.◌>>◌ (check_response next.active.session completion) (
        ok
          (answered_checkpoint next completion, completion_entry next.active.session.id completion))
