-- ===== src/Run/Validation.antt =====
-- crates/zhir-core/src/run/validation.rs: `Checkpoint::validate`.
use zhir.Prelude.{
  ℕ, String, Bool, true, false, not, ◌&&◌, ◌||◌, Option, none, some, List, [], ◌∷◌, ◌==◌, ltb, leb,
  length, contains, lookup, is_some, is_empty, String-discrete, ℕ_discrete,
}
use zhir.Error.{Result, ok, invalid, refuse_if, for_each, ◌>>◌}
use zhir.Value.{Json}
use zhir.Resource.{ResourceRef, validate_resource}
use zhir.Operation.{OperationRecord, differ, terminal, validate_content}
use zhir.Model.{
  ModelBinding, CapabilitySet, supports, response_events, ResponseStatus, ResponseStatus-discrete,
}
use zhir.Model
use zhir.History.Chain.{get, validate_history}
use zhir.Run.Options.{validate_options}
use zhir.Run.{
  Checkpoint, PendingCommand, SessionSnapshot, generate, interrupt_output, append, CommandIntent,
  delegation_context, update_profile, validate_state, is_completed,
}
use zhir.Run.Operations.{is_just, is_delegation, any_operation, validate_operations}

abbrev responded : Option ResponseStatus → Bool
responded s = is_just ResponseStatus-discrete s Model.completed

module _ {V : Type 0} where
  abbrev pub empty_binding : Option (ModelBinding V) → Bool
  empty_binding none = false
  empty_binding (some b) = is_empty b.adapter

  abbrev has_response_events : Option (CapabilitySet V) → Bool
  has_response_events none = false
  has_response_events (some caps) = supports caps response_events

  -- A completed run whose model reports responses lacks a response to its whole input.
  unfoldable pub lacks_coverage : Checkpoint V → Bool
  unfolding supports ResponseStatus-discrete
  lacks_coverage c =
      is_completed c.state
      && has_response_events c.active.session.capabilities
      && (not (responded c.active.session.response_status)
          || c.active.session.needs_generation
          || not (c.active.session.generated_input_position == c.active.session.input_position))

  -- The loop over the identities of the pending commands, over those seen so far.
  unfoldable pub validate_ids : List String → List (PendingCommand V) → Result (Unit {0})
  unfolding is_empty contains
  validate_ids seen [] = ok tt
  validate_ids seen (command ∷ commands) = do
    refuse_if (is_empty command.id || contains String-discrete command.id seen)
        (invalid "invalid pending command identity")
    validate_ids (command.id ∷ seen) commands

  -- `operations.get(id).is_none_or(|op| bad(op))`
  unfoldable pub bad_operation : Checkpoint V → String → (OperationRecord V → Bool) → Bool
  unfolding lookup
  bad_operation c id bad = elim (lookup String-discrete id c.active.operations) [
    | none ↦ true
    | some op ↦ bad op
  ]

module _ {V : Type 0} ⦃j : Json V⦄ where
  abbrev is_generation : SessionSnapshot V → String → Bool
  is_generation s generation_id = is_just String-discrete s.generation_id generation_id

  abbrev is_result_of : ℕ → OperationRecord V → Bool
  is_result_of entry op = terminal op.state && is_just ℕ_discrete op.result_entry entry

  abbrev validate_append : Checkpoint V → ℕ → Option String → Result (Unit {0})
  validate_append c entry none =
      refuse_if (not (is_some (get c.history entry))) (invalid "invalid input command")
  validate_append c entry (some operation_id) = do
    refuse_if (not (is_some (get c.history entry))) (invalid "invalid input command")
    refuse_if (bad_operation c operation_id (λ op. not (is_result_of entry op)))
        (invalid "invalid result command")

  -- The body of the loop over the intents of the pending commands.
  unfoldable pub validate_intent : Checkpoint V → CommandIntent V → Result (Unit {0})
  unfolding get bad_operation validate_content terminal
  validate_intent c (generate generation_id context_revision _ _) =
      refuse_if
        (ltb c.active.session.context_revision context_revision
          || not (is_generation c.active.session generation_id))
        (invalid "invalid turn command")
  validate_intent c (interrupt_output generation_id output_epoch) =
      refuse_if
        (not (is_generation c.active.session generation_id)
          || output_epoch == 0
          || ltb c.active.session.output_epoch output_epoch)
        (invalid "invalid interrupt output epoch or turn")
  validate_intent c (append entry _ _ _ operation_id) = validate_append c entry operation_id
  validate_intent c (delegation_context operation_id content) = do
    refuse_if (bad_operation c operation_id (λ op. not (is_delegation op.owner)))
        (invalid "invalid delegation context command")
    for_each validate_content content
  validate_intent c (update_profile revision _) =
      refuse_if (leb revision c.active.session.profile_revision)
        (invalid "non-increasing profile revision")
  validate_intent c _ = ok tt

  abbrev pub validate_archive : Option (ResourceRef V) → Result (Unit {0})
  validate_archive none = ok tt
  validate_archive (some archive) = validate_resource archive

  -- `Checkpoint::validate`
  unfoldable pub validate : Checkpoint V → Result (Unit {0})
  unfolding is_empty validate_options validate_state lacks_coverage validate_history validate_ids
      validate_intent validate_resource validate_operations terminal
  validate c = do
    validate_options c.options
    refuse_if (is_empty c.id || is_empty c.context.run_id) (invalid "empty checkpoint identity")
    refuse_if (differ (c.revision == 0) (not (is_some c.parent_id)))
        (invalid "revision and parent disagree")
    validate_state c.state
    refuse_if (empty_binding c.active.session.binding) (invalid "empty model binding adapter")
    refuse_if (lacks_coverage c) (invalid "completed run lacks current response coverage")
    validate_history c.history
    refuse_if
        (ltb c.history.len c.active.session.response_start
          || ltb c.history.len c.active.session.run_start)
        (invalid "turn start exceeds history")
    refuse_if (is_empty c.active.session.id) (invalid "empty session identity")
    refuse_if
        (ltb c.active.session.context_revision c.active.session.acknowledged_context_revision
          || ltb c.active.session.input_position c.active.session.generated_input_position)
        (invalid "session acknowledgement exceeds admitted context")
    validate_ids [] c.active.commands
    refuse_if
        (ltb c.options.limits.max_control_commands (length c.active.commands)
          || ltb c.options.limits.max_inflight_operations (length c.active.operations)
          || ltb c.options.limits.max_media_streams (length c.active.media))
        (invalid "active capacity exceeded")
    for_each (λ command. validate_intent c command.intent) c.active.commands
    validate_archive c.active.session.media_archive
    validate_operations c
    refuse_if
        (is_completed c.state
          && (ltb 0 (length c.active.commands) || not (is_some c.active.session.closure)))
        (invalid "completed run has pending session work")
    refuse_if
        (is_completed c.state && any_operation (λ op. not (terminal op.state)) c.active.operations)
        (invalid "completed run has unfinished operations")
