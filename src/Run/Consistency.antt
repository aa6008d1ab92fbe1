-- ===== src/Run/Consistency.antt =====
-- What a checkpoint that passes `Checkpoint::validate` guarantees.
use zhir.Prelude.{◌≡◌, false, not, ◌&&◌, ◌||◌, [], ◌==◌, ltb, length, is_some, is_empty}
use zhir.Error.{ok, refuse_if, for_each, >>-eq-ok, refuse_if-eq-ok, Every, for_each-Every}
use zhir.Value.{Json}
use zhir.Operation.{terminal, differ}
use zhir.History.Chain.{validate_history}
use zhir.Run.Options.{validate_options}
use zhir.Run.{Checkpoint, validate_state, is_completed}
use zhir.Run.Operations.{any_operation, validate_operations}
use zhir.Run.Validation.{
  validate, validate_ids, validate_intent, lacks_coverage, empty_binding, validate_archive,
}

module _ {V : Type 0} ⦃j : Json V⦄ where
  -- The checks of `validate`, as propositions.
  pub record Checked (c : Checkpoint V) : Type 0 where
    pub options : validate_options c.options ≡ ok tt
    pub identity : (is_empty c.id || is_empty c.context.run_id) ≡ false
    pub parent : differ (c.revision == 0) (not (is_some c.parent_id)) ≡ false
    pub state : validate_state c.state ≡ ok tt
    pub coverage : lacks_coverage c ≡ false
    pub history : validate_history c.history ≡ ok tt
    pub starts :
        (ltb c.history.len c.active.session.response_start
          || ltb c.history.len c.active.session.run_start)
        ≡ false
    pub acknowledged :
        (ltb c.active.session.context_revision c.active.session.acknowledged_context_revision
          || ltb c.active.session.input_position c.active.session.generated_input_position)
        ≡ false
    pub ids : validate_ids [] c.active.commands ≡ ok tt
    pub capacity :
        (ltb c.options.limits.max_control_commands (length c.active.commands)
          || ltb c.options.limits.max_inflight_operations (length c.active.operations)
          || ltb c.options.limits.max_media_streams (length c.active.media))
        ≡ false
    pub intents : Every (λ command. validate_intent c command.intent ≡ ok tt) c.active.commands
    pub operations : validate_operations c ≡ ok tt
    pub session_work :
        (is_completed c.state
          && (ltb 0 (length c.active.commands) || not (is_some c.active.session.closure)))
        ≡ false
    pub unfinished :
        (is_completed c.state && any_operation (λ op. not (terminal op.state)) c.active.operations)
        ≡ false

  pub validate-Checked : (c : Checkpoint V) → validate c ≡ ok tt → Checked c
  unfolding validate
  validate-Checked c h =
      let (options, h1) = >>-eq-ok (validate_options c.options) _ h in
      let (identity, h2) =
        >>-eq-ok (refuse_if (is_empty c.id || is_empty c.context.run_id) _) _ h1 in
      let (parent, h3) =
        >>-eq-ok (refuse_if (differ (c.revision == 0) (not (is_some c.parent_id))) _) _ h2 in
      let (state, h4) = >>-eq-ok (validate_state c.state) _ h3 in
      let (binding, h5) = >>-eq-ok (refuse_if (empty_binding c.active.session.binding) _) _ h4 in
      let (coverage, h6) = >>-eq-ok (refuse_if (lacks_coverage c) _) _ h5 in
      let (history, h7) = >>-eq-ok (validate_history c.history) _ h6 in
      let (starts, h8) =
        >>-eq-ok
          (refuse_if
            (ltb c.history.len c.active.session.response_start
              || ltb c.history.len c.active.session.run_start)
            _)
          _ h7 in
      let (session, h9) = >>-eq-ok (refuse_if (is_empty c.active.session.id) _) _ h8 in
      let (acknowledged, h10) =
        >>-eq-ok
          (refuse_if
            (ltb c.active.session.context_revision c.active.session.acknowledged_context_revision
              || ltb c.active.session.input_position c.active.session.generated_input_position)
            _)
          _ h9 in
      let (ids, h11) = >>-eq-ok (validate_ids [] c.active.commands) _ h10 in
      let (capacity, h12) =
        >>-eq-ok
          (refuse_if
            (ltb c.options.limits.max_control_commands (length c.active.commands)
              || ltb c.options.limits.max_inflight_operations (length c.active.operations)
              || ltb c.options.limits.max_media_streams (length c.active.media))
            _)
          _ h11 in
      let (intents, h13) =
        >>-eq-ok (for_each (λ command. validate_intent c command.intent) c.active.commands) _ h12 in
      let (archive, h14) = >>-eq-ok (validate_archive c.active.session.media_archive) _ h13 in
      let (operations, h15) = >>-eq-ok (validate_operations c) _ h14 in
      let (work, unfinished) =
        >>-eq-ok
          (refuse_if
            (is_completed c.state
              && (ltb 0 (length c.active.commands) || not (is_some c.active.session.closure)))
            _)
          _ h15 in
      record {
        options = options;
        identity = refuse_if-eq-ok _ _ identity;
        parent = refuse_if-eq-ok _ _ parent;
        state = state;
        coverage = refuse_if-eq-ok _ _ coverage;
        history = history;
        starts = refuse_if-eq-ok _ _ starts;
        acknowledged = refuse_if-eq-ok _ _ acknowledged;
        ids = ids;
        capacity = refuse_if-eq-ok _ _ capacity;
        intents = for_each-Every _ _ intents;
        operations = operations;
        session_work = refuse_if-eq-ok _ _ work;
        unfinished = refuse_if-eq-ok _ _ unfinished;
      }
