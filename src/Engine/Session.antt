-- ===== src/Engine/Session.antt =====
-- crates/zhir-kernel/src/engine/session.rs: what a session can do, the request to a model, and
-- `generate`.
use zhir.Prelude.{
  ℕ, ◌+◌, Bool, true, false, not, ◌&&◌, Option, none, some, List, [], ◌∷◌, ◌++◌, leb, any, drop,
  contains, String-discrete, ℕ_discrete, if◌then◌else◌,
}
use zhir.Error.{Result, ok}
use zhir.Value.{Json}
use zhir.Profile.{RequestProfile}
use zhir.Model.{CapabilitySet, Capability, NegotiatedProfile, supports, local_projection}
use zhir.Request.{ModelRequest}
use zhir.History.Entry.{HistoryEntry, Hashing}
use zhir.History.Chain.{entries, from_entries}
use zhir.History.Conversation.{conversation}
use zhir.Run.{
  Checkpoint, CommandIntent, ControlAction, Fact, LimitReason, PendingCommand, State,
  SessionSnapshot,
}
use zhir.Run.Operations.{is_just}
use zhir.Storage.Commit.{HistoryDelta}
use zhir.Engine.State.{Engine}
use zhir.Engine.Action.{
  RunStore, Environment, Action, Rewrite, next_u64, lift, gets, ◌>>=◌, checkpoint, new_id,
}
use zhir.Engine.Changes.{push_command, with_commands, with_session}
use zhir.Engine.Commit.{commit}

abbrev capabilities_or : {V : Type 0} → Option (CapabilitySet V) → CapabilitySet V → CapabilitySet V
capabilities_or none caps = caps
capabilities_or (some caps) _ = caps

abbrev pub no_items {ℓ} : {A : Type ℓ} → List A → Bool
no_items [] = true
no_items _ = false

module _ {V S : Type 0} ⦃environment : Environment V⦄ where
  -- `Engine::session_capabilities`
  abbrev pub session_capabilities : Engine V S → CapabilitySet V
  session_capabilities e =
      capabilities_or e.volatile.session_control
        (capabilities_or e.current.active.session.capabilities environment.model_capabilities)

  abbrev pub declares : Engine V S → Capability → Bool
  declares e capability = supports (session_capabilities e) capability

module _ {V S : Type 0} ⦃j : Json V⦄ ⦃environment : Environment V⦄ where
  -- `Engine::model_request`
  unfoldable pub model_request : Engine V S → List (HistoryEntry V) → ModelRequest V
  unfolding conversation
  model_request e items = record {
    messages = conversation items;
    runtime_tools = environment.tool_specs;
    provider_tools = e.current.options.provider_tools;
    profile = e.current.active.session.profile;
    tool_choice = e.current.options.tool_choice;
    response_format = e.current.options.response_format;
    stream = e.current.options.stream;
  }

  -- `negotiate` of a request with another profile.
  abbrev pub negotiate_profile :
      Engine V S → List (HistoryEntry V) → RequestProfile V → Result (NegotiatedProfile V)
  negotiate_profile e items profile =
      environment.negotiate (record (model_request e items) { profile = profile })

module _ {V : Type 0} where
  abbrev has_id : List (HistoryEntry V) → HistoryEntry V → Bool
  has_id produced entry = any (λ p. contains String-discrete entry.id (p.id ∷ [])) produced

  -- `take_while(...).count()` of the entries that the run has not produced.
  unfoldable pub count_seed : List (HistoryEntry V) → List (HistoryEntry V) → ℕ
  unfolding contains
  count_seed produced [] = 0
  count_seed produced (entry ∷ items) =
      if has_id produced entry then 0 else 1 + count_seed produced items

module _ {V : Type 0} where
  -- What the reducer of the host answers, where it is asked.
  abbrev pub reduce_history :
      Checkpoint V
      → Option (Checkpoint V → Result (Option (Rewrite V)))
      → Result (Option (Rewrite V))
  reduce_history current none = ok none
  reduce_history current (some reduce) =
      if no_items current.active.operations
        && no_items current.active.commands
        && no_items current.active.media
        && not (
            is_just ℕ_discrete current.active.session.reduced_context_revision
              current.active.session.context_revision)
      then reduce current
      else ok none

module _ {V S : Type 0} ⦃j : Json V⦄ ⦃hashing : Hashing V⦄ ⦃store : RunStore V S⦄
    ⦃environment : Environment V⦄ where
  -- The rewrite of the history by the reducer.
  unfoldable pub rewrite : Checkpoint V → Rewrite V → Action V S (Unit {0})
  rewrite current change = do
    let produced : List (HistoryEntry V) =
        drop current.active.session.run_start (entries current.history)
    history ← lift (from_entries change.entries)
    command ← new_id
    let revision : ℕ = next_u64 current.active.session.context_revision
    let session : SessionSnapshot V = record current.active.session {
      run_start = count_seed produced change.entries;
      response_start = history.len;
      context_revision = revision;
      reduced_context_revision = some revision;
    }
    commit
        (push_command command (CommandIntent.replace_context revision)
          (with_session session (record current { history = history })))
        (Fact.history_rewrite change.reason) (HistoryDelta.replace change.entries)

  -- The request of a new generation, sent with its command where the projection is local.
  unfoldable pub request_generation : Checkpoint V → Action V S (Unit {0})
  request_generation current = do
    generation_id ← new_id
    id ← new_id
    local ← gets (λ e. declares e local_projection)
    let session : SessionSnapshot V = record current.active.session {
      generation_id = some generation_id;
      response_start = current.history.len;
      response_status = none;
      generation_started = false;
      generated_input_position = current.active.session.input_position;
      needs_generation = false;
    }
    let command : PendingCommand V = record {
      id = id;
      intent =
          CommandIntent.generate generation_id session.context_revision session.input_position
            session.profile_revision;
      sent = local;
    }
    commit
        (with_commands (current.active.commands ++ command ∷ []) (
          with_session session (record current {
            metrics = record current.metrics {
              generation_requests = next_u64 current.metrics.generation_requests;
            };
          })))
        (Fact.command id) HistoryDelta.unchanged

  abbrev pub reduced : Checkpoint V → Option (Rewrite V) → Action V S (Unit {0})
  reduced current none = request_generation current
  reduced current (some change) = rewrite current change

  -- `Engine::generate`
  unfoldable pub generate : Action V S (Unit {0})
  generate = do
    current ← checkpoint
    if leb current.options.limits.max_generation_requests current.metrics.generation_requests
        then commit (record current { state = State.limited LimitReason.generation_requests })
            (Fact.control ControlAction.limited) HistoryDelta.unchanged
        else do change ← lift (reduce_history current environment.reduce); reduced current change
