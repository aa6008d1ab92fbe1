-- ===== src/Engine/Events/Model.antt =====
-- crates/zhir-kernel/src/engine/model_events.rs: `model_event`, which commits a batch of events, and
-- `provider_event`.
use zhir.Prelude.{
  ℕ, String, true, not, Option, none, some, List, find, has_key, same, String-discrete,
  if◌then◌else◌,
}
use zhir.Error.{Result, err, protocol, uncertain}
use zhir.Value.{Json}
use zhir.Operation.{
  CallRef, CallRef-discrete, OperationEvent, OperationOwner, OperationRecord, OperationUpdate,
}
use zhir.Operation
use zhir.History.Entry.{HistoryEntry, Hashing}
use zhir.History.Since.{appended_since}
use zhir.Run.{Checkpoint, Fact}
use zhir.Storage.Commit.{HistoryDelta}
use zhir.Engine.State.{SessionEvent, SessionEventBody, Work, model_delta}
use zhir.Engine.State
use zhir.Engine.Action.{
  RunStore, Environment, Action, raise, lift, ◌>>=◌, ◌>>◌, done, raise_if, checkpoint, adjust, emit,
}
use zhir.Engine.Commit.{commit, suspend, WaitReason}
use zhir.Engine.Completion.{finish, provider_operation_id}
use zhir.Engine.Operations.{operation_event}
use zhir.Engine.Session.{no_items}
use zhir.Engine.Events.Apply.{in_session}
use zhir.Engine.Events.Batch.{collect, fresh_sequence}

-- An error of a panic, which no history that the engine builds causes.
abbrev pub panic : {A : Type 0} → Option (Result A) → Result A
panic none = err (uncertain "panic")
panic (some r) = r

module _ {V : Type 0} where
  abbrev pub session_fact : Checkpoint V → ℕ → Fact
  session_fact current sequence = Fact.session current.active.session.id sequence

  abbrev pub appended : List (HistoryEntry V) → HistoryDelta V
  appended entries =
      if no_items entries then HistoryDelta.unchanged else HistoryDelta.append entries

module _ {V S : Type 0} ⦃j : Json V⦄ ⦃hashing : Hashing V⦄ ⦃store : RunStore V S⦄
    ⦃environment : Environment V⦄ where
  -- The commit of the events that were applied.
  unfoldable pub commit_staged : Checkpoint V → ℕ → Action V S (Unit {0})
  commit_staged next sequence = do
    current ← checkpoint
    entries ← lift (panic (appended_since next.history current.history))
    commit next (session_fact current sequence) (appended entries)

  abbrev pub commit_batch : Option (Checkpoint V) → Option ℕ → Action V S (Unit {0})
  commit_batch (some next) (some sequence) = commit_staged next sequence
  commit_batch _ _ = done

  unfoldable pub batch_event : ℕ → SessionEventBody V → Action V S (Unit {0})
  batch_event sequence body = do
    collected ← collect sequence body
    commit_batch collected.0.staged collected.0.sequence
    lift collected.1
    if collected.0.seal_user_input then adjust (λ v. record v { media_closed = true }) else done
    if collected.0.suspend then suspend WaitReason.recovery else done

  -- A sequence that the session has reached, without another change.
  unfoldable pub commit_sequence : ℕ → Action V S (Unit {0})
  commit_sequence sequence = do
    current ← checkpoint
    commit (in_session (λ s. record s { last_sequence = some sequence }) current)
        (session_fact current sequence) HistoryDelta.unchanged

  abbrev pub provider_unknown : ℕ → CallRef → OperationUpdate V → Action V S (Unit {0})
  provider_unknown sequence origin (Operation.finished outcome) = do
    finish (provider_operation_id V origin) outcome
    commit_sequence sequence
  provider_unknown sequence origin _ = raise (protocol "provider operation has no call")

  abbrev pub provider_known :
      ℕ → OperationEvent V → OperationRecord V → OperationOwner → Action V S (Unit {0})
  provider_known sequence event operation (Operation.provider _) = do
    current ← checkpoint
    raise_if (not (has_key String-discrete operation.id current.active.operations))
        (protocol "provider operation must be introduced by an output item")
    operation_event operation.id event
    commit_sequence sequence
  provider_known sequence event operation _ =
      raise (protocol "model cannot own local tool operations")

  abbrev pub provider_found :
      ℕ → CallRef → OperationEvent V → Option (String × OperationRecord V) → Action V S (Unit {0})
  provider_found sequence origin event none = provider_unknown sequence origin event.update
  provider_found sequence origin event (some (_, operation)) =
      provider_known sequence event operation operation.owner

  -- `Engine::provider_event`
  unfoldable pub provider_event : ℕ → CallRef → OperationEvent V → Action V S (Unit {0})
  provider_event sequence origin event = do
    current ← checkpoint
    provider_found sequence origin event
        (find (λ o. same CallRef-discrete o.1.origin origin) current.active.operations)

  abbrev pub fresh_event : ℕ → SessionEventBody V → Action V S (Unit {0})
  fresh_event sequence (State.delta generation_id delta) = emit (model_delta generation_id delta)
  fresh_event sequence (State.operation origin event) = provider_event sequence origin event
  fresh_event sequence body = batch_event sequence body

  -- `Engine::model_event`
  unfoldable pub model_event : SessionEvent V → Action V S (Unit {0})
  model_event event = do
    fresh ← fresh_sequence event.sequence
    if fresh then fresh_event event.sequence event.body else done
