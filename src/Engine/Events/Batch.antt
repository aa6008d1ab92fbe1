-- ===== src/Engine/Events/Batch.antt =====
-- crates/zhir-kernel/src/engine/model_events.rs: `collect`, which applies the events that are queued
-- to one checkpoint.
use zhir.Prelude.{
  ℕ, suc, Bool, true, false, not, ◌||◌, Option, none, some, List, [], ◌∷◌, leb, drop, if◌then◌else◌,
}
use zhir.Error.{Result, ok, err, protocol}
use zhir.Value.{Json}
use zhir.History.Entry.{Hashing}
use zhir.Run.{Checkpoint, is_active}
use zhir.Engine.State.{SessionEvent, SessionEventBody, Work, model_delta}
use zhir.Engine.State
use zhir.Engine.Action.{
  Environment, Action, pure, ◌>>=◌, ◌>>◌, raise_if, checkpoint, held, adjust, attempt,
}
use zhir.Engine.Events.Apply.{Effects, apply_event}

-- `SessionBatch`
pub record SessionBatch (V : Type 0) : Type 0 where
  pub staged : Option (Checkpoint V)
  pub sequence : Option ℕ
  pub events : ℕ
  pub seal_user_input : Bool
  pub suspend : Bool
  pub provider_state : Bool

module _ {V : Type 0} where
  abbrev pub empty_batch : SessionBatch V
  empty_batch = record {
    staged = none;
    sequence = none;
    events = 0;
    seal_user_input = false;
    suspend = false;
    provider_state = false;
  }

  abbrev is_inactive : Option (Checkpoint V) → Bool
  is_inactive none = false
  is_inactive (some next) = not (is_active next.state)

  -- `SessionBatch::closed`
  unfoldable pub closed : SessionBatch V → Bool
  unfolding is_active
  closed batch =
      batch.seal_user_input || batch.suspend || batch.provider_state || is_inactive batch.staged

  abbrev staged_or : Option (Checkpoint V) → Checkpoint V → Checkpoint V
  staged_or none current = current
  staged_or (some next) current = next

  -- The batch with one more event.
  abbrev pub add_event : SessionBatch V → ℕ → Checkpoint V → Effects → SessionBatch V
  add_event batch sequence next effects = record {
    staged = some next;
    sequence = some sequence;
    events = suc batch.events;
    seal_user_input = batch.seal_user_input || effects.seal_user_input;
    suspend = batch.suspend || effects.suspend;
    provider_state = batch.provider_state || effects.provider_state;
  }

  abbrev added :
      SessionBatch V → ℕ → Result (Checkpoint V × Effects) → SessionBatch V × Result (Unit {0})
  added batch sequence (err error) = (batch, err error)
  added batch sequence (ok (next, effects)) = (add_event batch sequence next effects, ok tt)

  -- The next event of a session, where the queue's next item is one that can join a batch.
  abbrev pub joining : Work V → Option (SessionEvent V)
  joining (State.model (ok (some event))) = elim event.body [
    | State.delta _ _ ↦ none
    | State.operation _ _ ↦ none
    | _ ↦ some event
  ]
  joining _ = none

-- A sequence that is not above the last one.
abbrev pub not_above : ℕ → Option ℕ → Bool
not_above sequence none = false
not_above sequence (some previous) = leb sequence previous

module _ {V S : Type 0} where
  -- `Engine::fresh_sequence`
  unfoldable pub fresh_sequence : ℕ → Action V S Bool
  fresh_sequence sequence = do
    v ← held
    raise_if (not_above sequence v.session_sequence)
        (protocol "session event sequence did not increase")
    adjust (λ v. record v { session_sequence = some sequence })
    current ← checkpoint
    pure (not (not_above sequence current.active.session.last_sequence))

  -- `work.try_recv` takes an item; `stash` keeps it for the next pass.
  abbrev pub take_work : Action V S (Unit {0})
  take_work = adjust (λ v. record v { work = drop 1 v.work })

  abbrev pub stash : Work V → Action V S (Unit {0})
  stash item = adjust (λ v. record v { stashed = some item })

-- What has been applied, and the error that has ended it.
abbrev pub Applied : Type 0 → Type 0
Applied V = SessionBatch V × Result (Unit {0})

module _ {V S : Type 0} ⦃j : Json V⦄ ⦃hashing : Hashing V⦄ ⦃environment : Environment V⦄ where
  -- One event on the staged checkpoint. An error comes with the batch of the events before it.
  unfoldable pub apply_next : SessionBatch V → ℕ → SessionEventBody V → Action V S (Applied V)
  apply_next batch sequence body = do
    current ← checkpoint
    applied ← attempt (apply_event (staged_or batch.staged current) sequence body)
    pure (added batch sequence applied)

  -- An event of the queue by its sequence: refused, a replay, or applied; `rest` is what follows.
  abbrev pub admit_event :
      (Applied V → Action V S (Applied V))
      → SessionBatch V
      → SessionEvent V
      → Result Bool
      → Action V S (Applied V)
  admit_event rest batch event (err error) = pure (batch, err error)
  admit_event rest batch event (ok false) = rest (batch, ok tt)
  admit_event rest batch event (ok true) = do
    applied ← apply_next batch event.sequence event.body
    rest applied

  -- An item of the queue: one that does not join the batch is left for the next pass.
  abbrev pub join_item :
      (Applied V → Action V S (Applied V))
      → SessionBatch V
      → Work V
      → Option (SessionEvent V)
      → Action V S (Applied V)
  join_item rest batch item none = do stash item; pure (batch, ok tt)
  join_item rest batch item (some event) = do
    fresh ← attempt (fresh_sequence event.sequence)
    admit_event rest batch event fresh

  -- The inner loop of `collect` over what the queue holds.
  unfoldable pub drain : List (Work V) → Applied V → Action V S (Applied V)
  drain [] (batch, r) = pure (batch, r)
  drain (item ∷ work) (batch, err error) = pure (batch, err error)
  drain (item ∷ work) (batch, ok _) =
      let rest = drain work in
      do
        current ← checkpoint
        if closed batch || leb current.options.limits.max_session_events batch.events
            then pure (batch, ok tt)
            else do take_work; join_item rest batch item (joining item)

  -- `Engine::collect`
  unfoldable pub collect : ℕ → SessionEventBody V → Action V S (Applied V)
  collect sequence body = do
    first ← apply_next empty_batch sequence body
    v ← held
    drain v.work first
