-- ===== src/Engine/Commit/Outcome.antt =====
-- What `Engine::commit` does to the engine, by the answer of the store.
use zhir.Prelude.{
  suc, ◌+◌, ◌≡◌, refl, String, Bool-cases, inl, inr, Option, some, List, [], ◌∷◌, Map,
  if◌then◌else◌,
}
use zhir.Error.{Result, ok, err}
use zhir.Operation.{OperationRecord}
use zhir.Run.{Checkpoint, Fact}
use zhir.Storage.Commit.{Commit, HistoryDelta}
use zhir.Engine.State.{Engine, EventData, operation_changed, checkpoint_committed}
use zhir.Engine.Action.{RunStore, Environment, ◌>>=◌, continue, pure, emit, new_id, read_clock}
use zhir.Engine.Commit.{
  kind, successor, is_changed, announce, install, answered, write, persist, commit,
}

module _ {V : Type 0} where
  -- The events after those of the operations whose state has changed.
  abbrev pub observed :
      Map String (OperationRecord V)
      → Map String (OperationRecord V)
      → List (EventData V)
      → List (EventData V)
  observed before [] events = events
  observed before ((id, operation) ∷ rest) events = observed before rest (
      if is_changed before (id, operation)
      then operation_changed id operation.state ∷ events
      else events)

module _ {V S : Type 0} where
  announce-eq :
      (before operations : Map String (OperationRecord V)) (e : Engine V S)
      → announce before operations e
        ≡ (ok tt, record e { events = observed before operations e.events })
  unfolding announce ◌>>=◌ emit
  announce-eq before [] e = refl
  announce-eq before ((id, operation) ∷ rest) e =
      elim (Bool-cases (is_changed before (id, operation))) [
        | inl b ↦ rw b (announce-eq before rest _)
        | inr b ↦ rw b (announce-eq before rest _)
      ]

  -- The engine after the store's answer.
  abbrev pub unwritten : Engine V S → S → Engine V S
  unwritten e s = record e { store = s; drawn = suc e.drawn; readings = suc (suc e.readings) }

  abbrev pub written : Engine V S → S → Checkpoint V → Engine V S
  written e s saved = record (unwritten e s) {
    current = saved;
    events =
        observed e.current.active.operations saved.active.operations
          (checkpoint_committed saved.id saved.revision (kind saved.state) saved.fact ∷ e.events);
  }

  abbrev pub conclude :
      Result (Unit {0}) → Engine V S → S → Checkpoint V → Result (Unit {0}) × Engine V S
  conclude (err error) e s saved = (err error, unwritten e s)
  conclude (ok _) e s saved = (ok tt, written e s saved)

module _ {V S : Type 0} ⦃store : RunStore V S⦄ ⦃environment : Environment V⦄ where
  -- The checkpoint that is written, and the commit and the instant that the store is given.
  abbrev pub saved : Engine V S → Checkpoint V → Fact → Checkpoint V
  saved e next fact = successor e.current next (environment.uuid e.drawn) fact

  abbrev pub submitted_commit : Engine V S → Checkpoint V → Fact → HistoryDelta V → Commit V
  submitted_commit e next fact history = record {
    checkpoint = saved e next fact;
    history = history;
    deadline = some (environment.instant e.readings + next.options.limits.commit_timeout_ms);
  }

  abbrev pub answer :
      Engine V S → Checkpoint V → Fact → HistoryDelta V → Option (Result (Unit {0})) × S
  answer e next fact history =
      store.write e.store (submitted_commit e next fact history)
        (environment.instant (suc e.readings))

  finished :
      (r : Result (Unit {0})) (e : Engine V S) (s : S) (c : Checkpoint V)
      → (continue r (λ _. pure c) >>= λ current. install current >>= λ _.
            emit
              (checkpoint_committed current.id current.revision (kind current.state) current.fact)
            >>= λ _. announce e.current.active.operations current.active.operations)
          (unwritten e s)
        ≡ conclude r e s c
  unfolding ◌>>=◌ install emit
  finished (err error) e s c = refl
  finished (ok _) e s c = announce-eq e.current.active.operations c.active.operations _

  pub commit-eq :
      (next : Checkpoint V) (fact : Fact) (history : HistoryDelta V) (e : Engine V S)
      → let (r, s) = answer e next fact history in
        commit next fact history e ≡ conclude (answered r) e s (saved e next fact)
  unfolding commit persist write new_id read_clock ◌>>=◌
  commit-eq next fact history e =
      let (r, s) = answer e next fact history in finished (answered r) e s (saved e next fact)
