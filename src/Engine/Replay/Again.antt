-- ===== src/Engine/Replay/Again.antt =====
-- An event of an operation that is delivered again.
use mathlib.Core.Path.{subst}
use zhir.Prelude.{
  ℕ, ◌≡◌, ◌⊎◌, refl, sym, ap, inl, inr, arith, String, Bool, true, false, Option, none, some, List,
  lookup, String-discrete, not, ◌||◌, if◌then◌else◌,
}
use zhir.Error.{Result, ok, protocol}
use zhir.Value.{Json}
use zhir.Operation.{
  Content, OperationEvent, OperationOutcome, OperationOwner, OperationRecord, OperationUpdate,
  terminal, validate_outcome, validate_content, OperationUpdate-discrete,
}
use zhir.Operation
use zhir.History.Entry.{Hashing}
use zhir.History.Chain.{by_id}
use zhir.Run.Operations.{is_delegation}
use zhir.Engine.State.{Engine}
use zhir.Engine.Action.{RunStore, Environment, Action, ◌>>=◌, raise}
use zhir.Engine.Completion.{finish_at, finish_found, result_id}
use zhir.Engine.Operations.{
  Cursor, add_context, advance, by_cursor, conflicting, cursor, fresh, noted, operation_event,
  receive, receive_found, receive_unknown, replayed,
}
use zhir.Engine.Replay.{continue-ok}
use zhir.Engine.Replay.Taken.{
  Takes, HasTaken, taken-again, add_context-taken, update_state-taken, confirm-same,
  finish_at-Settled,
}

module _ {V : Type 0} where
  -- Progress is reported again with each delivery.
  abbrev pub IsLasting : OperationUpdate V → Type 0
  IsLasting (Operation.progress _) = ⊥
  IsLasting _ = Unit {0}

  abbrev IsSettling : OperationUpdate V → Type 0
  IsSettling (Operation.progress _) = ⊥
  IsSettling (Operation.context _) = ⊥
  IsSettling _ = Unit {0}

module _ {V S : Type 0} ⦃j : Json V⦄ ⦃hashing : Hashing V⦄ ⦃store : RunStore V S⦄
    ⦃environment : Environment V⦄ where
  -- The first delivery: nothing has changed, or the operation has taken the event.
  abbrev Delivered : String → OperationEvent V → Engine V S → Engine V S → Type 0
  Delivered id event e e' = (e' ≡ e) ⊎ HasTaken id event e'

  by_cursor-Delivered :
      (c : Cursor) (conflict : String) (m : Action V S (Unit {0})) (id : String)
      (event : OperationEvent V) (e e' : Engine V S)
      → (m e ≡ (ok tt, e') → Delivered id event e e')
      → by_cursor c conflict m e ≡ (ok tt, e')
      → Delivered id event e e'
  unfolding ◌>>=◌
  by_cursor-Delivered fresh conflict m id event e e' k h = k h
  by_cursor-Delivered replayed conflict m id event e e' k h =
      inl (ap (λ (t : Result (Unit {0}) × Engine V S). t.1) (sym h))
  by_cursor-Delivered conflicting conflict m id event e e' k h =
      absurd (ground (arith, ap (λ (t : Result (Unit {0}) × Engine V S). t.0) h))

  advance-Delivered :
      (id : String) (operation : OperationRecord V) (sequence : ℕ) (update : OperationUpdate V)
      (e e' : Engine V S)
      → let event : OperationEvent V = record { sequence = sequence; update = update } in
        lookup String-discrete id e.current.active.operations ≡ some operation
        → operation.id ≡ id
        → IsSettling update
        → advance id operation event update e ≡ (ok tt, e')
        → Delivered id event e e'
  advance-Delivered id operation sequence (Operation.context c) e e' at key settling h =
      absurd settling
  advance-Delivered id operation sequence (Operation.progress c) e e' at key settling h =
      absurd settling
  advance-Delivered id operation sequence (Operation.running r) e e' at key settling h =
      inr (record {
        operation = _;
        at = update_state-taken id operation _ e e' h;
        sequence = refl;
        update = refl;
        takes = tt;
      })
  advance-Delivered id operation sequence (Operation.waiting p r) e e' at key settling h =
      inr (record {
        operation = _;
        at = update_state-taken id operation _ e e' h;
        sequence = refl;
        update = refl;
        takes = tt;
      })
  advance-Delivered id operation sequence (Operation.unknown reason) e e' at key settling h =
      inr (record {
        operation = _;
        at = update_state-taken id operation _ e e' h;
        sequence = refl;
        update = refl;
        takes = tt;
      })
  advance-Delivered id operation sequence (Operation.finished outcome) e e' at key settling h =
      elim (finish_at-Settled id outcome (some sequence) operation e e' at key h) [
        | inl same ↦ inl same
        | inr (index, settled) ↦
            inr (record { operation = _; at = settled; sequence = refl; update = refl; takes = tt })
      ]

  context-Delivered :
      (id : String) (operation : OperationRecord V) (event : OperationEvent V)
      (content : List (Content V)) (e e' : Engine V S)
      → event.update ≡ Operation.context content
      → (guard : Bool) → (not (is_delegation operation.owner) || terminal operation.state) ≡ guard
      → (if guard
            then raise (protocol "context requires an active delegation")
            else by_cursor
                (cursor operation event)
                "conflicting delegation context"
                (add_context id operation event content))
          e
        ≡ (ok tt, e')
      → Delivered id event e e'
  unfolding ◌>>=◌
  context-Delivered id operation event content e e' is true closed h =
      absurd (ground (arith, ap (λ (t : Result (Unit {0}) × Engine V S). t.0) h))
  context-Delivered id operation event content e e' is false closed h =
      by_cursor-Delivered (cursor operation event) _ _ id event e e'
        (λ added. inr (record {
          operation = noted operation event;
          at = add_context-taken id operation event content e e' added;
          sequence = refl;
          update = refl;
          takes = subst (λ u. Takes u (noted operation event)) (sym is) closed;
        }))
        h

  receive-Delivered :
      (id : String) (operation : OperationRecord V) (sequence : ℕ) (update : OperationUpdate V)
      (e e' : Engine V S)
      → let event : OperationEvent V = record { sequence = sequence; update = update } in
        lookup String-discrete id e.current.active.operations ≡ some operation
        → operation.id ≡ id
        → IsLasting update
        → receive id operation event update e ≡ (ok tt, e')
        → Delivered id event e e'
  receive-Delivered id operation sequence (Operation.progress _) e e' at key lasting h =
      absurd lasting
  receive-Delivered id operation sequence (Operation.context content) e e' at key lasting h =
      let event : OperationEvent V = record {
        sequence = sequence;
        update = Operation.context content;
      } in
      let guard = not (is_delegation operation.owner) || terminal operation.state in
      context-Delivered id operation event content e e' refl guard refl h
  receive-Delivered id operation sequence (Operation.running r) e e' at key lasting h =
      by_cursor-Delivered (cursor operation _) _ _ id _ e e'
        (advance-Delivered id operation sequence (Operation.running r) e e' at key tt) h
  receive-Delivered id operation sequence (Operation.waiting p r) e e' at key lasting h =
      by_cursor-Delivered (cursor operation _) _ _ id _ e e'
        (advance-Delivered id operation sequence (Operation.waiting p r) e e' at key tt) h
  receive-Delivered id operation sequence (Operation.unknown r) e e' at key lasting h =
      by_cursor-Delivered (cursor operation _) _ _ id _ e e'
        (advance-Delivered id operation sequence (Operation.unknown r) e e' at key tt) h
  receive-Delivered id operation sequence (Operation.finished o) e e' at key lasting h =
      by_cursor-Delivered (cursor operation _) _ _ id _ e e'
        (advance-Delivered id operation sequence (Operation.finished o) e e' at key tt) h

  finish_unknown-same :
      (id : String) (outcome : OperationOutcome V) (sequence : Option ℕ) (e e' : Engine V S)
      → lookup String-discrete id e.current.active.operations ≡ none
      → finish_at id outcome sequence e ≡ (ok tt, e')
      → e' ≡ e
  unfolding finish_at ◌>>=◌
  finish_unknown-same id outcome sequence e e' at h =
      let (_, checked, h1) = continue-ok (validate_outcome outcome) _ e e' tt h in
      confirm-same (by_id e.current.history (result_id id)) outcome _ e e'
        (subst (λ o. finish_found id outcome sequence e.current o e ≡ (ok tt, e')) at h1)

  receive_unknown-same :
      (id : String) (sequence : ℕ) (update : OperationUpdate V) (e e' : Engine V S)
      → lookup String-discrete id e.current.active.operations ≡ none
      → receive_unknown id sequence update e ≡ (ok tt, e')
      → e' ≡ e
  unfolding ◌>>=◌
  receive_unknown-same id sequence (Operation.finished outcome) e e' at h =
      finish_unknown-same id outcome (some sequence) e e' at h
  receive_unknown-same id sequence _ e e' at h =
      absurd (ground (arith, ap (λ (t : Result (Unit {0}) × Engine V S). t.0) h))

  found-Delivered :
      (id : String) (event : OperationEvent V) (found : Option (OperationRecord V))
      (e e' : Engine V S)
      → lookup String-discrete id e.current.active.operations ≡ found
      → ((operation : OperationRecord V) → found ≡ some operation → operation.id ≡ id)
      → IsLasting event.update
      → receive_found id event found e ≡ (ok tt, e')
      → Delivered id event e e'
  found-Delivered id event none e e' at keys lasting h =
      inl (receive_unknown-same id event.sequence event.update e e' at h)
  found-Delivered id event (some operation) e e' at keys lasting h =
      receive-Delivered id operation event.sequence event.update e e' at (keys operation refl)
        lasting h

  -- If an event of an operation other than progress was delivered without an error,
  -- delivering it again returns without an error and leaves the engine as it is, provided the
  -- operation, if there is one, stands under its own identity.
  pub operation_event-repeat :
      (id : String) (event : OperationEvent V) (e e' : Engine V S)
      → ((operation : OperationRecord V)
          → lookup String-discrete id e.current.active.operations ≡ some operation
          → operation.id ≡ id)
      → IsLasting event.update
      → operation_event id event e ≡ (ok tt, e')
      → operation_event id event e' ≡ (ok tt, e')
  unfolding operation_event ◌>>=◌
  operation_event-repeat id event e e' keys lasting h =
      elim (found-Delivered id event (lookup String-discrete id e.current.active.operations) e e'
        refl keys lasting h) [
          | inl same ↦ rw same (subst (λ t. operation_event id event e ≡ (ok tt, t)) same h)
          | inr taken ↦ taken-again id event e' taken
        ]
