-- ===== src/Engine/Replay/Taken.antt =====
-- What an event of an operation leaves, when its method succeeds.
use mathlib.Core.Path.{subst}
use zhir.Prelude.{
  ℕ, ◌≡◌, ◌⊎◌, refl, sym, ap, ◌∙◌, inl, inr, arith, String, Bool, true, false, Bool-cases, Option,
  none, some, List, lookup, lookup-insert_same, String-discrete, same_self, not, ◌||◌,
  if◌then◌else◌,
}
use zhir.Error.{Error, Result, ok, for_each, protocol}
use zhir.Value.{Json}
use zhir.Operation.{
  Content, OperationEvent, OperationOutcome, OperationOwner, OperationRecord, OperationUpdate,
  terminal, validate_outcome, validate_content, OperationUpdate-discrete,
}
use zhir.Operation
use zhir.Message.{Message, ProviderToolCall}
use zhir.Model
use zhir.History.Entry.{Hashing, HistoryEntry}
use zhir.History.Chain.{get}
use zhir.Run.{CommandIntent, Fact}
use zhir.Run.Operations.{is_delegation}
use zhir.Storage.Commit.{HistoryDelta}
use zhir.Engine.State.{Engine}
use zhir.Engine.Action.{
  RunStore, Environment, Action, ◌>>=◌, done, raise, lift, gets, raise_if, new_id, adjust,
  checkpoint,
}
use zhir.Engine.Changes.{put_operation, push_command}
use zhir.Engine.Completion.{
  confirm, finish_at, finish_call, finish_found, finish_local, finish_owned, finish_provider,
  first_call, result_of, settled_by, settle, settle_with,
}
use zhir.Engine.Operations.{
  add_context, cursor, noted, operation_event, receive, replayed, update_state, updated,
}
use zhir.Engine.Replay.{bind-ok, continue-ok, commit-current, settle_from}

module _ {V : Type 0} ⦃j : Json V⦄ where
  cursor-noted :
      (operation : OperationRecord V) (event : OperationEvent V)
      → operation.last_sequence ≡ some event.sequence
      → operation.last_update ≡ some event.update
      → cursor operation event ≡ replayed
  unfolding cursor
  cursor-noted operation event at last =
      rw (at, last) (ground (arith, same_self OperationUpdate-discrete event.update))

module _ {V : Type 0} where
  -- What an event needs of its operation beside its cursor.
  abbrev pub Takes : OperationUpdate V → OperationRecord V → Type 0
  Takes (Operation.context _) operation =
      (not (is_delegation operation.owner) || terminal operation.state) ≡ false
  Takes _ operation = Unit {0}

  -- An operation that has taken an event, as its last.
  pub record HasTaken {S : Type 0} (id : String) (event : OperationEvent V) (e : Engine V S)
      : Type 0 where
    pub operation : OperationRecord V
    pub at : lookup String-discrete id e.current.active.operations ≡ some operation
    pub sequence : operation.last_sequence ≡ some event.sequence
    pub update : operation.last_update ≡ some event.update
    pub takes : Takes event.update operation

module _ {V S : Type 0} ⦃j : Json V⦄ ⦃hashing : Hashing V⦄ ⦃store : RunStore V S⦄
    ⦃environment : Environment V⦄ where
  receive-replayed :
      (id : String) (operation : OperationRecord V) (event : OperationEvent V)
      (update : OperationUpdate V) (e : Engine V S)
      → Takes update operation
      → cursor operation event ≡ replayed
      → receive id operation event update e ≡ (ok tt, e)
  unfolding ◌>>=◌
  receive-replayed id operation event (Operation.context _) e takes again = rw (takes, again) refl
  receive-replayed id operation event (Operation.running _) e takes again = rw again refl
  receive-replayed id operation event (Operation.waiting _ _) e takes again = rw again refl
  receive-replayed id operation event (Operation.progress _) e takes again = rw again refl
  receive-replayed id operation event (Operation.finished _) e takes again = rw again refl
  receive-replayed id operation event (Operation.unknown _) e takes again = rw again refl

  pub taken-again :
      (id : String) (event : OperationEvent V) (e : Engine V S)
      → HasTaken id event e
      → operation_event id event e ≡ (ok tt, e)
  unfolding operation_event ◌>>=◌
  taken-again id event e h = rw (h.at) (
      receive-replayed id h.operation event event.update e h.takes
        (cursor-noted h.operation event h.sequence h.update))

  pub add_context-taken :
      (id : String) (operation : OperationRecord V) (event : OperationEvent V)
      (content : List (Content V)) (e e' : Engine V S)
      → add_context id operation event content e ≡ (ok tt, e')
      → lookup String-discrete id e'.current.active.operations ≡ some (noted operation event)
  unfolding add_context gets new_id lift
  add_context-taken id operation event content e e' h =
      let (_, e1, checked, h1) = bind-ok (lift (for_each validate_content content)) _ e e' tt h in
      let (current, e2, read, h2) = bind-ok checkpoint _ e1 e' tt h1 in
      let (command, e3, drawn, h3) = bind-ok new_id _ e2 e' tt h2 in
      ap (λ c. lookup String-discrete id c.active.operations)
        (commit-current
          (push_command command (CommandIntent.delegation_context id content)
            (put_operation id (noted operation event) current))
          (Fact.operation id operation.state) HistoryDelta.unchanged e3 e' h3)
      ∙ lookup-insert_same String-discrete id id (noted operation event) current.active.operations
          refl

  pub update_state-taken :
      (id : String) (operation : OperationRecord V) (event : OperationEvent V) (e e' : Engine V S)
      → update_state id operation event e ≡ (ok tt, e')
      → lookup String-discrete id e'.current.active.operations
        ≡ some (updated (noted operation event) event.update)
  unfolding update_state gets
  update_state-taken id operation event e e' h =
      let (_, e1, unfinished, h1) = bind-ok (raise_if (terminal operation.state) _) _ e e' tt h in
      let (current, e2, read, h2) = bind-ok checkpoint _ e1 e' tt h1 in
      let changed : OperationRecord V = updated (noted operation event) event.update in
      ap (λ c. lookup String-discrete id c.active.operations)
        (commit-current (put_operation id changed current) (Fact.operation id changed.state)
          HistoryDelta.unchanged e2 e' h2)
      ∙ lookup-insert_same String-discrete id id changed current.active.operations refl

  pub if_done-same :
      (b : Bool) (error : Error) (e e' : Engine V S)
      → (if b then done else raise error) e ≡ (ok tt, e')
      → e' ≡ e
  unfolding ◌>>=◌
  if_done-same true error e e' h = ap (λ (t : Result (Unit {0}) × Engine V S). t.1) (sym h)
  if_done-same false error e e' h =
      absurd (ground (arith, ap (λ (t : Result (Unit {0}) × Engine V S). t.0) h))

  pub confirm-same :
      (entry : Option (HistoryEntry V)) (outcome : OperationOutcome V) (conflict : String)
      (e e' : Engine V S)
      → confirm entry outcome conflict e ≡ (ok tt, e')
      → e' ≡ e
  confirm-same entry outcome conflict e e' h =
      if_done-same (settled_by entry outcome) (protocol conflict) e e' h

  -- The operation of an identity has a result.
  abbrev pub Settled :
      String → OperationRecord V → OperationOutcome V → Option ℕ → Engine V S → Type 0
  Settled id operation outcome sequence e =
      (index : ℕ) × (lookup String-discrete id e.current.active.operations
        ≡ some (settle operation outcome sequence index))

  pub settle_with-Settled :
      (id : String) (operation : OperationRecord V) (outcome : OperationOutcome V)
      (sequence : Option ℕ) (message : Message V) (source : Model.AppendSource)
      (command_for : Option String) (e e' : Engine V S)
      → settle_with id operation outcome sequence message source command_for e ≡ (ok tt, e')
      → Settled id operation outcome sequence e'
  settle_with-Settled id operation outcome sequence message source command_for e e' h = (
    e.current.history.len,
    settle_from _ id operation outcome sequence message source command_for e e' refl h,
  )

  finish_local-Settled :
      (id : String) (operation : OperationRecord V) (outcome : OperationOutcome V)
      (sequence : Option ℕ) (message : Message V) (e e' : Engine V S)
      → finish_local id operation outcome sequence message e ≡ (ok tt, e')
      → Settled id operation outcome sequence e'
  unfolding finish_local adjust
  finish_local-Settled id operation outcome sequence message e e' h =
      let (_, e1, settled, h1) =
        bind-ok (settle_with id operation outcome sequence message _ _) _ e e' tt h in
      let (index, at) =
        settle_with-Settled id operation outcome sequence message _ _ e e1 settled in
      (index, ap (λ t. lookup String-discrete id t.1.current.active.operations) (sym h1) ∙ at)

  finish_call-Settled :
      (operation : OperationRecord V) (outcome : OperationOutcome V) (sequence : Option ℕ)
      (call : Option (ProviderToolCall V)) (e e' : Engine V S)
      → finish_call operation outcome sequence call e ≡ (ok tt, e')
      → Settled operation.id operation outcome sequence e'
  unfolding ◌>>=◌
  finish_call-Settled operation outcome sequence none e e' h =
      absurd (ground (arith, ap (λ t. t.0) h))
  finish_call-Settled operation outcome sequence (some call) e e' h =
      settle_with-Settled operation.id operation outcome sequence _ _ _ e e' h

  finish_message-Settled :
      (operation : OperationRecord V) (outcome : OperationOutcome V) (sequence : Option ℕ)
      (id : String) (origin : Option Operation.CallRef) (message : Message V) (e e' : Engine V S)
      → finish_provider operation outcome sequence
          (some (record { id = id; origin = origin; message = message }))
          e
        ≡ (ok tt, e')
      → Settled operation.id operation outcome sequence e'
  unfolding ◌>>=◌
  finish_message-Settled operation outcome sequence id origin (Message.assistant output _) e e' h =
      finish_call-Settled operation outcome sequence (first_call output) e e' h
  finish_message-Settled operation outcome sequence id origin _ e e' h =
      absurd (ground (arith, ap (λ t. t.0) h))

  finish_provider-Settled :
      (operation : OperationRecord V) (outcome : OperationOutcome V) (sequence : Option ℕ)
      (entry : Option (HistoryEntry V)) (e e' : Engine V S)
      → finish_provider operation outcome sequence entry e ≡ (ok tt, e')
      → Settled operation.id operation outcome sequence e'
  unfolding ◌>>=◌
  finish_provider-Settled operation outcome sequence none e e' h =
      absurd (ground (arith, ap (λ t. t.0) h))
  finish_provider-Settled operation outcome sequence (some entry) e e' h =
      finish_message-Settled operation outcome sequence entry.id entry.origin entry.message e e' h

  finish_owned-Settled :
      (id : String) (operation : OperationRecord V) (outcome : OperationOutcome V)
      (sequence : Option ℕ) (owner : OperationOwner) (e e' : Engine V S)
      → operation.id ≡ id
      → finish_owned id operation outcome sequence owner e ≡ (ok tt, e')
      → Settled id operation outcome sequence e'
  unfolding gets
  finish_owned-Settled id operation outcome sequence (Operation.runtime_tool _) e e' key h =
      finish_local-Settled id operation outcome sequence _ e e' h
  finish_owned-Settled id operation outcome sequence Operation.delegation e e' key h =
      finish_local-Settled id operation outcome sequence _ e e' h
  finish_owned-Settled id operation outcome sequence (Operation.provider _) e e' key h =
      let (current, e1, read, h1) = bind-ok checkpoint _ e e' tt h in
      rw (← key) (
        finish_provider-Settled operation outcome sequence
          (get current.history operation.call_entry) e1 e' h1)

  -- A completion that succeeds changes nothing, where its outcome is there already, or settles.
  pub finish_at-Settled :
      (id : String) (outcome : OperationOutcome V) (sequence : Option ℕ)
      (operation : OperationRecord V) (e e' : Engine V S)
      → lookup String-discrete id e.current.active.operations ≡ some operation
      → operation.id ≡ id
      → finish_at id outcome sequence e ≡ (ok tt, e')
      → (e' ≡ e) ⊎ Settled id operation outcome sequence e'
  unfolding finish_at ◌>>=◌
  finish_at-Settled id outcome sequence operation e e' at key h =
      let (_, checked, h1) = continue-ok (validate_outcome outcome) _ e e' tt h in
      let branch : Bool → Action V S (Unit {0}) = λ b.
        if b
        then confirm (result_of e.current.history operation) outcome
            "conflicting operation completion"
        else finish_owned id operation outcome sequence operation.owner in
      let found : branch (terminal operation.state) e ≡ (ok tt, e') =
        subst (λ o. finish_found id outcome sequence e.current o e ≡ (ok tt, e')) at h1 in
      elim (Bool-cases (terminal operation.state)) [
        | inl ended ↦ inl (
            confirm-same (result_of e.current.history operation) outcome _ e e'
              (subst (λ b. branch b e ≡ (ok tt, e')) ended found))
        | inr going ↦ inr (
            finish_owned-Settled id operation outcome sequence operation.owner e e' key
              (subst (λ b. branch b e ≡ (ok tt, e')) going found))
      ]
