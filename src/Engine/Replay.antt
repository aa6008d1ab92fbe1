-- ===== src/Engine/Replay.antt =====
-- The same event of an operation twice.
pub mod Taken
pub mod Again
pub mod Once
use zhir.Prelude.{
  ℕ, ◌≡◌, ◌≢◌, ◌⊎◌, refl, sym, ap, ◌∙◌, inl, inr, arith, String, Bool, true, false, Bool-cases,
  Option, none, some, List, [], ◌∷◌, lookup, lookup-insert_same, String-discrete, same_self, ltb,
}
use zhir.Error.{Result, ok, err}
use zhir.Value.{Json}
use zhir.Operation.{
  OperationEvent, OperationOutcome, OperationOwner, OperationRecord, OperationUpdate, outcome_state,
  terminal, OperationUpdate-discrete,
}
use zhir.Operation
use zhir.Message.{Message}
use zhir.Model.{AppendSource}
use zhir.History.Entry.{Hashing, HistoryEntry}
use zhir.History.Chain.{History, append}
use zhir.Run.{Checkpoint, CommandIntent, Fact}
use zhir.Storage.Commit.{HistoryDelta}
use zhir.Engine.State.{Engine}
use zhir.Engine.Action.{RunStore, Environment, Action, ◌>>=◌, continue, new_id, next_u64}
use zhir.Engine.Changes.{put_operation, push_command, with_session}
use zhir.Engine.Commit.{answered, commit}
use zhir.Engine.Commit.Outcome.{answer, commit-eq, conclude, saved}
use zhir.Engine.Completion.{append_command, settle, settle_with, result_entry}
use zhir.Engine.Operations.{Cursor, cursor, fresh, replayed, conflicting}

-- What a part of a method that succeeds has returned.
module _ {V S A B : Type 0} where
  pub continue-ok :
      (r : Result A) (next : A → Action V S B) (e e' : Engine V S) (b : B)
      → continue r next e ≡ (ok b, e')
      → (a : A) × (r ≡ ok a) × (next a e ≡ (ok b, e'))
  continue-ok (ok a) next e e' b h = (a, refl, h)
  continue-ok (err error) next e e' b h = absurd (ground (arith, ap (λ t. t.0) h))

  pub bind-ok :
      (m : Action V S A) (next : A → Action V S B) (e e' : Engine V S) (b : B)
      → (m >>= next) e ≡ (ok b, e')
      → (a : A) × (e'' : Engine V S) × (m e ≡ (ok a, e'')) × (next a e'' ≡ (ok b, e'))
  unfolding ◌>>=◌
  bind-ok m next e e' b h =
      let (r, e'') = m e in
      let (a, returned, rest) = continue-ok r next e'' e' b h in
      (a, e'', ap (λ q. (q, e'')) returned, rest)

module _ {V : Type 0} where
  -- The checkpoint with the command of an entry.
  abbrev appended :
      Environment V → Checkpoint V → ℕ → AppendSource → Option String → ℕ → Checkpoint V
  appended given next entry source operation_id drawn =
      let revision = next_u64 next.active.session.context_revision in
      push_command (given.uuid drawn)
        (CommandIntent.append entry revision next.active.session.input_position source operation_id)
        (with_session (record next.active.session { context_revision = revision }) next)

module _ {V S : Type 0} where
  conclude-current :
      (r : Result (Unit {0})) (e e' : Engine V S) (s : S) (c : Checkpoint V)
      → conclude r e s c ≡ (ok tt, e')
      → e'.current ≡ c
  conclude-current (ok _) e e' s c h = sym (ap (λ t. t.1.current) h)
  conclude-current (err error) e e' s c h = absurd (ground (arith, ap (λ t. t.0) h))

module _ {V S : Type 0} ⦃store : RunStore V S⦄ ⦃environment : Environment V⦄ where
  -- A commit that succeeds leaves the engine with the checkpoint that it has written.
  pub commit-current :
      (next : Checkpoint V) (fact : Fact) (history : HistoryDelta V) (e e' : Engine V S)
      → commit next fact history e ≡ (ok tt, e')
      → e'.current ≡ saved e next fact
  commit-current next fact history e e' h =
      let (r, s) = answer e next fact history in
      conclude-current (answered r) e e' s (saved e next fact)
        (sym (commit-eq next fact history e) ∙ h)

module _ {V S : Type 0} ⦃j : Json V⦄ ⦃hashing : Hashing V⦄ ⦃store : RunStore V S⦄
    ⦃environment : Environment V⦄ where
  -- A result that is settled: its entry was appended, and the checkpoint is the one with both.
  pub settle_inv :
      (r : Result (History V)) (id : String) (operation : OperationRecord V)
      (outcome : OperationOutcome V) (sequence : Option ℕ) (message : Message V)
      (source : AppendSource) (command_for : Option String) (e e' : Engine V S)
      → append e.current.history (result_entry id operation message ∷ []) ≡ r
      → settle_with id operation outcome sequence message source command_for e ≡ (ok tt, e')
      → (history : History V) × (r ≡ ok history)
        × (let settled = settle operation outcome sequence e.current.history.len in
            let kept : Checkpoint V = record e.current { history = history } in
            e'.current
            ≡ saved
                (new_id e).1
                (appended environment
                  (put_operation id settled kept)
                  e.current.history.len
                  source
                  command_for
                  e.drawn)
                (Fact.operation id (outcome_state outcome)))
  unfolding settle_with append_command new_id ◌>>=◌
  settle_inv (err error) id operation outcome sequence message source command_for e e' a h =
      absurd (ground (arith, a, ap (λ t. t.0) h))
  settle_inv (ok history) id operation outcome sequence message source command_for e e' a h =
      let index : ℕ = e.current.history.len in
      let settled : OperationRecord V = settle operation outcome sequence index in
      let drawn : Engine V S = (new_id e).1 in
      let next : Checkpoint V =
        appended environment (put_operation id settled (record e.current { history = history }))
          index source command_for e.drawn in
      let entries = result_entry id operation message ∷ [] in
      let fact = Fact.operation id (outcome_state outcome) in
      let same : settle_with id operation outcome sequence message source command_for e
          ≡ commit next fact (HistoryDelta.append entries) drawn =
        rw a refl in
      (
        history,
        refl,
        commit-current next fact (HistoryDelta.append entries) drawn e' (sym same ∙ h),
      )

  pub settle_from :
      (r : Result (History V)) (id : String) (operation : OperationRecord V)
      (outcome : OperationOutcome V) (sequence : Option ℕ) (message : Message V)
      (source : AppendSource) (command_for : Option String) (e e' : Engine V S)
      → append e.current.history (result_entry id operation message ∷ []) ≡ r
      → settle_with id operation outcome sequence message source command_for e ≡ (ok tt, e')
      → lookup String-discrete id e'.current.active.operations
        ≡ some (settle operation outcome sequence e.current.history.len)
  unfolding new_id
  settle_from r id operation outcome sequence message source command_for e e' a h =
      let (history, appended_to, current) =
        settle_inv r id operation outcome sequence message source command_for e e' a h in
      ap (λ c. lookup String-discrete id c.active.operations) current
      ∙ lookup-insert_same String-discrete id id
          (settle operation outcome sequence e.current.history.len) e.current.active.operations refl
