-- ===== src/Engine/Replay/Once.antt =====
-- An operation of the engine's own is settled once, with its entry in the history.
use mathlib.Core.Path.{subst}
use zhir.Prelude.{
  ℕ, ◌-◌, ◌≡◌, refl, sym, ap, ◌∙◌, arith, String, Bool, true, false, Option, some, [], ◌∷◌, lookup,
  String-discrete, same, length, get_elem?, get_elem?-append_right, if◌then◌else◌,
}
use zhir.Error.{ok, err, protocol}
use zhir.Value.{Json}
use zhir.Operation.{
  OperationOutcome, OperationOwner, OperationRecord, OperationOutcome-discrete, outcome_state,
  terminal, validate_outcome,
}
use zhir.Operation
use zhir.Message.{Message}
use zhir.Model
use zhir.History.Entry.{Hashing, HistoryEntry}
use zhir.History.Chain.{History, append, entries, get}
use zhir.History.Refine.{IsWellFormed, append-IsWellFormed, get-eq-get_elem?, length-entries}
use zhir.Engine.State.{Engine}
use zhir.Engine.Action.{RunStore, Environment, Action, ◌>>=◌, done, raise, adjust}
use zhir.Engine.Completion.{
  confirm, finish_at, finish_found, finish_local, finish_owned, result_entry, result_of,
  same_outcome, settle, settle_with,
}
use zhir.Engine.Replay.{bind-ok, continue-ok, settle_inv, settle_from}

terminal-outcome_state :
    {V : Type 0} (outcome : OperationOutcome V) → terminal (outcome_state outcome) ≡ true
unfolding terminal outcome_state
terminal-outcome_state (OperationOutcome.success _ _) = refl
terminal-outcome_state (OperationOutcome.failure _) = refl
terminal-outcome_state (OperationOutcome.cancelled _) = refl

-- A tool of the runtime or a delegation, not a provider's call.
abbrev pub IsOwn : OperationOwner → Type 0
IsOwn (Operation.provider _) = ⊥
IsOwn _ = Unit {0}

module _ {V : Type 0} ⦃j : Json V⦄ where
  -- What a message tells of an outcome.
  abbrev Tells : Message V → OperationOutcome V → Type 0
  Tells message outcome =
      (other : OperationOutcome V)
      → same_outcome message other ≡ same OperationOutcome-discrete outcome other

module _ {V : Type 0} ⦃j : Json V⦄ ⦃hashing : Hashing V⦄ where
  -- What was appended alone stands at the index that was the length.
  get-append :
      (h h' : History V) (entry : HistoryEntry V)
      → IsWellFormed h
      → append h (entry ∷ []) ≡ ok h'
      → get h' h.len ≡ some entry
  get-append h h' entry w added =
      let (w', all) = append-IsWellFormed h h' (entry ∷ []) added w in
      let long : h.len ≡ length (entries h) = length-entries h w in
      let zeroth : 0 ≡ h.len - length (entries h) = omega (arith, long) in
      let first : get_elem? (entry ∷ []) (h.len - length (entries h)) ≡ some entry =
        subst (λ n. get_elem? (entry ∷ []) n ≡ some entry) zeroth refl in
      get-eq-get_elem? h' h.len w'
      ∙ ap (λ es. get_elem? es h.len) all
      ∙ get_elem?-append_right (entries h) (entry ∷ []) h.len (omega (arith, long))
      ∙ first

module _ {V S : Type 0} ⦃j : Json V⦄ where
  -- An operation that has ended with a message as its result.
  pub record HasResult (id : String) (operation : OperationRecord V) (outcome : OperationOutcome V)
      (sequence : Option ℕ) (message : Message V) (e : Engine V S) : Type 0 where
    pub index : ℕ
    pub at :
        lookup String-discrete id e.current.active.operations
        ≡ some (settle operation outcome sequence index)
    pub entry : get e.current.history index ≡ some (result_entry id operation message)

module _ {V S : Type 0} ⦃j : Json V⦄ ⦃hashing : Hashing V⦄ ⦃store : RunStore V S⦄
    ⦃environment : Environment V⦄ where
  settle_with-HasResult :
      (id : String) (operation : OperationRecord V) (outcome : OperationOutcome V)
      (sequence : Option ℕ) (message : Message V) (source : Model.AppendSource)
      (command_for : Option String) (e e' : Engine V S)
      → IsWellFormed e.current.history
      → settle_with id operation outcome sequence message source command_for e ≡ (ok tt, e')
      → HasResult id operation outcome sequence message e'
  settle_with-HasResult id operation outcome sequence message source command_for e e' w h =
      let (history, appended_to, current) =
        settle_inv _ id operation outcome sequence message source command_for e e' refl h in
      record {
        index = e.current.history.len;
        at = settle_from _ id operation outcome sequence message source command_for e e' refl h;
        entry =
            ap (λ c. get c.history e.current.history.len) current
            ∙ get-append e.current.history history (result_entry id operation message) w
                appended_to;
      }

  finish_local-HasResult :
      (id : String) (operation : OperationRecord V) (outcome : OperationOutcome V)
      (sequence : Option ℕ) (message : Message V) (e e' : Engine V S)
      → IsWellFormed e.current.history
      → finish_local id operation outcome sequence message e ≡ (ok tt, e')
      → HasResult id operation outcome sequence message e'
  unfolding finish_local adjust
  finish_local-HasResult id operation outcome sequence message e e' w h =
      let (_, e1, settled, h1) =
        bind-ok (settle_with id operation outcome sequence message _ _) _ e e' tt h in
      let r = settle_with-HasResult id operation outcome sequence message _ _ e e1 w settled in
      let current = ap (λ t. t.1.current) (sym h1) in
      record {
        index = r.index;
        at = ap (λ c. lookup String-discrete id c.active.operations) current ∙ r.at;
        entry = ap (λ c. get c.history r.index) current ∙ r.entry;
      }

  finish_owned-HasResult :
      (id : String) (operation : OperationRecord V) (outcome : OperationOutcome V)
      (sequence : Option ℕ) (owner : OperationOwner) (e e' : Engine V S)
      → IsOwn owner
      → IsWellFormed e.current.history
      → finish_owned id operation outcome sequence owner e ≡ (ok tt, e')
      → (message : Message V) × Tells message outcome
        × HasResult id operation outcome sequence message e'
  unfolding same_outcome
  finish_owned-HasResult id operation outcome sequence (Operation.runtime_tool name) e e' own w h =
      (_, (λ other. refl), finish_local-HasResult id operation outcome sequence _ e e' w h)
  finish_owned-HasResult id operation outcome sequence Operation.delegation e e' own w h =
      (_, (λ other. refl), finish_local-HasResult id operation outcome sequence _ e e' w h)
  finish_owned-HasResult id operation outcome sequence (Operation.provider _) e e' own w h =
      absurd own

  if_done :
      (b : Bool) (conflict : String) (e : Engine V S)
      → (if b then done else raise (protocol conflict)) e
        ≡ (if b then ok tt else err (protocol conflict), e)
  unfolding ◌>>=◌
  if_done true conflict e = refl
  if_done false conflict e = refl

  -- After the completion of an open operation of the engine, a tool call or a delegation, has
  -- succeeded over a well-formed history, a later completion with a valid outcome succeeds if
  -- the outcome is the same and is refused as conflicting if not, and in both cases leaves
  -- the engine as it is.
  pub finish_at-once :
      (id : String) (outcome other : OperationOutcome V) (sequence again : Option ℕ)
      (operation : OperationRecord V) (e e' : Engine V S)
      → lookup String-discrete id e.current.active.operations ≡ some operation
      → terminal operation.state ≡ false
      → IsOwn operation.owner
      → IsWellFormed e.current.history
      → finish_at id outcome sequence e ≡ (ok tt, e')
      → validate_outcome other ≡ ok tt
      → finish_at id other again e' ≡ (
        if same OperationOutcome-discrete outcome other
            then ok tt
            else err (protocol "conflicting operation completion"),
        e',
      )
  unfolding finish_at ◌>>=◌
  finish_at-once id outcome other sequence again operation e e' at going own w h valid =
      let (_, checked, h1) = continue-ok (validate_outcome outcome) _ e e' tt h in
      let branch : Bool → Action V S (Unit {0}) = λ b.
        if b
        then confirm (result_of e.current.history operation) outcome
            "conflicting operation completion"
        else finish_owned id operation outcome sequence operation.owner in
      let found : finish_owned id operation outcome sequence operation.owner e ≡ (ok tt, e') =
        subst (λ b. branch b e ≡ (ok tt, e')) going
          (subst (λ o. finish_found id outcome sequence e.current o e ≡ (ok tt, e')) at h1) in
      let (message, tells, r) =
        finish_owned-HasResult id operation outcome sequence operation.owner e e' own w found in
      rw (valid, r.at, terminal-outcome_state outcome, r.entry, tells other)
        (if_done (same OperationOutcome-discrete outcome other) "conflicting operation completion"
          e')
