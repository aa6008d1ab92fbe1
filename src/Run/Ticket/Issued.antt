-- ===== src/Run/Ticket/Issued.antt =====
-- Tickets against the checkpoints that they were issued for.
use zhir.Prelude.{◌≡◌, ◌↔◌, refl, false, ◌||◌, some, arith, same_self, not-same-false, is_empty}
use zhir.Error.{Result, ok, err, >>-eq-ok, refuse_if, refuse_if-eq-ok, ok-injective}
use zhir.Value.{Json}
use zhir.Run.{Checkpoint, State, validate_state, is_active}
use zhir.Run.Validation.{validate}
use zhir.Run.Consistency.{validate-Checked}
use zhir.Run.Ticket.{
  SuspensionTicket, ticket_of, suspended_ticket, validate_ticket, to_option, Ticket-discrete,
  from_checkpoint, check, RunCompletion, RunOutcome, new_completion, outcome, outcome_of,
}

to_option-ok : {A : Type 0} (r : Result A) (a : A) → to_option r ≡ some a → r ≡ ok a
to_option-ok (ok b) a h = ground arith
to_option-ok (err e) a h = absurd (ground arith)

module _ {V : Type 0} ⦃j : Json V⦄ where
  check-issued :
      (t : SuspensionTicket V) (c : Checkpoint V) → check t c ≡ ok tt → from_checkpoint c ≡ ok t
  unfolding check
  check-issued t c h =
      let (_, h1) = >>-eq-ok (validate_ticket t) _ h in
      let (_, h2) = >>-eq-ok (validate c) _ h1 in
      to_option-ok (from_checkpoint c) t (
        not-same-false Ticket-discrete (to_option (from_checkpoint c)) (some t)
          (refuse_if-eq-ok _ _ h2))

  state-valid :
      (c : Checkpoint V) (state : State V) (t : SuspensionTicket V)
      → validate_state state ≡ ok tt
      → (is_empty c.id || is_empty c.context.run_id) ≡ false
      → suspended_ticket c state ≡ ok t
      → validate_ticket t ≡ ok tt
  unfolding validate_ticket validate_state
  state-valid c (State.suspended s) t valid named h = rw (← ok-injective h) (ground arith)
  state-valid c State.running t valid named h = absurd (ground arith)
  state-valid c (State.completed _) t valid named h = absurd (ground arith)
  state-valid c (State.failed _) t valid named h = absurd (ground arith)
  state-valid c State.cancelled t valid named h = absurd (ground arith)
  state-valid c (State.limited _) t valid named h = absurd (ground arith)

  issued-check :
      (t : SuspensionTicket V) (c : Checkpoint V) → from_checkpoint c ≡ ok t → check t c ≡ ok tt
  unfolding check from_checkpoint
  issued-check t c h =
      let (valid, made) = >>-eq-ok (validate c) (suspended_ticket c c.state) h in
      let checked = validate-Checked c valid in
      let fine = state-valid c c.state t checked.state checked.identity made in
      rw fine (rw valid (rw made (rw same_self refl)))

  -- A ticket passes its check against a checkpoint exactly when it is the ticket that the
  -- checkpoint issues.
  pub check_iff :
      (t : SuspensionTicket V) (c : Checkpoint V) → (check t c ≡ ok tt) ↔ (from_checkpoint c ≡ ok t)
  check_iff t c = (check-issued t c, issued-check t c)

  -- The outcome that a checkpoint's state calls for.
  abbrev pub Settles : Checkpoint V → RunOutcome V → Type 0
  Settles c (RunOutcome.suspended t) = from_checkpoint c ≡ ok t
  Settles c (RunOutcome.completed content) = c.state ≡ State.completed content
  Settles c (RunOutcome.failed error) = c.state ≡ State.failed error
  Settles c (RunOutcome.limited reason) = c.state ≡ State.limited reason
  Settles c RunOutcome.cancelled = c.state ≡ State.cancelled

  settles :
      (c : Checkpoint V) (state : State V)
      → validate c ≡ ok tt
      → is_active state ≡ false
      → c.state ≡ state
      → (o : RunOutcome V) × (outcome_of c state ≡ some o) × Settles c o
  unfolding is_active from_checkpoint
  settles c State.running valid settled e = absurd (ground arith)
  settles c (State.suspended s) valid settled e =
      (RunOutcome.suspended (ticket_of c s), refl, rw valid (rw e refl))
  settles c (State.completed content) valid settled e = (RunOutcome.completed content, refl, e)
  settles c (State.failed error) valid settled e = (RunOutcome.failed error, refl, e)
  settles c State.cancelled valid settled e = (RunOutcome.cancelled, refl, e)
  settles c (State.limited reason) valid settled e = (RunOutcome.limited reason, refl, e)

  -- A completed invocation always has an outcome, the one that its state calls for; that of a
  -- suspended run is the ticket that the checkpoint issues.
  pub outcome-Settles :
      (c : Checkpoint V) (r : RunCompletion V)
      → new_completion c ≡ ok r
      → (o : RunOutcome V) × (outcome r ≡ some o) × Settles c o
  unfolding new_completion outcome
  outcome-Settles c r h =
      let (valid, h1) = >>-eq-ok (validate c) _ h in
      let (settled, made) = >>-eq-ok (refuse_if (is_active c.state) _) _ h1 in
      let (o, found, right) = settles c c.state valid (refuse_if-eq-ok _ _ settled) refl in
      (o, rw (← ok-injective made) found, right)
