-- ===== src/Run/Ticket.antt =====
-- crates/zhir-core/src/run/ticket.rs and run/completion.rs: the ticket of a suspended run, and a run
-- that has settled. `none` of `outcome` is `unreachable!`.
pub mod Issued
use zhir.Prelude.{
  ℕ, String, Bool, ◌||◌, not, Option, none, some, List, is_empty, same, String-discrete, ℕ_discrete,
}
use zhir.Error.{
  Failure, Error, ResumeError, Result, ok, err, resume, protocol, refuse_if, ◌>>=◌, ◌>>◌,
}
use zhir.Value.{Json}
use zhir.Operation.{Content}
use zhir.Run.{Checkpoint, State, Suspension, LimitReason, validate_suspension, is_active}
use zhir.Run.Validation.{validate}

pub record SuspensionTicket (V : Type 0) : Type 0 where
  pub run_id : String
  pub checkpoint_id : String
  pub revision : ℕ
  pub suspension : Suspension V

-- `.ok()`
abbrev pub to_option : {A : Type 0} → Result A → Option A
to_option (ok a) = some a
to_option (err _) = none

module _ {V : Type 0} where
  abbrev pub ticket_of : Checkpoint V → Suspension V → SuspensionTicket V
  ticket_of c suspension = record {
    run_id = c.context.run_id;
    checkpoint_id = c.id;
    revision = c.revision;
    suspension = suspension;
  }

  abbrev pub suspended_ticket : Checkpoint V → State V → Result (SuspensionTicket V)
  suspended_ticket c (State.suspended suspension) = ok (ticket_of c suspension)
  suspended_ticket c _ = err (resume ResumeError.not_suspended)

  -- `SuspensionTicket::validate`
  unfoldable pub validate_ticket : SuspensionTicket V → Result (Unit {0})
  unfolding is_empty validate_suspension
  validate_ticket t = do
    refuse_if (is_empty t.run_id || is_empty t.checkpoint_id)
        (resume ResumeError.invalid_ticket_identity)
    validate_suspension t.suspension

module _ {V : Type 0} ⦃j : Json V⦄ where
  unfoldable pub Ticket-discrete : Discrete (Option (SuspensionTicket V))
  Ticket-discrete = hlevel (String-discrete, ℕ_discrete, j.discrete)

  -- `SuspensionTicket::from_checkpoint`
  unfoldable pub from_checkpoint : Checkpoint V → Result (SuspensionTicket V)
  unfolding validate
  from_checkpoint c = do validate c; suspended_ticket c c.state

  -- `SuspensionTicket::check`
  unfoldable pub check : SuspensionTicket V → Checkpoint V → Result (Unit {0})
  unfolding validate_ticket validate from_checkpoint
  check t c = do
    validate_ticket t
    validate c
    refuse_if (not (same Ticket-discrete (to_option (from_checkpoint c)) (some t)))
        (resume (ResumeError.stale_ticket t.run_id t.revision c.revision))

pub record RunCompletion (V : Type 0) : Type 0 where
  pub checkpoint : Checkpoint V

pub data RunOutcome (V : Type 0) : Type 0 where
  completed : (content : List (Content V)) → RunOutcome V
  suspended : (ticket : SuspensionTicket V) → RunOutcome V
  failed : (error : Failure) → RunOutcome V
  limited : (reason : LimitReason) → RunOutcome V
  cancelled : RunOutcome V

module _ {V : Type 0} ⦃j : Json V⦄ where
  -- `RunCompletion::new`
  unfoldable pub new_completion : Checkpoint V → Result (RunCompletion V)
  unfolding validate is_active
  new_completion c = do
    validate c
    refuse_if (is_active c.state) (protocol "invocation settled with an active checkpoint")
    ok (record { checkpoint = c })

module _ {V : Type 0} where
  abbrev pub outcome_of : Checkpoint V → State V → Option (RunOutcome V)
  outcome_of c State.running = none
  outcome_of c (State.suspended suspension) = some (suspended (ticket_of c suspension))
  outcome_of c (State.completed content) = some (completed content)
  outcome_of c (State.failed error) = some (failed error)
  outcome_of c State.cancelled = some cancelled
  outcome_of c (State.limited reason) = some (limited reason)

  -- `RunCompletion::outcome`
  unfoldable pub outcome : RunCompletion V → Option (RunOutcome V)
  outcome r = outcome_of r.checkpoint r.checkpoint.state
