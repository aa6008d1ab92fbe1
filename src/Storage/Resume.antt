-- ===== src/Storage/Resume.antt =====
-- `Runtime::resume` of crates/zhir-kernel/src/runtime.rs up to the checkpoint that it resumes, and
-- `SuspensionSelector` of crates/zhir-kernel/src/request.rs. The store is any `load_head`.
pub mod Exact
use zhir.Prelude.{
  ℕ, ◌≡◌, ◌<◌, ◌⊎◌, inl, inr, refl, sym, ap, ◌∙◌, String, Bool, true, false, not, ◌&&◌, ◌||◌,
  Option, none, some, List, [], ◌∷◌, Map, is_some, same, all, length, ltb, lookup, String-discrete,
  arith,
}
use zhir.Error.{
  Error, ResumeError, Result, ok, err, resume, refuse_if, ◌>>=◌, ◌>>◌, >>-eq-ok, >>=-eq-ok,
  ok-injective,
}
use zhir.Value.{Json}
use zhir.Run.{Checkpoint, State, Suspension, is_suspended}
use zhir.Run.Validation.{validate}
use zhir.Run.Ticket.{SuspensionTicket, validate_ticket, check, from_checkpoint, suspended_ticket}
use zhir.Run.Ticket.Issued.{check_iff}

pub record SuspensionSelector (V : Type 0) : Type 0 where
  pub reason : Option String
  pub source : Option String
  pub wait_id : Option String
  pub metadata : Map String V

pub data ResumeTarget (V : Type 0) : Type 0 where
  checkpoint : Checkpoint V → ResumeTarget V
  ticket : SuspensionTicket V → ResumeTarget V

-- `wanted.is_none_or(|v| Some(v) == actual)`
abbrev agrees : {A : Type 0} → Discrete A → Option A → Option A → Bool
agrees d none actual = true
agrees d (some v) none = false
agrees d (some v) (some a) = same d v a

module _ {V : Type 0} ⦃j : Json V⦄ where
  abbrev is_criterion : SuspensionSelector V → Bool
  is_criterion s =
      is_some s.reason || is_some s.source || is_some s.wait_id || ltb 0 (length s.metadata)

  -- `SuspensionSelector::matches`
  unfoldable pub matches : SuspensionSelector V → Suspension V → Bool
  unfolding lookup String-discrete
  matches s suspension =
      is_criterion s
      && agrees String-discrete s.reason (some suspension.reason)
      && agrees String-discrete s.source (some suspension.source)
      && agrees String-discrete s.wait_id suspension.wait_id
      && all (λ e. agrees j.discrete (some e.1) (lookup String-discrete e.0 suspension.metadata))
          s.metadata

  abbrev pub found : String → Option (Checkpoint V) → Result (Checkpoint V)
  found run_id none = err (resume (ResumeError.run_not_found run_id))
  found run_id (some c) = ok c

  abbrev pub target_head :
      Option (String → Result (Option (Checkpoint V))) → ResumeTarget V → Result (Checkpoint V)
  target_head store (checkpoint c) = ok c
  target_head none (ticket t) = do validate_ticket t; err (resume ResumeError.store_required)
  target_head (some load) (ticket t) = do
    validate_ticket t
    head ← load t.run_id
    c ← found t.run_id head
    check t c
    ok c

  abbrev pub refused : Option (SuspensionSelector V) → Suspension V → Bool
  refused none suspension = false
  refused (some s) suspension = not (matches s suspension)

  abbrev pub select_suspended :
      Option (SuspensionSelector V) → Checkpoint V → State V → Result (Checkpoint V)
  select_suspended selector c (State.suspended suspension) = do
    refuse_if (refused selector suspension) (resume ResumeError.selector_mismatch)
    ok c
  select_suspended selector c _ = err (resume ResumeError.not_suspended)

  -- `Runtime::resume`, before its invocation starts.
  unfoldable pub resume_run :
      Option (String → Result (Option (Checkpoint V)))
      → ResumeTarget V
      → Option (SuspensionSelector V)
      → Result (Checkpoint V)
  unfolding validate_ticket check validate matches
  resume_run store target selector = do
    c ← target_head store target
    validate c
    select_suspended selector c c.state
