-- ===== src/Storage/Resume/Exact.antt =====
-- Resuming through a ticket reaches the checkpoint that the ticket was issued for.
use mathlib.Core.Path.{subst}
use zhir.Prelude.{◌≡◌, inl, inr, sym, ap, ◌∙◌, String, Option, none, some, arith}
use zhir.Error.{refuse_if, Result, ok, >>-eq-ok, >>=-eq-ok, ok-injective}
use zhir.Value.{Json}
use zhir.History.Entry.{Hashing}
use zhir.Run.{Checkpoint, State}
use zhir.Run.Validation.{validate}
use zhir.Run.Ticket.{SuspensionTicket, validate_ticket, check, from_checkpoint, suspended_ticket}
use zhir.Run.Ticket.Issued.{check_iff}
use zhir.Storage.Core.{CoreEncoding}
use zhir.Storage.Memory.{Store, load_head}
use zhir.Storage.Memory.Reach.{Committed, LaterHead, IsLater, committed-LaterHead}
use zhir.Storage.Resume.{
  ResumeTarget, SuspensionSelector, target_head, select_suspended, found, refused, resume_run,
}

some-injective {ℓ} : {A : Type ℓ} {a b : A} → some a ≡ some b → a ≡ b
some-injective h = cc

module _ {V : Type 0} where
  state_revision :
      (c : Checkpoint V) (state : State V) (t : SuspensionTicket V)
      → suspended_ticket c state ≡ ok t
      → t.revision ≡ c.revision
  state_revision c (State.suspended s) t h = ap (λ x. x.revision) (sym (ok-injective h))
  state_revision c State.running t h = absurd (ground arith)
  state_revision c (State.completed _) t h = absurd (ground arith)
  state_revision c (State.failed _) t h = absurd (ground arith)
  state_revision c State.cancelled t h = absurd (ground arith)
  state_revision c (State.limited _) t h = absurd (ground arith)

  later_head :
      (p c : Checkpoint V) (o : Option (Checkpoint V)) → o ≡ some c → LaterHead p o → IsLater p c
  later_head p c none e l = absurd (ground arith)
  later_head p c (some d) e l = subst (IsLater p) (some-injective e) l

module _ {V : Type 0} ⦃j : Json V⦄ where
  select-same :
      (selector : Option (SuspensionSelector V)) (c d : Checkpoint V) (state : State V)
      → select_suspended selector c state ≡ ok d
      → c ≡ d
  select-same selector c d (State.suspended s) h =
      ok-injective (>>-eq-ok (refuse_if (refused selector s) _) _ h).1
  select-same selector c d State.running h = absurd (ground arith)
  select-same selector c d (State.completed _) h = absurd (ground arith)
  select-same selector c d (State.failed _) h = absurd (ground arith)
  select-same selector c d State.cancelled h = absurd (ground arith)
  select-same selector c d (State.limited _) h = absurd (ground arith)

  found-some :
      (run_id : String) (o : Option (Checkpoint V)) (c : Checkpoint V)
      → found run_id o ≡ ok c
      → o ≡ some c
  found-some run_id none c h = absurd (ground arith)
  found-some run_id (some d) c h = ap some (ok-injective h)

  target-issued :
      (load : String → Result (Option (Checkpoint V))) (t : SuspensionTicket V) (c : Checkpoint V)
      → target_head (some load) (ResumeTarget.ticket t) ≡ ok c
      → (load t.run_id ≡ ok (some c)) × (from_checkpoint c ≡ ok t)
  target-issued load t c h =
      let (_, h1) = >>-eq-ok (validate_ticket t) _ h in
      let (head, loaded, h2) = >>=-eq-ok (load t.run_id) _ h1 in
      let (d, at, h3) = >>=-eq-ok (found t.run_id head) _ h2 in
      let (checked, same_head) = >>-eq-ok (check t d) _ h3 in
      let e : d ≡ c = ok-injective same_head in
      (
        loaded ∙ ap ok (found-some t.run_id head d at ∙ ap some e),
        rw (← e) ((check_iff t d).0 checked),
      )

  -- Resuming through a ticket returns the head that the store has for its run, and the ticket
  -- is the one that this head issues.
  pub resume-issued :
      (load : String → Result (Option (Checkpoint V))) (t : SuspensionTicket V)
      (selector : Option (SuspensionSelector V)) (c : Checkpoint V)
      → resume_run (some load) (ResumeTarget.ticket t) selector ≡ ok c
      → (load t.run_id ≡ ok (some c)) × (from_checkpoint c ≡ ok t)
  unfolding resume_run
  resume-issued load t selector c h =
      let (d, head, h1) = >>=-eq-ok (target_head (some load) (ResumeTarget.ticket t)) _ h in
      let (_, h2) = >>-eq-ok (validate d) _ h1 in
      rw (← select-same selector d c d.state h2) (target-issued load t d head)

  issued_revision :
      (c : Checkpoint V) (t : SuspensionTicket V)
      → from_checkpoint c ≡ ok t
      → t.revision ≡ c.revision
  unfolding from_checkpoint
  issued_revision c t h = state_revision c c.state t (>>-eq-ok (validate c) _ h).1

  same_head :
      (p c : Checkpoint V) (t : SuspensionTicket V)
      → IsLater p c
      → from_checkpoint p ≡ ok t
      → from_checkpoint c ≡ ok t
      → p ≡ c
  same_head p c t later before now = elim later.revision [
    | inl e ↦ e
    | inr rises ↦
        absurd (omega (arith, rises.0, issued_revision p t before, issued_revision c t now))
  ]

module _ {V : Type 0} ⦃j : Json V⦄ ⦃hashing : Hashing V⦄ ⦃coding : CoreEncoding V⦄ where
  -- If a ticket was issued for the head of its run, then after any sequence of commits
  -- resuming through the ticket can only return that same checkpoint.
  pub resume-same :
      {s s' : Store V} (p c : Checkpoint V) (t : SuspensionTicket V)
      (selector : Option (SuspensionSelector V))
      → load_head s t.run_id ≡ some p
      → from_checkpoint p ≡ ok t
      → Committed s s'
      → resume_run (some (λ run_id. ok (load_head s' run_id))) (ResumeTarget.ticket t) selector
        ≡ ok c
      → p ≡ c
  resume-same {s} {s'} p c t selector at issued commits resumed =
      let (loaded, now) = resume-issued (λ run_id. ok (load_head s' run_id)) t selector c resumed in
      same_head p c t
        (later_head p c (load_head s' t.run_id) (ok-injective loaded)
          (committed-LaterHead t.run_id p at commits))
        issued now
