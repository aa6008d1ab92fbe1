-- ===== src/Engine/Boundary.antt =====
-- What the submission of a command rests on: which commands are marked as sent, and what the check of
-- the clock and the commit of the boundary leave alone.
pub mod Submits
use mathlib.Core.Path.{subst}
use zhir.Prelude.{
  ◌≡◌, refl, sym, ap, ◌∙◌, inl, inr, ◌⊎◌, arith, String, Bool, true, false, Bool-cases, not, ◌&&◌,
  ◌||◌, Option, none, some, List, [], ◌∷◌, any, find, same, same_self, String-discrete,
  if◌then◌else◌, lookup,
}
use zhir.Error.{Error, Result, ok, Every, Every-map, ok-injective, >>=-eq-ok}
use zhir.Error as Error
use zhir.Value.{Json}
use zhir.Operation.{Content, OperationRecord}
use zhir.Model.{AppendSource, local_projection}
use zhir.History.Entry.{HistoryEntry}
use zhir.History.Chain.{get}
use zhir.Run.{Checkpoint, CommandIntent, PendingCommand, Fact}
use zhir.Run
use zhir.Storage.Commit.{HistoryDelta}
use zhir.Engine.State.{Engine, SessionCommand, SessionCommandBody, submit}
use zhir.Engine.State
use zhir.Engine.Action.{
  RunStore, Environment, Action, ◌>>=◌, done, gets, lift, raise_if, read_clock, adjust, check,
}
use zhir.Engine.Changes.{with_commands}
use zhir.Engine.Commit.{commit, answered}
use zhir.Engine.Commit.Outcome.{answer, commit-eq, conclude, saved}
use zhir.Engine.Session.{declares}
use zhir.Engine.Commands.{
  append_body, can_send, command_body, commit_boundary, context_body, dispatch_command,
  dispatch_commands, dispatch_first, dispatch_session, following, following_if, is_generate,
  is_unsent, mark_sent,
}
use zhir.Engine.Replay.{bind-ok, continue-ok, commit-current}

module _ {V : Type 0} where
  abbrev pub asks : SessionCommandBody V → Bool
  asks (State.generate _ _ _ _) = true
  asks _ = false

  context_body-asks :
      (id : String) (content : List (Content V)) (o : Option (OperationRecord V))
      (body : SessionCommandBody V)
      → context_body id content o ≡ ok body
      → asks body ≡ false
  context_body-asks id content none body h = cc
  context_body-asks id content (some operation) body h = rw (← ok-injective h) refl

  append_body-asks :
      (revision position : _) (source : AppendSource) (entry : Option (HistoryEntry V))
      (body : SessionCommandBody V)
      → append_body revision position source entry ≡ ok body
      → asks body ≡ false
  append_body-asks revision position source none body h = cc
  append_body-asks revision position source (some entry) body h = rw (← ok-injective h) refl

  pub command_body-asks :
      (c : Checkpoint V) (intent : CommandIntent V) (body : SessionCommandBody V)
      → command_body c intent ≡ ok body
      → asks body ≡ is_generate intent
  unfolding command_body
  command_body-asks c (Run.delegation_context id content) body h =
      context_body-asks id content (lookup String-discrete id c.active.operations) body h
  command_body-asks c (Run.append entry revision position source _) body h =
      append_body-asks revision position source (get c.history entry) body h
  command_body-asks c (Run.generate _ _ _ _) body h = rw (← ok-injective h) refl
  command_body-asks c (Run.replace_context _) body h = rw (← ok-injective h) refl
  command_body-asks c (Run.update_profile _ _) body h = rw (← ok-injective h) refl
  command_body-asks c (Run.interrupt_output _ _) body h = rw (← ok-injective h) refl
  command_body-asks c Run.flush_input body h = rw (← ok-injective h) refl
  command_body-asks c (Run.set_input_audio _) body h = rw (← ok-injective h) refl
  command_body-asks c Run.seal_user_input body h = rw (← ok-injective h) refl
  command_body-asks c Run.close body h = rw (← ok-injective h) refl

  -- A command of an identity that is marked as sent.
  abbrev pub is_marked : String → List (PendingCommand V) → Bool
  is_marked id commands = any (λ c. same String-discrete c.id id && c.sent) commands

  abbrev pub IsCommitted : Checkpoint V → SessionCommand V → Type 0
  IsCommitted c command = is_marked command.id c.active.commands ≡ true

  pub find-marked :
      (p : PendingCommand V → Bool) (commands : List (PendingCommand V))
      (command : PendingCommand V)
      → find p commands ≡ some command
      → command.sent ≡ true
      → is_marked command.id commands ≡ true
  find-marked p [] command h sent = absurd (ground (arith, h))
  find-marked p (x ∷ xs) command h sent = elim (Bool-cases (p x)) [
    | inl b ↦
        let is : x ≡ command = ground (arith, b, h) in
        rw (is, same_self String-discrete command.id, sent) refl
    | inr b ↦
        let rest = find-marked p xs command (ground (arith, b, h)) sent in ground (arith, rest)
  ]

  pub mark_sent-marked :
      (p : PendingCommand V → Bool) (commands : List (PendingCommand V))
      (command : PendingCommand V)
      → find p commands ≡ some command
      → is_marked command.id (mark_sent command.id commands) ≡ true
  unfolding mark_sent
  mark_sent-marked p [] command h = absurd (ground (arith, h))
  mark_sent-marked p (x ∷ xs) command h = elim (Bool-cases (same String-discrete x.id command.id)) [
    | inl same_id ↦ rw (same_id, same_id) refl
    | inr other ↦ elim (Bool-cases (p x)) [
      | inl b ↦
          let is : x ≡ command = ground (arith, b, h) in
          absurd (ground (arith, other, is, same_self String-discrete command.id))
      | inr b ↦
          let rest = mark_sent-marked p xs command (ground (arith, b, h)) in rw (other, other) rest
    ]
  ]

raise_if-same :
    {V S : Type 0} (b : Bool) (error : Error) (e e' : Engine V S)
    → raise_if b error e ≡ (ok tt, e')
    → e' ≡ e
unfolding raise_if ◌>>=◌
raise_if-same true error e e' h =
    absurd (ground (arith, ap (λ (t : Result (Unit {0}) × Engine _ _). t.0) h))
raise_if-same false error e e' h = ap (λ (t : Result (Unit {0}) × Engine _ _). t.1) (sym h)

module _ {V S : Type 0} where
  -- What a part of a method leaves alone.
  abbrev pub Leaves : Engine V S → Engine V S → Type 0
  Leaves e e' = (e'.current ≡ e.current) × (e'.volatile ≡ e.volatile)

  conclude-volatile :
      (r : Result (Unit {0})) (e e' : Engine V S) (s : S) (c : Checkpoint V)
      → conclude r e s c ≡ (ok tt, e')
      → e'.volatile ≡ e.volatile
  conclude-volatile (ok _) e e' s c h = sym (ap (λ t. t.1.volatile) h)
  conclude-volatile (Error.err error) e e' s c h = absurd (ground (arith, ap (λ t. t.0) h))

module _ {V S : Type 0} ⦃environment : Environment V⦄ where
  pub check-Leaves : (e e' : Engine V S) → check e ≡ (ok tt, e') → Leaves e e'
  unfolding check gets read_clock
  check-Leaves e e' h =
      let (deadline, e1, read, h1) = bind-ok (gets (λ e. e.deadline)) _ e e' tt h in
      let (reading, e2, clock, h2) = bind-ok read_clock _ e1 e' tt h1 in
      let (_, e3, timely, h3) = bind-ok (raise_if _ Error.deadline) _ e2 e' tt h2 in
      let last = raise_if-same reading.1 Error.cancelled e3 e' h3 in
      let before = raise_if-same _ Error.deadline e2 e3 timely in
      let start = ap (λ t. t.1) (sym read) in
      let ticked = ap (λ t. t.1) (sym clock) in
      (
        ap (λ t. t.current) last
            ∙ ap (λ t. t.current) before
            ∙ ap (λ t. t.current) ticked
            ∙ ap (λ t. t.current) start,
        ap (λ t. t.volatile) last
            ∙ ap (λ t. t.volatile) before
            ∙ ap (λ t. t.volatile) ticked
            ∙ ap (λ t. t.volatile) start,
      )

  pub following-asks :
      (e : Engine V S) (commands : List (PendingCommand V)) (batch : List (SessionCommand V))
      → following e commands ≡ ok batch
      → Every (λ c. asks c.body ≡ false) batch
  unfolding following
  following-asks e [] batch h = rw (← ok-injective h) tt
  following-asks e (command ∷ commands) batch h =
      elim (Bool-cases (is_generate command.intent || not (can_send e command))) [
        | inl ends ↦
            let none_left : [] ≡ batch = ok-injective (ground (arith, ends, h)) in
            subst (λ b. Every (λ c. asks c.body ≡ false) b) none_left tt
        | inr goes ↦
            let step : (Bool → Result (List (SessionCommand V))) = λ b.
              if b
              then ok []
              else Error.◌>>=◌ (command_body e.current command.intent) λ body.
                Error.◌>>=◌ (following e commands)
                  λ rest. ok (record { id = command.id; body = body } ∷ rest) in
            let goes_on = subst (λ b. step b ≡ ok batch) goes h in
            let (body, made, h1) = >>=-eq-ok (command_body e.current command.intent) _ goes_on in
            let (rest, followed, all) =
              >>=-eq-ok (following e commands)
                (λ rest. ok (record { id = command.id; body = body } ∷ rest)) h1 in
            let plain : is_generate command.intent ≡ false = ground (arith, goes) in
            subst (λ b. Every (λ c. asks c.body ≡ false) b) (ok-injective all)
              (
                command_body-asks e.current command.intent body made ∙ plain,
                following-asks e commands rest followed,
              )
      ]

module _ {V S : Type 0} ⦃store : RunStore V S⦄ ⦃environment : Environment V⦄ where
  pub commit_boundary-marked :
      (id : String) (e e' : Engine V S)
      → commit_boundary id e ≡ (ok tt, e')
      → (e'.current.active.commands ≡ mark_sent id e.current.active.commands)
        × (e'.volatile ≡ e.volatile)
  unfolding commit_boundary gets ◌>>=◌
  commit_boundary-marked id e e' h =
      let next : Checkpoint V = with_commands (mark_sent id e.current.active.commands) e.current in
      let fact = Fact.command id in
      let (r, s) = answer e next fact HistoryDelta.unchanged in
      (
        ap (λ c. c.active.commands) (commit-current next fact HistoryDelta.unchanged e e' h),
        conclude-volatile (answered r) e e' s (saved e next fact)
            (sym (commit-eq next fact HistoryDelta.unchanged e) ∙ h),
      )
