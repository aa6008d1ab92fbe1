-- ===== src/Engine/Boundary/Submits.antt =====
-- The boundary of a send: what must not be sent twice leaves the engine only when its checkpoint says
-- that it was sent.
use mathlib.Core.Path.{subst}
use zhir.Prelude.{
  ◌≡◌, refl, sym, ap, ◌∙◌, inl, inr, ◌⊎◌, arith, String, Bool, true, false, Bool-cases, not, ◌&&◌,
  ◌||◌, Option, none, some, List, ◌∷◌, find, if◌then◌else◌,
}
use zhir.Error.{ok, Every, Every-map, ok-injective}
use zhir.Model.{local_projection}
use zhir.Run.{Checkpoint, PendingCommand}
use zhir.Engine.State.{Engine, SessionCommand, submit}
use zhir.Engine.Action.{RunStore, Environment, Action, ◌>>=◌, done, gets, lift, adjust, check}
use zhir.Engine.Session.{declares}
use zhir.Engine.Commands.{
  can_send, command_body, commit_boundary, dispatch_command, dispatch_commands, dispatch_first,
  dispatch_session, following_if, is_generate, is_unsent,
}
use zhir.Engine.Replay.{bind-ok, continue-ok}
use zhir.Engine.Boundary.{
  asks, IsCommitted, is_marked, command_body-asks, find-marked, mark_sent-marked, check-Leaves,
  following-asks, commit_boundary-marked,
}

module _ {V S : Type 0} ⦃store : RunStore V S⦄ ⦃environment : Environment V⦄ where
  boundary-marked :
      (p : PendingCommand V → Bool) (command : PendingCommand V) (durable : Bool)
      (e e' : Engine V S)
      → find p e.current.active.commands ≡ some command
      → (if durable && not command.sent then commit_boundary command.id else done) e ≡ (ok tt, e')
      → (durable ≡ true → is_marked command.id e'.current.active.commands ≡ true)
        × (e'.volatile ≡ e.volatile)
  unfolding ◌>>=◌
  boundary-marked p command false e e' found h =
      ((λ b. absurd (ground (arith, b))), ap (λ t. t.1.volatile) (sym h))
  boundary-marked p command true e e' found h =
      let branch : Bool → Action V S (Unit {0}) =
        λ b. if not b then commit_boundary command.id else done in
      elim (Bool-cases command.sent) [
        | inl sent ↦
            let same_engine = subst (λ b. branch b e ≡ (ok tt, e')) sent h in
            (
              (λ _.
                  ap (λ t. is_marked command.id t.1.current.active.commands) (sym same_engine)
                  ∙ find-marked p e.current.active.commands command found sent),
              ap (λ t. t.1.volatile) (sym same_engine),
            )
        | inr unsent ↦
            let (marked, kept) =
              commit_boundary-marked command.id e e'
                (subst (λ b. branch b e ≡ (ok tt, e')) unsent h) in
            (
              (λ _.
                  ap (is_marked command.id) marked
                  ∙ mark_sent-marked p e.current.active.commands command found),
              kept,
            )
      ]

  -- What must not be sent twice: a request to generate, and any command of a session that is not a
  -- projection.
  abbrev pub MustCommit : Engine V S → SessionCommand V → Type 0
  MustCommit e command = (asks command.body || not (declares e local_projection)) ≡ true

  -- A batch was submitted, and of its commands those that must not be sent twice are marked as sent in
  -- the checkpoint.
  abbrev pub Submits : Engine V S → Engine V S → Type 0
  Submits e e' =
      (batch : List (SessionCommand V)) × (e'.volatile.tasks ≡ submit batch ∷ e.volatile.tasks)
      × Every (λ c. MustCommit e c → IsCommitted e'.current c) batch

  followers-IsCommitted :
      (durable local : Bool) (e : Engine V S) (id : String) (batch : List (SessionCommand V))
      (c : Checkpoint V)
      → following_if durable e id ≡ ok batch
      → (durable ≡ false → not local ≡ false)
      → Every (λ x. (asks x.body || not local) ≡ true → IsCommitted c x) batch
  followers-IsCommitted true local e id batch c h rebuilt =
      subst (λ b. Every (λ x. (asks x.body || not local) ≡ true → IsCommitted c x) b)
        (ok-injective h) tt
  followers-IsCommitted false local e id batch c h rebuilt =
      Every-map (λ x. asks x.body ≡ false) _
        (λ x plain must. absurd (ground (arith, plain, must, rebuilt refl))) batch
        (following-asks e _ batch h)

  dispatch_command-IsCommitted :
      (p : PendingCommand V → Bool) (command : PendingCommand V) (durable : Bool)
      (e e' : Engine V S)
      → find p e.current.active.commands ≡ some command
      → durable ≡ (is_generate command.intent || not (declares e local_projection))
      → dispatch_command command durable e ≡ (ok tt, e')
      → Submits e e'
  unfolding dispatch_command gets lift adjust ◌>>=◌
  dispatch_command-IsCommitted p command durable e e' found is h =
      let (body, made, h1) = continue-ok (command_body e.current command.intent) _ e e' tt h in
      let (_, e1, bounded, h2) =
        bind-ok (if durable && not command.sent then commit_boundary command.id else done) _ e e' tt
          h1 in
      let (_, e2, checked, h3) = bind-ok check _ e1 e' tt h2 in
      let (rest, followed, h4) = continue-ok (following_if durable e2 command.id) _ e2 e' tt h3 in
      let (marked, kept) = boundary-marked p command durable e e1 found bounded in
      let (same_current, same_volatile) = check-Leaves e1 e2 checked in
      let current : e'.current ≡ e1.current = ap (λ t. t.1.current) (sym h4) ∙ same_current in
      let first : MustCommit e (record { id = command.id; body = body })
          → IsCommitted e'.current (record { id = command.id; body = body }) =
        λ must.
          ap (λ c. is_marked command.id c.active.commands) current
          ∙ marked (
              is
              ∙ ap (λ b. b || not (declares e local_projection))
                  (sym (command_body-asks e.current command.intent body made))
              ∙ must) in
      (
        record { id = command.id; body = body } ∷ rest,
        ap (λ t. t.1.volatile.tasks) (sym h4)
            ∙ ap (λ v. submit (record { id = command.id; body = body } ∷ rest) ∷ v.tasks)
                (same_volatile ∙ kept),
        (
          first,
          followers-IsCommitted durable (declares e local_projection) e2 command.id rest e'.current
              followed (λ b. ground (arith, is, b)),
        ),
      )

  found-IsCommitted :
      (p : PendingCommand V → Bool) (o : Option (PendingCommand V)) (e e' : Engine V S)
      → find p e.current.active.commands ≡ o
      → dispatch_first e o e ≡ (ok tt, e')
      → (e' ≡ e) ⊎ Submits e e'
  unfolding ◌>>=◌
  found-IsCommitted p none e e' found h = inl (ap (λ t. t.1) (sym h))
  found-IsCommitted p (some command) e e' found h =
      let durable = is_generate command.intent || not (declares e local_projection) in
      let branch : Bool → Action V S (Unit {0}) =
        λ b. if b then dispatch_command command durable else done in
      elim (Bool-cases (can_send e command)) [
        | inl can ↦ inr (
            dispatch_command-IsCommitted p command durable e e' found refl
              (subst (λ b. branch b e ≡ (ok tt, e')) can h))
        | inr cannot ↦ inl (ap (λ t. t.1) (sym (subst (λ b. branch b e ≡ (ok tt, e')) cannot h)))
      ]

  session-IsCommitted :
      (control : Option _) (e e' : Engine V S)
      → dispatch_session e control e ≡ (ok tt, e')
      → (e' ≡ e) ⊎ Submits e e'
  unfolding ◌>>=◌
  session-IsCommitted none e e' h = inl (ap (λ t. t.1) (sym h))
  session-IsCommitted (some _) e e' h =
      let unsent = is_unsent e.volatile.sent in
      let branch : Bool → Action V S (Unit {0}) =
        λ b. if b then done else dispatch_first e (find unsent e.current.active.commands) in
      elim (Bool-cases (e.volatile.sending || not e.current.active.session.ready)) [
        | inl busy ↦ inl (ap (λ t. t.1) (sym (subst (λ b. branch b e ≡ (ok tt, e')) busy h)))
        | inr free ↦
            found-IsCommitted unsent (find unsent e.current.active.commands) e e' refl
              (subst (λ b. branch b e ≡ (ok tt, e')) free h)
      ]

  -- If dispatch_commands returns without an error, the engine is as it was, or one batch was
  -- submitted, and of its commands each request to generate, and each command at all if the
  -- session is not a local projection, is marked as sent in the current checkpoint.
  pub dispatch_commands-Submits :
      (e e' : Engine V S) → dispatch_commands e ≡ (ok tt, e') → (e' ≡ e) ⊎ Submits e e'
  unfolding dispatch_commands gets ◌>>=◌
  dispatch_commands-Submits e e' h = session-IsCommitted e.volatile.session_control e e' h
