-- ===== src/Engine/Commands.antt =====
-- crates/zhir-kernel/src/engine/commands.rs: the commands of a session, from their preparation to their
-- submission.
use Prim.Native.Char.{code}
use zhir.Prelude.{
  ℕ, String, Bool, true, false, not, ◌&&◌, ◌||◌, Option, none, some, List, [], ◌∷◌, ◌++◌, leb, ◌==◌,
  length, contains, lookup, remove, retain, find, map, same, String-discrete, if◌then◌else◌,
}
use zhir.Error.{Result, ok, protocol, invalid}
use zhir.Error
use zhir.Model.{
  AppendSource, CapabilitySet, submitted, local_projection, replace_context, async_results,
  steering,
}
use zhir.Operation.{Content, OperationRecord}
use zhir.History.Entry.{HistoryEntry}
use zhir.History.Chain.{get, entries}
use zhir.Run.{Checkpoint, CommandIntent, Fact, PendingCommand, StreamCursor, SessionSnapshot}
use zhir.Run
use zhir.Storage.Commit.{HistoryDelta}
use zhir.Engine.State.{Engine, SessionCommand, SessionCommandBody, Volatile, submit}
use zhir.Engine.Action.{
  RunStore, Environment, Action, pure, lift, gets, ◌>>=◌, ◌>>◌, done, raise_if, checkpoint, adjust,
  spawn, new_id, check,
}
use zhir.Engine.Changes.{push_command, with_commands, with_session}
use zhir.Engine.Commit.{commit}
use zhir.Engine.Session.{declares}
use zhir.Engine.Media.{archive_media, ended_all}

-- `starts_with`
unfoldable pub starts_with : String → String → Bool
starts_with String.[] s = true
starts_with (String.◌∷◌ c cs) String.[] = false
starts_with (String.◌∷◌ c cs) (String.◌∷◌ d ds) = code c == code d && starts_with cs ds

module _ {V : Type 0} where
  abbrev pub is_generate : CommandIntent V → Bool
  is_generate (Run.generate _ _ _ _) = true
  is_generate _ = false

  abbrev with_media : String → Checkpoint V → Checkpoint V
  with_media key next = record next {
    active = record next.active { media = remove String-discrete key next.active.media };
  }

module _ {V S : Type 0} ⦃environment : Environment V⦄ where
  -- The loop over the output streams that an interruption retires: the checkpoint without them, and
  -- their keys.
  unfoldable pub retire :
      Checkpoint V → List (String × StreamCursor V) → Action V S (Checkpoint V × List String)
  retire next [] = pure (next, [])
  retire next ((key, cursor) ∷ cursors) = do
    archived ← archive_media next key cursor.sealed false
    rest ← retire (with_media key archived) cursors
    pure (rest.0, key ∷ rest.1)

  -- The change of the checkpoint by an intent.
  abbrev pub prepare : Checkpoint V → CommandIntent V → Action V S (Checkpoint V × List String)
  prepare next Run.close =
      pure (with_session (record next.active.session { closing = true }) next, [])
  prepare next (Run.interrupt_output _ output_epoch) =
      retire (with_session (record next.active.session { output_epoch = output_epoch }) next)
        (retain (λ m. starts_with "output:" m.0) next.active.media)
  prepare next Run.seal_user_input =
      pure (with_session (record next.active.session { input_closed = true }) next, [])
  prepare next (Run.set_input_audio enabled) =
      pure (with_session (record next.active.session { input_audio_enabled = enabled }) next, [])
  prepare next _ = pure (next, [])

-- What follows the commit of an intent.
module _ {V S : Type 0} where
  abbrev pub after_prepare : CommandIntent V → Action V S (Unit {0})
  after_prepare (Run.interrupt_output _ _) = do
    current ← checkpoint
    adjust (λ v. record v { valid_epoch = current.active.session.output_epoch })
  after_prepare Run.seal_user_input = adjust (λ v. record v { media_closed = true })
  after_prepare _ = done

module _ {V S : Type 0} ⦃store : RunStore V S⦄ ⦃environment : Environment V⦄ where
  -- `Engine::prepare_command`
  unfoldable pub prepare_command : CommandIntent V → Action V S String
  prepare_command intent = do
    current ← checkpoint
    raise_if (leb current.options.limits.max_control_commands (length current.active.commands))
        (invalid "pending command capacity exceeded")
    id ← new_id
    prepared ← prepare current intent
    commit (push_command id intent prepared.0) (Fact.command id) HistoryDelta.unchanged
    ended_all prepared.1
    after_prepare intent
    pure id

-- `response_status.is_none() && generation_id.is_some()`
abbrev pub is_generating : {V : Type 0} → SessionSnapshot V → Bool
is_generating s = elim s.response_status [
  | some _ ↦ false
  | none ↦ elim s.generation_id [ none ↦ false | some _ ↦ true ]
]

-- No host media is on its way to the model.
abbrev media_idle : {V : Type 0} → Volatile V → Bool
media_idle v = not v.input_sending && not v.held_input && not v.media_queued

abbrev is_submitted : AppendSource → Bool
is_submitted submitted = true
is_submitted _ = false

module _ {V S : Type 0} ⦃environment : Environment V⦄ where
  abbrev held_back : Engine V S → Bool
  held_back e = is_generating e.current.active.session && not (declares e replace_context)

  -- `Engine::can_send`, of a command that was not sent.
  unfoldable pub can_send_intent : Engine V S → CommandIntent V → Bool
  can_send_intent e Run.seal_user_input = media_idle e.volatile
  can_send_intent e Run.close = media_idle e.volatile
  can_send_intent e Run.flush_input = media_idle e.volatile
  can_send_intent e (Run.append _ _ _ source operation_id) =
      if held_back e
      then elim operation_id [
        | some _ ↦ declares e async_results
        | none ↦ if is_submitted source then declares e steering else true
      ]
      else true
  can_send_intent e _ = true

  -- `Engine::can_send`
  unfoldable pub can_send : Engine V S → PendingCommand V → Bool
  can_send e command =
      not (contains String-discrete command.id e.volatile.sent) && can_send_intent e command.intent

module _ {V : Type 0} where
  abbrev pub context_body :
      String → List (Content V) → Option (OperationRecord V) → Result (SessionCommandBody V)
  context_body id content none = Error.err (protocol "delegation context origin missing")
  context_body id content (some operation) =
      ok (SessionCommandBody.delegation_context id operation.origin content)

  abbrev pub append_body :
      ℕ → ℕ → AppendSource → Option (HistoryEntry V) → Result (SessionCommandBody V)
  append_body context_revision input_position source none =
      Error.err (protocol "missing input entry")
  append_body context_revision input_position source (some entry) =
      ok (SessionCommandBody.append entry context_revision input_position source)

  -- `Engine::command_body`
  unfoldable pub command_body : Checkpoint V → CommandIntent V → Result (SessionCommandBody V)
  unfolding get entries lookup
  command_body c (Run.delegation_context id content) =
      context_body id content (lookup String-discrete id c.active.operations)
  command_body c (Run.generate generation_id context_revision input_position profile_revision) =
      ok
        (SessionCommandBody.generate generation_id context_revision input_position profile_revision)
  command_body c (Run.append entry context_revision input_position source _) =
      append_body context_revision input_position source (get c.history entry)
  command_body c (Run.replace_context context_revision) =
      ok (SessionCommandBody.replace_context (entries c.history) context_revision)
  command_body c (Run.update_profile revision profile) =
      ok (SessionCommandBody.update_profile revision profile)
  command_body c (Run.interrupt_output generation_id output_epoch) =
      ok (SessionCommandBody.interrupt_output generation_id output_epoch)
  command_body c Run.flush_input = ok SessionCommandBody.flush_input
  command_body c (Run.set_input_audio enabled) = ok (SessionCommandBody.set_input_audio enabled)
  command_body c Run.seal_user_input = ok SessionCommandBody.seal_user_input
  command_body c Run.close = ok SessionCommandBody.close

  -- `iter_mut().find(|c| c.id == id)` and its `sent = true`.
  unfoldable pub mark_sent : String → List (PendingCommand V) → List (PendingCommand V)
  mark_sent id [] = []
  mark_sent id (command ∷ commands) =
      if same String-discrete command.id id
      then record command { sent = true } ∷ commands
      else command ∷ mark_sent id commands

  abbrev pub is_unsent : List String → PendingCommand V → Bool
  is_unsent sent command = not (contains String-discrete command.id sent)

module _ {V S : Type 0} ⦃environment : Environment V⦄ where
  -- The loop that adds the commands that follow to a batch: a generation, or one that cannot be sent,
  -- ends it.
  unfoldable pub following : Engine V S → List (PendingCommand V) → Result (List (SessionCommand V))
  following e [] = ok []
  following e (command ∷ commands) =
      let rest = following e commands in
      if is_generate command.intent || not (can_send e command)
      then ok []
      else Error.◌>>=◌ (command_body e.current command.intent)
          λ body. Error.◌>>=◌ rest λ batch. ok (record { id = command.id; body = body } ∷ batch)

  -- The commands after the first of a batch: none follow a command with a durable boundary.
  abbrev pub following_if : Bool → Engine V S → String → Result (List (SessionCommand V))
  following_if true e first = ok []
  following_if false e first = following e (
      retain (λ c. is_unsent e.volatile.sent c && not (same String-discrete c.id first))
        e.current.active.commands)

module _ {V S : Type 0} ⦃store : RunStore V S⦄ ⦃environment : Environment V⦄ where
  -- The commit of the boundary of a send.
  unfoldable pub commit_boundary : String → Action V S (Unit {0})
  commit_boundary id = do
    current ← checkpoint
    commit (with_commands (mark_sent id current.active.commands) current) (Fact.command id)
        HistoryDelta.unchanged

  -- The batch of a command that can be sent.
  unfoldable pub dispatch_command : PendingCommand V → Bool → Action V S (Unit {0})
  dispatch_command command durable = do
    e ← gets (λ e. e)
    body ← lift (command_body e.current command.intent)
    if durable && not command.sent then commit_boundary command.id else done
    check
    now ← gets (λ e. e)
    rest ← lift (following_if durable now command.id)
    let batch : List (SessionCommand V) = record { id = command.id; body = body } ∷ rest
    adjust (λ v. record v { sent = map (λ c. c.id) batch ++ v.sent; sending = true })
    spawn (submit batch)

  -- The first command that was not sent, if it can be.
  abbrev pub dispatch_first : Engine V S → Option (PendingCommand V) → Action V S (Unit {0})
  dispatch_first e none = done
  dispatch_first e (some command) =
      if can_send e command
      then dispatch_command command
          (is_generate command.intent || not (declares e local_projection))
      else done

  abbrev pub dispatch_session : Engine V S → Option (CapabilitySet V) → Action V S (Unit {0})
  dispatch_session e none = done
  dispatch_session e (some _) =
      if e.volatile.sending || not e.current.active.session.ready
      then done
      else dispatch_first e (find (is_unsent e.volatile.sent) e.current.active.commands)

  -- `Engine::dispatch_commands`
  unfoldable pub dispatch_commands : Action V S (Unit {0})
  dispatch_commands = do e ← gets (λ e. e); dispatch_session e e.volatile.session_control
