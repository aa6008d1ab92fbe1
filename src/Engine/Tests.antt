-- ===== src/Engine/Tests.antt =====
-- Runs of the engine, and the theorems about it at a concrete engine.
use Prim.Native.Char.{code}
use zhir.Prelude.{
  ℕ, zero, suc, ◌≡◌, ◌≢◌, refl, sym, ap, arith, String, Option, none, some, [], ◌∷◌, List, map, ◌⊎◌,
  lookup, insert, lookup-insert_other, String-discrete, ℕ_discrete,
}
use zhir.Error.{ok, err, protocol}
use zhir.Operation.{
  OperationOutcome, OperationRecord, OperationOutcome-discrete, terminal, text, success, running,
  outcome_state, validate_outcome, CallRef-discrete, OperationOwner-discrete,
  OperationState-discrete,
}
use zhir.Profile.{RequestProfile-discrete}
use zhir.History.Entry.{append_digest, be_bytes64}
use zhir.History.Chain.{append_one}
use zhir.History.Since.{Digest-discrete}
use zhir.Storage.Commit.{OptionNumber-discrete, OptionText-discrete}
use zhir.Storage.Memory.{Key, Key-discrete, Store, load_head, store_commit, empty_store}
use zhir.Storage.Memory
use zhir.Model.{supports}
use zhir.Engine.State.{Engine, Task}
use zhir.Engine.State
use zhir.Engine.Commands.{
  dispatch_commands, dispatch_command, can_send, can_send_intent, command_body, following,
  commit_boundary, mark_sent,
}
use zhir.Engine.Boundary.Submits.{Submits, dispatch_commands-Submits}
use zhir.Engine.Completion.{finish_at, finish_local, settle_with, append_command}
use zhir.Engine.Replay.Once.{finish_at-once}
use zhir.Engine.Action.{lift, gets, adjust, ◌>>=◌, check, new_id, read_clock, emit, raise_if}
use zhir.Engine.Commit.{commit, persist, write, install, announce, kind}
use zhir.Engine.Operations.{operation_event, update_state, cursor}
use zhir.Engine.Workers.{handle}
use zhir.Engine.Media.Archive.{Archive, Decides, ensure_new_stream-Decides}
use zhir.Engine.Steps.{handled, here, then}
use zhir.Engine.Durable.{MemoryStore, DrawsOnce, IsDurable}
use zhir.Engine.Announced.{Counts, Steps-Counts}
use zhir.Engine.Heads.{Steps-IsDurable}
use zhir.Engine.Replay.Again.{operation_event-repeat}
use zhir.Fixtures.{NumberJson, SizeHashing, RevisionEncoding, asked, asked-IsWellFormed}
use zhir.Fixtures.Runs.{first_commit}
use zhir.Fixtures.Runs as Runs
use zhir.Fixtures.Engines.{
  archiving, file_ref, write_stored, ArchiveEnvironment, engine, generating, letters, prompt,
  prompted, started_store, TestEnvironment,
}

abbrev id_or : Option (OperationRecord ℕ) → String
id_or none = ""
id_or (some operation) = operation.id

unfoldable after_prompt : Engine ℕ (Store ℕ)
after_prompt = (operation_event "op" prompt engine).1

abbrev first_code : String → ℕ
first_code String.[] = 0
first_code (String.◌∷◌ c _) = code c

abbrev tail_of : String → String
tail_of String.[] = String.[]
tail_of (String.◌∷◌ _ s) = s

code-letters : (n : ℕ) → first_code (letters n) ≡ 117
code-letters zero = refl
code-letters (suc n) = refl

letters-injective : DrawsOnce TestEnvironment
letters-injective zero zero e = refl
letters-injective zero (suc n) e =
    absurd (omega (arith, ap (λ s. first_code (tail_of s)) e, code-letters n))
letters-injective (suc m) zero e =
    absurd (omega (arith, ap (λ s. first_code (tail_of s)) e, code-letters m))
letters-injective (suc m) (suc n) e = ap suc (letters-injective m n (ap tail_of e))

letters-unseen : (n : ℕ) → "k0" ≢ letters n
letters-unseen n e = omega (arith, ap first_code e, code-letters n)

engine-IsDurable : IsDurable engine
unfolding started_store store_commit load_head lookup String-discrete
engine-IsDurable = record {
  head = refl;
  unseen = λ run_id n le.
      lookup-insert_other Key-discrete ("run", "k0") (run_id, letters n) "digest" []
        (λ e. letters-unseen n (ap (λ k. k.1) e));
}

prompt-accepted : (operation_event "op" prompt engine).0 ≡ ok tt
unfolding operation_event ◌>>=◌ lookup insert String-discrete cursor update_state raise_if terminal
    commit new_id persist read_clock write install announce emit kind Memory.commit started_store
    Key-discrete OptionNumber-discrete ℕ_discrete RequestProfile-discrete OptionText-discrete
    CallRef-discrete OperationOwner-discrete append_digest asked append_one Digest-discrete
    be_bytes64 OperationState-discrete
prompt-accepted = refl

prompt-result : operation_event "op" prompt engine ≡ (ok tt, after_prompt)
unfolding after_prompt
prompt-result = ap (λ r. (r, (operation_event "op" prompt engine).1)) prompt-accepted

operation-keys :
    (operation : OperationRecord ℕ)
    → lookup String-discrete "op" engine.current.active.operations ≡ some operation
    → operation.id ≡ "op"
unfolding lookup String-discrete
operation-keys operation e = ap (λ (o : Option (OperationRecord ℕ)). id_or o) (sym e)

operation_event-repeat_example : operation_event "op" prompt after_prompt ≡ (ok tt, after_prompt)
operation_event-repeat_example =
    operation_event-repeat "op" prompt engine after_prompt operation-keys tt prompt-result

Steps-IsDurable_example : IsDurable (handle prompted engine).1
Steps-IsDurable_example =
    Steps-IsDurable letters-injective (then here (handled prompted)) engine-IsDurable

Steps-Counts_example :
    Counts 0 (handle prompted engine).1.current.revision (handle prompted engine).1.events
Steps-Counts_example = Steps-Counts (then here (handled prompted)) refl

abbrev task_ids : Task ℕ → List String
task_ids (State.submit batch) = map (λ c. c.id) batch
task_ids _ = []

abbrev told : OperationOutcome ℕ
told = success (text "noon" ∷ []) 0

unfoldable after_answer : Engine ℕ (Store ℕ)
after_answer = (finish_at "op" told none engine).1

answer-accepted : (finish_at "op" told none engine).0 ≡ ok tt
unfolding finish_at finish_local settle_with append_command lift gets adjust ◌>>=◌ lookup insert
    String-discrete terminal validate_outcome outcome_state commit new_id persist read_clock write
    install announce emit kind Memory.commit started_store Key-discrete OptionNumber-discrete
    ℕ_discrete RequestProfile-discrete OptionText-discrete CallRef-discrete OperationOwner-discrete
    append_digest asked append_one Digest-discrete be_bytes64 OperationState-discrete
answer-accepted = refl

answer-result : finish_at "op" told none engine ≡ (ok tt, after_answer)
unfolding after_answer
answer-result = ap (λ r. (r, (finish_at "op" told none engine).1)) answer-accepted

finish_at-once_example :
    finish_at "op" (OperationOutcome.cancelled "late") (some 7) after_answer
    ≡ (err (protocol "conflicting operation completion"), after_answer)
unfolding terminal lookup String-discrete OperationOutcome-discrete validate_outcome
finish_at-once_example =
    finish_at-once "op" told (OperationOutcome.cancelled "late") none (some 7)
      (Runs.clock running none) engine after_answer refl refl tt asked-IsWellFormed answer-result
      refl

unfoldable after_dispatch : Engine ℕ (Store ℕ)
after_dispatch = (dispatch_commands generating).1

dispatch-accepted : (dispatch_commands generating).0 ≡ ok tt
unfolding dispatch_commands dispatch_command can_send can_send_intent command_body following
    commit_boundary mark_sent check lift gets adjust raise_if ◌>>=◌ lookup insert String-discrete
    terminal commit new_id persist read_clock write install announce emit kind Memory.commit
    started_store Key-discrete OptionNumber-discrete ℕ_discrete RequestProfile-discrete
    OptionText-discrete CallRef-discrete OperationOwner-discrete append_digest asked append_one
    Digest-discrete be_bytes64 OperationState-discrete supports
dispatch-accepted = refl

dispatch-result : dispatch_commands generating ≡ (ok tt, after_dispatch)
unfolding after_dispatch
dispatch-result = ap (λ r. (r, (dispatch_commands generating).1)) dispatch-accepted

-- The submission is the newest task.
submitted_test : map (λ t. task_ids t) after_dispatch.volatile.tasks ≡ ("n1" ∷ []) ∷ []
unfolding after_dispatch dispatch_commands dispatch_command can_send can_send_intent command_body
    following commit_boundary mark_sent check lift gets adjust raise_if ◌>>=◌ lookup insert
    String-discrete terminal commit new_id persist read_clock write install announce emit kind
    Memory.commit started_store Key-discrete OptionNumber-discrete ℕ_discrete
    RequestProfile-discrete OptionText-discrete CallRef-discrete OperationOwner-discrete
    append_digest asked append_one Digest-discrete be_bytes64 OperationState-discrete supports
submitted_test = refl

dispatch_commands-Submits_example :
    (after_dispatch ≡ generating) ⊎ Submits generating after_dispatch
dispatch_commands-Submits_example =
    dispatch_commands-Submits generating after_dispatch dispatch-result

read-Archive : Archive ArchiveEnvironment (some (file_ref "a2")) ("output:b:0" ∷ "output:a:0" ∷ [])
unfolding String-discrete
read-Archive = Archive.node refl (Archive.node refl Archive.empty)

ensure_new_stream-Decides_example :
    Decides ⦃environment = ArchiveEnvironment⦄ "output:a:0"
      ("output:b:0" ∷ "output:a:0" ∷ [])
      archiving
ensure_new_stream-Decides_example =
    ensure_new_stream-Decides ⦃environment = ArchiveEnvironment⦄ "output:a:0"
      ("output:b:0" ∷ "output:a:0" ∷ []) archiving write_stored refl refl read-Archive (omega arith)
      refl (λ n. refl)
