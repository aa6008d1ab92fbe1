-- ===== src/Engine/Changes.antt =====
-- The changes of a checkpoint that the methods of the engine share, on the clone `next` of the current
-- one.
use zhir.Prelude.{
  String, Bool, Option, none, some, List, [], ◌∷◌, ◌++◌, Map, insert, String-discrete,
}
use zhir.Operation.{OperationRecord}
use zhir.Run.{Checkpoint, PendingCommand, CommandIntent, SessionSnapshot}

-- `a.or(b)`
abbrev pub or_else {ℓ} : {A : Type ℓ} → Option A → Option A → Option A
or_else none b = b
or_else (some a) b = some a

module _ {V : Type 0} where
  abbrev pub with_operations : Map String (OperationRecord V) → Checkpoint V → Checkpoint V
  with_operations operations next = record next {
    active = record next.active { operations = operations };
  }

  -- A write through `operations.get_mut(id)`, or an `insert`.
  abbrev pub put_operation : String → OperationRecord V → Checkpoint V → Checkpoint V
  put_operation id operation next =
      with_operations (insert String-discrete id operation next.active.operations) next

  abbrev pub with_commands : List (PendingCommand V) → Checkpoint V → Checkpoint V
  with_commands commands next = record next { active = record next.active { commands = commands } }

  -- `commands.push` of a command that was not sent.
  abbrev pub push_command : String → CommandIntent V → Checkpoint V → Checkpoint V
  push_command id intent next =
      with_commands
        (next.active.commands ++ record { id = id; intent = intent; sent = Bool.false } ∷ []) next

  abbrev pub with_session : SessionSnapshot V → Checkpoint V → Checkpoint V
  with_session session next = record next { active = record next.active { session = session } }
