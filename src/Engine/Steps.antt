-- ===== src/Engine/Steps.antt =====
-- The engine as a machine: each pass of its loop is a step, and others change its queues in between.
use zhir.Prelude.{List}
use zhir.Error.{Result}
use zhir.Value.{Json}
use zhir.Message.{Message}
use zhir.History.Entry.{Hashing}
use zhir.Engine.State.{ControlBody, Engine, Volatile, Work}
use zhir.Engine.Action.{RunStore, Environment, adjust}
use zhir.Engine.Commands.{dispatch_commands}
use zhir.Engine.Controls.{control}
use zhir.Engine.Recovery.{RecoveryResolution, apply_recovery}
use zhir.Engine.Admission.{recover_operations}
use zhir.Engine.Workers.{handle}
use zhir.Engine.Lifecycle.{advance_run, settle_run}
use zhir.Engine.Keeps.{IsInvariant}
use zhir.Engine.Keeps.Commands.{dispatch_commands-Keeps}
use zhir.Engine.Keeps.Controls.{control-Keeps, apply_recovery-Keeps}
use zhir.Engine.Keeps.Workers.{
  handle-Keeps, recover_operations-Keeps, advance_run-Keeps, settle_run-Keeps,
}
use zhir.Engine.Durable.{MemoryStore}

module _ {V S : Type 0} ⦃j : Json V⦄ ⦃hashing : Hashing V⦄ ⦃store : RunStore V S⦄
    ⦃environment : Environment V⦄ where
  -- One call of a method by the engine's loop, whatever it returns, or a change of the queues, the
  -- session and the tasks by another.
  pub data Step (e : Engine V S) : Engine V S → Type 0 where
    handled : (item : Work V) → Step e (handle item e).1
    controlled : (body : ControlBody V) → Step e (control body e).1
    dispatched : Step e (dispatch_commands e).1
    advanced : Step e (advance_run e).1
    recovered :
        (resolutions : List (RecoveryResolution V)) (messages : List (Message V))
        → Step e (apply_recovery resolutions messages e).1
    restarted : Step e (recover_operations e).1
    ended : (result : Result (Unit {0})) → Step e (settle_run result e).1
    arrived : (f : Volatile V → Volatile V) → Step e (adjust f e).1

  pub data Steps (e : Engine V S) : Engine V S → Type 0 where
    here : Steps e e
    then : {f g : Engine V S} → Steps e f → Step f g → Steps e g

  step-keeps :
      {P : Engine V S → Type 0} (inv : IsInvariant P) {e f : Engine V S} → Step e f → P e → P f
  step-keeps inv {e} (handled item) h = (handle-Keeps inv item).after e h
  step-keeps inv {e} (controlled body) h = (control-Keeps inv body).after e h
  step-keeps inv {e} dispatched h = (dispatch_commands-Keeps inv).after e h
  step-keeps inv {e} advanced h = (advance_run-Keeps inv).after e h
  step-keeps inv {e} (recovered resolutions messages) h =
      (apply_recovery-Keeps inv resolutions messages).after e h
  step-keeps inv {e} restarted h = (recover_operations-Keeps inv).after e h
  step-keeps inv {e} (ended result) h = (settle_run-Keeps inv result).after e h
  step-keeps inv {e} (arrived f) h = (inv.adjusts f).after e h

  pub steps-keep :
      {P : Engine V S → Type 0} (inv : IsInvariant P) {e f : Engine V S} → Steps e f → P e → P f
  steps-keep inv here h = h
  steps-keep inv (then steps step) h = step-keeps inv step (steps-keep inv steps h)
