-- ===== src/Engine/Keeps.antt =====
-- What holds of the engine before a method and after it, whatever its result: one rule for each way to
-- write a method, and what a property needs to be one that every method keeps.
pub mod Operations
pub mod Commands
pub mod Events
pub mod Controls
pub mod Workers
use zhir.Prelude.{◌≡◌, refl, ℕ, String, Bool, true, false, Option, none, some, if◌then◌else◌}
use zhir.Error.{Error, Result, ok, err}
use zhir.Operation.{OperationState}
use zhir.Run.{Checkpoint, Fact}
use zhir.Storage.Commit.{HistoryDelta}
use zhir.Engine.State.{Engine, EventData, Volatile, operation_progress, model_delta}
use zhir.Engine.Action.{
  RunStore, Environment, Action, pure, raise, lift, gets, ◌>>=◌, raise_if, or_raise, attempt,
  adjust, emit, new_id, read_clock, continue,
}
use zhir.Engine.Commit.{commit}

pub record Keeps {V S A : Type 0} (P : Engine V S → Type 0) (m : Action V S A) : Type 0 where
  pub after : (e : Engine V S) → P e → P (m e).1

module _ {V S A : Type 0} {P : Engine V S → Type 0} where
  pub Keeps-pure : (a : A) → Keeps P (pure a)
  unfolding pure
  Keeps-pure a = record { after = λ e h. h }

  pub Keeps-raise : (error : Error) → Keeps P (raise {A = A} error)
  unfolding raise
  Keeps-raise error = record { after = λ e h. h }

  pub Keeps-lift : (r : Result A) → Keeps P (lift r)
  unfolding lift
  Keeps-lift r = record { after = λ e h. h }

  pub Keeps-gets : (f : Engine V S → A) → Keeps P (gets f)
  unfolding gets
  Keeps-gets f = record { after = λ e h. h }

  pub Keeps-if :
      (b : Bool) (m n : Action V S A) → Keeps P m → Keeps P n → Keeps P (if b then m else n)
  Keeps-if true m n km kn = km
  Keeps-if false m n km kn = kn

  pub Keeps-or_raise : (o : Option A) (error : Error) → Keeps P (or_raise o error)
  unfolding or_raise
  Keeps-or_raise none error = Keeps-raise error
  Keeps-or_raise (some a) error = Keeps-pure a

  pub Keeps-attempt : (m : Action V S A) → Keeps P m → Keeps P (attempt m)
  unfolding attempt
  Keeps-attempt m km = record { after = km.after }

module _ {V S A B : Type 0} {P : Engine V S → Type 0} where
  Keeps-continue :
      (r : Result A) (next : A → Action V S B)
      → ((a : A) → Keeps P (next a))
      → (e : Engine V S) → P e
      → P (continue r next e).1
  Keeps-continue (ok a) next k e h = (k a).after e h
  Keeps-continue (err error) next k e h = h

  pub Keeps-bind :
      (m : Action V S A) (next : A → Action V S B)
      → Keeps P m
      → ((a : A) → Keeps P (next a))
      → Keeps P (m >>= next)
  unfolding ◌>>=◌
  Keeps-bind m next km k = record {
    after = λ e h. let (r, e') = m e in Keeps-continue r next k e' (km.after e h);
  }

module _ {V S : Type 0} {P : Engine V S → Type 0} where
  pub Keeps-raise_if : (b : Bool) (error : Error) → Keeps P (raise_if b error)
  unfolding raise_if
  Keeps-raise_if true error = Keeps-raise error
  Keeps-raise_if false error = Keeps-pure tt

pub ruleset keeps = (
  Keeps-pure, Keeps-raise, Keeps-lift, Keeps-gets, Keeps-if, Keeps-or_raise, Keeps-bind,
  Keeps-raise_if, Keeps-attempt,
)

-- A property that no primitive change of the engine breaks; a commit may fail.
pub record IsInvariant {V S : Type 0} ⦃store : RunStore V S⦄ ⦃environment : Environment V⦄
    (P : Engine V S → Type 0) : Type 0 where
  pub adjusts : (f : Volatile V → Volatile V) → Keeps P (adjust f)
  pub progresses : (id : String) (value : V) → Keeps P (emit (operation_progress id value))
  pub streams : (id : Option String) (delta : V) → Keeps P (emit (model_delta id delta))
  pub draws : Keeps P new_id
  pub reads : Keeps P read_clock
  pub commits :
      (next : Checkpoint V) (fact : Fact) (history : HistoryDelta V)
      → Keeps P (commit next fact history)

module _ {V S : Type 0} ⦃store : RunStore V S⦄ ⦃environment : Environment V⦄
    {P : Engine V S → Type 0} (inv : IsInvariant P) where
  pub adjust-Keeps : (f : Volatile V → Volatile V) → Keeps P (adjust f)
  adjust-Keeps = inv.adjusts

  pub progress-Keeps : (id : String) (value : V) → Keeps P (emit (operation_progress id value))
  progress-Keeps = inv.progresses

  pub delta-Keeps : (id : Option String) (delta : V) → Keeps P (emit (model_delta id delta))
  delta-Keeps = inv.streams

  pub new_id-Keeps : Keeps P new_id
  new_id-Keeps = inv.draws

  pub read_clock-Keeps : Keeps P read_clock
  read_clock-Keeps = inv.reads

  pub commit-Keeps :
      (next : Checkpoint V) (fact : Fact) (history : HistoryDelta V)
      → Keeps P (commit next fact history)
  commit-Keeps = inv.commits

pub ruleset changes =
    (keeps, adjust-Keeps, progress-Keeps, delta-Keeps, new_id-Keeps, read_clock-Keeps, commit-Keeps)
