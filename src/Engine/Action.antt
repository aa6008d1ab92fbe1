-- ===== src/Engine/Action.antt =====
-- The methods of the engine: they change it and return a result, and what was changed before an
-- error stays. The code that is not the engine's is an interface: a store behind its timeout, and the
-- values of other packages.
use zhir.Prelude.{
  ℕ, suc, ◌+◌, ◌%◌, ◌^◌, String, Bool, true, false, Option, none, some, List, ◌∷◌, leb,
}
use zhir.Error.{Error, Result, ok, err}
use zhir.Resource.{ResourceRef}
use zhir.Model.{NegotiatedProfile, CapabilitySet}
use zhir.Run.{Checkpoint}
use zhir.Message.{RuntimeToolCall}
use zhir.Request.{ModelRequest}
use zhir.Storage.Commit.{Commit}
use zhir.History.Entry.{HistoryEntry}
use zhir.Policies.Scheduling.{RuntimeToolSpec}
use zhir.Engine.State.{Engine, EventData, Volatile, Task}

-- `RunStore::commit` under `tokio::time::timeout`: no result is the end of the time, and the store may
-- or may not have written then.
pub record RunStore (V S : Type 0) : Type 0 where
  pub write : S → Commit V → ℕ → Option (Result (Unit {0})) × S

-- `ArchivedMedia` of crates/zhir-core/src/resource.rs
pub record ArchivedMedia (V : Type 0) : Type 0 where
  pub stream_key : String
  pub sealed : ResourceRef V
  pub complete : Bool
  pub previous : Option (ResourceRef V)

-- `HistoryRewrite`, what a reducer of the history answers.
pub record Rewrite (V : Type 0) : Type 0 where
  pub entries : List (HistoryEntry V)
  pub reason : String

-- What other packages and the host supply: the identities of `uuid`, the clock and the cancellation of
-- the run at each reading, JSON values and texts of `serde_json`, the texts of errors, the model with
-- its negotiation, and the store of resources.
pub record Environment (V : Type 0) : Type 0 where
  pub uuid : ℕ → String
  pub instant : ℕ → ℕ
  pub is_cancelled : ℕ → Bool
  -- `json!({"reason": reason})`
  pub reason_json : String → V
  -- `json!([...]).to_string()`
  pub array_text : List (Option String) → String
  -- a response's provider data with the member `completion` of its three names
  pub with_completion : V → Option String → Option String → Option String → V
  pub error_text : Error → String
  -- `{n}` of a number
  pub decimal : ℕ → String
  pub model_capabilities : CapabilitySet V
  pub negotiate : ModelRequest V → Result (NegotiatedProfile V)
  -- `write_node` of an archive node under a new identity, where the host has a store of resources
  pub write_archive : Option (String → ArchivedMedia V → Result (ResourceRef V))
  -- `read_node` of an archive node, and a bound of the length of an archive
  pub read_archive : ResourceRef V → Result (ArchivedMedia V)
  pub archive_bound : ℕ
  -- the specifications of the tools that were selected
  pub tool_specs : List (RuntimeToolSpec V)
  -- the catalog's binding of a call
  pub bind : RuntimeToolCall V → Result (Unit {0})
  -- whether the host handles delegations
  pub has_delegation : Bool
  -- the reducer of the history, whose interruption is one of its errors
  pub reduce : Option (Checkpoint V → Result (Option (Rewrite V)))

abbrev pub expired : Option ℕ → ℕ → Bool
expired none now = false
expired (some deadline) now = leb deadline now

abbrev pub Action : Type 0 → Type 0 → Type 0 → Type 0
Action V S A = Engine V S → Result A × Engine V S

-- `n += 1` of a u64.
abbrev pub next_u64 : ℕ → ℕ
next_u64 n = (n + 1) % 2 ^ 64

module _ {V S A : Type 0} where
  unfoldable pub pure : A → Action V S A
  pure a e = (ok a, e)

  unfoldable pub raise : Error → Action V S A
  raise error e = (err error, e)

  unfoldable pub lift : Result A → Action V S A
  lift r e = (r, e)

  unfoldable pub gets : (Engine V S → A) → Action V S A
  gets f e = (ok (f e), e)

  unfoldable pub or_raise : Option A → Error → Action V S A
  unfolding raise pure
  or_raise none error = raise error
  or_raise (some a) error = pure a

  -- The result as a value, for a caller that goes on after an error.
  unfoldable pub attempt : Action V S A → Action V S (Result A)
  attempt m e = let (r, e') = m e in (ok r, e')

module _ {V S A B : Type 0} where
  abbrev pub continue : Result A → (A → Action V S B) → Action V S B
  continue (ok a) next e = next a e
  continue (err error) next e = (err error, e)

  infixl 5 ◌>>=◌ ◌>>◌
  unfoldable pub ◌>>=◌ : Action V S A → (A → Action V S B) → Action V S B
  unfolding pure raise lift gets
  ◌>>=◌ m next e = let (r, e') = m e in continue r next e'

  abbrev pub ◌>>◌ : Action V S A → Action V S B → Action V S B
  m >> next = m >>= λ _. next

module _ {V S : Type 0} where
  abbrev pub done : Action V S (Unit {0})
  done = pure tt

  unfoldable pub raise_if : Bool → Error → Action V S (Unit {0})
  unfolding raise pure
  raise_if true error = raise error
  raise_if false error = done

  abbrev pub checkpoint : Action V S (Checkpoint V)
  checkpoint = gets (λ e. e.current)

  abbrev pub held : Action V S (Volatile V)
  held = gets (λ e. e.volatile)

  -- A change of what the engine holds beside its checkpoint.
  unfoldable pub adjust : (Volatile V → Volatile V) → Action V S (Unit {0})
  adjust f e = (ok tt, record e { volatile = f e.volatile })

  -- `tasks.spawn`
  abbrev pub spawn : Task V → Action V S (Unit {0})
  spawn task = adjust (λ v. record v { tasks = task ∷ v.tasks })

  -- `emitter.emit`
  unfoldable pub emit : EventData V → Action V S (Unit {0})
  emit event e = (ok tt, record e { events = event ∷ e.events })

module _ {V S : Type 0} ⦃environment : Environment V⦄ where
  -- `new_id`
  unfoldable pub new_id : Action V S String
  new_id e = (ok (environment.uuid e.drawn), record e { drawn = suc e.drawn })

  -- `Instant::now`, and the cancellation as it is then.
  unfoldable pub read_clock : Action V S (ℕ × Bool)
  read_clock e = (
    ok (environment.instant e.readings, environment.is_cancelled e.readings),
    record e { readings = suc e.readings },
  )

  -- `Engine::check`
  unfoldable pub check : Action V S (Unit {0})
  check = do
    deadline ← gets (λ e. e.deadline)
    reading ← read_clock
    raise_if (expired deadline reading.0) Error.deadline
    raise_if reading.1 Error.cancelled
