-- ===== src/Storage/Core.antt =====
-- `CheckpointCore` of crates/zhir-core/src/wire/mod.rs: a checkpoint without its history's entries.
use zhir.Prelude.{ℕ, String, ◌||◌, not, Option, none, some, List, ◌⊎◌, ◌==◌, same}
use zhir.Error.{Result, ok, storage, refuse_if, ◌>>=◌, ◌>>◌}
use zhir.Value.{Json}
use zhir.Run.Options.{RunOptions}
use zhir.Run.{Checkpoint, RunContext, State, ActiveState, Metrics, Fact}
use zhir.Run.Validation.{validate}
use zhir.History.Entry.{Hashing, Digest, encoded}
use zhir.History.Chain.{History}
use zhir.History.Since.{Digest-discrete}

pub record CheckpointCore (V : Type 0) : Type 0 where
  pub options : RunOptions V
  pub id : String
  pub parent_id : Option String
  pub revision : ℕ
  pub context : RunContext V
  pub state : State V
  pub active : ActiveState V
  pub metrics : Metrics
  pub fact : Fact
  pub history_count : ℕ
  pub history_digest : Digest

-- `serde_json::to_vec` of a core, and the hexadecimal text of a SHA-256 digest.
pub record CoreEncoding (V : Type 0) : Type 0 where
  pub core_to_vec : CheckpointCore V → List ℕ ⊎ String
  pub hex : Digest → String

module _ {V : Type 0} where
  -- `CheckpointCore::from`
  unfoldable pub core_of : Checkpoint V → CheckpointCore V
  core_of c = record {
    options = c.options;
    id = c.id;
    parent_id = c.parent_id;
    revision = c.revision;
    context = c.context;
    state = c.state;
    active = c.active;
    metrics = c.metrics;
    fact = c.fact;
    history_count = c.history.len;
    history_digest = c.history.digest;
  }

  abbrev pub head_core : Option (Checkpoint V) → Option (CheckpointCore V)
  head_core none = none
  head_core (some c) = some (core_of c)

  abbrev assemble : CheckpointCore V → History V → Checkpoint V
  assemble core history = record {
    options = core.options;
    id = core.id;
    parent_id = core.parent_id;
    revision = core.revision;
    context = core.context;
    history = history;
    state = core.state;
    active = core.active;
    metrics = core.metrics;
    fact = core.fact;
  }

module _ {V : Type 0} ⦃hashing : Hashing V⦄ ⦃coding : CoreEncoding V⦄ where
  -- `CheckpointCore::digest`
  unfoldable pub core_digest : CheckpointCore V → Result String
  core_digest core = do
    bytes ← encoded (coding.core_to_vec core)
    ok (coding.hex (hashing.sha256 bytes))

module _ {V : Type 0} ⦃j : Json V⦄ where
  -- `CheckpointCore::with_history`
  unfoldable pub with_history : CheckpointCore V → History V → Result (Checkpoint V)
  unfolding validate
  with_history core history = do
    refuse_if
        (not (core.history_count == history.len)
          || not (same Digest-discrete core.history_digest history.digest))
        (storage "history integrity mismatch")
    let c = assemble core history
    validate c
    ok c
