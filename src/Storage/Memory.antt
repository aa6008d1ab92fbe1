-- ===== src/Storage/Memory.antt =====
-- The stores that keep checkpoints in memory: `MemoryRunStore` of
-- crates/zhir-storage/src/memory.rs and `Ephemeral` of crates/zhir-kernel/src/defaults/store.rs.
-- A method holds the lock from its start to its end, so it is one step; the lock is not poisoned.
pub mod Safety
pub mod Reach
pub mod Fresh
pub mod Ephemeral
use zhir.Prelude.{
  ℕ, String, Option, none, some, List, [], ◌∷◌, Map, lookup, insert, remove, retain, not, same,
  if◌then◌else◌, String-discrete,
}
use zhir.Error.{Result, ok, err, storage, ◌>>=◌, ◌>>◌}
use zhir.Value.{Json}
use zhir.Run.{Checkpoint}
use zhir.History.Entry.{Hashing}
use zhir.Storage.Core.{CheckpointCore, CoreEncoding, core_of, head_core, core_digest}
use zhir.Storage.Commit.{Commit, check_deadline, validate_against}

-- A run and a checkpoint.
abbrev pub Key : Type 0
Key = String × String

unfoldable pub Key-discrete : Discrete Key
Key-discrete = hlevel String-discrete

-- `State` of `MemoryRunStore`
pub record Store (V : Type 0) : Type 0 where
  pub heads : Map String (Checkpoint V)
  pub ids : Map Key String

abbrev pub empty_store : {V : Type 0} → Store V
empty_store = record { heads = []; ids = [] }

-- `Memory` of `Ephemeral`
pub record Memory (V : Type 0) : Type 0 where
  pub head : Option (Checkpoint V)
  pub ids : Map String String

-- A write of the same checkpoint again: the digest decides.
unfoldable pub replay : String → String → Result (Unit {0})
replay old digest =
    if same String-discrete old digest then ok tt else err (storage "checkpoint id reused")

module _ {V : Type 0} where
  abbrev pub key_of : Commit V → Key
  key_of c = (c.checkpoint.context.run_id, c.checkpoint.id)

  -- `MemoryRunStore::load_head`
  unfoldable pub load_head : Store V → String → Option (Checkpoint V)
  unfolding lookup
  load_head s run_id = lookup String-discrete run_id s.heads

  -- `MemoryRunStore::delete`
  unfoldable pub delete : Store V → String → Store V
  unfolding remove
  delete s run_id = record {
    heads = remove String-discrete run_id s.heads;
    ids = retain (λ e. not (same String-discrete e.0.0 run_id)) s.ids;
  }

  -- The two writes of a commit that passed.
  unfoldable pub store_commit : Store V → Commit V → String → Store V
  unfolding insert
  store_commit s c digest = record {
    heads = insert String-discrete c.checkpoint.context.run_id c.checkpoint s.heads;
    ids = insert Key-discrete (key_of c) digest s.ids;
  }

module _ {V : Type 0} ⦃j : Json V⦄ ⦃hashing : Hashing V⦄ ⦃coding : CoreEncoding V⦄ where
  abbrev pub after_new :
      Store V → Commit V → String → Result (Unit {0}) → Result (Unit {0}) × Store V
  after_new s c digest (err e) = (err e, s)
  after_new s c digest (ok _) = (ok tt, store_commit s c digest)

  -- A checkpoint that was not written yet: its deadline and its validation come first.
  unfoldable pub check_new : Store V → Commit V → ℕ → Result (Unit {0})
  unfolding check_deadline validate_against load_head core_of
  check_new s c now = do
    check_deadline c now
    validate_against c (head_core (load_head s c.checkpoint.context.run_id))

  abbrev pub commit_digested :
      Store V → Commit V → ℕ → String → Option String → Result (Unit {0}) × Store V
  commit_digested s c now digest (some old) = (replay old digest, s)
  commit_digested s c now digest none = after_new s c digest (check_new s c now)

  abbrev pub commit_with : Store V → Commit V → ℕ → Result String → Result (Unit {0}) × Store V
  commit_with s c now (err e) = (err e, s)
  commit_with s c now (ok digest) =
      commit_digested s c now digest (lookup Key-discrete (key_of c) s.ids)

  -- `MemoryRunStore::commit`, at the instant `now`.
  unfoldable pub commit : Store V → Commit V → ℕ → Result (Unit {0}) × Store V
  unfolding core_digest core_of lookup replay check_new store_commit
  commit s c now = commit_with s c now (core_digest (core_of c.checkpoint))

  -- `Ephemeral::new`: the digest of a valid checkpoint does not fail (`expect`); `none` is a panic.
  abbrev opened : Checkpoint V → Result String → Option (Memory V)
  opened c (err e) = none
  opened c (ok digest) = some (record { head = some c; ids = (c.id, digest) ∷ [] })

  unfoldable pub new_memory : Option (Checkpoint V) → Option (Memory V)
  unfolding core_digest core_of
  new_memory none = some (record { head = none; ids = [] })
  new_memory (some c) = opened c (core_digest (core_of c))

  abbrev pub memory_after :
      Memory V → Commit V → String → Result (Unit {0}) → Result (Unit {0}) × Memory V
  memory_after m c digest (err e) = (err e, m)
  memory_after m c digest (ok _) = (
    ok tt,
    record { head = some c.checkpoint; ids = insert String-discrete c.checkpoint.id digest m.ids },
  )

  abbrev pub memory_digested :
      Memory V → Commit V → ℕ → String → Option String → Result (Unit {0}) × Memory V
  memory_digested m c now digest (some old) = (replay old digest, m)
  memory_digested m c now digest none =
      memory_after m c digest (do check_deadline c now; validate_against c (head_core m.head))

  abbrev pub memory_with : Memory V → Commit V → ℕ → Result String → Result (Unit {0}) × Memory V
  memory_with m c now (err e) = (err e, m)
  memory_with m c now (ok digest) =
      memory_digested m c now digest (lookup String-discrete c.checkpoint.id m.ids)

  -- `Ephemeral::commit`
  unfoldable pub commit_memory : Memory V → Commit V → ℕ → Result (Unit {0}) × Memory V
  unfolding core_digest core_of lookup insert replay check_deadline validate_against
  commit_memory m c now = memory_with m c now (core_digest (core_of c.checkpoint))

module _ {V : Type 0} where
  abbrev pub of_run : String → Option (Checkpoint V) → Option (Checkpoint V)
  of_run run_id none = none
  of_run run_id (some c) = if same String-discrete c.context.run_id run_id then some c else none

  -- `Ephemeral::load_head`
  unfoldable pub load_memory : Memory V → String → Option (Checkpoint V)
  load_memory m run_id = of_run run_id m.head

  abbrev pub cleared : Memory V → Option (Checkpoint V) → Memory V
  cleared m none = m
  cleared m (some _) = record { head = none; ids = [] }

  -- `Ephemeral::delete`
  unfoldable pub delete_memory : Memory V → String → Memory V
  unfolding load_memory
  delete_memory m run_id = cleared m (load_memory m run_id)
