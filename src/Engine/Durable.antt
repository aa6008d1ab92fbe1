-- ===== src/Engine/Durable.antt =====
-- An engine over the in-memory store: its checkpoint is the durable head of its run.
use zhir.Prelude.{
  ℕ, suc, ◌≤◌, ◌<◌, ◌≡◌, ◌≢◌, refl, ap, ◌∙◌, arith, String, none, some, inl, inr, lookup,
  lookup-insert_same, lookup-insert_other, String-discrete,
}
use zhir.Value.{Json}
use zhir.History.Entry.{Hashing}
use zhir.Run.{Checkpoint, Fact}
use zhir.Storage.Core.{CoreEncoding}
use zhir.Storage.Commit.{HistoryDelta}
use zhir.Storage.Memory.{Store, Key, Key-discrete, load_head, store_commit}
use zhir.Storage.Memory
use zhir.Storage.Memory.Fresh.{commit-Decided}
use zhir.Engine.State.{Engine}
use zhir.Engine.Action.{RunStore, Environment, adjust, emit, new_id, read_clock}
use zhir.Engine.Commit.{commit}
use zhir.Engine.Commit.Outcome.{saved, submitted_commit, commit-eq, unwritten, written}
use zhir.Engine.Keeps.{Keeps, IsInvariant}

module _ {V : Type 0} ⦃j : Json V⦄ ⦃hashing : Hashing V⦄ ⦃coding : CoreEncoding V⦄ where
  -- `MemoryRunStore`, which always answers in time.
  instance abbrev pub MemoryStore : RunStore V (Store V)
  MemoryStore = record { write = λ s c now. let (r, s') = Memory.commit s c now in (some r, s') }

-- `uuid` does not draw an identity twice.
abbrev pub DrawsOnce : {V : Type 0} → Environment V → Type 0
DrawsOnce environment = (m n : ℕ) → environment.uuid m ≡ environment.uuid n → m ≡ n

other_key :
    {V : Type 0} (environment : Environment V) (once : DrawsOnce environment) (run other : String)
    (m n : ℕ)
    → m < n
    → let k : Key = (run, environment.uuid m) in k ≢ (other, environment.uuid n)
other_key environment once run other m n lt e = omega (arith, once m n (ap (λ k. k.1) e), lt)

module _ {V : Type 0} ⦃environment : Environment V⦄ where
  -- The head of the engine's run is its checkpoint, and the store has seen none of the identities that
  -- are still to be drawn.
  pub record IsDurable (e : Engine V (Store V)) : Type 0 where
    pub head : load_head e.store e.current.context.run_id ≡ some e.current
    pub unseen :
        (run_id : String) (n : ℕ)
        → e.drawn ≤ n
        → lookup Key-discrete (run_id, environment.uuid n) e.store.ids ≡ none

module _ {V : Type 0} ⦃j : Json V⦄ ⦃hashing : Hashing V⦄ ⦃coding : CoreEncoding V⦄
    ⦃environment : Environment V⦄ where
  unwritten-IsDurable : (e : Engine V (Store V)) → IsDurable e → IsDurable (unwritten e e.store)
  unwritten-IsDurable e h = record {
    head = h.head;
    unseen = λ run_id n le. h.unseen run_id n (omega (arith, le));
  }

  written-IsDurable :
      (once : DrawsOnce environment) (e : Engine V (Store V)) (next : Checkpoint V) (fact : Fact)
      (history : HistoryDelta V) (digest : String)
      → IsDurable e
      → let c = submitted_commit e next fact history in
        IsDurable (written e (store_commit e.store c digest) (saved e next fact))
  unfolding load_head store_commit
  written-IsDurable once e next fact history digest h = record {
    head =
        let run = next.context.run_id in
        lookup-insert_same String-discrete run run (saved e next fact) e.store.heads refl;
    unseen = λ run_id n le.
        let c = submitted_commit e next fact history in
        lookup-insert_other Key-discrete (Memory.key_of c) (run_id, environment.uuid n) digest
          e.store.ids
          (other_key environment once c.checkpoint.context.run_id run_id e.drawn n
            (omega (arith, le)))
        ∙ h.unseen run_id n (omega (arith, le));
  }

  commit-IsDurable :
      (once : DrawsOnce environment) (next : Checkpoint V) (fact : Fact) (history : HistoryDelta V)
      → Keeps IsDurable (commit next fact history)
  commit-IsDurable once next fact history = record {
    after = λ e h.
        let c = submitted_commit e next fact history in
        let now = environment.instant (suc e.readings) in
        rw (commit-eq next fact history e)
          (elim (commit-Decided e.store c now
            (h.unseen c.checkpoint.context.run_id e.drawn (omega arith))) [
              | inl (error, t) ↦ rw t (unwritten-IsDurable e h)
              | inr (digest, t) ↦ rw t (written-IsDurable once e next fact history digest h)
            ]);
  }

  pub durable : DrawsOnce environment → IsInvariant (IsDurable {V = V})
  unfolding adjust emit new_id read_clock
  durable once = record {
    adjusts = λ f. record { after = λ e h. record { head = h.head; unseen = h.unseen } };
    progresses = λ id value. record { after = λ e h. record { head = h.head; unseen = h.unseen } };
    streams = λ id delta. record { after = λ e h. record { head = h.head; unseen = h.unseen } };
    draws = record {
      after = λ e h. record {
        head = h.head;
        unseen = λ run_id n le. h.unseen run_id n (omega (arith, le));
      };
    };
    reads = record { after = λ e h. record { head = h.head; unseen = h.unseen } };
    commits = commit-IsDurable once;
  }
