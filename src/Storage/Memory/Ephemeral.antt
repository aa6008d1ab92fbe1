-- ===== src/Storage/Memory/Ephemeral.antt =====
-- The store of a single run (`Ephemeral`) against the store of many (`MemoryRunStore`).
use zhir.Prelude.{
  ℕ, ◌≡◌, refl, sym, ap, ◌∙◌, String, Option, none, some, [], ◌∷◌, arith, lookup, retain, same_self,
  same-false, false, lookup-insert_same, lookup-insert_other, lookup-remove_same, String-discrete,
  insert, Map, same, not,
}
use zhir.Error.{Result, ok, err, ◌>>◌}
use zhir.Value.{Json}
use zhir.Run.{Checkpoint}
use zhir.History.Entry.{Hashing}
use zhir.Storage.Core.{CoreEncoding, core_of, head_core, core_digest}
use zhir.Storage.Commit.{Commit, check_deadline, validate_against}
use zhir.Storage.Memory.{
  Store, Memory, Key, Key-discrete, commit, load_head, delete, store_commit, check_new,
  commit_memory, load_memory, delete_memory, commit_with, commit_digested, after_new, memory_with,
  memory_digested, memory_after, of_run, cleared,
}

lookup-nil :
    (id : String) (ids : Map String String) → ids ≡ [] → none ≡ lookup String-discrete id ids
unfolding lookup
lookup-nil id ids e = rw e refl

pub insert-agree :
    (run_id cid id digest : String) (ids : Map Key String) (own_ids : Map String String)
    → lookup Key-discrete (run_id, id) ids ≡ lookup String-discrete id own_ids
    → lookup Key-discrete (run_id, id) (insert Key-discrete (run_id, cid) digest ids)
      ≡ lookup String-discrete id (insert String-discrete cid digest own_ids)
insert-agree run_id cid id digest ids own_ids h = elim (String-discrete cid id) [
  | yes e ↦
      lookup-insert_same Key-discrete (run_id, cid) (run_id, id) digest ids
        (ap (λ x. (run_id, x)) e)
      ∙ sym (lookup-insert_same String-discrete cid id digest own_ids e)
  | no ne ↦
      lookup-insert_other Key-discrete (run_id, cid) (run_id, id) digest ids
        (λ e. ne (ap (λ k. k.1) e))
      ∙ h
      ∙ sym (lookup-insert_other String-discrete cid id digest own_ids ne)
]

pub lookup-retain_run :
    (run_id id : String) (ids : Map Key String)
    → lookup Key-discrete (run_id, id) (retain (λ e. not (same String-discrete e.0.0 run_id)) ids)
      ≡ none
unfolding lookup
lookup-retain_run run_id id [] = refl
lookup-retain_run run_id id (((r, i), d) ∷ ids) =
    let rest = lookup-retain_run run_id id ids in
    elim (String-discrete r run_id) [
      | yes e ↦ ground arith
      | no ne ↦
          let other : same Key-discrete (r, i) (run_id, id) ≡ false =
            same-false Key-discrete (r, i) (run_id, id) (λ e. ne (ap (λ k. k.0) e)) in
          ground arith
    ]

module _ {V : Type 0} where
  abbrev pub IsOwn : String → Option (Checkpoint V) → Type 0
  IsOwn run_id none = Unit {0}
  IsOwn run_id (some c) = c.context.run_id ≡ run_id

  -- Without a head no checkpoint is known.
  abbrev pub IsBare : Option (Checkpoint V) → Map String String → Type 0
  IsBare none ids = ids ≡ []
  IsBare (some _) ids = Unit {0}

  -- The store of one run holds what the other holds of the run.
  pub record Simulates (run_id : String) (m : Memory V) (s : Store V) : Type 0 where
    pub head : load_head s run_id ≡ m.head
    pub own : IsOwn run_id m.head
    pub ids :
        (id : String) → lookup Key-discrete (run_id, id) s.ids ≡ lookup String-discrete id m.ids
    pub empty : IsBare m.head m.ids

  of_run-own : (run_id : String) (o : Option (Checkpoint V)) → IsOwn run_id o → of_run run_id o ≡ o
  of_run-own run_id none own = refl
  of_run-own run_id (some c) own = rw own (rw same_self refl)

  -- Two stores that agree about a run return the same head of it.
  pub load_memory-Simulates :
      (run_id : String) (m : Memory V) (s : Store V)
      → Simulates run_id m s
      → load_memory m run_id ≡ load_head s run_id
  unfolding load_memory
  load_memory-Simulates run_id m s sim = of_run-own run_id m.head sim.own ∙ sym sim.head

  bare : (o : Option (Checkpoint V)) (ids : Map String String) → o ≡ none → IsBare o ids → ids ≡ []
  bare none ids e h = h
  bare (some c) ids e h = absurd (ground arith)

  forget :
      (run_id : String) (m : Memory V) (s : Store V) (o : Option (Checkpoint V))
      → Simulates run_id m s
      → m.head ≡ o
      → Simulates run_id (cleared m o) (delete s run_id)
  unfolding load_head delete
  forget run_id m s none sim e = record {
    head = lookup-remove_same String-discrete run_id run_id s.heads refl ∙ sym e;
    own = sim.own;
    ids = λ id.
        lookup-retain_run run_id id s.ids ∙ lookup-nil id m.ids (bare m.head m.ids e sim.empty);
    empty = sim.empty;
  }
  forget run_id m s (some c) sim e = record {
    head = lookup-remove_same String-discrete run_id run_id s.heads refl;
    own = tt;
    ids = λ id. lookup-retain_run run_id id s.ids ∙ lookup-nil id [] refl;
    empty = refl;
  }

  -- Deleting a run keeps the two stores in agreement about it.
  pub delete_memory-Simulates :
      (run_id : String) (m : Memory V) (s : Store V)
      → Simulates run_id m s
      → Simulates run_id (delete_memory m run_id) (delete s run_id)
  unfolding delete_memory
  delete_memory-Simulates run_id m s sim =
      forget run_id m s (load_memory m run_id) sim
        (sym (load_memory-Simulates run_id m s sim ∙ sim.head))

module _ {V : Type 0} ⦃j : Json V⦄ ⦃hashing : Hashing V⦄ ⦃coding : CoreEncoding V⦄ where
  -- The two results of a commit, and the two stores behind it.
  abbrev pub Agrees : String → Result (Unit {0}) × Memory V → Result (Unit {0}) × Store V → Type 0
  Agrees run_id t u = (t.0 ≡ u.0) × Simulates run_id t.1 u.1

  written-Simulates :
      (m : Memory V) (s : Store V) (c : Commit V) (digest : String)
      → Simulates c.checkpoint.context.run_id m s
      → Agrees c.checkpoint.context.run_id
          (memory_after m c digest (ok tt))
          (after_new s c digest (ok tt))
  unfolding load_head store_commit
  written-Simulates m s c digest sim = (
    refl,
    record {
      head =
          let run = c.checkpoint.context.run_id in
          lookup-insert_same String-discrete run run c.checkpoint s.heads refl;
      own = refl;
      ids = λ id.
          insert-agree c.checkpoint.context.run_id c.checkpoint.id id digest s.ids m.ids
            (sim.ids id);
      empty = tt;
    },
  )

  after-Simulates :
      (m : Memory V) (s : Store V) (c : Commit V) (digest : String) (r : Result (Unit {0}))
      → Simulates c.checkpoint.context.run_id m s
      → Agrees c.checkpoint.context.run_id (memory_after m c digest r) (after_new s c digest r)
  after-Simulates m s c digest (ok _) sim = written-Simulates m s c digest sim
  after-Simulates m s c digest (err e) sim = (refl, sim)

  digested-Simulates :
      (m : Memory V) (s : Store V) (c : Commit V) (now : ℕ) (digest : String) (o : Option String)
      → Simulates c.checkpoint.context.run_id m s
      → Agrees c.checkpoint.context.run_id
          (memory_digested m c now digest o)
          (commit_digested s c now digest o)
  unfolding check_new load_head
  digested-Simulates m s c now digest none sim = rw (sim.head) (
      after-Simulates m s c digest (check_deadline c now >> validate_against c (head_core m.head))
        sim)
  digested-Simulates m s c now digest (some old) sim = (refl, sim)

  with-Simulates :
      (m : Memory V) (s : Store V) (c : Commit V) (now : ℕ) (r : Result String)
      → Simulates c.checkpoint.context.run_id m s
      → Agrees c.checkpoint.context.run_id (memory_with m c now r) (commit_with s c now r)
  with-Simulates m s c now (ok digest) sim =
      let id = c.checkpoint.id in
      rw (sim.ids id) (digested-Simulates m s c now digest (lookup String-discrete id m.ids) sim)
  with-Simulates m s c now (err e) sim = (refl, sim)

  -- On the commits of one run the store of a single run and the store of many return equal
  -- results and agree about the run afterwards.
  pub commit_memory-Simulates :
      (m : Memory V) (s : Store V) (c : Commit V) (now : ℕ)
      → Simulates c.checkpoint.context.run_id m s
      → Agrees c.checkpoint.context.run_id (commit_memory m c now) (commit s c now)
  unfolding commit_memory commit
  commit_memory-Simulates m s c now sim =
      with-Simulates m s c now (core_digest (core_of c.checkpoint)) sim
