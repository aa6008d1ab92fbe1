-- ===== src/Storage/Memory/Reach.antt =====
-- The stores that commits and deletions reach from the empty one, in any order.
use zhir.Prelude.{
  ℕ, ◌≡◌, ◌≤◌, ◌<◌, ◌⊎◌, refl, ap, ◌∙◌, String, false, Option, none, some, arith, lookup,
  lookup-insert_same, lookup-insert_other, lookup-remove_same, lookup-remove_other, String-discrete,
  inl, inr,
}
use zhir.Error.{ok}
use zhir.Value.{Json}
use zhir.Run.{Checkpoint, is_terminal}
use zhir.Run.Validation.{validate}
use zhir.History.Entry.{Hashing}
use zhir.Storage.Core.{CoreEncoding, core_of}
use zhir.Storage.Commit.{Commit}
use zhir.Storage.Commit.Advance.{Advances}
use zhir.Storage.Memory.{Store, empty_store, commit, load_head, delete, store_commit}
use zhir.Storage.Memory.Safety.{Follows, commit-Written, commit-Follows}

module _ {V : Type 0} ⦃j : Json V⦄ ⦃hashing : Hashing V⦄ ⦃coding : CoreEncoding V⦄ where
  -- One call of the store.
  pub data Step (s : Store V) : Store V → Type 0 where
    committed : (c : Commit V) (now : ℕ) → Step s (commit s c now).1
    deleted : (run_id : String) → Step s (delete s run_id)

  pub data Reach (s : Store V) : Store V → Type 0 where
    here : Reach s s
    then : {t u : Store V} → Reach s t → Step t u → Reach s u

  -- A head is a valid checkpoint and stands under its own run.
  abbrev pub IsHead : String → Option (Checkpoint V) → Type 0
  IsHead run_id none = Unit {0}
  IsHead run_id (some c) = (c.context.run_id ≡ run_id) × (validate c ≡ ok tt)

  Follows-valid :
      (run_id : String) (o : Option (Checkpoint V)) (c : Checkpoint V)
      → Follows o (some c)
      → IsHead run_id o
      → validate c ≡ ok tt
  Follows-valid run_id _ c (Follows.kept _) h = h.1
  Follows-valid run_id _ c (Follows.started _ _ _ valid) h = valid
  Follows-valid run_id _ c (Follows.advanced _ _ _ valid) h = valid

  store_commit-IsHead :
      (s : Store V) (c : Commit V) (digest run_id : String)
      → IsHead run_id (load_head s run_id)
      → Follows (load_head s run_id) (load_head (store_commit s c digest) run_id)
      → IsHead run_id (load_head (store_commit s c digest) run_id)
  unfolding load_head store_commit
  store_commit-IsHead s c digest run_id h follows =
      let run = c.checkpoint.context.run_id in
      elim (String-discrete run run_id) [
        | yes e ↦
            let at = lookup-insert_same String-discrete run run_id c.checkpoint s.heads e in
            rw at (
              e,
              Follows-valid run_id (lookup String-discrete run_id s.heads) c.checkpoint
                  (rw (← at) follows) h,
            )
        | no ne ↦ rw (lookup-insert_other String-discrete run run_id c.checkpoint s.heads ne) h
      ]

  Step-IsHead :
      {s t : Store V}
      → Step s t
      → ((run_id : String) → IsHead run_id (load_head s run_id))
      → (run_id : String) → IsHead run_id (load_head t run_id)
  unfolding load_head delete
  Step-IsHead {s} (committed c now) h run_id = elim (commit-Written s c now) [
    | inl e ↦ rw e (h run_id)
    | inr (digest, checked, e) ↦ rw e (
        store_commit-IsHead s c digest run_id (h run_id)
          (rw (← ap (λ t. load_head t.1 run_id) e) (commit-Follows s c now run_id)))
  ]
  Step-IsHead {s} (deleted gone) h run_id = elim (String-discrete gone run_id) [
    | yes e ↦ rw (lookup-remove_same String-discrete gone run_id s.heads e) tt
    | no ne ↦ rw (lookup-remove_other String-discrete gone run_id s.heads ne) (h run_id)
  ]

  -- Whatever commits and deletions a new store has served, each head that it returns belongs
  -- to the run that was asked for and passes validate.
  pub reach-IsHead :
      {s : Store V} → Reach empty_store s → (run_id : String) → IsHead run_id (load_head s run_id)
  unfolding load_head lookup
  reach-IsHead here run_id = tt
  reach-IsHead (then r step) run_id = Step-IsHead step (reach-IsHead r) run_id

  -- The stores that commits alone reach.
  pub data Committed (s : Store V) : Store V → Type 0 where
    same_store : Committed s s
    after :
        {t : Store V} → Committed s t → (c : Commit V) (now : ℕ) → Committed s (commit t c now).1

module _ {V : Type 0} where
  -- A later head of the same run: the same checkpoint, or one of a higher revision, which no
  -- terminal checkpoint has after it.
  pub record IsLater (p c : Checkpoint V) : Type 0 where
    pub run : p.context.run_id ≡ c.context.run_id
    pub revision : (p ≡ c) ⊎ ((p.revision < c.revision) × (is_terminal p.state ≡ false))
    pub context : p.active.session.context_revision ≤ c.active.session.context_revision
    pub acknowledged :
        p.active.session.acknowledged_context_revision
        ≤ c.active.session.acknowledged_context_revision
    pub input : p.active.session.input_position ≤ c.active.session.input_position
    pub generated :
        p.active.session.generated_input_position ≤ c.active.session.generated_input_position
    pub epoch : p.active.session.output_epoch ≤ c.active.session.output_epoch
    pub profile : p.active.session.profile_revision ≤ c.active.session.profile_revision
    pub requests : p.metrics.generation_requests ≤ c.metrics.generation_requests
    pub tool_calls : p.metrics.runtime_tool_calls ≤ c.metrics.runtime_tool_calls

  IsLater-refl : (p : Checkpoint V) → IsLater p p
  IsLater-refl p = record {
    run = refl;
    revision = inl refl;
    context = omega arith;
    acknowledged = omega arith;
    input = omega arith;
    generated = omega arith;
    epoch = omega arith;
    profile = omega arith;
    requests = omega arith;
    tool_calls = omega arith;
  }

  rises :
      (p q c : Checkpoint V)
      → (p ≡ q) ⊎ ((p.revision < q.revision) × (is_terminal p.state ≡ false))
      → Advances (core_of q) (core_of c)
      → (p.revision < c.revision) × (is_terminal p.state ≡ false)
  unfolding core_of
  rises p q c (inl e) a = rw e (omega (arith, a.revision), a.unfinished)
  rises p q c (inr (lt, f)) a = (omega (arith, a.revision), f)

  Advances-IsLater :
      (p q c : Checkpoint V) → IsLater p q → Advances (core_of q) (core_of c) → IsLater p c
  unfolding core_of
  Advances-IsLater p q c l a = record {
    run = l.run ∙ a.run;
    revision = inr (rises p q c l.revision a);
    context = omega (arith, l.context, a.context);
    acknowledged = omega (arith, l.acknowledged, a.acknowledged);
    input = omega (arith, l.input, a.input);
    generated = omega (arith, l.generated, a.generated);
    epoch = omega (arith, l.epoch, a.epoch);
    profile = omega (arith, l.profile, a.profile);
    requests = omega (arith, l.requests, a.requests);
    tool_calls = omega (arith, l.tool_calls, a.tool_calls);
  }

  abbrev pub LaterHead : Checkpoint V → Option (Checkpoint V) → Type 0
  LaterHead p none = ⊥
  LaterHead p (some c) = IsLater p c

module _ {V : Type 0} ⦃j : Json V⦄ ⦃hashing : Hashing V⦄ ⦃coding : CoreEncoding V⦄ where
  Follows-LaterHead :
      (p : Checkpoint V) (q o : Option (Checkpoint V)) → LaterHead p q → Follows q o → LaterHead p o
  Follows-LaterHead p _ _ l (Follows.kept _) = l
  Follows-LaterHead p _ _ l (Follows.started _ _ _ _) = absurd l
  Follows-LaterHead p _ _ l (Follows.advanced q c a _) = Advances-IsLater p q c l a

  -- Along any sequence of commits, successful or not, the head that a run has is never lost;
  -- it is the same checkpoint or one of a higher revision, and a terminal head stays. None of
  -- its counters has decreased: the revisions of the context, of its acknowledgement and of
  -- the profile, the positions of the input and of the generated input, the output epoch, the
  -- generation requests and the tool calls.
  pub committed-LaterHead :
      {s t : Store V} (run_id : String) (p : Checkpoint V)
      → load_head s run_id ≡ some p
      → Committed s t
      → LaterHead p (load_head t run_id)
  committed-LaterHead run_id p at same_store = rw at (IsLater-refl p)
  committed-LaterHead run_id p at (after {t} r c now) =
      Follows-LaterHead p (load_head t run_id) (load_head (commit t c now).1 run_id)
        (committed-LaterHead run_id p at r) (commit-Follows t c now run_id)
