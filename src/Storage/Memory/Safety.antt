-- ===== src/Storage/Memory/Safety.antt =====
-- What the in-memory store guarantees about the head of a run.
use zhir.Prelude.{
  ℕ, zero, suc, ◌≡◌, ◌⊎◌, refl, sym, ap, String, true, Option, none, some, arith, lookup,
  lookup-insert_same, lookup-insert_other, String-discrete, same_self, inl, inr, true,
}
use zhir.Error.{Result, ok, err, >>-eq-ok}
use zhir.Value.{Json}
use zhir.Run.{Checkpoint, is_terminal}
use zhir.Run.Validation.{validate}
use zhir.History.Entry.{Hashing}
use zhir.Storage.Core.{CoreEncoding, core_of, head_core, core_digest}
use zhir.Storage.Commit.{Commit, check_deadline, validate_against, checked_pred, expected_revision}
use zhir.Storage.Commit.Advance.{Advances, validate_against-Advances, validate_against_checks}
use zhir.Storage.Memory.{
  Store, Key-discrete, commit, load_head, check_new, store_commit, replay, key_of, after_new,
  commit_digested, commit_with,
}

module _ {V : Type 0} ⦃j : Json V⦄ where
  -- How the head of a run may change by a commit.
  pub data Follows : Option (Checkpoint V) → Option (Checkpoint V) → Type 0 where
    kept : (head : Option (Checkpoint V)) → Follows head head
    started :
        (c : Checkpoint V)
        → c.revision ≡ 0
        → c.parent_id ≡ none
        → validate c ≡ ok tt
        → Follows none (some c)
    advanced :
        (p c : Checkpoint V)
        → Advances (core_of p) (core_of c)
        → validate c ≡ ok tt
        → Follows (some p) (some c)

  Follows-terminal :
      (head : Checkpoint V) (o : Option (Checkpoint V))
      → Follows (some head) o
      → is_terminal head.state ≡ true
      → o ≡ some head
  unfolding core_of
  Follows-terminal head _ (kept _) done = refl
  Follows-terminal head _ (advanced p c a v) done = absurd (ground (arith, a.unfinished))

pub replay_self : (digest : String) → replay digest digest ≡ ok tt
unfolding replay
replay_self digest = rw same_self refl

pub revision_zero : (n : ℕ) → none ≡ checked_pred n → n ≡ 0
revision_zero zero h = refl
revision_zero (suc n) h = absurd (ground arith)

module _ {V : Type 0} ⦃j : Json V⦄ ⦃hashing : Hashing V⦄ where
  -- A commit that passes against the head of its run.
  pub validate_against-Follows :
      (c : Commit V) (head : Option (Checkpoint V))
      → validate_against c (head_core head) ≡ ok tt
      → Follows head (some c.checkpoint)
  unfolding expected_revision
  validate_against-Follows c none h =
      let (revision, parent, _, _, _, valid) = validate_against_checks c none h in
      started c.checkpoint (revision_zero c.checkpoint.revision revision) (sym parent) valid
  validate_against-Follows c (some p) h =
      let (_, _, _, _, _, valid) = validate_against_checks c (some (core_of p)) h in
      advanced p c.checkpoint (validate_against-Advances c (core_of p) h) valid

module _ {V : Type 0} ⦃j : Json V⦄ ⦃hashing : Hashing V⦄ ⦃coding : CoreEncoding V⦄ where
  -- A store and its change: as it was, or written after the checks have passed.
  abbrev Written : Store V → Commit V → ℕ → Result (Unit {0}) × Store V → Type 0
  Written s c now t =
      (t.1 ≡ s)
      ⊎ ((digest : String) × (check_new s c now ≡ ok tt) × (t ≡ (ok tt, store_commit s c digest)))

  after_new-Written :
      (s : Store V) (c : Commit V) (now : ℕ) (digest : String) (r : Result (Unit {0}))
      → check_new s c now ≡ r
      → Written s c now (after_new s c digest r)
  after_new-Written s c now digest (ok _) h = inr (digest, h, refl)
  after_new-Written s c now digest (err e) h = inl refl

  commit_digested-Written :
      (s : Store V) (c : Commit V) (now : ℕ) (digest : String) (o : Option String)
      → Written s c now (commit_digested s c now digest o)
  commit_digested-Written s c now digest none =
      after_new-Written s c now digest (check_new s c now) refl
  commit_digested-Written s c now digest (some old) = inl refl

  commit_with-Written :
      (s : Store V) (c : Commit V) (now : ℕ) (r : Result String)
      → Written s c now (commit_with s c now r)
  commit_with-Written s c now (ok digest) =
      commit_digested-Written s c now digest (lookup Key-discrete (key_of c) s.ids)
  commit_with-Written s c now (err e) = inl refl

  -- A commit either leaves the store as it is, or passes its checks and writes.
  pub commit-Written : (s : Store V) (c : Commit V) (now : ℕ) → Written s c now (commit s c now)
  unfolding commit
  commit-Written s c now = commit_with-Written s c now (core_digest (core_of c.checkpoint))

  -- What a commit that wrote has done to each head.
  store_commit-Follows :
      (s : Store V) (c : Commit V) (now : ℕ) (digest run_id : String)
      → check_new s c now ≡ ok tt
      → Follows (load_head s run_id) (load_head (store_commit s c digest) run_id)
  unfolding check_new load_head store_commit
  store_commit-Follows s c now digest run_id h =
      let run = c.checkpoint.context.run_id in
      let head = lookup String-discrete run s.heads in
      let (_, valid) = >>-eq-ok (check_deadline c now) (validate_against c (head_core head)) h in
      elim (String-discrete c.checkpoint.context.run_id run_id) [
        | yes e ↦ rw (← e) (
            rw (lookup-insert_same String-discrete run run c.checkpoint s.heads refl)
              (validate_against-Follows c head valid))
        | no ne ↦
            rw (lookup-insert_other String-discrete run run_id c.checkpoint s.heads ne)
              (Follows.kept _)
      ]

  -- Whatever the commit, its result and the instant, the head of every run stays or is
  -- followed by a checkpoint that passes validate and advances it (revision by one, parent,
  -- run, session, monotone counters, kept operations); a first head has revision 0 and no
  -- parent.
  pub commit-Follows :
      (s : Store V) (c : Commit V) (now : ℕ) (run_id : String)
      → Follows (load_head s run_id) (load_head (commit s c now).1 run_id)
  commit-Follows s c now run_id = elim (commit-Written s c now) [
    | inl e ↦ rw e (Follows.kept _)
    | inr (digest, checked, e) ↦ rw e (store_commit-Follows s c now digest run_id checked)
  ]

  after_new-repeat :
      (s s' : Store V) (c : Commit V) (later : ℕ) (digest : String) (r : Result (Unit {0}))
      → after_new s c digest r ≡ (ok tt, s')
      → commit_with s' c later (ok digest) ≡ (ok tt, s')
  unfolding store_commit
  after_new-repeat s s' c later digest (err e) h = absurd (ground (arith, ap (λ t. t.0) h))
  after_new-repeat s s' c later digest (ok _) h =
      let written : store_commit s c digest ≡ s' = ap (λ t. t.1) h in
      rw (← written) (
        rw (lookup-insert_same Key-discrete (key_of c) (key_of c) digest s.ids refl)
          (rw replay_self refl))

  commit_digested-repeat :
      (s s' : Store V) (c : Commit V) (now later : ℕ) (digest : String) (o : Option String)
      → lookup Key-discrete (key_of c) s.ids ≡ o
      → commit_digested s c now digest o ≡ (ok tt, s')
      → commit_with s' c later (ok digest) ≡ (ok tt, s')
  commit_digested-repeat s s' c now later digest none at h =
      after_new-repeat s s' c later digest (check_new s c now) h
  commit_digested-repeat s s' c now later digest (some old) at h =
      rw (← ap (λ t. t.1) h) (rw at (ap (λ r. (r, s)) (ap (λ t. t.0) h)))

  commit_with-repeat :
      (s s' : Store V) (c : Commit V) (now later : ℕ) (r : Result String)
      → commit_with s c now r ≡ (ok tt, s')
      → commit_with s' c later r ≡ (ok tt, s')
  commit_with-repeat s s' c now later (ok digest) h =
      commit_digested-repeat s s' c now later digest (lookup Key-discrete (key_of c) s.ids) refl h
  commit_with-repeat s s' c now later (err e) h = absurd (ground (arith, ap (λ t. t.0) h))

  -- A commit that succeeded returns the same result when it is repeated at any later instant,
  -- and leaves the store as it is.
  pub commit-repeat :
      (s s' : Store V) (c : Commit V) (now later : ℕ)
      → commit s c now ≡ (ok tt, s')
      → commit s' c later ≡ (ok tt, s')
  unfolding commit
  commit-repeat s s' c now later h =
      commit_with-repeat s s' c now later (core_digest (core_of c.checkpoint)) h

  -- No commit, successful or not, changes a terminal head.
  pub commit-terminal :
      (s : Store V) (c : Commit V) (now : ℕ) (run_id : String) (head : Checkpoint V)
      → load_head s run_id ≡ some head
      → is_terminal head.state ≡ true
      → load_head (commit s c now).1 run_id ≡ some head
  commit-terminal s c now run_id head at done =
      Follows-terminal head _ (rw (← at) (commit-Follows s c now run_id)) done
