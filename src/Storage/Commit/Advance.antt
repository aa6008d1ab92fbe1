-- ===== src/Storage/Commit/Advance.antt =====
-- What a commit that passes `validate_against` a stored core guarantees about the two.
use zhir.Prelude.{
  ℕ, zero, suc, ◌≤◌, ◌≡◌, ◌∙◌, String, false, not, ◌&&◌, ◌||◌, ◌==◌, Option, some, arith, or-false,
  not-same-false, not-==-false, same, lookup, String-discrete,
}
use zhir.Error.{Every-lookup, ok, >>-eq-ok, storage, refuse_if, refuse_if-eq-ok, >>=-eq-ok, ◌>>◌}
use zhir.Value.{Json}
use zhir.Run.Options.{validate_options}
use zhir.Run.{is_terminal, is_suspended}
use zhir.Run.Validation.{validate}
use zhir.History.Entry.{Hashing, Digest}
use zhir.Storage.Core.{CheckpointCore, core_of}
use zhir.History.Since.{Digest-discrete}
use zhir.Storage.Commit.{
  Commit, validate_against, check_operation, apply_delta, expected_revision, OptionNumber-discrete,
  OptionText-discrete, is_attached, checked_pred, changed_options, revision_of, id_of, other_run,
  against,
}
use zhir.Storage.Commit.Checks.{
  KeptAt, check_context_inv, check_monotonic_inv, check_previous_inv, keep,
}

module _ {V : Type 0} where
  pub record Advances (p next : CheckpointCore V) : Type 0 where
    pub revision : next.revision ≡ suc p.revision
    pub parent : next.parent_id ≡ some p.id
    pub run : p.context.run_id ≡ next.context.run_id
    pub started : p.context.started_at_ms ≡ next.context.started_at_ms
    pub deadline : p.context.deadline_at_ms ≡ next.context.deadline_at_ms
    pub parent_run : p.context.parent_run_id ≡ next.context.parent_run_id
    pub unfinished : is_terminal p.state ≡ false
    pub resumed : (is_suspended p.state && not (is_attached next.fact)) ≡ false
    pub session : next.active.session.id ≡ p.active.session.id
    pub context : p.active.session.context_revision ≤ next.active.session.context_revision
    pub acknowledged :
        p.active.session.acknowledged_context_revision
        ≤ next.active.session.acknowledged_context_revision
    pub input : p.active.session.input_position ≤ next.active.session.input_position
    pub generated :
        p.active.session.generated_input_position ≤ next.active.session.generated_input_position
    pub epoch : p.active.session.output_epoch ≤ next.active.session.output_epoch
    pub profile : p.active.session.profile_revision ≤ next.active.session.profile_revision
    pub requests : p.metrics.generation_requests ≤ next.metrics.generation_requests
    pub tool_calls : p.metrics.runtime_tool_calls ≤ next.metrics.runtime_tool_calls
    pub kept :
        (id : String)
        → KeptAt
            (lookup String-discrete id p.active.operations)
            (lookup String-discrete id next.active.operations)

revision_suc : (n m : ℕ) → some n ≡ checked_pred m → m ≡ suc n
revision_suc n zero h = absurd (ground arith)
revision_suc n (suc m) h = ground arith

module _ {V : Type 0} ⦃j : Json V⦄ ⦃hashing : Hashing V⦄ where
  -- The checks of `validate_against` that do not look into the stored core.
  pub validate_against_checks :
      (c : Commit V) (previous : Option (CheckpointCore V))
      → validate_against c previous ≡ ok tt
      → (revision_of previous ≡ expected_revision c)
        × (id_of previous ≡ c.checkpoint.parent_id)
        × (other_run previous (core_of c.checkpoint) ≡ false)
        × (against c.history previous (core_of c.checkpoint) ≡ ok tt)
        × (apply_delta c.history previous
            ≡ ok (c.checkpoint.history.len, c.checkpoint.history.digest))
        × (validate c.checkpoint ≡ ok tt)
  unfolding validate_against core_of
  validate_against_checks c previous h =
      let next = core_of c.checkpoint in
      let mismatch = (λ (t : ℕ × Digest).
        not (t.0 == c.checkpoint.history.len)
        || not (same Digest-discrete t.1 c.checkpoint.history.digest)) in
      let (_, h1) = >>-eq-ok (validate_options next.options) _ h in
      let (revision, h2) =
        >>-eq-ok
          (refuse_if (not (same OptionNumber-discrete (revision_of previous) (expected_revision c)))
            _)
          _ h1 in
      let (_, h3) = >>-eq-ok (refuse_if (changed_options previous next) _) _ h2 in
      let (parent, h4) =
        >>-eq-ok
          (refuse_if
            (not (same OptionText-discrete (id_of previous) next.parent_id)
              || other_run previous next)
            _)
          _ h3 in
      let (checked, h5) = >>-eq-ok (against c.history previous next) _ h4 in
      let (t, applied, h6) =
        >>=-eq-ok (apply_delta c.history previous)
          (λ t. refuse_if (mismatch t) (storage "history delta mismatch") >> validate c.checkpoint)
          h5 in
      let (equal, valid) = >>-eq-ok (refuse_if (mismatch t) _) _ h6 in
      let (other, same_run) = or-false _ _ (refuse_if-eq-ok _ _ parent) in
      let (count, bytes) = or-false _ _ (refuse_if-eq-ok _ _ equal) in
      let len : t.0 ≡ c.checkpoint.history.len = not-==-false _ _ count in
      let digest : t.1 ≡ c.checkpoint.history.digest = not-same-false Digest-discrete _ _ bytes in
      (
        not-same-false OptionNumber-discrete _ _ (refuse_if-eq-ok _ _ revision),
        not-same-false OptionText-discrete _ _ other,
        same_run,
        checked,
        applied ∙ (λ i. ok (len i, digest i)),
        valid,
      )

  -- A commit that passes against a stored core follows it: next revision, its parent, the
  -- same run and session, no terminal run continued and a suspended one only attached, no
  -- counter decreased, no operation changed in what is fixed or dropped unfinished.
  pub validate_against-Advances :
      (c : Commit V) (p : CheckpointCore V)
      → validate_against c (some p) ≡ ok tt
      → Advances p (core_of c.checkpoint)
  unfolding core_of expected_revision
  validate_against-Advances c p h =
      let (revision, parent, run, checked, _, _) = validate_against_checks c (some p) h in
      let (context, unfinished, resumed, monotonic, kept, commands) =
        check_previous_inv c.history p (core_of c.checkpoint) checked in
      let (started, deadline, parent_run) = check_context_inv p (core_of c.checkpoint) context in
      let m = check_monotonic_inv p (core_of c.checkpoint) monotonic in
      record {
        revision = revision_suc p.revision c.checkpoint.revision revision;
        parent = ground arith;
        run = ground arith;
        started = started;
        deadline = deadline;
        parent_run = parent_run;
        unfinished = unfinished;
        resumed = resumed;
        session = m.0;
        context = m.1;
        acknowledged = m.2;
        input = m.3;
        generated = m.4;
        epoch = m.5;
        profile = m.6;
        requests = m.7;
        tool_calls = m.8;
        kept = λ id.
            keep c.checkpoint.active.operations id (lookup String-discrete id p.active.operations)
              (λ old at.
                Every-lookup (λ o. check_operation c.checkpoint.active.operations o ≡ ok tt)
                  p.active.operations id old kept at);
      }
