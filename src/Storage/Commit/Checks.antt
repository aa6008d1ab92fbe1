-- ===== src/Storage/Commit/Checks.antt =====
-- The checks of `Commit::validate_against` between two cores, as propositions.
use zhir.Prelude.{
  ◌≤◌, ◌≡◌, refl, String, true, false, not, ◌&&◌, Option, none, some, Map, arith, not-same-false,
  same, lookup, String-discrete, Bool-cases, ◌⊎◌, inl, inr,
}
use zhir.Error.{ok, >>-eq-ok, refuse_if, refuse_if-eq-ok, for_each, Every, for_each-Every}
use zhir.Value.{Json}
use zhir.Operation.{OperationRecord-discrete, OperationRecord, terminal}
use zhir.Run.{is_terminal, is_suspended}
use zhir.Storage.Core.{CheckpointCore}
use zhir.Storage.Commit.{
  HistoryDelta, check_previous, check_context, check_monotonic, check_operation, check_command,
  check_kept, is_attached, cursor_lost,
}

module _ {V : Type 0} where
  -- What becomes of an operation in the next checkpoint.
  abbrev pub Kept : OperationRecord V → Option (OperationRecord V) → Type 0
  Kept old none = terminal old.state ≡ true
  Kept old (some current) =
      (old.origin ≡ current.origin)
      × (old.owner ≡ current.owner)
      × (old.call_entry ≡ current.call_entry)
      × ((terminal old.state ≡ false) ⊎ (old ≡ current))
      × (cursor_lost old.last_sequence current.last_sequence ≡ false)

  abbrev pub KeptAt : Option (OperationRecord V) → Option (OperationRecord V) → Type 0
  KeptAt none o = Unit {0}
  KeptAt (some old) o = Kept old o

  -- One checkpoint follows another of the same run.
  pub check_context_inv :
      (p next : CheckpointCore V)
      → check_context p next ≡ ok tt
      → (p.context.started_at_ms ≡ next.context.started_at_ms)
        × (p.context.deadline_at_ms ≡ next.context.deadline_at_ms)
        × (p.context.parent_run_id ≡ next.context.parent_run_id)
  unfolding check_context
  check_context_inv p next h =
      let t = refuse_if-eq-ok _ _ h in (ground arith, ground arith, ground arith)

  pub check_monotonic_inv :
      (p next : CheckpointCore V)
      → check_monotonic p next ≡ ok tt
      → (next.active.session.id ≡ p.active.session.id)
        × (p.active.session.context_revision ≤ next.active.session.context_revision)
        × (p.active.session.acknowledged_context_revision
            ≤ next.active.session.acknowledged_context_revision)
        × (p.active.session.input_position ≤ next.active.session.input_position)
        × (p.active.session.generated_input_position ≤ next.active.session.generated_input_position)
        × (p.active.session.output_epoch ≤ next.active.session.output_epoch)
        × (p.active.session.profile_revision ≤ next.active.session.profile_revision)
        × (p.metrics.generation_requests ≤ next.metrics.generation_requests)
        × (p.metrics.runtime_tool_calls ≤ next.metrics.runtime_tool_calls)
  unfolding check_monotonic
  check_monotonic_inv p next h = let t = refuse_if-eq-ok _ _ h in ground arith

module _ {V : Type 0} ⦃j : Json V⦄ where
  unchanged_if :
      (old c : OperationRecord V)
      → (terminal old.state && not (same OperationRecord-discrete old c)) ≡ false
      → (terminal old.state ≡ false) ⊎ (old ≡ c)
  unchanged_if old c h = elim (Bool-cases (terminal old.state)) [
    | inl t ↦ inr (not-same-false OperationRecord-discrete old c (ground arith))
    | inr f ↦ inl f
  ]

  check_kept_inv :
      (old : OperationRecord V) (current : Option (OperationRecord V))
      → check_kept old current ≡ ok tt
      → Kept old current
  check_kept_inv old none h = ground (arith, refuse_if-eq-ok _ _ h)
  check_kept_inv old (some c) h =
      (ground arith, ground arith, ground arith, unchanged_if old c (ground arith), ground arith)

  -- The checks that `validate_against` makes when a core is stored.
  pub check_previous_inv :
      (history : HistoryDelta V) (p next : CheckpointCore V)
      → check_previous history p next ≡ ok tt
      → (check_context p next ≡ ok tt)
        × (is_terminal p.state ≡ false)
        × ((is_suspended p.state && not (is_attached next.fact)) ≡ false)
        × (check_monotonic p next ≡ ok tt)
        × Every (λ o. check_operation next.active.operations o ≡ ok tt) p.active.operations
        × Every (λ k. check_command next.active.commands k ≡ ok tt) p.active.commands
  unfolding check_previous
  check_previous_inv history p next h =
      let c = check_context p next in
      let m = check_monotonic p next in
      let os = for_each (check_operation next.active.operations) p.active.operations in
      let cs = for_each (check_command next.active.commands) p.active.commands in
      let (context, h1) = >>-eq-ok c _ h in
      let (open_run, h2) = >>-eq-ok (refuse_if (is_terminal p.state) _) _ h1 in
      let (resumed, h3) =
        >>-eq-ok (refuse_if (is_suspended p.state && not (is_attached next.fact)) _) _ h2 in
      let (monotonic, h4) = >>-eq-ok m _ h3 in
      let (kept, h5) = >>-eq-ok os _ h4 in
      let (commands, _) = >>-eq-ok cs _ h5 in
      (
        context,
        refuse_if-eq-ok _ _ open_run,
        refuse_if-eq-ok _ _ resumed,
        monotonic,
        for_each-Every _ _ kept,
        for_each-Every _ _ commands,
      )

  check_operation_inv :
      (operations : Map String (OperationRecord V)) (id : String) (old : OperationRecord V)
      → check_operation operations (id, old) ≡ ok tt
      → Kept old (lookup String-discrete id operations)
  unfolding check_operation
  check_operation_inv operations id old h =
      check_kept_inv old (lookup String-discrete id operations) h

  pub keep :
      (operations : Map String (OperationRecord V)) (id : String) (o : Option (OperationRecord V))
      → ((old : OperationRecord V) → o ≡ some old → check_operation operations (id, old) ≡ ok tt)
      → KeptAt o (lookup String-discrete id operations)
  keep operations id none h = tt
  keep operations id (some old) h = check_operation_inv operations id old (h old refl)
