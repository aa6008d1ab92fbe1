-- ===== src/Run/Completed.antt =====
-- What a valid checkpoint's operations say of its history, and what a completed run has left.
use zhir.Prelude.{
  ℕ, suc, ◌≡◌, refl, ap, String, String-discrete, Bool, true, false, Bool-cases, inl, inr, not,
  same→eq, some, List, [], ◌∷◌, Map, ltb, length, get_elem?, arith, is_some,
}
use zhir.Error.{
  Error, ok, refuse_if, for_each, >>-eq-ok, refuse_if-eq-ok, Every, Every-map, for_each-Every,
}
use zhir.Value.{Json}
use zhir.Operation.{
  OperationOwner, runtime_tool, provider, delegation, CallRef, CallRef-discrete, OperationRecord,
  terminal,
}
use zhir.Message.{RuntimeToolCall}
use zhir.Run.{Checkpoint, is_completed}
use zhir.Run.Operations.{
  any_operation, waits_for, is_delegation, is_tool, validate_operation, validate_operations,
}
use zhir.Run.Validation.{validate}
use zhir.Run.Consistency.{validate-Checked}

no_items {ℓ} : {A : Type ℓ} (xs : List A) → ltb 0 (length xs) ≡ false → xs ≡ []
no_items [] h = refl
no_items (x ∷ xs) h = absurd (ground arith)

refused-Every {ℓ} :
    {A : Type ℓ} (f : A → Bool) (e : Error) (xs : List A)
    → for_each (λ x. refuse_if (not (f x)) e) xs ≡ ok tt
    → Every (λ x. f x ≡ true) xs
refused-Every f e [] h = tt
refused-Every f e (x ∷ xs) h =
    let (first, rest) = >>-eq-ok (refuse_if (not (f x)) e) _ h in
    (ground (arith, refuse_if-eq-ok _ _ first), refused-Every f e xs rest)

is_tool-eq :
    (name : String) (owner : OperationOwner) → is_tool owner name ≡ true → owner ≡ runtime_tool name
is_tool-eq name (runtime_tool own) h = ap runtime_tool (same→eq String-discrete own name h)
is_tool-eq name (provider _) h = absurd (ground (arith, h))
is_tool-eq name delegation h = absurd (ground (arith, h))

is_delegation-eq : (owner : OperationOwner) → is_delegation owner ≡ true → owner ≡ delegation
is_delegation-eq delegation h = refl
is_delegation-eq (runtime_tool _) h = absurd (ground (arith, h))
is_delegation-eq (provider _) h = absurd (ground (arith, h))

module _ {V : Type 0} where
  -- An operation of an owner, for a call of an origin, that has not ended.
  pub record IsAwaited (operations : Map String (OperationRecord V)) (origin : CallRef)
      (owner : OperationOwner) : Type 0 where
    pub index : ℕ
    pub id : String
    pub operation : OperationRecord V
    pub at : get_elem? operations index ≡ some (id, operation)
    pub from : operation.origin ≡ origin
    pub owned : operation.owner ≡ owner
    pub unfinished : terminal operation.state ≡ false

  any-IsAwaited :
      (operations : Map String (OperationRecord V)) (origin : CallRef) (owner : OperationOwner)
      (test : OperationOwner → Bool)
      → ((o : OperationOwner) → test o ≡ true → o ≡ owner)
      → any_operation (waits_for origin test) operations ≡ true
      → IsAwaited operations origin owner
  any-IsAwaited [] origin owner test exact h = absurd (ground (arith, h))
  any-IsAwaited ((id, op) ∷ rest) origin owner test exact h =
      elim (Bool-cases (waits_for origin test op)) [
        | inl waits ↦ record {
          index = 0;
          id = id;
          operation = op;
          at = refl;
          from = same→eq CallRef-discrete op.origin origin (ground (arith, waits));
          owned = exact op.owner (ground (arith, waits));
          unfinished = ground (arith, waits);
        }
        | inr passed ↦
            let later = any-IsAwaited rest origin owner test exact (ground (arith, h, passed)) in
            record {
              index = suc later.index;
              id = later.id;
              operation = later.operation;
              at = later.at;
              from = later.from;
              owned = later.owned;
              unfinished = later.unfinished;
            }
      ]

  any-waits_for :
      (ops : Map String (OperationRecord V)) (origin : CallRef) (owned : OperationOwner → Bool)
      → any_operation (waits_for origin owned) ops ≡ true
      → any_operation (λ op. not (terminal op.state)) ops ≡ true
  any-waits_for [] origin owned h = h
  any-waits_for ((id, op) ∷ ops) origin owned h = ground (arith, any-waits_for ops origin owned)

  -- What the loops of `validate_operations` have tested.
  pub record HasOwners (c : Checkpoint V) : Type 0 where
    pub delegations :
        Every
          (λ origin. any_operation (waits_for origin is_delegation) c.active.operations ≡ true)
          c.history.order.delegations
    pub calls :
        Every
          (λ (p : CallRef × RuntimeToolCall V).
            any_operation (waits_for p.0 (λ o. is_tool o p.1.name)) c.active.operations ≡ true)
          c.history.order.calls
    pub operations : Every (λ o. validate_operation c.history o ≡ ok tt) c.active.operations

  validate_operations-HasOwners : (c : Checkpoint V) → validate_operations c ≡ ok tt → HasOwners c
  unfolding validate_operations
  validate_operations-HasOwners c h =
      let owned = (λ (origin : CallRef).
        any_operation (waits_for origin is_delegation) c.active.operations) in
      let called = (λ (p : CallRef × RuntimeToolCall V).
        any_operation (waits_for p.0 (λ o. is_tool o p.1.name)) c.active.operations) in
      let (first, h1) =
        >>-eq-ok (for_each (λ x. refuse_if (not (owned x)) _) c.history.order.delegations) _ h in
      let (second, third) =
        >>-eq-ok (for_each (λ x. refuse_if (not (called x)) _) c.history.order.calls) _ h1 in
      record {
        delegations = refused-Every owned _ c.history.order.delegations first;
        calls = refused-Every called _ c.history.order.calls second;
        operations = for_each-Every _ c.active.operations third;
      }

module _ {V : Type 0} ⦃j : Json V⦄ where
  pub validate-HasOwners : (c : Checkpoint V) → validate c ≡ ok tt → HasOwners c
  validate-HasOwners c h = validate_operations-HasOwners c (validate-Checked c h).operations

  -- In a valid checkpoint each pending call of the history has an operation that is not
  -- terminal, of its origin and of the tool that it calls, and each pending delegation one of
  -- its origin that is a delegation.
  pub validate-IsAwaited :
      (c : Checkpoint V)
      → validate c ≡ ok tt
      → Every
          (λ (p : CallRef × RuntimeToolCall V).
            IsAwaited c.active.operations p.0 (runtime_tool p.1.name))
          c.history.order.calls
        × Every
            (λ origin. IsAwaited c.active.operations origin delegation)
            c.history.order.delegations
  validate-IsAwaited c h =
      let owners = validate-HasOwners c h in
      (
        Every-map _ _
            (λ p waits.
              any-IsAwaited c.active.operations p.0 (runtime_tool p.1.name) _ (is_tool-eq p.1.name)
                waits)
            c.history.order.calls owners.calls,
        Every-map _ _
            (λ origin waits.
              any-IsAwaited c.active.operations origin delegation is_delegation is_delegation-eq
                waits)
            c.history.order.delegations owners.delegations,
      )

  none_waits :
      {A : Type 0} (ops : Map String (OperationRecord V)) (origin : A → CallRef)
      (owned : A → OperationOwner → Bool) (xs : List A)
      → any_operation (λ op. not (terminal op.state)) ops ≡ false
      → Every (λ x. any_operation (waits_for (origin x) (owned x)) ops ≡ true) xs
      → xs ≡ []
  none_waits ops origin owned [] done h = refl
  none_waits ops origin owned (x ∷ xs) done h =
      absurd (ground (arith, any-waits_for ops (origin x) (owned x) h.0))

  -- A valid checkpoint of a completed run has no work left: no pending command, no operation that
  -- is not terminal, no call or delegation without a result, and its session is closed.
  pub record IsSettled (c : Checkpoint V) : Type 0 where
    pub commands : c.active.commands ≡ []
    pub operations : any_operation (λ op. not (terminal op.state)) c.active.operations ≡ false
    pub calls : c.history.order.calls ≡ []
    pub delegations : c.history.order.delegations ≡ []
    pub closed : is_some c.active.session.closure ≡ true

  -- A valid checkpoint of a completed run has no pending command, no unfinished operation, no
  -- call or delegation without a result in its history, and a closed session.
  pub completed-IsSettled :
      (c : Checkpoint V) → validate c ≡ ok tt → is_completed c.state ≡ true → IsSettled c
  completed-IsSettled c h done =
      let checked = validate-Checked c h in
      let owners = validate-HasOwners c h in
      let over : any_operation (λ op. not (terminal op.state)) c.active.operations ≡ false =
        ground (arith, checked.unfinished) in
      record {
        commands = no_items c.active.commands (ground (arith, checked.session_work));
        operations = over;
        calls =
            none_waits c.active.operations (λ p. p.0) (λ p o. is_tool o p.1.name)
              c.history.order.calls over owners.calls;
        delegations =
            none_waits c.active.operations (λ origin. origin) (λ _. is_delegation)
              c.history.order.delegations over owners.delegations;
        closed = ground (arith, checked.session_work);
      }
