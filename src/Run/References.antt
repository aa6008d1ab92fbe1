-- ===== src/Run/References.antt =====
-- The references of a valid checkpoint's operations into its history, and its pending commands.
use mathlib.Core.Path.{subst}
use zhir.Prelude.{
  ℕ, ◌≡◌, ◌<◌, refl, sym, ap, ◌∙◌, String, Bool, true, false, not, ◌||◌, Option, none, some, leb,
  arith, same, is_some, String-discrete, or-false, not-same-false, same→eq, lookup, Option-cases,
  inl, inr,
}
use zhir.Error.{Every-lookup, ok, invalid, refuse_if, >>-eq-ok, >>=-eq-ok, refuse_if-eq-ok}
use zhir.Value.{Json}
use zhir.Operation.{
  differ, runtime_tool, CallRef, OperationOutcome, OperationRecord, OperationState-discrete,
  outcome_state, terminal, CallRef-discrete, validate_record,
}
use zhir.Message.{Message}
use zhir.History.Entry.{HistoryEntry}
use zhir.History.Chain.{History, get}
use zhir.Run.{Checkpoint}
use zhir.Run.Operations.{
  validate_operation, is_just, beyond, validate_owner, found_or, call_matches, result_matches,
  entry_at,
}
use zhir.Run.Validation.{validate}
use zhir.Run.Completed.{validate-HasOwners}

differ-false : (a b : Bool) → differ a b ≡ false → a ≡ b
differ-false a b h = ground arith

abbrev Within : Option ℕ → ℕ → Type 0
Within none n = Unit {0}
Within (some i) n = i < n

within : (o : Option ℕ) (n : ℕ) → beyond o n ≡ false → Within o n
within none n h = tt
within (some i) n h = ground arith

is_just-eq {ℓ} :
    {A : Type ℓ} (d : Discrete A) (o : Option A) (a : A) → not (is_just d o a) ≡ false → o ≡ some a
is_just-eq d none a h = absurd (ground arith)
is_just-eq d (some b) a h = ap some (not-same-false d b a h)

found_or-ok {ℓ} :
    {A : Type ℓ} (o : Option A) (m : String) {a : A} → found_or o m ≡ ok a → o ≡ some a
found_or-ok none m h = absurd (ground arith)
found_or-ok (some a) m h = cc

module _ {V : Type 0} where
  -- The operation stands under its identity; the entry of its call is in the history and was
  -- produced by the call that the operation names; so is the entry of its result, if it has one.
  pub record IsFiledUnder (h : History V) (id : String) (op : OperationRecord V) : Type 0 where
    pub identity : op.id ≡ id
    pub call : HistoryEntry V
    pub at : get h op.call_entry ≡ some call
    pub origin : call.origin ≡ some op.origin
    pub inside : op.call_entry < h.len
    pub result : Within op.result_entry h.len
    pub owner : validate_owner h call op op.owner ≡ ok tt

  -- The result of a tool's operation is an entry of the history: a message of the tool, produced by the
  -- call that the operation names, with an outcome of the operation's state.
  pub record HasToolResult (h : History V) (op : OperationRecord V) (name : String) : Type 0 where
    pub index : ℕ
    pub entry_id : String
    pub outcome : OperationOutcome V
    pub indexed : op.result_entry ≡ some index
    pub found :
        get h index
        ≡ some (record {
          id = entry_id;
          origin = some op.origin;
          message = Message.runtime_tool op.origin.call_id name outcome;
        })
    pub state : outcome_state outcome ≡ op.state

  matched_result :
      (h : History V) (op : OperationRecord V) (name : String) (i : ℕ) (entry_id : String)
      (origin : Option CallRef) (message : Message V)
      → let e : HistoryEntry V = record { id = entry_id; origin = origin; message = message } in
        op.result_entry ≡ some i
        → get h i ≡ some e
        → result_matches e op name ≡ true
        → HasToolResult h op name
  unfolding result_matches
  matched_result h op name i entry_id origin (Message.runtime_tool call_id told outcome) at found
        m =
      let from : origin ≡ some op.origin =
        is_just-eq CallRef-discrete origin op.origin (ground (arith, m)) in
      let named : name ≡ told = same→eq String-discrete name told (ground (arith, m)) in
      let called : call_id ≡ op.origin.call_id =
        same→eq String-discrete call_id op.origin.call_id (ground (arith, m)) in
      let stated : op.state ≡ outcome_state outcome =
        same→eq OperationState-discrete op.state (outcome_state outcome) (ground (arith, m)) in
      record {
        index = i;
        entry_id = entry_id;
        outcome = outcome;
        indexed = at;
        found = found ∙ λ k. some (record {
          id = entry_id;
          origin = from k;
          message = Message.runtime_tool (called k) (sym named k) outcome;
        });
        state = sym stated;
      }
  matched_result h op name i entry_id origin _ at found m = absurd (ground (arith, m))

  operation-IsFiledUnder :
      (h : History V) (id : String) (op : OperationRecord V)
      → validate_operation h (id, op) ≡ ok tt
      → IsFiledUnder h id op
  unfolding validate_operation
  operation-IsFiledUnder h id op done =
      let (_, h1) = >>-eq-ok (validate_record op) _ done in
      let (call, found, h2) = >>=-eq-ok (found_or (get h op.call_entry) _) _ h1 in
      let (origin, h3) =
        >>-eq-ok (refuse_if (not (is_just CallRef-discrete call.origin op.origin)) _) _ h2 in
      let (owner, h4) = >>-eq-ok (validate_owner h call op op.owner) _ h3 in
      let (named, result) =
        or-false (not (same String-discrete id op.id) || leb h.len op.call_entry)
          (beyond op.result_entry h.len) (refuse_if-eq-ok _ _ h4) in
      let (identity, inside) =
        or-false (not (same String-discrete id op.id)) (leb h.len op.call_entry) named in
      record {
        identity = sym (not-same-false String-discrete id op.id identity);
        call = call;
        at = found_or-ok (get h op.call_entry) _ found;
        origin = is_just-eq CallRef-discrete call.origin op.origin (refuse_if-eq-ok _ _ origin);
        inside = ground arith;
        result = within op.result_entry h.len result;
        owner = owner;
      }

  -- An operation has a result entry exactly if it is terminal.
  record_result :
      (op : OperationRecord V)
      → validate_record op ≡ ok tt
      → terminal op.state ≡ is_some op.result_entry
  unfolding validate_record
  record_result op h =
      let (_, h1) = >>-eq-ok (refuse_if _ (invalid "empty operation identity")) _ h in
      let (_, h2) =
        >>-eq-ok (refuse_if (differ (is_some op.last_sequence) (is_some op.last_update)) _) _ h1 in
      let (agree, _) =
        >>-eq-ok (refuse_if (differ (terminal op.state) (is_some op.result_entry)) _) _ h2 in
      differ-false _ _ (refuse_if-eq-ok _ _ agree)

  checked_record :
      (h : History V) (id : String) (op : OperationRecord V)
      → validate_operation h (id, op) ≡ ok tt
      → validate_record op ≡ ok tt
  unfolding validate_operation
  checked_record h id op done = (>>-eq-ok (validate_record op) _ done).0

  owned_result :
      (h : History V) (call : HistoryEntry V) (op : OperationRecord V) (name : String)
      → validate_owner h call op (runtime_tool name) ≡ ok tt
      → (call_matches call.message op name ≡ true)
        × (entry_at h op.result_entry (λ e. result_matches e op name) ≡ true)
  owned_result h call op name done =
      let (called, rest) =
        >>-eq-ok (refuse_if (not (call_matches call.message op name)) _) _ done in
      let a = refuse_if-eq-ok _ _ called in
      let b = refuse_if-eq-ok _ _ rest in (ground arith, ground arith)

  entry_inv :
      (h : History V) (o : Option ℕ) (test : HistoryEntry V → Bool)
      → is_some o ≡ true
      → entry_at h o test ≡ true
      → (i : ℕ) × (e : HistoryEntry V) × (o ≡ some i) × (get h i ≡ some e) × (test e ≡ true)
  entry_inv h none test some_o done = absurd (ground arith)
  entry_inv h (some i) test some_o done = elim (Option-cases (get h i)) [
    | inl none_at ↦ absurd (ground arith)
    | inr (e, at) ↦ (i, e, refl, at, ground arith)
  ]

module _ {V : Type 0} ⦃j : Json V⦄ where
  -- In a valid checkpoint an operation stands under its own identity, its call entry is in
  -- the history with its origin, and its result entry is within the history.
  pub validate-IsFiledUnder :
      (c : Checkpoint V) (id : String) (op : OperationRecord V)
      → validate c ≡ ok tt
      → lookup String-discrete id c.active.operations ≡ some op
      → IsFiledUnder c.history id op
  validate-IsFiledUnder c id op h at = operation-IsFiledUnder c.history id op (
      Every-lookup (λ o. validate_operation c.history o ≡ ok tt) c.active.operations id op
        (validate-HasOwners c h).operations at)

  -- In a valid checkpoint a terminal operation of a runtime tool has its result in the
  -- history, at the index that it names: a message of that tool, with the origin and the call
  -- of the operation and an outcome whose state is the one of the operation.
  pub tool-result :
      (c : Checkpoint V) (id name : String) (op : OperationRecord V)
      → validate c ≡ ok tt
      → lookup String-discrete id c.active.operations ≡ some op
      → op.owner ≡ runtime_tool name
      → terminal op.state ≡ true
      → HasToolResult c.history op name
  tool-result c id name op h at owner done =
      let filed = validate-IsFiledUnder c id op h at in
      let checked =
        Every-lookup (λ o. validate_operation c.history o ≡ ok tt) c.active.operations id op
          (validate-HasOwners c h).operations at in
      let agree = record_result op (checked_record c.history id op checked) in
      let owned =
        owned_result c.history filed.call op name
          (subst (λ o. validate_owner c.history filed.call op o ≡ ok tt) owner filed.owner) in
      let (i, e, indexed, found, matched) =
        entry_inv c.history op.result_entry (λ e. result_matches e op name) (sym agree ∙ done)
          owned.1 in
      matched_result c.history op name i e.id e.origin e.message indexed found matched
