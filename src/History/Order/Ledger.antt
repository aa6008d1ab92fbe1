-- ===== src/History/Order/Ledger.antt =====
-- The life of an operation's identity in a history: absent, then pending as a call or as a
-- delegation, then completed, and never back.
use zhir.Prelude.{
  ℕ, String, ◌≡◌, refl, ◌⊎◌, inl, inr, Bool, true, false, ◌&&◌, not, Option, none, some, List, [],
  ◌∷◌, lookup, lookup-insert, lookup-remove, contains, contains-add, contains-discard, is_some,
  arith, Bool-cases, Option-cases, has_key, insert, String-discrete,
}
use zhir.Operation.{CallRef, CallRef-discrete}
use zhir.Message.{
  Message, Output, RuntimeToolCall, delegation, runtime_tool_call, assistant, delegation_result,
  runtime_tool,
}
use zhir.History.Entry.{HistoryEntry}
use zhir.History.Order.{
  Order, update_item, update_items, settle_delegation, settle_call, update_message, update,
  append_order,
}

pub data Status (V : Type 0) : Type 0 where
  absent : Status V
  called : RuntimeToolCall V → Status V
  delegated : Status V
  completed : Status V

abbrev at_most_one : Bool → Bool → Bool → Bool
at_most_one true d c = not d && not c
at_most_one false d c = not (d && c)

module _ {V : Type 0} where
  abbrev status_of : Option (RuntimeToolCall V) → Bool → Bool → Status V
  status_of (some call) d c = called call
  status_of none true c = delegated
  status_of none false true = completed
  status_of none false false = absent

  -- What an order knows of an origin.
  abbrev pub status : Order V → CallRef → Status V
  status o k =
      status_of (lookup CallRef-discrete k o.calls) (contains CallRef-discrete k o.delegations)
        (contains CallRef-discrete k o.completed)

  -- A status that may follow: the same one, or one further on.
  abbrev pub Later : Status V → Status V → Type 0
  Later absent t = Unit {0}
  Later (called call) t = (t ≡ called call) ⊎ (t ≡ completed)
  Later delegated t = (t ≡ delegated) ⊎ (t ≡ completed)
  Later completed t = t ≡ completed

  pub Later-refl : (s : Status V) → Later s s
  Later-refl absent = tt
  Later-refl (called call) = inl refl
  Later-refl delegated = inl refl
  Later-refl completed = refl

  pub Later-trans : (s t u : Status V) → Later s t → Later t u → Later s u
  Later-trans absent t u p q = tt
  Later-trans (called c) (called b) u (inl p) q = ground (arith, q)
  Later-trans (called c) t u p q = ground arith
  Later-trans delegated t u p q = ground arith
  Later-trans completed t u p q = ground arith

  -- No origin has two of the three marks.
  abbrev pub IsDisjointAt : Order V → CallRef → Type 0
  IsDisjointAt o k =
      at_most_one (is_some (lookup CallRef-discrete k o.calls))
        (contains CallRef-discrete k o.delegations) (contains CallRef-discrete k o.completed)
      ≡ true

  -- One operation on the order is sound at an origin.
  abbrev Sound : Order V → Order V → CallRef → Type 0
  Sound o o' k = IsDisjointAt o' k × Later (status o k) (status o' k)

  update_item-Sound :
      (o : Order V) (origin : Option CallRef) (item : Output V) (k : CallRef)
      → IsDisjointAt o k
      → Sound o (update_item o origin item).0 k
  unfolding update_item
  update_item-Sound o none (delegation r) k h = (h, Later-refl (status o k))
  update_item-Sound o (some x) (delegation r) k h =
      let y = record x { call_id = r.id } in
      ground (arith, contains-add CallRef-discrete y k o.delegations)
  update_item-Sound o none (runtime_tool_call c) k h = (h, Later-refl (status o k))
  update_item-Sound o (some x) (runtime_tool_call c) k h =
      let y = record x { call_id = c.id } in
      ground (arith, lookup-insert CallRef-discrete y k c o.calls)
  update_item-Sound o x _ k h = (h, Later-refl (status o k))

  update_items-Sound :
      (o : Order V) (origin : Option CallRef) (items : List (Output V)) (k : CallRef)
      → IsDisjointAt o k
      → Sound o (update_items o origin items).0 k
  unfolding update_items
  update_items-Sound o origin [] k h = (h, Later-refl (status o k))
  update_items-Sound o origin (item ∷ items) k h =
      let (o', e) = update_item o origin item in
      let (h', l) = update_item-Sound o origin item k h in
      go o' e h' l (update_items-Sound o' origin items k h')
    where
      go :
          (o' : Order V) (e : Option String)
          → IsDisjointAt o' k
          → Later (status o k) (status o' k)
          → Sound o' (update_items o' origin items).0 k
          → Sound o
              (elim e as (λ _. Order V × Option String) [
                | some x ↦ (o', some x)
                | none ↦ update_items o' origin items
              ]).0
              k
      go o' (some x) h' l rest = (h', l)
      go o' none h' l rest = (rest.0, Later-trans _ _ _ l rest.1)

  settle_delegation-Sound :
      (o : Order V) (origin : Option CallRef) (id : String) (k : CallRef)
      → IsDisjointAt o k
      → Sound o (settle_delegation o origin id).0 k
  unfolding settle_delegation
  settle_delegation-Sound o none id k h = (h, Later-refl (status o k))
  settle_delegation-Sound o (some x) id k h = ground (
    arith,
    contains-discard CallRef-discrete x k o.delegations,
    contains-add CallRef-discrete x k o.completed,
  )

  settle_call-Sound :
      (o : Order V) (origin : Option CallRef) (call_id name : String) (k : CallRef)
      → IsDisjointAt o k
      → Sound o (settle_call o origin call_id name).0 k
  unfolding settle_call
  settle_call-Sound o none call_id name k h = (h, Later-refl (status o k))
  settle_call-Sound o (some x) call_id name k h = ground (
    arith,
    lookup-remove CallRef-discrete x k o.calls,
    contains-add CallRef-discrete x k o.completed,
  )

  update_message-Sound :
      (o : Order V) (origin : Option CallRef) (m : Message V) (k : CallRef)
      → IsDisjointAt o k
      → Sound o (update_message o origin m).0 k
  unfolding update_message
  update_message-Sound o origin (assistant output d) k h = update_items-Sound o origin output k h
  update_message-Sound o origin (delegation_result id d) k h =
      settle_delegation-Sound o origin id k h
  update_message-Sound o origin (runtime_tool call_id name d) k h =
      settle_call-Sound o origin call_id name k h
  update_message-Sound o origin _ k h = (h, Later-refl (status o k))

  update-Sound :
      (o : Order V) (e : HistoryEntry V) (index : ℕ) (k : CallRef)
      → IsDisjointAt o k
      → Sound o (update o e index).0 k
  unfolding update
  update-Sound o e index k h = elim (Bool-cases (has_key String-discrete e.id o.ids)) [
    | inl old ↦ rw (old, update) (h, Later-refl (status o k))
    | inr new ↦
        rw (new, update)
          (update_message-Sound (record o { ids = insert String-discrete e.id index o.ids })
            e.origin e.message k h)
  ]

  -- Recording an entry keeps the three marks of an origin disjoint, if they were, and moves
  -- its status only forward, whether or not the entry is refused.
  pub append_order-Sound :
      (o : Order V) (e : HistoryEntry V) (index : ℕ) (k : CallRef)
      → IsDisjointAt o k
      → IsDisjointAt (append_order o e index) k
        × Later (status o k) (status (append_order o e index) k)
  unfolding append_order
  append_order-Sound o e index k h = elim (Option-cases o.error) [
    | inl fine ↦ rw (fine, append_order) (update-Sound o e index k h)
    | inr (x, fault) ↦ rw (fault, append_order) (h, Later-refl (status o k))
  ]
