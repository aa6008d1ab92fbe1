-- ===== src/History/Identity.antt =====
-- Identities in a history: `by_id` and `get` agree, and the life of each operation's identity.
use zhir.Prelude.{
  ℕ, zero, suc, ◌⊎◌, ◌≡◌, ◌↔◌, refl, sym, ap, ◌∙◌, String, Option, none, some, List, [], ◌∷◌, ◌++◌,
  arith, length, get_elem?, lookup, insert, lookup-insert, has_key, same, if◌then◌else◌,
  String-discrete, Option-cases, inl, inr, false,
}
use zhir.Error.{ok, ok-injective, >>=-eq-ok}
use zhir.Value.{Json}
use zhir.Operation.{CallRef}
use zhir.Message.{
  Message, Output, assistant, delegation_result, runtime_tool, delegation, runtime_tool_call,
}
use zhir.History.Entry.{HistoryEntry, Hashing}
use zhir.History.Order.{Order, update_item, update_items, update_message, append_order}
use zhir.History.Chain.{
  History, default_history, grow, append, append_one, entries, get, get_some, by_id, from_entries,
}
use zhir.History.Refine.{
  IsWellFormed, append_one_inv, entries-grow, length-entries, append-IsWellFormed, get-eq-get_elem?,
  from_entries-IsWellFormed, default_history-IsWellFormed,
}

module _ {V : Type 0} where
  ids-update_item :
      (o : Order V) (x : Option CallRef) (item : Output V) → (update_item o x item).0.ids ≡ o.ids
  unfolding update_item
  ids-update_item o none (delegation r) = refl
  ids-update_item o (some x) (delegation r) = ground arith
  ids-update_item o none (runtime_tool_call c) = refl
  ids-update_item o (some x) (runtime_tool_call c) = ground arith
  ids-update_item o x _ = refl

  ids-update_items :
      (o : Order V) (x : Option CallRef) (items : List (Output V))
      → (update_items o x items).0.ids ≡ o.ids
  unfolding update_items
  ids-update_items o x [] = refl
  ids-update_items o x (item ∷ items) =
      ground (arith, ids-update_item o x item, ids-update_items (update_item o x item).0 x items)

  ids-update_message :
      (o : Order V) (x : Option CallRef) (m : Message V) → (update_message o x m).0.ids ≡ o.ids
  unfolding update_message
  ids-update_message o x (assistant output d) = ids-update_items o x output
  ids-update_message o none (delegation_result id d) = refl
  ids-update_message o (some x) (delegation_result id d) = ground arith
  ids-update_message o none (runtime_tool c n d) = refl
  ids-update_message o (some x) (runtime_tool c n d) = ground arith
  ids-update_message o x _ = refl

  -- An entry that leaves no fault is new, and is filed under its identity.
  ids-append_order :
      (o : Order V) (e : HistoryEntry V) (index : ℕ)
      → (append_order o e index).error ≡ none
      → (o.error ≡ none)
        × (has_key String-discrete e.id o.ids ≡ false)
        × ((append_order o e index).ids ≡ insert String-discrete e.id index o.ids)
  unfolding append_order
  ids-append_order o e index h = ground (
    arith,
    ids-update_message (record o { ids = insert String-discrete e.id index o.ids }) e.origin
        e.message,
  )

  -- The index of an identity holds the entry with it, and every entry is found by its identity.
  pub record IsFiled (es : List (HistoryEntry V)) (o : Order V) : Type 0 where
    pub back :
        (id : String) (i : ℕ)
        → lookup String-discrete id o.ids ≡ some i
        → (e : HistoryEntry V) × (get_elem? es i ≡ some e) × (e.id ≡ id)
    pub there :
        (i : ℕ) (e : HistoryEntry V)
        → get_elem? es i ≡ some e
        → lookup String-discrete e.id o.ids ≡ some i

  last_elem :
      (es : List (HistoryEntry V)) (e : HistoryEntry V)
      → get_elem? (es ++ e ∷ []) (length es) ≡ some e
  last_elem [] e = refl
  last_elem (x ∷ es) e = last_elem es e

  elem-snoc :
      (es : List (HistoryEntry V)) (e x : HistoryEntry V) (i : ℕ)
      → get_elem? (es ++ e ∷ []) i ≡ some x
      → (get_elem? es i ≡ some x) ⊎ ((i ≡ length es) × (x ≡ e))
  elem-snoc [] e x zero h = inr (refl, ground arith)
  elem-snoc [] e x (suc i) h = absurd (ground arith)
  elem-snoc (y ∷ es) e x zero h = inl h
  elem-snoc (y ∷ es) e x (suc i) h = elim (elem-snoc es e x i h) [
    | inl old ↦ inl old
    | inr (at, same) ↦ inr (ap suc at, same)
  ]

  elem-append :
      (es : List (HistoryEntry V)) (e x : HistoryEntry V) (i : ℕ)
      → get_elem? es i ≡ some x
      → get_elem? (es ++ e ∷ []) i ≡ some x
  elem-append [] e x i h = absurd (ground arith)
  elem-append (y ∷ es) e x zero h = h
  elem-append (y ∷ es) e x (suc i) h = elem-append es e x i h

  lookup-append_order :
      (o : Order V) (e : HistoryEntry V) (index : ℕ) (id : String)
      → (append_order o e index).error ≡ none
      → lookup String-discrete id (append_order o e index).ids
        ≡ (if same String-discrete e.id id then some index else lookup String-discrete id o.ids)
  lookup-append_order o e index id fine =
      rw ((ids-append_order o e index fine).2) (lookup-insert String-discrete e.id id index o.ids)

  append_order-IsFiled :
      (es : List (HistoryEntry V)) (o : Order V) (e : HistoryEntry V)
      → (append_order o e (length es)).error ≡ none
      → IsFiled es o
      → IsFiled (es ++ e ∷ []) (append_order o e (length es))
  unfolding has_key
  append_order-IsFiled es o e fine f = record {
    back = λ id i found.
        let at = lookup-append_order o e (length es) id fine in
        elim (String-discrete e.id id) [
          | yes hit ↦
              let here : i ≡ length es = ground (arith, at) in (e, rw here (last_elem es e), hit)
          | no miss ↦
              let (x, old, named) = f.back id i (ground (arith, at)) in
              (x, elem-append es e x i old, named)
        ];
    there = λ i x found. elim (elem-snoc es e x i found) [
      | inl old ↦ ground (
        arith,
        f.there i x old,
        (ids-append_order o e (length es) fine).1,
        lookup-append_order o e (length es) x.id fine,
      )
      | inr (at, eq) ↦ ground (arith, lookup-append_order o e (length es) x.id fine)
    ];
  }

module _ {V : Type 0} ⦃j : Json V⦄ ⦃hashing : Hashing V⦄ where
  default-IsFiled : IsFiled (entries (default_history {V = V})) (default_history {V = V}).order
  unfolding entries lookup default_history
  default-IsFiled = record {
    back = λ id i h. absurd (ground arith);
    there = λ i e h. absurd (ground arith);
  }

  -- One more entry, in terms of the list and of the order.
  pub order-append_one :
      (h g : History V) (e : HistoryEntry V)
      → append_one h e ≡ ok g
      → IsWellFormed h
      → (entries g ≡ entries h ++ e ∷ []) × (g.order ≡ append_order h.order e (length (entries h)))
  unfolding grow
  order-append_one h g e done w =
      let (d, hashed, grown) = append_one_inv h g e done in
      (rw grown (entries-grow h e d), rw (grown, ← length-entries h w))

  error-append :
      (h g : History V) (es : List (HistoryEntry V))
      → append h es ≡ ok g
      → IsWellFormed h
      → g.order.error ≡ none
      → h.order.error ≡ none
  unfolding append
  error-append h g [] done w fine = rw (ok-injective done) fine
  error-append h g (e ∷ es) done w fine =
      let (f, one, rest) = >>=-eq-ok (append_one h e) (λ x. append x es) done in
      let w' = (append-IsWellFormed h f (e ∷ []) (rw one) w).0 in
      let (_, o) = order-append_one h f e one w in
      let f_fine = error-append f g es rest w' fine in
      (ids-append_order h.order e (length (entries h)) (ap (λ r. r.error) (sym o) ∙ f_fine)).0

  append-IsFiled :
      (h g : History V) (es : List (HistoryEntry V))
      → append h es ≡ ok g
      → IsWellFormed h
      → g.order.error ≡ none
      → IsFiled (entries h) h.order
      → IsFiled (entries g) g.order
  unfolding append
  append-IsFiled h g [] done w fine f = rw (← ok-injective done) f
  append-IsFiled h g (e ∷ es) done w fine f =
      let (m, one, rest) = >>=-eq-ok (append_one h e) (λ x. append x es) done in
      let w' = (append-IsWellFormed h m (e ∷ []) (rw one) w).0 in
      let (more, o) = order-append_one h m e one w in
      let m_fine = error-append m g es rest w' fine in
      append-IsFiled m g es rest w' fine (
        rw (more, o)
          (append_order-IsFiled (entries h) h.order e (ap (λ r. r.error) (sym o) ∙ m_fine) f))

  from_entries-IsFiled :
      (h : History V) (es : List (HistoryEntry V))
      → from_entries es ≡ ok h
      → h.order.error ≡ none
      → IsFiled (entries h) h.order
  unfolding from_entries
  from_entries-IsFiled h es done fine =
      append-IsFiled default_history h es done default_history-IsWellFormed fine default-IsFiled

  -- In a history built from entries without an order error, by_id finds an entry exactly when
  -- it stands in the history under that identity.
  pub by_id_exact :
      (h : History V) (es : List (HistoryEntry V)) (id : String) (e : HistoryEntry V)
      → from_entries es ≡ ok h
      → h.order.error ≡ none
      → (by_id h id ≡ some e) ↔ ((i : ℕ) × (get h i ≡ some e) × (e.id ≡ id))
  unfolding by_id
  by_id_exact h es id e done fine =
      let (w, listed) = from_entries-IsWellFormed h es done in
      let f = from_entries-IsFiled h es done fine in
      (
        λ found. elim (Option-cases (lookup String-discrete id h.order.ids)) [
          | inl missing ↦ absurd (ground arith)
          | inr (i, at) ↦
              let (x, elem, named) = f.back id i at in
              let here : get h i ≡ some e = rw (at, get_some) at found in
              (i, here, ground (arith, get-eq-get_elem? h i w))
        ],
        λ (i, at, named).
            let filed = f.there i e (sym (get-eq-get_elem? h i w) ∙ at) in rw (← named, filed) at,
      )
