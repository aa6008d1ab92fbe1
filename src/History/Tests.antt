-- ===== src/History/Tests.antt =====
-- Runs of the history's operations, and the histories that its theorems are applied to.
use zhir.Prelude.{
  ℕ, ◌≢◌, ◌↔◌, lookup, contains, ◌≡◌, refl, none, some, [], ◌∷◌, ◌++◌, get_elem?, take,
}
use zhir.Error.{ok}
use zhir.Operation.{CallRef-discrete}
use zhir.Fixtures.{
  NumberJson, SizeHashing, call_ref, request, answer, conversation, asked, settled,
  asked-IsWellFormed, settled-IsWellFormed, settled-built, asked-built,
}
use zhir.History.Entry.{validate_entry, append_digest}
use zhir.History.Order.{append_order, default_order}
use zhir.History.Order.Ledger.{IsDisjointAt, status, Later, append_order-Sound}
use zhir.History.Chain.{append_one, append, from_entries, entries, get, by_id}
use zhir.History.Since.{appended_since}
use zhir.History.Since.Suffix.{appended_since_iff, appended_since-append, appended_since-ne-none}
use zhir.History.Refine.{
  IsWellFormed, append-IsWellFormed, from_entries-IsWellFormed, get-eq-get_elem?,
}
use zhir.History.Identity.{by_id_exact}
use zhir.History.Lives.{append-Later}

settled-appended : append asked (answer ∷ []) ≡ ok settled
unfolding from_entries asked append settled append_one validate_entry append_digest
settled-appended = refl

get_test : get settled 2 ≡ some answer
unfolding get settled append_one validate_entry append_digest
get_test = refl

by_id_test : by_id settled "m2" ≡ some request
unfolding by_id settled append_one validate_entry append_digest CallRef-discrete
by_id_test = refl

settled-order_test : settled.order.error ≡ none
unfolding settled append_one validate_entry append_digest CallRef-discrete
settled-order_test = refl

-- The witnesses.
append-IsWellFormed_example :
    IsWellFormed settled × (entries settled ≡ entries asked ++ answer ∷ [])
append-IsWellFormed_example =
    append-IsWellFormed asked settled (answer ∷ []) settled-appended asked-IsWellFormed

get-eq-get_elem?_example : get settled 2 ≡ get_elem? (entries settled) 2
get-eq-get_elem?_example = get-eq-get_elem? settled 2 settled-IsWellFormed

settled-prefix : take asked.len (entries settled) ≡ entries asked
unfolding entries asked settled append_one validate_entry append_digest
settled-prefix = refl

appended_since_iff_example :
    (appended_since settled asked ≡ some (ok (answer ∷ [])))
    ↔ (entries settled ≡ entries asked ++ answer ∷ [])
appended_since_iff_example =
    appended_since_iff settled asked (answer ∷ []) settled-IsWellFormed asked-IsWellFormed
      (λ _. settled-prefix)

appended_since-append_example : appended_since settled asked ≡ some (ok (answer ∷ []))
appended_since-append_example =
    appended_since-append asked settled (answer ∷ []) asked-IsWellFormed settled-appended

appended_since-ne-none_example : appended_since settled asked ≢ none
appended_since-ne-none_example = appended_since-ne-none settled asked settled-IsWellFormed

by_id_exact_example :
    (by_id settled "m2" ≡ some request)
    ↔ ((i : ℕ) × (get settled i ≡ some request) × (request.id ≡ "m2"))
by_id_exact_example =
    by_id_exact settled (conversation ++ answer ∷ []) "m2" request settled-built settled-order_test

IsDisjointAt-default_order : IsDisjointAt {V = ℕ} default_order call_ref
unfolding lookup contains
IsDisjointAt-default_order = refl

from_entries-IsWellFormed_example : IsWellFormed asked × (entries asked ≡ conversation)
from_entries-IsWellFormed_example = from_entries-IsWellFormed asked conversation asked-built

append_order-Sound_example :
    IsDisjointAt (append_order default_order request 0) call_ref
    × Later (status default_order call_ref) (status (append_order default_order request 0) call_ref)
append_order-Sound_example =
    append_order-Sound default_order request 0 call_ref IsDisjointAt-default_order

asked-disjoint : IsDisjointAt asked.order call_ref
unfolding asked append_one validate_entry append_digest CallRef-discrete
asked-disjoint = refl

append-Later_example :
    IsDisjointAt settled.order call_ref
    × Later (status asked.order call_ref) (status settled.order call_ref)
append-Later_example =
    append-Later asked settled (answer ∷ []) call_ref settled-appended asked-IsWellFormed
      asked-disjoint
