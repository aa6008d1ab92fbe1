-- ===== src/History/Lives.antt =====
-- The life of each operation's identity over a whole history.
use zhir.Prelude.{◌≡◌, List, [], ◌∷◌, length}
use zhir.Error.{ok, ok-injective, >>=-eq-ok}
use zhir.Value.{Json}
use zhir.Operation.{CallRef}
use zhir.History.Entry.{HistoryEntry, Hashing}
use zhir.History.Order.Ledger.{
  status, Later, Later-refl, Later-trans, IsDisjointAt, append_order-Sound,
}
use zhir.History.Chain.{History, append, append_one, entries}
use zhir.History.Refine.{IsWellFormed, append-IsWellFormed}
use zhir.History.Identity.{order-append_one}

module _ {V : Type 0} ⦃j : Json V⦄ ⦃hashing : Hashing V⦄ where
  -- Over a successful append to a well-formed history the status of an origin that has at
  -- most one mark (called, delegated or completed) only moves forward, and it still has at
  -- most one.
  pub append-Later :
      (h g : History V) (es : List (HistoryEntry V)) (k : CallRef)
      → append h es ≡ ok g
      → IsWellFormed h
      → IsDisjointAt h.order k
      → IsDisjointAt g.order k × Later (status h.order k) (status g.order k)
  unfolding append
  append-Later h g [] k done w d = rw (← ok-injective done) (d, Later-refl (status h.order k))
  append-Later h g (e ∷ es) k done w d =
      let (m, one, rest) = >>=-eq-ok (append_one h e) (λ x. append x es) done in
      let w' = (append-IsWellFormed h m (e ∷ []) (rw one) w).0 in
      let (_, o) = order-append_one h m e one w in
      let (d', l) = append_order-Sound h.order e (length (entries h)) k d in
      let (d2, l2) = append-Later m g es k rest w' (rw o d') in
      (d2, Later-trans (status h.order k) (status m.order k) (status g.order k) (rw o l) l2)
