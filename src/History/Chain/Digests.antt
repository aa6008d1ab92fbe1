-- ===== src/History/Chain/Digests.antt =====
-- The digests that the nodes cache, against a fold over the flat list.
use mathlib.Core.List.{append-nil}
use zhir.Prelude.{
  ℕ, zero, suc, ◌≤◌, ◌≡◌, refl, sym, ap, ◌∙◌, some, List, [], ◌∷◌, ◌++◌, arith, length, take,
  get_elem?, Bool-cases, inl, inr, ltb,
}
use zhir.Error.{Result, ok, ◌>>=◌, >>=-eq-ok}
use zhir.History.Entry.{HistoryEntry, Hashing, Digest, append_digest, zero_digest}
use zhir.History.Chain.{Chain, nil, node, push}
use zhir.History.Chain.Flat.{flat}
use zhir.History.Since.{chain_digest, prefix_digest}

abbrev pub end_digest : Digest → List Digest → Digest
end_digest d [] = d
end_digest d (x ∷ xs) = end_digest x xs

module _ {V : Type 0} ⦃hashing : Hashing V⦄ where
  -- The digest of a list of entries behind a digest.
  unfoldable pub digest_from : Digest → List (HistoryEntry V) → Result Digest
  digest_from d [] = ok d
  digest_from d (e ∷ es) = do d' ← append_digest d e; digest_from d' es

  pub digest_from-append :
      (d : Digest) (xs ys : List (HistoryEntry V)) {d' : Digest}
      → digest_from d xs ≡ ok d'
      → digest_from d (xs ++ ys) ≡ digest_from d' ys
  unfolding digest_from
  digest_from-append d [] ys h = ground arith
  digest_from-append d (x ∷ xs) ys h =
      let (x', first, rest) = >>=-eq-ok (append_digest d x) (λ y. digest_from y xs) h in
      rw first (digest_from-append x' xs ys rest)

  -- The cached digest of each prefix of a chunk.
  abbrev pub HasPrefixes : Digest → List (HistoryEntry V) → List Digest → Type 0
  HasPrefixes d [] [] = Unit {0}
  HasPrefixes d (e ∷ es) (x ∷ xs) = (append_digest d e ≡ ok x) × HasPrefixes x es xs
  HasPrefixes d _ _ = ⊥

  abbrev pub HasDigests : Chain V → Type 0
  HasDigests nil = Unit {0}
  HasDigests (node previous messages digests _ digest) =
      HasPrefixes (chain_digest previous) messages digests
      × (digest ≡ end_digest (chain_digest previous) digests)
      × HasDigests previous

  digest_from-chunk :
      (d : Digest) (es : List (HistoryEntry V)) (xs : List Digest)
      → HasPrefixes d es xs
      → digest_from d es ≡ ok (end_digest d xs)
  unfolding digest_from
  digest_from-chunk d [] [] h = refl
  digest_from-chunk d [] (x ∷ xs) h = absurd h
  digest_from-chunk d (e ∷ es) [] h = absurd h
  digest_from-chunk d (e ∷ es) (x ∷ xs) h = rw (h.0) (digest_from-chunk x es xs h.1)

  pub digest_from-flat :
      (c : Chain V) → HasDigests c → digest_from zero_digest (flat c) ≡ ok (chain_digest c)
  unfolding digest_from
  digest_from-flat nil h = refl
  digest_from-flat (node p ms ds n x) h =
      digest_from-append zero_digest (flat p) ms (digest_from-flat p h.2)
      ∙ digest_from-chunk (chain_digest p) ms ds h.0
      ∙ ap ok (sym h.1)

  HasPrefixes-snoc :
      (d : Digest) (es : List (HistoryEntry V)) (xs : List Digest) (e : HistoryEntry V) (x : Digest)
      → HasPrefixes d es xs
      → append_digest (end_digest d xs) e ≡ ok x
      → HasPrefixes d (es ++ e ∷ []) (xs ++ x ∷ []) × (end_digest d (xs ++ x ∷ []) ≡ x)
  HasPrefixes-snoc d [] [] e x h a = ((a, tt), refl)
  HasPrefixes-snoc d [] (y ∷ ys) e x h a = absurd h
  HasPrefixes-snoc d (f ∷ fs) [] e x h a = absurd h
  HasPrefixes-snoc d (f ∷ fs) (y ∷ ys) e x h a =
      let (more, last) = HasPrefixes-snoc y fs ys e x h.1 a in ((h.0, more), last)

  pub push-HasDigests :
      (c : Chain V) (len : ℕ) (d : Digest) (e : HistoryEntry V)
      → append_digest (chain_digest c) e ≡ ok d
      → HasDigests c
      → HasDigests (push c len d e) × (chain_digest (push c len d e) ≡ d)
  unfolding push
  push-HasDigests nil len d e a h = (((a, tt), refl, tt), refl)
  push-HasDigests (node p ms ds n x) len d e a h = elim (Bool-cases (ltb (length ms) 64)) [
    | inl room ↦ rw room (
        let (more, last) = HasPrefixes-snoc (chain_digest p) ms ds e d h.0 (rw (← h.1) a) in
        ((more, sym last, h.2), refl))
    | inr full ↦ rw full (((a, tt), refl, h), refl)
  ]

  prefix-HasPrefixes :
      (d : Digest) (es : List (HistoryEntry V)) (xs : List Digest) (k : ℕ)
      → HasPrefixes d es xs
      → suc k ≤ length es
      → (x : Digest) × (get_elem? xs k ≡ some x) × (digest_from d (take (suc k) es) ≡ ok x)
  unfolding digest_from
  prefix-HasPrefixes d [] xs k h le = absurd (omega arith)
  prefix-HasPrefixes d (e ∷ es) [] k h le = absurd h
  prefix-HasPrefixes d (e ∷ es) (x ∷ xs) zero h le = (x, refl, rw (h.0))
  prefix-HasPrefixes d (e ∷ es) (x ∷ xs) (suc k) h le =
      let (y, found, folded) = prefix-HasPrefixes x es xs k h.1 (omega arith) in
      (y, found, rw (h.0) folded)

  -- The digest that the walk of `appended_since` finds is that of the flat prefix.
  pub prefix_digest_lem :
      (c : Chain V) (es : List (HistoryEntry V)) (xs : List Digest) (k : ℕ)
      → HasDigests c
      → HasPrefixes (chain_digest c) es xs
      → k ≤ length es
      → (d : Digest) × (prefix_digest c xs k ≡ some d)
        × (digest_from zero_digest (flat c ++ take k es) ≡ ok d)
  prefix_digest_lem c es xs zero hc h le =
      (chain_digest c, refl, rw append-nil (digest_from-flat c hc))
  prefix_digest_lem c es xs (suc k) hc h le =
      let (d, found, folded) = prefix-HasPrefixes (chain_digest c) es xs k h le in
      (
        d,
        found,
        digest_from-append zero_digest (flat c) (take (suc k) es) (digest_from-flat c hc) ∙ folded,
      )
