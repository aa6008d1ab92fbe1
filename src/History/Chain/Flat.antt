-- ===== src/History/Chain/Flat.antt =====
-- The chain of chunks stands for the flat list of its entries: reads, `push` and `entries`.
use mathlib.Core.List.{reverse, reverse-cons, append-nil, append_assoc}
use zhir.Prelude.{
  ℕ, ◌+◌, ◌≡◌, refl, sym, ap, ◌∙◌, List, [], ◌∷◌, ◌++◌, arith, length, get_elem?, length-append,
  get_elem?-append_left, get_elem?-append_right,
}
use zhir.History.Entry.{HistoryEntry, Digest}
use zhir.History.Chain.{Chain, nil, node, History, flatten, chunks, entries, get_from, push}

module _ {V : Type 0} where
  -- The entries, oldest first.
  abbrev pub flat : Chain V → List (HistoryEntry V)
  flat nil = []
  flat (node previous messages _ _ _) = flat previous ++ messages

  flatten-append :
      (xs bs : List (List (HistoryEntry V))) → flatten (xs ++ bs) ≡ flatten xs ++ flatten bs
  unfolding flatten
  flatten-append [] bs = refl
  flatten-append (a ∷ xs) bs = rw (flatten-append xs bs) (sym (append_assoc a _ _))

  flatten-singleton : (c : List (HistoryEntry V)) → flatten (c ∷ []) ≡ c
  unfolding flatten
  flatten-singleton c = append-nil c

  pub flatten-reverse_cons :
      (c : List (HistoryEntry V)) (cs : List (List (HistoryEntry V)))
      → flatten (reverse (c ∷ cs)) ≡ flatten (reverse cs) ++ c
  flatten-reverse_cons c cs =
      ap flatten (reverse-cons c cs)
      ∙ flatten-append (reverse cs) (c ∷ [])
      ∙ ap (◌++◌ (flatten (reverse cs))) (flatten-singleton c)

  pub flatten-chunks : (c : Chain V) → flatten (reverse (chunks c)) ≡ flat c
  unfolding chunks flatten
  flatten-chunks nil = refl
  flatten-chunks (node previous messages ds len d) =
      flatten-reverse_cons messages (chunks previous)
      ∙ ap (λ l. l ++ messages) (flatten-chunks previous)

  pub entries-eq-flat : (h : History V) → entries h ≡ flat h.head
  unfolding entries
  entries-eq-flat h = flatten-chunks h.head

  -- A node records the length of what it ends.
  abbrev pub HasLengths : Chain V → Type 0
  HasLengths nil = Unit {0}
  HasLengths (node previous messages _ len _) =
      (len ≡ length (flat previous) + length messages) × HasLengths previous

  pub get_from-eq-get_elem? :
      (c : Chain V) (i : ℕ) → HasLengths c → get_from c i ≡ get_elem? (flat c) i
  unfolding get_from
  get_from-eq-get_elem? nil i h = refl
  get_from-eq-get_elem? (node p ms ds len d) i h = ground (
    arith,
    get_from-eq-get_elem? p i h.1,
    get_elem?-append_left (flat p) ms i,
    get_elem?-append_right (flat p) ms i,
  )

  pub flat-push :
      (c : Chain V) (len : ℕ) (d : Digest) (e : HistoryEntry V)
      → flat (push c len d e) ≡ flat c ++ e ∷ []
  unfolding push
  flat-push nil len d e = refl
  flat-push (node p ms ds n x) len d e = ground (arith, append_assoc (flat p) ms (e ∷ []))

  pub push-HasLengths :
      (c : Chain V) (len : ℕ) (d : Digest) (e : HistoryEntry V)
      → len ≡ length (flat c)
      → HasLengths c
      → HasLengths (push c len d e)
  unfolding push
  push-HasLengths nil len d e h l = (ground arith, tt)
  push-HasLengths (node p ms ds n x) len d e h l =
      ground (arith, length-append (flat p) ms, length-append ms (e ∷ []))
