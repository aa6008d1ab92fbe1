-- ===== src/History/Refine.antt =====
-- A history stands for the list of its entries: every operation is that of the list.
use mathlib.Core.List.{append-nil, append_assoc}
use zhir.Prelude.{
  ℕ, ◌≡◌, refl, sym, ap, ◌∙◌, List, [], ◌∷◌, ◌++◌, arith, length, get_elem?, length-append,
}
use zhir.Error.{ok, ok-injective, >>=-eq-ok}
use zhir.Value.{Json}
use zhir.History.Entry.{HistoryEntry, Hashing, Digest, append_digest, zero_digest, validate_entry}
use zhir.History.Since.{chain_digest}
use zhir.History.Chain.{
  History, default_history, grow, append_one, append, from_entries, entries, get,
}
use zhir.History.Chain.Flat.{
  flat, entries-eq-flat, HasLengths, get_from-eq-get_elem?, flat-push, push-HasLengths,
}
use zhir.History.Chain.Chunks.{HasChunks, push-HasChunks}
use zhir.History.Chain.Digests.{digest_from, digest_from-flat, HasDigests, push-HasDigests}

module _ {V : Type 0} ⦃hashing : Hashing V⦄ where
  -- What `append` keeps: the cached lengths, the sizes of the chunks and the cached digests.
  pub record IsWellFormed (h : History V) : Type 0 where
    pub lengths : HasLengths h.head
    pub chunked : HasChunks h.head
    pub digests : HasDigests h.head
    pub counted : h.len ≡ length (flat h.head)
    pub hashed : h.digest ≡ chain_digest h.head

  pub default_history-IsWellFormed : IsWellFormed default_history
  unfolding default_history
  default_history-IsWellFormed = record {
    lengths = tt;
    chunked = tt;
    digests = tt;
    counted = refl;
    hashed = refl;
  }

  pub length-entries : (h : History V) → IsWellFormed h → h.len ≡ length (entries h)
  length-entries h w = w.counted ∙ ap length (sym (entries-eq-flat h))

  -- In a well-formed history, reading an index by walking back over the chunks is reading the
  -- flat list of the entries, out of range included.
  pub get-eq-get_elem? :
      (h : History V) (i : ℕ) → IsWellFormed h → get h i ≡ get_elem? (entries h) i
  unfolding get
  get-eq-get_elem? h i w = rw entries-eq-flat (get_from-eq-get_elem? h.head i w.lengths)

  -- The cached digest of a well-formed history is the fold of append_digest over its entries.
  pub digest-eq-fold :
      (h : History V) → IsWellFormed h → digest_from zero_digest (entries h) ≡ ok h.digest
  digest-eq-fold h w = rw (entries-eq-flat, w.hashed) (digest_from-flat h.head w.digests)

  grow-IsWellFormed :
      (h : History V) (e : HistoryEntry V) (d : Digest)
      → append_digest h.digest e ≡ ok d
      → IsWellFormed h
      → IsWellFormed (grow h e d)
  unfolding grow
  grow-IsWellFormed h e d a w =
      let (more, end) = push-HasDigests h.head h.len d e (rw (← w.hashed) a) w.digests in
      record {
        lengths = push-HasLengths h.head h.len d e w.counted w.lengths;
        chunked = push-HasChunks h.head h.len d e w.chunked;
        digests = more;
        counted = omega (
          arith,
          w.counted,
          ap length (flat-push h.head h.len d e),
          length-append (flat h.head) (e ∷ []),
        );
        hashed = sym end;
      }

  pub entries-grow :
      (h : History V) (e : HistoryEntry V) (d : Digest) → entries (grow h e d) ≡ entries h ++ e ∷ []
  unfolding grow
  entries-grow h e d = rw (entries-eq-flat, entries-eq-flat) (flat-push h.head h.len d e)

module _ {V : Type 0} ⦃j : Json V⦄ ⦃hashing : Hashing V⦄ where
  -- A successful step of `append` is `grow`, at a digest that was computed.
  pub append_one_inv :
      (h h' : History V) (e : HistoryEntry V)
      → append_one h e ≡ ok h'
      → (d : Digest) × (append_digest h.digest e ≡ ok d) × (h' ≡ grow h e d)
  unfolding append_one
  append_one_inv h h' e done =
      let (_, valid, rest) = >>=-eq-ok (validate_entry e) _ done in
      let (d, hashed, same) = >>=-eq-ok (append_digest h.digest e) (λ x. ok (grow h e x)) rest in
      (d, hashed, sym (ok-injective same))

  -- A successful append to a well-formed history keeps the cached lengths, chunk sizes and
  -- digests right, and the result stands for the concatenation of the entries.
  pub append-IsWellFormed :
      (h h' : History V) (es : List (HistoryEntry V))
      → append h es ≡ ok h'
      → IsWellFormed h
      → IsWellFormed h' × (entries h' ≡ entries h ++ es)
  unfolding append
  append-IsWellFormed h h' [] done w = rw (← ok-injective done, append-nil) (w, refl)
  append-IsWellFormed h h' (e ∷ es) done w =
      let (g, one, rest) = >>=-eq-ok (append_one h e) (λ x. append x es) done in
      let (d, hashed, grown) = append_one_inv h g e one in
      let (w', more) =
        append-IsWellFormed g h' es rest (rw grown (grow-IsWellFormed h e d hashed w)) in
      (w', more ∙ rw (grown, entries-grow) (append_assoc (entries h) (e ∷ []) es))

  -- A history that from_entries returns is well formed and its entries are those it was
  -- given.
  pub from_entries-IsWellFormed :
      (h : History V) (es : List (HistoryEntry V))
      → from_entries es ≡ ok h
      → IsWellFormed h × (entries h ≡ es)
  unfolding from_entries entries
  from_entries-IsWellFormed h es done =
      append-IsWellFormed default_history h es done default_history-IsWellFormed
