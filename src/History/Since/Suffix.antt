-- ===== src/History/Since/Suffix.antt =====
-- What `appended_since` returns: the suffix of the list, when the prefix has the digest.
use mathlib.Core.List.{append-nil}
use mathlib.Core.Path.{ap₂}
use native.Mathlib.Decide.{dec_le}
use zhir.Prelude.{
  take-append_left, take-append_right, drop-append_left, drop-append_right, ◌↔◌, ◌≢◌, ℕ, zero, suc,
  ◌-◌, ◌≤◌, ◌<◌, ◌≡◌, refl, sym, ap, ◌∙◌, Option, some, none, List, [], ◌∷◌, ◌++◌, arith, length,
  drop, take, leb, same, same_self, if◌then◌else◌, length-append, Bool-cases, inl, inr, drop-length,
  ℕ_discrete,
}
use zhir.Error.{Result, ok, ok-injective, err}
use zhir.Value.{Json}
use zhir.History.Entry.{HistoryEntry, Hashing, Digest, zero_digest}
use zhir.History.Chain.{Chain, nil, node, History, entries, append, flatten}
use zhir.History.Chain.Flat.{flat, HasLengths, entries-eq-flat, flatten-reverse_cons}
use zhir.History.Chain.Digests.{digest_from, HasDigests, prefix_digest_lem}
use zhir.History.Refine.{IsWellFormed, length-entries, digest-eq-fold, append-IsWellFormed}
use zhir.History.Since.{Digest-discrete, mismatch, cut, put_chunk, walk, joined, appended_since}

module _ {V : Type 0} where
  abbrev add_behind :
      Option (Result (List (HistoryEntry V)))
      → List (HistoryEntry V)
      → Option (Result (List (HistoryEntry V)))
  add_behind (some (ok es)) ms = some (ok (es ++ ms))
  add_behind other ms = other

  joined-put_chunk :
      (ms : List (HistoryEntry V)) (r : Option (Result (List (List (HistoryEntry V)))))
      → joined (put_chunk ms r) ≡ add_behind (joined r) ms
  joined-put_chunk ms none = refl
  joined-put_chunk ms (some (err e)) = refl
  joined-put_chunk ms (some (ok cs)) = ap (λ es. some (ok es)) (flatten-reverse_cons ms cs)

  -- The suffix behind `n` entries, if the digest of the prefix is the wanted one.
  abbrev pub suffix_if :
      Digest → Digest → ℕ → List (HistoryEntry V) → Option (Result (List (HistoryEntry V)))
  suffix_if d wanted n es =
      some (if same Digest-discrete d wanted then ok (drop n es) else mismatch)

  joined-cut :
      (wanted d : Digest) (ms : List (HistoryEntry V)) (k : ℕ)
      → k ≤ length ms
      → joined (cut wanted ms k (some d)) ≡ suffix_if d wanted k ms
  unfolding cut flatten
  joined-cut wanted d ms k le = ground (arith, append-nil (drop k ms), le)

  add_behind-suffix_if :
      (d wanted : Digest) (n : ℕ) (es ms : List (HistoryEntry V))
      → n ≤ length es
      → add_behind (suffix_if d wanted n es) ms ≡ suffix_if d wanted n (es ++ ms)
  add_behind-suffix_if d wanted n es ms h = ground (arith, drop-append_left n es ms)

  suffix_if-right :
      (d wanted : Digest) (n k : ℕ) (es ms : List (HistoryEntry V))
      → length es ≤ n
      → k ≡ n - length es
      → suffix_if d wanted k ms ≡ suffix_if d wanted n (es ++ ms)
  suffix_if-right d wanted n k es ms h e = rw (e, drop-append_right n es ms h)

module _ {V : Type 0} ⦃hashing : Hashing V⦄ where
  walk_lem :
      (c : Chain V) (n : ℕ) (wanted : Digest)
      → HasLengths c
      → HasDigests c
      → n < length (flat c)
      → (d : Digest) × (digest_from zero_digest (take n (flat c)) ≡ ok d)
        × (joined (walk c n wanted) ≡ suffix_if d wanted n (flat c))
  unfolding walk
  walk_lem nil n wanted hl hd h = absurd (omega arith)
  walk_lem (node p ms ds len x) n wanted hl hd h = elim (Bool-cases (leb (len - length ms) n)) [
    | inl here ↦
        let k = n - (len - length ms) in
        let start : len - length ms ≡ length (flat p) = omega (arith, hl.0) in
        let (d, found, folded) =
          prefix_digest_lem p ms ds k hd.2 hd.0 (ground (arith, length-append (flat p) ms)) in
        (
          d,
          rw (take-append_right n (flat p) ms (ground arith), ← start) folded,
          rw here (
              rw found (
                joined-cut wanted d ms k (omega (arith, start, h, length-append (flat p) ms))
                ∙ suffix_if-right d wanted n k (flat p) ms (ground arith) (ap (◌-◌ n) start))),
        )
    | inr before ↦
        let (d, folded, below) = walk_lem p n wanted hl.1 hd.2 (ground arith) in
        (
          d,
          rw (take-append_left n (flat p) ms (ground arith)) folded,
          rw before (
              joined-put_chunk ms (walk p n wanted)
              ∙ ap (λ r. add_behind r ms) below
              ∙ add_behind-suffix_if d wanted n (flat p) ms (ground arith)),
        )
  ]

  take_all : (es : List (HistoryEntry V)) → take (length es) es ≡ es
  take_all [] = refl
  take_all (e ∷ es) = ap (◌∷◌ e) (take_all es)

  take-length : (es xs : List (HistoryEntry V)) → take (length es) (es ++ xs) ≡ es
  take-length es xs = take-append_left (length es) es xs (omega arith) ∙ take_all es

  drop_all : (es : List (HistoryEntry V)) → drop (length es) es ≡ []
  drop_all [] = refl
  drop_all (e ∷ es) = drop_all es

  full_suffix :
      (d wanted : Digest) (es : List (HistoryEntry V))
      → suffix_if d wanted (length es) es
        ≡ some (if same Digest-discrete wanted d then ok [] else mismatch)
  full_suffix d wanted es = ground (arith, drop_all es)

  since_at_end :
      (h previous : History V)
      → previous.len ≡ h.len
      → appended_since h previous
        ≡ some (if same Digest-discrete previous.digest h.digest then ok [] else mismatch)
  unfolding appended_since
  since_at_end h previous e = ground arith

  since_inside :
      (h previous : History V)
      → previous.len < h.len
      → appended_since h previous ≡ joined (walk h.head previous.len previous.digest)
  unfolding appended_since
  since_inside h previous lt = ground arith

  -- The digest of the first entries, as many as the earlier history has, decides.
  pub appended_since_lem :
      (h previous : History V)
      → IsWellFormed h
      → previous.len ≤ h.len
      → (d : Digest) × (digest_from zero_digest (take previous.len (entries h)) ≡ ok d)
        × (appended_since h previous ≡ suffix_if d previous.digest previous.len (entries h))
  appended_since_lem h previous w le = elim (ℕ_discrete previous.len h.len) [
    | yes e ↦
        let n : previous.len ≡ length (entries h) = e ∙ length-entries h w in
        (
          h.digest,
          rw (n, take_all) (digest-eq-fold h w),
          since_at_end h previous e ∙ rw n (sym (full_suffix h.digest previous.digest (entries h))),
        )
    | no ne ↦
        let (d, folded, walked) =
          walk_lem h.head previous.len previous.digest w.lengths w.digests
            (omega (arith, w.counted)) in
        (
          d,
          rw entries-eq-flat folded,
          since_inside h previous (omega arith) ∙ rw entries-eq-flat walked,
        )
  ]

  -- A history that has the earlier one's entries first: the rest comes back.
  since_prefix :
      (h previous : History V) (es : List (HistoryEntry V))
      → IsWellFormed h
      → IsWellFormed previous
      → entries h ≡ entries previous ++ es
      → appended_since h previous ≡ some (ok es)
  since_prefix h previous es w v e =
      let n = length-entries previous v in
      let le : previous.len ≤ h.len =
        omega (arith, n, length-entries h w, ap length e, length-append (entries previous) es) in
      let (d, folded, since) = appended_since_lem h previous w le in
      let first : take previous.len (entries h) ≡ entries previous =
        simp (n, e) (take-length (entries previous) es) in
      let hashed : previous.digest ≡ d =
        ok-injective (sym (digest-eq-fold previous v) ∙ (rw first at folded)) in
      since
      ∙ rw (← hashed, same_self)
          (ap (λ l. some (ok l)) (simp (n, e) (drop-length (entries previous) es)))

  -- The two lists of entries are equal if their digests are: SHA-256 does not collide on them.
  abbrev pub NoCollision : List (HistoryEntry V) → List (HistoryEntry V) → Type 0
  NoCollision xs ys = digest_from zero_digest xs ≡ digest_from zero_digest ys → xs ≡ ys

  take-drop : (n : ℕ) (es : List (HistoryEntry V)) → take n es ++ drop n es ≡ es
  take-drop zero es = refl
  take-drop (suc n) [] = refl
  take-drop (suc n) (e ∷ es) = ap (◌∷◌ e) (take-drop n es)

  suffix_inv :
      (d wanted : Digest) (n : ℕ) (xs es : List (HistoryEntry V))
      → suffix_if d wanted n xs ≡ some (ok es)
      → (d ≡ wanted) × (drop n xs ≡ es)
  suffix_inv d wanted n xs es h = (ground arith, ground arith)

  since_inv :
      (h previous : History V) (es : List (HistoryEntry V))
      → IsWellFormed h
      → IsWellFormed previous
      → previous.len ≤ h.len
      → NoCollision (take previous.len (entries h)) (entries previous)
      → appended_since h previous ≡ some (ok es)
      → entries h ≡ entries previous ++ es
  since_inv h previous es w v le free since =
      let (d, folded, walked) = appended_since_lem h previous w le in
      let (hit, rest) =
        suffix_inv d previous.digest previous.len (entries h) es (sym walked ∙ since) in
      let first : take previous.len (entries h) ≡ entries previous =
        free (folded ∙ ap ok hit ∙ sym (digest-eq-fold previous v)) in
      sym (take-drop previous.len (entries h)) ∙ ap₂ ◌++◌ first rest

  since_longer :
      (h previous : History V) → h.len < previous.len → appended_since h previous ≡ some mismatch
  unfolding appended_since
  since_longer h previous lt = ground arith

  -- appended_since returns the entries es exactly when the entries of the later history are
  -- those of the earlier one and then es, for well-formed histories whose digests do not
  -- collide.
  pub appended_since_iff :
      (h previous : History V) (es : List (HistoryEntry V))
      → IsWellFormed h
      → IsWellFormed previous
      → NoCollision (take previous.len (entries h)) (entries previous)
      → (appended_since h previous ≡ some (ok es)) ↔ (entries h ≡ entries previous ++ es)
  appended_since_iff h previous es w v free = (
    λ since. elim (dec_le previous.len h.len) [
      | yes le ↦ since_inv h previous es w v le free since
      | no gt ↦ absurd (ground (arith, since_longer h previous (omega arith)))
    ],
    since_prefix h previous es w v,
  )

  -- appended_since of a well-formed history never indexes or slices out of range, whatever
  -- the other history.
  pub appended_since-ne-none :
      (h previous : History V) → IsWellFormed h → appended_since h previous ≢ none
  appended_since-ne-none h previous w = elim (dec_le previous.len h.len) [
    | yes le ↦
        let (d, folded, walked) = appended_since_lem h previous w le in ground (arith, walked)
    | no gt ↦ ground (arith, since_longer h previous (omega arith))
  ]

module _ {V : Type 0} ⦃j : Json V⦄ ⦃hashing : Hashing V⦄ where
  -- What a successful append has added to a well-formed history comes back from
  -- appended_since.
  pub appended_since-append :
      (h h' : History V) (es : List (HistoryEntry V))
      → IsWellFormed h
      → append h es ≡ ok h'
      → appended_since h' h ≡ some (ok es)
  appended_since-append h h' es w done =
      let (w', e) = append-IsWellFormed h h' es done w in since_prefix h' h es w' w e
