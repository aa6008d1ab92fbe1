-- ===== src/Engine/Media/Archive.antt =====
-- The walk along the archive of media ends within its bound, and decides whether a stream has ended.
use zhir.Prelude.{
  ℕ, zero, suc, ◌≤◌, ◌≡◌, refl, ap, ◌∙◌, arith, String, Bool, true, false, ◌||◌, Option, none, some,
  List, [], ◌∷◌, length, add, contains, contains-add, String-discrete, if◌then◌else◌,
}
use zhir.Error.{Result, ok, err, protocol}
use zhir.Resource.{ResourceRef}
use zhir.Engine.State.{Engine}
use zhir.Engine.Action.{
  Action, ArchivedMedia, Environment, ◌>>=◌, ◌>>◌, continue, pure, adjust, check, gets, lift,
  raise_if, read_clock,
}
use zhir.Engine.Media.{archived_keys, ensure_new_stream, ensure_where, known_keys}

module _ {V : Type 0} where
  -- An archive that can be read: the streams of its nodes, the latest first.
  pub data Archive (environment : Environment V)
      : Option (ResourceRef V) → List String → Type 0 where
    empty : Archive environment none []
    node :
        {reference : ResourceRef V} {archived : ArchivedMedia V} {keys : List String}
        → environment.read_archive reference ≡ ok archived
        → Archive environment archived.previous keys
        → Archive environment (some reference) (archived.stream_key ∷ keys)

-- The set of the keys that the walk has found, with those that it had.
abbrev gathered : List String → List String → List String
gathered [] found = found
gathered (key ∷ keys) found = gathered keys (add String-discrete key found)

contains-gathered :
    (key : String) (keys found : List String)
    → contains String-discrete key (gathered keys found)
      ≡ (contains String-discrete key found || contains String-discrete key keys)
unfolding contains
contains-gathered key [] found = ground arith
contains-gathered key (k ∷ keys) found =
    let later = contains-gathered key keys (add String-discrete k found) in
    ground (arith, later, contains-add String-discrete k key found)

module _ {V S : Type 0} ⦃environment : Environment V⦄ where
  -- Without a deadline and a cancellation the check passes, and only reads the clock.
  check-passes :
      (e : Engine V S)
      → e.deadline ≡ none
      → ((n : ℕ) → environment.is_cancelled n ≡ false)
      → check e ≡ (ok tt, record e { readings = suc e.readings })
  unfolding check gets read_clock raise_if ◌>>=◌
  check-passes e endless running = rw (endless, running e.readings) refl

  archived_keys-gathered :
      (fuel : ℕ) (found keys : List String) (reference : Option (ResourceRef V)) (e : Engine V S)
      → Archive environment reference keys
      → length keys ≤ fuel
      → e.deadline ≡ none
      → ((n : ℕ) → environment.is_cancelled n ≡ false)
      → (e' : Engine V S) × (archived_keys fuel found reference e ≡ (ok (gathered keys found), e'))
  unfolding archived_keys ◌>>=◌ lift
  archived_keys-gathered zero found _ _ e Archive.empty le endless running = (e, refl)
  archived_keys-gathered (suc fuel) found _ _ e Archive.empty le endless running = (e, refl)
  archived_keys-gathered zero found _ _ e (Archive.node _ _) le endless running =
      absurd (omega (arith, le))
  archived_keys-gathered (suc fuel) found _ _ e
        (Archive.node {archived = archived} {keys = keys} read rest) le endless running =
      let (e', walked) =
        archived_keys-gathered fuel (add String-discrete archived.stream_key found) keys
          archived.previous (record e { readings = suc e.readings }) rest (omega (arith, le))
          endless running in
      (e', rw (check-passes e endless running, read) walked)

  -- A stream that is new or has ended, and the engine's own set of the ended streams.
  pub record Decides (key : String) (keys : List String) (e : Engine V S) : Type 0 where
    pub after : Engine V S
    pub known : List String
    pub result : ensure_new_stream key e ≡ (
      if contains String-discrete key keys then err (protocol "media after stream end") else ok tt,
      after,
    )
    pub remembered : after.volatile.ended_streams ≡ some known
    pub exact : (k : String) → contains String-discrete k known ≡ contains String-discrete k keys

  raise_if-eq :
      (b : Bool) (conflict : String) (e : Engine V S)
      → raise_if b (protocol conflict) e ≡ (if b then err (protocol conflict) else ok tt, e)
  unfolding raise_if ◌>>=◌
  raise_if-eq true conflict e = refl
  raise_if-eq false conflict e = refl

  known_keys-found :
      (found : List String) (e walked : Engine V S)
      → archived_keys environment.archive_bound [] e.current.active.session.media_archive e
        ≡ (ok found, walked)
      → known_keys none e ≡ (
        ok found,
        record walked { volatile = record walked.volatile { ended_streams = some found } },
      )
  unfolding ◌>>=◌ gets adjust
  known_keys-found found e walked h =
      ap
        (λ t.
          (continue t.0 (λ keys. adjust (λ v. record v { ended_streams = some keys }) >> pure keys))
            t.1)
        h

  -- What follows the set of keys.
  abbrev judge : String → List String → Action V S (Unit {0})
  judge key keys = raise_if (contains String-discrete key keys) (protocol "media after stream end")

  -- When the host has a store of resources, the set of ended streams was not read before, the
  -- archive can be read and has at most as many nodes as the bound, and there is neither a
  -- deadline nor a cancellation, ensure_new_stream ends without reaching the bound: it
  -- refuses a stream of the archive and accepts any other, and the engine then holds exactly
  -- the streams of the archive.
  pub ensure_new_stream-Decides :
      (key : String) (keys : List String) (e : Engine V S)
      (write : String → ArchivedMedia V → Result (ResourceRef V))
      → environment.write_archive ≡ some write
      → e.volatile.ended_streams ≡ none
      → Archive environment e.current.active.session.media_archive keys
      → length keys ≤ environment.archive_bound
      → e.deadline ≡ none
      → ((n : ℕ) → environment.is_cancelled n ≡ false)
      → Decides key keys e
  unfolding ensure_new_stream ◌>>=◌ gets adjust contains
  ensure_new_stream-Decides key keys e write stored unread archive le endless running =
      let known = gathered keys [] in
      let (walked, found) =
        archived_keys-gathered environment.archive_bound [] keys
          e.current.active.session.media_archive e archive le endless running in
      let after : Engine V S = record walked {
        volatile = record walked.volatile { ended_streams = some known };
      } in
      let exact : (k : String)
          → contains String-discrete k known ≡ contains String-discrete k keys =
        λ k. contains-gathered k keys [] in
      record {
        after = after;
        known = known;
        result =
            ap (λ o. ensure_where key o e) stored
            ∙ ap (λ o. (known_keys o >>= judge key) e) unread
            ∙ ap (λ t. continue t.0 (judge key) t.1) (known_keys-found known e walked found)
            ∙ raise_if-eq (contains String-discrete key known) "media after stream end" after
            ∙ ap (λ b. (if b then err (protocol "media after stream end") else ok tt, after))
                (exact key);
        remembered = refl;
        exact = exact;
      }
