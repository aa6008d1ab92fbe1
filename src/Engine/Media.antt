-- ===== src/Engine/Media.antt =====
-- crates/zhir-kernel/src/engine/media.rs: the archive of ended streams, and the commit of a sealed
-- segment. The tasks that read and write media beside the engine are not modelled.
pub mod Archive
use Prim.Native.String.{◌++◌ as append_text}
use zhir.Prelude.{
  ℕ, zero, suc, String, Bool, true, false, ◌||◌, Option, none, some, List, [], ◌∷◌, Map, leb, add,
  contains, insert, is_some, lookup, remove, String-discrete, if◌then◌else◌,
}
use zhir.Error.{Result, ok, err, invalid, protocol, uncertain}
use zhir.Resource.{ResourceRef}
use zhir.Run.{Checkpoint, Fact, StreamCursor}
use zhir.Storage.Commit.{HistoryDelta}
use zhir.Engine.State.{SealedChunk, SealedMedia}
use zhir.Engine.Action.{
  RunStore, Environment, Action, ArchivedMedia, pure, raise, lift, ◌>>=◌, ◌>>◌, done, raise_if,
  checkpoint, held, adjust, new_id, check,
}
use zhir.Engine.Changes.{with_session}
use zhir.Engine.Commit.{commit}

abbrev pub ended : String → Option (List String) → Option (List String)
ended key none = none
ended key (some keys) = some (add String-discrete key keys)

abbrev pub invalid_node : {V : Type 0} → Result (ArchivedMedia V) → Result (ArchivedMedia V)
invalid_node (err _) = err (protocol "invalid media archive node")
invalid_node (ok node) = ok node

module _ {V S : Type 0} where
  -- `Engine::ended_stream`
  abbrev pub ended_stream : String → Action V S (Unit {0})
  ended_stream key = adjust (λ v. record v { ended_streams = ended key v.ended_streams })

  unfoldable pub ended_all : List String → Action V S (Unit {0})
  ended_all [] = done
  ended_all (key ∷ keys) = do ended_stream key; ended_all keys

module _ {V S : Type 0} ⦃environment : Environment V⦄ where
  abbrev pub archive_with :
      Option (String → ArchivedMedia V → Result (ResourceRef V))
      → ArchivedMedia V
      → Action V S (ResourceRef V)
  archive_with none node = raise (invalid "media archive requires resource storage")
  archive_with (some write) node = do id ← new_id; lift (write id node)

  -- `Engine::archive_media`
  unfoldable pub archive_media :
      Checkpoint V → String → ResourceRef V → Bool → Action V S (Checkpoint V)
  archive_media next stream_key sealed complete = do
    archive ← archive_with environment.write_archive (record {
      stream_key = stream_key;
      sealed = sealed;
      complete = complete;
      previous = next.active.session.media_archive;
    })
    pure (with_session (record next.active.session { media_archive = some archive }) next)

  -- The loop over the chain of archive nodes, at most `fuel` of them.
  unfoldable pub archived_keys : ℕ → List String → Option (ResourceRef V) → Action V S (List String)
  archived_keys fuel keys none = pure keys
  archived_keys zero keys (some reference) = raise (uncertain "media archive beyond its bound")
  archived_keys (suc fuel) keys (some reference) = do
    check
    node ← lift (invalid_node (environment.read_archive reference))
    archived_keys fuel (add String-discrete node.stream_key keys) node.previous

  abbrev pub known_keys : Option (List String) → Action V S (List String)
  known_keys (some keys) = pure keys
  known_keys none = do
    current ← checkpoint
    keys ← archived_keys environment.archive_bound [] current.active.session.media_archive
    adjust (λ v. record v { ended_streams = some keys })
    pure keys

  -- Without a store of resources there is no archive.
  abbrev pub ensure_where :
      String → Option (String → ArchivedMedia V → Result (ResourceRef V)) → Action V S (Unit {0})
  ensure_where key none = done
  ensure_where key (some _) = do
    v ← held
    keys ← known_keys v.ended_streams
    raise_if (contains String-discrete key keys) (protocol "media after stream end")

  -- `Engine::ensure_new_stream`
  unfoldable pub ensure_new_stream : String → Action V S (Unit {0})
  ensure_new_stream key = ensure_where key environment.write_archive

  -- The end of a stream is archived.
  abbrev pub archive_end : Bool → Checkpoint V → String → ResourceRef V → Action V S (Checkpoint V)
  archive_end final current key reference =
      if final then archive_media current key reference true else pure current

-- `media_key`; the decimal text of the epoch is the environment's.
abbrev pub media_key : {V : Type 0} → Environment V → String → String → ℕ → String
media_key environment direction stream_id epoch =
    append_text direction
      (append_text ":" (append_text stream_id (append_text ":" (environment.decimal epoch))))

-- `windows(2).any(|w| w[1].sequence <= w[0].sequence)`
unfoldable pub disordered : SealedChunk → List SealedChunk → Bool
disordered previous [] = false
disordered previous (chunk ∷ chunks) =
    leb chunk.sequence previous.sequence || disordered chunk chunks

unfoldable pub last_chunk : SealedChunk → List SealedChunk → SealedChunk
last_chunk chunk [] = chunk
last_chunk _ (chunk ∷ chunks) = last_chunk chunk chunks

module _ {V : Type 0} where
  abbrev pub sealed_before : SealedChunk → Option (StreamCursor V) → Bool
  sealed_before chunk none = false
  sealed_before chunk (some cursor) = leb chunk.sequence cursor.sequence

  abbrev pub with_media : Map String (StreamCursor V) → Checkpoint V → Checkpoint V
  with_media media next = record next { active = record next.active { media = media } }

module _ {V S : Type 0} ⦃store : RunStore V S⦄ ⦃environment : Environment V⦄ where
  abbrev pub seal_end :
      Checkpoint V → String → SealedMedia → ResourceRef V → SealedChunk → Action V S (Unit {0})
  seal_end current key segment reference chunk = do
    next ← archive_end chunk.final current key reference
    commit
        (with_media
          (if chunk.final
            then remove String-discrete key next.active.media
            else insert String-discrete key
                (record { sequence = chunk.sequence; epoch = segment.epoch; sealed = reference })
                next.active.media)
          next)
        (Fact.media segment.stream_id chunk.sequence) HistoryDelta.unchanged
    if chunk.final then ended_stream key else done

  abbrev pub seal_chunks :
      String → SealedMedia → ResourceRef V → List SealedChunk → Action V S (Unit {0})
  seal_chunks key segment reference [] = raise (protocol "empty media segment")
  seal_chunks key segment reference (first ∷ chunks) = do
    current ← checkpoint
    let cursor : Option (StreamCursor V) = lookup String-discrete key current.active.media
    raise_if (sealed_before first cursor || disordered first chunks)
        (protocol "media sequence did not increase")
    if is_some cursor then done else ensure_new_stream key
    seal_end current key segment reference (last_chunk first chunks)

  -- `Engine::seal_cursor`
  unfoldable pub seal_cursor : String → SealedMedia → ResourceRef V → Action V S (Unit {0})
  seal_cursor direction segment reference =
      seal_chunks (media_key environment direction segment.stream_id segment.epoch) segment
        reference segment.chunks
