-- ===== src/Engine/Keeps/Commands.antt =====
-- The methods of session.rs, media.rs and commands.rs keep every invariant.
use zhir.Prelude.{ℕ, zero, suc, String, Bool, Option, none, some, List, [], ◌∷◌}
use zhir.Error.{Result}
use zhir.Value.{Json}
use zhir.Resource.{ResourceRef}
use zhir.Model.{CapabilitySet}
use zhir.History.Entry.{Hashing}
use zhir.Run.{Checkpoint, CommandIntent, PendingCommand, StreamCursor}
use zhir.Run
use zhir.Engine.State.{Engine, SealedChunk, SealedMedia}
use zhir.Engine.Action.{RunStore, Environment, ArchivedMedia, Rewrite, check}
use zhir.Engine.Commit.{suspend, WaitReason}
use zhir.Engine.Session.{rewrite, request_generation, reduced, generate}
use zhir.Engine.Media.{
  archive_media, ended_all, archived_keys, ensure_new_stream, ensure_where, archive_end,
  seal_cursor, archive_with, known_keys, seal_end, seal_chunks,
}
use zhir.Engine.Commands.{
  retire, prepare, after_prepare, prepare_command, commit_boundary, dispatch_command,
  dispatch_first, dispatch_session, dispatch_commands,
}
use zhir.Engine.Keeps.{Keeps, Keeps-bind, keeps, changes, IsInvariant}

module _ {V S : Type 0} ⦃store : RunStore V S⦄ ⦃environment : Environment V⦄
    {P : Engine V S → Type 0} (inv : IsInvariant P) where
  pub check-Keeps : Keeps P (check {S = S})
  unfolding check
  check-Keeps = search changes

  pub suspend-Keeps : (reason : WaitReason) → Keeps P (suspend reason)
  unfolding suspend
  suspend-Keeps reason = search changes

  ended_all-Keeps : (keys : List String) → Keeps P (ended_all {S = S} keys)
  unfolding ended_all
  ended_all-Keeps [] = search keeps
  ended_all-Keeps (key ∷ keys) = Keeps-bind _ _ (inv.adjusts _) λ ended. ended_all-Keeps keys

  archive_with-Keeps :
      (write : Option (String → ArchivedMedia V → Result (ResourceRef V))) (node : ArchivedMedia V)
      → Keeps P (archive_with {S = S} write node)
  archive_with-Keeps none node = search keeps
  archive_with-Keeps (some write) node = search changes

  archive_media-Keeps :
      (next : Checkpoint V) (key : String) (sealed : ResourceRef V) (complete : Bool)
      → Keeps P (archive_media {S = S} next key sealed complete)
  unfolding archive_media
  archive_media-Keeps next key sealed complete = search (keeps, archive_with-Keeps)

  archived_keys-Keeps :
      (fuel : ℕ) (keys : List String) (reference : Option (ResourceRef V))
      → Keeps P (archived_keys {S = S} fuel keys reference)
  unfolding archived_keys
  archived_keys-Keeps fuel keys none = search keeps
  archived_keys-Keeps zero keys (some reference) = search keeps
  archived_keys-Keeps (suc fuel) keys (some reference) =
      search (keeps, check-Keeps, archived_keys-Keeps fuel)

  known_keys-Keeps : (keys : Option (List String)) → Keeps P (known_keys {S = S} keys)
  known_keys-Keeps (some keys) = search keeps
  known_keys-Keeps none = search (changes, archived_keys-Keeps)

  ensure_where-Keeps :
      (key : String) (archive : Option (String → ArchivedMedia V → Result (ResourceRef V)))
      → Keeps P (ensure_where {S = S} key archive)
  ensure_where-Keeps key none = search keeps
  ensure_where-Keeps key (some _) = search (keeps, known_keys-Keeps)

  ensure_new_stream-Keeps : (key : String) → Keeps P (ensure_new_stream {S = S} key)
  unfolding ensure_new_stream
  ensure_new_stream-Keeps key = search ensure_where-Keeps

  retire-Keeps :
      (cursors : List (String × StreamCursor V)) (next : Checkpoint V)
      → Keeps P (retire {S = S} next cursors)
  unfolding retire
  retire-Keeps [] next = search keeps
  retire-Keeps ((key, cursor) ∷ cursors) next =
      Keeps-bind _ _ (archive_media-Keeps _ _ _ _)
        λ archived. Keeps-bind _ _ (retire-Keeps cursors _) λ rest. search keeps

  prepare-Keeps :
      (next : Checkpoint V) (intent : CommandIntent V) → Keeps P (prepare {S = S} next intent)
  prepare-Keeps next (Run.interrupt_output _ _) = search retire-Keeps
  prepare-Keeps next Run.close = search keeps
  prepare-Keeps next Run.seal_user_input = search keeps
  prepare-Keeps next (Run.set_input_audio _) = search keeps
  prepare-Keeps next _ = search keeps

  after_prepare-Keeps : (intent : CommandIntent V) → Keeps P (after_prepare {S = S} intent)
  after_prepare-Keeps (Run.interrupt_output _ _) = search changes
  after_prepare-Keeps Run.seal_user_input = search changes
  after_prepare-Keeps _ = search keeps

  pub prepare_command-Keeps : (intent : CommandIntent V) → Keeps P (prepare_command intent)
  unfolding prepare_command
  prepare_command-Keeps intent =
      search (changes, prepare-Keeps, ended_all-Keeps, after_prepare-Keeps) depth 12

  commit_boundary-Keeps : (id : String) → Keeps P (commit_boundary id)
  unfolding commit_boundary
  commit_boundary-Keeps id = search changes

  dispatch_command-Keeps :
      (command : PendingCommand V) (durable : Bool) → Keeps P (dispatch_command command durable)
  unfolding dispatch_command
  dispatch_command-Keeps command durable =
      search (changes, commit_boundary-Keeps, check-Keeps) depth 12

  dispatch_first-Keeps :
      (e : Engine V S) (command : Option (PendingCommand V)) → Keeps P (dispatch_first e command)
  dispatch_first-Keeps e none = search keeps
  dispatch_first-Keeps e (some command) = search (keeps, dispatch_command-Keeps)

  dispatch_session-Keeps :
      (e : Engine V S) (session : Option (CapabilitySet V)) → Keeps P (dispatch_session e session)
  dispatch_session-Keeps e none = search keeps
  dispatch_session-Keeps e (some _) = search (keeps, dispatch_first-Keeps)

  pub dispatch_commands-Keeps : Keeps P dispatch_commands
  unfolding dispatch_commands
  dispatch_commands-Keeps = search (keeps, dispatch_session-Keeps)

  archive_end-Keeps :
      (final : Bool) (current : Checkpoint V) (key : String) (reference : ResourceRef V)
      → Keeps P (archive_end {S = S} final current key reference)
  archive_end-Keeps final current key reference = search (keeps, archive_media-Keeps)

  seal_end-Keeps :
      (current : Checkpoint V) (key : String) (segment : SealedMedia) (reference : ResourceRef V)
      (chunk : SealedChunk)
      → Keeps P (seal_end current key segment reference chunk)
  seal_end-Keeps current key segment reference chunk = search (changes, archive_end-Keeps)

  seal_chunks-Keeps :
      (key : String) (segment : SealedMedia) (reference : ResourceRef V) (chunks : List SealedChunk)
      → Keeps P (seal_chunks key segment reference chunks)
  seal_chunks-Keeps key segment reference [] = search keeps
  seal_chunks-Keeps key segment reference (first ∷ chunks) =
      search (keeps, ensure_new_stream-Keeps, seal_end-Keeps)

  pub seal_cursor-Keeps :
      (direction : String) (segment : SealedMedia) (reference : ResourceRef V)
      → Keeps P (seal_cursor direction segment reference)
  unfolding seal_cursor
  seal_cursor-Keeps direction segment reference = search seal_chunks-Keeps

module _ {V S : Type 0} ⦃j : Json V⦄ ⦃hashing : Hashing V⦄ ⦃store : RunStore V S⦄
    ⦃environment : Environment V⦄ {P : Engine V S → Type 0} (inv : IsInvariant P) where
  rewrite-Keeps : (current : Checkpoint V) (change : Rewrite V) → Keeps P (rewrite current change)
  unfolding rewrite
  rewrite-Keeps current change = search changes

  request_generation-Keeps : (current : Checkpoint V) → Keeps P (request_generation current)
  unfolding request_generation
  request_generation-Keeps current = search changes depth 9

  reduced-Keeps :
      (current : Checkpoint V) (change : Option (Rewrite V)) → Keeps P (reduced current change)
  reduced-Keeps current none = search request_generation-Keeps
  reduced-Keeps current (some change) = search rewrite-Keeps

  pub generate-Keeps : Keeps P generate
  unfolding generate
  generate-Keeps = search (changes, reduced-Keeps)
