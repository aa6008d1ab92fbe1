-- ===== src/Engine/Keeps/Controls.antt =====
-- The methods of controls.rs keep every invariant.
use zhir.Prelude.{String, List, [], ◌∷◌}
use zhir.Value.{Json}
use zhir.Profile.{RequestProfile}
use zhir.Operation.{OperationRecord, RecoveryRef}
use zhir.Message.{Message}
use zhir.Model
use zhir.History.Entry.{Hashing}
use zhir.Run.{CommandIntent, Suspension}
use zhir.Engine.State.{ControlBody, Engine}
use zhir.Engine.State as Asked
use zhir.Engine.Action.{RunStore, Environment}
use zhir.Engine.Controls.{
  insert_message, pause, update_profile, interrupt, input_command, request_cancel, cancel_operation,
  reply_operation, control_body, control,
}
use zhir.Engine.Recovery.{
  RecoveryResolution, complete, abandon, attach, abandon_generation, attach_operation,
  give_up_generation, resolve, resolve_all, insert_all, apply_recovery,
}
use zhir.Engine.Keeps.{Keeps, Keeps-bind, keeps, changes, IsInvariant}
use zhir.Engine.Keeps.Operations.{append_command-Keeps, finish_at-Keeps, unknown-Keeps}
use zhir.Engine.Keeps.Commands.{prepare_command-Keeps, suspend-Keeps}

module _ {V S : Type 0} ⦃j : Json V⦄ ⦃hashing : Hashing V⦄ ⦃store : RunStore V S⦄
    ⦃environment : Environment V⦄ {P : Engine V S → Type 0} (inv : IsInvariant P) where
  attach_operation-Keeps :
      (id : String) (reference : RecoveryRef V) → Keeps P (attach_operation id reference)
  unfolding attach_operation
  attach_operation-Keeps id reference = search changes

  give_up_generation-Keeps :
      (generation_id reason : String) → Keeps P (give_up_generation generation_id reason)
  unfolding give_up_generation
  give_up_generation-Keeps generation_id reason = search changes depth 9

  resolve-Keeps : (resolution : RecoveryResolution V) → Keeps P (resolve resolution)
  resolve-Keeps (complete _ _) = search finish_at-Keeps
  resolve-Keeps (abandon _ _) = search finish_at-Keeps
  resolve-Keeps (attach _ _) = search attach_operation-Keeps
  resolve-Keeps (abandon_generation _ _) = search give_up_generation-Keeps

  insert_message-Keeps :
      (message : Message V) (source : String) → Keeps P (insert_message message source)
  unfolding insert_message
  insert_message-Keeps message source = search (changes, append_command-Keeps) depth 12

  pause-Keeps : (suspension : Suspension V) → Keeps P (pause suspension)
  unfolding pause
  pause-Keeps suspension = search changes

  update_profile-Keeps : (profile : RequestProfile V) → Keeps P (update_profile profile)
  unfolding update_profile
  update_profile-Keeps profile = search (keeps, prepare_command-Keeps)

  interrupt-Keeps : Keeps P interrupt
  unfolding interrupt
  interrupt-Keeps = search (keeps, prepare_command-Keeps) depth 9

  input_command-Keeps :
      (capability : Model.Capability) (refusal : String) (intent : CommandIntent V)
      → Keeps P (input_command capability refusal intent)
  unfolding input_command
  input_command-Keeps capability refusal intent = search (keeps, prepare_command-Keeps)

  request_cancel-Keeps :
      (id : String) (operation : OperationRecord V) → Keeps P (request_cancel id operation)
  unfolding request_cancel
  request_cancel-Keeps id operation = search changes depth 12

  cancel_operation-Keeps : (id : String) → Keeps P (cancel_operation id)
  unfolding cancel_operation
  cancel_operation-Keeps id = search (keeps, finish_at-Keeps, request_cancel-Keeps) depth 9

  reply_operation-Keeps : (id : String) (value : V) → Keeps P (reply_operation id value)
  unfolding reply_operation
  reply_operation-Keeps id value = search (changes, unknown-Keeps) depth 9

  control_body-Keeps : (body : ControlBody V) → Keeps P (control_body body)
  control_body-Keeps (Asked.input _ _) = search insert_message-Keeps
  control_body-Keeps (Asked.pause _) = search pause-Keeps
  control_body-Keeps (Asked.update_profile _) = search update_profile-Keeps
  control_body-Keeps Asked.interrupt_output = search interrupt-Keeps
  control_body-Keeps Asked.flush_input = search input_command-Keeps
  control_body-Keeps (Asked.set_input_audio _) = search input_command-Keeps
  control_body-Keeps Asked.seal_user_input = search prepare_command-Keeps
  control_body-Keeps (Asked.cancel_operation _) = search cancel_operation-Keeps
  control_body-Keeps (Asked.reply_operation _ _) = search reply_operation-Keeps

  pub control-Keeps : (body : ControlBody V) → Keeps P (control body)
  unfolding control
  control-Keeps body = search (changes, control_body-Keeps)

  resolve_all-Keeps :
      (resolutions : List (RecoveryResolution V)) → Keeps P (resolve_all resolutions)
  unfolding resolve_all
  resolve_all-Keeps [] = search keeps
  resolve_all-Keeps (resolution ∷ resolutions) =
      Keeps-bind _ _ (resolve-Keeps resolution) λ resolved. resolve_all-Keeps resolutions

  insert_all-Keeps : (messages : List (Message V)) → Keeps P (insert_all messages)
  unfolding insert_all
  insert_all-Keeps [] = search keeps
  insert_all-Keeps (message ∷ messages) =
      Keeps-bind _ _ (insert_message-Keeps message "resume") λ id. insert_all-Keeps messages

  pub apply_recovery-Keeps :
      (resolutions : List (RecoveryResolution V)) (messages : List (Message V))
      → Keeps P (apply_recovery resolutions messages)
  unfolding apply_recovery
  apply_recovery-Keeps resolutions messages =
      search (keeps, resolve_all-Keeps, insert_all-Keeps, suspend-Keeps) depth 9
