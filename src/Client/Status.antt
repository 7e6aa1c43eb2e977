-- ===== src/Client/Status.antt =====
-- `StatusCode` of clients/rust/src/lib.rs, and its conversions.
use sysadmin.Base.{◌≡◌, refl}
use sysadmin.Ctl.StatusCode as Ctl

pub data StatusCode : Type 0 where
  success unknown_error type_mismatch command_translation_error key_not_found external_process_error
        invalid_key failed_rollback locked_queue hook_not_found success_key_created
        message_size_error :
      StatusCode

-- `impl From<StatusCode> for sysadminctl::StatusCode`
unfoldable pub to_ctl : StatusCode → Ctl.StatusCode
to_ctl success = Ctl.success
to_ctl unknown_error = Ctl.unknown_error
to_ctl type_mismatch = Ctl.type_mismatch
to_ctl command_translation_error = Ctl.command_translation_error
to_ctl key_not_found = Ctl.key_not_found
to_ctl external_process_error = Ctl.external_process_error
to_ctl invalid_key = Ctl.invalid_key
to_ctl failed_rollback = Ctl.failed_rollback
to_ctl locked_queue = Ctl.locked_queue
to_ctl hook_not_found = Ctl.hook_not_found
to_ctl success_key_created = Ctl.success_key_created
to_ctl message_size_error = Ctl.message_size_error

-- `impl From<sysadminctl::StatusCode> for StatusCode`
unfoldable pub from_ctl : Ctl.StatusCode → StatusCode
from_ctl Ctl.success = success
from_ctl Ctl.unknown_error = unknown_error
from_ctl Ctl.type_mismatch = type_mismatch
from_ctl Ctl.command_translation_error = command_translation_error
from_ctl Ctl.key_not_found = key_not_found
from_ctl Ctl.external_process_error = external_process_error
from_ctl Ctl.invalid_key = invalid_key
from_ctl Ctl.failed_rollback = failed_rollback
from_ctl Ctl.locked_queue = locked_queue
from_ctl Ctl.hook_not_found = hook_not_found
from_ctl Ctl.success_key_created = success_key_created
from_ctl Ctl.message_size_error = message_size_error

-- The conversions of status codes between the client and the messages are inverse to one another.
pub from_ctl-to_ctl :
    ((c : StatusCode) → from_ctl (to_ctl c) ≡ c) × ((c : Ctl.StatusCode) → to_ctl (from_ctl c) ≡ c)
unfolding to_ctl from_ctl
from_ctl-to_ctl = (
  elim [
    | success ↦ refl
    | unknown_error ↦ refl
    | type_mismatch ↦ refl
    | command_translation_error ↦ refl
    | key_not_found ↦ refl
    | external_process_error ↦ refl
    | invalid_key ↦ refl
    | failed_rollback ↦ refl
    | locked_queue ↦ refl
    | hook_not_found ↦ refl
    | success_key_created ↦ refl
    | message_size_error ↦ refl
  ],
  elim [
    | Ctl.success ↦ refl
    | Ctl.unknown_error ↦ refl
    | Ctl.type_mismatch ↦ refl
    | Ctl.command_translation_error ↦ refl
    | Ctl.key_not_found ↦ refl
    | Ctl.external_process_error ↦ refl
    | Ctl.invalid_key ↦ refl
    | Ctl.failed_rollback ↦ refl
    | Ctl.locked_queue ↦ refl
    | Ctl.hook_not_found ↦ refl
    | Ctl.success_key_created ↦ refl
    | Ctl.message_size_error ↦ refl
  ],
)
