-- ===== src/Ctl/StatusCode.antt =====
-- The enum `StatusCode`: clients/rust/src/sysadminctl.rs, lines 6701 to 6737.
use sysadmin.Base.{ℤ, pos, negsuc, IsI32, Option, none, some, ◌≡◌, refl, arith, ◌==◌, if◌then◌else◌}

pub data StatusCode : Type 0 where
  success unknown_error type_mismatch command_translation_error key_not_found external_process_error
        invalid_key failed_rollback locked_queue hook_not_found success_key_created
        message_size_error :
      StatusCode

unfoldable pub value : StatusCode → ℤ
value success = pos 0
value unknown_error = pos 1
value type_mismatch = pos 2
value command_translation_error = pos 3
value key_not_found = pos 4
value external_process_error = pos 5
value invalid_key = pos 6
value failed_rollback = pos 7
value locked_queue = pos 8
value hook_not_found = pos 9
value success_key_created = pos 10
value message_size_error = pos 11

unfoldable pub from_i32 : ℤ → Option StatusCode
from_i32 (pos n) =
    if n == 0
    then some success
    else if n == 1
    then some unknown_error
    else if n == 2
    then some type_mismatch
    else if n == 3
    then some command_translation_error
    else if n == 4
    then some key_not_found
    else if n == 5
    then some external_process_error
    else if n == 6
    then some invalid_key
    else if n == 7
    then some failed_rollback
    else if n == 8
    then some locked_queue
    else if n == 9
    then some hook_not_found
    else if n == 10
    then some success_key_created
    else if n == 11
    then some message_size_error
    else none
from_i32 (negsuc n) = none

-- A value is an `i32`, and it is read back.
pub from_i32-value : (c : StatusCode) → IsI32 (value c) × (from_i32 (value c) ≡ some c)
unfolding value from_i32
from_i32-value success = (omega arith, refl)
from_i32-value unknown_error = (omega arith, refl)
from_i32-value type_mismatch = (omega arith, refl)
from_i32-value command_translation_error = (omega arith, refl)
from_i32-value key_not_found = (omega arith, refl)
from_i32-value external_process_error = (omega arith, refl)
from_i32-value invalid_key = (omega arith, refl)
from_i32-value failed_rollback = (omega arith, refl)
from_i32-value locked_queue = (omega arith, refl)
from_i32-value hook_not_found = (omega arith, refl)
from_i32-value success_key_created = (omega arith, refl)
from_i32-value message_size_error = (omega arith, refl)
