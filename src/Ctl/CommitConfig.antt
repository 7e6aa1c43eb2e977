-- ===== src/Ctl/CommitConfig.antt =====
-- The enum `CommitConfig`: clients/rust/src/sysadminctl.rs, lines 6649 to 6664.
use sysadmin.Base.{ℤ, pos, negsuc, IsI32, Option, none, some, ◌≡◌, refl, arith, ◌==◌, if◌then◌else◌}

pub data CommitConfig : Type 0 where
  default template_only no_hooks : CommitConfig

unfoldable pub value : CommitConfig → ℤ
value default = pos 0
value template_only = pos 1
value no_hooks = pos 3

unfoldable pub from_i32 : ℤ → Option CommitConfig
from_i32 (pos n) =
    if n == 0
    then some default
    else if n == 1
    then some template_only
    else if n == 3
    then some no_hooks
    else none
from_i32 (negsuc n) = none

-- A value is an `i32`, and it is read back.
pub from_i32-value : (c : CommitConfig) → IsI32 (value c) × (from_i32 (value c) ≡ some c)
unfolding value from_i32
from_i32-value default = (omega arith, refl)
from_i32-value template_only = (omega arith, refl)
from_i32-value no_hooks = (omega arith, refl)
