-- ===== src/Client/Payload.antt =====
-- `impl Payload for …` of clients/rust/src/lib.rs.
use sysadmin.Protobuf.{Protobuf}
use sysadmin.Ctl.Command.{Command}
use sysadmin.Ctl.Command.Fields
use sysadmin.Ctl.Set.{Set}
use sysadmin.Ctl.Get.{Get}
use sysadmin.Ctl.Commit.{Commit}
use sysadmin.Ctl.Drop.{Drop}
use sysadmin.Ctl.FireHooks.{FireHooks}
use sysadmin.Ctl.EraseKey.{EraseKey}
use sysadmin.Ctl.Rollback.{Rollback}
use sysadmin.Ctl.Reset.{Reset}
use sysadmin.Ctl.DumpHooks.{DumpHooks}
use sysadmin.Ctl.TriggerHook.{TriggerHook}
use sysadmin.Ctl.Blame.{Blame}
use sysadmin.Ctl.InFlight.{InFlight}

module _ ⦃P : Protobuf⦄ where
  unfoldable pub set_payload : Set → Command → Command
  set_payload msg command = Fields.set_set command msg

  unfoldable pub get_payload : Get → Command → Command
  get_payload msg command = Fields.set_get command msg

  unfoldable pub commit_payload : Commit → Command → Command
  commit_payload msg command = Fields.set_commit command msg

  unfoldable pub drop_payload : Drop → Command → Command
  drop_payload msg command = Fields.set_drop command msg

  unfoldable pub firehooks_payload : FireHooks → Command → Command
  firehooks_payload msg command = Fields.set_firehooks command msg

  unfoldable pub erase_payload : EraseKey → Command → Command
  erase_payload msg command = Fields.set_erase command msg

  unfoldable pub rollback_payload : Rollback → Command → Command
  rollback_payload msg command = Fields.set_rollback command msg

  unfoldable pub reset_payload : Reset → Command → Command
  reset_payload msg command = Fields.set_reset command msg

  unfoldable pub dump_payload : DumpHooks → Command → Command
  dump_payload msg command = Fields.set_dump command msg

  unfoldable pub trigger_payload : TriggerHook → Command → Command
  trigger_payload msg command = Fields.set_trigger command msg

  unfoldable pub blame_payload : Blame → Command → Command
  blame_payload msg command = Fields.set_blame command msg

  unfoldable pub inflight_payload : InFlight → Command → Command
  inflight_payload msg command = Fields.set_inflight command msg
