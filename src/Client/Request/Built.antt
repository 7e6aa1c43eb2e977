-- ===== src/Client/Request/Built.antt =====
-- The command of a request is complete and well formed, and a peer reads the request back from it.
use sysadmin.Base.{IsU32, true, ◌≡◌, refl}
use sysadmin.Protobuf.{Protobuf}
use sysadmin.Protobuf.Laws.{IsLawful}
use sysadmin.Ctl.ConfigValue
use sysadmin.Ctl.ConfigValue.Laws as ConfigValueLaws
use sysadmin.Ctl.Set as CtlSet
use sysadmin.Ctl.Set.Laws as SetLaws
use sysadmin.Ctl.Commit as CtlCommit
use sysadmin.Ctl.Commit.Laws as CommitLaws
use sysadmin.Ctl.Drop as CtlDrop
use sysadmin.Ctl.Drop.Laws as DropLaws
use sysadmin.Ctl.FireHooks as CtlFireHooks
use sysadmin.Ctl.FireHooks.Laws as FireHooksLaws
use sysadmin.Ctl.Reset as CtlReset
use sysadmin.Ctl.Reset.Laws as ResetLaws
use sysadmin.Ctl.DumpHooks as CtlDumpHooks
use sysadmin.Ctl.DumpHooks.Laws as DumpHooksLaws
use sysadmin.Ctl.InFlight as CtlInFlight
use sysadmin.Ctl.InFlight.Laws as InFlightLaws
use sysadmin.Ctl.EraseKey as CtlEraseKey
use sysadmin.Ctl.EraseKey.Laws as EraseKeyLaws
use sysadmin.Ctl.TriggerHook as CtlTriggerHook
use sysadmin.Ctl.TriggerHook.Laws as TriggerHookLaws
use sysadmin.Ctl.Blame as CtlBlame
use sysadmin.Ctl.Blame.Laws as BlameLaws
use sysadmin.Ctl.Get as CtlGet
use sysadmin.Ctl.Get.Laws as GetLaws
use sysadmin.Ctl.Rollback as CtlRollback
use sysadmin.Ctl.Rollback.Laws as RollbackLaws
use sysadmin.Ctl.Command as CtlCommand
use sysadmin.Ctl.Command.Fields as CommandFields
use sysadmin.Ctl.Command.Laws as CommandLaws
use sysadmin.Wire.{opt_initialized}
use sysadmin.Client.Net.{Net}
use sysadmin.Client.Session.Monad.{SysadminClient}
use sysadmin.Client.Value.{to_config_value}
use sysadmin.Client.Value.Valid.{to_config_value-initialized, to_config_value-IsValid}
use sysadmin.Client.Request.{
  Request, IsRequest, to_command, set, commit, drop, fire_hooks, reset, dump_hooks, in_flight,
  erase_key, trigger_hook, blame, get, rollback,
}

module _ ⦃P : Protobuf⦄ ⦃N : Net P⦄ where
  -- The command of every request has all its required fields.
  pub to_command-initialized :
      (r : Request) (c : SysadminClient) → CtlCommand.is_initialized (to_command r c) ≡ true
  unfolding to_command CtlCommand.is_initialized ConfigValue.is_initialized CtlSet.new
      CtlSet.is_initialized CommandFields.set_set CtlCommit.new CtlCommit.is_initialized
      CommandFields.set_commit CtlDrop.new CtlDrop.is_initialized CommandFields.set_drop
      CtlFireHooks.new CtlFireHooks.is_initialized CommandFields.set_firehooks CtlReset.new
      CtlReset.is_initialized CommandFields.set_reset CtlDumpHooks.new CtlDumpHooks.is_initialized
      CommandFields.set_dump CtlInFlight.new CtlInFlight.is_initialized CommandFields.set_inflight
      CtlEraseKey.new CtlEraseKey.is_initialized CommandFields.set_erase CtlTriggerHook.new
      CtlTriggerHook.is_initialized CommandFields.set_trigger CtlBlame.new CtlBlame.is_initialized
      CommandFields.set_blame CtlGet.new CtlGet.is_initialized CommandFields.set_get CtlRollback.new
      CtlRollback.is_initialized CommandFields.set_rollback CtlSet.set_key CtlSet.set_value
      CtlCommit.set_config CtlEraseKey.set_key CtlTriggerHook.set_hook CtlBlame.set_key
      CtlGet.set_key CtlRollback.set_id CtlCommand.new CommandFields.set_id CommandFields.set_xid
      opt_initialized
  to_command-initialized (set x) c = to_config_value-initialized x.value
  to_command-initialized (commit x) c = refl
  to_command-initialized (drop x) c = refl
  to_command-initialized (fire_hooks x) c = refl
  to_command-initialized (reset x) c = refl
  to_command-initialized (dump_hooks x) c = refl
  to_command-initialized (in_flight x) c = refl
  to_command-initialized (erase_key x) c = refl
  to_command-initialized (trigger_hook x) c = refl
  to_command-initialized (blame x) c = refl
  to_command-initialized (get x) c = refl
  to_command-initialized (rollback x) c = refl

  module _ (L : IsLawful P) where
    pub to_command-IsValid :
        (r : Request) (c : SysadminClient)
        → IsRequest L r
        → IsU32 c.id
        → IsU32 c.xid
        → CommandLaws.IsValid L (to_command r c)
    unfolding to_command to_config_value CtlSet.new CtlSet.is_initialized CommandFields.set_set
        CtlCommit.new CtlCommit.is_initialized CommandFields.set_commit CtlDrop.new
        CtlDrop.is_initialized CommandFields.set_drop CtlFireHooks.new CtlFireHooks.is_initialized
        CommandFields.set_firehooks CtlReset.new CtlReset.is_initialized CommandFields.set_reset
        CtlDumpHooks.new CtlDumpHooks.is_initialized CommandFields.set_dump CtlInFlight.new
        CtlInFlight.is_initialized CommandFields.set_inflight CtlEraseKey.new
        CtlEraseKey.is_initialized CommandFields.set_erase CtlTriggerHook.new
        CtlTriggerHook.is_initialized CommandFields.set_trigger CtlBlame.new CtlBlame.is_initialized
        CommandFields.set_blame CtlGet.new CtlGet.is_initialized CommandFields.set_get
        CtlRollback.new CtlRollback.is_initialized CommandFields.set_rollback CtlSet.set_key
        CtlSet.set_value CtlCommit.set_config CtlEraseKey.set_key CtlTriggerHook.set_hook
        CtlBlame.set_key CtlGet.set_key CtlRollback.set_id CtlCommand.new CommandFields.set_id
        CommandFields.set_xid opt_initialized SetLaws.codec CommitLaws.codec DropLaws.codec
        FireHooksLaws.codec ResetLaws.codec DumpHooksLaws.codec InFlightLaws.codec
        EraseKeyLaws.codec TriggerHookLaws.codec BlameLaws.codec GetLaws.codec RollbackLaws.codec
        ConfigValueLaws.codec
    to_command-IsValid (set x) c h i j = record {
      valid_id = i;
      valid_xid = j;
      valid_payload = (
        record {
          valid_key = h.0;
          valid_value = to_config_value-IsValid L x.value h.1;
          no_unknown = refl;
        },
        to_config_value-initialized x.value,
      );
      no_unknown = refl;
    }
    to_command-IsValid (commit x) c h i j = record {
      valid_id = i;
      valid_xid = j;
      valid_payload = (record { no_unknown = refl }, refl);
      no_unknown = refl;
    }
    to_command-IsValid (drop x) c h i j = record {
      valid_id = i;
      valid_xid = j;
      valid_payload = (record { no_unknown = refl }, refl);
      no_unknown = refl;
    }
    to_command-IsValid (fire_hooks x) c h i j = record {
      valid_id = i;
      valid_xid = j;
      valid_payload = (record { no_unknown = refl }, refl);
      no_unknown = refl;
    }
    to_command-IsValid (reset x) c h i j = record {
      valid_id = i;
      valid_xid = j;
      valid_payload = (record { no_unknown = refl }, refl);
      no_unknown = refl;
    }
    to_command-IsValid (dump_hooks x) c h i j = record {
      valid_id = i;
      valid_xid = j;
      valid_payload = (record { no_unknown = refl }, refl);
      no_unknown = refl;
    }
    to_command-IsValid (in_flight x) c h i j = record {
      valid_id = i;
      valid_xid = j;
      valid_payload = (record { no_unknown = refl }, refl);
      no_unknown = refl;
    }
    to_command-IsValid (erase_key x) c h i j = record {
      valid_id = i;
      valid_xid = j;
      valid_payload = (record { valid_key = h; no_unknown = refl }, refl);
      no_unknown = refl;
    }
    to_command-IsValid (trigger_hook x) c h i j = record {
      valid_id = i;
      valid_xid = j;
      valid_payload = (record { valid_hook = h; no_unknown = refl }, refl);
      no_unknown = refl;
    }
    to_command-IsValid (blame x) c h i j = record {
      valid_id = i;
      valid_xid = j;
      valid_payload = (record { valid_key = h; no_unknown = refl }, refl);
      no_unknown = refl;
    }
    to_command-IsValid (get x) c h i j = record {
      valid_id = i;
      valid_xid = j;
      valid_payload = (record { valid_key = h; no_unknown = refl }, refl);
      no_unknown = refl;
    }
    to_command-IsValid (rollback x) c h i j = record {
      valid_id = i;
      valid_xid = j;
      valid_payload = (record { valid_id = h; no_unknown = refl }, refl);
      no_unknown = refl;
    }
