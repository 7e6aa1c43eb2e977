-- ===== src/Client/Request/Reading.antt =====
-- A peer reads the request back from its command once it has travelled.
use sysadmin.Base.{some, ◌≡◌, refl}
use sysadmin.Protobuf.{Text, Protobuf}
use sysadmin.Protobuf.Laws.{IsLawful}
use sysadmin.Ctl.ConfigValue.Laws as ConfigValueLaws
use sysadmin.Ctl.Int32List.Laws as Int32ListLaws
use sysadmin.Ctl.BoolList.Laws as BoolListLaws
use sysadmin.Ctl.StringList.Laws as StringListLaws
use sysadmin.Ctl.Set as CtlSet
use sysadmin.Ctl.Set.Laws as SetLaws
use sysadmin.Ctl.Commit as CtlCommit
use sysadmin.Ctl.Commit.Laws as CommitLaws
use sysadmin.Ctl.Drop as CtlDrop
use sysadmin.Ctl.Drop.Laws as DropLaws
use sysadmin.Ctl.FireHooks as CtlFireHooks
use sysadmin.Ctl.FireHooks.Laws as FireHooksLaws
use sysadmin.Ctl.Reset as CtlReset
use sysadmin.Ctl.Reset.Laws as ResetLaws
use sysadmin.Ctl.DumpHooks as CtlDumpHooks
use sysadmin.Ctl.DumpHooks.Laws as DumpHooksLaws
use sysadmin.Ctl.InFlight as CtlInFlight
use sysadmin.Ctl.InFlight.Laws as InFlightLaws
use sysadmin.Ctl.EraseKey as CtlEraseKey
use sysadmin.Ctl.EraseKey.Laws as EraseKeyLaws
use sysadmin.Ctl.TriggerHook as CtlTriggerHook
use sysadmin.Ctl.TriggerHook.Laws as TriggerHookLaws
use sysadmin.Ctl.Blame as CtlBlame
use sysadmin.Ctl.Blame.Laws as BlameLaws
use sysadmin.Ctl.Get as CtlGet
use sysadmin.Ctl.Get.Laws as GetLaws
use sysadmin.Ctl.Rollback as CtlRollback
use sysadmin.Ctl.Rollback.Laws as RollbackLaws
use sysadmin.Ctl.Command as CtlCommand
use sysadmin.Ctl.Command.Fields as CommandFields
use sysadmin.Ctl.Command.Laws as CommandLaws
use sysadmin.Wire.{opt_initialized}
use sysadmin.Client.Net.{Net}
use sysadmin.Client.Session.Monad.{SysadminClient}
use sysadmin.Client.Value
use sysadmin.Client.Value.{SysadminValue, to_config_value}
use sysadmin.Client.Commands
use sysadmin.Client.Request.{
  Request, to_command, read_command, set, commit, drop, fire_hooks, reset, dump_hooks, in_flight,
  erase_key, trigger_hook, blame, get, rollback,
}

module _ ⦃P : Protobuf⦄ ⦃N : Net P⦄ where
  module _ (L : IsLawful P) where
    read_set-fresh :
        (k : Text) (v : SysadminValue) (c : SysadminClient)
        → read_command (CommandLaws.fresh L (to_command (set (record { key = k; value = v })) c))
          ≡ some (set (record { key = k; value = v }))
    unfolding to_command read_command to_config_value CtlSet.new CtlSet.is_initialized
        CommandFields.set_set CtlCommit.new CtlCommit.is_initialized CommandFields.set_commit
        CtlDrop.new CtlDrop.is_initialized CommandFields.set_drop CtlFireHooks.new
        CtlFireHooks.is_initialized CommandFields.set_firehooks CtlReset.new CtlReset.is_initialized
        CommandFields.set_reset CtlDumpHooks.new CtlDumpHooks.is_initialized CommandFields.set_dump
        CtlInFlight.new CtlInFlight.is_initialized CommandFields.set_inflight CtlEraseKey.new
        CtlEraseKey.is_initialized CommandFields.set_erase CtlTriggerHook.new
        CtlTriggerHook.is_initialized CommandFields.set_trigger CtlBlame.new CtlBlame.is_initialized
        CommandFields.set_blame CtlGet.new CtlGet.is_initialized CommandFields.set_get
        CtlRollback.new CtlRollback.is_initialized CommandFields.set_rollback CtlSet.set_key
        CtlSet.set_value CtlCommit.set_config CtlEraseKey.set_key CtlTriggerHook.set_hook
        CtlBlame.set_key CtlGet.set_key CtlRollback.set_id CtlCommand.new CommandFields.set_id
        CommandFields.set_xid opt_initialized CommandLaws.fresh SetLaws.codec ConfigValueLaws.codec
        Int32ListLaws.codec BoolListLaws.codec StringListLaws.codec
    read_set-fresh k (Value.int32 x) c = refl
    read_set-fresh k (Value.strval x) c = refl
    read_set-fresh k (Value.bool x) c = refl
    read_set-fresh k (Value.int32_list x) c = refl
    read_set-fresh k (Value.bool_list x) c = refl
    read_set-fresh k (Value.strval_list x) c = refl

    read_commit-fresh :
        (x : Commands.CommitConfig) (c : SysadminClient)
        → read_command (CommandLaws.fresh L (to_command (commit (record { config = x })) c))
          ≡ some (commit (record { config = x }))
    unfolding to_command read_command CtlSet.new CtlSet.is_initialized CommandFields.set_set
        CtlCommit.new CtlCommit.is_initialized CommandFields.set_commit CtlDrop.new
        CtlDrop.is_initialized CommandFields.set_drop CtlFireHooks.new CtlFireHooks.is_initialized
        CommandFields.set_firehooks CtlReset.new CtlReset.is_initialized CommandFields.set_reset
        CtlDumpHooks.new CtlDumpHooks.is_initialized CommandFields.set_dump CtlInFlight.new
        CtlInFlight.is_initialized CommandFields.set_inflight CtlEraseKey.new
        CtlEraseKey.is_initialized CommandFields.set_erase CtlTriggerHook.new
        CtlTriggerHook.is_initialized CommandFields.set_trigger CtlBlame.new CtlBlame.is_initialized
        CommandFields.set_blame CtlGet.new CtlGet.is_initialized CommandFields.set_get
        CtlRollback.new CtlRollback.is_initialized CommandFields.set_rollback CtlSet.set_key
        CtlSet.set_value CtlCommit.set_config CtlEraseKey.set_key CtlTriggerHook.set_hook
        CtlBlame.set_key CtlGet.set_key CtlRollback.set_id CtlCommand.new CommandFields.set_id
        CommandFields.set_xid opt_initialized CommandLaws.fresh CommitLaws.codec
    read_commit-fresh Commands.default c = refl
    read_commit-fresh Commands.template_only c = refl
    read_commit-fresh Commands.no_hooks c = refl

    pub read_command-fresh :
        (r : Request) (c : SysadminClient)
        → read_command (CommandLaws.fresh L (to_command r c)) ≡ some r
    unfolding to_command read_command CtlSet.new CtlSet.is_initialized CommandFields.set_set
        CtlCommit.new CtlCommit.is_initialized CommandFields.set_commit CtlDrop.new
        CtlDrop.is_initialized CommandFields.set_drop CtlFireHooks.new CtlFireHooks.is_initialized
        CommandFields.set_firehooks CtlReset.new CtlReset.is_initialized CommandFields.set_reset
        CtlDumpHooks.new CtlDumpHooks.is_initialized CommandFields.set_dump CtlInFlight.new
        CtlInFlight.is_initialized CommandFields.set_inflight CtlEraseKey.new
        CtlEraseKey.is_initialized CommandFields.set_erase CtlTriggerHook.new
        CtlTriggerHook.is_initialized CommandFields.set_trigger CtlBlame.new CtlBlame.is_initialized
        CommandFields.set_blame CtlGet.new CtlGet.is_initialized CommandFields.set_get
        CtlRollback.new CtlRollback.is_initialized CommandFields.set_rollback CtlSet.set_key
        CtlSet.set_value CtlCommit.set_config CtlEraseKey.set_key CtlTriggerHook.set_hook
        CtlBlame.set_key CtlGet.set_key CtlRollback.set_id CtlCommand.new CommandFields.set_id
        CommandFields.set_xid opt_initialized CommandLaws.fresh SetLaws.codec CommitLaws.codec
        DropLaws.codec FireHooksLaws.codec ResetLaws.codec DumpHooksLaws.codec InFlightLaws.codec
        EraseKeyLaws.codec TriggerHookLaws.codec BlameLaws.codec GetLaws.codec RollbackLaws.codec
    read_command-fresh (set x) c = read_set-fresh x.key x.value c
    read_command-fresh (commit x) c = read_commit-fresh x.config c
    read_command-fresh (drop Commands.drop) c = refl
    read_command-fresh (fire_hooks Commands.fire_hooks) c = refl
    read_command-fresh (reset Commands.reset) c = refl
    read_command-fresh (dump_hooks Commands.dump_hooks) c = refl
    read_command-fresh (in_flight Commands.in_flight) c = refl
    read_command-fresh (erase_key x) c = refl
    read_command-fresh (trigger_hook x) c = refl
    read_command-fresh (blame x) c = refl
    read_command-fresh (get x) c = refl
    read_command-fresh (rollback x) c = refl

    -- The fields that `make_command` fills survive the encoding.
    pub ids-fresh :
        (r : Request) (c : SysadminClient)
        → ((CommandLaws.fresh L (to_command r c)).id ≡ some c.id)
          × ((CommandLaws.fresh L (to_command r c)).xid ≡ some c.xid)
    unfolding to_command CtlSet.new CtlSet.is_initialized CommandFields.set_set CtlCommit.new
        CtlCommit.is_initialized CommandFields.set_commit CtlDrop.new CtlDrop.is_initialized
        CommandFields.set_drop CtlFireHooks.new CtlFireHooks.is_initialized
        CommandFields.set_firehooks CtlReset.new CtlReset.is_initialized CommandFields.set_reset
        CtlDumpHooks.new CtlDumpHooks.is_initialized CommandFields.set_dump CtlInFlight.new
        CtlInFlight.is_initialized CommandFields.set_inflight CtlEraseKey.new
        CtlEraseKey.is_initialized CommandFields.set_erase CtlTriggerHook.new
        CtlTriggerHook.is_initialized CommandFields.set_trigger CtlBlame.new CtlBlame.is_initialized
        CommandFields.set_blame CtlGet.new CtlGet.is_initialized CommandFields.set_get
        CtlRollback.new CtlRollback.is_initialized CommandFields.set_rollback CtlSet.set_key
        CtlSet.set_value CtlCommit.set_config CtlEraseKey.set_key CtlTriggerHook.set_hook
        CtlBlame.set_key CtlGet.set_key CtlRollback.set_id CtlCommand.new CommandFields.set_id
        CommandFields.set_xid opt_initialized CommandLaws.fresh
    ids-fresh (set x) c = (refl, refl)
    ids-fresh (commit x) c = (refl, refl)
    ids-fresh (drop x) c = (refl, refl)
    ids-fresh (fire_hooks x) c = (refl, refl)
    ids-fresh (reset x) c = (refl, refl)
    ids-fresh (dump_hooks x) c = (refl, refl)
    ids-fresh (in_flight x) c = (refl, refl)
    ids-fresh (erase_key x) c = (refl, refl)
    ids-fresh (trigger_hook x) c = (refl, refl)
    ids-fresh (blame x) c = (refl, refl)
    ids-fresh (get x) c = (refl, refl)
    ids-fresh (rollback x) c = (refl, refl)
