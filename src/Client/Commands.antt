-- ===== src/Client/Commands.antt =====
-- The commands of clients/rust/src/lib.rs: the structs, their `into_buf` and their `send_command`. The
-- two macros are written out for each command.
use sysadmin.Base.{ℕ, Result}
use sysadmin.Protobuf.{Text, Protobuf}
use sysadmin.Ctl.CommitConfig as CtlCommitConfig
use sysadmin.Ctl.Command as CtlCommand
use sysadmin.Ctl.Response.{Response}
use sysadmin.Ctl.Set as CtlSet
use sysadmin.Ctl.Commit as CtlCommit
use sysadmin.Ctl.Drop as CtlDrop
use sysadmin.Ctl.FireHooks as CtlFireHooks
use sysadmin.Ctl.Reset as CtlReset
use sysadmin.Ctl.DumpHooks as CtlDumpHooks
use sysadmin.Ctl.InFlight as CtlInFlight
use sysadmin.Ctl.EraseKey as CtlEraseKey
use sysadmin.Ctl.TriggerHook as CtlTriggerHook
use sysadmin.Ctl.Blame as CtlBlame
use sysadmin.Ctl.Get as CtlGet
use sysadmin.Ctl.Rollback as CtlRollback
use sysadmin.Client.Net.{Net}
use sysadmin.Client.Payload.{
  set_payload, commit_payload, drop_payload, firehooks_payload, reset_payload, dump_payload,
  inflight_payload, erase_payload, trigger_payload, blame_payload, get_payload, rollback_payload,
}
use sysadmin.Client.Responses.{
  GetResponse, CommitResponse, ResetResponse, DumpResponse, BlameResponse, InFlightResponse,
  GenericResponse, get_response_from, commit_response_from, reset_response_from, dump_response_from,
  blame_response_from, in_flight_response_from, generic_response_from,
}
use sysadmin.Client.Session.{request}
use sysadmin.Client.Session.Monad.{SysadminError, M, lift, ◌>>=◌}
use sysadmin.Client.Value.{SysadminValue, to_config_value}

pub record Set : Type 0 where
  pub key : Text
  pub value : SysadminValue

pub data CommitConfig : Type 0 where
  default template_only no_hooks : CommitConfig

-- `impl From<CommitConfig> for sysadminctl::CommitConfig`
unfoldable pub to_ctl : CommitConfig → CtlCommitConfig.CommitConfig
to_ctl default = CtlCommitConfig.default
to_ctl template_only = CtlCommitConfig.template_only
to_ctl no_hooks = CtlCommitConfig.no_hooks

pub record Commit : Type 0 where
  pub config : CommitConfig

pub data Drop : Type 0 where
  drop : Drop

pub data FireHooks : Type 0 where
  fire_hooks : FireHooks

pub data Reset : Type 0 where
  reset : Reset

pub data DumpHooks : Type 0 where
  dump_hooks : DumpHooks

pub data InFlight : Type 0 where
  in_flight : InFlight

pub record EraseKey : Type 0 where
  pub key : Text

pub record TriggerHook : Type 0 where
  pub hook : Text

pub record Blame : Type 0 where
  pub key : Text

pub record Get : Type 0 where
  pub key : Text

pub record Rollback : Type 0 where
  pub id : ℕ

module _ ⦃P : Protobuf⦄ where
  unfoldable pub set_into_buf : Set → CtlSet.Set
  set_into_buf s = CtlSet.set_value (CtlSet.set_key CtlSet.new s.key) (to_config_value s.value)

  unfoldable pub commit_into_buf : Commit → CtlCommit.Commit
  unfolding to_ctl
  commit_into_buf c = CtlCommit.set_config CtlCommit.new (to_ctl c.config)

  unfoldable pub drop_into_buf : Drop → CtlDrop.Drop
  drop_into_buf c = CtlDrop.new

  unfoldable pub fire_hooks_into_buf : FireHooks → CtlFireHooks.FireHooks
  fire_hooks_into_buf c = CtlFireHooks.new

  unfoldable pub reset_into_buf : Reset → CtlReset.Reset
  reset_into_buf c = CtlReset.new

  unfoldable pub dump_hooks_into_buf : DumpHooks → CtlDumpHooks.DumpHooks
  dump_hooks_into_buf c = CtlDumpHooks.new

  unfoldable pub in_flight_into_buf : InFlight → CtlInFlight.InFlight
  in_flight_into_buf c = CtlInFlight.new

  unfoldable pub erase_key_into_buf : EraseKey → CtlEraseKey.EraseKey
  erase_key_into_buf c = CtlEraseKey.set_key CtlEraseKey.new c.key

  unfoldable pub trigger_hook_into_buf : TriggerHook → CtlTriggerHook.TriggerHook
  trigger_hook_into_buf c = CtlTriggerHook.set_hook CtlTriggerHook.new c.hook

  unfoldable pub blame_into_buf : Blame → CtlBlame.Blame
  blame_into_buf c = CtlBlame.set_key CtlBlame.new c.key

  unfoldable pub get_into_buf : Get → CtlGet.Get
  get_into_buf c = CtlGet.set_key CtlGet.new c.key

  unfoldable pub rollback_into_buf : Rollback → CtlRollback.Rollback
  rollback_into_buf c = CtlRollback.set_id CtlRollback.new c.id

module _ ⦃P : Protobuf⦄ ⦃N : Net P⦄ where
  -- `let resp = client.request(self.into_buf())?; Ok(resp.into())`
  unfoldable pub request_into :
      {B R : Type 0}
      → (B → CtlCommand.Command → CtlCommand.Command)
      → (Response → Result SysadminError R)
      → B
      → M R
  unfolding request
  request_into payload into buf = do resp ← request payload buf; lift (λ e. e) (into resp)

  unfoldable pub send_set : Set → M GenericResponse
  unfolding request_into set_into_buf
  send_set s = request_into set_payload generic_response_from (set_into_buf s)

  unfoldable pub send_commit : Commit → M CommitResponse
  unfolding request_into commit_into_buf
  send_commit c = request_into commit_payload commit_response_from (commit_into_buf c)

  unfoldable pub send_drop : Drop → M GenericResponse
  unfolding request_into drop_into_buf
  send_drop c = request_into drop_payload generic_response_from (drop_into_buf c)

  unfoldable pub send_fire_hooks : FireHooks → M GenericResponse
  unfolding request_into fire_hooks_into_buf
  send_fire_hooks c = request_into firehooks_payload generic_response_from (fire_hooks_into_buf c)

  unfoldable pub send_reset : Reset → M ResetResponse
  unfolding request_into reset_into_buf
  send_reset c = request_into reset_payload reset_response_from (reset_into_buf c)

  unfoldable pub send_dump_hooks : DumpHooks → M DumpResponse
  unfolding request_into dump_hooks_into_buf
  send_dump_hooks c = request_into dump_payload dump_response_from (dump_hooks_into_buf c)

  unfoldable pub send_in_flight : InFlight → M InFlightResponse
  unfolding request_into in_flight_into_buf
  send_in_flight c = request_into inflight_payload in_flight_response_from (in_flight_into_buf c)

  unfoldable pub send_erase_key : EraseKey → M GenericResponse
  unfolding request_into erase_key_into_buf
  send_erase_key c = request_into erase_payload generic_response_from (erase_key_into_buf c)

  unfoldable pub send_trigger_hook : TriggerHook → M GenericResponse
  unfolding request_into trigger_hook_into_buf
  send_trigger_hook c = request_into trigger_payload generic_response_from (trigger_hook_into_buf c)

  unfoldable pub send_blame : Blame → M BlameResponse
  unfolding request_into blame_into_buf
  send_blame c = request_into blame_payload blame_response_from (blame_into_buf c)

  unfoldable pub send_get : Get → M GetResponse
  unfolding request_into get_into_buf
  send_get c = request_into get_payload get_response_from (get_into_buf c)

  unfoldable pub send_rollback : Rollback → M GenericResponse
  unfolding request_into rollback_into_buf
  send_rollback c = request_into rollback_payload generic_response_from (rollback_into_buf c)
