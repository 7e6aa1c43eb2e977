-- ===== src/Client/Request.antt =====
-- What a peer reads from a command of the client: a specification of `into_buf`, `set_payload` and
-- `make_command` of clients/rust/src/lib.rs for all twelve commands at once.
pub mod Built
pub mod Reading
pub mod Delivery
use sysadmin.Base.{ℕ, IsI32, IsU32, Option, none, some, List, All}
use sysadmin.Protobuf.{Protobuf}
use sysadmin.Protobuf.Laws.{IsLawful}
use sysadmin.Ctl.CommitConfig as CtlCommitConfig
use sysadmin.Ctl.ConfigValue
use sysadmin.Ctl.Command as CtlCommand
use sysadmin.Ctl.Command.{Command}
use sysadmin.Client.Net.{Net}
use sysadmin.Client.Session.{make_command}
use sysadmin.Client.Session.Monad.{SysadminClient}
use sysadmin.Client.Payload.{
  set_payload, commit_payload, drop_payload, firehooks_payload, reset_payload, dump_payload,
  inflight_payload, erase_payload, trigger_payload, blame_payload, get_payload, rollback_payload,
}
use sysadmin.Client.Value.Valid.{IsValue}
use sysadmin.Client.Value.RoundTrip.{meaning}
use sysadmin.Client.Commands
use sysadmin.Client.Commands.{
  set_into_buf, commit_into_buf, drop_into_buf, fire_hooks_into_buf, reset_into_buf,
  dump_hooks_into_buf, in_flight_into_buf, erase_key_into_buf, trigger_hook_into_buf,
  blame_into_buf, get_into_buf, rollback_into_buf,
}

-- One of the client's commands.
pub data Request : Type 0 where
  set : Commands.Set → Request
  commit : Commands.Commit → Request
  drop : Commands.Drop → Request
  fire_hooks : Commands.FireHooks → Request
  reset : Commands.Reset → Request
  dump_hooks : Commands.DumpHooks → Request
  in_flight : Commands.InFlight → Request
  erase_key : Commands.EraseKey → Request
  trigger_hook : Commands.TriggerHook → Request
  blame : Commands.Blame → Request
  get : Commands.Get → Request
  rollback : Commands.Rollback → Request

-- The fields of a request are of their Rust types.
module _ ⦃P : Protobuf⦄ (L : IsLawful P) where
  abbrev pub IsRequest : Request → Type 0
  IsRequest (set s) = L.IsUtf8 s.key × IsValue L s.value
  IsRequest (commit c) = Unit
  IsRequest (drop c) = Unit
  IsRequest (fire_hooks c) = Unit
  IsRequest (reset c) = Unit
  IsRequest (dump_hooks c) = Unit
  IsRequest (in_flight c) = Unit
  IsRequest (erase_key c) = L.IsUtf8 c.key
  IsRequest (trigger_hook c) = L.IsUtf8 c.hook
  IsRequest (blame c) = L.IsUtf8 c.key
  IsRequest (get c) = L.IsUtf8 c.key
  IsRequest (rollback c) = IsU32 c.id

module _ ⦃P : Protobuf⦄ ⦃N : Net P⦄ where
  -- The command that `request` builds.
  unfoldable pub to_command : Request → SysadminClient → Command
  unfolding make_command set_payload set_into_buf commit_payload commit_into_buf drop_payload
      drop_into_buf firehooks_payload fire_hooks_into_buf reset_payload reset_into_buf dump_payload
      dump_hooks_into_buf inflight_payload in_flight_into_buf erase_payload erase_key_into_buf
      trigger_payload trigger_hook_into_buf blame_payload blame_into_buf get_payload get_into_buf
      rollback_payload rollback_into_buf
  to_command (set x) c = set_payload (set_into_buf x) (make_command c)
  to_command (commit x) c = commit_payload (commit_into_buf x) (make_command c)
  to_command (drop x) c = drop_payload (drop_into_buf x) (make_command c)
  to_command (fire_hooks x) c = firehooks_payload (fire_hooks_into_buf x) (make_command c)
  to_command (reset x) c = reset_payload (reset_into_buf x) (make_command c)
  to_command (dump_hooks x) c = dump_payload (dump_hooks_into_buf x) (make_command c)
  to_command (in_flight x) c = inflight_payload (in_flight_into_buf x) (make_command c)
  to_command (erase_key x) c = erase_payload (erase_key_into_buf x) (make_command c)
  to_command (trigger_hook x) c = trigger_payload (trigger_hook_into_buf x) (make_command c)
  to_command (blame x) c = blame_payload (blame_into_buf x) (make_command c)
  to_command (get x) c = get_payload (get_into_buf x) (make_command c)
  to_command (rollback x) c = rollback_payload (rollback_into_buf x) (make_command c)

module _ ⦃P : Protobuf⦄ where
  abbrev from_config : CtlCommitConfig.CommitConfig → Commands.CommitConfig
  from_config CtlCommitConfig.default = Commands.default
  from_config CtlCommitConfig.template_only = Commands.template_only
  from_config CtlCommitConfig.no_hooks = Commands.no_hooks

  abbrev read_set : Option (List ℕ) → Option ConfigValue.ConfigValue → Option Request
  read_set (some k) (some v) = elim v.value [
    | some x ↦ some (set (record { key = k; value = meaning x }))
    | none ↦ none
  ]
  read_set _ _ = none

  abbrev with : {A : Type 0} → Option A → (A → Request) → Option Request
  with none f = none
  with (some a) f = some (f a)

  -- The request that a payload stands for, if all that it needs is set.
  unfoldable pub read_payload : CtlCommand.CommandOneofPayload → Option Request
  unfolding meaning
  read_payload (CtlCommand.set v) = read_set v.key v.value
  read_payload (CtlCommand.commit v) = with v.config λ x. commit (record { config = from_config x })
  read_payload (CtlCommand.drop v) = some (drop Commands.drop)
  read_payload (CtlCommand.firehooks v) = some (fire_hooks Commands.fire_hooks)
  read_payload (CtlCommand.reset v) = some (reset Commands.reset)
  read_payload (CtlCommand.dump v) = some (dump_hooks Commands.dump_hooks)
  read_payload (CtlCommand.inflight v) = some (in_flight Commands.in_flight)
  read_payload (CtlCommand.erase v) = with v.key λ x. erase_key (record { key = x })
  read_payload (CtlCommand.trigger v) = with v.hook λ x. trigger_hook (record { hook = x })
  read_payload (CtlCommand.blame v) = with v.key λ x. blame (record { key = x })
  read_payload (CtlCommand.get v) = with v.key λ x. get (record { key = x })
  read_payload (CtlCommand.rollback v) = with v.id λ x. rollback (record { id = x })

  -- The request that a command stands for.
  unfoldable pub read_command : Command → Option Request
  unfolding read_payload
  read_command m = elim m.payload [ some p ↦ read_payload p | none ↦ none ]
