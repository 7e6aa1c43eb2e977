-- ===== src/Client/Responses/Reply.antt =====
-- The response that a peer builds for a client: a specification of what the conversions of
-- clients/rust/src/lib.rs should read back.
use sysadmin.Base.{ℕ, Option, none, some, map}
use sysadmin.Protobuf.{Text, Protobuf}
use sysadmin.Ctl.MappedField
use sysadmin.Ctl.GetResponse as CtlGetResponse
use sysadmin.Ctl.CommitResponse as CtlCommitResponse
use sysadmin.Ctl.ResetResponse as CtlResetResponse
use sysadmin.Ctl.DumpResponse as CtlDumpResponse
use sysadmin.Ctl.BlameEntry as CtlBlameEntry
use sysadmin.Ctl.BlameResponse as CtlBlameResponse
use sysadmin.Ctl.InFlightResponse as CtlInFlightResponse
use sysadmin.Ctl.Response
use sysadmin.Ctl.Response.Fields
use sysadmin.Client.Status.{StatusCode, to_ctl}
use sysadmin.Client.Value.{to_config_value}
use sysadmin.Client.Responses.{
  Kvs, BlameEntry, GetResponse, CommitResponse, ResetResponse, DumpResponse, BlameResponse,
  InFlightResponse, GenericResponse,
}

-- What a conversion gives. A blamed key is not part of the client's response.
pub data Reply : Type 0 where
  get : GetResponse → Reply
  commit : CommitResponse → Reply
  reset : ResetResponse → Reply
  dump : DumpResponse → Reply
  blame : Text → BlameResponse → Reply
  generic : GenericResponse → Reply

module _ ⦃P : Protobuf⦄ where
  unfoldable pub to_mapped_field : Kvs → MappedField.MappedField
  to_mapped_field k = elim k.value [
    | none ↦ MappedField.set_key MappedField.new k.key
    | some v ↦ MappedField.set_value (MappedField.set_key MappedField.new k.key) (to_config_value v)
  ]

  unfoldable pub to_blame_entry : BlameEntry → CtlBlameEntry.BlameEntry
  to_blame_entry e =
      CtlBlameEntry.set_val
        (CtlBlameEntry.set_commit_time (CtlBlameEntry.set_commit_id CtlBlameEntry.new e.commit_id)
          e.commit_time)
        (to_config_value e.val)

  -- A response with its identifier and its status.
  abbrev pub respond : ℕ → StatusCode → Response.Response
  respond id status = Fields.set_status (Fields.set_id Response.new id) (to_ctl status)

  abbrev pub to_commit : Option ℕ → CtlCommitResponse.CommitResponse
  to_commit none = CtlCommitResponse.new
  to_commit (some n) = CtlCommitResponse.set_commit_id CtlCommitResponse.new n

  unfoldable pub to_response : Reply → Response.Response
  unfolding to_mapped_field to_blame_entry
  to_response (get r) =
      Fields.set_get (respond r.id r.status)
        (CtlGetResponse.set_kvs CtlGetResponse.new (map to_mapped_field r.kvs))
  to_response (commit r) = Fields.set_commit (respond r.id r.status) (to_commit r.commit_id)
  to_response (reset r) =
      Fields.set_reset (respond r.id r.status)
        (CtlResetResponse.set_commit_id CtlResetResponse.new r.commit_id)
  to_response (dump r) = Fields.set_dump (respond r.id r.status) (
      CtlDumpResponse.set_servicehooks
        (CtlDumpResponse.set_templatehooks CtlDumpResponse.new r.templatehooks) r.servicehooks)
  to_response (blame key r) = Fields.set_blame (respond r.id r.status) (
      CtlBlameResponse.set_entries (CtlBlameResponse.set_key CtlBlameResponse.new key)
        (map to_blame_entry r.entries))
  to_response (generic r) = respond r.id r.status

  -- The reply of the server to `InFlight`, whose member of the `oneof` is its own.
  unfoldable pub in_flight_reply : InFlightResponse → Response.Response
  unfolding to_mapped_field
  in_flight_reply r =
      Fields.set_inflight (respond r.id r.status)
        (CtlInFlightResponse.set_kvs CtlInFlightResponse.new (map to_mapped_field r.kvs))
