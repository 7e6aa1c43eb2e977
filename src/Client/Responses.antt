-- ===== src/Client/Responses.antt =====
-- The responses of clients/rust/src/lib.rs and their conversions from `sysadminctl::Response`. A value
-- that is not set makes the conversion panic.
pub mod Faithful
pub mod Panics
pub mod Receipt
pub mod Reply
pub mod Sound
use sysadmin.Base.{
  ℕ, Bool, true, false, Option, none, some, List, [], ◌∷◌, Result, ok, ◌>>=◌, if◌then◌else◌,
}
use sysadmin.Protobuf.{Text, Protobuf}
use sysadmin.Ctl.MappedField
use sysadmin.Ctl.MappedField.{MappedField}
use sysadmin.Ctl.GetResponse as CtlGetResponse
use sysadmin.Ctl.CommitResponse as CtlCommitResponse
use sysadmin.Ctl.ResetResponse as CtlResetResponse
use sysadmin.Ctl.DumpResponse as CtlDumpResponse
use sysadmin.Ctl.BlameEntry as CtlBlameEntry
use sysadmin.Ctl.BlameResponse as CtlBlameResponse
use sysadmin.Ctl.Response.{Response}
use sysadmin.Ctl.Response.Fields
use sysadmin.Client.Status.{StatusCode, from_ctl}
use sysadmin.Client.Value.{SysadminValue, from_config_value}

-- `struct kvs`
pub record Kvs : Type 0 where
  pub key : Text
  pub value : Option SysadminValue

pub record GetResponse : Type 0 where
  pub id : ℕ
  pub status : StatusCode
  pub kvs : List Kvs

pub record CommitResponse : Type 0 where
  pub id : ℕ
  pub status : StatusCode
  pub commit_id : Option ℕ

pub record ResetResponse : Type 0 where
  pub id : ℕ
  pub status : StatusCode
  pub commit_id : ℕ

pub record DumpResponse : Type 0 where
  pub id : ℕ
  pub status : StatusCode
  pub templatehooks : List Text
  pub servicehooks : List Text

pub record BlameEntry : Type 0 where
  pub commit_id : ℕ
  pub commit_time : Text
  pub val : SysadminValue

pub record BlameResponse : Type 0 where
  pub id : ℕ
  pub status : StatusCode
  pub entries : List BlameEntry

pub record InFlightResponse : Type 0 where
  pub id : ℕ
  pub status : StatusCode
  pub kvs : List Kvs

pub record GenericResponse : Type 0 where
  pub id : ℕ
  pub status : StatusCode

-- The elements in their order, up to the first one whose conversion fails.
unfoldable pub convert_all {ℓ} :
    {E A : Type 0} {B : Type ℓ} → (A → Result E B) → List A → Result E (List B)
convert_all f [] = ok []
convert_all f (a ∷ as') = do b ← f a; bs ← convert_all f as'; ok (b ∷ bs)

module _ ⦃P : Protobuf⦄ {E : Type 0} where
  -- `impl From<sysadminctl::MappedField> for kvs`
  unfoldable pub kvs_from : MappedField → Result E Kvs
  unfolding MappedField.has_value MappedField.take_value MappedField.take_key
  kvs_from m =
      if MappedField.has_value m
      then (do
        let (cv, m') = MappedField.take_value m
        value ← from_config_value cv
        ok (record { key = (MappedField.take_key m').0; value = some value }))
      else ok (record { key = (MappedField.take_key m).0; value = none })

  unfoldable pub get_response_from : Response → Result E GetResponse
  unfolding convert_all kvs_from Fields.take_get CtlGetResponse.take_kvs Fields.get_id
      Fields.get_status from_ctl CtlGetResponse.new
  get_response_from r = do
    let (get_resp, r') = Fields.take_get r
    kvs_vec ← convert_all kvs_from (CtlGetResponse.take_kvs get_resp).0
    ok (record { id = Fields.get_id r'; status = from_ctl (Fields.get_status r'); kvs = kvs_vec })

  unfoldable pub commit_response_from : Response → Result E CommitResponse
  unfolding Fields.get_commit CtlCommitResponse.has_commit_id CtlCommitResponse.get_commit_id
      Fields.get_id Fields.get_status from_ctl CtlCommitResponse.new
  commit_response_from response =
      let commit_resp = Fields.get_commit response in
      let cid : Option ℕ =
        if CtlCommitResponse.has_commit_id commit_resp
        then some (CtlCommitResponse.get_commit_id commit_resp)
        else none in
      ok (record {
        id = Fields.get_id response;
        status = from_ctl (Fields.get_status response);
        commit_id = cid;
      })

  unfoldable pub reset_response_from : Response → Result E ResetResponse
  unfolding Fields.take_reset CtlResetResponse.get_commit_id Fields.get_id Fields.get_status
      from_ctl CtlResetResponse.new
  reset_response_from r =
      let (reset_response, r') = Fields.take_reset r in
      ok (record {
        id = Fields.get_id r';
        status = from_ctl (Fields.get_status r');
        commit_id = CtlResetResponse.get_commit_id reset_response;
      })

  unfoldable pub dump_response_from : Response → Result E DumpResponse
  unfolding Fields.take_dump CtlDumpResponse.take_templatehooks CtlDumpResponse.take_servicehooks
      Fields.get_id Fields.get_status from_ctl CtlDumpResponse.new
  dump_response_from r =
      let (dump_response, r') = Fields.take_dump r in
      let (tmpl_vec, dump_response') = CtlDumpResponse.take_templatehooks dump_response in
      let (serv_vec, dump_response'') = CtlDumpResponse.take_servicehooks dump_response' in
      ok (record {
        id = Fields.get_id r';
        status = from_ctl (Fields.get_status r');
        templatehooks = tmpl_vec;
        servicehooks = serv_vec;
      })

  unfoldable pub blame_entry_from : CtlBlameEntry.BlameEntry → Result E BlameEntry
  unfolding CtlBlameEntry.take_commit_time CtlBlameEntry.take_val CtlBlameEntry.get_commit_id
  blame_entry_from r = do
    let (commit_time, r') = CtlBlameEntry.take_commit_time r
    val ← from_config_value (CtlBlameEntry.take_val r').0
    ok (record { commit_id = CtlBlameEntry.get_commit_id r; commit_time = commit_time; val = val })

  unfoldable pub blame_response_from : Response → Result E BlameResponse
  unfolding convert_all blame_entry_from Fields.take_blame CtlBlameResponse.take_entries
      Fields.get_id Fields.get_status from_ctl CtlBlameResponse.new
  blame_response_from r = do
    let (blame_response, r') = Fields.take_blame r
    entries ← convert_all blame_entry_from (CtlBlameResponse.take_entries blame_response).0
    ok (record {
      id = Fields.get_id r';
      status = from_ctl (Fields.get_status r');
      entries = entries;
    })

  -- The field that is taken is `get`, as for `GetResponse`.
  unfoldable pub in_flight_response_from : Response → Result E InFlightResponse
  unfolding convert_all kvs_from Fields.take_get CtlGetResponse.take_kvs Fields.get_id
      Fields.get_status from_ctl CtlGetResponse.new
  in_flight_response_from r = do
    let (get_resp, r') = Fields.take_get r
    kvs_vec ← convert_all kvs_from (CtlGetResponse.take_kvs get_resp).0
    ok (record { id = Fields.get_id r'; status = from_ctl (Fields.get_status r'); kvs = kvs_vec })

  unfoldable pub generic_response_from : Response → Result E GenericResponse
  unfolding Fields.get_id Fields.get_status from_ctl
  generic_response_from r =
      ok (record { id = Fields.get_id r; status = from_ctl (Fields.get_status r) })
