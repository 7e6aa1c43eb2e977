-- ===== src/Client/Responses/Faithful.antt =====
-- The conversions of responses of clients/rust/src/lib.rs give what the peer has put into the response.
use sysadmin.Base.{ℕ, Option, none, some, List, [], ◌∷◌, map, ◌≡◌, refl, Result, ok, ◌>>=◌}
use sysadmin.Protobuf.{Text, Protobuf}
use sysadmin.Protobuf.Laws.{IsLawful}
use sysadmin.Ctl.ConfigValue.Laws as ConfigValueLaws
use sysadmin.Ctl.Int32List.Laws as Int32ListLaws
use sysadmin.Ctl.BoolList.Laws as BoolListLaws
use sysadmin.Ctl.StringList.Laws as StringListLaws
use sysadmin.Ctl.MappedField
use sysadmin.Ctl.MappedField.Laws as MappedFieldLaws
use sysadmin.Ctl.GetResponse as CtlGetResponse
use sysadmin.Ctl.GetResponse.Laws as GetResponseLaws
use sysadmin.Ctl.CommitResponse as CtlCommitResponse
use sysadmin.Ctl.CommitResponse.Laws as CommitResponseLaws
use sysadmin.Ctl.ResetResponse as CtlResetResponse
use sysadmin.Ctl.ResetResponse.Laws as ResetResponseLaws
use sysadmin.Ctl.DumpResponse as CtlDumpResponse
use sysadmin.Ctl.DumpResponse.Laws as DumpResponseLaws
use sysadmin.Ctl.BlameEntry as CtlBlameEntry
use sysadmin.Ctl.BlameEntry.Laws as BlameEntryLaws
use sysadmin.Ctl.BlameResponse as CtlBlameResponse
use sysadmin.Ctl.BlameResponse.Laws as BlameResponseLaws
use sysadmin.Ctl.InFlightResponse as CtlInFlightResponse
use sysadmin.Ctl.Response
use sysadmin.Ctl.Response.{Response}
use sysadmin.Ctl.Response.Fields
use sysadmin.Ctl.Response.Laws as ResponseLaws
use sysadmin.Client.Status.{StatusCode, from_ctl-to_ctl}
use sysadmin.Client.Value
use sysadmin.Client.Value.{SysadminValue, to_config_value, from_config_value}
use sysadmin.Client.Responses.{
  BlameEntry, InFlightResponse, convert_all, kvs_from, blame_entry_from, get_response_from,
  commit_response_from, reset_response_from, dump_response_from, blame_response_from,
  in_flight_response_from, generic_response_from,
}
use sysadmin.Client.Responses.Reply.{
  Reply, get, commit, reset, dump, blame, generic, to_mapped_field, to_blame_entry, to_response,
  in_flight_reply,
}

convert_all-map :
    {E A B C : Type 0} (f : A → Result E B) (h : C → A) (g : B → C)
    → ((b : B) → f (h (g b)) ≡ ok b)
    → (bs : List B) → convert_all f (map h (map g bs)) ≡ ok bs
unfolding convert_all
convert_all-map f h g e [] = refl
convert_all-map f h g e (b ∷ bs) = rw (e b, convert_all-map f h g e bs)

module _ ⦃P : Protobuf⦄ {E : Type 0} where
  -- The conversion that the client applies to a reply of this kind.
  unfoldable pub reply_from : Reply → Response → Result E Reply
  unfolding get_response_from commit_response_from reset_response_from dump_response_from
      blame_response_from generic_response_from
  reply_from (get _) m = do x ← get_response_from m; ok (get x)
  reply_from (commit _) m = do x ← commit_response_from m; ok (commit x)
  reply_from (reset _) m = do x ← reset_response_from m; ok (reset x)
  reply_from (dump _) m = do x ← dump_response_from m; ok (dump x)
  reply_from (blame key _) m = do x ← blame_response_from m; ok (blame key x)
  reply_from (generic _) m = do x ← generic_response_from m; ok (generic x)

  module _ (L : IsLawful P) where
    value-fresh :
        (v : SysadminValue)
        → from_config_value {E = E} (ConfigValueLaws.fresh L (to_config_value v)) ≡ ok v
    unfolding to_config_value from_config_value ConfigValueLaws.fresh Int32ListLaws.codec
        BoolListLaws.codec StringListLaws.codec
    value-fresh (Value.int32 x) = refl
    value-fresh (Value.strval x) = refl
    value-fresh (Value.bool x) = refl
    value-fresh (Value.int32_list x) = refl
    value-fresh (Value.bool_list x) = refl
    value-fresh (Value.strval_list x) = refl

    kvs_at :
        (k : Text) (o : Option SysadminValue)
        → kvs_from {E = E}
            (MappedFieldLaws.fresh L (to_mapped_field (record { key = k; value = o })))
          ≡ ok (record { key = k; value = o })
    unfolding kvs_from MappedFieldLaws.fresh ConfigValueLaws.codec to_mapped_field MappedField.new
        MappedField.set_key MappedField.set_value
    kvs_at k none = refl
    kvs_at k (some v) = rw (value-fresh v)

    entry-fresh :
        (e : BlameEntry)
        → blame_entry_from {E = E} (BlameEntryLaws.fresh L (to_blame_entry e)) ≡ ok e
    unfolding blame_entry_from BlameEntryLaws.fresh ConfigValueLaws.codec to_blame_entry
        CtlBlameEntry.new CtlBlameEntry.set_val CtlBlameEntry.set_commit_time
        CtlBlameEntry.set_commit_id
    entry-fresh e = rw (value-fresh e.val)

    commit_at :
        (id : ℕ) (s : StatusCode) (o : Option ℕ)
        → reply_from (commit (record { id = id; status = s; commit_id = o })) (
            ResponseLaws.fresh L
              (to_response (commit (record { id = id; status = s; commit_id = o }))))
          ≡ ok (commit (record { id = id; status = s; commit_id = o }))
    unfolding reply_from to_response ResponseLaws.fresh CommitResponseLaws.codec
        CtlCommitResponse.new CtlCommitResponse.set_commit_id Response.new Fields.set_id
        Fields.set_status Fields.set_commit
    commit_at id s none = rw (from_ctl-to_ctl.0 s)
    commit_at id s (some n) = rw (from_ctl-to_ctl.0 s)

    -- The response that a peer has built for a reply, as a parser leaves it, is converted into that
    -- reply.
    pub from-to_response : (r : Reply) → reply_from r (ResponseLaws.fresh L (to_response r)) ≡ ok r
    unfolding reply_from to_response ResponseLaws.fresh GetResponseLaws.codec
        ResetResponseLaws.codec DumpResponseLaws.codec BlameResponseLaws.codec MappedFieldLaws.codec
        BlameEntryLaws.codec CtlGetResponse.new CtlGetResponse.set_kvs CtlResetResponse.new
        CtlResetResponse.set_commit_id CtlDumpResponse.new CtlDumpResponse.set_templatehooks
        CtlDumpResponse.set_servicehooks CtlBlameResponse.new CtlBlameResponse.set_key
        CtlBlameResponse.set_entries Response.new Fields.set_id Fields.set_status Fields.set_get
        Fields.set_reset Fields.set_dump Fields.set_blame
    from-to_response (get r) = rw (
      convert_all-map kvs_from (MappedFieldLaws.fresh L) to_mapped_field (λ k. kvs_at k.key k.value)
          r.kvs,
      from_ctl-to_ctl.0 r.status,
    )
    from-to_response (commit r) = commit_at r.id r.status r.commit_id
    from-to_response (reset r) = rw (from_ctl-to_ctl.0 r.status)
    from-to_response (dump r) = rw (from_ctl-to_ctl.0 r.status)
    from-to_response (blame key r) = rw (
      convert_all-map blame_entry_from (BlameEntryLaws.fresh L) to_blame_entry entry-fresh
          r.entries,
      from_ctl-to_ctl.0 r.status,
    )
    from-to_response (generic r) = rw (from_ctl-to_ctl.0 r.status)

  -- The fields in flight are lost: from the server's reply to `InFlight`, whatever fields it lists,
  -- the client gets a response with the same identifier and status and with no field at all.
  pub in_flight_response_from-loses :
      (r : InFlightResponse)
      → in_flight_response_from {E = E} (in_flight_reply r)
        ≡ ok (record { id = r.id; status = r.status; kvs = [] })
  unfolding in_flight_response_from in_flight_reply CtlInFlightResponse.new
      CtlInFlightResponse.set_kvs Response.new Fields.set_id Fields.set_status Fields.set_inflight
  in_flight_response_from-loses r = rw (from_ctl-to_ctl.0 r.status)
