-- ===== src/Ctl/Command/Laws.antt =====
-- The codec of `Command`: its size, its bytes and its parser agree.
pub mod Payload
pub mod Reads
pub mod Sized
use sysadmin.Base.{
  true, ℕ, IsU32, Option, none, some, [], ◌++◌, OptAll, opt_map, ◌≡◌, refl, ok, arith,
}
use sysadmin.Protobuf.{Bytes, length_delimited, Protobuf}
use sysadmin.Protobuf.Laws.{IsLawful, Fits}
use sysadmin.Wire.{expect, write_opt, opt_initialized, message_size}
use sysadmin.Wire.Sized.{message_bytes-sized}
use sysadmin.Wire.Initialized.{opt_initialized-opt_map}
use sysadmin.Wire.Codec.{IsCodec, Sizes, Writes}
use sysadmin.Wire.Sizes.{
  opt, wrap32-Sizes, append-Sizes, opt-Sizes, nil-Sizes, message_bytes, message-Sizes,
}
use sysadmin.Wire.Kinds.{
  i32_bytes, u32_bytes, bool_bytes, text_bytes, u32-Sizes, unknown-Sizes, u32-Writes,
  unknown-Writes,
}
use sysadmin.Wire.Writes.{append-Writes, opt-Writes, nil-Writes, message-Writes}
use sysadmin.Wire.Reads.{Parses, append-Parses, nil-Parses, merge_loop-reads}
use sysadmin.Wire.Reads.Fields.{unknown_reads, optional_u32_reads}
use sysadmin.Wire.Reads.Messages.{oneof_message_reads}
use sysadmin.Ctl.Set.Laws as SetLaws
use sysadmin.Ctl.Get.Laws as GetLaws
use sysadmin.Ctl.Commit.Laws as CommitLaws
use sysadmin.Ctl.Drop.Laws as DropLaws
use sysadmin.Ctl.FireHooks.Laws as FireHooksLaws
use sysadmin.Ctl.EraseKey.Laws as EraseKeyLaws
use sysadmin.Ctl.Rollback.Laws as RollbackLaws
use sysadmin.Ctl.Reset.Laws as ResetLaws
use sysadmin.Ctl.DumpHooks.Laws as DumpHooksLaws
use sysadmin.Ctl.TriggerHook.Laws as TriggerHookLaws
use sysadmin.Ctl.Blame.Laws as BlameLaws
use sysadmin.Ctl.InFlight.Laws as InFlightLaws
use sysadmin.Ctl.Set
use sysadmin.Ctl.Get
use sysadmin.Ctl.Commit
use sysadmin.Ctl.Drop
use sysadmin.Ctl.FireHooks
use sysadmin.Ctl.EraseKey
use sysadmin.Ctl.Rollback
use sysadmin.Ctl.Reset
use sysadmin.Ctl.DumpHooks
use sysadmin.Ctl.TriggerHook
use sysadmin.Ctl.Blame
use sysadmin.Ctl.InFlight
use sysadmin.Ctl.Command.{
  Command, new, is_initialized, merge_field, merge_from, compute_size, write_to_with_cached_sizes,
  get_cached_size, message, payload_initialized, CommandOneofPayload, set, get, commit, drop,
  firehooks, erase, rollback, reset, dump, trigger, blame, inflight, payload_size, write_payload,
}
use sysadmin.Ctl.Command.Laws.Payload.{
  payload_bytes, fresh_payload, IsValidPayload, payload-Sizes, payload-Writes,
}
use sysadmin.Ctl.Command.Laws.Reads.{with_payload, payload-Parses}
use sysadmin.Ctl.Command.Laws.Sized.{
  payload_initialized-fresh, payload_bytes-sized, payload_initialized-sized,
}

module _ ⦃P : Protobuf⦄ (L : IsLawful P) where
  unfoldable pub encode : Command → Bytes
  unfolding payload_bytes
  encode m =
      opt (u32_bytes L 6) m.id
      ++ (opt (u32_bytes L 10) m.xid
          ++ (opt (payload_bytes L) m.payload ++ L.unknown m.unknown_fields))

  unfoldable pub fresh : Command → Command
  unfolding fresh_payload
  fresh m = record {
    id = m.id;
    xid = m.xid;
    payload = opt_map (fresh_payload L) m.payload;
    unknown_fields = P.no_fields;
    cached_size = 0;
  }

  pub record IsValid (m : Command) : Type 0 where
    pub valid_id : OptAll IsU32 m.id
    pub valid_xid : OptAll IsU32 m.xid
    pub valid_payload : OptAll (IsValidPayload L) m.payload
    pub no_unknown : m.unknown_fields ≡ P.no_fields

  pub compute_size-Sizes : (m : Command) → Sizes (compute_size m).0 (encode m)
  unfolding compute_size encode
  compute_size-Sizes m = wrap32-Sizes (
      append-Sizes (opt-Sizes (u32-Sizes L 6) m.id) (
        append-Sizes (opt-Sizes (u32-Sizes L 10) m.xid)
          (append-Sizes (payload-Sizes L m.payload) (unknown-Sizes L m.unknown_fields))))

  pub write_to_writes :
      (m : Command) → Writes (write_to_with_cached_sizes (compute_size m).1) (encode m)
  unfolding compute_size write_to_with_cached_sizes encode
  write_to_writes m = append-Writes (opt-Writes (u32-Writes L 6) m.id) (
      append-Writes (opt-Writes (u32-Writes L 10) m.xid)
        (append-Writes (payload-Writes L m.payload) (unknown-Writes L m.unknown_fields)))

  message-Parses : (m : Command) → IsValid m → Parses merge_field new (encode m) (fresh m)
  unfolding merge_field expect new encode fresh with_payload
  message-Parses m v =
      append-Parses
        (record {
          parse =
              optional_u32_reads L merge_field 6 (omega arith)
                (λ v. record {
                  id = v;
                  xid = none;
                  payload = none;
                  unknown_fields = P.no_fields;
                  cached_size = 0;
                })
                (λ is. refl) m.id v.valid_id;
        })
        (append-Parses
          (record {
            parse =
                optional_u32_reads L merge_field 10 (omega arith)
                  (λ v. record {
                    id = m.id;
                    xid = v;
                    payload = none;
                    unknown_fields = P.no_fields;
                    cached_size = 0;
                  })
                  (λ is. refl) m.xid v.valid_xid;
          })
          (append-Parses (payload-Parses L m.id m.xid m.payload v.valid_payload) (record {
            parse = λ h. unknown_reads L merge_field (fresh m) m.unknown_fields v.no_unknown;
          })))

  pub cached : (m : Command) → get_cached_size (compute_size m).1 ≡ (compute_size m).0
  unfolding get_cached_size compute_size
  cached m = refl

  pub merged :
      (m : Command) → IsValid m → Fits (encode m) → merge_from new (encode m) ≡ ok (fresh m, [])
  unfolding merge_from
  merged m v h = merge_loop-reads L ((message-Parses m v).parse h)

  pub initialized_fresh : (m : Command) → is_initialized (fresh m) ≡ is_initialized m
  unfolding is_initialized fresh
  initialized_fresh m = rw (
      opt_initialized-opt_map (fresh_payload L) payload_initialized (payload_initialized-fresh L)
        m.payload)

  pub encode_sized : (m : Command) → encode (compute_size m).1 ≡ encode m
  unfolding compute_size encode
  encode_sized m = rw (payload_bytes-sized L m.payload)

  pub initialized_sized : (m : Command) → is_initialized (compute_size m).1 ≡ is_initialized m
  unfolding compute_size is_initialized
  initialized_sized m = rw (payload_initialized-sized L m.payload)

  unfoldable pub codec : IsCodec message
  unfolding message encode fresh
  codec = record {
    encode = encode;
    fresh = fresh;
    IsValid = IsValid;
    is_initialized-fresh = initialized_fresh;
    encode-compute_size = encode_sized;
    is_initialized-compute_size = initialized_sized;
    compute_size_lem = compute_size-Sizes;
    get_cached_size_lem = cached;
    write_lem = write_to_writes;
    merge_from_lem = λ m v h. merged m v h;
  }
