-- ===== src/Ctl/Response/Laws.antt =====
-- The codec of `Response`: its size, its bytes and its parser agree.
pub mod Payload
pub mod Reads
pub mod Sized
use sysadmin.Base.{
  true, ℕ, IsU32, Option, none, some, [], ◌++◌, OptAll, opt_map, ◌≡◌, refl, ok, arith,
}
use sysadmin.Protobuf.{Bytes, length_delimited, Protobuf}
use sysadmin.Protobuf.Laws.{IsLawful, Fits}
use sysadmin.Wire.{expect, write_opt, opt_initialized, message_size}
use sysadmin.Wire.Sized.{message_bytes-sized}
use sysadmin.Wire.Initialized.{opt_initialized-opt_map}
use sysadmin.Wire.Codec.{IsCodec, Sizes, Writes}
use sysadmin.Wire.Sizes.{
  opt, wrap32-Sizes, append-Sizes, opt-Sizes, nil-Sizes, message_bytes, message-Sizes,
}
use sysadmin.Wire.Kinds.{
  i32_bytes, u32_bytes, bool_bytes, text_bytes, u32-Sizes, enum-Sizes, unknown-Sizes, u32-Writes,
  enum-Writes, unknown-Writes,
}
use sysadmin.Wire.Writes.{append-Writes, opt-Writes, nil-Writes, message-Writes}
use sysadmin.Wire.Reads.{Parses, append-Parses, nil-Parses, merge_loop-reads}
use sysadmin.Wire.Reads.Fields.{unknown_reads, optional_u32_reads, optional_enum_reads}
use sysadmin.Wire.Reads.Messages.{oneof_message_reads}
use sysadmin.Ctl.StatusCode
use sysadmin.Ctl.StatusCode.{StatusCode}
use sysadmin.Ctl.GetResponse.Laws as GetResponseLaws
use sysadmin.Ctl.CommitResponse.Laws as CommitResponseLaws
use sysadmin.Ctl.ResetResponse.Laws as ResetResponseLaws
use sysadmin.Ctl.DumpResponse.Laws as DumpResponseLaws
use sysadmin.Ctl.BlameResponse.Laws as BlameResponseLaws
use sysadmin.Ctl.InFlightResponse.Laws as InFlightResponseLaws
use sysadmin.Ctl.GetResponse
use sysadmin.Ctl.CommitResponse
use sysadmin.Ctl.ResetResponse
use sysadmin.Ctl.DumpResponse
use sysadmin.Ctl.BlameResponse
use sysadmin.Ctl.InFlightResponse
use sysadmin.Ctl.Response.{
  Response, new, is_initialized, merge_field, merge_from, compute_size, write_to_with_cached_sizes,
  get_cached_size, message, payload_initialized, ResponseOneofPayload, get, commit, reset, dump,
  blame, inflight, payload_size, write_payload,
}
use sysadmin.Ctl.Response.Laws.Payload.{
  payload_bytes, fresh_payload, IsValidPayload, payload-Sizes, payload-Writes,
}
use sysadmin.Ctl.Response.Laws.Reads.{with_payload, payload-Parses}
use sysadmin.Ctl.Response.Laws.Sized.{
  payload_initialized-fresh, payload_bytes-sized, payload_initialized-sized,
}

module _ ⦃P : Protobuf⦄ (L : IsLawful P) where
  unfoldable pub encode : Response → Bytes
  unfolding payload_bytes
  encode m =
      opt (u32_bytes L 6) m.id
      ++ (opt (λ v. i32_bytes L 7 (StatusCode.value v)) m.status
          ++ (opt (payload_bytes L) m.payload ++ L.unknown m.unknown_fields))

  unfoldable pub fresh : Response → Response
  unfolding fresh_payload
  fresh m = record {
    id = m.id;
    status = m.status;
    payload = opt_map (fresh_payload L) m.payload;
    unknown_fields = P.no_fields;
    cached_size = 0;
  }

  pub record IsValid (m : Response) : Type 0 where
    pub valid_id : OptAll IsU32 m.id
    pub valid_payload : OptAll (IsValidPayload L) m.payload
    pub no_unknown : m.unknown_fields ≡ P.no_fields

  pub compute_size-Sizes : (m : Response) → Sizes (compute_size m).0 (encode m)
  unfolding compute_size encode
  compute_size-Sizes m = wrap32-Sizes (
      append-Sizes (opt-Sizes (u32-Sizes L 6) m.id) (
        append-Sizes (opt-Sizes (λ v. enum-Sizes L 7 (StatusCode.value v)) m.status)
          (append-Sizes (payload-Sizes L m.payload) (unknown-Sizes L m.unknown_fields))))

  pub write_to_writes :
      (m : Response) → Writes (write_to_with_cached_sizes (compute_size m).1) (encode m)
  unfolding compute_size write_to_with_cached_sizes encode
  write_to_writes m = append-Writes (opt-Writes (u32-Writes L 6) m.id) (
      append-Writes (opt-Writes (λ v. enum-Writes L 7 (StatusCode.value v)) m.status)
        (append-Writes (payload-Writes L m.payload) (unknown-Writes L m.unknown_fields)))

  message-Parses : (m : Response) → IsValid m → Parses merge_field new (encode m) (fresh m)
  unfolding merge_field expect new encode fresh with_payload
  message-Parses m v =
      append-Parses
        (record {
          parse =
              optional_u32_reads L merge_field 6 (omega arith)
                (λ v. record {
                  id = v;
                  status = none;
                  payload = none;
                  unknown_fields = P.no_fields;
                  cached_size = 0;
                })
                (λ is. refl) m.id v.valid_id;
        })
        (append-Parses
          (record {
            parse =
                optional_enum_reads L merge_field 7 (omega arith) StatusCode.value
                  StatusCode.from_i32 StatusCode.from_i32-value
                  (λ v. record {
                    id = m.id;
                    status = v;
                    payload = none;
                    unknown_fields = P.no_fields;
                    cached_size = 0;
                  })
                  (λ is. refl) m.status;
          })
          (append-Parses (payload-Parses L m.id m.status m.payload v.valid_payload) (record {
            parse = λ h. unknown_reads L merge_field (fresh m) m.unknown_fields v.no_unknown;
          })))

  pub cached : (m : Response) → get_cached_size (compute_size m).1 ≡ (compute_size m).0
  unfolding get_cached_size compute_size
  cached m = refl

  pub merged :
      (m : Response) → IsValid m → Fits (encode m) → merge_from new (encode m) ≡ ok (fresh m, [])
  unfolding merge_from
  merged m v h = merge_loop-reads L ((message-Parses m v).parse h)

  pub initialized_fresh : (m : Response) → is_initialized (fresh m) ≡ is_initialized m
  unfolding is_initialized fresh
  initialized_fresh m = rw (
      opt_initialized-opt_map (fresh_payload L) payload_initialized (payload_initialized-fresh L)
        m.payload)

  pub encode_sized : (m : Response) → encode (compute_size m).1 ≡ encode m
  unfolding compute_size encode
  encode_sized m = rw (payload_bytes-sized L m.payload)

  pub initialized_sized : (m : Response) → is_initialized (compute_size m).1 ≡ is_initialized m
  unfolding compute_size is_initialized
  initialized_sized m = rw (payload_initialized-sized L m.payload)

  unfoldable pub codec : IsCodec message
  unfolding message encode fresh
  codec = record {
    encode = encode;
    fresh = fresh;
    IsValid = IsValid;
    is_initialized-fresh = initialized_fresh;
    encode-compute_size = encode_sized;
    is_initialized-compute_size = initialized_sized;
    compute_size_lem = compute_size-Sizes;
    get_cached_size_lem = cached;
    write_lem = write_to_writes;
    merge_from_lem = λ m v h. merged m v h;
  }
