-- ===== src/Ctl/Response/Laws/Payload.antt =====
-- The bytes of the `oneof` of `Response`, its size and its writer.
use sysadmin.Base.{true, Option, none, some, ◌≡◌, arith}
use sysadmin.Protobuf.{Bytes, length_delimited, Protobuf}
use sysadmin.Protobuf.Laws.{IsLawful}
use sysadmin.Wire.{write_opt}
use sysadmin.Wire.Codec.{Sizes, Writes}
use sysadmin.Wire.Sizes.{opt, nil-Sizes, message_bytes, message-Sizes}
use sysadmin.Wire.Writes.{nil-Writes, message-Writes}
use sysadmin.Ctl.GetResponse.Laws as GetResponseLaws
use sysadmin.Ctl.CommitResponse.Laws as CommitResponseLaws
use sysadmin.Ctl.ResetResponse.Laws as ResetResponseLaws
use sysadmin.Ctl.DumpResponse.Laws as DumpResponseLaws
use sysadmin.Ctl.BlameResponse.Laws as BlameResponseLaws
use sysadmin.Ctl.InFlightResponse.Laws as InFlightResponseLaws
use sysadmin.Ctl.GetResponse
use sysadmin.Ctl.CommitResponse
use sysadmin.Ctl.ResetResponse
use sysadmin.Ctl.DumpResponse
use sysadmin.Ctl.BlameResponse
use sysadmin.Ctl.InFlightResponse
use sysadmin.Ctl.Response.{
  ResponseOneofPayload, get, commit, reset, dump, blame, inflight, payload_size, write_payload,
}

module _ ⦃P : Protobuf⦄ (L : IsLawful P) where
  unfoldable pub payload_bytes : ResponseOneofPayload → Bytes
  payload_bytes (get v) = message_bytes L (GetResponseLaws.codec L).encode 1 v
  payload_bytes (commit v) = message_bytes L (CommitResponseLaws.codec L).encode 2 v
  payload_bytes (reset v) = message_bytes L (ResetResponseLaws.codec L).encode 3 v
  payload_bytes (dump v) = message_bytes L (DumpResponseLaws.codec L).encode 4 v
  payload_bytes (blame v) = message_bytes L (BlameResponseLaws.codec L).encode 5 v
  payload_bytes (inflight v) = message_bytes L (InFlightResponseLaws.codec L).encode 8 v

  unfoldable pub fresh_payload : ResponseOneofPayload → ResponseOneofPayload
  fresh_payload (get v) = get ((GetResponseLaws.codec L).fresh v)
  fresh_payload (commit v) = commit ((CommitResponseLaws.codec L).fresh v)
  fresh_payload (reset v) = reset ((ResetResponseLaws.codec L).fresh v)
  fresh_payload (dump v) = dump ((DumpResponseLaws.codec L).fresh v)
  fresh_payload (blame v) = blame ((BlameResponseLaws.codec L).fresh v)
  fresh_payload (inflight v) = inflight ((InFlightResponseLaws.codec L).fresh v)

  abbrev pub IsValidPayload : ResponseOneofPayload → Type 0
  IsValidPayload (get v) =
      (GetResponseLaws.codec L).IsValid v × (GetResponse.is_initialized v ≡ true)
  IsValidPayload (commit v) =
      (CommitResponseLaws.codec L).IsValid v × (CommitResponse.is_initialized v ≡ true)
  IsValidPayload (reset v) =
      (ResetResponseLaws.codec L).IsValid v × (ResetResponse.is_initialized v ≡ true)
  IsValidPayload (dump v) =
      (DumpResponseLaws.codec L).IsValid v × (DumpResponse.is_initialized v ≡ true)
  IsValidPayload (blame v) =
      (BlameResponseLaws.codec L).IsValid v × (BlameResponse.is_initialized v ≡ true)
  IsValidPayload (inflight v) =
      (InFlightResponseLaws.codec L).IsValid v × (InFlightResponse.is_initialized v ≡ true)

  pub payload-Sizes :
      (o : Option ResponseOneofPayload) → Sizes (payload_size o).0 (opt payload_bytes o)
  unfolding payload_size payload_bytes opt
  payload-Sizes none = nil-Sizes
  payload-Sizes (some (get v)) =
      message-Sizes L (GetResponseLaws.codec L) 1 1
        (L.length-tag 1 length_delimited (omega arith) (omega arith)) v
  payload-Sizes (some (commit v)) =
      message-Sizes L (CommitResponseLaws.codec L) 1 2
        (L.length-tag 2 length_delimited (omega arith) (omega arith)) v
  payload-Sizes (some (reset v)) =
      message-Sizes L (ResetResponseLaws.codec L) 1 3
        (L.length-tag 3 length_delimited (omega arith) (omega arith)) v
  payload-Sizes (some (dump v)) =
      message-Sizes L (DumpResponseLaws.codec L) 1 4
        (L.length-tag 4 length_delimited (omega arith) (omega arith)) v
  payload-Sizes (some (blame v)) =
      message-Sizes L (BlameResponseLaws.codec L) 1 5
        (L.length-tag 5 length_delimited (omega arith) (omega arith)) v
  payload-Sizes (some (inflight v)) =
      message-Sizes L (InFlightResponseLaws.codec L) 1 8
        (L.length-tag 8 length_delimited (omega arith) (omega arith)) v

  pub payload-Writes :
      (o : Option ResponseOneofPayload)
      → Writes (write_opt write_payload (payload_size o).1) (opt payload_bytes o)
  unfolding payload_size payload_bytes opt write_payload write_opt
  payload-Writes none = nil-Writes
  payload-Writes (some (get v)) = message-Writes L (GetResponseLaws.codec L) 1 1 v
  payload-Writes (some (commit v)) = message-Writes L (CommitResponseLaws.codec L) 1 2 v
  payload-Writes (some (reset v)) = message-Writes L (ResetResponseLaws.codec L) 1 3 v
  payload-Writes (some (dump v)) = message-Writes L (DumpResponseLaws.codec L) 1 4 v
  payload-Writes (some (blame v)) = message-Writes L (BlameResponseLaws.codec L) 1 5 v
  payload-Writes (some (inflight v)) = message-Writes L (InFlightResponseLaws.codec L) 1 8 v
