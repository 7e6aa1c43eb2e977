-- ===== src/Ctl/Response/Laws/Reads.antt =====
-- The parser of the `oneof` of `Response`.
use sysadmin.Base.{ℕ, Option, none, some, OptAll, opt_map, refl, arith}
use sysadmin.Protobuf.{length_delimited, Protobuf}
use sysadmin.Protobuf.Laws.{IsLawful}
use sysadmin.Wire.{expect}
use sysadmin.Wire.Sizes.{opt}
use sysadmin.Wire.Kinds.{i32_bytes, bool_bytes, text_bytes}
use sysadmin.Wire.Reads.{Parses, nil-Parses}
use sysadmin.Wire.Reads.Messages.{oneof_message_reads}
use sysadmin.Ctl.StatusCode.{StatusCode}
use sysadmin.Ctl.GetResponse.Laws as GetResponseLaws
use sysadmin.Ctl.CommitResponse.Laws as CommitResponseLaws
use sysadmin.Ctl.ResetResponse.Laws as ResetResponseLaws
use sysadmin.Ctl.DumpResponse.Laws as DumpResponseLaws
use sysadmin.Ctl.BlameResponse.Laws as BlameResponseLaws
use sysadmin.Ctl.InFlightResponse.Laws as InFlightResponseLaws
use sysadmin.Ctl.GetResponse
use sysadmin.Ctl.CommitResponse
use sysadmin.Ctl.ResetResponse
use sysadmin.Ctl.DumpResponse
use sysadmin.Ctl.BlameResponse
use sysadmin.Ctl.InFlightResponse
use sysadmin.Ctl.Response.{
  Response, merge_field, ResponseOneofPayload, get, commit, reset, dump, blame, inflight,
}
use sysadmin.Ctl.Response.Laws.Payload.{payload_bytes, fresh_payload, IsValidPayload}

module _ ⦃P : Protobuf⦄ (L : IsLawful P) where
  module _ (id : Option ℕ) (status : Option StatusCode) where
    unfoldable pub with_payload : Option ResponseOneofPayload → Response
    with_payload o = record {
      id = id;
      status = status;
      payload = o;
      unknown_fields = P.no_fields;
      cached_size = 0;
    }

    pub payload-Parses :
        (o : Option ResponseOneofPayload)
        → OptAll (IsValidPayload L) o
        → Parses merge_field
            (with_payload none)
            (opt (payload_bytes L) o)
            (with_payload (opt_map (fresh_payload L) o))
    unfolding merge_field expect payload_bytes fresh_payload opt with_payload i32_bytes bool_bytes
        text_bytes GetResponse.message CommitResponse.message ResetResponse.message
        DumpResponse.message BlameResponse.message InFlightResponse.message
    payload-Parses none v = nil-Parses
    payload-Parses (some (get v)) q = record {
      parse =
          oneof_message_reads L (GetResponseLaws.codec L) merge_field 1 (omega arith)
            (omega (arith, (L.length-tag 1 length_delimited (omega arith) (omega arith))))
            (with_payload none) (λ w. with_payload (some (get w))) (λ is. refl) v q;
    }
    payload-Parses (some (commit v)) q = record {
      parse =
          oneof_message_reads L (CommitResponseLaws.codec L) merge_field 2 (omega arith)
            (omega (arith, (L.length-tag 2 length_delimited (omega arith) (omega arith))))
            (with_payload none) (λ w. with_payload (some (commit w))) (λ is. refl) v q;
    }
    payload-Parses (some (reset v)) q = record {
      parse =
          oneof_message_reads L (ResetResponseLaws.codec L) merge_field 3 (omega arith)
            (omega (arith, (L.length-tag 3 length_delimited (omega arith) (omega arith))))
            (with_payload none) (λ w. with_payload (some (reset w))) (λ is. refl) v q;
    }
    payload-Parses (some (dump v)) q = record {
      parse =
          oneof_message_reads L (DumpResponseLaws.codec L) merge_field 4 (omega arith)
            (omega (arith, (L.length-tag 4 length_delimited (omega arith) (omega arith))))
            (with_payload none) (λ w. with_payload (some (dump w))) (λ is. refl) v q;
    }
    payload-Parses (some (blame v)) q = record {
      parse =
          oneof_message_reads L (BlameResponseLaws.codec L) merge_field 5 (omega arith)
            (omega (arith, (L.length-tag 5 length_delimited (omega arith) (omega arith))))
            (with_payload none) (λ w. with_payload (some (blame w))) (λ is. refl) v q;
    }
    payload-Parses (some (inflight v)) q = record {
      parse =
          oneof_message_reads L (InFlightResponseLaws.codec L) merge_field 8 (omega arith)
            (omega (arith, (L.length-tag 8 length_delimited (omega arith) (omega arith))))
            (with_payload none) (λ w. with_payload (some (inflight w))) (λ is. refl) v q;
    }
