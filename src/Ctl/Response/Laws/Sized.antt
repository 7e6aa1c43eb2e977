-- ===== src/Ctl/Response/Laws/Sized.antt =====
-- What filling the cached sizes of the `oneof` of `Response` leaves alone.
use sysadmin.Base.{Option, none, some, ◌≡◌, refl}
use sysadmin.Protobuf.{Protobuf}
use sysadmin.Protobuf.Laws.{IsLawful}
use sysadmin.Wire.{opt_initialized, message_size}
use sysadmin.Wire.Sized.{message_bytes-sized}
use sysadmin.Wire.Sizes.{opt}
use sysadmin.Ctl.GetResponse.Laws as GetResponseLaws
use sysadmin.Ctl.CommitResponse.Laws as CommitResponseLaws
use sysadmin.Ctl.ResetResponse.Laws as ResetResponseLaws
use sysadmin.Ctl.DumpResponse.Laws as DumpResponseLaws
use sysadmin.Ctl.BlameResponse.Laws as BlameResponseLaws
use sysadmin.Ctl.InFlightResponse.Laws as InFlightResponseLaws
use sysadmin.Ctl.GetResponse
use sysadmin.Ctl.CommitResponse
use sysadmin.Ctl.ResetResponse
use sysadmin.Ctl.DumpResponse
use sysadmin.Ctl.BlameResponse
use sysadmin.Ctl.InFlightResponse
use sysadmin.Ctl.Response.{
  payload_initialized, ResponseOneofPayload, get, commit, reset, dump, blame, inflight,
  payload_size,
}
use sysadmin.Ctl.Response.Laws.Payload.{payload_bytes, fresh_payload}

module _ ⦃P : Protobuf⦄ (L : IsLawful P) where
  pub payload_initialized-fresh :
      (o : ResponseOneofPayload) → payload_initialized (fresh_payload L o) ≡ payload_initialized o
  unfolding payload_initialized fresh_payload GetResponse.message CommitResponse.message
      ResetResponse.message DumpResponse.message BlameResponse.message InFlightResponse.message
  payload_initialized-fresh (get v) = (GetResponseLaws.codec L).is_initialized-fresh v
  payload_initialized-fresh (commit v) = (CommitResponseLaws.codec L).is_initialized-fresh v
  payload_initialized-fresh (reset v) = (ResetResponseLaws.codec L).is_initialized-fresh v
  payload_initialized-fresh (dump v) = (DumpResponseLaws.codec L).is_initialized-fresh v
  payload_initialized-fresh (blame v) = (BlameResponseLaws.codec L).is_initialized-fresh v
  payload_initialized-fresh (inflight v) = (InFlightResponseLaws.codec L).is_initialized-fresh v

  pub payload_bytes-sized :
      (o : Option ResponseOneofPayload)
      → opt (payload_bytes L) (payload_size o).1 ≡ opt (payload_bytes L) o
  unfolding opt payload_bytes payload_size
  payload_bytes-sized none = refl
  payload_bytes-sized (some (get v)) = message_bytes-sized L (GetResponseLaws.codec L) 1 1 v
  payload_bytes-sized (some (commit v)) = message_bytes-sized L (CommitResponseLaws.codec L) 1 2 v
  payload_bytes-sized (some (reset v)) = message_bytes-sized L (ResetResponseLaws.codec L) 1 3 v
  payload_bytes-sized (some (dump v)) = message_bytes-sized L (DumpResponseLaws.codec L) 1 4 v
  payload_bytes-sized (some (blame v)) = message_bytes-sized L (BlameResponseLaws.codec L) 1 5 v
  payload_bytes-sized (some (inflight v)) =
      message_bytes-sized L (InFlightResponseLaws.codec L) 1 8 v

  pub payload_initialized-sized :
      (o : Option ResponseOneofPayload)
      → opt_initialized payload_initialized (payload_size o).1
        ≡ opt_initialized payload_initialized o
  unfolding opt_initialized message_size payload_initialized payload_size GetResponse.message
      CommitResponse.message ResetResponse.message DumpResponse.message BlameResponse.message
      InFlightResponse.message
  payload_initialized-sized none = refl
  payload_initialized-sized (some (get v)) = (GetResponseLaws.codec L).is_initialized-compute_size v
  payload_initialized-sized (some (commit v)) =
      (CommitResponseLaws.codec L).is_initialized-compute_size v
  payload_initialized-sized (some (reset v)) =
      (ResetResponseLaws.codec L).is_initialized-compute_size v
  payload_initialized-sized (some (dump v)) =
      (DumpResponseLaws.codec L).is_initialized-compute_size v
  payload_initialized-sized (some (blame v)) =
      (BlameResponseLaws.codec L).is_initialized-compute_size v
  payload_initialized-sized (some (inflight v)) =
      (InFlightResponseLaws.codec L).is_initialized-compute_size v
