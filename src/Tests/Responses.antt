-- ===== src/Tests/Responses.antt =====
-- The conversions, on concrete inputs.
use sysadmin.Base.{some, none, ◌∷◌, [], pos, ◌≡◌, ◌↔◌, ok, panic}
use sysadmin.Protobuf.Sample.{sample, Failure}
use sysadmin.Protobuf.Sample.Lawful as Wire
use sysadmin.Ctl.ConfigValue
use sysadmin.Ctl.Response.Fields
use sysadmin.Ctl.Response.Laws as ResponseLaws
use sysadmin.Client.Status
use sysadmin.Client.Value
use sysadmin.Client.Value.{from_config_value, to_config_value}
use sysadmin.Client.Value.RoundTrip.{from-to_config_value, from_config_value-panic}
use sysadmin.Client.Responses.{
  InFlightResponse, get_response_from, blame_response_from, in_flight_response_from,
}
use sysadmin.Client.Responses.Reply.{to_response, in_flight_reply}
use sysadmin.Client.Responses.Faithful.{reply_from, from-to_response, in_flight_response_from-loses}
use sysadmin.Client.Responses.Panics.{
  Any, IsBlank, IsMissing, get_response_from-panic, blame_response_from-panic,
}
use sysadmin.Tests.{got}

from-to_response_example :
    reply_from {E = Failure} got (ResponseLaws.fresh Wire.lawful (to_response got)) ≡ ok got
from-to_response_example = from-to_response Wire.lawful got

abbrev flying : InFlightResponse
flying = record {
  id = 5;
  status = Status.success;
  kvs = record { key = 97 ∷ []; value = some (Value.bool_list []) } ∷ [];
}

in_flight_response_from-loses_example :
    in_flight_response_from {E = Failure} (in_flight_reply flying)
    ≡ ok (record { id = 5; status = Status.success; kvs = [] })
in_flight_response_from-loses_example = in_flight_response_from-loses flying

get_response_from-panic_example :
    (get_response_from {E = Failure} (to_response got) ≡ panic)
    ↔ Any (λ m. IsBlank m.value) (Fields.take_get (to_response got)).0.kvs
get_response_from-panic_example = get_response_from-panic (to_response got)

blame_response_from-panic_example :
    (blame_response_from {E = Failure} (to_response got) ≡ panic)
    ↔ Any (λ m. IsMissing m.val) (Fields.take_blame (to_response got)).0.entries
blame_response_from-panic_example = blame_response_from-panic (to_response got)

from-to_config_value_example :
    from_config_value {E = Failure} (to_config_value (Value.int32 (pos 5)))
    ≡ ok (Value.int32 (pos 5))
from-to_config_value_example = from-to_config_value (Value.int32 (pos 5))

from_config_value-panic_example :
    (from_config_value {E = Failure} ConfigValue.new ≡ panic) ↔ (ConfigValue.new.value ≡ none)
from_config_value-panic_example = from_config_value-panic ConfigValue.new
