-- ===== src/Ctl/DumpResponse.antt =====
-- `DumpResponse`: clients/rust/src/sysadminctl.rs, lines 4993 to 5201.
pub mod Laws
pub mod Totals
use sysadmin.Base.{
  ℕ, suc, ◌+◌, ℤ, pos, Bool, true, false, ◌&&◌, Option, none, some, is_some, unwrap_or, List, [],
  length, Result, ok, ◌>>=◌, ◌==◌, if◌then◌else◌,
}
use sysadmin.Protobuf.{Bytes, Text, WireType, varint, length_delimited, Message, Protobuf}
use sysadmin.Wire.{
  wrap32, opt_size, sum_size, write_opt, write_each, all_initialized, opt_initialized, expect,
  merge_loop, message_size, opt_message_size, sum_message_size, write_message,
}

module _ ⦃P : Protobuf⦄ where
  pub record DumpResponse : Type 0 where
    pub templatehooks : List Text
    pub servicehooks : List Text
    pub unknown_fields : P.UnknownFields
    pub cached_size : ℕ

  unfoldable pub new : DumpResponse
  new = record {
    templatehooks = [];
    servicehooks = [];
    unknown_fields = P.no_fields;
    cached_size = 0;
  }

  unfoldable pub clear_templatehooks : DumpResponse → DumpResponse
  clear_templatehooks m = record m { templatehooks = [] }

  unfoldable pub set_templatehooks : DumpResponse → List Text → DumpResponse
  set_templatehooks m v = record m { templatehooks = v }

  unfoldable pub take_templatehooks : DumpResponse → List Text × DumpResponse
  take_templatehooks m = (m.templatehooks, record m { templatehooks = [] })

  unfoldable pub get_templatehooks : DumpResponse → List Text
  get_templatehooks m = m.templatehooks

  unfoldable pub clear_servicehooks : DumpResponse → DumpResponse
  clear_servicehooks m = record m { servicehooks = [] }

  unfoldable pub set_servicehooks : DumpResponse → List Text → DumpResponse
  set_servicehooks m v = record m { servicehooks = v }

  unfoldable pub take_servicehooks : DumpResponse → List Text × DumpResponse
  take_servicehooks m = (m.servicehooks, record m { servicehooks = [] })

  unfoldable pub get_servicehooks : DumpResponse → List Text
  get_servicehooks m = m.servicehooks

  unfoldable pub is_initialized : DumpResponse → Bool
  is_initialized m = true

  merge_field : ℕ → WireType → DumpResponse → Bytes → Result P.ProtobufError (DumpResponse × Bytes)
  merge_field field_number wire_type m is =
      if field_number == 1
      then (do
        (tmp, is') ← P.read_repeated_string_into wire_type is m.templatehooks
        ok (record m { templatehooks = tmp }, is'))
      else if field_number == 2
      then (do
        (tmp, is') ← P.read_repeated_string_into wire_type is m.servicehooks
        ok (record m { servicehooks = tmp }, is'))
      else (do
        (tmp, is') ← P.read_unknown_or_skip_group field_number wire_type is m.unknown_fields
        ok (record m { unknown_fields = tmp }, is'))

  -- A round takes a byte at least, and the last one sees the end of the stream.
  unfoldable pub merge_from : DumpResponse → Bytes → Result P.ProtobufError (DumpResponse × Bytes)
  unfolding merge_field
  merge_from m is = merge_loop merge_field (suc (length is)) m is

  unfoldable pub compute_size : DumpResponse → ℕ × DumpResponse
  compute_size m =
      let my_size = wrap32 (
        sum_size (P.string_size 1) m.templatehooks
        + (sum_size (P.string_size 2) m.servicehooks + P.unknown_fields_size m.unknown_fields)) in
      (my_size, record m { cached_size = my_size })

  unfoldable pub write_to_with_cached_sizes : DumpResponse → Bytes → Result P.ProtobufError Bytes
  write_to_with_cached_sizes m os = do
    os1 ← write_each (P.write_string 1) m.templatehooks os
    os2 ← write_each (P.write_string 2) m.servicehooks os1
    P.write_unknown_fields m.unknown_fields os2

  unfoldable pub get_cached_size : DumpResponse → ℕ
  get_cached_size m = m.cached_size

  unfoldable pub message : Message P.ProtobufError DumpResponse
  unfolding new is_initialized merge_from compute_size write_to_with_cached_sizes get_cached_size
  message = record {
    default = new;
    is_initialized = is_initialized;
    merge_from = merge_from;
    compute_size = compute_size;
    write_to_with_cached_sizes = write_to_with_cached_sizes;
    get_cached_size = get_cached_size;
  }
