-- ===== src/Wire/Transfer.antt =====
-- A message that is written, sent and parsed.
use sysadmin.Base.{[], length, ◌≡◌, ◌∙◌, ok, true}
use sysadmin.Protobuf.{Message, Protobuf}
use sysadmin.Protobuf.Laws.{IsLawful, Fits}
use sysadmin.Wire.Codec.{IsCodec}

module _ ⦃P : Protobuf⦄ (L : IsLawful P) {M : Type 0} {I : Message P.ProtobufError M}
    (C : IsCodec I) (m : M) (init : I.is_initialized m ≡ true) (fits : Fits (C.encode m)) where
  pub write_to_bytes-encode : P.write_to_bytes I m ≡ ok (C.encode m)
  write_to_bytes-encode = L.write_to_bytes_lem I m init ∙ (C.write_lem m).appends [] fits

  -- `send` computes the size first, and writes the message that holds it.
  pub write_to_bytes-compute_size : P.write_to_bytes I (I.compute_size m).1 ≡ ok (C.encode m)
  write_to_bytes-compute_size =
      L.write_to_bytes_lem I (I.compute_size m).1 (C.is_initialized-compute_size m ∙ init)
      ∙ (C.write_lem (I.compute_size m).1).appends [] (rw (C.encode-compute_size m) fits)
      ∙ rw (C.encode-compute_size m)

  pub compute_size-length : (I.compute_size m).0 ≡ length (C.encode m)
  compute_size-length = (C.compute_size_lem m).counts fits

  pub parse_from_bytes-encode : C.IsValid m → P.parse_from_bytes I (C.encode m) ≡ ok (C.fresh m)
  parse_from_bytes-encode v =
      L.parse_from_bytes_lem I (C.fresh m) (C.encode m) (C.merge_from_lem m v fits)
        (C.is_initialized-fresh m ∙ init)
