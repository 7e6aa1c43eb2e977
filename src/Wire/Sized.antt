-- ===== src/Wire/Sized.antt =====
-- Filling in the cached sizes of nested messages changes neither the bytes nor what is set.
use sysadmin.Base.{ℕ, Option, none, some, List, [], ◌∷◌, is_some, ◌++◌, ◌≡◌, refl, ap₂, arith}
use sysadmin.Protobuf.{Message, Protobuf}
use sysadmin.Protobuf.Laws.{IsLawful}
use sysadmin.Wire.{
  opt_initialized, all_initialized, message_size, opt_message_size, sum_message_size,
}
use sysadmin.Wire.Codec.{IsCodec}
use sysadmin.Wire.Sizes.{opt, each, message_bytes}

module _ ⦃P : Protobuf⦄ (L : IsLawful P) {M : Type 0} {I : Message P.ProtobufError M}
    (C : IsCodec I) (prefix : ℕ) where
  module _ (n : ℕ) where
    pub message_bytes-sized :
        (m : M)
        → message_bytes L C.encode n (message_size I prefix m).1 ≡ message_bytes L C.encode n m
    unfolding message_bytes message_size
    message_bytes-sized m = rw (C.encode-compute_size m)

    pub opt-sized :
        (o : Option M)
        → opt (message_bytes L C.encode n) (opt_message_size I prefix o).1
          ≡ opt (message_bytes L C.encode n) o
    unfolding opt opt_message_size
    opt-sized none = refl
    opt-sized (some m) = message_bytes-sized m

    pub each-sized :
        (ms : List M)
        → each (message_bytes L C.encode n) (sum_message_size I prefix ms).1
          ≡ each (message_bytes L C.encode n) ms
    unfolding each sum_message_size
    each-sized [] = refl
    each-sized (m ∷ ms) = ap₂ ◌++◌ (message_bytes-sized m) (each-sized ms)

  pub is_some-sized : (o : Option M) → is_some (opt_message_size I prefix o).1 ≡ is_some o
  unfolding opt_message_size
  is_some-sized none = refl
  is_some-sized (some m) = refl

  pub opt_initialized-sized :
      (o : Option M)
      → opt_initialized I.is_initialized (opt_message_size I prefix o).1
        ≡ opt_initialized I.is_initialized o
  unfolding opt_initialized opt_message_size message_size
  opt_initialized-sized none = refl
  opt_initialized-sized (some m) = C.is_initialized-compute_size m

  pub all_initialized-sized :
      (ms : List M)
      → all_initialized I.is_initialized (sum_message_size I prefix ms).1
        ≡ all_initialized I.is_initialized ms
  unfolding all_initialized sum_message_size message_size
  all_initialized-sized [] = refl
  all_initialized-sized (m ∷ ms) =
      ground (arith, C.is_initialized-compute_size m, all_initialized-sized ms)
