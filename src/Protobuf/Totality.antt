-- ===== src/Protobuf/Totality.antt =====
-- What the crate `protobuf` documents of its readers on any input: they return a value or an error,
-- and do not add to what is left of the stream.
use sysadmin.Base.{
  ℕ, suc, ◌≤◌, ℤ, Bool, true, false, Option, List, length, ◌≡◌, Result, ok, err, ◌>>=◌,
  if◌then◌else◌, arith,
}
use sysadmin.Protobuf.{Bytes, Text, WireType, Message, Protobuf}

-- The outcome is a value, with at most `k` bytes left, or an error.
pub data Total {E A : Type 0} (k : ℕ) : Result E (A × Bytes) → Type 0 where
  value : {a : A} {is : Bytes} → length is ≤ k → Total k (ok (a, is))
  error : {e : E} → Total k (err e)

-- The outcome is a value or an error.
pub data Returns {E A : Type 0} : Result E A → Type 0 where
  value : {a : A} → Returns (ok a)
  error : {e : E} → Returns (err e)

module _ {E A B : Type 0} {k : ℕ} where
  -- What is done with the value behind a reader.
  pub then_total :
      (f : A → B) {r : Result E (A × Bytes)}
      → Total k r
      → Total k (r >>= λ (tmp, is'). ok (f tmp, is'))
  then_total f (Total.value h) = Total.value h
  then_total f Total.error = Total.error

  pub bind_total :
      {r : Result E (A × Bytes)} (f : A × Bytes → Result E (B × Bytes))
      → Total k r
      → ((a : A) (is : Bytes) → length is ≤ k → Total k (f (a, is)))
      → Total k (r >>= f)
  bind_total f (Total.value {a} {is} h) g = g a is h
  bind_total f Total.error g = Total.error

pub if_total :
    {E A : Type 0} {k : ℕ} (b : Bool) {x y : Result E (A × Bytes)}
    → Total k x
    → Total k y
    → Total k (if b then x else y)
if_total true p q = p
if_total false p q = q

pub weaken : {E A : Type 0} {j k : ℕ} {r : Result E (A × Bytes)} → j ≤ k → Total j r → Total k r
weaken h (Total.value l) = Total.value (omega arith)
weaken h Total.error = Total.error

module _ {E M : Type 0} (I : Message E M) where
  -- A parser that is total in this sense.
  abbrev pub Parser : Type 0
  Parser = (m : M) (is : Bytes) → Total (length is) (I.merge_from m is)

pub record IsTotal (P : Protobuf) : Type 1 where
  pub eof-total : (is : Bytes) → Returns (P.eof is)
  -- A tag takes a byte at least.
  pub read_tag_unpack-total :
      (k : ℕ) (is : Bytes) → length is ≡ suc k → Total k (P.read_tag_unpack is)
  -- Without input left the stream is at its end.
  pub eof-empty : (is : Bytes) → length is ≡ 0 → P.eof is ≡ ok true
  pub read_int32-total : (is : Bytes) → Total (length is) (P.read_int32 is)
  pub read_uint32-total : (is : Bytes) → Total (length is) (P.read_uint32 is)
  pub read_bool-total : (is : Bytes) → Total (length is) (P.read_bool is)
  pub read_string-total : (is : Bytes) → Total (length is) (P.read_string is)
  pub read_enum-total :
      {A : Type 0} (from_i32 : ℤ → Option A) (is : Bytes)
      → Total (length is) (P.read_enum from_i32 is)
  pub read_message-total :
      {M : Type 0} (I : Message P.ProtobufError M) (is : Bytes)
      → Parser I
      → Total (length is) (P.read_message I is)
  pub read_repeated_int32_into-total :
      (wt : WireType) (is : Bytes) (vs : List ℤ)
      → Total (length is) (P.read_repeated_int32_into wt is vs)
  pub read_repeated_bool_into-total :
      (wt : WireType) (is : Bytes) (vs : List Bool)
      → Total (length is) (P.read_repeated_bool_into wt is vs)
  pub read_repeated_string_into-total :
      (wt : WireType) (is : Bytes) (vs : List Text)
      → Total (length is) (P.read_repeated_string_into wt is vs)
  pub read_repeated_message_into-total :
      {M : Type 0} (I : Message P.ProtobufError M) (wt : WireType) (is : Bytes) (ms : List M)
      → Parser I
      → Total (length is) (P.read_repeated_message_into I wt is ms)
  pub read_singular_string_into-total :
      (wt : WireType) (is : Bytes) (s : Option Text)
      → Total (length is) (P.read_singular_string_into wt is s)
  pub read_singular_message_into-total :
      {M : Type 0} (I : Message P.ProtobufError M) (wt : WireType) (is : Bytes) (m : Option M)
      → Parser I
      → Total (length is) (P.read_singular_message_into I wt is m)
  pub read_unknown_or_skip_group-total :
      (n : ℕ) (wt : WireType) (is : Bytes) (u : P.UnknownFields)
      → Total (length is) (P.read_unknown_or_skip_group n wt is u)
  pub parse_from_bytes-total :
      {M : Type 0} (I : Message P.ProtobufError M) (is : Bytes)
      → Parser I
      → Returns (P.parse_from_bytes I is)
