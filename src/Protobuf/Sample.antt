-- ===== src/Protobuf/Sample.antt =====
-- An instance of the interface, which shows that what is assumed of the `protobuf` crate can hold: the
-- wire format over lists of bytes, for text in ASCII. The witnesses run over it.
pub mod Varint
pub mod Lawful
pub mod Totals
use sysadmin.Base.{
  ℕ, ◌+◌, ◌-◌, ◌*◌, ◌/◌, ◌%◌, ◌^◌, ℤ, pos, negsuc, Bool, true, false, ◌&&◌, not, Option, none, some,
  List, [], ◌∷◌, ◌++◌, length, take, drop, Result, ok, err, panic, stuck, ◌>>=◌, ltb, ◌==◌,
  if◌then◌else◌,
}
use sysadmin.Protobuf.{
  Bytes, Text, WireType, varint, fixed64, length_delimited, start_group, end_group, fixed32,
  Message, Protobuf,
}
use Varint.{SampleError, truncated, encode, decode}

pub data Failure : Type 0 where
  wire_type_error : WireType → Failure
  input_error : SampleError → Failure
  bad_tag bad_utf8 bad_enum uninitialized : Failure

abbrev pub R : Type 0 → Type 0
R A = Result Failure A

unfoldable pub code : WireType → ℕ
code varint = 0
code fixed64 = 1
code length_delimited = 2
code start_group = 3
code end_group = 4
code fixed32 = 5

unfoldable pub from_code : ℕ → R WireType
from_code n =
    if n == 0
    then ok varint
    else if n == 1
    then ok fixed64
    else if n == 2
    then ok length_delimited
    else if n == 3
    then ok start_group
    else if n == 4
    then ok end_group
    else if n == 5
    then ok fixed32
    else err bad_tag

unfoldable pub tag : ℕ → WireType → Bytes
unfolding code
tag n wt = encode (n * 8 + code wt)

unfoldable pub is_ascii : Text → Bool
is_ascii [] = true
is_ascii (b ∷ bs) = ltb b 128 && is_ascii bs

-- A negative `i32` is sent as its 64-bit pattern.
unfoldable pub int32 : ℤ → Bytes
int32 (pos n) = encode n
int32 (negsuc n) = encode (2 ^ 64 - 1 - n)

unfoldable pub to_i32 : ℕ → ℤ
to_i32 v = let w = v % 2 ^ 32 in if ltb w (2 ^ 31) then pos w else negsuc (2 ^ 32 - 1 - w)

unfoldable pub bool : Bool → Bytes
bool true = 1 ∷ []
bool false = 0 ∷ []

unfoldable pub text : Text → Bytes
text s = encode (length s) ++ s

unfoldable pub read_varint : Bytes → R (ℕ × Bytes)
read_varint is = elim (decode is) [
  | ok (v, is') ↦ ok (v, is')
  | err e ↦ err (input_error e)
  | panic ↦ err bad_tag
  | stuck ↦ err bad_tag
]

-- The bytes behind a length, and what follows them.
unfoldable pub read_block : Bytes → R (Bytes × Bytes)
unfolding read_varint
read_block is = do
  (len, is') ← read_varint is
  if ltb (length is') len then err (input_error truncated) else ok (take len is', drop len is')

unfoldable pub read_tag : Bytes → R ((ℕ × WireType) × Bytes)
unfolding read_varint from_code
read_tag is = do (v, is') ← read_varint is; wt ← from_code (v % 8); ok ((v / 8, wt), is')

unfoldable pub read_int : Bytes → R (ℤ × Bytes)
unfolding read_varint to_i32
read_int is = do (v, is') ← read_varint is; ok (to_i32 v, is')

unfoldable pub read_text : Bytes → R (Text × Bytes)
unfolding read_block is_ascii
read_text is = do (s, is') ← read_block is; if is_ascii s then ok (s, is') else err bad_utf8

unfoldable pub read_flag : Bytes → R (Bool × Bytes)
unfolding read_varint
read_flag is = do (v, is') ← read_varint is; ok (not (v == 0), is')

unfoldable pub read_enumerator : {A : Type 0} → (ℤ → Option A) → Bytes → R (A × Bytes)
unfolding read_int
read_enumerator from_i32 is = do
  (v, is') ← read_int is
  elim (from_i32 v) [ some a ↦ ok (a, is') | none ↦ err bad_enum ]

unfoldable pub read_into : {M : Type 0} → Message Failure M → Bytes → R (M × Bytes)
unfolding read_block
read_into I is = do
  (body, is') ← read_block is
  (m, left) ← I.merge_from I.default body
  ok (m, is')

unfoldable pub checked : {M : Type 0} → Message Failure M → M × Bytes → R (M × Bytes)
checked I (m, is) = if I.is_initialized m then ok (m, is) else err uninitialized

unfoldable pub append_read :
    {A : Type 0}
    → WireType
    → (Bytes → R (A × Bytes))
    → WireType
    → Bytes
    → List A
    → R (List A × Bytes)
unfolding code
append_read expected read wt is as' =
    if code wt == code expected
    then (do (a, is') ← read is; ok (as' ++ (a ∷ []), is'))
    else err (wire_type_error wt)

unfoldable pub set_read :
    {A : Type 0}
    → WireType
    → (Bytes → R (A × Bytes))
    → WireType
    → Bytes
    → Option A
    → R (Option A × Bytes)
unfolding code
set_read expected read wt is o =
    if code wt == code expected
    then (do (a, is') ← read is; ok (some a, is'))
    else err (wire_type_error wt)

-- Unknown fields are kept as they were read. Groups and fixed-width fields are refused.
unfoldable pub read_unknown : ℕ → WireType → Bytes → Bytes → R (Bytes × Bytes)
unfolding read_varint read_block tag
read_unknown n varint is u = do (v, is') ← read_varint is; ok (u ++ (tag n varint ++ encode v), is')
read_unknown n length_delimited is u = do
  (s, is') ← read_block is
  ok (u ++ (tag n length_delimited ++ (encode (length s) ++ s)), is')
read_unknown n wt is u = err (wire_type_error wt)

unfoldable pub at_end : Bytes → Bool
at_end [] = true
at_end (b ∷ bs) = false

unfoldable pub read_u32 : Bytes → R (ℕ × Bytes)
unfolding read_varint
read_u32 is = do (v, is') ← read_varint is; ok (v % 2 ^ 32, is')

unfoldable pub parse : {M : Type 0} → Message Failure M → Bytes → R M
unfolding checked
parse I bs = do r ← I.merge_from I.default bs; (m, left) ← checked I r; ok m

instance abbrev pub sample : Protobuf
sample = record {
  ProtobufError = Failure;
  UnknownFields = Bytes;
  no_fields = [];
  unexpected_wire_type = wire_type_error;
  value_size_i32 = λ n v wt. length (tag n wt ++ int32 v);
  value_size_u32 = λ n v wt. length (tag n wt ++ encode v);
  string_size = λ n s. length (tag n length_delimited ++ text s);
  enum_size = λ n v. length (tag n varint ++ int32 v);
  compute_raw_varint32_size = λ v. length (encode v);
  unknown_fields_size = λ u. length u;
  write_tag = λ n wt os. ok (os ++ tag n wt);
  write_raw_varint32 = λ v os. ok (os ++ encode v);
  write_int32 = λ n v os. ok (os ++ (tag n varint ++ int32 v));
  write_uint32 = λ n v os. ok (os ++ (tag n varint ++ encode v));
  write_bool = λ n v os. ok (os ++ (tag n varint ++ bool v));
  write_string = λ n s os. ok (os ++ (tag n length_delimited ++ text s));
  write_enum = λ n v os. ok (os ++ (tag n varint ++ int32 v));
  write_unknown_fields = λ u os. ok (os ++ u);
  eof = λ is. ok (at_end is);
  read_tag_unpack = read_tag;
  read_int32 = read_int;
  read_uint32 = read_u32;
  read_bool = read_flag;
  read_string = read_text;
  read_enum = read_enumerator;
  read_message = λ I is. (do r ← read_into I is; checked I r);
  read_repeated_int32_into = append_read varint read_int;
  read_repeated_bool_into = append_read varint read_flag;
  read_repeated_string_into = append_read length_delimited read_text;
  read_repeated_message_into = λ I. append_read length_delimited (read_into I);
  read_singular_string_into = set_read length_delimited read_text;
  read_singular_message_into = λ I. set_read length_delimited (read_into I);
  read_unknown_or_skip_group = read_unknown;
  write_to_bytes = λ I m.
      if I.is_initialized m
      then I.write_to_with_cached_sizes (I.compute_size m).1 []
      else err uninitialized;
  parse_from_bytes = parse;
}
