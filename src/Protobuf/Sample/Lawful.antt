-- ===== src/Protobuf/Sample/Lawful.antt =====
-- The instance meets the laws.
use sysadmin.Base.{
  ℕ, ◌+◌, ◌-◌, ◌*◌, ◌/◌, ◌%◌, ◌^◌, ◌≤◌, ◌<◌, ℤ, pos, negsuc, IsI32, IsU32, Bool, true, false,
  Option, none, some, List, [], ◌∷◌, ◌++◌, length, length-append, take-append, drop-append,
  append_assoc, ok, ◌≡◌, refl, arith, ltb,
}
use sysadmin.Protobuf.{
  Bytes, Text, WireType, varint, length_delimited, fixed64, start_group, end_group, fixed32,
  Message,
}
use sysadmin.Protobuf.Laws.{IsLawful, Fits}
use sysadmin.Protobuf.Sample.{
  Failure, R, code, from_code, tag, is_ascii, int32, to_i32, bool, text, read_varint, read_block,
  read_tag, read_int, read_text, read_flag, read_enumerator, read_into, checked, append_read,
  set_read, at_end, read_u32, parse, sample,
}
use sysadmin.Protobuf.Sample.Varint.{
  encode, decode, decode-encode, length-encode_one, length-encode_two,
}

read_varint-encode : (v : ℕ) (is : Bytes) → v < 2 ^ 70 → read_varint (encode v ++ is) ≡ ok (v, is)
unfolding read_varint
read_varint-encode v is h = rw (decode-encode v is h, read_varint)

code_lt : (wt : WireType) → code wt < 6
unfolding code
code_lt varint = omega arith
code_lt fixed64 = omega arith
code_lt length_delimited = omega arith
code_lt start_group = omega arith
code_lt end_group = omega arith
code_lt fixed32 = omega arith

from_code-code : (wt : WireType) → from_code (code wt) ≡ ok wt
unfolding code from_code
from_code-code varint = refl
from_code-code fixed64 = refl
from_code-code length_delimited = refl
from_code-code start_group = refl
from_code-code end_group = refl
from_code-code fixed32 = refl

pub read_tag-tag :
    (n : ℕ) (wt : WireType) (is : Bytes) → n < 2048 → read_tag (tag n wt ++ is) ≡ ok ((n, wt), is)
unfolding read_tag tag
read_tag-tag n wt is h =
    let c : code wt < 6 = code_lt wt in
    let low : (n * 8 + code wt) % 8 ≡ code wt = omega arith in
    let high : (n * 8 + code wt) / 8 ≡ n = omega arith in
    rw (read_varint-encode (n * 8 + code wt) is (omega arith), low, high, from_code-code wt)

pub length-tag : (n : ℕ) (wt : WireType) → 1 ≤ n → n < 16 → length (tag n wt) ≡ 1
unfolding tag
length-tag n wt lo hi = length-encode_one (n * 8 + code wt) (omega (arith, code_lt wt))

pub length-tag_two : (n : ℕ) (wt : WireType) → 16 ≤ n → n < 2048 → length (tag n wt) ≡ 2
unfolding tag
length-tag_two n wt lo hi =
    length-encode_two (n * 8 + code wt) (omega arith) (omega (arith, code_lt wt))

to_i32-pos : (n : ℕ) → n < 2 ^ 31 → to_i32 n ≡ pos n
unfolding to_i32
to_i32-pos n h = ground arith

to_i32-negsuc : (n : ℕ) → n < 2 ^ 31 → to_i32 (2 ^ 64 - 1 - n) ≡ negsuc n
unfolding to_i32
to_i32-negsuc n h = ground arith

pub read_int-int32 : (v : ℤ) (is : Bytes) → IsI32 v → read_int (int32 v ++ is) ≡ ok (v, is)
unfolding read_int int32
read_int-int32 (pos n) is h = rw (read_varint-encode n is (omega arith), to_i32-pos n h)
read_int-int32 (negsuc n) is h =
    rw (read_varint-encode (2 ^ 64 - 1 - n) is (omega arith), to_i32-negsuc n h)

pub read_flag-bool : (b : Bool) (is : Bytes) → read_flag (bool b ++ is) ≡ ok (b, is)
unfolding read_flag read_varint bool decode
read_flag-bool true is = refl
read_flag-bool false is = refl

read_block-append :
    (s is : Bytes) → length s < 2 ^ 70 → read_block (encode (length s) ++ (s ++ is)) ≡ ok (s, is)
unfolding read_block
read_block-append s is h =
    let e : ltb (length (s ++ is)) (length s) ≡ false = ground (arith, length-append s is) in
    rw (read_varint-encode (length s) (s ++ is) h, e, take-append s is, drop-append s is)

pub read_text-text :
    (s : Text) (is : Bytes)
    → is_ascii s ≡ true
    → Fits (text s)
    → read_text (text s ++ is) ≡ ok (s, is)
unfolding read_text text
read_text-text s is ascii h = rw (
  append_assoc (encode (length s)) s is,
  read_block-append s is (omega (arith, length-append (encode (length s)) s)),
  ascii,
)

pub read_enumerator_lem :
    {A : Type 0} (from_i32 : ℤ → Option A) (v : ℤ) (a : A) (is : Bytes)
    → IsI32 v
    → from_i32 v ≡ some a
    → read_enumerator from_i32 (int32 v ++ is) ≡ ok (a, is)
unfolding read_enumerator
read_enumerator_lem from_i32 v a is h e = rw (read_int-int32 v is h, e)

pub read_into_lem :
    {M : Type 0} (I : Message Failure M) (m : M) (body is : Bytes)
    → Fits body
    → I.merge_from I.default body ≡ ok (m, [])
    → read_into I (encode (length body) ++ (body ++ is)) ≡ ok (m, is)
unfolding read_into
read_into_lem I m body is h e = rw (read_block-append body is (omega arith), e)

pub append_read_lem :
    {A : Type 0} (wt : WireType) (read : Bytes → R (A × Bytes)) (bs is : Bytes) (a : A)
    (as' : List A)
    → read bs ≡ ok (a, is)
    → append_read wt read wt bs as' ≡ ok (as' ++ (a ∷ []), is)
unfolding append_read
append_read_lem wt read bs is a as' e = ground (arith, e)

pub set_read_lem :
    {A : Type 0} (wt : WireType) (read : Bytes → R (A × Bytes)) (bs is : Bytes) (a : A)
    → read bs ≡ ok (a, is)
    → set_read wt read wt bs none ≡ ok (some a, is)
unfolding set_read
set_read_lem wt read bs is a e = ground (arith, e)

pub length-bool : (b : Bool) → length (bool b) ≡ 1
unfolding bool
length-bool true = refl
length-bool false = refl

pub read_uint32_lem : (v : ℕ) (is : Bytes) → IsU32 v → read_u32 (encode v ++ is) ≡ ok (v, is)
unfolding read_u32
read_uint32_lem v is h =
    let e : v % 2 ^ 32 ≡ v = omega arith in rw (read_varint-encode v is (omega arith), e)

pub read_message_lem :
    {M : Type 0} (I : Message Failure M) (m : M) (body is : Bytes)
    → Fits body
    → I.merge_from I.default body ≡ ok (m, [])
    → I.is_initialized m ≡ true
    → sample.read_message I (encode (length body) ++ (body ++ is)) ≡ ok (m, is)
unfolding checked
read_message_lem I m body is h e init = rw (read_into_lem I m body is h e, init)

pub parse_from_bytes_lem :
    {M : Type 0} (I : Message Failure M) (m : M) (bs : Bytes)
    → I.merge_from I.default bs ≡ ok (m, [])
    → I.is_initialized m ≡ true
    → parse I bs ≡ ok m
unfolding parse
parse_from_bytes_lem I m bs e init = rw (e, init)

pub write_to_bytes_lem :
    {M : Type 0} (I : Message Failure M) (m : M)
    → I.is_initialized m ≡ true
    → sample.write_to_bytes I m ≡ I.write_to_with_cached_sizes (I.compute_size m).1 []
write_to_bytes_lem I m init = rw init

pub eof-nil : sample.eof [] ≡ ok true
unfolding at_end
eof-nil = refl

pub eof-cons : (b : ℕ) (is : Bytes) → sample.eof (b ∷ is) ≡ ok false
unfolding at_end
eof-cons b is = refl

abbrev pub lawful : IsLawful sample
lawful = record {
  tag = tag;
  raw_varint32 = encode;
  int32 = int32;
  bool = bool;
  text = text;
  unknown = λ u. u;
  IsUtf8 = λ s. is_ascii s ≡ true;
  write_tag_lem = λ n wt os. refl;
  write_raw_varint32_lem = λ v os h. refl;
  write_int32_lem = λ n v os. refl;
  write_uint32_lem = λ n v os. refl;
  write_bool_lem = λ n v os. refl;
  write_string_lem = λ n s os h. refl;
  write_enum_lem = λ n v os. refl;
  write_unknown_fields_lem = λ u os. refl;
  unknown_none = refl;
  length-tag = length-tag;
  length-tag_two = length-tag_two;
  length-bool = length-bool;
  value_size_i32_lem = λ n v. refl;
  value_size_u32_lem = λ n v. refl;
  string_size_lem = λ n s h. refl;
  enum_size_lem = λ n v. refl;
  compute_raw_varint32_size_lem = λ v h. refl;
  unknown_fields_size_lem = λ u h. refl;
  eof-nil = eof-nil;
  eof-cons = eof-cons;
  read_tag_unpack_lem = λ n wt is lo hi. read_tag-tag n wt is hi;
  read_int32_lem = read_int-int32;
  read_uint32_lem = read_uint32_lem;
  read_bool_lem = read_flag-bool;
  read_string_lem = read_text-text;
  read_enum_lem = read_enumerator_lem;
  read_message_lem = read_message_lem;
  read_repeated_int32_into_lem =
      λ v is vs h. append_read_lem varint read_int _ is v vs (read_int-int32 v is h);
  read_repeated_bool_into_lem =
      λ v is vs. append_read_lem varint read_flag _ is v vs (read_flag-bool v is);
  read_repeated_string_into_lem =
      λ s is ss a h. append_read_lem length_delimited read_text _ is s ss (read_text-text s is a h);
  read_repeated_message_into_lem = λ I m body is ms h e.
      append_read_lem length_delimited (read_into I) _ is m ms (read_into_lem I m body is h e);
  read_singular_string_into_lem =
      λ s is a h. set_read_lem length_delimited read_text _ is s (read_text-text s is a h);
  read_singular_message_into_lem = λ I m body is h e.
      set_read_lem length_delimited (read_into I) _ is m (read_into_lem I m body is h e);
  write_to_bytes_lem = write_to_bytes_lem;
  parse_from_bytes_lem = parse_from_bytes_lem;
}
