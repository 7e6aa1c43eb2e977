-- ===== src/Protobuf/Sample/Totals.antt =====
-- The readers of the instance are total.
use sysadmin.Base.{
  ℕ, zero, suc, ◌+◌, ◌-◌, ◌*◌, ◌%◌, ◌≤◌, ℤ, Bool, true, false, Option, none, some, List, [], ◌∷◌,
  length, drop, ◌≡◌, refl, Result, ok, err, panic, stuck, ◌>>=◌, ltb, ◌==◌, if◌then◌else◌, arith,
}
use sysadmin.Protobuf.{Bytes, WireType, varint, length_delimited, Message}
use sysadmin.Protobuf.Totality.{Total, Returns, Parser, IsTotal, then_total, bind_total, if_total}
use sysadmin.Protobuf.Sample.{
  Failure, R, from_code, read_varint, read_block, read_tag, read_int, read_text, read_flag,
  read_enumerator, read_into, checked, append_read, set_read, read_unknown, read_u32, parse, at_end,
  sample,
}
use sysadmin.Protobuf.Sample.Varint.{SampleError, decode}

pub decode-total : (bs : Bytes) (k : ℕ) → length bs ≤ suc k → Total k (decode bs)
unfolding decode
decode-total [] k h = Total.error
decode-total (b ∷ bs) k h =
    if_total (ltb b 128) (Total.value (omega arith))
      (then_total (λ v. b - 128 + 128 * v) (decode-total bs k (omega arith)))

pub convert-total :
    {k : ℕ} {r : Result SampleError (ℕ × Bytes)}
    → Total k r
    → Total k (elim r [
      | ok (v, is') ↦ ok (v, is')
      | err e ↦ err (Failure.input_error e)
      | panic ↦ err Failure.bad_tag
      | stuck ↦ err Failure.bad_tag
    ])
convert-total (Total.value h) = Total.value h
convert-total Total.error = Total.error

read_varint-shorter : (is : Bytes) (k : ℕ) → length is ≤ suc k → Total k (read_varint is)
unfolding read_varint
read_varint-shorter is k h = convert-total (decode-total is k h)

pub read_varint-total : (is : Bytes) → Total (length is) (read_varint is)
read_varint-total is = read_varint-shorter is (length is) (omega arith)

length-drop-le : (n : ℕ) (xs : Bytes) → length (drop n xs) ≤ length xs
length-drop-le zero xs = omega arith
length-drop-le (suc n) [] = omega arith
length-drop-le (suc n) (x ∷ xs) = omega (arith, length-drop-le n xs)

pub read_block-total : (is : Bytes) → Total (length is) (read_block is)
unfolding read_block
read_block-total is = bind_total _ (read_varint-total is) λ len is' h.
    if_total (ltb (length is') len) Total.error
      (Total.value (omega (arith, length-drop-le len is')))

returns_if :
    {E A : Type 0} (b : Bool) {x y : Result E A}
    → Returns x
    → Returns y
    → Returns (if b then x else y)
returns_if true p q = p
returns_if false p q = q

returns_bind :
    {E A B : Type 0} {k : ℕ} {r : Result E A} (f : A → Result E (B × Bytes))
    → Returns r
    → ((a : A) → Total k (f a))
    → Total k (r >>= f)
returns_bind f (Returns.value {a}) g = g a
returns_bind f Returns.error g = Total.error

from_code-returns : (n : ℕ) → Returns (from_code n)
unfolding from_code
from_code-returns n = returns_if (n == 0) Returns.value (
    returns_if (n == 1) Returns.value (
      returns_if (n == 2) Returns.value (
        returns_if (n == 3) Returns.value
          (returns_if (n == 4) Returns.value (returns_if (n == 5) Returns.value Returns.error)))))

pub read_tag-total : (k : ℕ) (is : Bytes) → length is ≡ suc k → Total k (read_tag is)
unfolding read_tag
read_tag-total k is e =
    bind_total _ (read_varint-shorter is k (omega arith))
      λ v is' h. returns_bind _ (from_code-returns (v % 8)) λ wt. Total.value h

pub read_int-total : (is : Bytes) → Total (length is) (read_int is)
unfolding read_int
read_int-total is = then_total _ (read_varint-total is)

pub read_text-total : (is : Bytes) → Total (length is) (read_text is)
unfolding read_text
read_text-total is =
    bind_total _ (read_block-total is) λ s is' h. if_total _ (Total.value h) Total.error

pick_total :
    {A : Type 0} {k : ℕ} (is' : Bytes) (o : Option A)
    → length is' ≤ k
    → Total {E = Failure} k (elim o [ some a ↦ ok (a, is') | none ↦ err Failure.bad_enum ])
pick_total is' none h = Total.error
pick_total is' (some a) h = Total.value h

pub read_enumerator-total :
    {A : Type 0} (from_i32 : ℤ → Option A) (is : Bytes)
    → Total (length is) (read_enumerator from_i32 is)
unfolding read_enumerator
read_enumerator-total from_i32 is =
    bind_total _ (read_int-total is) λ v is' h. pick_total is' (from_i32 v) h

pub read_flag-total : (is : Bytes) → Total (length is) (read_flag is)
unfolding read_flag
read_flag-total is = then_total _ (read_varint-total is)

pub read_u32-total : (is : Bytes) → Total (length is) (read_u32 is)
unfolding read_u32
read_u32-total is = then_total _ (read_varint-total is)

-- The body is parsed apart from what follows it.
inner_total :
    {M : Type 0} {j k : ℕ} {r : R (M × Bytes)} (is' : Bytes)
    → Total j r
    → length is' ≤ k
    → Total k (r >>= λ (m, left). ok (m, is'))
inner_total is' (Total.value l) h = Total.value h
inner_total is' Total.error h = Total.error

pub read_into-total :
    {M : Type 0} (I : Message Failure M) (is : Bytes)
    → Parser I
    → Total (length is) (read_into I is)
unfolding read_into
read_into-total I is p =
    bind_total _ (read_block-total is) λ body is' h. inner_total is' (p I.default body) h

pub checked-total :
    {M : Type 0} (I : Message Failure M) {k : ℕ} {r : R (M × Bytes)}
    → Total k r
    → Total k (r >>= checked I)
unfolding checked
checked-total I t =
    bind_total _ t λ m is h. if_total (I.is_initialized m) (Total.value h) Total.error

pub append_read-total :
    {A : Type 0} (expected : WireType) (read : Bytes → R (A × Bytes)) (wt : WireType) (is : Bytes)
    (as' : List A)
    → Total (length is) (read is)
    → Total (length is) (append_read expected read wt is as')
unfolding append_read
append_read-total expected read wt is as' t = if_total _ (then_total _ t) Total.error

pub set_read-total :
    {A : Type 0} (expected : WireType) (read : Bytes → R (A × Bytes)) (wt : WireType) (is : Bytes)
    (o : Option A)
    → Total (length is) (read is)
    → Total (length is) (set_read expected read wt is o)
unfolding set_read
set_read-total expected read wt is o t = if_total _ (then_total _ t) Total.error

pub read_unknown-total :
    (n : ℕ) (wt : WireType) (is u : Bytes) → Total (length is) (read_unknown n wt is u)
unfolding read_unknown
read_unknown-total n varint is u = then_total _ (read_varint-total is)
read_unknown-total n length_delimited is u = then_total _ (read_block-total is)
read_unknown-total n wt is u = Total.error

returns_parse :
    {M : Type 0} {k : ℕ} {r : R (M × Bytes)} → Total k r → Returns (r >>= λ (m, left). ok m)
returns_parse (Total.value h) = Returns.value
returns_parse Total.error = Returns.error

returns_checked :
    {M : Type 0} (I : Message Failure M) {k : ℕ} {r : R (M × Bytes)}
    → Total k r
    → Returns (r >>= λ x. checked I x >>= λ (m, left). ok m)
unfolding checked
returns_checked I (Total.value {a} {is} h) =
    returns_parse (if_total (I.is_initialized a) (Total.value h) Total.error)
returns_checked I Total.error = Returns.error

pub parse-total :
    {M : Type 0} (I : Message Failure M) (is : Bytes) → Parser I → Returns (parse I is)
unfolding parse
parse-total I is p = returns_checked I (p I.default is)

pub eof-empty : (is : Bytes) → length is ≡ 0 → sample.eof is ≡ ok true
unfolding at_end
eof-empty [] e = refl
eof-empty (b ∷ is) e = absurd (omega arith)

abbrev pub total : IsTotal sample
total = record {
  eof-total = λ is. Returns.value;
  read_tag_unpack-total = read_tag-total;
  eof-empty = eof-empty;
  read_int32-total = read_int-total;
  read_uint32-total = read_u32-total;
  read_bool-total = read_flag-total;
  read_string-total = read_text-total;
  read_enum-total = read_enumerator-total;
  read_message-total = λ I is p. checked-total I (read_into-total I is p);
  read_repeated_int32_into-total =
      λ wt is vs. append_read-total varint read_int wt is vs (read_int-total is);
  read_repeated_bool_into-total =
      λ wt is vs. append_read-total varint read_flag wt is vs (read_flag-total is);
  read_repeated_string_into-total =
      λ wt is vs. append_read-total length_delimited read_text wt is vs (read_text-total is);
  read_repeated_message_into-total = λ I wt is ms p.
      append_read-total length_delimited (read_into I) wt is ms (read_into-total I is p);
  read_singular_string_into-total =
      λ wt is s. set_read-total length_delimited read_text wt is s (read_text-total is);
  read_singular_message_into-total =
      λ I wt is m p. set_read-total length_delimited (read_into I) wt is m (read_into-total I is p);
  read_unknown_or_skip_group-total = read_unknown-total;
  parse_from_bytes-total = parse-total;
}
