-- ===== src/Ctl/Command/Refusal.antt =====
-- The refusals of `merge_from` of `Command` in clients/rust/src/sysadminctl.rs.
use sysadmin.Base.{
  ◌⊎◌, inl, inr, ◌≤◌, ◌<◌, length, ◌++◌, ℕ, false, Option, none, some, ◌≡◌, err, ◌==◌,
  if◌then◌else◌, arith,
}
use sysadmin.Protobuf.{Bytes, WireType, varint, length_delimited, Protobuf}
use sysadmin.Wire.{same_wire_type, expect, merge_loop}
use sysadmin.Protobuf.Laws.{IsLawful}
use sysadmin.Ctl.Command.{merge_from, Command, merge_field}
use sysadmin.Wire.Reads.{eof-append}

-- The wire type of each field of sysadmin-api/sysadminctl.proto.
unfoldable pub wire_type_of : ℕ → Option WireType
wire_type_of n =
    if n == 6
    then some varint
    else if n == 10
    then some varint
    else if n == 1
    then some length_delimited
    else if n == 2
    then some length_delimited
    else if n == 3
    then some length_delimited
    else if n == 4
    then some length_delimited
    else if n == 7
    then some length_delimited
    else if n == 8
    then some length_delimited
    else if n == 11
    then some length_delimited
    else if n == 12
    then some length_delimited
    else if n == 13
    then some length_delimited
    else if n == 14
    then some length_delimited
    else if n == 15
    then some length_delimited
    else if n == 16
    then some length_delimited
    else none

module _ ⦃P : Protobuf⦄ where
  merge_field_refuses :
      (n : ℕ) (wt e : WireType) (m : Command) (is : Bytes)
      → wire_type_of n ≡ some e
      → same_wire_type wt e ≡ false
      → merge_field n wt m is ≡ err (P.unexpected_wire_type wt)
  unfolding wire_type_of merge_field expect
  merge_field_refuses n wt e m is h i = ground arith

known_bounds : (n : ℕ) (e : WireType) → wire_type_of n ≡ some e → (1 ≤ n) × (n < 17)
unfolding wire_type_of
known_bounds n e h = ground arith

module _ ⦃P : Protobuf⦄ (L : IsLawful P) where
  tag_long : (n : ℕ) (wt : WireType) → 1 ≤ n → n < 17 → 1 ≤ length (L.tag n wt)
  tag_long n wt lo hi =
      let side : (n < 16) ⊎ (16 ≤ n) = omega arith in
      elim side [
        | inl low ↦ omega (arith, L.length-tag n wt lo low)
        | inr high ↦ omega (arith, L.length-tag_two n wt high (omega arith))
      ]

  -- Into any command, parsing a field of the format whose tag has another wire type than the format gives
  -- that field fails with the wire type that was found, whatever bytes follow the tag.
  pub merge_from-refuses :
      (n : ℕ) (wt e : WireType) (m : Command) (is : Bytes)
      → wire_type_of n ≡ some e
      → same_wire_type wt e ≡ false
      → merge_from m (L.tag n wt ++ is) ≡ err (P.unexpected_wire_type wt)
  unfolding merge_from merge_loop
  merge_from-refuses n wt e m is h i =
      let (lo, hi) = known_bounds n e h in
      rw (
        eof-append L (L.tag n wt) is (tag_long n wt lo hi),
        L.read_tag_unpack_lem n wt is lo (omega arith),
        merge_field_refuses n wt e m is h i,
      )
