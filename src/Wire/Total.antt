-- ===== src/Wire/Total.antt =====
-- The loop of `merge_from` ends on every input, if its step is total.
use sysadmin.Base.{
  ℕ, zero, suc, ◌<◌, Bool, true, false, [], ◌∷◌, length, refl, Result, err, ◌>>=◌, arith,
}
use sysadmin.Protobuf.{Bytes, WireType, Protobuf}
use sysadmin.Protobuf.Totality.{Total, Returns, IsTotal, bind_total, weaken}
use sysadmin.Wire.{expect, merge_loop, same_wire_type}
use sysadmin.Wire.Reads.{Step}

end_total :
    {E A : Type 0} {k : ℕ} {r : Result E Bool} {x y : Result E (A × Bytes)}
    → Returns r
    → Total k x
    → Total k y
    → Total k (r >>= λ done. elim done [ true ↦ x | false ↦ y ])
end_total (Returns.value {a = true}) p q = p
end_total (Returns.value {a = false}) p q = q
end_total Returns.error p q = Total.error

module _ ⦃P : Protobuf⦄ where
  pub expect_total :
      {A : Type 0} {k : ℕ} (expected wt : WireType) {r : Result P.ProtobufError (A × Bytes)}
      → Total k r
      → Total k (expect expected wt r)
  unfolding expect
  expect_total expected wt h = split (same_wire_type wt expected) h
    where
      split :
          {A : Type 0} {k : ℕ} (b : Bool) {r : Result P.ProtobufError (A × Bytes)}
          → Total k r
          → Total k (elim b [ true ↦ r | false ↦ err (P.unexpected_wire_type wt) ])
      split true h = h
      split false h = Total.error

  module _ (T : IsTotal P) {M : Type 0} (field : Step P.ProtobufError M)
      (step : (n : ℕ) (wt : WireType) (m : M) (is : Bytes)
        → Total (length is) (field n wt m is)) where
    loop_total :
        (fuel : ℕ) (m : M) (is : Bytes)
        → length is < fuel
        → Total (length is) (merge_loop field fuel m is)
    unfolding merge_loop
    loop_total zero m is h = elim h [ ]
    loop_total (suc fuel) m [] h = rw (T.eof-empty [] refl) (Total.value (omega arith))
    loop_total (suc fuel) m (b ∷ rest) h =
        end_total (T.eof-total (b ∷ rest)) (Total.value (omega arith)) (
          weaken (omega arith) (
            bind_total _ (T.read_tag_unpack-total (length rest) (b ∷ rest) refl) λ (n, wt) is l.
              bind_total _ (weaken l (step n wt m is))
                λ m' is' l'. weaken l' (loop_total fuel m' is' (omega arith))))

    -- The rounds that `merge_from` has are enough.
    pub merge_loop-total :
        (m : M) (is : Bytes) → Total (length is) (merge_loop field (suc (length is)) m is)
    merge_loop-total m is = loop_total (suc (length is)) m is (omega arith)
