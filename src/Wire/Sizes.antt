-- ===== src/Wire/Sizes.antt =====
-- The sums of `compute_size` are the lengths of the encodings.
use sysadmin.Base.{
  ℕ, ◌+◌, Option, none, some, List, [], ◌∷◌, ◌++◌, length, length-append, ◌≡◌, refl, arith,
}
use sysadmin.Protobuf.{Bytes, Message, Protobuf, length_delimited}
use sysadmin.Protobuf.Laws.{IsLawful, Fits}
use sysadmin.Wire.{wrap32, opt_size, sum_size, message_size, opt_message_size, sum_message_size}
use sysadmin.Wire.Codec.{Sizes, IsCodec}

pub Fits-left : (xs ys : Bytes) → Fits (xs ++ ys) → Fits xs
Fits-left xs ys h = omega (arith, length-append xs ys)

pub Fits-right : (xs ys : Bytes) → Fits (xs ++ ys) → Fits ys
Fits-right xs ys h = omega (arith, length-append xs ys)

module _ {A : Type 0} where
  -- The bytes of an optional field, and of a repeated one.
  unfoldable pub opt : (A → Bytes) → Option A → Bytes
  opt f none = []
  opt f (some a) = f a

  unfoldable pub each : (A → Bytes) → List A → Bytes
  each f [] = []
  each f (a ∷ as') = f a ++ each f as'

pub wrap32-Sizes : {n : ℕ} {bs : Bytes} → Sizes n bs → Sizes (wrap32 n) bs
unfolding wrap32
wrap32-Sizes {n} {bs} s = record { counts = λ h. omega (arith, s.counts h) }

pub append-Sizes : {m n : ℕ} {xs ys : Bytes} → Sizes m xs → Sizes n ys → Sizes (m + n) (xs ++ ys)
append-Sizes {xs} {ys} s t = record {
  counts = λ h.
      omega
        (arith, s.counts (Fits-left xs ys h), t.counts (Fits-right xs ys h), length-append xs ys);
}

pub nil-Sizes : Sizes 0 []
nil-Sizes = record { counts = λ h. refl }

module _ {A : Type 0} {size : A → ℕ} {f : A → Bytes} (s : (a : A) → Sizes (size a) (f a)) where
  pub opt-Sizes : (o : Option A) → Sizes (opt_size size o) (opt f o)
  unfolding opt_size opt
  opt-Sizes none = nil-Sizes
  opt-Sizes (some a) = s a

  pub each-Sizes : (as' : List A) → Sizes (sum_size size as') (each f as')
  unfolding sum_size each
  each-Sizes [] = nil-Sizes
  each-Sizes (a ∷ as') = append-Sizes (s a) (each-Sizes as')

module _ ⦃P : Protobuf⦄ (L : IsLawful P) where
  -- The bytes of a nested message: its tag, its length and its body.
  unfoldable pub message_bytes : {M : Type 0} → (M → Bytes) → ℕ → M → Bytes
  message_bytes encode n m =
      L.tag n length_delimited ++ (L.raw_varint32 (length (encode m)) ++ encode m)

  module _ {M : Type 0} {I : Message P.ProtobufError M} (C : IsCodec I) where
    pub message-Sizes :
        (prefix n : ℕ)
        → length (L.tag n length_delimited) ≡ prefix
        → (m : M) → Sizes (message_size I prefix m).0 (message_bytes C.encode n m)
    unfolding message_size message_bytes
    message-Sizes prefix n e m = record {
      counts = λ h.
          let body : Bytes = C.encode m in
          let head : Bytes = L.raw_varint32 (length body) in
          let fits : Fits body = Fits-right head body (Fits-right _ (head ++ body) h) in
          let same : (I.compute_size m).0 ≡ length body = (C.compute_size_lem m).counts fits in
          rw same (
            omega (
              arith,
              e,
              L.compute_raw_varint32_size_lem (length body) fits,
              length-append (L.tag n length_delimited) (head ++ body),
              length-append head body,
            ));
    }

    pub opt_message-Sizes :
        (prefix n : ℕ)
        → length (L.tag n length_delimited) ≡ prefix
        → (o : Option M) → Sizes (opt_message_size I prefix o).0 (opt (message_bytes C.encode n) o)
    unfolding opt_message_size opt
    opt_message-Sizes prefix n e none = nil-Sizes
    opt_message-Sizes prefix n e (some m) = message-Sizes prefix n e m

    pub each_message-Sizes :
        (prefix n : ℕ)
        → length (L.tag n length_delimited) ≡ prefix
        → (ms : List M)
        → Sizes (sum_message_size I prefix ms).0 (each (message_bytes C.encode n) ms)
    unfolding sum_message_size each
    each_message-Sizes prefix n e [] = nil-Sizes
    each_message-Sizes prefix n e (m ∷ ms) =
        append-Sizes (message-Sizes prefix n e m) (each_message-Sizes prefix n e ms)
