-- ===== src/Wire/Writes.antt =====
-- The writers append the encodings.
use sysadmin.Base.{
  ℕ, Option, none, some, List, [], ◌∷◌, ◌++◌, length, sym, ap, Result, ok, ◌>>=◌, append-nil,
  append_assoc,
}
use sysadmin.Protobuf.{Bytes, Message, Protobuf, length_delimited}
use sysadmin.Protobuf.Laws.{IsLawful, Fits}
use sysadmin.Wire.{
  write_opt, write_each, message_size, opt_message_size, sum_message_size, write_message,
}
use sysadmin.Wire.Codec.{Writes, IsCodec}
use sysadmin.Wire.Sizes.{Fits-left, Fits-right, opt, each, message_bytes}

module _ {E : Type 0} where
  pub append-Writes :
      {w v : Bytes → Result E Bytes} {xs ys : Bytes}
      → Writes w xs
      → Writes v ys
      → Writes (λ os. w os >>= v) (xs ++ ys)
  append-Writes {xs} {ys} p q = record {
    appends = λ os h.
        rw (p.appends os (Fits-left xs ys h), q.appends (os ++ xs) (Fits-right xs ys h))
          (ap ok (append_assoc os xs ys));
  }

  pub nil-Writes : Writes {E = E} (λ os. ok os) []
  nil-Writes = record { appends = λ os h. ap ok (sym (append-nil os)) }

  module _ {A : Type 0} {w : A → Bytes → Result E Bytes} {f : A → Bytes}
      (p : (a : A) → Writes (w a) (f a)) where
    pub opt-Writes : (o : Option A) → Writes (write_opt w o) (opt f o)
    unfolding write_opt opt
    opt-Writes none = nil-Writes
    opt-Writes (some a) = p a

    pub each-Writes : (as' : List A) → Writes (write_each w as') (each f as')
    unfolding write_each each
    each-Writes [] = nil-Writes
    each-Writes (a ∷ as') = append-Writes (p a) (each-Writes as')

module _ ⦃P : Protobuf⦄ (L : IsLawful P) {M : Type 0} {I : Message P.ProtobufError M}
    (C : IsCodec I) (prefix n : ℕ) where
  -- After `compute_size` the cached sizes are those of the bodies.
  pub message-Writes :
      (m : M)
      → Writes (write_message I n (message_size I prefix m).1) (message_bytes L C.encode n m)
  unfolding message_size message_bytes write_message
  message-Writes m = record {
    appends = λ os h.
        let body : Bytes = C.encode m in
        let head : Bytes = L.raw_varint32 (length body) in
        let fits : Fits body = Fits-right head body (Fits-right _ (head ++ body) h) in
        rw (
          L.write_tag_lem n length_delimited os,
          C.get_cached_size_lem m,
          (C.compute_size_lem m).counts fits,
          L.write_raw_varint32_lem (length body) _ fits,
          (C.write_lem m).appends _ fits,
          append_assoc os (L.tag n length_delimited) head,
          append_assoc os (L.tag n length_delimited ++ head) body,
          append_assoc (L.tag n length_delimited) head body,
        );
  }

  pub opt_message-Writes :
      (o : Option M)
      → Writes
          (write_opt (write_message I n) (opt_message_size I prefix o).1)
          (opt (message_bytes L C.encode n) o)
  unfolding write_opt opt opt_message_size
  opt_message-Writes none = nil-Writes
  opt_message-Writes (some m) = message-Writes m

  pub each_message-Writes :
      (ms : List M)
      → Writes
          (write_each (write_message I n) (sum_message_size I prefix ms).1)
          (each (message_bytes L C.encode n) ms)
  unfolding write_each each sum_message_size
  each_message-Writes [] = nil-Writes
  each_message-Writes (m ∷ ms) = append-Writes (message-Writes m) (each_message-Writes ms)
