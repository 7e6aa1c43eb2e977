-- ===== src/Wire/Codec.antt =====
-- The contract of a message's `impl Message`: its size, its bytes and its parser agree.
use sysadmin.Base.{ℕ, length, [], ◌++◌, ◌≡◌, Result, ok}
use sysadmin.Protobuf.{Bytes, Message, Protobuf}
use sysadmin.Protobuf.Laws.{Fits}

-- `w` appends `bs` to the stream, if a `u32` can count them.
pub record Writes {E : Type 0} (w : Bytes → Result E Bytes) (bs : Bytes) : Type 0 where
  pub appends : (os : Bytes) → Fits bs → w os ≡ ok (os ++ bs)

-- `n` is the number of the bytes, if a `u32` can count them.
pub record Sizes (n : ℕ) (bs : Bytes) : Type 0 where
  pub counts : Fits bs → n ≡ length bs

module _ ⦃P : Protobuf⦄ where
  pub record IsCodec {M : Type 0} (I : Message P.ProtobufError M) : Type 1 where
    -- The bytes of a message.
    pub encode : M → Bytes
    -- The message as it is after parsing: no size is cached.
    pub fresh : M → M
    -- What the types of Rust ensure (the ranges, UTF-8), and that no unknown field is kept.
    pub IsValid : M → Type 0
    pub is_initialized-fresh : (m : M) → I.is_initialized (fresh m) ≡ I.is_initialized m
    -- Filling in the cached sizes changes neither the bytes nor what is set.
    pub encode-compute_size : (m : M) → encode (I.compute_size m).1 ≡ encode m
    pub is_initialized-compute_size :
        (m : M) → I.is_initialized (I.compute_size m).1 ≡ I.is_initialized m
    pub compute_size_lem : (m : M) → Sizes (I.compute_size m).0 (encode m)
    pub get_cached_size_lem :
        (m : M) → I.get_cached_size (I.compute_size m).1 ≡ (I.compute_size m).0
    pub write_lem : (m : M) → Writes (I.write_to_with_cached_sizes (I.compute_size m).1) (encode m)
    pub merge_from_lem :
        (m : M) → IsValid m → Fits (encode m) → I.merge_from I.default (encode m) ≡ ok (fresh m, [])
