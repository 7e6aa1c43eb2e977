-- ===== src/Client/Net/Sample/Lawful.antt =====
-- The sample socket meets the laws of a socket.
use sysadmin.Base.{
  ℕ, ◌+◌, ◌*◌, ◌/◌, ◌%◌, IsU32, [], ◌∷◌, ◌++◌, length, take-append, length-append, ◌≡◌, ◌≢◌, refl,
  ap, Result, ◌∙◌, panic, ok, ltb, false, arith,
}
use sysadmin.Protobuf.{Bytes}
use sysadmin.Protobuf.Sample.{sample}
use sysadmin.Client.Net.Laws.{IsLawful}
use sysadmin.Client.Net.Sample.{Socket, little_endian32, read_four, read_block, socket}

four :
    (n : ℕ)
    → IsU32 n
    → n % 256
        + 256 * (n / 256 % 256)
        + 65_536 * (n / 65_536 % 256)
        + 16_777_216 * (n / 16_777_216 % 256)
      ≡ n
four n h = omega arith

pub read_four_lem :
    (n : ℕ) (rest : Bytes) → IsU32 n → read_four (little_endian32 n ++ rest) ≡ (ok n, rest)
unfolding read_four little_endian32
read_four_lem n rest h = rw (four n h)

pub read_block_lem : (bs rest : Bytes) → (read_block (length bs) (bs ++ rest)).0 ≡ ok bs
unfolding read_block
read_block_lem bs rest =
    let e : ltb (length (bs ++ rest)) (length bs) ≡ false = ground (arith, length-append bs rest) in
    rw (e, take-append bs rest)

pub read_four-ne-panic : (is : Bytes) → (read_four is).0 ≢ panic
unfolding read_four
read_four-ne-panic [] e = cc
read_four-ne-panic (a ∷ []) e = cc
read_four-ne-panic (a ∷ b ∷ []) e = cc
read_four-ne-panic (a ∷ b ∷ c ∷ []) e = cc
read_four-ne-panic (a ∷ b ∷ c ∷ d ∷ is) e = cc

pub read_block-ne-panic : (n : ℕ) (is : Bytes) → (read_block n is).0 ≢ panic
unfolding read_block
read_block-ne-panic n is e = ground arith

pub peek_written : (n : ℕ) (s : Socket) → (socket.peek n s).1.written ≡ s.written
peek_written n s = ground arith

pub peek-ne-panic : (n : ℕ) (s : Socket) → (socket.peek n s).0 ≢ panic
peek-ne-panic n s e = ground arith

pub ok-ne-panic : {E A : Type 0} {a : A} → ◌≢◌ {A = Result E A} (ok a) panic
ok-ne-panic e = cc

abbrev pub lawful : IsLawful socket
lawful = record {
  sent = λ s. s.written;
  incoming = λ s. s.inbox;
  sent-write_all = λ bs s o. refl;
  sent-flush = λ s. refl;
  sent-peek = peek_written;
  sent-coded = λ s. refl;
  sent-read_raw_little_endian32 = λ s. refl;
  sent-read_raw_bytes = λ n s. refl;
  read_raw_little_endian32_lem = λ n rest s h e. (
    ap (λ is. (read_four is).0) e ∙ ap (λ x. x.0) (read_four_lem n rest h),
    ap (λ is. (read_four is).1) e ∙ ap (λ x. x.1) (read_four_lem n rest h),
  );
  read_raw_bytes_lem =
      λ bs rest s e. ap (λ is. (read_block (length bs) is).0) e ∙ read_block_lem bs rest;
  write_all-ne-panic = λ bs s. ok-ne-panic;
  flush-ne-panic = λ s. ok-ne-panic;
  peek-ne-panic = peek-ne-panic;
  read_raw_little_endian32-ne-panic = λ s. read_four-ne-panic s.inbox;
  read_raw_bytes-ne-panic = λ n s. read_block-ne-panic n s.inbox;
}
