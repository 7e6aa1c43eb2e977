-- ===== src/Client/Net/Sample.antt =====
-- A socket that shows that the laws can hold: it keeps what was written and hands out what is in its
-- inbox. The witnesses run over it.
pub mod Lawful
use sysadmin.Base.{
  ℕ, ◌+◌, ◌*◌, ◌/◌, ◌%◌, [], ◌∷◌, ◌++◌, length, take, drop, Result, ok, err, ltb, if◌then◌else◌,
}
use sysadmin.Protobuf.{Bytes}
use sysadmin.Protobuf.Sample.{Failure, input_error, sample}
use sysadmin.Protobuf.Sample.Varint.{truncated}
use sysadmin.Client.Net.{Net}

pub record Socket : Type 0 where
  pub written : Bytes
  pub inbox : Bytes

-- The only error that this socket knows.
pub data Refused : Type 0 where
  refused : Refused

unfoldable pub little_endian32 : ℕ → Bytes
little_endian32 n = n % 256 ∷ n / 256 % 256 ∷ n / 65_536 % 256 ∷ n / 16_777_216 % 256 ∷ []

unfoldable pub read_four : Bytes → Result Failure ℕ × Bytes
read_four (a ∷ b ∷ c ∷ d ∷ is) = (ok (a + 256 * b + 65_536 * c + 16_777_216 * d), is)
read_four is = (err (input_error truncated), is)

unfoldable pub read_block : ℕ → Bytes → Result Failure Bytes × Bytes
read_block n is =
    if ltb (length is) n then (err (input_error truncated), is) else (ok (take n is), drop n is)

abbrev on_inbox : {A : Type 0} → (Bytes → A × Bytes) → Socket → A × Socket
on_inbox f s = let (a, is) = f s.inbox in (a, record s { inbox = is })

instance abbrev pub socket : Net sample
socket = record {
  TcpStream = Socket;
  IoError = Refused;
  display = λ e. "refused";
  set_write_timeout = λ d s. (ok tt, s);
  set_read_timeout = λ d s. (ok tt, s);
  write_all = λ bs s. (ok tt, record s { written = s.written ++ bs });
  flush = λ s. (ok tt, s);
  peek = λ n s. if ltb 0 (length s.inbox) then (ok (length s.inbox), s) else (err refused, s);
  CodedInputStream = Socket;
  coded = λ s. s;
  stream = λ s. s;
  read_raw_little_endian32 = on_inbox read_four;
  read_raw_bytes = λ n. on_inbox (read_block n);
  little_endian32 = little_endian32;
}
