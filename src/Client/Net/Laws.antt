-- ===== src/Client/Net/Laws.antt =====
-- What the client relies on in a socket. `sent` is what has been handed over for sending, `incoming`
-- what is still to be read.
use sysadmin.Base.{ℕ, IsU32, ◌++◌, length, ◌≡◌, ◌≢◌, ok, panic}
use sysadmin.Protobuf.{Bytes, Protobuf}
use sysadmin.Client.Net.{Net}

pub record IsLawful ⦃P : Protobuf⦄ (N : Net P) : Type 0 where
  pub sent : N.TcpStream → Bytes
  pub incoming : N.CodedInputStream → Bytes
  -- A completed write has handed over all of its bytes; nothing else hands any over.
  pub sent-write_all :
      (bs : Bytes) (s : N.TcpStream)
      → (N.write_all bs s).0 ≡ ok tt
      → sent (N.write_all bs s).1 ≡ sent s ++ bs
  pub sent-flush : (s : N.TcpStream) → sent (N.flush s).1 ≡ sent s
  pub sent-peek : (n : ℕ) (s : N.TcpStream) → sent (N.peek n s).1 ≡ sent s
  pub sent-coded : (s : N.TcpStream) → sent (N.stream (N.coded s)) ≡ sent s
  pub sent-read_raw_little_endian32 :
      (cis : N.CodedInputStream)
      → sent (N.stream (N.read_raw_little_endian32 cis).1) ≡ sent (N.stream cis)
  pub sent-read_raw_bytes :
      (n : ℕ) (cis : N.CodedInputStream)
      → sent (N.stream (N.read_raw_bytes n cis).1) ≡ sent (N.stream cis)
  -- The readers take what they read off the front.
  pub read_raw_little_endian32_lem :
      (n : ℕ) (rest : Bytes) (cis : N.CodedInputStream)
      → IsU32 n
      → incoming cis ≡ N.little_endian32 n ++ rest
      → ((N.read_raw_little_endian32 cis).0 ≡ ok n)
        × (incoming (N.read_raw_little_endian32 cis).1 ≡ rest)
  pub read_raw_bytes_lem :
      (bs rest : Bytes) (cis : N.CodedInputStream)
      → incoming cis ≡ bs ++ rest
      → (N.read_raw_bytes (length bs) cis).0 ≡ ok bs
  -- No call panics.
  pub write_all-ne-panic : (bs : Bytes) (s : N.TcpStream) → (N.write_all bs s).0 ≢ panic
  pub flush-ne-panic : (s : N.TcpStream) → (N.flush s).0 ≢ panic
  pub peek-ne-panic : (n : ℕ) (s : N.TcpStream) → (N.peek n s).0 ≢ panic
  pub read_raw_little_endian32-ne-panic :
      (cis : N.CodedInputStream) → (N.read_raw_little_endian32 cis).0 ≢ panic
  pub read_raw_bytes-ne-panic :
      (n : ℕ) (cis : N.CodedInputStream) → (N.read_raw_bytes n cis).0 ≢ panic
