-- ===== src/Client/Session/Monad.antt =====
-- The state of the client, its errors, and methods over `&mut self` as a monad.
use sysadmin.Base.{ℕ, Bool, true, false, Option, none, some, String, Result, ok, err, panic, stuck}
use sysadmin.Protobuf.{Protobuf}
use sysadmin.Client.Net.{Net, Duration}

module _ ⦃P : Protobuf⦄ ⦃N : Net P⦄ where
  -- `failure::Error`: an error of this crate, of a call, or one in a context.
  pub data SysadminError : Type 0 where
    sysadmin_connection_error : String → SysadminError
    io_error : N.IoError → SysadminError
    protobuf_error : P.ProtobufError → SysadminError
    context : String → SysadminError → SysadminError

  pub record SysadminClient : Type 0 where
    pub timeout : Duration
    pub xid : ℕ
    pub id : ℕ
    pub stream : Option N.TcpStream

  abbrev pub M : Type 0 → Type 0
  M A = SysadminClient → Result SysadminError A × SysadminClient

  abbrev pub and_then :
      {A B : Type 0}
      → Result SysadminError A × SysadminClient
      → (A → M B)
      → Result SysadminError B × SysadminClient
  and_then (ok a, c) f = f a c
  and_then (err e, c) f = (err e, c)
  and_then (panic, c) f = (panic, c)
  and_then (stuck, c) f = (stuck, c)

  infixl 5 ◌>>=◌ ◌>>◌
  abbrev pub ◌>>=◌ : {A B : Type 0} → M A → (A → M B) → M B
  ◌>>=◌ m f c = and_then (m c) f

  abbrev pub ◌>>◌ : {B : Type 0} → M (Unit {0}) → M B → M B
  m >> k = m >>= λ _. k

  abbrev pub pure : {A : Type 0} → A → M A
  pure a c = (ok a, c)

  -- `bail!`
  abbrev pub bail : {A : Type 0} → SysadminError → M A
  bail e c = (err e, c)

  -- `assert!`
  abbrev pub assert : Bool → M (Unit {0})
  assert true c = (ok tt, c)
  assert false c = (panic, c)

  -- `?` on the outcome of a call, whose error is converted.
  abbrev pub map_err : {E A : Type 0} → (E → SysadminError) → Result E A → Result SysadminError A
  map_err f (ok a) = ok a
  map_err f (err e) = err (f e)
  map_err f panic = panic
  map_err f stuck = stuck

  abbrev pub lift : {E A : Type 0} → (E → SysadminError) → Result E A → M A
  lift f r c = (map_err f r, c)

  abbrev pub get_client : M SysadminClient
  get_client c = (ok c, c)

  abbrev pub put_client : SysadminClient → M (Unit {0})
  put_client c' c = (ok tt, c')

  abbrev stream_call :
      {E A : Type 0}
      → (E → SysadminError)
      → (N.TcpStream → Result E A × N.TcpStream)
      → Option N.TcpStream
      → M A
  stream_call f call none c = (panic, c)
  stream_call f call (some s) c = (map_err f (call s).0, record c { stream = some (call s).1 })

  -- A call on `self.stream.as_mut().unwrap()`.
  abbrev pub on_stream :
      {E A : Type 0} → (E → SysadminError) → (N.TcpStream → Result E A × N.TcpStream) → M A
  on_stream f call c = stream_call f call c.stream c

abbrev pub IsOk {ℓ κ} : {E : Type ℓ} {A : Type κ} → Result E A → Type 0
IsOk (ok a) = Unit
IsOk (err e) = ⊥
IsOk panic = ⊥
IsOk stuck = ⊥
