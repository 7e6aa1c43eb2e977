-- ===== src/Client/Session/Timeouts.antt =====
-- `connect` and `set_timeout` of clients/rust/src/lib.rs on every branch.
use sysadmin.Base.{String, some, ◌≡◌, refl, subst, Result, ok, err, panic, stuck}
use sysadmin.Protobuf.{Protobuf}
use sysadmin.Client.Net.{Net, Duration}
use sysadmin.Client.Session.{connect, set_timeout}
use sysadmin.Client.Session.Monad.{
  SysadminError, context, io_error, SysadminClient, IsOk, ◌>>=◌, put_client, lift, on_stream,
}

module _ ⦃P : Protobuf⦄ ⦃N : Net P⦄ where
  -- The two tests at the end of `connect`, on the outcomes of setting the timeouts.
  abbrev failed : String → N.IoError → SysadminError
  failed text e = context text (io_error e)

  module _ (c d : SysadminClient) where
    abbrev tested :
        Result N.IoError (Unit {0})
        → Result N.IoError (Unit {0})
        → Result SysadminError (Unit {0}) × SysadminClient
    tested w r =
        (lift (failed "error setting write timeout") w >>= λ _.
        lift (failed "error setting read timeout") r >>= λ _. put_client d)
          c

    tested_success :
        (w r : Result N.IoError (Unit {0}))
        → IsOk (tested w r).0
        → (w ≡ ok tt) × (r ≡ ok tt) × ((tested w r).1 ≡ d)
    tested_success (ok u) (ok v) o = (refl, refl, refl)
    tested_success (ok u) (err e) o = absurd o
    tested_success (ok u) panic o = absurd o
    tested_success (ok u) stuck o = absurd o
    tested_success (err e) r o = absurd o
    tested_success panic r o = absurd o
    tested_success stuck r o = absurd o

    tested_failure :
        (w r : Result N.IoError (Unit {0})) → ¬ IsOk (tested w r).0 → (tested w r).1 ≡ c
    tested_failure (ok u) (ok v) n = absurd (n tt)
    tested_failure (ok u) (err e) n = refl
    tested_failure (ok u) panic n = refl
    tested_failure (ok u) stuck n = refl
    tested_failure (err e) r n = refl
    tested_failure panic r n = refl
    tested_failure stuck r n = refl

  abbrev connected : SysadminClient → N.TcpStream → SysadminClient
  connected c s = record c {
    stream = some (N.set_read_timeout c.timeout (N.set_write_timeout c.timeout s).1).1;
  }

  -- If `connect` succeeds, a stream was opened, the client's timeout was set on it for writing and then
  -- for reading, both without an error, and the client keeps that stream and its other fields.
  pub connect-success :
      (attempt : Result N.IoError N.TcpStream) (c : SysadminClient)
      → IsOk (connect attempt c).0
      → (s : N.TcpStream) × (attempt ≡ ok s)
        × ((N.set_write_timeout c.timeout s).0 ≡ ok tt)
        × ((N.set_read_timeout c.timeout (N.set_write_timeout c.timeout s).1).0 ≡ ok tt)
        × ((connect attempt c).1 ≡ record c {
          stream = some (N.set_read_timeout c.timeout (N.set_write_timeout c.timeout s).1).1;
        })
  unfolding connect
  connect-success (ok s) c o =
      let (w, r, e) =
        tested_success c (connected c s) (N.set_write_timeout c.timeout s).0
          (N.set_read_timeout c.timeout (N.set_write_timeout c.timeout s).1).0 o in
      (s, refl, w, r, e)
  connect-success (err e) c o = absurd o
  connect-success panic c o = absurd o
  connect-success stuck c o = absurd o

  -- If `connect` does not succeed, wherever it fails, the client is what it was: an earlier stream is
  -- kept.
  pub connect-failure :
      (attempt : Result N.IoError N.TcpStream) (c : SysadminClient)
      → ¬ IsOk (connect attempt c).0
      → (connect attempt c).1 ≡ c
  unfolding connect
  connect-failure (ok s) c n =
      tested_failure c (connected c s) (N.set_write_timeout c.timeout s).0
        (N.set_read_timeout c.timeout (N.set_write_timeout c.timeout s).1).0 n
  connect-failure (err e) c n = refl
  connect-failure panic c n = refl
  connect-failure stuck c n = refl

  -- Two calls on the stream, the second one only if the first one succeeds.
  module _ (c : SysadminClient)
      (second : N.TcpStream → Result N.IoError (Unit {0}) × N.TcpStream) where
    two_calls :
        (r : Result N.IoError (Unit {0})) (s : N.TcpStream)
        → (t : N.TcpStream) × (((lift (failed "Error setting write timeout") r >>= λ _.
                on_stream (failed "Error setting read timeout") second)
              (record c { stream = some s })).1
            ≡ record c { stream = some t })
    two_calls (ok u) s = ((second s).1, refl)
    two_calls (err e) s = (s, refl)
    two_calls panic s = (s, refl)
    two_calls stuck s = (s, refl)

  abbrev Keeps : Duration → SysadminClient → Type 0
  Keeps timeout c =
      (t : N.TcpStream) × ((set_timeout timeout c).1
        ≡ record c { timeout = timeout; stream = some t })

  set_timeout_at :
      (timeout : Duration) (c : SysadminClient) (s : N.TcpStream)
      → Keeps timeout (record c { stream = some s })
  unfolding set_timeout
  set_timeout_at timeout c s =
      two_calls (record c { timeout = timeout }) (N.set_read_timeout timeout)
        (N.set_write_timeout timeout s).0 (N.set_write_timeout timeout s).1

  -- On a connected client `set_timeout` keeps the new timeout in the client whatever the socket answers,
  -- also when it returns an error; apart from that only the stream has changed.
  pub set_timeout-keeps :
      (timeout : Duration) (c : SysadminClient) (s : N.TcpStream)
      → c.stream ≡ some s
      → (t : N.TcpStream) × ((set_timeout timeout c).1
          ≡ record c { timeout = timeout; stream = some t })
  set_timeout-keeps timeout c s up =
      let e : record c { stream = some s } ≡ c = rw (← up) in
      subst (λ d. Keeps timeout d) e (set_timeout_at timeout c s)
