-- ===== src/Client/Send/Outcome.antt =====
-- What a method leaves behind: the client's fields, what went into the socket, and no panic.
use sysadmin.Base.{
  ℕ, some, [], ◌++◌, ◌≡◌, ◌≢◌, refl, sym, ◌∙◌, append-nil, append_assoc, Result, ok, err, panic,
  stuck,
}
use sysadmin.Protobuf.{Bytes, Protobuf}
use sysadmin.Ctl.Response
use sysadmin.Client.Net.{Net}
use sysadmin.Client.Net.Laws.{IsLawful}
use sysadmin.Client.Session.{transmit, await, receive, read_body, read_response}
use sysadmin.Client.Session.Monad.{
  SysadminError, SysadminClient, M, IsOk, and_then, map_err, lift, on_stream, io_error,
}

module _ ⦃P : Protobuf⦄ ⦃N : Net P⦄ (K : IsLawful N) where
  -- From the client `c`, whose stream is `s`, an outcome: no panic, only the stream has changed, and a
  -- success has handed over `bs`.
  pub record Ran {A : Type 0} (c : SysadminClient) (s : N.TcpStream) (bs : Bytes)
      (r : Result SysadminError A × SysadminClient) : Type 0 where
    pub calm : r.0 ≢ panic
    pub after : N.TcpStream
    pub still : r.1 ≡ record c { stream = some after }
    pub wrote : IsOk r.0 → K.sent after ≡ K.sent s ++ bs

  module _ {A B : Type 0} {c : SysadminClient} {s : N.TcpStream} {bs cs : Bytes} where
    pub and_then-Ran :
        (r : Result SysadminError A × SysadminClient) (f : A → M B)
        → Ran c s bs r
        → ((a : A) (t : N.TcpStream)
            → Ran (record c { stream = some t }) t cs (f a (record c { stream = some t })))
        → Ran c s (bs ++ cs) (and_then r f)
    and_then-Ran (ok a, c') f m k =
        let n : Ran (record c { stream = some m.after }) m.after cs (f a c') =
          rw m.still (k a m.after) in
        record {
          calm = n.calm;
          after = n.after;
          still = n.still;
          wrote = λ o. n.wrote o ∙ rw (m.wrote tt) (append_assoc (K.sent s) bs cs);
        }
    and_then-Ran (err e, c') f m k = record {
      calm = λ e. cc;
      after = m.after;
      still = m.still;
      wrote = λ o. absurd o;
    }
    and_then-Ran (panic, c') f m k = absurd (m.calm refl)
    and_then-Ran (stuck, c') f m k = record {
      calm = λ e. cc;
      after = m.after;
      still = m.still;
      wrote = λ o. absurd o;
    }

  module _ {E A : Type 0} (f : E → SysadminError) where
    map_err-calm : (r : Result E A) → r ≢ panic → map_err f r ≢ panic
    map_err-calm (ok a) h = λ e. cc
    map_err-calm (err x) h = λ e. cc
    map_err-calm panic h = λ e. h refl
    map_err-calm stuck h = λ e. cc

    map_err-IsOk : (r : Result E A) → IsOk (map_err f r) → IsOk r
    map_err-IsOk (ok a) o = tt
    map_err-IsOk (err x) o = o
    map_err-IsOk panic o = o
    map_err-IsOk stuck o = o

    pub lift-Ran :
        (r : Result E A) (c : SysadminClient) (s : N.TcpStream)
        → r ≢ panic
        → c.stream ≡ some s
        → Ran c s [] (lift f r c)
    lift-Ran r c s h up = record {
      calm = map_err-calm r h;
      after = s;
      still = rw (← up);
      wrote = λ o. sym (append-nil (K.sent s));
    }

    pub on_stream-Ran :
        (call : N.TcpStream → Result E A × N.TcpStream) (c : SysadminClient) (s : N.TcpStream)
        (bs : Bytes)
        → (call s).0 ≢ panic
        → (IsOk (call s).0 → K.sent (call s).1 ≡ K.sent s ++ bs)
        → Ran (record c { stream = some s }) s bs (on_stream f call (record c { stream = some s }))
    on_stream-Ran call c s bs h w = record {
      calm = map_err-calm (call s).0 h;
      after = (call s).1;
      still = refl;
      wrote = λ o. w (map_err-IsOk (call s).0 o);
    }

  IsOk-unit : {E : Type 0} (r : Result E (Unit {0})) → IsOk r → r ≡ ok tt
  IsOk-unit (ok u) o = refl
  IsOk-unit (err e) o = absurd o
  IsOk-unit panic o = absurd o
  IsOk-unit stuck o = absurd o

  -- The frame: `wtr`, then `bytes`.
  pub transmit-Ran :
      (wtr bytes : Bytes) (c : SysadminClient) (s : N.TcpStream)
      → Ran
          (record c { stream = some s })
          s
          (wtr ++ (bytes ++ []))
          (transmit wtr bytes (record c { stream = some s }))
  unfolding transmit
  transmit-Ran wtr bytes c s =
      and_then-Ran _ _
        (on_stream-Ran io_error (N.write_all wtr) c s wtr (K.write_all-ne-panic wtr s)
          (λ o. K.sent-write_all wtr s (IsOk-unit _ o)))
        λ _ t.
          and_then-Ran _ _
            (on_stream-Ran io_error (N.write_all bytes) c t bytes (K.write_all-ne-panic bytes t)
              (λ o. K.sent-write_all bytes t (IsOk-unit _ o)))
            λ _ u.
              on_stream-Ran io_error N.flush c u [] (K.flush-ne-panic u)
                (λ o. K.sent-flush u ∙ sym (append-nil (K.sent u)))

  -- The rest of `send` hands nothing over.
  pub await-Ran :
      (c : SysadminClient) (s : N.TcpStream)
      → Ran (record c { stream = some s }) s ([] ++ []) (await (record c { stream = some s }))
  unfolding await
  await-Ran c s =
      and_then-Ran _ _
        (on_stream-Ran _ (N.peek 10) c s [] (K.peek-ne-panic 10 s)
          (λ o. K.sent-peek 10 s ∙ sym (append-nil (K.sent s))))
        λ n t. record {
          calm = λ e. cc;
          after = t;
          still = refl;
          wrote = λ o. sym (append-nil (K.sent t));
        }

  read_body_outcome :
      (r : Result P.ProtobufError ℕ) (cis : N.CodedInputStream)
      → r ≢ panic
      → ((read_body r cis).0 ≢ panic) × (K.sent (read_body r cis).1 ≡ K.sent (N.stream cis))
  unfolding read_body
  read_body_outcome (ok n) cis h = (
    map_err-calm _ (N.read_raw_bytes n cis).0 (K.read_raw_bytes-ne-panic n cis),
    K.sent-read_raw_bytes n cis,
  )
  read_body_outcome (err e) cis h = (λ e. cc, refl)
  read_body_outcome panic cis h = absurd (h refl)
  read_body_outcome stuck cis h = (λ e. cc, refl)

  read_response_outcome :
      (s : N.TcpStream) → ((read_response s).0 ≢ panic) × (K.sent (read_response s).1 ≡ K.sent s)
  unfolding read_response
  read_response_outcome s =
      let cis : N.CodedInputStream = N.coded s in
      let (calm, same) =
        read_body_outcome (N.read_raw_little_endian32 cis).0 (N.read_raw_little_endian32 cis).1
          (K.read_raw_little_endian32-ne-panic cis) in
      (calm, same ∙ K.sent-read_raw_little_endian32 cis ∙ K.sent-coded s)

  pub receive-Ran :
      (c : SysadminClient) (s : N.TcpStream)
      → ((bs : Bytes) → P.parse_from_bytes Response.message bs ≢ panic)
      → Ran (record c { stream = some s }) s ([] ++ []) (receive (record c { stream = some s }))
  unfolding receive
  receive-Ran c s h =
      let (calm, same) = read_response_outcome s in
      and_then-Ran _ _
        (on_stream-Ran (λ e. e) read_response c s [] calm (λ o. same ∙ sym (append-nil (K.sent s))))
        λ bs t.
          lift-Ran _ (P.parse_from_bytes Response.message bs) (record c { stream = some t }) t
            (h bs) refl
