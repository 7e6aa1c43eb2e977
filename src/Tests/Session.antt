-- ===== src/Tests/Session.antt =====
-- The connection, on concrete inputs.
use sysadmin.Base.{Result, some, ◌≡◌, refl, ok, err}
use sysadmin.Protobuf.Sample.{sample}
use sysadmin.Client.Net.Sample.{Socket, socket, Refused, refused}
use sysadmin.Client.Session.{connect, set_timeout}
use sysadmin.Client.Session.Timeouts.{connect-success, connect-failure, set_timeout-keeps}
use sysadmin.Tests.{online, offline, answered}

connect-success_example :
    (s : Socket) × (◌≡◌ {A = Result Refused Socket} (ok answered) (ok s))
    × ((socket.set_write_timeout 10 s).0 ≡ ok tt)
    × ((socket.set_read_timeout 10 (socket.set_write_timeout 10 s).1).0 ≡ ok tt)
    × ((connect (ok answered) offline).1 ≡ record offline {
      stream = some (socket.set_read_timeout 10 (socket.set_write_timeout 10 s).1).1;
    })
unfolding connect
connect-success_example = connect-success (ok answered) offline tt

connect-failure_example : (connect (err refused) online).1 ≡ online
unfolding connect
connect-failure_example = connect-failure (err refused) online (λ o. o)

set_timeout-keeps_example :
    (t : Socket) × ((set_timeout 20 online).1 ≡ record online { timeout = 20; stream = some t })
set_timeout-keeps_example = set_timeout-keeps 20 online answered refl
