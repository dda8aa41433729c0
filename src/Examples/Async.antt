-- ===== src/Examples/Async.antt =====
-- `optimistic_connect` of examples/async_connect.py.
pub mod Alike
use optisocks.Prelude.{
  ℕ, ℤ, pos, Option, none, some, List, [], ◌∷◌, Text, Exn, Result, ok, err, os_error, runtime_error,
  socks5_error, closed_in_handshake, refused_unnumbered, if◌then◌else◌,
}
use optisocks.Codec.Platform.{Platform}
use optisocks.Core.Types
use optisocks.Core.Types.{Reply, is_ok}
use optisocks.Core.Session
use optisocks.Core.Session.{Session, returned, raised, diverges, feed}
use optisocks.Client.Transport.{Arrival, chunk, broken, late, Link, M, ◌>>=◌, ◌>>◌, lift, sendall}
use optisocks.Client.Connect.{hang_up}

-- `while reply is None`, with no limit of time.
unfoldable pub await_reply : Platform → Session → List Arrival → Result Reply × List Arrival
await_reply p s [] = (err (socks5_error closed_in_handshake), [])
await_reply p s (late ∷ more) = await_reply p s more
await_reply p s (broken ∷ more) = (err os_error, more)
await_reply p s (chunk [] ∷ more) = (err (socks5_error closed_in_handshake), more)
await_reply p s (chunk (b ∷ bs) ∷ more) =
    let (o, s') = feed p s (b ∷ bs) in
    elim o [
      | returned r ↦ elim r [ none ↦ await_reply p s' more | some reply ↦ (ok reply, more) ]
      | raised e ↦ (err e, more)
      | diverges ↦ (err runtime_error, more)
    ]

abbrev pub receive_reply : Platform → Session → M Reply
receive_reply p s l =
    let (r, more) = await_reply p s l.incoming in (r, record l { incoming = more })

-- The session's constructor, the pipeline in one send, and the loop.
unfoldable pub negotiate : Platform → Option Text → Option Text → Text → ℤ → M Reply
unfolding await_reply
negotiate p user password host port = do
  sess ← lift (Session.init user password)
  bytes ← lift (Session.optimistic_pipeline p sess host port (pos Types.connect))
  sendall bytes
  receive_reply p sess

-- Only a reply that does not say `succeeded` closes the connection.
abbrev pub checked : Result Reply × Link → Result Reply × Option Link
checked (err e, l) = (err e, some l)
checked (ok r, l) =
    if is_ok r
    then (ok r, some l)
    else (err (socks5_error (refused_unnumbered r.rep)), some (hang_up l))

-- The reply or the exception, and the connection, if one was opened; `dial` is what opening it gives.
unfoldable pub optimistic_connect :
    Platform → Option Text → Option Text → Result Link → Text → ℤ → Result Reply × Option Link
unfolding negotiate
optimistic_connect p user password dial host port = elim dial [
  | err e ↦ (err e, none)
  | ok l ↦ checked (negotiate p user password host port l)
]
