-- ===== src/Client/Optimistic.antt =====
-- The optimistic clients: `OptimisticClient` of src/optisocks5/sync/client.py and
-- `AsyncOptimisticClient` of src/optisocks5/aio/client.py.
pub mod Stream
use optisocks.Prelude.{
  ℕ, ℤ, Option, none, some, List, [], ◌∷◌, Bytes, Text, Exn, Result, ok, err, os_error,
  runtime_error, socks5_error, proxy_closed,
}
use optisocks.Codec.Platform.{Platform}
use optisocks.Core.Types.{Reply}
use optisocks.Core.Session
use optisocks.Core.Session.{Session, Outcome, returned, raised, diverges, feed, leftover}
use optisocks.Client.Transport.{
  Mode, Arrival, chunk, broken, late, late_error, Link, M, ◌>>=◌, ◌>>◌, lift, sendall,
}

-- `while reply is None`: what `feed` says of each chunk, then the reply and the leftover bytes.
unfoldable pub await_reply :
    Platform → Mode → Session → List Arrival → Result (Reply × Bytes) × List Arrival
await_reply p mode s [] = (err (socks5_error proxy_closed), [])
await_reply p mode s (late ∷ more) = (err (late_error mode), more)
await_reply p mode s (broken ∷ more) = (err os_error, more)
await_reply p mode s (chunk [] ∷ more) = (err (socks5_error proxy_closed), more)
await_reply p mode s (chunk (b ∷ bs) ∷ more) =
    let (o, s') = feed p s (b ∷ bs) in
    elim o [
      | returned r ↦ elim r [
        | none ↦ await_reply p mode s' more
        | some reply ↦ (ok (reply, leftover s'), more)
      ]
      | raised e ↦ (err e, more)
      | diverges ↦ (err runtime_error, more)
    ]

abbrev pub receive_reply : Platform → Session → M (Reply × Bytes)
receive_reply p s l =
    let (r, more) = await_reply p l.mode s l.incoming in (r, record l { incoming = more })

-- The body of the `try` in `OptimisticClient.connect`, and `AsyncOptimisticClient._negotiate`: the
-- reply, and the bytes behind it.
unfoldable pub negotiate : Platform → Option Text → Option Text → Text → ℤ → ℤ → M (Reply × Bytes)
unfolding await_reply
negotiate p user password host port cmd = do
  sess ← lift (Session.init user password)
  bytes ← lift (Session.optimistic_pipeline p sess host port cmd)
  sendall bytes
  receive_reply p sess
