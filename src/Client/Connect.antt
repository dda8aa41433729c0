-- ===== src/Client/Connect.antt =====
-- `_BaseClient` and `connect` of src/optisocks5/sync/client.py, and their mirror in
-- src/optisocks5/aio/client.py.
pub mod Settling
pub mod Answered
use optisocks.Prelude.{
  ℕ, ℤ, Bool, true, false, Option, none, some, Bytes, Text, [], Exn, Result, ok, err, value_error,
  runtime_error, socks5_error, request_failed, if◌then◌else◌,
}
use optisocks.Codec.Platform.{Platform}
use optisocks.Core.Types.{Reply, is_ok}
use optisocks.Client.Transport.{Mode, Link, M, ◌>>=◌, pure}
use optisocks.Client.Staged
use optisocks.Client.Optimistic

-- `creds` is the pair of `_user` and `_pass`; `sock` is the live tunnel (`reader` and `writer` of
-- the asyncio clients).
pub record Client : Type 0 where
  pub creds : Option (Text × Text)
  pub sock : Option Link
  pub bound : Option (Text × ℕ)
  pub leftover : Bytes

abbrev fresh : Option (Text × Text) → Client
fresh c = record { creds = c; sock = none; bound = none; leftover = [] }

-- `_BaseClient.__init__`
unfoldable pub init : Option Text → Option Text → Result Client
init none none = ok (fresh none)
init (some u) (some w) = ok (fresh (some (u, w)))
init _ _ = err value_error

-- What `connect` does: the reply or the exception, the client, and the link that was opened.
abbrev pub Connected : Type 0
Connected = Result Reply × Client × Option Link

-- `s.close()`, and `_abort`.
abbrev pub hang_up : Link → Link
hang_up l = record l { is_open = false }

-- `_finish`, and the end of `connect` in aio/client.py.
unfoldable pub finish : Client → Link → Reply → Connected
finish c l r =
    if is_ok r
    then (ok r, record c { sock = some l; bound = some (r.host, r.port) }, some l)
    else (err (socks5_error (request_failed r.rep)), c, some (hang_up l))

-- The `try`: an exception closes the connection and goes on. A negotiation also gives the bytes
-- behind the reply, which the client keeps if it is optimistic.
unfoldable pub settle : Client → Result (Reply × Option Bytes) × Link → Connected
unfolding finish
settle c (err e, l) = (err e, c, some (hang_up l))
settle c (ok (r, none), l) = finish c l r
settle c (ok (r, some rest), l) = finish (record c { leftover = rest }) l r

-- `connect` of every client; `dial` is what opening the connection to the proxy gives.
unfoldable pub connect_with : (Client → M (Reply × Option Bytes)) → Client → Result Link → Connected
unfolding settle
connect_with negotiate c dial = elim c.sock [
  | some l ↦ (err runtime_error, c, none)
  | none ↦ elim dial [ err e ↦ (err e, c, none) | ok l ↦ settle c (negotiate c l) ]
]

abbrev pub user_of : Option (Text × Text) → Option Text
user_of none = none
user_of (some (u, w)) = some u

abbrev pub password_of : Option (Text × Text) → Option Text
password_of none = none
password_of (some (u, w)) = some w

abbrev pub staged : Platform → Text → ℤ → ℤ → Client → M (Reply × Option Bytes)
staged p host port cmd c = do r ← Staged.negotiate p c.creds host port cmd; pure (r, none)

abbrev pub optimistic : Platform → Text → ℤ → ℤ → Client → M (Reply × Option Bytes)
optimistic p host port cmd c = do
  (r, rest) ← Optimistic.negotiate p (user_of c.creds) (password_of c.creds) host port cmd
  pure (r, some rest)

-- `Client.connect`
unfoldable pub connect_staged : Platform → Client → Result Link → Text → ℤ → ℤ → Connected
unfolding connect_with
connect_staged p c dial host port cmd = connect_with (staged p host port cmd) c dial

-- `OptimisticClient.connect`
unfoldable pub connect_optimistic : Platform → Client → Result Link → Text → ℤ → ℤ → Connected
unfolding connect_with
connect_optimistic p c dial host port cmd = connect_with (optimistic p host port cmd) c dial

-- `close`, and `aclose`
unfoldable pub close : Client → Client
close c = record c { sock = none }
