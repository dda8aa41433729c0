-- ===== src/Client/Connect/Settling.antt =====
-- What `connect` of every client (src/optisocks5/sync/client.py, src/optisocks5/aio/client.py) leaves
-- behind, whatever the negotiation does.
use optisocks.Prelude.{
  ℤ, ◌≡◌, refl, Bool, true, false, Option, none, some, Bytes, Text, Result, ok, err, runtime_error,
  socks5_error, request_failed, if◌then◌else◌, ◌==◌, ==_iff,
}
use optisocks.Codec.Platform.{Platform}
use optisocks.Core.Types.{Reply, value, succeeded, is_ok}
use optisocks.Client.Transport.{Link, M}
use optisocks.Client.Connect.{
  Client, Connected, finish, settle, connect_with, connect_staged, connect_optimistic, staged,
  optimistic, hang_up,
}

-- The link is closed, if one was opened.
abbrev pub IsHungUp : Option Link → Type 0
IsHungUp none = Unit
IsHungUp (some l) = l.is_open ≡ false

-- A failure leaves the client's connection as it was and the opened link closed; a success was from a
-- client without a connection, its reply is `succeeded`, and the client keeps the link and the address.
abbrev pub IsSettled : Client → Connected → Type 0
IsSettled c (err e, c', l) = (c'.sock ≡ c.sock) × (c'.bound ≡ c.bound) × IsHungUp l
IsSettled c (ok r, c', l) =
    (r.rep ≡ value succeeded) × (c.sock ≡ none) × (c'.sock ≡ l) × (c'.bound ≡ some (r.host, r.port))

finish-IsSettled :
    (c0 c : Client) (l : Link) (r : Reply)
    → c0.sock ≡ none
    → c.sock ≡ c0.sock
    → c.bound ≡ c0.bound
    → IsSettled c0 (finish c l r)
unfolding finish is_ok
finish-IsSettled c0 c l r h e b = by_rep (r.rep == value succeeded) refl
  where
    by_rep :
        (t : Bool)
        → (r.rep == value succeeded) ≡ t
        → IsSettled c0 (
            if t
            then (ok r, record c { sock = some l; bound = some (r.host, r.port) }, some l)
            else (err (socks5_error (request_failed r.rep)), c, some (hang_up l)))
    by_rep true t = ((==_iff r.rep (value succeeded)).0 t, h, refl, refl)
    by_rep false t = (e, b, refl)

settle-IsSettled :
    (c : Client) (x : Result (Reply × Option Bytes) × Link)
    → c.sock ≡ none
    → IsSettled c (settle c x)
unfolding settle
settle-IsSettled c (err e, l) h = (refl, refl, refl)
settle-IsSettled c (ok (r, none), l) h = finish-IsSettled c c l r h refl refl
settle-IsSettled c (ok (r, some rest), l) h =
    finish-IsSettled c (record c { leftover = rest }) l r h refl refl

pub connect_with-IsSettled :
    (negotiate : Client → M (Reply × Option Bytes)) (c : Client) (dial : Result Link)
    → IsSettled c (connect_with negotiate c dial)
unfolding connect_with
connect_with-IsSettled negotiate c dial = by_sock c.sock refl dial
  where
    by_sock :
        (k : Option Link)
        → c.sock ≡ k
        → (d : Result Link)
        → IsSettled c (elim k as (λ x. Connected) [
          | some l ↦ (err runtime_error, c, none)
          | none ↦ elim d [ err e ↦ (err e, c, none) | ok l ↦ settle c (negotiate c l) ]
        ])
    by_sock (some l) h d = (refl, refl, tt)
    by_sock none h (err e) = (refl, refl, tt)
    by_sock none h (ok l) = settle-IsSettled c (negotiate c l) h

-- Whatever the proxy sends and the sockets do, `connect` of a staged client either fails, and then
-- the client's connection and address are what they were and the link that it opened is closed, or
-- returns a reply that says `succeeded`, and then the client had no connection before and now keeps
-- that link and the address in the reply.
pub connect_staged-IsSettled :
    (p : Platform) (c : Client) (dial : Result Link) (host : Text) (port cmd : ℤ)
    → IsSettled c (connect_staged p c dial host port cmd)
unfolding connect_staged
connect_staged-IsSettled p c dial host port cmd =
    connect_with-IsSettled (staged p host port cmd) c dial

-- Whatever the proxy sends and the sockets do, `connect` of an optimistic client either fails, and
-- then the client's connection and address are what they were and the link that it opened is closed,
-- or returns a reply that says `succeeded`, and then the client had no connection before and now keeps
-- that link and the address in the reply.
pub connect_optimistic-IsSettled :
    (p : Platform) (c : Client) (dial : Result Link) (host : Text) (port cmd : ℤ)
    → IsSettled c (connect_optimistic p c dial host port cmd)
unfolding connect_optimistic
connect_optimistic-IsSettled p c dial host port cmd =
    connect_with-IsSettled (optimistic p host port cmd) c dial
