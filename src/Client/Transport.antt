-- ===== src/Client/Transport.antt =====
-- The connection to the proxy, as src/optisocks5/sync/client.py and src/optisocks5/aio/client.py use
-- it: a socket under a deadline, or a pair of streams under `asyncio.timeout`.
pub mod Exact
pub mod Exchange
use optisocks.Prelude.{
  ℕ, ◌+◌, ◌-◌, Bool, true, false, List, [], ◌∷◌, ◌++◌, Bytes, Exn, Result, ok, err, os_error,
  timeout_error, incomplete_read, socks5_error, proxy_closed, timed_out, leb, if◌then◌else◌, length,
  take, drop,
}

-- The blocking clients and the asyncio ones differ in the exceptions that they let out.
pub data Mode : Type 0 where
  blocking asyncio : Mode

-- What the transport holds when it is next read: bytes (none at the end of the stream; at most 4096,
-- the most that a client asks for), an OSError, or that the time budget is used up.
pub data Arrival : Type 0 where
  chunk : Bytes → Arrival
  broken late : Arrival

-- The bytes that arrive before the stream ends or fails.
abbrev pub stream : List Arrival → Bytes
stream [] = []
stream (chunk [] ∷ more) = []
stream (chunk (b ∷ bs) ∷ more) = (b ∷ bs) ++ stream more
stream (_ ∷ more) = []

pub record Link : Type 0 where
  pub mode : Mode
  pub incoming : List Arrival
  pub sent : List Bytes  -- the latest first
  pub send_works : List Bytes → Bool
  pub is_open : Bool

-- `_arm`, and `asyncio.timeout`.
abbrev pub late_error : Mode → Exn
late_error blocking = socks5_error timed_out
late_error asyncio = timeout_error

-- `_recv_exact`, and `StreamReader.readexactly`.
abbrev pub eof_error : Mode → Exn
eof_error blocking = socks5_error proxy_closed
eof_error asyncio = incomplete_read

-- An action on the link that may raise; what it did before stays done.
abbrev pub M : Type 0 → Type 0
M A = Link → Result A × Link

abbrev pub continue : {A B : Type 0} → Result A × Link → (A → M B) → Result B × Link
continue (ok a, l) f = f a l
continue (err e, l) f = (err e, l)

infixl 5 ◌>>=◌ ◌>>◌
abbrev pub ◌>>=◌ : {A B : Type 0} → M A → (A → M B) → M B
◌>>=◌ m f l = continue (m l) f

abbrev pub ◌>>◌ : {B : Type 0} → M (Unit {0}) → M B → M B
m >> n = m >>= λ _. n

abbrev pub pure : {A : Type 0} → A → M A
pure a l = (ok a, l)

abbrev pub raise : {A : Type 0} → Exn → M A
raise e l = (err e, l)

abbrev pub lift : {A : Type 0} → Result A → M A
lift r l = (r, l)

-- `sendall`, and `write` with `drain`.
unfoldable pub sendall : Bytes → M (Unit {0})
sendall b l =
    if l.send_works l.sent then (ok tt, record l { sent = b ∷ l.sent }) else (err os_error, l)

-- The loop of `_recv_exact` over what arrives: `buf` is read, `n` bytes are wanted.
unfoldable pub recv_loop : Mode → ℕ → Bytes → List Arrival → Result Bytes × List Arrival
recv_loop mode n buf [] = if leb n (length buf) then (ok buf, []) else (err (eof_error mode), [])
recv_loop mode n buf (late ∷ more) =
    if leb n (length buf) then (ok buf, late ∷ more) else (err (late_error mode), more)
recv_loop mode n buf (broken ∷ more) =
    if leb n (length buf) then (ok buf, broken ∷ more) else (err os_error, more)
recv_loop mode n buf (chunk [] ∷ more) =
    if leb n (length buf) then (ok buf, chunk [] ∷ more) else (err (eof_error mode), more)
recv_loop mode n buf (chunk (b ∷ bs) ∷ more) =
    let k = n - length buf in
    let rest = recv_loop mode n (buf ++ b ∷ bs) more in
    if leb n (length buf)
    then (ok buf, chunk (b ∷ bs) ∷ more)
    else if leb (length (b ∷ bs)) k
    then rest
    else (ok (buf ++ take k (b ∷ bs)), chunk (drop k (b ∷ bs)) ∷ more)

unfoldable pub recv_exact : ℕ → M Bytes
unfolding recv_loop
recv_exact n l =
    let (r, more) = recv_loop l.mode n [] l.incoming in (r, record l { incoming = more })
