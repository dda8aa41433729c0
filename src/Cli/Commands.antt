-- ===== src/Cli/Commands.antt =====
-- `cmd_connect`, `cmd_fetch` and `cmd_probe` of src/optisocks5/cli.py.
use optisocks.Prelude.{
  ℕ, zero, ℤ, pos, Bool, true, false, ◌||◌, ◌&&◌, Option, none, some, List, [], ◌∷◌, ◌++◌, Bytes,
  Text, Exn, Result, ok, err, os_error, timeout_error, socks5_error, if◌then◌else◌, codes,
}
use optisocks.Codec.Platform.{Platform}
use optisocks.Core.Types
use optisocks.Core.Types.{Reply, RepName, rep_name, is_ok}
use optisocks.Client.Transport.{Arrival, chunk, broken, late, Link, sendall}
use optisocks.Client.Connect.{Client, Connected, connect_staged, connect_optimistic}
use optisocks.Client.Connect
use optisocks.Cli.Target.{Python, Proxy, parse_proxy, split_target, partition}

-- What probe concludes.
pub data Verdict : Type 0 where
  byte_exact recv_per_phase anomalous unreachable : Verdict

-- What is printed; `staged` tells the mode.
pub data Line : Type 0 where
  connected : (staged : Bool) → RepName → Text → ℕ → Line
  handshake_failed : (staged : Bool) → Exn → Line
  fetch_handshake : RepName → Text → ℕ → Line
  fetch_failed : Exn → Line
  no_response : Line
  status : Option Text → Line
  body : Text → Line
  probed : (staged : Bool) → Result RepName → Line
  verdict : Verdict → Line

-- How a subcommand ends: with an exit status, by one of its two SystemExits, or by an exception.
pub data Ended : Type 0 where
  exits : ℕ → Ended
  bad_proxy bad_target : Ended
  escapes : Exn → Ended

abbrev pub Run : Type 0
Run = List Line × Ended

-- `except (OSError, Socks5Error)`
abbrev pub is_caught : Exn → Bool
is_caught os_error = true
is_caught timeout_error = true
is_caught (socks5_error f) = true
is_caught e = false

-- `_client`
abbrev pub client : Proxy → Result Client
client proxy = Connect.init proxy.username proxy.password

-- `connect` of the class that `_client` chooses; `dial` is what opening the connection gives.
unfoldable pub handshake : Platform → Bool → Client → Result Link → Text → ℤ → ℤ → Connected
handshake p staged c dial host port cmd =
    if staged
    then connect_staged p c dial host port cmd
    else connect_optimistic p c dial host port cmd

abbrev pub is_zero : ℤ → Bool
is_zero (pos zero) = true
is_zero _ = false

-- The lines up to the client, which the subcommands share; `needs_port` is the check of `connect` and
-- `probe` for a port.
abbrev pub with_target : Python → Text → Text → ℤ → Bool → (Proxy → Text → ℤ → Run) → Run
with_target py proxy target default_port needs_port body' = elim (parse_proxy py proxy) [
  | err e ↦ ([], escapes e)
  | ok none ↦ ([], bad_proxy)
  | ok (some q) ↦ elim (split_target py target default_port) [
    | err e ↦ ([], escapes e)
    | ok (host, port) ↦ if needs_port && is_zero port then ([], bad_target) else body' q host port
  ]
]

abbrev pub with_client : Result Client → (Client → Run) → Run
with_client (err e) body' = ([], escapes e)
with_client (ok c) body' = body' c

-- `client.close()` behind the line, and the exit status.
abbrev pub closing : Option Exn → ℕ → Ended
closing none n = exits n
closing (some e) n = escapes e

-- What `cmd_connect` makes of the handshake; `close_raises` is what `client.close()` raises, if
-- anything.
abbrev pub report : Bool → Option Exn → Result Reply → Run
report staged close_raises (err e) =
    if is_caught e then (handshake_failed staged e ∷ [], exits 1) else ([], escapes e)
report staged close_raises (ok r) = (
  connected staged (rep_name r.rep) r.host r.port ∷ [],
  closing close_raises (if is_ok r then 0 else 1),
)

unfoldable pub cmd_connect :
    Python → Platform → Text → Text → Bool → Bool → Result Link → Option Exn → Run
cmd_connect py p proxy target staged associate dial close_raises =
    with_target py proxy target (pos 0) true λ q host port. with_client (client q) λ c.
      report staged close_raises
        (handshake p staged c dial host port
          (pos (if associate then Types.udp_associate else Types.connect))).0

-- The loop that reads the answer: the body, and whether it ended by the timeout.
unfoldable pub read_body : Bytes → List Arrival → Result (Bytes × Bool)
read_body got [] = ok (got, false)
read_body got (chunk [] ∷ more) = ok (got, false)
read_body got (late ∷ more) = ok (got, true)
read_body got (broken ∷ more) = err os_error
read_body got (chunk (b ∷ bs) ∷ more) = read_body (got ++ b ∷ bs) more

abbrev pub http_get : Text → Text → Bytes
http_get path host =
    codes "GET "
    ++ (path
        ++ (codes " HTTP/1.0\r\nHost: "
            ++ (host ++ codes "\r\nUser-Agent: curl/8\r\nConnection: close\r\n\r\n")))

abbrev pub status_of : Python → Text → Line
status_of py [] = status none
status_of py head = status (some (py.first_line head))

abbrev pub silence : Bytes → Bool → List Line
silence [] true = no_response ∷ []
silence got timed_out = []

-- What is printed of the body.
unfoldable pub show_body : Python → Bytes × Bool → List Line
unfolding partition
show_body py (got, timed_out) =
    let (head, found, payload) = partition (codes "\r\n\r\n") (py.decode got) in
    silence got timed_out ++ status_of py head ∷ body (py.strip payload) ∷ []

-- What follows the sending of the request; `settimeout` bounds every read by five seconds.
abbrev pub read_page : Python → List Line → Result (Unit {0}) × Link → Run
read_page py before (err e, l) = (before, escapes e)
read_page py before (ok u, l) = elim (read_body [] l.incoming) [
  | err e ↦ (before, escapes e)
  | ok got ↦ (before ++ show_body py got, exits 0)
]

-- Behind the handshake: the request over the tunnel and its answer. `with client` closes the tunnel.
abbrev pub browse : Python → Text → Text → Link → List Line → Run
browse py path host l before = read_page py before (sendall (http_get path host) l)

abbrev pub fetch_error : Exn → Run
fetch_error e = if is_caught e then (fetch_failed e ∷ [], exits 1) else ([], escapes e)

abbrev pub tunnelled : Python → Text → Text → Option Link → List Line → Run
tunnelled py path host none before = (before, escapes Exn.attribute_error)
tunnelled py path host (some l) before = browse py path host l before

abbrev pub fetched : Python → Text → Text → Connected → Run
fetched py path host (err e, c, l) = fetch_error e
fetched py path host (ok r, c, l) =
    tunnelled py path host c.sock (fetch_handshake (rep_name r.rep) r.host r.port ∷ [])

-- Behind the split of the target into host and path; `resolve` is `socket.gethostbyname`.
abbrev pub fetch_from :
    Python → Platform → Text → Bool → (Text → Result Text) → Result Link → Text × Bool × Text → Run
fetch_from py p proxy staged resolve dial (hostport, found, rest) =
    with_target py proxy hostport (pos 80) false λ q host port. with_client (client q) λ c.
      elim (resolve host) [
        | err e ↦ fetch_error e
        | ok ip ↦
            fetched py (codes "/" ++ rest) host
              (handshake p staged c dial ip port (pos Types.connect))
      ]

unfoldable pub cmd_fetch :
    Python → Platform → Text → Text → Bool → (Text → Result Text) → Result Link → Run
unfolding partition
cmd_fetch py p proxy target staged resolve dial =
    fetch_from py p proxy staged resolve dial (partition (codes "/") target)

abbrev pub conclude : Bool → Bool → Verdict
conclude true true = byte_exact
conclude false true = recv_per_phase
conclude true false = anomalous
conclude false false = unreachable

abbrev pub succeeded : Result RepName → Bool
succeeded (ok r) = true
succeeded (err e) = false

-- One of the two handshakes of `cmd_probe`: what is kept of it, or an exception that is not caught.
abbrev pub attempt : Result Reply → Result (Result RepName)
attempt (ok r) = ok (ok (rep_name r.rep))
attempt (err e) = if is_caught e then ok (err e) else err e

-- What is printed of the two results.
abbrev pub judge : Result RepName → Result RepName → Run
judge optimistic staged = (
  probed false optimistic
      ∷ probed true staged
      ∷ verdict (conclude (succeeded optimistic) (succeeded staged))
      ∷ [],
  exits (if succeeded optimistic || succeeded staged then 0 else 1),
)

abbrev pub both : Result (Result RepName) → Result (Result RepName) → Run
both (err e) staged = ([], escapes e)
both (ok o) (err e) = ([], escapes e)
both (ok o) (ok s) = judge o s

-- Both handshakes, the optimistic one first; `dial` and `dial'` are what opening their connections
-- gives.
unfoldable pub cmd_probe : Python → Platform → Text → Text → Result Link → Result Link → Run
cmd_probe py p proxy target dial dial' = with_target py proxy target (pos 0) true λ q host port.
    with_client (client q) λ c.
      both (attempt (handshake p false c dial host port (pos Types.connect)).0)
        (attempt (handshake p true c dial' host port (pos Types.connect)).0)
