-- ===== src/Client/Staged.antt =====
-- The staged clients: `Client` of src/optisocks5/sync/client.py, `AsyncClient` of aio/client.py.
pub mod Exchanged
use optisocks.Prelude.{
  ℕ, ◌+◌, ℤ, Option, none, some, [], ◌∷◌, ◌++◌, Bytes, Text, Result, ok, err, socks5_error,
  unknown_atyp, malformed_reply, malformed_method_selection, userpass_demanded, auth_rejected,
  no_acceptable_method, ◌==◌, if◌then◌else◌, get_or,
}
use optisocks.Codec.Platform.{Platform}
use optisocks.Codec.Messages.{parse_method_selection, parse_auth_reply}
use optisocks.Codec.Binding
use optisocks.Core.Types.{Reply, no_auth, userpass}
use optisocks.Client.Transport.{M, ◌>>=◌, ◌>>◌, pure, raise, lift, sendall, recv_exact}

-- The bytes behind VER, REP, RSV and ATYP.
unfoldable pub recv_body : ℕ → M Bytes
recv_body atyp =
    if atyp == 0x01
    then recv_exact (4 + 2)
    else if atyp == 0x04
    then recv_exact (16 + 2)
    else if atyp == 0x03
    then (do len ← recv_exact 1; rest ← recv_exact (get_or len 0 0 + 2); pure (len ++ rest))
    else raise (socks5_error (unknown_atyp atyp))

abbrev pub reply_of : Result (Option (ℕ × Text × ℕ)) → Result Reply
reply_of (err e) = err e
reply_of (ok none) = err (socks5_error malformed_reply)
reply_of (ok (some (rep, host, port))) = ok (record { rep = rep; host = host; port = port })

-- `_recv_reply`, and `_read_reply`.
unfoldable pub recv_reply : Platform → M Reply
unfolding recv_body
recv_reply p = do
  head ← recv_exact 4
  body ← recv_body (get_or head 3 0)
  lift (reply_of (Binding.parse_reply p (head ++ body)))

-- The reply to the credentials: `None` is no 0 either.
abbrev pub check_status : Option ℕ → M (Unit {0})
check_status none = raise (socks5_error (auth_rejected none))
check_status (some status) =
    if status == 0 then pure tt else raise (socks5_error (auth_rejected (some status)))

unfoldable pub authenticate : Option (Text × Text) → M (Unit {0})
authenticate none = raise (socks5_error userpass_demanded)
authenticate (some (user, password)) = do
  creds ← lift (Binding.userpass_auth user password)
  sendall creds
  answer ← recv_exact 2
  check_status (parse_auth_reply answer)

-- What the proxy's choice of a method leads to.
abbrev pub follow : Option (Text × Text) → Option ℕ → M (Unit {0})
follow creds none = raise (socks5_error malformed_method_selection)
follow creds (some chosen) =
    if chosen == userpass
    then authenticate creds
    else if chosen == no_auth
    then pure tt
    else raise (socks5_error (no_acceptable_method chosen))

abbrev pub offered : Option (Text × Text) → Bytes
offered none = no_auth ∷ []
offered (some c) = userpass ∷ no_auth ∷ []

-- The body of the `try` in `Client.connect`, and `AsyncClient._negotiate`.
unfoldable pub negotiate : Platform → Option (Text × Text) → Text → ℤ → ℤ → M Reply
unfolding authenticate recv_reply
negotiate p creds host port cmd = do
  greeting ← lift (Binding.client_greeting (offered creds))
  sendall greeting
  selection ← recv_exact 2
  follow creds (parse_method_selection selection)
  req ← lift (Binding.request p cmd host port)
  sendall req
  recv_reply p
