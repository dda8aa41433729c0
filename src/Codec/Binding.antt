-- ===== src/Codec/Binding.antt =====
-- The functions of csrc/module.cpp, as Python calls them. A `str` comes in and goes out as UTF-8.
pub mod RoundTrip
pub mod RoundTripOther
use optisocks.Prelude.{
  ℕ, ◌^◌, ℤ, pos, negsuc, Bool, true, false, Option, none, some, [], ◌∷◌, Bytes, Text, Exn, Result,
  ok, err, length_error, value_error, overflow_error, unicode_error, ◌>>=◌, ◌==◌, ltb, leb,
  if◌then◌else◌, length,
}
use optisocks.Codec.Platform.{Platform, c_str}
use optisocks.Codec.Address.{Address}
use optisocks.Codec.Messages

-- `in_range`, with the ValueError that its callers return.
unfoldable pub in_range : ℤ → ℕ → Result ℕ
in_range (pos n) max = if ltb max n then err value_error else ok n
in_range (negsuc n) max = err value_error

-- `PyArg_ParseTuple` with the format "i": a C int.
unfoldable pub c_int : ℤ → Result ℤ
c_int (pos n) = if ltb n (2 ^ 31) then ok (pos n) else err overflow_error
c_int (negsuc n) = if ltb n (2 ^ 31) then ok (negsuc n) else err overflow_error

-- `PyArg_ParseTuple` with the format "s": a C string, with no NUL inside.
unfoldable pub c_string : Text → Result Text
c_string t = if length (c_str t) == length t then ok t else err value_error

-- `catch (const std::length_error&)`.
unfoldable pub value_error_of : Result Bytes → Result Bytes
value_error_of (ok b) = ok b
value_error_of (err length_error) = err value_error
value_error_of (err e) = err e

-- `Py_BuildValue` with the format "s#": a `str` from UTF-8.
unfoldable pub build_str : Platform → Bytes → Result Text
build_str p b = if p.is_utf8 b then ok b else err unicode_error

unfoldable pub client_greeting : Bytes → Result Bytes
unfolding value_error_of
client_greeting methods = value_error_of (Messages.client_greeting methods)

unfoldable pub userpass_auth : Text → Text → Result Bytes
unfolding value_error_of
userpass_auth user password = value_error_of (Messages.userpass_auth user password)

unfoldable pub request : Platform → ℤ → Text → ℤ → Result Bytes
unfolding value_error_of c_int c_string in_range
request p cmd host port = do
  c ← c_int cmd
  h ← c_string host
  n ← c_int port
  cmd' ← in_range c 255
  port' ← in_range n 65535
  value_error_of (Messages.request p cmd' (record { host = h; port = port' }))

-- (code, host, port), the tuple of `parse_reply` and `parse_request`.
abbrev pub build_framed : Platform → Option (ℕ × Address) → Result (Option (ℕ × Text × ℕ))
build_framed p none = ok none
build_framed p (some (code, a)) = do host ← build_str p a.host; ok (some (code, host, a.port))

unfoldable pub parse_reply : Platform → Bytes → Result (Option (ℕ × Text × ℕ))
unfolding build_str
parse_reply p data' = build_framed p (Messages.parse_reply p data')

unfoldable pub method_selection : ℤ → Result Bytes
unfolding c_int in_range
method_selection method = do
  m ← c_int method
  m' ← in_range m 255
  ok (Messages.method_selection m')

unfoldable pub parse_userpass : Platform → Bytes → Result (Option (Text × Text))
unfolding build_str
parse_userpass p data' = elim (Messages.parse_userpass data') [
  | none ↦ ok none
  | some (user, pass) ↦ do u ← build_str p user; w ← build_str p pass; ok (some (u, w))
]

unfoldable pub auth_reply : ℤ → Result Bytes
unfolding c_int in_range
auth_reply status = do s ← c_int status; s' ← in_range s 255; ok (Messages.auth_reply s')

unfoldable pub parse_request : Platform → Bytes → Result (Option (ℕ × Text × ℕ))
unfolding build_str
parse_request p data' = build_framed p (Messages.parse_request p data')

unfoldable pub reply : Platform → ℤ → Text → ℤ → Result Bytes
unfolding value_error_of c_int c_string in_range
reply p rep host port = do
  r ← c_int rep
  h ← c_string host
  n ← c_int port
  rep' ← in_range r 255
  port' ← in_range n 65535
  value_error_of (Messages.reply p rep' (record { host = h; port = port' }))

unfoldable pub udp_encapsulate : Platform → Text → ℤ → Bytes → ℤ → Result Bytes
unfolding value_error_of c_int c_string in_range
udp_encapsulate p host port payload frag = do
  h ← c_string host
  n ← c_int port
  f ← c_int frag
  port' ← in_range n 65535
  frag' ← in_range f 255
  value_error_of (Messages.udp_encapsulate p (record { host = h; port = port' }) payload frag')

-- (frag, host, port, payload)
unfoldable pub udp_decapsulate : Platform → Bytes → Result (Option (ℕ × Text × ℕ × Bytes))
unfolding build_str
udp_decapsulate p data' = elim (Messages.udp_decapsulate p data') [
  | none ↦ ok none
  | some d ↦ do host ← build_str p d.origin.host; ok (some (d.frag, host, d.origin.port, d.payload))
]
