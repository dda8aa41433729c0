-- ===== src/Codec/Messages.antt =====
-- The messages of csrc/socks5_codec.cpp: each has a builder and a parser. A span is a list of bytes.
pub mod RoundTrip
use optisocks.Prelude.{
  ℕ, ◌+◌, ◌%◌, Option, none, some, [], ◌∷◌, ◌++◌, ◌||◌, not, Bytes, Text, Result, ok, err,
  length_error, ◌>>=◌, ◌==◌, ltb, if◌then◌else◌, length, take, drop,
}
use optisocks.Codec.Platform.{Platform}
use optisocks.Codec.Address.{Address, encode_address, decode_address}

abbrev pub ver : ℕ
ver = 0x05

abbrev pub auth_ver : ℕ
auth_ver = 0x01

unfoldable pub client_greeting : Bytes → Result Bytes
client_greeting methods =
    if ltb 255 (length methods)
    then err length_error
    else ok (ver ∷ (length methods % 256) ∷ methods)

-- Two bytes, the first of them fixed: the method selection and the auth reply.
abbrev pub parse_pair : ℕ → Bytes → Option ℕ
parse_pair v (a ∷ b ∷ rest) = if a == v then some b else none
parse_pair v _ = none

unfoldable pub parse_method_selection : Bytes → Option ℕ
parse_method_selection = parse_pair ver

unfoldable pub userpass_auth : Text → Text → Result Bytes
userpass_auth user pass =
    if ltb 255 (length user) || ltb 255 (length pass)
    then err length_error
    else ok (auth_ver ∷ (length user % 256) ∷ (user ++ (length pass % 256) ∷ pass))

unfoldable pub parse_auth_reply : Bytes → Option ℕ
parse_auth_reply = parse_pair auth_ver

unfoldable pub request : Platform → ℕ → Address → Result Bytes
request p cmd dst = encode_address p (ver ∷ cmd ∷ 0x00 ∷ []) dst

-- The request and the reply have one form: VER, CMD or REP, RSV, address.
abbrev pub parse_framed : Platform → Bytes → Option (ℕ × Address)
parse_framed p (v ∷ code ∷ rsv ∷ atyp ∷ d) =
    if v == ver
    then elim (decode_address p (atyp ∷ d)) [ none ↦ none | some (a, rest) ↦ some (code, a) ]
    else none
parse_framed p _ = none

unfoldable pub parse_reply : Platform → Bytes → Option (ℕ × Address)
parse_reply = parse_framed

unfoldable pub parse_greeting : Bytes → Option Bytes
parse_greeting (v ∷ n ∷ d) =
    if not (v == ver) then none else if ltb (length d) n then none else some (take n d)
parse_greeting _ = none

unfoldable pub method_selection : ℕ → Bytes
method_selection method = ver ∷ method ∷ []

-- PLEN and PASSWD, behind the user name.
unfoldable pub parse_password : Text → Bytes → Option (Text × Text)
parse_password user [] = none
parse_password user (plen ∷ d) = if ltb (length d) plen then none else some (user, take plen d)

unfoldable pub parse_userpass : Bytes → Option (Text × Text)
unfolding parse_password
parse_userpass (v ∷ ulen ∷ d) =
    if not (v == auth_ver)
    then none
    else if ltb (length d) (ulen + 1)
    then none
    else parse_password (take ulen d) (drop ulen d)
parse_userpass _ = none

unfoldable pub auth_reply : ℕ → Bytes
auth_reply status = auth_ver ∷ status ∷ []

unfoldable pub parse_request : Platform → Bytes → Option (ℕ × Address)
parse_request = parse_framed

unfoldable pub reply : Platform → ℕ → Address → Result Bytes
reply p rep bound = encode_address p (ver ∷ rep ∷ 0x00 ∷ []) bound

unfoldable pub udp_encapsulate : Platform → Address → Bytes → ℕ → Result Bytes
udp_encapsulate p dst payload frag = do
  out ← encode_address p (0x00 ∷ 0x00 ∷ frag ∷ []) dst
  ok (out ++ payload)

pub record UdpDatagram : Type 0 where
  pub frag : ℕ
  pub origin : Address
  pub payload : Bytes

unfoldable pub udp_decapsulate : Platform → Bytes → Option UdpDatagram
udp_decapsulate p (r0 ∷ r1 ∷ frag ∷ atyp ∷ d) = elim (decode_address p (atyp ∷ d)) [
  | none ↦ none
  | some (a, rest) ↦ some (record { frag = frag; origin = a; payload = rest })
]
udp_decapsulate p _ = none
