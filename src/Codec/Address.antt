-- ===== src/Codec/Address.antt =====
-- The address codec of csrc/socks5_codec.cpp: ATYP, ADDR, PORT. A position in the input is the
-- list of the bytes from there on; `data.size() - pos` is its length.
pub mod RoundTrip
use optisocks.Prelude.{
  ℕ, ◌+◌, ◌*◌, ◌/◌, ◌%◌, Option, none, some, [], ◌∷◌, ◌++◌, Bytes, Text, Result, ok, err,
  length_error, ◌==◌, ltb, if◌then◌else◌, length, take, drop,
}
use optisocks.Codec.Platform.{Platform, c_str}

abbrev pub ipv4 : ℕ
ipv4 = 0x01

abbrev pub domain : ℕ
domain = 0x03

abbrev pub ipv6 : ℕ
ipv6 = 0x04

-- `port` is a uint16_t, below 2^16.
pub record Address : Type 0 where
  pub host : Text
  pub port : ℕ

unfoldable pub push_port : Bytes → ℕ → Bytes
push_port out port = out ++ (port / 256 % 256) ∷ (port % 256) ∷ []

-- The ATYP and the raw address bytes.
unfoldable pub classify_host : Platform → Text → ℕ × Bytes
classify_host p host = elim (p.inet_pton4 (c_str host)) [
  | some raw ↦ (ipv4, raw)
  | none ↦ elim (p.inet_pton6 (c_str host)) [ some raw ↦ (ipv6, raw) | none ↦ (domain, host) ]
]

-- The domain's length byte stands in front of its bytes.
abbrev pub length_prefix : ℕ → Bytes → Bytes
length_prefix atyp raw = if atyp == domain then (length raw % 256) ∷ [] else []

-- Appends to `out`, or throws.
unfoldable pub encode_address : Platform → Bytes → Address → Result Bytes
unfolding push_port
encode_address p out a =
    let (atyp, raw) = classify_host p a.host in
    if atyp == domain
    then if ltb 255 (length raw)
      then err length_error
      else ok (push_port ((out ++ atyp ∷ length_prefix atyp raw) ++ raw) a.port)
    else ok (push_port ((out ++ atyp ∷ length_prefix atyp raw) ++ raw) a.port)

-- The port, and what is left behind it.
unfoldable pub decode_port : Text → Bytes → Option (Address × Bytes)
decode_port host (hi ∷ lo ∷ rest) = some (record { host = host; port = hi * 256 + lo }, rest)
decode_port host _ = none

unfoldable pub decode_literal : (Bytes → Option Text) → ℕ → Bytes → Option (Address × Bytes)
unfolding decode_port
decode_literal ntop n d =
    if ltb (length d) n
    then none
    else elim (ntop (take n d)) [ none ↦ none | some host ↦ decode_port host (drop n d) ]

unfoldable pub decode_domain : Bytes → Option (Address × Bytes)
unfolding decode_port
decode_domain [] = none
decode_domain (len ∷ d) = if ltb (length d) len then none else decode_port (take len d) (drop len d)

unfoldable pub decode_address : Platform → Bytes → Option (Address × Bytes)
unfolding decode_literal decode_domain
decode_address p [] = none
decode_address p (atyp ∷ d) =
    if atyp == ipv4
    then decode_literal p.inet_ntop4 4 d
    else if atyp == ipv6
    then decode_literal p.inet_ntop6 16 d
    else if atyp == domain
    then decode_domain d
    else none
