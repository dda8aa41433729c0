-- ===== src/Codec/Address/RoundTrip.antt =====
-- The address codec of csrc/socks5_codec.cpp: what `encode_address` writes, `decode_address` reads.
use optisocks.Prelude.{
  ℕ, ◌/◌, ◌%◌, ◌<◌, ◌≤◌, ◌≡◌, refl, sym, ap, ◌∙◌, Bool, true, false, ◌&&◌, Option, none, some, [],
  ◌∷◌, ◌++◌, Bytes, Text, ok, err, length_error, arith, ◌==◌, ltb, le→ltb, ltb→le, if◌then◌else◌,
  length, take_all, drop_all, length-append, append_assoc, some_eq,
}
use optisocks.Codec.Platform.{Platform, IsInet, c_str}
use optisocks.Codec.Address.{
  Address, ipv4, ipv6, domain, push_port, classify_host, length_prefix, encode_address, decode_port,
  decode_literal, decode_domain, decode_address,
}

abbrev pub port_bytes : ℕ → Bytes
port_bytes port = (port / 256 % 256) ∷ (port % 256) ∷ []

abbrev pub wire_of : ℕ × Bytes → ℕ → Bytes
wire_of (atyp, raw) port = atyp ∷ (length_prefix atyp raw ++ (raw ++ port_bytes port))

-- The bytes of an address: ATYP, ADDR, PORT.
abbrev pub wire : Platform → Address → Bytes
wire p a = wire_of (classify_host p a.host) a.port

abbrev pub too_long_of : ℕ × Bytes → Bool
too_long_of (atyp, raw) = (atyp == domain) && ltb 255 (length raw)

-- A domain name of more than 255 bytes.
abbrev pub too_long : Platform → Text → Bool
too_long p host = too_long_of (classify_host p host)

abbrev pub text_of : Platform → ℕ × Bytes → Option Text
text_of p (atyp, raw) =
    if atyp == ipv4 then p.inet_ntop4 raw else if atyp == ipv6 then p.inet_ntop6 raw else some raw

-- The text that stands for the same host: an IP address in the C library's form, a name as it is.
abbrev pub canonical : Platform → Text → Option Text
canonical p host = text_of p (classify_host p host)

-- A host, split by what it is, with the equations kept.
pub data HostView (p : Platform) (host : Text) : Type 0 where
  is_v4 :
      (raw : Bytes)
      → p.inet_pton4 (c_str host) ≡ some raw
      → classify_host p host ≡ (ipv4, raw)
      → HostView p host
  is_v6 :
      (raw : Bytes)
      → p.inet_pton6 (c_str host) ≡ some raw
      → classify_host p host ≡ (ipv6, raw)
      → HostView p host
  is_name :
      p.inet_pton4 (c_str host) ≡ none
      → p.inet_pton6 (c_str host) ≡ none
      → classify_host p host ≡ (domain, host)
      → HostView p host

pub host_view : (p : Platform) (host : Text) → HostView p host
unfolding classify_host
host_view p host = at4 (p.inet_pton4 (c_str host)) refl
  where
    at6 :
        (o : Option Bytes)
        → p.inet_pton4 (c_str host) ≡ none
        → p.inet_pton6 (c_str host) ≡ o
        → HostView p host
    at6 (some raw) n4 e = is_v6 raw e (ground arith)
    at6 none n4 e = is_name n4 e (ground arith)

    at4 : (o : Option Bytes) → p.inet_pton4 (c_str host) ≡ o → HostView p host
    at4 (some raw) e = is_v4 raw e (ground arith)
    at4 none e = at6 (p.inet_pton6 (c_str host)) e refl

push_port_lem :
    (out lp raw : Bytes) (atyp port : ℕ)
    → push_port ((out ++ atyp ∷ lp) ++ raw) port ≡ out ++ atyp ∷ (lp ++ (raw ++ port_bytes port))
unfolding push_port
push_port_lem out lp raw atyp port = simp append_assoc

encode_classified :
    (p : Platform) (out : Bytes) (a : Address) (atyp : ℕ) (raw : Bytes)
    → classify_host p a.host ≡ (atyp, raw)
    → encode_address p out a ≡ (
        if too_long_of (atyp, raw)
        then err length_error
        else ok (out ++ wire_of (atyp, raw) a.port))
unfolding encode_address
encode_classified p out a atyp raw e =
    rw (e, push_port_lem out (length_prefix atyp raw) raw atyp a.port) (ground arith)

-- What `encode_address` does: it appends the address, or refuses a name of more than 255 bytes.
pub encode_address_lem :
    (p : Platform) (out : Bytes) (a : Address)
    → encode_address p out a
      ≡ (if too_long p a.host then err length_error else ok (out ++ wire p a))
encode_address_lem p out a =
    encode_classified p out a (classify_host p a.host).0 (classify_host p a.host).1 refl

decode_port_lem :
    (host : Text) (port : ℕ) (rest : Bytes)
    → port < 65536
    → decode_port host (port_bytes port ++ rest) ≡ some (record { host = host; port = port }, rest)
unfolding decode_port
decode_port_lem host port rest h = ground arith

long_enough : (xs ys : Bytes) → ltb (length (xs ++ ys)) (length xs) ≡ false
long_enough xs ys = le→ltb _ _ (rw length-append (omega arith))

decode_literal_lem :
    (ntop : Bytes → Option Text) (raw : Bytes) {t : Text} (port : ℕ) (rest : Bytes)
    → ntop raw ≡ some t
    → port < 65536
    → decode_literal ntop (length raw) (raw ++ (port_bytes port ++ rest))
      ≡ some (record { host = t; port = port }, rest)
unfolding decode_literal
decode_literal_lem ntop raw port rest e h =
    rw
      (
        long_enough raw (port_bytes port ++ rest),
        take_all raw (port_bytes port ++ rest),
        e,
        drop_all raw (port_bytes port ++ rest),
      )
      (decode_port_lem _ port rest h)

decode_literal_at :
    (ntop : Bytes → Option Text) (n : ℕ) (raw : Bytes) {t : Text} (port : ℕ) (rest : Bytes)
    → length raw ≡ n
    → ntop raw ≡ some t
    → port < 65536
    → decode_literal ntop n (raw ++ (port_bytes port ++ rest))
      ≡ some (record { host = t; port = port }, rest)
decode_literal_at ntop n raw port rest l e h = rw (← l) (decode_literal_lem ntop raw port rest e h)

decode_domain_lem :
    (host : Text) (port : ℕ) (rest : Bytes)
    → length host ≤ 255
    → port < 65536
    → decode_domain (length host ∷ (host ++ (port_bytes port ++ rest)))
      ≡ some (record { host = host; port = port }, rest)
unfolding decode_domain
decode_domain_lem host port rest l h =
    rw
      (
        long_enough host (port_bytes port ++ rest),
        take_all host (port_bytes port ++ rest),
        drop_all host (port_bytes port ++ rest),
      )
      (decode_port_lem host port rest h)

decode_v4 :
    (p : Platform) (raw : Bytes) {t : Text} (port : ℕ) (rest : Bytes)
    → length raw ≡ 4
    → p.inet_ntop4 raw ≡ some t
    → port < 65536
    → decode_address p (wire_of (ipv4, raw) port ++ rest)
      ≡ some (record { host = t; port = port }, rest)
unfolding decode_address
decode_v4 p raw port rest l e h =
    ap (λ d. decode_literal p.inet_ntop4 4 d) (append_assoc raw (port_bytes port) rest)
    ∙ decode_literal_at p.inet_ntop4 4 raw port rest l e h

decode_v6 :
    (p : Platform) (raw : Bytes) {t : Text} (port : ℕ) (rest : Bytes)
    → length raw ≡ 16
    → p.inet_ntop6 raw ≡ some t
    → port < 65536
    → decode_address p (wire_of (ipv6, raw) port ++ rest)
      ≡ some (record { host = t; port = port }, rest)
unfolding decode_address
decode_v6 p raw port rest l e h =
    ap (λ d. decode_literal p.inet_ntop6 16 d) (append_assoc raw (port_bytes port) rest)
    ∙ decode_literal_at p.inet_ntop6 16 raw port rest l e h

decode_name :
    (p : Platform) (name : Text) (port : ℕ) (rest : Bytes)
    → length name ≤ 255
    → port < 65536
    → decode_address p (wire_of (domain, name) port ++ rest)
      ≡ some (record { host = name; port = port }, rest)
unfolding decode_address
decode_name p name port rest l h =
    let small : length name % 256 ≡ length name = omega arith in
    rw (append_assoc, small) (decode_domain_lem name port rest l h)

-- An address that is not refused decodes, whatever stands behind it, to the canonical text of its
-- host and to its port, and exactly its own bytes are read.
pub decode-wire :
    (p : Platform) (a : Address) (rest : Bytes)
    → IsInet p
    → a.port < 65536
    → too_long p a.host ≡ false
    → (t : Text) × (canonical p a.host ≡ some t)
      × (decode_address p (wire p a ++ rest) ≡ some (record { host = t; port = a.port }, rest))
decode-wire p a rest inet h fits = elim (host_view p a.host) [
  | is_v4 raw e c ↦
      let l = inet.length-pton4 _ raw e in
      let (t, et, back, plain) = inet.ntop4 raw l (inet.pton4_bytes _ raw e) in
      (t, rw c et, rw c (decode_v4 p raw a.port rest l et h))
  | is_v6 raw e c ↦
      let l = inet.length-pton6 _ raw e in
      let (t, et, back, other, plain) = inet.ntop6 raw l (inet.pton6_bytes _ raw e) in
      (t, rw c et, rw c (decode_v6 p raw a.port rest l et h))
  | is_name n4 n6 c ↦
      (a.host, rw c, rw c (decode_name p a.host a.port rest (ltb→le _ _ (rw c at fits)) h))
]

canonical_v4 :
    (p : Platform) (t : Text) {raw : Bytes}
    → c_str t ≡ t
    → p.inet_pton4 t ≡ some raw
    → p.inet_ntop4 raw ≡ some t
    → canonical p t ≡ some t
unfolding classify_host
canonical_v4 p t plain back text = ground arith

canonical_v6 :
    (p : Platform) (t : Text) {raw : Bytes}
    → c_str t ≡ t
    → p.inet_pton4 t ≡ none
    → p.inet_pton6 t ≡ some raw
    → p.inet_ntop6 raw ≡ some t
    → canonical p t ≡ some t
unfolding classify_host
canonical_v6 p t plain other back text = ground arith

-- The canonical text is a fixed point: written and read again, it stays.
-- The conversions of addresses keep their laws.
pub canonical_idem :
    (p : Platform) (host t : Text) → IsInet p → canonical p host ≡ some t → canonical p t ≡ some t
canonical_idem p host t inet h = elim (host_view p host) [
  | is_v4 raw e c ↦
      let (t', text, back, plain) =
        inet.ntop4 raw (inet.length-pton4 _ raw e) (inet.pton4_bytes _ raw e) in
      let same : t' ≡ t = some_eq (sym text ∙ (rw c at h)) in
      rw same at (canonical_v4 p t' plain.0 back text)
  | is_v6 raw e c ↦
      let (t', text, back, other, plain) =
        inet.ntop6 raw (inet.length-pton6 _ raw e) (inet.pton6_bytes _ raw e) in
      let same : t' ≡ t = some_eq (sym text ∙ (rw c at h)) in
      rw same at (canonical_v6 p t' plain.0 other back text)
  | is_name n4 n6 c ↦
      let same : host ≡ t = some_eq (rw c at h) in
      let fixed : canonical p host ≡ some host = rw c in rw same at fixed
]

-- The canonical text is plain UTF-8 if the text is.
pub canonical_utf8 :
    (p : Platform) (host t : Text)
    → IsInet p
    → p.is_utf8 host ≡ true
    → canonical p host ≡ some t
    → p.is_utf8 t ≡ true
canonical_utf8 p host t inet u h = elim (host_view p host) [
  | is_v4 raw e c ↦
      let (t', text, back, plain) =
        inet.ntop4 raw (inet.length-pton4 _ raw e) (inet.pton4_bytes _ raw e) in
      let same : t' ≡ t = some_eq (sym text ∙ (rw c at h)) in rw same at plain.1
  | is_v6 raw e c ↦
      let (t', text, back, other, plain) =
        inet.ntop6 raw (inet.length-pton6 _ raw e) (inet.pton6_bytes _ raw e) in
      let same : t' ≡ t = some_eq (sym text ∙ (rw c at h)) in rw same at plain.1
  | is_name n4 n6 c ↦ let same : host ≡ t = some_eq (rw c at h) in rw same at u
]
