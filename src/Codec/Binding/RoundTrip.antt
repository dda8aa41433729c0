-- ===== src/Codec/Binding/RoundTrip.antt =====
-- The functions of csrc/module.cpp against one another: what a builder returns, its parser reads.
use optisocks.Prelude.{
  ℕ, ◌<◌, ◌≡◌, refl, ℤ, pos, negsuc, true, false, some, ◌++◌, Bytes, Text, ok, err, length_error,
  arith, if◌then◌else◌,
}
use optisocks.Codec.Platform.{Platform, IsInet}
use optisocks.Codec.Address.{Address}
use optisocks.Codec.Address.RoundTrip.{too_long, canonical, canonical_utf8}
use optisocks.Codec.Messages
use optisocks.Codec.Messages.{ver, auth_ver}
use optisocks.Codec.Messages.RoundTrip.{framed, request_lem, reply_lem, parse_framed_lem}
use optisocks.Codec.Binding.{
  request, reply, parse_request, parse_reply, value_error_of, build_framed, build_str,
}

-- Arguments that a builder of a framed message accepts, with the bytes that it makes of them.
pub record IsFramed (p : Platform) (code : ℤ) (host : Text) (port : ℤ) (b : Bytes) : Type 0 where
  pub code' : ℕ
  pub port' : ℕ
  pub is_code : code ≡ pos code'
  pub is_port : port ≡ pos port'
  pub code_fits : code' < 256
  pub port_fits : port' < 65536
  pub host_fits : too_long p host ≡ false
  pub bytes : b ≡ framed p code' (record { host = host; port = port' })

framed_of :
    (p : Platform) (c n : ℕ) (host : Text) {b : Bytes}
    → value_error_of (
        if too_long p host
        then err length_error
        else ok (framed p c (record { host = host; port = n })))
      ≡ ok b
    → (too_long p host ≡ false) × (b ≡ framed p c (record { host = host; port = n }))
unfolding value_error_of
framed_of p c n host h = ground arith

request_pos :
    (p : Platform) (c n : ℕ) (host : Text) {b : Bytes}
    → request p (pos c) host (pos n) ≡ ok b
    → (c < 256)
      × (n < 65536)
      × (value_error_of (Messages.request p c (record { host = host; port = n })) ≡ ok b)
unfolding request
request_pos p c n host h = ground arith

reply_pos :
    (p : Platform) (c n : ℕ) (host : Text) {b : Bytes}
    → reply p (pos c) host (pos n) ≡ ok b
    → (c < 256)
      × (n < 65536)
      × (value_error_of (Messages.reply p c (record { host = host; port = n })) ≡ ok b)
unfolding reply
reply_pos p c n host h = ground arith

pub request_bytes :
    (p : Platform) (c n : ℕ) (host : Text) {b : Bytes}
    → request p (pos c) host (pos n) ≡ ok b
    → (c < 256)
      × (n < 65536)
      × (too_long p host ≡ false)
      × (b ≡ framed p c (record { host = host; port = n }))
request_bytes p c n host h =
    let (hc, hn, made) = request_pos p c n host h in
    let (fits, e) =
      framed_of p c n host (rw (← request_lem p c (record { host = host; port = n })) made) in
    (hc, hn, fits, e)

-- Whenever `request` returns bytes, the code is a byte, the port is a 16-bit number, neither of them
-- negative, a host that is a name has at most 255 bytes, and the bytes are the framed message.
pub request-IsFramed :
    (p : Platform) (code : ℤ) (host : Text) (port : ℤ) (b : Bytes)
    → request p code host port ≡ ok b
    → IsFramed p code host port b
unfolding request
request-IsFramed p (pos c) host (pos n) b h =
    let (hc, hn, fits, e) = request_bytes p c n host h in
    record {
      code' = c;
      port' = n;
      is_code = refl;
      is_port = refl;
      code_fits = hc;
      port_fits = hn;
      host_fits = fits;
      bytes = e;
    }
request-IsFramed p (pos c) host (negsuc n) b h = absurd (ground arith)
request-IsFramed p (negsuc c) host port b h = absurd (ground arith)

pub reply_bytes :
    (p : Platform) (c n : ℕ) (host : Text) {b : Bytes}
    → reply p (pos c) host (pos n) ≡ ok b
    → (c < 256)
      × (n < 65536)
      × (too_long p host ≡ false)
      × (b ≡ framed p c (record { host = host; port = n }))
reply_bytes p c n host h =
    let (hc, hn, made) = reply_pos p c n host h in
    let (fits, e) =
      framed_of p c n host (rw (← reply_lem p c (record { host = host; port = n })) made) in
    (hc, hn, fits, e)

-- `reply` refuses every code that is no byte, every port that is no 16-bit number, negative ones too,
-- and every name of more than 255 bytes; what it returns is the framed message.
pub reply-IsFramed :
    (p : Platform) (code : ℤ) (host : Text) (port : ℤ) (b : Bytes)
    → reply p code host port ≡ ok b
    → IsFramed p code host port b
unfolding reply
reply-IsFramed p (pos c) host (pos n) b h =
    let (hc, hn, fits, e) = reply_bytes p c n host h in
    record {
      code' = c;
      port' = n;
      is_code = refl;
      is_port = refl;
      code_fits = hc;
      port_fits = hn;
      host_fits = fits;
      bytes = e;
    }
reply-IsFramed p (pos c) host (negsuc n) b h = absurd (ground arith)
reply-IsFramed p (negsuc c) host port b h = absurd (ground arith)

-- What the parsers of a framed message return on the bytes of one.
build_framed_lem :
    (p : Platform) (code : ℕ) (a : Address) (rest : Bytes)
    → IsInet p
    → p.is_utf8 a.host ≡ true
    → a.port < 65536
    → too_long p a.host ≡ false
    → (t : Text) × (canonical p a.host ≡ some t)
      × (build_framed p (Messages.parse_framed p (framed p code a ++ rest))
          ≡ ok (some (code, t, a.port)))
unfolding build_str
build_framed_lem p code a rest inet u h fits =
    let (t, c, d) = parse_framed_lem p code a rest inet h fits in
    (t, c, rw (d, canonical_utf8 p a.host t inet u c))

-- `parse_request` reads what `request` returned, whatever stands behind it: the command, the
-- canonical text of the host, and the port.
-- The host text is UTF-8, and the conversions of addresses keep their laws.
pub parse_request-request :
    (p : Platform) (c n : ℕ) (host : Text) (b rest : Bytes)
    → IsInet p
    → p.is_utf8 host ≡ true
    → request p (pos c) host (pos n) ≡ ok b
    → (t : Text) × (canonical p host ≡ some t) × (parse_request p (b ++ rest) ≡ ok (some (c, t, n)))
unfolding parse_request Messages.parse_request
parse_request-request p c n host b rest inet u h =
    let (hc, hn, fits, e) = request_bytes p c n host h in
    rw e (build_framed_lem p c (record { host = host; port = n }) rest inet u hn fits)

-- `parse_reply` reads what `reply` returned, whatever stands behind it: the code, the canonical text
-- of the host, and the port.
-- The host text is UTF-8, and the conversions of addresses keep their laws.
pub parse_reply-reply :
    (p : Platform) (c n : ℕ) (host : Text) (b rest : Bytes)
    → IsInet p
    → p.is_utf8 host ≡ true
    → reply p (pos c) host (pos n) ≡ ok b
    → (t : Text) × (canonical p host ≡ some t) × (parse_reply p (b ++ rest) ≡ ok (some (c, t, n)))
unfolding parse_reply Messages.parse_reply
parse_reply-reply p c n host b rest inet u h =
    let (hc, hn, fits, e) = reply_bytes p c n host h in
    rw e (build_framed_lem p c (record { host = host; port = n }) rest inet u hn fits)
