-- ===== src/Codec/Binding/RoundTripOther.antt =====
-- The greeting, the credentials and the UDP datagrams of csrc/module.cpp: parsers against builders.
use optisocks.Prelude.{
  ℕ, ◌<◌, ◌≤◌, ◌≡◌, pos, true, false, some, [], ◌∷◌, ◌++◌, Bytes, Text, ok, arith, length,
  append_assoc,
}
use optisocks.Codec.Platform.{Platform, IsInet}
use optisocks.Codec.Address.{Address, decode_address}
use optisocks.Codec.Address.RoundTrip.{
  wire, too_long, canonical, canonical_utf8, encode_address_lem, decode-wire,
}
use optisocks.Codec.Messages
use optisocks.Codec.Messages.{ver, auth_ver, parse_greeting}
use optisocks.Codec.Messages.RoundTrip.{client_greeting_lem, parse_greeting_lem, parse_userpass_lem}
use optisocks.Codec.Binding.{
  client_greeting, userpass_auth, parse_userpass, udp_encapsulate, udp_decapsulate,
}

pub client_greeting_bytes :
    (ms : Bytes) {b : Bytes}
    → client_greeting ms ≡ ok b
    → (length ms ≤ 255) × (b ≡ ver ∷ length ms ∷ ms)
unfolding client_greeting
client_greeting_bytes ms h = ground (arith, client_greeting_lem ms)

-- `parse_greeting` reads the methods that `client_greeting` was given, whatever stands behind.
pub parse_greeting-client_greeting :
    (ms b rest : Bytes) → client_greeting ms ≡ ok b → parse_greeting (b ++ rest) ≡ some ms
parse_greeting-client_greeting ms b rest h =
    rw ((client_greeting_bytes ms h).1) (parse_greeting_lem ms rest)

pub userpass_auth_bytes :
    (user pass : Text) {b : Bytes}
    → userpass_auth user pass ≡ ok b
    → (length user ≤ 255)
      × (length pass ≤ 255)
      × (b ≡ auth_ver ∷ length user ∷ (user ++ length pass ∷ pass))
unfolding userpass_auth Messages.userpass_auth
userpass_auth_bytes user pass h = ground arith

pub userpass_wire :
    (user pass : Text) (rest : Bytes)
    → (auth_ver ∷ length user ∷ (user ++ length pass ∷ pass)) ++ rest
      ≡ auth_ver ∷ length user ∷ (user ++ length pass ∷ (pass ++ rest))
userpass_wire user pass rest = simp append_assoc

-- `parse_userpass` reads the name and the password that `userpass_auth` was given, whatever stands
-- behind, if both are UTF-8.
pub parse_userpass-userpass_auth :
    (p : Platform) (user pass : Text) (b rest : Bytes)
    → p.is_utf8 user ≡ true
    → p.is_utf8 pass ≡ true
    → userpass_auth user pass ≡ ok b
    → parse_userpass p (b ++ rest) ≡ ok (some (user, pass))
unfolding parse_userpass
parse_userpass-userpass_auth p user pass b rest hu hp h = rw (
  (userpass_auth_bytes user pass h).2,
  userpass_wire user pass rest,
  parse_userpass,
  parse_userpass_lem user pass rest,
  hu,
  hp,
)

udp_bytes :
    (p : Platform) (host : Text) (n f : ℕ) (payload : Bytes) {b : Bytes}
    → udp_encapsulate p host (pos n) payload (pos f) ≡ ok b
    → (n < 65536)
      × (too_long p host ≡ false)
      × (b ≡ (0x00 ∷ 0x00 ∷ f ∷ wire p (record { host = host; port = n })) ++ payload)
unfolding udp_encapsulate Messages.udp_encapsulate
udp_bytes p host n f payload h =
    ground (arith, encode_address_lem p (0x00 ∷ 0x00 ∷ f ∷ []) (record { host = host; port = n }))

udp_decapsulate_at :
    (p : Platform) (f : ℕ) (a : Address) (payload : Bytes) {t : Text}
    → decode_address p (wire p a ++ payload) ≡ some (record { host = t; port = a.port }, payload)
    → p.is_utf8 t ≡ true
    → udp_decapsulate p ((0x00 ∷ 0x00 ∷ f ∷ wire p a) ++ payload)
      ≡ ok (some (f, t, a.port, payload))
unfolding udp_decapsulate Messages.udp_decapsulate
udp_decapsulate_at p f a payload d u = ground arith

-- `udp_decapsulate` takes out of a datagram what `udp_encapsulate` put in: the fragment number, the
-- canonical text of the host, the port, and the payload byte for byte.
-- The host text is UTF-8, and the conversions of addresses keep their laws.
pub udp_decapsulate-udp_encapsulate :
    (p : Platform) (host : Text) (n f : ℕ) (payload b : Bytes)
    → IsInet p
    → p.is_utf8 host ≡ true
    → udp_encapsulate p host (pos n) payload (pos f) ≡ ok b
    → (t : Text) × (canonical p host ≡ some t)
      × (udp_decapsulate p b ≡ ok (some (f, t, n, payload)))
udp_decapsulate-udp_encapsulate p host n f payload b inet u h =
    let (hn, fits, e) = udp_bytes p host n f payload h in
    let (t, c, d) = decode-wire p (record { host = host; port = n }) payload inet hn fits in
    (
      t,
      c,
      rw e (
          udp_decapsulate_at p f (record { host = host; port = n }) payload d
            (canonical_utf8 p host t inet u c)),
    )
