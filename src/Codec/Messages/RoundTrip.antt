-- ===== src/Codec/Messages/RoundTrip.antt =====
-- The messages of csrc/socks5_codec.cpp: each parser reads what its builder writes, and the sizes
-- by which src/optisocks5 cuts the stream are the lengths of the messages.
use optisocks.Prelude.{
  ℕ, ◌+◌, ◌<◌, ◌≤◌, ◌≡◌, false, some, [], ◌∷◌, ◌++◌, Bytes, Text, ok, err, length_error, arith, ltb,
  le→ltb, if◌then◌else◌, length, take_all, drop_all, length-append,
}
use optisocks.Codec.Platform.{Platform, IsInet}
use optisocks.Codec.Address.{Address}
use optisocks.Codec.Address.RoundTrip.{wire, too_long, canonical, encode_address_lem, decode-wire}
use optisocks.Codec.Messages.{
  ver, auth_ver, client_greeting, parse_greeting, userpass_auth, parse_userpass, request, reply,
  parse_framed,
}

-- VER, CMD or REP, RSV, address.
abbrev pub framed : Platform → ℕ → Address → Bytes
framed p code a = ver ∷ code ∷ 0x00 ∷ wire p a

pub request_lem :
    (p : Platform) (cmd : ℕ) (a : Address)
    → request p cmd a ≡ (if too_long p a.host then err length_error else ok (framed p cmd a))
unfolding request
request_lem p cmd a = encode_address_lem p (ver ∷ cmd ∷ 0x00 ∷ []) a

pub reply_lem :
    (p : Platform) (rep : ℕ) (a : Address)
    → reply p rep a ≡ (if too_long p a.host then err length_error else ok (framed p rep a))
unfolding reply
reply_lem p rep a = encode_address_lem p (ver ∷ rep ∷ 0x00 ∷ []) a

pub parse_framed_lem :
    (p : Platform) (code : ℕ) (a : Address) (rest : Bytes)
    → IsInet p
    → a.port < 65536
    → too_long p a.host ≡ false
    → (t : Text) × (canonical p a.host ≡ some t)
      × (parse_framed p (framed p code a ++ rest) ≡ some (code, record { host = t; port = a.port }))
parse_framed_lem p code a rest inet h fits =
    let (t, c, d) = decode-wire p a rest inet h fits in (t, c, rw d)

-- What `client_greeting` writes, and when it refuses.
pub client_greeting_lem :
    (ms : Bytes)
    → client_greeting ms
      ≡ (if ltb 255 (length ms) then err length_error else ok (ver ∷ length ms ∷ ms))
unfolding client_greeting
client_greeting_lem ms = ground arith

pub parse_greeting_lem :
    (ms rest : Bytes) → parse_greeting (ver ∷ length ms ∷ (ms ++ rest)) ≡ some ms
unfolding parse_greeting
parse_greeting_lem ms rest =
    rw (le→ltb (length (ms ++ rest)) (length ms) (rw length-append (omega arith)), take_all ms rest)

pub userpass_auth_lem :
    (user pass : Text)
    → length user ≤ 255
    → length pass ≤ 255
    → userpass_auth user pass ≡ ok (auth_ver ∷ length user ∷ (user ++ length pass ∷ pass))
unfolding userpass_auth
userpass_auth_lem user pass hu hp = ground arith

pub parse_userpass_lem :
    (user pass : Text) (rest : Bytes)
    → parse_userpass (auth_ver ∷ length user ∷ (user ++ length pass ∷ (pass ++ rest)))
      ≡ some (user, pass)
unfolding parse_userpass
parse_userpass_lem user pass rest = rw (
  le→ltb (length (user ++ length pass ∷ (pass ++ rest))) (length user + 1)
      (rw length-append (omega arith)),
  take_all user (length pass ∷ (pass ++ rest)),
  drop_all user (length pass ∷ (pass ++ rest)),
  le→ltb (length (pass ++ rest)) (length pass) (rw length-append (omega arith)),
  take_all pass rest,
)
