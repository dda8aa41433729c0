-- ===== src/Core/Session/Handshake.antt =====
-- `feed` of src/optisocks5/core/session.py on what a server answers.
use optisocks.Prelude.{
  ltb→le, ℕ, pos, ◌≤◌, ◌≡◌, refl, sym, ap, ◌∙◌, true, false, Option, none, some, [], ◌∷◌, ◌++◌,
  Bytes, Text, ok, arith, length, get_or, length-append, take_all, drop_all, append-nil,
  if◌then◌else◌,
}
use optisocks.Codec.Platform.{Platform, IsInet}
use optisocks.Codec.Address.{Address, classify_host}
use optisocks.Codec.Address.RoundTrip.{
  port_bytes, too_long, canonical, host_view, is_v4, is_v6, is_name,
}
use optisocks.Codec.Messages
use optisocks.Codec.Messages.RoundTrip.{framed}
use optisocks.Codec.Binding
use optisocks.Codec.Binding.RoundTrip.{reply_bytes, parse_reply-reply}
use optisocks.Core.Types.{Reply, no_auth, userpass}
use optisocks.Core.Session.{
  Session, auth, reply, done, again, returns, method_turn, auth_turn, fresh, offered, has_auth,
  reply_arrived, reply_turn, reply_size, turn, known_atyp, returned, loop, feed, leftover,
}

-- The size that is read off the front of the buffer is the length of the message there.
pub reply_size-framed :
    (p : Platform) (code : ℕ) (a : Address) (rest : Bytes)
    → IsInet p
    → too_long p a.host ≡ false
    → reply_size (framed p code a ++ rest) ≡ some (length (framed p code a))
unfolding reply_size
reply_size-framed p code a rest inet fits = elim (host_view p a.host) [
  | is_v4 raw e c ↦
      rw c (ground (arith, inet.length-pton4 _ raw e, length-append raw (port_bytes a.port)))
  | is_v6 raw e c ↦
      rw c (ground (arith, inet.length-pton6 _ raw e, length-append raw (port_bytes a.port)))
  | is_name n4 n6 c ↦ rw c (
      ground (
        arith,
        length-append a.host (port_bytes a.port),
        ltb→le 255 (length a.host) (rw c at fits),
      ))
]

known_atyp-classify : (p : Platform) (host : Text) → known_atyp (classify_host p host).0 ≡ true
known_atyp-classify p host = elim (host_view p host) [
  | is_v4 raw e c ↦ rw c
  | is_v6 raw e c ↦ rw c
  | is_name n4 n6 c ↦ rw c
]

-- The complete session, with `rest` behind the reply.
abbrev pub completed : Session → Reply → Bytes → Session
completed s r rest = record s { buf = rest; state = done; answer = some r }

reply_arrived_lem :
    (p : Platform) (s : Session) (b rest : Bytes) (c : ℕ) (t : Text) (n : ℕ)
    → s.buf ≡ b ++ rest
    → Binding.parse_reply p b ≡ ok (some (c, t, n))
    → reply_arrived p s (length b)
      ≡ returns
          (some (record { rep = c; host = t; port = n }))
          (completed s (record { rep = c; host = t; port = n }) rest)
unfolding reply_arrived
reply_arrived_lem p s b rest c t n e parsed = ground (arith, take_all b rest, drop_all b rest)

sized_turn :
    (p : Platform) (s : Session) (n : ℕ)
    → known_atyp (get_or s.buf 3 0) ≡ true
    → reply_size s.buf ≡ some n
    → n ≤ length s.buf
    → reply_turn p s ≡ reply_arrived p s n
unfolding reply_turn
sized_turn p s n k e l = ground arith

-- A reply that `reply` wrote, with `rest` behind it, is read whole and nothing else is.
pub reply_turn_lem :
    (p : Platform) (s : Session) (c n : ℕ) (host : Text) (b rest : Bytes)
    → IsInet p
    → p.is_utf8 host ≡ true
    → Binding.reply p (pos c) host (pos n) ≡ ok b
    → s.buf ≡ b ++ rest
    → (t : Text) × (canonical p host ≡ some t)
      × (reply_turn p s
          ≡ returns
              (some (record { rep = c; host = t; port = n }))
              (completed s (record { rep = c; host = t; port = n }) rest))
reply_turn_lem p s c n host b rest inet u h e =
    let (hc, hn, fits, bytes) = reply_bytes p c n host h in
    let (t, can, parsed) = parse_reply-reply p c n host b [] inet u h in
    let whole : Binding.parse_reply p b ≡ ok (some (c, t, n)) = rw append-nil at parsed in
    let sized : reply_size s.buf ≡ some (length b) =
      ap reply_size e
      ∙ ap (λ xs. reply_size (xs ++ rest)) bytes
      ∙ reply_size-framed p c (record { host = host; port = n }) rest inet fits
      ∙ ap (λ xs. some (length xs)) (sym bytes) in
    let long : length b ≤ length s.buf = rw (e, length-append) (omega arith) in
    let known : known_atyp (get_or s.buf 3 0) ≡ true = rw (e, bytes) (known_atyp-classify p host) in
    (
      t,
      can,
      sized_turn p s (length b) known sized long ∙ reply_arrived_lem p s b rest c t n e whole,
    )

-- The server's answers to an optimistic client without credentials and with.
abbrev pub answers : Option (Text × Text) → Bytes → Bytes
answers none r = 0x05 ∷ no_auth ∷ r
answers (some c) r = 0x05 ∷ userpass ∷ 0x01 ∷ 0x00 ∷ r

method_turn_lem :
    (s : Session) (xs : Bytes)
    → s.buf ≡ 0x05 ∷ offered s ∷ xs
    → method_turn s ≡ again (record s { buf = xs; state = if has_auth s then auth else reply })
unfolding method_turn Messages.parse_method_selection
method_turn_lem s xs e = ground arith

auth_turn_lem :
    (s : Session) (xs : Bytes)
    → s.buf ≡ 0x01 ∷ 0x00 ∷ xs
    → auth_turn s ≡ again (record s { buf = xs; state = reply })
unfolding auth_turn Messages.parse_auth_reply
auth_turn_lem s xs e = ground arith

-- `feed` on the whole answer of a server: the loop reaches the reply.
feed-answers :
    (p : Platform) (c : Option (Text × Text)) (xs : Bytes) {r : Option Reply} {s : Session}
    → reply_turn p (record (fresh c) { buf = xs; state = reply }) ≡ returns r s
    → feed p (fresh c) (answers c xs) ≡ (returned r, s)
unfolding feed loop turn
feed-answers p none xs e =
    ground (arith, method_turn_lem (record (fresh none) { buf = answers none xs }) xs refl)
feed-answers p (some uw) xs e = ground (
  arith,
  method_turn_lem (record (fresh (some uw)) { buf = answers (some uw) xs }) (0x01 ∷ 0x00 ∷ xs) refl,
  auth_turn_lem (record (fresh (some uw)) { buf = 0x01 ∷ 0x00 ∷ xs; state = auth }) xs refl,
)

-- A fresh session that is fed the answers of a server, the last of them a reply that `reply` wrote,
-- returns this reply, with the canonical text of its host; the bytes behind it are the leftover.
-- The host text is UTF-8, and the conversions of addresses keep their laws.
pub feed-reply :
    (p : Platform) (creds : Option (Text × Text)) (c n : ℕ) (host : Text) (b rest : Bytes)
    → IsInet p
    → p.is_utf8 host ≡ true
    → Binding.reply p (pos c) host (pos n) ≡ ok b
    → (t : Text) × (s : Session) × (canonical p host ≡ some t)
      × (feed p (fresh creds) (answers creds (b ++ rest))
          ≡ (returned (some (record { rep = c; host = t; port = n })), s))
      × (leftover s ≡ rest)
unfolding leftover
feed-reply p creds c n host b rest inet u h =
    let s : Session = record (fresh creds) { buf = b ++ rest; state = reply } in
    let (t, can, e) = reply_turn_lem p s c n host b rest inet u h refl in
    (
      t,
      completed s (record { rep = c; host = t; port = n }) rest,
      can,
      feed-answers p creds (b ++ rest) e,
      refl,
    )
