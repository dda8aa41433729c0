-- ===== src/Client/Staged/Exchanged.antt =====
-- The staged clients (`Client` of src/optisocks5/sync/client.py, `AsyncClient` of aio/client.py) with a
-- proxy that accepts them.
use optisocks.Prelude.{
  ℕ, ◌+◌, ◌%◌, ◌≡◌, ◌≤◌, refl, ap, ℤ, pos, false, true, Option, none, some, List, [], ◌∷◌, ◌++◌,
  Bytes, Text, ok, arith, length, length-append, append-nil, ltb→le,
}
use optisocks.Codec.Platform.{Platform, IsInet}
use optisocks.Codec.Address.{classify_host, domain, length_prefix}
use optisocks.Codec.Address.RoundTrip.{
  port_bytes, too_long, canonical, host_view, is_v4, is_v6, is_name,
}
use optisocks.Codec.Messages
use optisocks.Codec.Messages.{parse_method_selection, parse_auth_reply}
use optisocks.Codec.Binding
use optisocks.Codec.Binding.RoundTrip.{reply_bytes, parse_reply-reply}
use optisocks.Core.Types.{Reply, no_auth, userpass}
use optisocks.Client.Transport.{M, ◌>>=◌, ◌>>◌, lift, sendall, recv_exact}
use optisocks.Client.Transport.Exchange.{
  Exchange, bind-Exchange, pure-Exchange, lift-Exchange, last-Exchange, sendall-Exchange,
  recv_exact-Exchange,
}
use optisocks.Client.Staged.{
  recv_body, recv_reply, reply_of, authenticate, follow, offered, negotiate,
}

-- The bytes of an address behind ATYP.
abbrev tail_of : ℕ × Bytes → ℕ → Bytes
tail_of (atyp, raw) port = length_prefix atyp raw ++ (raw ++ port_bytes port)

recv_name-Exchange :
    (host : Text) (port : ℕ)
    → length host ≤ 255
    → Exchange
        (recv_body domain)
        (length host % 256 ∷ (host ++ port_bytes port))
        (length host % 256 ∷ (host ++ port_bytes port))
        []
unfolding recv_body
recv_name-Exchange host port h =
    bind-Exchange (recv_exact 1) _ (recv_exact-Exchange 1 (length host % 256 ∷ []) refl) (
      last-Exchange (recv_exact (length host % 256 + 2)) (λ rest. ok (length host % 256 ∷ rest))
        (recv_exact-Exchange (length host % 256 + 2) (host ++ port_bytes port)
          (omega (arith, h, length-append host (port_bytes port))))
        refl)

recv_body-Exchange :
    (p : Platform) (host : Text) (port : ℕ)
    → IsInet p
    → too_long p host ≡ false
    → Exchange
        (recv_body (classify_host p host).0)
        (tail_of (classify_host p host) port)
        (tail_of (classify_host p host) port)
        []
unfolding recv_body
recv_body-Exchange p host port inet fits = elim (host_view p host) [
  | is_v4 raw e c ↦ rw c (
      recv_exact-Exchange 6 (raw ++ port_bytes port)
        (omega (arith, length-append raw (port_bytes port), inet.length-pton4 _ raw e)))
  | is_v6 raw e c ↦ rw c (
      recv_exact-Exchange 18 (raw ++ port_bytes port)
        (omega (arith, length-append raw (port_bytes port), inet.length-pton6 _ raw e)))
  | is_name n4 n6 c ↦
      let size : length host ≤ 255 = ltb→le 255 (length host) (rw c at fits) in
      rw c (recv_name-Exchange host port size)
]

recv_reply-Exchange :
    (p : Platform) (c n : ℕ) (host : Text) (b : Bytes)
    → IsInet p
    → p.is_utf8 host ≡ true
    → Binding.reply p (pos c) host (pos n) ≡ ok b
    → (t : Text) × (canonical p host ≡ some t)
      × Exchange (recv_reply p) b (record { rep = c; host = t; port = n }) []
unfolding recv_reply
recv_reply-Exchange p c n host b inet u h =
    let (hc, hn, fits, bytes) = reply_bytes p c n host h in
    let (t, can, parsed) = parse_reply-reply p c n host b [] inet u h in
    let whole : Binding.parse_reply p b ≡ ok (some (c, t, n)) = rw append-nil at parsed in
    let (atyp, raw) = classify_host p host in
    (
      t,
      can,
      rw bytes (
          bind-Exchange (recv_exact 4) _ (recv_exact-Exchange 4 (0x05 ∷ c ∷ 0x00 ∷ atyp ∷ []) refl)
            (last-Exchange (recv_body atyp)
              (λ body. reply_of (Binding.parse_reply p ((0x05 ∷ c ∷ 0x00 ∷ atyp ∷ []) ++ body)))
              (recv_body-Exchange p host n inet fits) (ap reply_of (rw bytes at whole)))),
    )

authenticate-Exchange :
    (user password : Text) (c : Bytes)
    → Binding.userpass_auth user password ≡ ok c
    → Exchange (authenticate (some (user, password))) (0x01 ∷ 0x00 ∷ []) tt (c ∷ [])
unfolding authenticate parse_auth_reply
authenticate-Exchange user password c h =
    bind-Exchange (lift (Binding.userpass_auth user password)) _ (lift-Exchange _ h) (
      bind-Exchange (sendall c) _ (sendall-Exchange c) (
        bind-Exchange (recv_exact 2) _ (recv_exact-Exchange 2 (0x01 ∷ 0x00 ∷ []) refl)
          (pure-Exchange tt)))

module _ (p : Platform) (creds : Option (Text × Text)) (host : Text) (port cmd : ℤ) where
  -- The negotiation from the request on, from the proxy's choice on, and behind the greeting.
  abbrev ask : M Reply
  ask = do req ← lift (Binding.request p cmd host port); sendall req; recv_reply p

  abbrev choose : Bytes → M Reply
  choose selection = follow creds (parse_method_selection selection) >> ask

  abbrev greet : Bytes → M Reply
  greet greeting = sendall greeting >> (recv_exact 2 >>= choose)

  ask-Exchange :
      (bhost : Text) (q r : Bytes) (c n : ℕ)
      → IsInet p
      → p.is_utf8 bhost ≡ true
      → Binding.request p cmd host port ≡ ok q
      → Binding.reply p (pos c) bhost (pos n) ≡ ok r
      → (t : Text) × (canonical p bhost ≡ some t)
        × Exchange ask r (record { rep = c; host = t; port = n }) (q ∷ [])
  ask-Exchange bhost q r c n inet u made h =
      let (t, can, read) = recv_reply-Exchange p c n bhost r inet u h in
      (
        t,
        can,
        bind-Exchange (lift (Binding.request p cmd host port)) (λ req. sendall req >> recv_reply p)
            (lift-Exchange _ made)
            (bind-Exchange (sendall q) (λ _. recv_reply p) (sendall-Exchange q) read),
      )

  -- The negotiation with a proxy that chooses the method `m` and then answers as `follow` wants it.
  negotiate-Exchange :
      (m : ℕ) (greeting accepting : Bytes) (out : List Bytes) (bhost : Text) (q r : Bytes) (c n : ℕ)
      → IsInet p
      → p.is_utf8 bhost ≡ true
      → Binding.client_greeting (offered creds) ≡ ok greeting
      → Exchange (follow creds (some m)) accepting tt out
      → Binding.request p cmd host port ≡ ok q
      → Binding.reply p (pos c) bhost (pos n) ≡ ok r
      → (t : Text) × (canonical p bhost ≡ some t)
        × Exchange
            (negotiate p creds host port cmd)
            (0x05 ∷ m ∷ (accepting ++ r))
            (record { rep = c; host = t; port = n })
            ((((q ∷ out) ++ []) ++ greeting ∷ []) ++ [])
  unfolding negotiate parse_method_selection
  negotiate-Exchange m greeting accepting out bhost q r c n inet u g f made h =
      let (t, can, asked) = ask-Exchange bhost q r c n inet u made h in
      (
        t,
        can,
        bind-Exchange (lift (Binding.client_greeting (offered creds))) greet (lift-Exchange _ g) (
            bind-Exchange (sendall greeting) (λ _. recv_exact 2 >>= choose)
              (sendall-Exchange greeting)
              (bind-Exchange (recv_exact 2) choose (recv_exact-Exchange 2 (0x05 ∷ m ∷ []) refl)
                (bind-Exchange (follow creds (some m)) (λ _. ask) f asked))),
      )

module _ (p : Platform) (host bhost : Text) (port cmd : ℤ) (q r : Bytes) (c n : ℕ) (inet : IsInet p)
    (u : p.is_utf8 bhost ≡ true) (made : Binding.request p cmd host port ≡ ok q)
    (h : Binding.reply p (pos c) bhost (pos n) ≡ ok r) where
  pub negotiate-Exchange-none :
      (t : Text) × (canonical p bhost ≡ some t)
      × Exchange
          (negotiate p none host port cmd)
          (0x05 ∷ no_auth ∷ r)
          (record { rep = c; host = t; port = n })
          (q ∷ (0x05 ∷ 1 ∷ no_auth ∷ []) ∷ [])
  unfolding Binding.client_greeting Messages.client_greeting
  negotiate-Exchange-none =
      negotiate-Exchange p none host port cmd no_auth (0x05 ∷ 1 ∷ no_auth ∷ []) [] [] bhost q r c n
        inet u refl (pure-Exchange tt) made h

  pub negotiate-Exchange-some :
      (user password : Text) (creds : Bytes)
      → Binding.userpass_auth user password ≡ ok creds
      → (t : Text) × (canonical p bhost ≡ some t)
        × Exchange
            (negotiate p (some (user, password)) host port cmd)
            (0x05 ∷ userpass ∷ 0x01 ∷ 0x00 ∷ r)
            (record { rep = c; host = t; port = n })
            (q ∷ creds ∷ (0x05 ∷ 2 ∷ userpass ∷ no_auth ∷ []) ∷ [])
  unfolding Binding.client_greeting Messages.client_greeting
  negotiate-Exchange-some user password creds ready =
      negotiate-Exchange p (some (user, password)) host port cmd userpass
        (0x05 ∷ 2 ∷ userpass ∷ no_auth ∷ []) (0x01 ∷ 0x00 ∷ []) (creds ∷ []) bhost q r c n inet u
        refl (authenticate-Exchange user password creds ready) made h
