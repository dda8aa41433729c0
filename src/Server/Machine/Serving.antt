-- ===== src/Server/Machine/Serving.antt =====
-- `_step` of src/optisocks5/server/session.py on well-formed messages, with anything behind them.
use optisocks.Prelude.{
  ℕ, pos, ◌≤◌, ◌≡◌, refl, sym, ap, ◌∙◌, true, false, none, some, [], ◌∷◌, ◌++◌, Bytes, Text, ok,
  arith, length, drop, take, get_or, length-append, take_all, drop_all, append-nil, append_assoc,
}
use optisocks.Codec.Platform.{Platform, IsInet}
use optisocks.Codec.Address.{Address}
use optisocks.Codec.Address.RoundTrip.{too_long, canonical}
use optisocks.Codec.Messages
use optisocks.Codec.Messages.{parse_greeting, ver, auth_ver}
use optisocks.Codec.Messages.RoundTrip.{framed}
use optisocks.Codec.Binding
use optisocks.Codec.Binding.RoundTrip.{request_bytes, parse_request-request}
use optisocks.Codec.Binding.RoundTripOther.{userpass_auth_bytes, parse_userpass-userpass_auth}
use optisocks.Core.Types
use optisocks.Core.Types.{value, no_auth, userpass}
use optisocks.Core.Session.{reply_size}
use optisocks.Core.Session.Handshake.{reply_size-framed}
use optisocks.Server.Events.{send, authorize, connect}
use optisocks.Server.State.{ServerSession, auth, auth_wait, request, connect_wait}
use optisocks.Server.Machine.{
  emit_send, choose_method, greeting_step, auth_step, on_parsed, open_request, request_arrived,
  request_step, request_len, userpass_size,
}

-- The client and the server read sizes off the front of their buffers alike.
pub reply_size-request_len : (xs : Bytes) → reply_size xs ≡ request_len xs
unfolding reply_size request_len
reply_size-request_len [] = refl
reply_size-request_len (a ∷ []) = refl
reply_size-request_len (a ∷ b ∷ []) = refl
reply_size-request_len (a ∷ b ∷ c ∷ []) = refl
reply_size-request_len (a ∷ b ∷ c ∷ d ∷ xs) = refl

request_len-framed :
    (p : Platform) (code : ℕ) (a : Address) (rest : Bytes)
    → IsInet p
    → too_long p a.host ≡ false
    → request_len (framed p code a ++ rest) ≡ some (length (framed p code a))
request_len-framed p code a rest inet fits =
    sym (reply_size-request_len (framed p code a ++ rest))
    ∙ reply_size-framed p code a rest inet fits

get_or_at : (xs : Bytes) (x : ℕ) (ys : Bytes) → get_or (xs ++ x ∷ ys) (length xs) 0 ≡ x
get_or_at [] x ys = refl
get_or_at (a ∷ xs) x ys = get_or_at xs x ys

userpass_size_lem :
    (user pass : Text) (rest : Bytes)
    → userpass_size ((auth_ver ∷ length user ∷ (user ++ length pass ∷ pass)) ++ rest)
      ≡ length (auth_ver ∷ length user ∷ (user ++ length pass ∷ pass))
userpass_size_lem user pass rest = omega (
  arith,
  ap (λ xs. get_or xs (length user) 0) (append_assoc user (length pass ∷ pass) rest),
  get_or_at user (length pass) (pass ++ rest),
  length-append user (length pass ∷ pass),
)

module _ {Ctx Pipe : Type 0} where
  -- The session after a request for `host` and `port`, with `rest` behind it.
  abbrev pub requested : ServerSession Ctx Pipe → Bytes → ℕ → Text → ℕ → ServerSession Ctx Pipe
  requested s rest cmd host port = record s {
    buf = rest;
    cmd = cmd;
    target = some (host, pos port);
    rejected = false;
    connected_bnd = none;
    failed = false;
    state = connect_wait;
  }

  request_arrived_lem :
      (p : Platform) (s : ServerSession Ctx Pipe) (b rest : Bytes) (t : Text) (n : ℕ)
      → s.buf ≡ b ++ rest
      → Binding.parse_request p b ≡ ok (some (Types.connect, t, n))
      → request_arrived p s (length b)
        ≡ (ok (connect Types.connect t n), requested s rest Types.connect t n)
  unfolding request_arrived on_parsed open_request
  request_arrived_lem p s b rest t n e parsed =
      ap (λ xs. on_parsed p s (drop (length b) xs) (Binding.parse_request p (take (length b) xs))) e
      ∙ ap (λ xs. on_parsed p s xs (Binding.parse_request p (take (length b) (b ++ rest))))
          (drop_all b rest)
      ∙ ap (λ xs. on_parsed p s rest (Binding.parse_request p xs)) (take_all b rest)
      ∙ ap (on_parsed p s rest) parsed

  sized_step :
      (p : Platform) (s : ServerSession Ctx Pipe) (n : ℕ)
      → request_len s.buf ≡ some n
      → n ≤ length s.buf
      → request_step p s ≡ request_arrived p s n
  unfolding request_step
  sized_step p s n e l = ground arith

  -- A CONNECT request that `request` wrote, with `rest` behind it, is read whole and nothing else is.
  pub request_step_lem :
      (p : Platform) (s : ServerSession Ctx Pipe) (host : Text) (n : ℕ) (b rest : Bytes)
      → IsInet p
      → p.is_utf8 host ≡ true
      → Binding.request p (pos Types.connect) host (pos n) ≡ ok b
      → s.buf ≡ b ++ rest
      → (t : Text) × (canonical p host ≡ some t)
        × (request_step p s ≡ (ok (connect Types.connect t n), requested s rest Types.connect t n))
  request_step_lem p s host n b rest inet u h e =
      let (hc, hn, fits, bytes) = request_bytes p Types.connect n host h in
      let (t, c, parsed) = parse_request-request p Types.connect n host b [] inet u h in
      let whole : Binding.parse_request p b ≡ ok (some (Types.connect, t, n)) =
        rw append-nil at parsed in
      let sized : request_len s.buf ≡ some (length b) =
        ap request_len e
        ∙ ap (λ xs. request_len (xs ++ rest)) bytes
        ∙ request_len-framed p Types.connect (record { host = host; port = n }) rest inet fits
        ∙ ap (λ xs. some (length xs)) (sym bytes) in
      let long : length b ≤ length s.buf = rw (e, length-append) (omega arith) in
      (t, c, sized_step p s (length b) sized long ∙ request_arrived_lem p s b rest t n e whole)

  -- The greeting of an optimistic client, by a server that wants no authorization.
  pub greeting_step_open :
      (s : ServerSession Ctx Pipe) (rest : Bytes)
      → s.out ≡ []
      → s.require_auth ≡ false
      → s.buf ≡ ver ∷ 1 ∷ no_auth ∷ rest
      → greeting_step s
        ≡ (ok (send (ver ∷ no_auth ∷ [])), record s { buf = rest; state = request; out = [] })
  unfolding greeting_step choose_method emit_send parse_greeting Binding.method_selection
      Messages.method_selection
  greeting_step_open s rest h r e = ground arith

  -- The greeting of an optimistic client with credentials, by a server that wants them.
  pub greeting_step_auth :
      (s : ServerSession Ctx Pipe) (rest : Bytes)
      → s.out ≡ []
      → s.require_auth ≡ true
      → s.buf ≡ ver ∷ 1 ∷ userpass ∷ rest
      → greeting_step s
        ≡ (ok (send (ver ∷ userpass ∷ [])), record s { buf = rest; state = auth; out = [] })
  unfolding greeting_step choose_method emit_send parse_greeting Binding.method_selection
      Messages.method_selection
  greeting_step_auth s rest h r e = ground arith

  -- The greeting of a staged client with credentials, by a server that wants them.
  pub greeting_step_both :
      (s : ServerSession Ctx Pipe) (rest : Bytes)
      → s.out ≡ []
      → s.require_auth ≡ true
      → s.buf ≡ ver ∷ 2 ∷ userpass ∷ no_auth ∷ rest
      → greeting_step s
        ≡ (ok (send (ver ∷ userpass ∷ [])), record s { buf = rest; state = auth; out = [] })
  unfolding greeting_step choose_method emit_send parse_greeting Binding.method_selection
      Messages.method_selection
  greeting_step_both s rest h r e = ground arith

  -- The session after credentials, with `rest` behind them.
  abbrev pub questioned : ServerSession Ctx Pipe → Bytes → ServerSession Ctx Pipe
  questioned s rest = record s { buf = rest; rejected = false; state = auth_wait }

  auth_parsed :
      (p : Platform) (s : ServerSession Ctx Pipe) (user pass : Text) (b rest : Bytes)
      → s.buf ≡ b ++ rest
      → userpass_size (b ++ rest) ≡ length b
      → Binding.parse_userpass p (b ++ rest) ≡ ok (some (user, pass))
      → auth_step p s ≡ (ok (authorize (some user) (some pass)), questioned s rest)
  unfolding auth_step
  auth_parsed p s user pass b rest e size parsed = ground (arith, drop_all b rest)

  -- Credentials that `userpass_auth` wrote, with `rest` behind them, are read whole and nothing else.
  pub auth_step_lem :
      (p : Platform) (s : ServerSession Ctx Pipe) (user pass : Text) (b rest : Bytes)
      → p.is_utf8 user ≡ true
      → p.is_utf8 pass ≡ true
      → Binding.userpass_auth user pass ≡ ok b
      → s.buf ≡ b ++ rest
      → auth_step p s ≡ (ok (authorize (some user) (some pass)), questioned s rest)
  auth_step_lem p s user pass b rest hu hp h e =
      let bytes = (userpass_auth_bytes user pass h).2 in
      let size : userpass_size (b ++ rest) ≡ length b =
        rw bytes (userpass_size_lem user pass rest) in
      auth_parsed p s user pass b rest e size
        (parse_userpass-userpass_auth p user pass b rest hu hp h)
