-- ===== src/Server/Machine.antt =====
-- `next_event` and `_step` of `ServerSession` in src/optisocks5/server/session.py, a function for
-- each state. Each returns an event, or raises, beside the session that is left.
pub mod Parsing
pub mod Segments
pub mod Moves
pub mod Bounds
pub mod Weight
pub mod Serving
pub mod Early
pub mod Barred
pub mod Targets
pub mod Cuts
use optisocks.Prelude.{
  ℕ, suc, ◌+◌, ℤ, pos, Bool, true, false, not, ◌||◌, Option, none, some, List, [], ◌∷◌, ◌++◌, Bytes,
  Text, Result, ok, err, runtime_error, ◌==◌, ltb, leb, if◌then◌else◌, length, take, drop, get_or,
}
use optisocks.Codec.Platform.{Platform}
use optisocks.Codec.Messages.{parse_greeting}
use optisocks.Codec.Binding
use optisocks.Core.Types
use optisocks.Core.Types.{
  value, succeeded, general_failure, cmd_not_supported, atyp_not_supported, no_auth, userpass,
  no_acceptable,
}
use optisocks.Server.Events.{
  Event, send, need_data, authorize, connect, close, bad_version, greeting_too_large,
  no_acceptable_method, auth_too_large, auth_refused, unsupported_atyp, request_too_large,
  malformed_request, unsupported_command, request_rejected, upstream_failed, relay_finished,
  closed_already,
}
use optisocks.Server.State.{
  ServerSession, Phase, greeting, auth, auth_wait, request, connect_wait, relay, closed, Endpoint,
}

-- `_request_len`
unfoldable pub request_len : Bytes → Option ℕ
request_len (v ∷ cmd ∷ rsv ∷ atyp ∷ d) =
    if atyp == 0x01
    then some (4 + 4 + 2)
    else if atyp == 0x04
    then some (4 + 16 + 2)
    else if atyp == 0x03
    then elim d [ [] ↦ none | len ∷ rest ↦ some (4 + 1 + len + 2) ]
    else none
request_len _ = none

-- "0.0.0.0"
abbrev pub any_host : Text
any_host = b'0' ∷ b'.' ∷ b'0' ∷ b'.' ∷ b'0' ∷ b'.' ∷ b'0' ∷ []

-- `self._buf and self._buf[0] != 0x05`
abbrev pub wrong_version : Bytes → Bool
wrong_version [] = false
wrong_version (v ∷ d) = not (v == 0x05)

abbrev pub mem : ℕ → Bytes → Bool
mem a [] = false
mem a (x ∷ xs) = (x == a) || mem a xs

abbrev pub or_else : Option Endpoint → Endpoint → Endpoint
or_else none d = d
or_else (some e) d = e

-- 3 + ulen + plen, with plen at the position 2 + ulen
abbrev pub userpass_size : Bytes → ℕ
userpass_size buf = 3 + get_or buf 1 0 + get_or buf (suc (suc (get_or buf 1 0))) 0

abbrev pub Yield : Type 0 → Type 0 → Type 0
Yield Ctx Pipe = Result Event × ServerSession Ctx Pipe

module _ {Ctx Pipe : Type 0} where
  -- `_emit`: the events go to the end of the queue, and its first is returned.
  unfoldable pub emit : ServerSession Ctx Pipe → Event → List Event → Yield Ctx Pipe
  emit s e es = elim s.out [
    | [] ↦ (ok e, record s { out = es })
    | x ∷ q ↦ (ok x, record s { out = q ++ e ∷ es })
  ]

  -- `return self._emit(Send(m), ...)`, where building `m` may raise.
  unfoldable pub emit_send : ServerSession Ctx Pipe → Result Bytes → List Event → Yield Ctx Pipe
  unfolding emit
  emit_send s (ok b) es = emit s (send b) es
  emit_send s (err e) es = (err e, s)

  abbrev pub shut : ServerSession Ctx Pipe → ServerSession Ctx Pipe
  shut s = record s { state = closed }

  unfoldable pub choose_method : ServerSession Ctx Pipe → Bytes → Yield Ctx Pipe
  choose_method s methods =
      if not s.require_auth
      then emit_send (record s { state = request }) (Binding.method_selection (pos no_auth)) []
      else if mem userpass methods
      then emit_send (record s { state = auth }) (Binding.method_selection (pos userpass)) []
      else emit_send (shut s) (Binding.method_selection (pos no_acceptable))
          (close no_acceptable_method ∷ [])

  unfoldable pub greeting_step : ServerSession Ctx Pipe → Yield Ctx Pipe
  greeting_step s =
      if wrong_version s.buf
      then emit (shut s) (close bad_version) []
      else elim (parse_greeting s.buf) [
        | none ↦
            if ltb (2 + 255) (length s.buf)
            then emit (shut s) (close greeting_too_large) []
            else (ok need_data, s)
        | some methods ↦
            choose_method (record s { buf = drop (2 + get_or s.buf 1 0) s.buf }) methods
      ]

  unfoldable pub auth_step : Platform → ServerSession Ctx Pipe → Yield Ctx Pipe
  auth_step p s = elim (Binding.parse_userpass p s.buf) [
    | err e ↦ (err e, s)
    | ok none ↦
        if ltb (3 + 255 + 255) (length s.buf)
        then emit (shut s) (close auth_too_large) []
        else (ok need_data, s)
    | ok (some (user, password)) ↦ (
      ok (authorize (some user) (some password)),
      record s { buf = drop (userpass_size s.buf) s.buf; rejected = false; state = auth_wait },
    )
  ]

  unfoldable pub auth_wait_step : ServerSession Ctx Pipe → Yield Ctx Pipe
  auth_wait_step s =
      if s.rejected
      then emit_send (shut s) (Binding.auth_reply (pos 1)) (close auth_refused ∷ [])
      else emit_send (record s { state = request }) (Binding.auth_reply (pos 0)) []

  -- `self._state = "closed"`, an error reply and a `Close`.
  abbrev pub refuse : Platform → ServerSession Ctx Pipe → ℤ → Event → Yield Ctx Pipe
  refuse p s rep e = emit_send (shut s) (Binding.reply p rep any_host (pos 0)) (e ∷ [])

  unfoldable pub open_request : ServerSession Ctx Pipe → ℕ → Text → ℕ → Yield Ctx Pipe
  open_request s cmd host port = (
    ok (connect cmd host port),
    record s {
      target = some (host, pos port);
      rejected = false;
      connected_bnd = none;
      failed = false;
      state = connect_wait;
    },
  )

  -- What follows a parse of the request; `rest` is the buffer behind it.
  unfoldable pub on_parsed :
      Platform → ServerSession Ctx Pipe → Bytes → Result (Option (ℕ × Text × ℕ)) → Yield Ctx Pipe
  on_parsed p s rest (err e) = (err e, s)
  on_parsed p s rest (ok none) = refuse p s (pos (value general_failure)) (close malformed_request)
  on_parsed p s rest (ok (some (cmd, host, port))) =
      let s' = record s { buf = rest; cmd = cmd } in
      if not (cmd == Types.connect)
      then refuse p s' (pos (value cmd_not_supported)) (close unsupported_command)
      else open_request s' cmd host port

  -- The request has arrived whole: `n` bytes at the front.
  unfoldable pub request_arrived : Platform → ServerSession Ctx Pipe → ℕ → Yield Ctx Pipe
  unfolding on_parsed
  request_arrived p s n = on_parsed p s (drop n s.buf) (Binding.parse_request p (take n s.buf))

  unfoldable pub request_step : Platform → ServerSession Ctx Pipe → Yield Ctx Pipe
  request_step p s = elim (request_len s.buf) [
    | none ↦
        if leb 5 (length s.buf)
        then refuse p s (pos (value atyp_not_supported)) (close unsupported_atyp)
        else (ok need_data, s)
    | some n ↦
        if ltb (length s.buf) n
        then if ltb (4 + 1 + 255 + 2) (length s.buf)
          then emit (shut s) (close request_too_large) []
          else (ok need_data, s)
        else request_arrived p s n
  ]

  abbrev pub start_relay : Platform → ServerSession Ctx Pipe → Endpoint → Yield Ctx Pipe
  start_relay p s (host, port) =
      let (th, tp) = or_else s.target (host, port) in
      emit_send (record s { state = relay }) (Binding.reply p (pos (value succeeded)) host port)
        (Event.relay th tp ∷ [])

  -- `if self._connected_bnd is not None`, and the RuntimeError behind it.
  abbrev pub with_bound : Platform → ServerSession Ctx Pipe → Option Endpoint → Yield Ctx Pipe
  with_bound p s none = (err runtime_error, s)
  with_bound p s (some bnd) = start_relay p s bnd

  unfoldable pub connect_wait_step : Platform → ServerSession Ctx Pipe → Yield Ctx Pipe
  connect_wait_step p s =
      if s.raw
      then (let (th, tp) = or_else s.target (any_host, pos 0) in
          (ok (Event.relay th tp), record s { state = relay }))
      else if s.rejected
      then refuse p s s.rep (close request_rejected)
      else if s.failed
      then refuse p s s.rep (close upstream_failed)
      else with_bound p s s.connected_bnd

  abbrev pub step_at : Platform → Phase → ServerSession Ctx Pipe → Yield Ctx Pipe
  step_at p greeting s = greeting_step s
  step_at p auth s = auth_step p s
  step_at p auth_wait s = auth_wait_step s
  step_at p request s = request_step p s
  step_at p connect_wait s = connect_wait_step p s
  step_at p relay s = (ok (close relay_finished), shut s)
  step_at p closed s = (ok (close closed_already), s)

  -- `_step`
  unfoldable pub step : Platform → ServerSession Ctx Pipe → Yield Ctx Pipe
  step p s = step_at p s.state s

  -- `next_event`: what is queued comes first.
  unfoldable pub next_event : Platform → ServerSession Ctx Pipe → Yield Ctx Pipe
  next_event p s = elim s.out [ e ∷ q ↦ (ok e, record s { out = q }) | [] ↦ step p s ]
