-- ===== src/Server/Machine/Bounds.antt =====
-- How much src/optisocks5/server/session.py buffers before it decides, and which of its size checks
-- can fire.
use optisocks.Prelude.{
  ℕ, ℤ, pos, ◌+◌, ◌≤◌, ◌≡◌, refl, ◌⊎◌, inl, inr, Bool, true, false, Option, none, some, List, [],
  ◌∷◌, Bytes, Text, IsByte, Result, ok, err, arith, length, drop, take, get_or, All, Bool-cases,
  Option-cases, ◌==◌,
}
use optisocks.Codec.Platform.{Platform}
use optisocks.Codec.Messages.{parse_greeting}
use optisocks.Codec.Binding
use optisocks.Core.Types
use optisocks.Core.Types.{value, no_auth, userpass, no_acceptable, atyp_not_supported}
use optisocks.Server.Events.{
  Event, send, need_data, close, bad_version, greeting_too_large, no_acceptable_method,
  auth_too_large, request_too_large, unsupported_atyp, auth_refused, request_rejected,
  upstream_failed,
}
use optisocks.Server.State.{
  ServerSession, Phase, Endpoint, greeting, auth, auth_wait, request, connect_wait, relay, closed,
}
use optisocks.Server.Machine.{
  emit, emit_send, choose_method, greeting_step, auth_step, auth_wait_step, on_parsed,
  wrong_version, shut, any_host, request_len, open_request, request_arrived, request_step,
  connect_wait_step, refuse, with_bound, step_at, step,
}
use optisocks.Server.Machine.Parsing.{parse_greeting_short, request_len-le}

-- A decision: an exception, or an event that does not ask for data and does not complain of size in
-- the greeting or in the request.
abbrev pub decided : Result Event → Bool
decided (err e) = true
decided (ok need_data) = false
decided (ok (close greeting_too_large)) = false
decided (ok (close request_too_large)) = false
decided (ok e) = true

-- The most bytes that each state holds while it asks for more.
abbrev pub room : Phase → ℕ
room greeting = 256
room auth = 513
room request = 261
room _ = 0

abbrev pub reads : Phase → Bool
reads greeting = true
reads auth = true
reads request = true
reads _ = false

module _ {Ctx Pipe : Type 0} where
  emit-decided :
      (s : ServerSession Ctx Pipe) (e : Event) (es : List Event)
      → s.out ≡ []
      → decided (emit s e es).0 ≡ decided (ok e)
  unfolding emit
  emit-decided s e es h = ground arith

  emit_send-decided :
      (s : ServerSession Ctx Pipe) (r : Result Bytes) (es : List Event)
      → s.out ≡ []
      → decided (emit_send s r es).0 ≡ true
  unfolding emit_send
  emit_send-decided s (ok m) es h = emit-decided s (send m) es h
  emit_send-decided s (err e) es h = refl

  refuse-decided :
      (p : Platform) (s : ServerSession Ctx Pipe) (rep : ℤ) (e : Event)
      → s.out ≡ []
      → decided (refuse p s rep e).0 ≡ true
  refuse-decided p s rep e h =
      emit_send-decided (shut s) (Binding.reply p rep any_host (pos 0)) (e ∷ []) h

  choose_method-decided :
      (s : ServerSession Ctx Pipe) (ms : Bytes) → s.out ≡ [] → decided (choose_method s ms).0 ≡ true
  unfolding choose_method
  choose_method-decided s ms h = ground (
    arith,
    emit_send-decided (record s { state = request }) (Binding.method_selection (pos no_auth)) [],
    emit_send-decided (record s { state = auth }) (Binding.method_selection (pos userpass)) [],
    emit_send-decided (shut s) (Binding.method_selection (pos no_acceptable))
        (close no_acceptable_method ∷ []),
  )

  greeting_step-decided :
      (s : ServerSession Ctx Pipe)
      → s.out ≡ []
      → All IsByte s.buf
      → (decided (greeting_step s).0 ≡ true)
        ⊎ (((greeting_step s).0 ≡ ok need_data) × (length s.buf ≤ 256))
  unfolding greeting_step
  greeting_step-decided s h b = elim (Bool-cases (wrong_version s.buf)) [
    | inl wrong ↦ inl (ground (arith, emit-decided (shut s) (close bad_version) [] h))
    | inr right ↦ elim (Option-cases (parse_greeting s.buf)) [
      | inl short ↦ inr (ground (arith, parse_greeting_short s.buf b right short))
      | inr (ms, whole) ↦ inl (
          ground (
            arith,
            choose_method-decided (record s { buf = drop (2 + get_or s.buf 1 0) s.buf }) ms h,
          ))
    ]
  ]

  auth_step-decided :
      (p : Platform) (s : ServerSession Ctx Pipe)
      → s.out ≡ []
      → (decided (auth_step p s).0 ≡ true)
        ⊎ (((auth_step p s).0 ≡ ok need_data) × (length s.buf ≤ 513))
  unfolding auth_step
  auth_step-decided p s h = ground (arith, emit-decided (shut s) (close auth_too_large) [] h)

  on_parsed-decided :
      (p : Platform) (s : ServerSession Ctx Pipe) (rest : Bytes)
      (r : Result (Option (ℕ × Text × ℕ)))
      → s.out ≡ []
      → decided (on_parsed p s rest r).0 ≡ true
  unfolding on_parsed open_request
  on_parsed-decided p s rest (err e) h = refl
  on_parsed-decided p s rest (ok none) h = refuse-decided p s _ _ h
  on_parsed-decided p s rest (ok (some (cmd, host, port))) h =
      elim (Bool-cases (cmd == Types.connect)) [
        | inl same ↦ rw same
        | inr other ↦ rw other (refuse-decided p (record s { buf = rest; cmd = cmd }) _ _ h)
      ]

  request_step-decided :
      (p : Platform) (s : ServerSession Ctx Pipe)
      → s.out ≡ []
      → All IsByte s.buf
      → (decided (request_step p s).0 ≡ true)
        ⊎ (((request_step p s).0 ≡ ok need_data) × (length s.buf ≤ 261))
  unfolding request_step request_arrived
  request_step-decided p s h b = elim (Option-cases (request_len s.buf)) [
    | inl unsized ↦
        ground
          (arith, refuse-decided p s (pos (value atyp_not_supported)) (close unsupported_atyp) h)
    | inr (n, sized) ↦ ground (
      arith,
      request_len-le s.buf b sized,
      on_parsed-decided p s (drop n s.buf) (Binding.parse_request p (take n s.buf)) h,
    )
  ]

  with_bound-decided :
      (p : Platform) (s : ServerSession Ctx Pipe) (bnd : Option Endpoint)
      → s.out ≡ []
      → decided (with_bound p s bnd).0 ≡ true
  with_bound-decided p s none h = refl
  with_bound-decided p s (some bnd) h = emit_send-decided (record s { state = relay }) _ _ h

  step_at-decided :
      (p : Platform) (st : Phase) (s : ServerSession Ctx Pipe)
      → s.out ≡ []
      → All IsByte s.buf
      → (decided (step_at p st s).0 ≡ true)
        ⊎ (((step_at p st s).0 ≡ ok need_data) × (reads st ≡ true) × (length s.buf ≤ room st))
  step_at-decided p greeting s h b = ground (arith, greeting_step-decided s h b)
  step_at-decided p auth s h b = ground (arith, auth_step-decided p s h)
  step_at-decided p auth_wait s h b = inl (
      unfold auth_wait_step in
      ground (
        arith,
        emit_send-decided (shut s) (Binding.auth_reply (pos 1)) (close auth_refused ∷ []) h,
        emit_send-decided (record s { state = request }) (Binding.auth_reply (pos 0)) [] h,
      ))
  step_at-decided p request s h b = ground (arith, request_step-decided p s h b)
  step_at-decided p connect_wait s h b = inl (
      unfold connect_wait_step in
      ground (
        arith,
        refuse-decided p s s.rep (close request_rejected) h,
        refuse-decided p s s.rep (close upstream_failed) h,
        with_bound-decided p s s.connected_bnd h,
      ))
  step_at-decided p relay s h b = inl refl
  step_at-decided p closed s h b = inl refl

  -- A session with nothing queued asks for data only in the three states that read, and only while
  -- its buffer is short: at most 256 bytes of a greeting, 513 of credentials, 261 of a request. In
  -- every other case it has decided, and it never decides that a greeting or a request is too large.
  -- The buffer is made of bytes.
  pub step-decided :
      (p : Platform) (s : ServerSession Ctx Pipe)
      → s.out ≡ []
      → All IsByte s.buf
      → (decided (step p s).0 ≡ true)
        ⊎ (((step p s).0 ≡ ok need_data) × (reads s.state ≡ true) × (length s.buf ≤ room s.state))
  unfolding step
  step-decided p s h b = step_at-decided p s.state s h b
