-- ===== src/Server/Machine/Weight.antt =====
-- Every step of src/optisocks5/server/session.py that does not ask for data moves forward.
use optisocks.Prelude.{
  ℕ, ℤ, pos, ◌+◌, ◌*◌, ◌≤◌, ◌<◌, ◌≡◌, refl, ◌⊎◌, inl, inr, Bool, true, false, Option, none, some,
  List, [], ◌∷◌, Bytes, Text, Result, ok, err, arith, length, drop, take, get_or, Bool-cases,
  Option-cases, ◌==◌,
}
use optisocks.Codec.Platform.{Platform}
use optisocks.Codec.Messages.{parse_greeting}
use optisocks.Codec.Binding
use optisocks.Core.Types
use optisocks.Core.Types.{value, no_auth, userpass, no_acceptable, atyp_not_supported}
use optisocks.Server.Events
use optisocks.Server.Events.{
  Event, send, need_data, authorize, connect, close, bad_version, greeting_too_large,
  no_acceptable_method, auth_too_large, request_too_large, unsupported_atyp, auth_refused,
  request_rejected, upstream_failed,
}
use optisocks.Server.State.{
  ServerSession, Phase, Endpoint, greeting, auth, auth_wait, request, connect_wait, relay, closed,
}
use optisocks.Server.Machine.{
  emit, emit_send, choose_method, greeting_step, auth_step, auth_wait_step, on_parsed, shut,
  any_host, request_len, open_request, request_arrived, request_step, connect_wait_step, refuse,
  with_bound, step_at, step, next_event,
}

-- The events and exceptions at which the drivers stop.
abbrev pub final : Result Event → Bool
final (err e) = true
final (ok (close reason)) = true
final (ok e) = false

-- How many states may still follow.
abbrev pub rank : Phase → ℕ
rank greeting = 6
rank auth = 5
rank auth_wait = 4
rank request = 3
rank connect_wait = 2
rank relay = 1
rank closed = 0

-- What is left to do, counted in calls of `next_event`.
abbrev pub weight : {Ctx Pipe : Type 0} → ServerSession Ctx Pipe → ℕ
weight s = 2 * rank s.state + length s.out

module _ {Ctx Pipe : Type 0} where
  emit-weight :
      (s : ServerSession Ctx Pipe) (e : Event) (es : List Event)
      → s.out ≡ []
      → weight (emit s e es).1 ≡ 2 * rank s.state + length es
  unfolding emit
  emit-weight s e es h = ground arith

  emit_send-weight :
      (s : ServerSession Ctx Pipe) (r : Result Bytes) (es : List Event)
      → s.out ≡ []
      → weight (emit_send s r es).1 ≤ 2 * rank s.state + length es
  unfolding emit_send
  emit_send-weight s (ok m) es h = omega (arith, emit-weight s (send m) es h)
  emit_send-weight s (err e) es h = ground arith

  refuse-weight :
      (p : Platform) (s : ServerSession Ctx Pipe) (rep : ℤ) (e : Event)
      → s.out ≡ []
      → weight (refuse p s rep e).1 ≤ 1
  refuse-weight p s rep e h =
      emit_send-weight (shut s) (Binding.reply p rep any_host (pos 0)) (e ∷ []) h

  choose_method-weight :
      (s : ServerSession Ctx Pipe) (ms : Bytes) → s.out ≡ [] → weight (choose_method s ms).1 < 12
  unfolding choose_method
  choose_method-weight s ms h = ground (
    arith,
    emit_send-weight (record s { state = request }) (Binding.method_selection (pos no_auth)) [] h,
    emit_send-weight (record s { state = auth }) (Binding.method_selection (pos userpass)) [] h,
    emit_send-weight (shut s) (Binding.method_selection (pos no_acceptable))
        (close no_acceptable_method ∷ []) h,
  )

  greeting_step-weight :
      (s : ServerSession Ctx Pipe)
      → s.out ≡ []
      → (greeting_step s ≡ (ok need_data, s)) ⊎ (weight (greeting_step s).1 < 12)
  unfolding greeting_step
  greeting_step-weight s h = elim (Option-cases (parse_greeting s.buf)) [
    | inl short ↦ ground (
      arith,
      emit-weight (shut s) (close bad_version) [] h,
      emit-weight (shut s) (close greeting_too_large) [] h,
    )
    | inr (ms, whole) ↦ inr (
        ground (
          arith,
          emit-weight (shut s) (close bad_version) [] h,
          choose_method-weight (record s { buf = drop (2 + get_or s.buf 1 0) s.buf }) ms h,
        ))
  ]

  auth_step-weight :
      (p : Platform) (s : ServerSession Ctx Pipe)
      → s.out ≡ []
      → (auth_step p s ≡ (ok need_data, s))
        ⊎ (weight (auth_step p s).1 < 10)
        ⊎ (final (auth_step p s).0 ≡ true)
  unfolding auth_step
  auth_step-weight p s h = ground (arith, emit-weight (shut s) (close auth_too_large) [] h)

  auth_wait_step-weight :
      (s : ServerSession Ctx Pipe) → s.out ≡ [] → weight (auth_wait_step s).1 < 8
  unfolding auth_wait_step
  auth_wait_step-weight s h = ground (
    arith,
    emit_send-weight (shut s) (Binding.auth_reply (pos 1)) (close auth_refused ∷ []) h,
    emit_send-weight (record s { state = request }) (Binding.auth_reply (pos 0)) [] h,
  )

  on_parsed-weight :
      (p : Platform) (s : ServerSession Ctx Pipe) (rest : Bytes)
      (r : Result (Option (ℕ × Text × ℕ)))
      → s.out ≡ []
      → (weight (on_parsed p s rest r).1 < 6) ⊎ (final (on_parsed p s rest r).0 ≡ true)
  unfolding on_parsed open_request
  on_parsed-weight p s rest (err e) h = inr refl
  on_parsed-weight p s rest (ok none) h = inl (omega (arith, refuse-weight p s _ _ h))
  on_parsed-weight p s rest (ok (some (cmd, host, port))) h =
      elim (Bool-cases (cmd == Types.connect)) [
        | inl same ↦ inl (ground arith)
        | inr other ↦ inl (
            ground (
              arith,
              refuse-weight p (record s { buf = rest; cmd = cmd }) (pos 7)
                  (close Events.unsupported_command) h,
            ))
      ]

  request_step-weight :
      (p : Platform) (s : ServerSession Ctx Pipe)
      → s.out ≡ []
      → (request_step p s ≡ (ok need_data, s))
        ⊎ (weight (request_step p s).1 < 6)
        ⊎ (final (request_step p s).0 ≡ true)
  unfolding request_step request_arrived
  request_step-weight p s h = elim (Option-cases (request_len s.buf)) [
    | inl unsized ↦
        ground
          (arith, refuse-weight p s (pos (value atyp_not_supported)) (close unsupported_atyp) h)
    | inr (n, sized) ↦ ground (
      arith,
      emit-weight (shut s) (close request_too_large) [] h,
      on_parsed-weight p s (drop n s.buf) (Binding.parse_request p (take n s.buf)) h,
    )
  ]

  with_bound-weight :
      (p : Platform) (s : ServerSession Ctx Pipe) (bnd : Option Endpoint)
      → s.out ≡ []
      → (weight (with_bound p s bnd).1 < 4) ⊎ (final (with_bound p s bnd).0 ≡ true)
  with_bound-weight p s none h = inr refl
  with_bound-weight p s (some bnd) h =
      inl (omega (arith, emit_send-weight (record s { state = relay }) _ _ h))

  connect_wait_step-weight :
      (p : Platform) (s : ServerSession Ctx Pipe)
      → s.out ≡ []
      → (weight (connect_wait_step p s).1 < 4) ⊎ (final (connect_wait_step p s).0 ≡ true)
  unfolding connect_wait_step
  connect_wait_step-weight p s h = ground (
    arith,
    refuse-weight p s s.rep (close request_rejected) h,
    refuse-weight p s s.rep (close upstream_failed) h,
    with_bound-weight p s s.connected_bnd h,
  )

  step_at-weight :
      (p : Platform) (st : Phase) (s : ServerSession Ctx Pipe)
      → s.out ≡ []
      → (step_at p st s ≡ (ok need_data, s))
        ⊎ (weight (step_at p st s).1 < 2 * rank st)
        ⊎ (final (step_at p st s).0 ≡ true)
  step_at-weight p greeting s h = ground (arith, greeting_step-weight s h)
  step_at-weight p auth s h = auth_step-weight p s h
  step_at-weight p auth_wait s h = inr (inl (auth_wait_step-weight s h))
  step_at-weight p request s h = request_step-weight p s h
  step_at-weight p connect_wait s h = inr (connect_wait_step-weight p s h)
  step_at-weight p relay s h = inr (inr refl)
  step_at-weight p closed s h = inr (inr refl)

  queued-weight :
      (p : Platform) (s : ServerSession Ctx Pipe) (q : List Event)
      → s.out ≡ q
      → (next_event p s ≡ (ok need_data, s))
        ⊎ (weight (next_event p s).1 < weight s)
        ⊎ (final (next_event p s).0 ≡ true)
  unfolding next_event step
  queued-weight p s [] h = ground (arith, step_at-weight p s.state s h)
  queued-weight p s (e ∷ q) h = inr (inl (ground arith))

  -- A call of `next_event` asks for data and changes nothing, or leaves strictly less to do, or ends
  -- the session for its driver.
  pub next_event-weight :
      (p : Platform) (s : ServerSession Ctx Pipe)
      → (next_event p s ≡ (ok need_data, s))
        ⊎ (weight (next_event p s).1 < weight s)
        ⊎ (final (next_event p s).0 ≡ true)
  next_event-weight p s = queued-weight p s s.out refl
