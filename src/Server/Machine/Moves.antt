-- ===== src/Server/Machine/Moves.antt =====
-- The state diagram of `_step` in src/optisocks5/server/session.py.
use optisocks.Codec.Messages.{parse_greeting}
use optisocks.Core.Types
use optisocks.Core.Types.{no_auth, userpass, no_acceptable, value, atyp_not_supported}
use optisocks.Prelude.{
  drop, take, get_or, Option-cases, ◌==◌, ℕ, ℤ, pos, ◌+◌, ◌≡◌, refl, ◌⊎◌, inl, inr, ◌≢◌, true,
  false, Option, none, some, List, [], ◌∷◌, Bytes, Text, Result, ok, err, arith, Bool-cases,
}
use optisocks.Codec.Platform.{Platform}
use optisocks.Codec.Binding
use optisocks.Server.Events.{
  bad_version, greeting_too_large, no_acceptable_method, auth_too_large, auth_refused,
  unsupported_atyp, request_too_large, request_rejected, upstream_failed, Event, send, close,
}
use optisocks.Server.State.{
  ServerSession, Phase, Endpoint, greeting, auth, auth_wait, request, connect_wait, relay, closed,
}
use optisocks.Server.Machine.{
  shut, any_host, request_len, emit, emit_send, choose_method, greeting_step, auth_step,
  auth_wait_step, on_parsed, open_request, request_arrived, request_step, connect_wait_step, refuse,
  with_bound, step_at, step,
}

module _ {Ctx Pipe : Type 0} where
  pub emit-state :
      (s : ServerSession Ctx Pipe) (e : Event) (es : List Event) → (emit s e es).1.state ≡ s.state
  unfolding emit
  emit-state s e es = ground arith

  pub emit_send-state :
      (s : ServerSession Ctx Pipe) (r : Result Bytes) (es : List Event)
      → (emit_send s r es).1.state ≡ s.state
  unfolding emit_send
  emit_send-state s (ok m) es = emit-state s (send m) es
  emit_send-state s (err e) es = refl

  -- From where, and on what condition, each state is entered by one step.
  record Entry (s : ServerSession Ctx Pipe) (t : Phase) : Type 0 where
    pub into_greeting : t ≡ greeting → s.state ≡ greeting
    pub into_auth : t ≡ auth → (s.state ≡ auth) ⊎ ((s.state ≡ greeting) × (s.require_auth ≡ true))
    pub into_auth_wait : t ≡ auth_wait → s.state ≡ auth
    pub into_request :
        t ≡ request
        → (s.state ≡ request)
          ⊎ ((s.state ≡ greeting) × (s.require_auth ≡ false))
          ⊎ ((s.state ≡ auth_wait) × (s.rejected ≡ false))
    pub into_connect_wait : t ≡ connect_wait → (s.state ≡ request) ⊎ (s.state ≡ connect_wait)
    pub into_relay :
        t ≡ relay
        → (s.state ≡ connect_wait)
          × ((s.raw ≡ true)
              ⊎ ((s.rejected ≡ false) × (s.failed ≡ false) × (s.connected_bnd ≢ none)))

  choose_method-state :
      (s : ServerSession Ctx Pipe) (ms : Bytes)
      → (((choose_method s ms).1.state ≡ request) × (s.require_auth ≡ false))
        ⊎ (((choose_method s ms).1.state ≡ auth) × (s.require_auth ≡ true))
        ⊎ ((choose_method s ms).1.state ≡ closed)
  unfolding choose_method
  choose_method-state s ms = ground (
    arith,
    emit_send-state (record s { state = request }) (Binding.method_selection (pos no_auth)) [],
    emit_send-state (record s { state = auth }) (Binding.method_selection (pos userpass)) [],
    emit_send-state (shut s) (Binding.method_selection (pos no_acceptable))
        (close no_acceptable_method ∷ []),
  )

  greeting_step-state :
      (s : ServerSession Ctx Pipe)
      → (((greeting_step s).1.state ≡ request) × (s.require_auth ≡ false))
        ⊎ (((greeting_step s).1.state ≡ auth) × (s.require_auth ≡ true))
        ⊎ ((greeting_step s).1.state ≡ closed)
        ⊎ ((greeting_step s).1.state ≡ s.state)
  unfolding greeting_step
  greeting_step-state s = elim (Option-cases (parse_greeting s.buf)) [
    | inl short ↦ ground (
      arith,
      emit-state (shut s) (close bad_version) [],
      emit-state (shut s) (close greeting_too_large) [],
    )
    | inr (ms, whole) ↦ ground (
      arith,
      emit-state (shut s) (close bad_version) [],
      choose_method-state (record s { buf = drop (2 + get_or s.buf 1 0) s.buf }) ms,
    )
  ]

  auth_step-state :
      (p : Platform) (s : ServerSession Ctx Pipe)
      → ((auth_step p s).1.state ≡ auth_wait)
        ⊎ ((auth_step p s).1.state ≡ closed)
        ⊎ ((auth_step p s).1.state ≡ s.state)
  unfolding auth_step
  auth_step-state p s = ground (arith, emit-state (shut s) (close auth_too_large) [])

  auth_wait_step-state :
      (s : ServerSession Ctx Pipe)
      → (((auth_wait_step s).1.state ≡ request) × (s.rejected ≡ false))
        ⊎ (((auth_wait_step s).1.state ≡ closed) × (s.rejected ≡ true))
  unfolding auth_wait_step
  auth_wait_step-state s = ground (
    arith,
    emit_send-state (shut s) (Binding.auth_reply (pos 1)) (close auth_refused ∷ []),
    emit_send-state (record s { state = request }) (Binding.auth_reply (pos 0)) [],
  )

  refuse-state :
      (p : Platform) (s : ServerSession Ctx Pipe) (rep : ℤ) (e : Event)
      → (refuse p s rep e).1.state ≡ closed
  refuse-state p s rep e = emit_send-state (shut s) (Binding.reply p rep any_host (pos 0)) (e ∷ [])

  on_parsed-state :
      (p : Platform) (s : ServerSession Ctx Pipe) (rest : Bytes)
      (r : Result (Option (ℕ × Text × ℕ)))
      → ((on_parsed p s rest r).1.state ≡ connect_wait)
        ⊎ ((on_parsed p s rest r).1.state ≡ closed)
        ⊎ ((on_parsed p s rest r).1.state ≡ s.state)
  unfolding on_parsed open_request
  on_parsed-state p s rest (err e) = inr (inr refl)
  on_parsed-state p s rest (ok none) = inr (inl (refuse-state p s _ _))
  on_parsed-state p s rest (ok (some (cmd, host, port))) =
      elim (Bool-cases (cmd == Types.connect)) [
        | inl same ↦ inl (rw same)
        | inr other ↦ inr (inl (rw other (refuse-state p (record s { buf = rest; cmd = cmd }) _ _)))
      ]

  request_step-state :
      (p : Platform) (s : ServerSession Ctx Pipe)
      → ((request_step p s).1.state ≡ connect_wait)
        ⊎ ((request_step p s).1.state ≡ closed)
        ⊎ ((request_step p s).1.state ≡ s.state)
  unfolding request_step request_arrived
  request_step-state p s = elim (Option-cases (request_len s.buf)) [
    | inl unsized ↦
        ground (arith, refuse-state p s (pos (value atyp_not_supported)) (close unsupported_atyp))
    | inr (n, sized) ↦ ground (
      arith,
      emit-state (shut s) (close request_too_large) [],
      on_parsed-state p s (drop n s.buf) (Binding.parse_request p (take n s.buf)),
    )
  ]

  with_bound-state :
      (p : Platform) (s : ServerSession Ctx Pipe) (bnd : Option Endpoint)
      → (((with_bound p s bnd).1.state ≡ relay) × (bnd ≢ none))
        ⊎ ((with_bound p s bnd).1.state ≡ s.state)
  with_bound-state p s none = inr refl
  with_bound-state p s (some bnd) = inl (emit_send-state (record s { state = relay }) _ _, λ e. cc)

  connect_wait_step-state :
      (p : Platform) (s : ServerSession Ctx Pipe)
      → (((connect_wait_step p s).1.state ≡ relay)
          × ((s.raw ≡ true)
              ⊎ ((s.rejected ≡ false) × (s.failed ≡ false) × (s.connected_bnd ≢ none))))
        ⊎ ((connect_wait_step p s).1.state ≡ closed)
        ⊎ ((connect_wait_step p s).1.state ≡ s.state)
  unfolding connect_wait_step
  connect_wait_step-state p s = ground (
    arith,
    refuse-state p s s.rep (close request_rejected),
    refuse-state p s s.rep (close upstream_failed),
    with_bound-state p s s.connected_bnd,
  )

  step_at-Entry :
      (p : Platform) (st : Phase) (s : ServerSession Ctx Pipe)
      → s.state ≡ st
      → Entry s (step_at p st s).1.state
  step_at-Entry p greeting s h = ground (arith, greeting_step-state s)
  step_at-Entry p auth s h = ground (arith, auth_step-state p s)
  step_at-Entry p auth_wait s h = ground (arith, auth_wait_step-state s)
  step_at-Entry p request s h = ground (arith, request_step-state p s)
  step_at-Entry p connect_wait s h = ground (arith, connect_wait_step-state p s)
  step_at-Entry p relay s h = ground arith
  step_at-Entry p closed s h = ground arith

  -- From where, and on what condition, one step of the session may enter a state.
  unfoldable pub CanEnter : ServerSession Ctx Pipe → Phase → Type 0
  CanEnter s greeting = s.state ≡ greeting
  CanEnter s auth = (s.state ≡ auth) ⊎ ((s.state ≡ greeting) × (s.require_auth ≡ true))
  CanEnter s auth_wait = s.state ≡ auth
  CanEnter s request =
      (s.state ≡ request)
      ⊎ ((s.state ≡ greeting) × (s.require_auth ≡ false))
      ⊎ ((s.state ≡ auth_wait) × (s.rejected ≡ false))
  CanEnter s connect_wait = (s.state ≡ request) ⊎ (s.state ≡ connect_wait)
  CanEnter s relay =
      (s.state ≡ connect_wait)
      × ((s.raw ≡ true) ⊎ ((s.rejected ≡ false) × (s.failed ≡ false) × (s.connected_bnd ≢ none)))
  CanEnter s closed = Unit

  entered : (s : ServerSession Ctx Pipe) (t : Phase) → Entry s t → CanEnter s t
  unfolding CanEnter
  entered s greeting e = e.into_greeting refl
  entered s auth e = e.into_auth refl
  entered s auth_wait e = e.into_auth_wait refl
  entered s request e = e.into_request refl
  entered s connect_wait e = e.into_connect_wait refl
  entered s relay e = e.into_relay refl
  entered s closed e = tt

  -- One step of the session, whatever it returns or raises, enters a state only from where the
  -- diagram allows: the request phase only from a greeting that needs no authorization or from an
  -- authorization that was not rejected, the relay only from `connect_wait`, and there only if the
  -- session is raw, or is neither rejected nor failed and has an upstream.
  pub step-CanEnter : (p : Platform) (s : ServerSession Ctx Pipe) → CanEnter s (step p s).1.state
  unfolding step
  step-CanEnter p s = entered s (step p s).1.state (step_at-Entry p s.state s refl)
