-- ===== src/Server/Machine/Cuts.antt =====
-- `_step` and `next_event` of src/optisocks5/server/session.py: what they do to the buffer and the
-- queue, and when they ask for bytes.
use optisocks.Prelude.{
  ◌+◌, ℕ, ℤ, ◌≡◌, refl, Bool, true, false, Option, none, some, List, [], ◌∷◌, Bytes, Text, Result,
  IsByte, All, All-drop, ok, err, not, arith, if◌then◌else◌, ltb, leb, length, drop, take, get_or,
  ◌==◌,
}
use optisocks.Codec.Platform.{Platform}
use optisocks.Codec.Binding
use optisocks.Codec.Messages.{parse_greeting}
use optisocks.Core.Types
use optisocks.Core.Types.{userpass}
use optisocks.Server.Events.{Event, CloseReason, send, need_data, authorize, connect, close}
use optisocks.Server.State.{
  ServerSession, Phase, Endpoint, greeting, auth, auth_wait, request, connect_wait, relay, closed,
}
use optisocks.Server.Machine.{
  Yield, next_event, step, step_at, greeting_step, auth_step, auth_wait_step, choose_method, emit,
  emit_send, shut, request_step, request_len, request_arrived, on_parsed, open_request,
  connect_wait_step, with_bound, refuse, wrong_version, mem, userpass_size,
}

-- A request for bytes is never put off.
abbrev pub no_need : List Event → Bool
no_need [] = true
no_need (need_data ∷ q) = false
no_need (_ ∷ q) = no_need q

module _ {Ctx Pipe : Type 0} where
  -- The queue asks for no bytes, and the buffer holds bytes.
  abbrev pub IsTidy : ServerSession Ctx Pipe → Type 0
  IsTidy s = (no_need s.out ≡ true) × All IsByte s.buf

  -- A session that asks for bytes is as it was.
  abbrev pub IsCut : ServerSession Ctx Pipe → Yield Ctx Pipe → Type 0
  IsCut s0 (ok need_data, s) = s ≡ s0
  IsCut s0 (_, s) = IsTidy s

  module _ (s0 : ServerSession Ctx Pipe) where
    emit-IsCut :
        (s : ServerSession Ctx Pipe) (r : Result Bytes) (es : List Event)
        → s.out ≡ []
        → no_need es ≡ true
        → All IsByte s.buf
        → IsCut s0 (emit_send s r es)
    unfolding emit_send emit
    emit-IsCut s (ok b) es o n d = rw o (n, d)
    emit-IsCut s (err e) es o n d = rw o (refl, d)

    close-IsCut :
        (s : ServerSession Ctx Pipe) (r : CloseReason)
        → s.out ≡ []
        → All IsByte s.buf
        → IsCut s0 (emit s (close r) [])
    unfolding emit
    close-IsCut s r o d = rw o (refl, d)

    if-IsCut :
        (b : Bool) (x y : Yield Ctx Pipe) → IsCut s0 x → IsCut s0 y → IsCut s0 (if b then x else y)
    if-IsCut true x y h k = h
    if-IsCut false x y h k = k

    option-IsCut :
        {A : Type 0} (o : Option A) (x : Yield Ctx Pipe) (f : A → Yield Ctx Pipe)
        → IsCut s0 x
        → ((a : A) → IsCut s0 (f a))
        → IsCut s0 (elim o as (λ t. Yield Ctx Pipe) [ none ↦ x | some a ↦ f a ])
    option-IsCut none x f h k = h
    option-IsCut (some a) x f h k = k a

    choose_method-IsCut :
        (s : ServerSession Ctx Pipe) (ms : Bytes)
        → s.out ≡ []
        → All IsByte s.buf
        → IsCut s0 (choose_method s ms)
    unfolding choose_method
    choose_method-IsCut s ms o d =
        if-IsCut (not s.require_auth) _ _ (emit-IsCut (record s { state = request }) _ [] o refl d)
          (if-IsCut (mem userpass ms) _ _ (emit-IsCut (record s { state = auth }) _ [] o refl d)
            (emit-IsCut (shut s) _ _ o refl d))

    refuse-IsCut :
        (p : Platform) (s : ServerSession Ctx Pipe) (rep : ℤ) (r : CloseReason)
        → s.out ≡ []
        → All IsByte s.buf
        → IsCut s0 (refuse p s rep (close r))
    refuse-IsCut p s rep r o d = emit-IsCut (shut s) _ _ o refl d

  -- The session that is asked is the one that the buffer is cut from.
  module _ (p : Platform) (s : ServerSession Ctx Pipe) (o : s.out ≡ []) (d : All IsByte s.buf) where
    same : no_need s.out ≡ true
    same = rw o refl

    greeting_step-IsCut : IsCut s (greeting_step s)
    unfolding greeting_step
    greeting_step-IsCut = if-IsCut s (wrong_version s.buf) _ _ (close-IsCut s (shut s) _ o d) (
        option-IsCut s (parse_greeting s.buf) _ _
          (if-IsCut s (ltb (2 + 255) (length s.buf)) _ _ (close-IsCut s (shut s) _ o d) refl)
          (λ ms.
            choose_method-IsCut s (record s { buf = drop (2 + get_or s.buf 1 0) s.buf }) ms o
              (All-drop IsByte (2 + get_or s.buf 1 0) s.buf d)))

    auth_step-IsCut : IsCut s (auth_step p s)
    unfolding auth_step
    auth_step-IsCut = by_parse (Binding.parse_userpass p s.buf)
      where
        by_parse :
            (r : Result (Option (Text × Text)))
            → IsCut s (elim r as (λ t. Yield Ctx Pipe) [
              | err e ↦ (err e, s)
              | ok none ↦
                  if ltb (3 + 255 + 255) (length s.buf)
                  then emit (shut s) (close CloseReason.auth_too_large) []
                  else (ok need_data, s)
              | ok (some (user, password)) ↦ (
                ok (authorize (some user) (some password)),
                record s {
                  buf = drop (userpass_size s.buf) s.buf;
                  rejected = false;
                  state = auth_wait;
                },
              )
            ])
        by_parse (err e) = (same, d)
        by_parse (ok none) =
            if-IsCut s (ltb (3 + 255 + 255) (length s.buf)) _ _ (close-IsCut s (shut s) _ o d) refl
        by_parse (ok (some up)) = (same, All-drop IsByte (userpass_size s.buf) s.buf d)

    auth_wait_step-IsCut : IsCut s (auth_wait_step s)
    unfolding auth_wait_step
    auth_wait_step-IsCut =
        if-IsCut s s.rejected _ _ (emit-IsCut s (shut s) _ _ o refl d)
          (emit-IsCut s (record s { state = request }) _ [] o refl d)

    on_parsed-IsCut :
        (rest : Bytes) (r : Result (Option (ℕ × Text × ℕ)))
        → All IsByte rest
        → IsCut s (on_parsed p s rest r)
    unfolding on_parsed open_request
    on_parsed-IsCut rest (err e) k = (same, d)
    on_parsed-IsCut rest (ok none) k = refuse-IsCut s p s _ _ o d
    on_parsed-IsCut rest (ok (some (cmd, host, port))) k =
        if-IsCut s (not (cmd == Types.connect)) _ _
          (refuse-IsCut s p (record s { buf = rest; cmd = cmd }) _ _ o k) (same, k)

    request_step-IsCut : IsCut s (request_step p s)
    unfolding request_step request_arrived
    request_step-IsCut =
        option-IsCut s (request_len s.buf) _ _
          (if-IsCut s (leb 5 (length s.buf)) _ _ (refuse-IsCut s p s _ _ o d) refl)
          (λ n.
            if-IsCut s (ltb (length s.buf) n) _ _
              (if-IsCut s (ltb (4 + 1 + 255 + 2) (length s.buf)) _ _ (close-IsCut s (shut s) _ o d)
                refl)
              (on_parsed-IsCut (drop n s.buf) (Binding.parse_request p (take n s.buf))
                (All-drop IsByte n s.buf d)))

    with_bound-IsCut : (bnd : Option Endpoint) → IsCut s (with_bound p s bnd)
    with_bound-IsCut none = (same, d)
    with_bound-IsCut (some bnd) = emit-IsCut s (record s { state = relay }) _ _ o refl d

    connect_wait_step-IsCut : IsCut s (connect_wait_step p s)
    unfolding connect_wait_step
    connect_wait_step-IsCut =
        if-IsCut s s.raw _ _ (same, d)
          (if-IsCut s s.rejected _ _ (refuse-IsCut s p s _ _ o d) (
            if-IsCut s s.failed _ _ (refuse-IsCut s p s _ _ o d)
              (with_bound-IsCut s.connected_bnd)))

    step_at-IsCut : (st : Phase) → IsCut s (step_at p st s)
    step_at-IsCut greeting = greeting_step-IsCut
    step_at-IsCut auth = auth_step-IsCut
    step_at-IsCut auth_wait = auth_wait_step-IsCut
    step_at-IsCut request = request_step-IsCut
    step_at-IsCut connect_wait = connect_wait_step-IsCut
    step_at-IsCut relay = (same, d)
    step_at-IsCut closed = (same, d)

  -- A tidy session stays tidy, and asks for bytes only as it is.
  pub next_event-IsCut :
      (p : Platform) (s : ServerSession Ctx Pipe) → IsTidy s → IsCut s (next_event p s)
  unfolding next_event step
  next_event-IsCut p s (h, d) = by_queue s.out refl
    where
      by_queue :
          (q : List Event)
          → s.out ≡ q
          → IsCut s (elim q as (λ t. Yield Ctx Pipe) [
            | e ∷ q' ↦ (ok e, record s { out = q' })
            | [] ↦ step_at p s.state s
          ])
      by_queue [] o = step_at-IsCut p s o d s.state
      by_queue (send b ∷ q) o = (rw o at h, d)
      by_queue (need_data ∷ q) o = absurd (ground arith)
      by_queue (connect c host port ∷ q) o = (rw o at h, d)
      by_queue (authorize user password ∷ q) o = (rw o at h, d)
      by_queue (Event.relay host port ∷ q) o = (rw o at h, d)
      by_queue (close reason ∷ q) o = (rw o at h, d)
