-- ===== src/Server/Machine/Targets.antt =====
-- `_step` and `next_event` of src/optisocks5/server/session.py: what a session has set up when it asks
-- for a connection.
use optisocks.Prelude.{
  ◌+◌, ℕ, pos, ◌≡◌, refl, Bool, true, false, Option, none, some, List, [], ◌∷◌, Bytes, Text, Result,
  ok, err, not, arith, if◌then◌else◌, ltb, leb, length, drop, take, get_or, ◌==◌,
}
use optisocks.Codec.Platform.{Platform}
use optisocks.Codec.Binding
use optisocks.Codec.Messages.{parse_greeting}
use optisocks.Core.Types
use optisocks.Core.Types.{userpass}
use optisocks.Server.Events.{Event, CloseReason, send, need_data, authorize, connect, close}
use optisocks.Server.State.{
  ServerSession, Phase, Endpoint, greeting, auth, auth_wait, request, connect_wait, relay, closed,
}
use optisocks.Server.Machine.{
  Yield, next_event, step, step_at, greeting_step, auth_step, auth_wait_step, choose_method, emit,
  emit_send, shut, request_step, request_len, request_arrived, on_parsed, open_request,
  connect_wait_step, with_bound, wrong_version, mem, userpass_size,
}

-- A request for a connection is never put off.
abbrev pub no_connect : List Event → Bool
no_connect [] = true
no_connect (connect cmd host port ∷ q) = false
no_connect (_ ∷ q) = no_connect q

module _ {Ctx Pipe : Type 0} where
  -- A session that asks for a connection has it as its target.
  abbrev pub IsAimed : Yield Ctx Pipe → Type 0
  IsAimed (ok (connect cmd host port), s) =
      (s.target ≡ some (host, pos port)) × (no_connect s.out ≡ true)
  IsAimed (_, s) = no_connect s.out ≡ true

  emit-IsAimed :
      (s : ServerSession Ctx Pipe) (r : Result Bytes) (es : List Event)
      → s.out ≡ []
      → no_connect es ≡ true
      → IsAimed (emit_send s r es)
  unfolding emit_send emit
  emit-IsAimed s (ok b) es o n = rw o n
  emit-IsAimed s (err e) es o n = rw o refl

  close-IsAimed :
      (s : ServerSession Ctx Pipe) (r : CloseReason) → s.out ≡ [] → IsAimed (emit s (close r) [])
  unfolding emit
  close-IsAimed s r o = rw o refl

  if-IsAimed :
      (b : Bool) (x y : Yield Ctx Pipe) → IsAimed x → IsAimed y → IsAimed (if b then x else y)
  if-IsAimed true x y h k = h
  if-IsAimed false x y h k = k

  option-IsAimed :
      {A : Type 0} (o : Option A) (x : Yield Ctx Pipe) (f : A → Yield Ctx Pipe)
      → IsAimed x
      → ((a : A) → IsAimed (f a))
      → IsAimed (elim o as (λ t. Yield Ctx Pipe) [ none ↦ x | some a ↦ f a ])
  option-IsAimed none x f h k = h
  option-IsAimed (some a) x f h k = k a

  waits-IsAimed : (s : ServerSession Ctx Pipe) → s.out ≡ [] → no_connect s.out ≡ true
  waits-IsAimed s o = rw o refl

  choose_method-IsAimed :
      (s : ServerSession Ctx Pipe) (ms : Bytes) → s.out ≡ [] → IsAimed (choose_method s ms)
  unfolding choose_method
  choose_method-IsAimed s ms o =
      if-IsAimed (not s.require_auth) _ _ (emit-IsAimed (record s { state = request }) _ [] o refl)
        (if-IsAimed (mem userpass ms) _ _ (emit-IsAimed (record s { state = auth }) _ [] o refl)
          (emit-IsAimed (shut s) _ _ o refl))

  greeting_step-IsAimed : (s : ServerSession Ctx Pipe) → s.out ≡ [] → IsAimed (greeting_step s)
  unfolding greeting_step
  greeting_step-IsAimed s o = if-IsAimed (wrong_version s.buf) _ _ (close-IsAimed (shut s) _ o) (
      option-IsAimed (parse_greeting s.buf) _ _
        (if-IsAimed (ltb (2 + 255) (length s.buf)) _ _ (close-IsAimed (shut s) _ o)
          (waits-IsAimed s o))
        (λ ms. choose_method-IsAimed (record s { buf = drop (2 + get_or s.buf 1 0) s.buf }) ms o))

  auth_step-IsAimed :
      (p : Platform) (s : ServerSession Ctx Pipe) → s.out ≡ [] → IsAimed (auth_step p s)
  unfolding auth_step
  auth_step-IsAimed p s o = by_parse (Binding.parse_userpass p s.buf)
    where
      by_parse :
          (r : Result (Option (Text × Text)))
          → IsAimed (elim r as (λ t. Yield Ctx Pipe) [
            | err e ↦ (err e, s)
            | ok none ↦
                if ltb (3 + 255 + 255) (length s.buf)
                then emit (shut s) (close CloseReason.auth_too_large) []
                else (ok need_data, s)
            | ok (some (user, password)) ↦ (
              ok (authorize (some user) (some password)),
              record s {
                buf = drop (userpass_size s.buf) s.buf;
                rejected = false;
                state = auth_wait;
              },
            )
          ])
      by_parse (err e) = waits-IsAimed s o
      by_parse (ok none) =
          if-IsAimed (ltb (3 + 255 + 255) (length s.buf)) _ _ (close-IsAimed (shut s) _ o)
            (waits-IsAimed s o)
      by_parse (ok (some up)) = waits-IsAimed s o

  auth_wait_step-IsAimed : (s : ServerSession Ctx Pipe) → s.out ≡ [] → IsAimed (auth_wait_step s)
  unfolding auth_wait_step
  auth_wait_step-IsAimed s o =
      if-IsAimed s.rejected _ _ (emit-IsAimed (shut s) _ _ o refl)
        (emit-IsAimed (record s { state = request }) _ [] o refl)

  on_parsed-IsAimed :
      (p : Platform) (s : ServerSession Ctx Pipe) (rest : Bytes)
      (r : Result (Option (ℕ × Text × ℕ)))
      → s.out ≡ []
      → IsAimed (on_parsed p s rest r)
  unfolding on_parsed open_request
  on_parsed-IsAimed p s rest (err e) o = waits-IsAimed s o
  on_parsed-IsAimed p s rest (ok none) o = emit-IsAimed (shut s) _ _ o refl
  on_parsed-IsAimed p s rest (ok (some (cmd, host, port))) o =
      if-IsAimed (not (cmd == Types.connect)) _ _
        (emit-IsAimed (shut (record s { buf = rest; cmd = cmd })) _ _ o refl)
        (refl, waits-IsAimed s o)

  request_step-IsAimed :
      (p : Platform) (s : ServerSession Ctx Pipe) → s.out ≡ [] → IsAimed (request_step p s)
  unfolding request_step request_arrived
  request_step-IsAimed p s o =
      option-IsAimed (request_len s.buf) _ _
        (if-IsAimed (leb 5 (length s.buf)) _ _ (emit-IsAimed (shut s) _ _ o refl)
          (waits-IsAimed s o))
        (λ n.
          if-IsAimed (ltb (length s.buf) n) _ _
            (if-IsAimed (ltb (4 + 1 + 255 + 2) (length s.buf)) _ _ (close-IsAimed (shut s) _ o)
              (waits-IsAimed s o))
            (on_parsed-IsAimed p s (drop n s.buf) (Binding.parse_request p (take n s.buf)) o))

  with_bound-IsAimed :
      (p : Platform) (s : ServerSession Ctx Pipe) (bnd : Option Endpoint)
      → s.out ≡ []
      → IsAimed (with_bound p s bnd)
  with_bound-IsAimed p s none o = waits-IsAimed s o
  with_bound-IsAimed p s (some bnd) o = emit-IsAimed (record s { state = relay }) _ _ o refl

  connect_wait_step-IsAimed :
      (p : Platform) (s : ServerSession Ctx Pipe) → s.out ≡ [] → IsAimed (connect_wait_step p s)
  unfolding connect_wait_step
  connect_wait_step-IsAimed p s o = if-IsAimed s.raw _ _ (waits-IsAimed s o) (
      if-IsAimed s.rejected _ _ (emit-IsAimed (shut s) _ _ o refl) (
        if-IsAimed s.failed _ _ (emit-IsAimed (shut s) _ _ o refl)
          (with_bound-IsAimed p s s.connected_bnd o)))

  step_at-IsAimed :
      (p : Platform) (st : Phase) (s : ServerSession Ctx Pipe)
      → s.out ≡ []
      → IsAimed (step_at p st s)
  step_at-IsAimed p greeting s o = greeting_step-IsAimed s o
  step_at-IsAimed p auth s o = auth_step-IsAimed p s o
  step_at-IsAimed p auth_wait s o = auth_wait_step-IsAimed s o
  step_at-IsAimed p request s o = request_step-IsAimed p s o
  step_at-IsAimed p connect_wait s o = connect_wait_step-IsAimed p s o
  step_at-IsAimed p relay s o = waits-IsAimed s o
  step_at-IsAimed p closed s o = waits-IsAimed s o

  -- Nothing of the queue asks for a connection, and what does has its target set.
  pub next_event-IsAimed :
      (p : Platform) (s : ServerSession Ctx Pipe)
      → no_connect s.out ≡ true
      → IsAimed (next_event p s)
  unfolding next_event step
  next_event-IsAimed p s h = by_queue s.out refl
    where
      by_queue :
          (q : List Event)
          → s.out ≡ q
          → IsAimed (elim q as (λ t. Yield Ctx Pipe) [
            | e ∷ q' ↦ (ok e, record s { out = q' })
            | [] ↦ step_at p s.state s
          ])
      by_queue [] o = step_at-IsAimed p s.state s o
      by_queue (send b ∷ q) o = rw o at h
      by_queue (need_data ∷ q) o = rw o at h
      by_queue (connect c host port ∷ q) o = absurd (ground arith)
      by_queue (authorize user password ∷ q) o = rw o at h
      by_queue (Event.relay host port ∷ q) o = rw o at h
      by_queue (close reason ∷ q) o = rw o at h
