-- ===== src/Server/Machine/Segments.antt =====
-- `next_event` of src/optisocks5/server/session.py does not depend on how the client's stream is
-- cut into segments.
use optisocks.Prelude.{
  ℕ, ℤ, Bool, pos, ◌+◌, ◌≤◌, ◌≡◌, refl, ◌⊎◌, inl, inr, true, false, Option, none, some, List, [],
  ◌∷◌, ◌++◌, Bytes, Text, IsByte, Result, ok, err, arith, ltb, ltb→le, le→ltb, ltb→lt, length, take,
  drop, get_or, All, length-append, take-append, drop-append, get_or-append, leb, leb→le, ◌==◌,
  Bool-cases, Option-cases, if◌then◌else◌,
}
use optisocks.Codec.Platform.{Platform}
use optisocks.Codec.Messages
use optisocks.Codec.Messages.{parse_greeting}
use optisocks.Codec.Binding
use optisocks.Codec.Binding.{parse_userpass}
use optisocks.Core.Types
use optisocks.Server.Events.{Event, need_data}
use optisocks.Server.State.{
  ServerSession, Phase, greeting, auth, auth_wait, request, connect_wait, relay, closed, Endpoint,
}
use optisocks.Server.Decisions.{receive}
use optisocks.Server.Machine.{
  Yield, request_len, wrong_version, emit, emit_send, choose_method, greeting_step, auth_step,
  auth_wait_step, request_arrived, request_step, connect_wait_step, refuse, any_host, open_request,
  on_parsed, with_bound, step_at, step, next_event, userpass_size,
}
use optisocks.Server.Machine.Parsing.{
  parse_greeting-append, parse_greeting_short, raw_userpass-append, raw_userpass_short,
  raw_userpass_bad, request_len-append, request_len-none, request_len-le, wrong_version-append,
  right_version-append,
}

-- The same result, with the bytes behind it unread.
abbrev pub later : {Ctx Pipe : Type 0} → Bytes → Yield Ctx Pipe → Yield Ctx Pipe
later ys (r, s) = (r, receive s ys)

module _ {Ctx Pipe : Type 0} (ys : Bytes) where
  emit-append :
      (s : ServerSession Ctx Pipe) (e : Event) (es : List Event)
      → emit (receive s ys) e es ≡ later ys (emit s e es)
  unfolding emit receive
  emit-append s e es = ground arith

  emit_send-append :
      (s : ServerSession Ctx Pipe) (r : Result Bytes) (es : List Event)
      → emit_send (receive s ys) r es ≡ later ys (emit_send s r es)
  unfolding emit_send receive
  emit_send-append s (ok m) es = ground arith
  emit_send-append s (err e) es = refl

module _ {Ctx Pipe : Type 0} (p : Platform) (ys : Bytes) (s : ServerSession Ctx Pipe)
    (b : All IsByte s.buf) where
  greeting_step-append :
      (greeting_step s ≡ (ok need_data, s))
      ⊎ (greeting_step (receive s ys) ≡ later ys (greeting_step s))
  unfolding greeting_step choose_method emit_send receive
  greeting_step-append = elim (Bool-cases (wrong_version s.buf)) [
    | inl wrong ↦ inr (ground (arith, wrong_version-append s.buf ys))
    | inr right ↦ elim (Option-cases (parse_greeting s.buf)) [
      | inl short ↦ inl (ground (arith, parse_greeting_short s.buf b right short))
      | inr (ms, whole) ↦
          let (again, fits, two) = parse_greeting-append s.buf ys whole in
          inr (
            ground (
              arith,
              right_version-append s.buf ys,
              get_or-append s.buf ys 1 0 two,
              drop-append (2 + get_or s.buf 1 0) s.buf ys fits,
            ))
    ]
  ]

  auth_step-none :
      Messages.parse_userpass s.buf ≡ none
      → (auth_step p s ≡ (ok need_data, s))
        ⊎ (auth_step p (receive s ys) ≡ later ys (auth_step p s))
  unfolding auth_step parse_userpass emit receive
  auth_step-none h = elim (Bool-cases (ltb 513 (length s.buf))) [
    | inl long ↦
        let (v, d, e, ne) = raw_userpass_short s.buf b h (ltb→lt 513 _ long) in
        inr (ground (arith, length-append s.buf ys, raw_userpass_bad s.buf ys v d e ne))
    | inr short ↦ inl (ground arith)
  ]

  auth_step-append :
      (auth_step p s ≡ (ok need_data, s)) ⊎ (auth_step p (receive s ys) ≡ later ys (auth_step p s))
  auth_step-append = elim (Option-cases (Messages.parse_userpass s.buf)) [
    | inl h ↦ auth_step-none h
    | inr (uw, h) ↦
        let (again, fits, size) = raw_userpass-append s.buf ys h in
        inr (
          unfold auth_step parse_userpass receive in
          ground (arith, drop-append (userpass_size s.buf) s.buf ys fits))
  ]

five_more : (xs ys : Bytes) → leb 5 (length xs) ≡ true → leb 5 (length (xs ++ ys)) ≡ true
five_more xs ys h = ground (arith, length-append xs ys)

whole_more : (xs ys : Bytes) (n : ℕ) → ltb (length xs) n ≡ false → ltb (length (xs ++ ys)) n ≡ false
whole_more xs ys n h = ground (arith, length-append xs ys)

module _ {Ctx Pipe : Type 0} (p : Platform) (ys : Bytes) where
  refuse-append :
      (s : ServerSession Ctx Pipe) (rep : ℤ) (e : Event)
      → refuse p (receive s ys) rep e ≡ later ys (refuse p s rep e)
  unfolding receive
  refuse-append s rep e =
      emit_send-append ys (record s { state = closed }) (Binding.reply p rep any_host (pos 0))
        (e ∷ [])

  on_parsed-append :
      (s : ServerSession Ctx Pipe) (rest : Bytes) (r : Result (Option (ℕ × Text × ℕ)))
      → on_parsed p (receive s ys) (rest ++ ys) r ≡ later ys (on_parsed p s rest r)
  unfolding on_parsed receive open_request
  on_parsed-append s rest (err e) = refl
  on_parsed-append s rest (ok none) = refuse-append s _ _
  on_parsed-append s rest (ok (some (cmd, host, port))) = elim (Bool-cases (cmd == Types.connect)) [
    | inl same ↦ rw same
    | inr other ↦ rw other (refuse-append (record s { buf = rest; cmd = cmd }) _ _)
  ]

  request_arrived-append :
      (s : ServerSession Ctx Pipe) (n : ℕ)
      → n ≤ length s.buf
      → request_arrived p (receive s ys) n ≡ later ys (request_arrived p s n)
  unfolding request_arrived receive
  request_arrived-append s n h =
      rw (take-append n s.buf ys h, drop-append n s.buf ys h)
        (on_parsed-append s (drop n s.buf) (Binding.parse_request p (take n s.buf)))

  request_step-append :
      (s : ServerSession Ctx Pipe)
      → All IsByte s.buf
      → (request_step p s ≡ (ok need_data, s))
        ⊎ (request_step p (receive s ys) ≡ later ys (request_step p s))
  unfolding request_step receive
  request_step-append s b = elim (Option-cases (request_len s.buf)) [
    | inl unsized ↦ elim (Bool-cases (leb 5 (length s.buf))) [
      | inl five ↦ inr (
          rw
            (
              request_step,
              unsized,
              five,
              request_len-none s.buf ys (leb→le 5 _ five) unsized,
              five_more s.buf ys five,
            )
            (refuse-append s _ _))
      | inr four ↦ inl (rw (request_step, unsized, four))
    ]
    | inr (n, sized) ↦ elim (Bool-cases (ltb (length s.buf) n)) [
      | inl short ↦ inl (
          rw (
            request_step,
            sized,
            short,
            le→ltb 262 (length s.buf)
                (omega (arith, request_len-le s.buf b sized, ltb→lt (length s.buf) n short)),
          ))
      | inr whole ↦ inr (
          rw
            (
              request_step,
              sized,
              whole,
              request_len-append s.buf ys sized,
              whole_more s.buf ys n whole,
            )
            (request_arrived-append s n (ltb→le _ n whole)))
    ]
  ]

  if_later :
      (c : Bool) (x y x' y' : Yield Ctx Pipe)
      → x ≡ later ys x'
      → y ≡ later ys y'
      → (if c then x else y) ≡ later ys (if c then x' else y')
  if_later true x y x' y' hx hy = hx
  if_later false x y x' y' hx hy = hy

  auth_wait_step-append :
      (s : ServerSession Ctx Pipe) → auth_wait_step (receive s ys) ≡ later ys (auth_wait_step s)
  unfolding auth_wait_step receive
  auth_wait_step-append s =
      if_later s.rejected _ _ _ _ (emit_send-append ys (record s { state = closed }) _ _)
        (emit_send-append ys (record s { state = request }) _ _)

  bound-append :
      (s : ServerSession Ctx Pipe) (bnd : Option Endpoint)
      → with_bound p (receive s ys) bnd ≡ later ys (with_bound p s bnd)
  unfolding receive
  bound-append s none = refl
  bound-append s (some bnd) = emit_send-append ys (record s { state = relay }) _ _

  connect_wait_step-append :
      (s : ServerSession Ctx Pipe)
      → connect_wait_step p (receive s ys) ≡ later ys (connect_wait_step p s)
  unfolding connect_wait_step receive
  connect_wait_step-append s = if_later s.raw _ _ _ _ refl (
      if_later s.rejected _ _ _ _ (refuse-append s s.rep _)
        (if_later s.failed _ _ _ _ (refuse-append s s.rep _) (bound-append s s.connected_bnd)))

  step_at-append :
      (st : Phase) (s : ServerSession Ctx Pipe)
      → All IsByte s.buf
      → (step_at p st s ≡ (ok need_data, s))
        ⊎ (step_at p st (receive s ys) ≡ later ys (step_at p st s))
  unfolding receive
  step_at-append greeting s b = greeting_step-append p ys s b
  step_at-append auth s b = auth_step-append p ys s b
  step_at-append auth_wait s b = inr (auth_wait_step-append s)
  step_at-append request s b = request_step-append s b
  step_at-append connect_wait s b = inr (connect_wait_step-append s)
  step_at-append relay s b = inr refl
  step_at-append closed s b = inr refl

  -- On a buffer of bytes, a call of `next_event` either asks for data, and leaves the session as it
  -- is, or does with more bytes behind the buffer just what it does without: the same event or
  -- exception, and the session that is left has those bytes behind its buffer.
  pub next_event-receive :
      (s : ServerSession Ctx Pipe)
      → All IsByte s.buf
      → (next_event p s ≡ (ok need_data, s))
        ⊎ (next_event p (receive s ys) ≡ later ys (next_event p s))
  unfolding next_event step receive
  next_event-receive s b = queued s.out refl
    where
      queued :
          (q : List Event)
          → s.out ≡ q
          → (next_event p s ≡ (ok need_data, s))
            ⊎ (next_event p (receive s ys) ≡ later ys (next_event p s))
      queued [] e = elim (step_at-append s.state s b) [
        | inl h ↦ inl (ground arith)
        | inr h ↦ inr (ground arith)
      ]
      queued (x ∷ q) e = inr (ground arith)
