-- ===== src/Server/Machine/Early.antt =====
-- `_step` and `next_event` of src/optisocks5/server/session.py, before the authorization of a session
-- that requires one.
use optisocks.Prelude.{
  ◌+◌, ◌≡◌, refl, Bool, true, false, not, Option, none, some, List, [], ◌∷◌, Bytes, Text, Result,
  ok, err, arith, if◌then◌else◌, ltb, length, drop, get_or,
}
use optisocks.Codec.Platform.{Platform}
use optisocks.Codec.Binding
use optisocks.Codec.Messages.{parse_greeting}
use optisocks.Core.Types.{userpass}
use optisocks.Server.Events.{
  Event, CloseReason, send, need_data, authorize, connect, relay, close, auth_too_large,
}
use optisocks.Server.State.{ServerSession, Phase, greeting, auth, auth_wait, closed}
use optisocks.Server.Machine.{
  Yield, next_event, step, step_at, greeting_step, auth_step, choose_method, emit, emit_send, shut,
  wrong_version, mem, userpass_size,
}

abbrev pub before_auth : Phase → Bool
before_auth greeting = true
before_auth auth = true
before_auth closed = true
before_auth _ = false

-- The queue holds none of the questions to the driver, and no relay.
abbrev pub only_answers : List Event → Bool
only_answers [] = true
only_answers (connect cmd host port ∷ q) = false
only_answers (authorize user password ∷ q) = false
only_answers (relay host port ∷ q) = false
only_answers (_ ∷ q) = only_answers q

module _ {Ctx Pipe : Type 0} where
  abbrev pub IsEarly : ServerSession Ctx Pipe → Type 0
  IsEarly s = (s.require_auth ≡ true) × (before_auth s.state ≡ true) × (only_answers s.out ≡ true)

  -- It has asked for an authorization.
  abbrev pub IsAsking : ServerSession Ctx Pipe → Type 0
  IsAsking s = (s.state ≡ auth_wait) × (s.require_auth ≡ true) × (only_answers s.out ≡ true)

  -- What an early session may answer.
  abbrev pub IsEarlyYield : Yield Ctx Pipe → Type 0
  IsEarlyYield (ok (send b), s) = IsEarly s
  IsEarlyYield (ok need_data, s) = IsEarly s
  IsEarlyYield (ok (authorize user password), s) = IsAsking s
  IsEarlyYield (ok (connect cmd host port), s) = true ≡ false
  IsEarlyYield (ok (relay host port), s) = true ≡ false
  IsEarlyYield (_, s) = Unit

  pub emit-IsEarly :
      (s : ServerSession Ctx Pipe) (r : Result Bytes) (es : List Event)
      → s.out ≡ []
      → s.require_auth ≡ true
      → before_auth s.state ≡ true
      → only_answers es ≡ true
      → IsEarlyYield (emit_send s r es)
  unfolding emit_send emit
  emit-IsEarly s (ok b) es o a st n = rw o (a, st, n)
  emit-IsEarly s (err e) es o a st n = tt

  close-IsEarly :
      (s : ServerSession Ctx Pipe) (r : CloseReason)
      → s.out ≡ []
      → IsEarlyYield (emit s (close r) [])
  unfolding emit
  close-IsEarly s r o = rw o tt

  if-IsEarly :
      (b : Bool) (x y : Yield Ctx Pipe)
      → (b ≡ true → IsEarlyYield x)
      → (b ≡ false → IsEarlyYield y)
      → IsEarlyYield (if b then x else y)
  if-IsEarly true x y h k = h refl
  if-IsEarly false x y h k = k refl

  option-IsEarly :
      {A : Type 0} (o : Option A) (x : Yield Ctx Pipe) (f : A → Yield Ctx Pipe)
      → IsEarlyYield x
      → ((a : A) → IsEarlyYield (f a))
      → IsEarlyYield (elim o as (λ t. Yield Ctx Pipe) [ none ↦ x | some a ↦ f a ])
  option-IsEarly none x f h k = h
  option-IsEarly (some a) x f h k = k a

  choose_method-IsEarly :
      (s : ServerSession Ctx Pipe) (ms : Bytes)
      → s.out ≡ []
      → s.require_auth ≡ true
      → IsEarlyYield (choose_method s ms)
  unfolding choose_method
  choose_method-IsEarly s ms o a =
      if-IsEarly (not s.require_auth) _ _ (λ e. absurd (ground arith))
        (λ e.
          if-IsEarly (mem userpass ms) _ _
            (λ e. emit-IsEarly (record s { state = auth }) _ [] o a refl refl)
            (λ e. emit-IsEarly (shut s) _ _ o a refl refl))

  greeting_step-IsEarly :
      (s : ServerSession Ctx Pipe) → IsEarly s → s.out ≡ [] → IsEarlyYield (greeting_step s)
  unfolding greeting_step
  greeting_step-IsEarly s (a, st, n) o =
      if-IsEarly (wrong_version s.buf) _ _ (λ e. close-IsEarly (shut s) _ o)
        (λ e.
          option-IsEarly (parse_greeting s.buf) _ _
            (if-IsEarly (ltb (2 + 255) (length s.buf)) _ _ (λ e. close-IsEarly (shut s) _ o)
              (λ e. (a, st, n)))
            (λ ms.
              choose_method-IsEarly (record s { buf = drop (2 + get_or s.buf 1 0) s.buf }) ms o a))

  auth_step-IsEarly :
      (p : Platform) (s : ServerSession Ctx Pipe)
      → IsEarly s
      → s.out ≡ []
      → IsEarlyYield (auth_step p s)
  unfolding auth_step
  auth_step-IsEarly p s h o = by_parse (Binding.parse_userpass p s.buf)
    where
      by_parse :
          (r : Result (Option (Text × Text)))
          → IsEarlyYield (elim r as (λ t. Yield Ctx Pipe) [
            | err e ↦ (err e, s)
            | ok none ↦
                if ltb (3 + 255 + 255) (length s.buf)
                then emit (shut s) (close auth_too_large) []
                else (ok need_data, s)
            | ok (some (user, password)) ↦ (
              ok (authorize (some user) (some password)),
              record s {
                buf = drop (userpass_size s.buf) s.buf;
                rejected = false;
                state = auth_wait;
              },
            )
          ])
      by_parse (err e) = tt
      by_parse (ok none) =
          if-IsEarly (ltb (3 + 255 + 255) (length s.buf)) _ _ (λ e. close-IsEarly (shut s) _ o)
            (λ e. h)
      by_parse (ok (some up)) = (refl, h.0, rw o refl)

  step_at-IsEarly :
      (p : Platform) (st : Phase) (s : ServerSession Ctx Pipe)
      → IsEarly s
      → before_auth st ≡ true
      → s.out ≡ []
      → IsEarlyYield (step_at p st s)
  step_at-IsEarly p greeting s h b o = greeting_step-IsEarly s h o
  step_at-IsEarly p auth s h b o = auth_step-IsEarly p s h o
  step_at-IsEarly p closed s h b o = tt
  step_at-IsEarly p _ s h b o = absurd (ground arith)

  -- An early session asks for no connection, and stays early until it asks for an authorization.
  pub next_event-IsEarly :
      (p : Platform) (s : ServerSession Ctx Pipe) → IsEarly s → IsEarlyYield (next_event p s)
  unfolding next_event step
  next_event-IsEarly p s h = by_queue s.out refl
    where
      by_queue :
          (q : List Event)
          → s.out ≡ q
          → IsEarlyYield (elim q as (λ t. Yield Ctx Pipe) [
            | e ∷ q' ↦ (ok e, record s { out = q' })
            | [] ↦ step_at p s.state s
          ])
      by_queue [] o = step_at-IsEarly p s.state s h h.1 o
      by_queue (send b ∷ q) o = (h.0, h.1, rw o at h.2)
      by_queue (need_data ∷ q) o = (h.0, h.1, rw o at h.2)
      by_queue (connect c host port ∷ q) o = ground arith
      by_queue (authorize user password ∷ q) o = absurd (ground arith)
      by_queue (relay host port ∷ q) o = ground arith
      by_queue (_ ∷ q) o = tt
