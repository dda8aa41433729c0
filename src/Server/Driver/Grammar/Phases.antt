-- ===== src/Server/Driver/Grammar/Phases.antt =====
-- `next_event` of src/optisocks5/server/session.py, by the rule of Server/Driver/Grammar.antt.
use optisocks.Prelude.{
  ◌+◌, ℕ, ℤ, pos, ◌≡◌, refl, ap, ◌∙◌, inl, inr, ◌⊎◌, true, false, Option, none, some, List, [], ◌∷◌,
  Bytes, Text, Result, ok, err, not, if◌then◌else◌, ltb, leb, length, drop, take, get_or, ◌==◌,
}
use optisocks.Codec.Platform.{Platform}
use optisocks.Codec.Binding
use optisocks.Codec.Messages.{parse_greeting}
use optisocks.Core.Types
use optisocks.Core.Types.{value, succeeded, no_auth, userpass, no_acceptable}
use optisocks.Server.Events.{Event, CloseReason, send, need_data, authorize, connect, close}
use optisocks.Server.State.{
  ServerSession, Phase, Endpoint, greeting, auth, auth_wait, request, connect_wait, relay, closed,
}
use optisocks.Server.Machine.{
  Yield, next_event, step, step_at, greeting_step, auth_step, auth_wait_step, choose_method, emit,
  shut, request_step, request_len, request_arrived, on_parsed, open_request, connect_wait_step,
  any_host, with_bound, refuse, wrong_version, mem, userpass_size,
}
use optisocks.Server.Driver.Grammar.{
  Talk, silent, challenged, judged, granted, dialling, opened, over, message, ended_by, judgement,
  replied, truly, relayed,
}
use optisocks.Server.Driver.Grammar.Steps.{
  is_success, Waits, Stands, Fits, QueueFits, Next, selected_open, selected_auth, selected_none,
  judged_good, judged_bad, replied_code, if-Next, then-Next, else-Next, option-Next, emit-Next,
  close-Next,
}

module _ {Ctx Pipe : Type 0} where
  choose_method-Next :
      (s : ServerSession Ctx Pipe) (ms : Bytes) → s.out ≡ [] → Next silent (choose_method s ms)
  unfolding choose_method
  choose_method-Next s ms o =
      if-Next silent (not s.require_auth) _ _
        (emit-Next silent (record s { state = request }) _ [] granted o selected_open tt refl)
        (if-Next silent (mem userpass ms) _ _
          (emit-Next silent (record s { state = auth }) _ [] challenged o selected_auth tt refl)
          (emit-Next silent (shut s) _ _ over o selected_none tt tt))

  greeting_step-Next :
      (s : ServerSession Ctx Pipe) → s.out ≡ [] → s.state ≡ greeting → Next silent (greeting_step s)
  unfolding greeting_step
  greeting_step-Next s o st =
      if-Next silent (wrong_version s.buf) _ _ (close-Next silent (shut s) _ o) (
        option-Next silent (parse_greeting s.buf) _ _
          (if-Next silent (ltb (2 + 255) (length s.buf)) _ _ (close-Next silent (shut s) _ o)
            (rw (o, st) (tt, refl)))
          (λ ms. choose_method-Next (record s { buf = drop (2 + get_or s.buf 1 0) s.buf }) ms o))

  auth_step-Next :
      (p : Platform) (s : ServerSession Ctx Pipe)
      → s.out ≡ []
      → s.state ≡ auth
      → Next challenged (auth_step p s)
  unfolding auth_step
  auth_step-Next p s o st = by_parse (Binding.parse_userpass p s.buf)
    where
      by_parse :
          (r : Result (Option (Text × Text)))
          → Next challenged (elim r as (λ t. Yield Ctx Pipe) [
            | err e ↦ (err e, s)
            | ok none ↦
                if ltb (3 + 255 + 255) (length s.buf)
                then emit (shut s) (close CloseReason.auth_too_large) []
                else (ok need_data, s)
            | ok (some (user, password)) ↦ (
              ok (authorize (some user) (some password)),
              record s {
                buf = drop (userpass_size s.buf) s.buf;
                rejected = false;
                state = auth_wait;
              },
            )
          ])
      by_parse (err e) = tt
      by_parse (ok none) =
          if-Next challenged (ltb (3 + 255 + 255) (length s.buf)) _ _
            (close-Next challenged (shut s) _ o) (rw (o, st) (tt, refl))
      by_parse (ok (some up)) = (refl, refl, o)

  auth_wait_step-Next :
      (t : Talk) (s : ServerSession Ctx Pipe)
      → s.out ≡ []
      → (t ≡ challenged) ⊎ (t ≡ judged)
      → Next t (auth_wait_step s)
  unfolding auth_wait_step
  auth_wait_step-Next t s o h =
      if-Next t s.rejected _ _
        (emit-Next t (shut s) _ _ over o (λ b e. hears t b h ∙ judged_bad b e) tt tt)
        (emit-Next t (record s { state = request }) _ [] granted o
          (λ b e. hears t b h ∙ judged_good b e) tt refl)
    where
      hears : (t : Talk) (b : Bytes) → (t ≡ challenged) ⊎ (t ≡ judged) → message t b ≡ judgement b
      hears t b (inl e) = rw e refl
      hears t b (inr e) = rw e refl

  -- An error reply.
  refuse-Next :
      (p : Platform) (t : Talk) (s : ServerSession Ctx Pipe) (rep : ℤ) (r : CloseReason)
      → s.out ≡ []
      → ((b : Bytes)
          → replied b ≡ some (ended_by (is_success rep))
          → message t b ≡ some (ended_by (is_success rep)))
      → Next t (refuse p s rep (close r))
  refuse-Next p t s rep r o hears =
      emit-Next t (shut s) _ _ (ended_by (is_success rep)) o
        (λ b e. hears b (replied_code p rep any_host (pos 0) b e)) tt tt

  on_parsed-Next :
      (p : Platform) (s : ServerSession Ctx Pipe) (rest : Bytes)
      (r : Result (Option (ℕ × Text × ℕ)))
      → s.out ≡ []
      → Next granted (on_parsed p s rest r)
  unfolding on_parsed open_request
  on_parsed-Next p s rest (err e) o = tt
  on_parsed-Next p s rest (ok none) o = refuse-Next p granted s _ _ o (λ b h. h)
  on_parsed-Next p s rest (ok (some (cmd, host, port))) o =
      if-Next granted (not (cmd == Types.connect)) _ _
        (refuse-Next p granted (record s { buf = rest; cmd = cmd }) _ _ o (λ b h. h))
        (refl, refl, o, refl)

  request_step-Next :
      (p : Platform) (s : ServerSession Ctx Pipe)
      → s.out ≡ []
      → s.state ≡ request
      → Next granted (request_step p s)
  unfolding request_step request_arrived
  request_step-Next p s o st =
      let waits : Next granted (ok need_data, s) = rw (o, st) (tt, refl) in
      option-Next granted (request_len s.buf) _ _
        (if-Next granted (leb 5 (length s.buf)) _ _ (refuse-Next p granted s _ _ o (λ b h. h))
          waits)
        (λ n.
          if-Next granted (ltb (length s.buf) n) _ _
            (if-Next granted (ltb (4 + 1 + 255 + 2) (length s.buf)) _ _
              (close-Next granted (shut s) _ o) waits)
            (on_parsed-Next p s (drop n s.buf) (Binding.parse_request p (take n s.buf)) o))

  with_bound-Next :
      (p : Platform) (t : Talk) (s : ServerSession Ctx Pipe) (bnd : Option Endpoint)
      → s.out ≡ []
      → ((b : Bytes) → replied b ≡ some opened → message t b ≡ some opened)
      → Next t (with_bound p s bnd)
  with_bound-Next p t s none o hears = tt
  with_bound-Next p t s (some (host, port)) o hears =
      emit-Next t (record s { state = relay }) _ _ opened o
        (λ b e. hears b (replied_code p (pos (value succeeded)) host port b e)) (refl, tt) tt

  connect_wait_step-Next :
      (p : Platform) (t : Talk) (s : ServerSession Ctx Pipe)
      → s.out ≡ []
      → Waits t s
      → Next t (connect_wait_step p s)
  unfolding connect_wait_step
  connect_wait_step-Next p granted s o h = if-Next granted s.raw _ _ refl (
      if-Next granted s.rejected _ _ (refuse-Next p granted s _ _ o (λ b e. e)) (
        if-Next granted s.failed _ _ (refuse-Next p granted s _ _ o (λ b e. e))
          (with_bound-Next p granted s s.connected_bnd o (λ b e. e))))
  connect_wait_step-Next p (dialling true) s o (r, f) = if-Next (dialling true) s.raw _ _ refl (
      else-Next (dialling true) s.rejected _ _ r (
        else-Next (dialling true) s.failed _ _ f
          (with_bound-Next p (dialling true) s s.connected_bnd o (λ b e. ap (truly true) e))))
  connect_wait_step-Next p (dialling false) s o (r, f, n) =
      if-Next (dialling false) s.raw _ _ refl (
        else-Next (dialling false) s.rejected _ _ r (
          then-Next (dialling false) s.failed _ _ f
            (refuse-Next p (dialling false) s s.rep _ o (λ b e. told b e))))
    where
      told :
          (b : Bytes)
          → replied b ≡ some (ended_by (is_success s.rep))
          → truly false (replied b) ≡ some (ended_by (is_success s.rep))
      told b e = let e' : replied b ≡ some over = rw n at e in rw n (ap (truly false) e')
  connect_wait_step-Next p silent s o h = absurd h
  connect_wait_step-Next p challenged s o h = absurd h
  connect_wait_step-Next p judged s o h = absurd h
  connect_wait_step-Next p opened s o h = absurd h
  connect_wait_step-Next p relayed s o h = absurd h
  connect_wait_step-Next p over s o h = absurd h

  step_at-Next :
      (p : Platform) (t : Talk) (s : ServerSession Ctx Pipe) (st : Phase)
      → s.out ≡ []
      → s.state ≡ st
      → Stands st t s
      → Next t (step_at p st s)
  step_at-Next p t s greeting o e h = rw h (greeting_step-Next s o e)
  step_at-Next p t s auth o e h = rw h (auth_step-Next p s o e)
  step_at-Next p t s auth_wait o e h = auth_wait_step-Next t s o h
  step_at-Next p t s request o e h = rw h (request_step-Next p s o e)
  step_at-Next p t s connect_wait o e h = connect_wait_step-Next p t s o h
  step_at-Next p t s relay o e h = tt
  step_at-Next p t s closed o e h = tt

  pub next_event-Next :
      (p : Platform) (t : Talk) (s : ServerSession Ctx Pipe) → Fits t s → Next t (next_event p s)
  unfolding next_event step
  next_event-Next p t s (f, h) = by_queue s.out refl
    where
      by_queue :
          (q : List Event)
          → s.out ≡ q
          → Next t (elim q as (λ t. Yield Ctx Pipe) [
            | e ∷ q' ↦ (ok e, record s { out = q' })
            | [] ↦ step_at p s.state s
          ])
      by_queue [] o = step_at-Next p t s s.state o refl h
      by_queue (send b ∷ q) o = absurd (rw o at f)
      by_queue (need_data ∷ q) o = absurd (rw o at f)
      by_queue (connect c host port ∷ q) o = absurd (rw o at f)
      by_queue (authorize user password ∷ q) o = absurd (rw o at f)
      by_queue (Event.relay host port ∷ q) o =
          let x : QueueFits t (Event.relay host port ∷ q) = rw o at f in x.0
      by_queue (close reason ∷ q) o = tt
