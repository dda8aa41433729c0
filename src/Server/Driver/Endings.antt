-- ===== src/Server/Driver/Endings.antt =====
-- The drivers' loops (`_handle` of src/optisocks5/server/server.py and aio.py) end.
use optisocks.Prelude.{
  ap, ◌∙◌, ℕ, zero, suc, ℤ, pos, ◌+◌, ◌<◌, ◌≡◌, refl, ◌≢◌, inl, inr, Bool, true, false, Option,
  List, [], ◌∷◌, Bytes, Text, Exn, Result, ok, err, arith, length, Option-cases, leb, ltb, os_error,
  timeout_error,
}
use optisocks.Codec.Platform.{Platform}
use optisocks.Core.Types.{value, not_allowed, general_failure}
use optisocks.Server.Events.{Event, send, need_data, authorize, connect, close}
use optisocks.Server.State.{ServerSession, init}
use optisocks.Server.Decisions
use optisocks.Server.Machine.{next_event}
use optisocks.Server.Machine.Weight.{weight, final, next_event-weight}
use optisocks.Server.Hooks.{Decision, Verdict, Hooks, Dial, World, Recv, apply, apply_all, dialled}
use optisocks.Server.Driver.{
  Conn, did, Round, goes_on, stops, left, escaped, exhausted, caught, caught_from, run_hook,
  on_send, on_need_data, on_authorize, dial_result, dial, hooked, on_connect, run_pipe, on_relay,
  on_relay_async, on_event, on_next, loop, start, enough, run, handle, handle_async,
}

module _ {Ctx Pipe : Type 0} where
  apply-weight :
      (s : ServerSession Ctx Pipe) (d : Decision Ctx Pipe) → weight (apply s d) ≡ weight s
  unfolding apply Decisions.ok Decisions.reject Decisions.set_target Decisions.pipe
      Decisions.relay_raw Decisions.intercept
  apply-weight s (Decision.ok ctx) = refl
  apply-weight s _ = refl

  apply_all-weight :
      (s : ServerSession Ctx Pipe) (ds : List (Decision Ctx Pipe))
      → weight (apply_all s ds) ≡ weight s
  unfolding apply_all
  apply_all-weight s [] = refl
  apply_all-weight s (d ∷ ds) = omega (arith, apply_all-weight (apply s d) ds, apply-weight s d)

  run_hook-weight :
      (s : ServerSession Ctx Pipe) (v : Verdict Ctx Pipe) (rep : ℤ)
      → weight (run_hook s v rep) ≡ weight s
  unfolding run_hook Decisions.reject
  run_hook-weight s v rep = ground (arith, apply_all-weight s v.calls)

  -- What is left to do, with the chunks that are still to come.
  abbrev pub measure : Conn Ctx Pipe → ℕ
  measure c = weight c.sess + length c.incoming

  -- A round goes on with no more than `m` left to do, or stops with an exit that is the program's.
  abbrev within : ℕ → Round Ctx Pipe → Bool
  within m (goes_on c) = leb (measure c) m
  within m (stops exhausted c) = false
  within m (stops e c) = true

  on_send-within :
      (w : World Pipe) (c : Conn Ctx Pipe) (b : Bytes) → within (measure c) (on_send w c b) ≡ true
  unfolding on_send
  on_send-within w c b = ground arith

  on_authorize-within :
      (hooks : Hooks Ctx Pipe) (c : Conn Ctx Pipe) (user password : Option Text)
      → within (measure c) (on_authorize hooks c user password) ≡ true
  unfolding on_authorize Decisions.ok
  on_authorize-within hooks c user password = elim (Option-cases hooks.authorize) [
    | inl e ↦ ground arith
    | inr (hook, e) ↦
        ground (arith, run_hook-weight c.sess (hook c.sess user password) (pos (value not_allowed)))
  ]

  dial_result-within : (c : Conn Ctx Pipe) (r : Dial) → within (measure c) (dial_result c r) ≡ true
  unfolding dial_result caught Decisions.connected Decisions.connect_failed
  dial_result-within c (Dial.opened host port) = ground arith
  dial_result-within c (Dial.raises os_error) = refl
  dial_result-within c (Dial.raises timeout_error) = refl
  dial_result-within c (Dial.raises _) = refl
  dial_result-within c _ = ground arith

  dial-within : (w : World Pipe) (c : Conn Ctx Pipe) → within (measure c) (dial w c) ≡ true
  unfolding dial
  dial-within w c = elim (Option-cases c.sess.target) [
    | inl e ↦ ground arith
    | inr (to, e) ↦
        ground (arith, dial_result-within (did c (dialled to (w.dial c.log to))) (w.dial c.log to))
  ]

  hooked-weight :
      (hooks : Hooks Ctx Pipe) (c : Conn Ctx Pipe) (host : Text) (port : ℕ)
      → weight (hooked hooks c host port) ≡ weight c.sess
  hooked-weight hooks c host port = elim (Option-cases hooks.on_connect) [
    | inl e ↦ ground arith
    | inr (hook, e) ↦
        ground (arith, run_hook-weight c.sess (hook c.sess host port) (pos (value general_failure)))
  ]

  on_connect-within :
      (hooks : Hooks Ctx Pipe) (w : World Pipe) (c : Conn Ctx Pipe) (host : Text) (port : ℕ)
      → within (measure c) (on_connect hooks w c host port) ≡ true
  unfolding on_connect Decisions.connected
  on_connect-within hooks w c host port = ground (
    arith,
    hooked-weight hooks c host port,
    dial-within w (record c { sess = hooked hooks c host port }),
  )

  -- The branch for `Relay` never goes on.
  abbrev ends : Round Ctx Pipe → Bool
  ends (goes_on c) = false
  ends (stops exhausted c) = false
  ends (stops e c) = true

  run_pipe-ends :
      (streams : Bool) (w : World Pipe) (c : Conn Ctx Pipe) (fn : Pipe)
      → ends (run_pipe streams w c fn) ≡ true
  unfolding run_pipe caught_from caught
  run_pipe-ends streams w c fn = ground arith

  pub on_relay-ends : (w : World Pipe) (c : Conn Ctx Pipe) → ends (on_relay w c) ≡ true
  unfolding on_relay
  on_relay-ends w c = elim (Option-cases c.sess.custom_pipe) [
    | inl e ↦ ground arith
    | inr (fn, e) ↦ ground (arith, run_pipe-ends false w c fn)
  ]

  pub on_relay_async-ends : (w : World Pipe) (c : Conn Ctx Pipe) → ends (on_relay_async w c) ≡ true
  unfolding on_relay_async
  on_relay_async-ends w c = elim (Option-cases c.sess.custom_pipe) [
    | inl e ↦ ground arith
    | inr (fn, e) ↦ ground (arith, run_pipe-ends true w c fn)
  ]

  abbrev less : ℕ → Round Ctx Pipe → Bool
  less m (goes_on c) = ltb (measure c) m
  less m (stops exhausted c) = false
  less m (stops e c) = true

  less-within : (m n : ℕ) (r : Round Ctx Pipe) → within m r ≡ true → m < n → less n r ≡ true
  less-within m n (goes_on c) h l = ground arith
  less-within m n (stops exhausted c) h l = h
  less-within m n (stops _ c) h l = refl

  less-ends : (n : ℕ) (r : Round Ctx Pipe) → ends r ≡ true → less n r ≡ true
  less-ends n (goes_on c) h = cc
  less-ends n (stops exhausted c) h = h
  less-ends n (stops _ c) h = refl

  on_need_data-less : (c : Conn Ctx Pipe) → less (measure c) (on_need_data c) ≡ true
  unfolding on_need_data Decisions.receive
  on_need_data-less c = ground arith

  smaller :
      (f : ℕ) (c c' : Conn Ctx Pipe) (r : Round Ctx Pipe)
      → measure c < suc f
      → r ≡ goes_on c'
      → less (measure c) r ≡ true
      → measure c' < f
  smaller f c c' r h e l = ground arith

module _ {Ctx Pipe : Type 0} (p : Platform) (relaying : World Pipe → Conn Ctx Pipe → Round Ctx Pipe)
    (hooks : Hooks Ctx Pipe) (w : World Pipe)
    (relay_ends : (c : Conn Ctx Pipe) → ends (relaying w c) ≡ true) where
  on_event-less :
      (c : Conn Ctx Pipe) (e : Event) (n : ℕ)
      → measure c < n
      → less n (on_event relaying hooks w c e) ≡ true
  on_event-less c (send b) n h = less-within (measure c) n (on_send w c b) (on_send-within w c b) h
  on_event-less c need_data n h = ground (arith, on_need_data-less c)
  on_event-less c (authorize user password) n h =
      less-within (measure c) n (on_authorize hooks c user password)
        (on_authorize-within hooks c user password) h
  on_event-less c (connect cmd host port) n h =
      less-within (measure c) n (on_connect hooks w c host port)
        (on_connect-within hooks w c host port) h
  on_event-less c (Event.relay host port) n h = less-ends n (relaying w c) (relay_ends c)
  on_event-less c (close reason) n h = refl

  caught-less : (n : ℕ) (e : Exn) (c : Conn Ctx Pipe) → less n (stops (caught e) c) ≡ true
  unfolding caught
  caught-less n os_error c = refl
  caught-less n timeout_error c = refl
  caught-less n _ c = refl

  final-less :
      (c : Conn Ctx Pipe) (r : Result Event) (s : ServerSession Ctx Pipe) (n : ℕ)
      → final r ≡ true
      → less n (on_next relaying hooks w c (r, s)) ≡ true
  final-less c (err e) s n f = caught-less n e (record c { sess = s })
  final-less c (ok (close reason)) s n f = refl
  final-less c (ok (send b)) s n f = cc
  final-less c (ok _) s n f = cc

  moved-less :
      (c : Conn Ctx Pipe) (r : Result Event) (s : ServerSession Ctx Pipe)
      → weight s < weight c.sess
      → less (measure c) (on_next relaying hooks w c (r, s)) ≡ true
  moved-less c (err e) s l = caught-less (measure c) e (record c { sess = s })
  moved-less c (ok e) s l = on_event-less (record c { sess = s }) e (measure c) (omega arith)

  -- Each round leaves strictly less to do, or stops.
  round-less :
      (c : Conn Ctx Pipe)
      → less (measure c) (on_next relaying hooks w c (next_event p c.sess)) ≡ true
  round-less c = elim (next_event-weight p c.sess) [
    | inl asks ↦
        ap (λ y. less (measure c) (on_next relaying hooks w c y)) asks ∙ on_need_data-less c
    | inr (inl moved) ↦ moved-less c (next_event p c.sess).0 (next_event p c.sess).1 moved
    | inr (inr stop) ↦ final-less c (next_event p c.sess).0 (next_event p c.sess).1 (measure c) stop
  ]

  at_round :
      (f : ℕ) (c : Conn Ctx Pipe) (r : Round Ctx Pipe)
      → on_next relaying hooks w c (next_event p c.sess) ≡ r
      → ((c' : Conn Ctx Pipe) → r ≡ goes_on c' → (loop p relaying hooks w f c').0 ≢ exhausted)
      → less (measure c) r ≡ true
      → (loop p relaying hooks w (suc f) c).0 ≢ exhausted
  unfolding loop
  at_round f c (goes_on c') e ih l = rw (loop, e) (ih c' refl)
  at_round f c (stops exhausted c') e ih l = cc
  at_round f c (stops left c') e ih l = rw (loop, e) (λ x. cc)
  at_round f c (stops (escaped x) c') e ih l = rw (loop, e) (λ x. cc)

  loop-ne-exhausted :
      (f : ℕ) (c : Conn Ctx Pipe) → measure c < f → (loop p relaying hooks w f c).0 ≢ exhausted
  loop-ne-exhausted zero c h = absurd (omega arith)
  loop-ne-exhausted (suc f) c h =
      at_round f c (on_next relaying hooks w c (next_event p c.sess)) refl
        (λ c' e. loop-ne-exhausted f c' (smaller f c c' _ h e (round-less c))) (round-less c)

  run-ne-exhausted : (incoming : List Recv) → (run p relaying hooks w incoming).0 ≢ exhausted
  unfolding run start init
  run-ne-exhausted incoming =
      loop-ne-exhausted (enough incoming) (start hooks incoming) (omega arith)

module _ {Ctx Pipe : Type 0} (p : Platform) (hooks : Hooks Ctx Pipe) (w : World Pipe) where
  -- The threaded driver's loop ends on every input, whatever the hooks decide and the world answers:
  -- it leaves the connection, or an exception escapes.
  pub handle-ne-exhausted : (incoming : List Recv) → (handle p hooks w incoming).0 ≢ exhausted
  unfolding handle
  handle-ne-exhausted incoming = run-ne-exhausted p on_relay hooks w (on_relay-ends w) incoming

  -- The asyncio driver's loop ends on every input, whatever the hooks decide and the world answers: it
  -- leaves the connection, or an exception escapes.
  pub handle_async-ne-exhausted :
      (incoming : List Recv) → (handle_async p hooks w incoming).0 ≢ exhausted
  unfolding handle_async
  handle_async-ne-exhausted incoming =
      run-ne-exhausted p on_relay_async hooks w (on_relay_async-ends w) incoming
