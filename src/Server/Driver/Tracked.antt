-- ===== src/Server/Driver/Tracked.antt =====
-- What the log of a driver's loop (`_handle` of src/optisocks5/server/server.py and aio.py) has of the
-- cleanup, and whether there is an upstream.
use optisocks.Prelude.{
  ℕ, zero, suc, ℤ, ◌≡◌, refl, Bool, true, false, Option, none, some, List, [], ◌∷◌, Bytes, Text, ok,
  err, arith, if◌then◌else◌,
}
use optisocks.Codec.Platform.{Platform}
use optisocks.Server.Events.{Event, send, need_data, authorize, connect, close}
use optisocks.Server.Machine.{Yield, next_event}
use optisocks.Server.Hooks.{
  Hooks, Dial, Action, World, dialled, disconnect_hook, closed_downstream, closed_upstream,
}
use optisocks.Server.Driver.{
  Conn, Exit, Round, goes_on, stops, did, on_send, on_need_data, on_authorize, dial_result, dial,
  hooked, on_connect, run_pipe, on_relay, on_relay_async, on_event, on_next, loop,
}

module _ {Pipe : Type 0} where
  -- How often the log has each of the three actions of the cleanup.
  abbrev pub downstream_closings : List (Action Pipe) → ℕ
  downstream_closings [] = 0
  downstream_closings (closed_downstream ∷ log) = suc (downstream_closings log)
  downstream_closings (_ ∷ log) = downstream_closings log

  abbrev pub upstream_closings : List (Action Pipe) → ℕ
  upstream_closings [] = 0
  upstream_closings (closed_upstream ∷ log) = suc (upstream_closings log)
  upstream_closings (_ ∷ log) = upstream_closings log

  abbrev pub disconnect_hooks : List (Action Pipe) → ℕ
  disconnect_hooks [] = 0
  disconnect_hooks (disconnect_hook ∷ log) = suc (disconnect_hooks log)
  disconnect_hooks (_ ∷ log) = disconnect_hooks log

  -- Whether the latest dial gave a connection.
  abbrev pub has_upstream : List (Action Pipe) → Bool
  has_upstream [] = false
  has_upstream (dialled to (Dial.opened host port) ∷ log) = true
  has_upstream (dialled to (Dial.raises e) ∷ log) = has_upstream log
  has_upstream (dialled to _ ∷ log) = false
  has_upstream (_ ∷ log) = has_upstream log

module _ {Ctx Pipe : Type 0} where
  -- Nothing is cleaned up yet, and the local variable `upstream` is what the dials gave.
  abbrev pub IsTracked : Conn Ctx Pipe → Type 0
  IsTracked c =
      (downstream_closings c.log ≡ 0)
      × (upstream_closings c.log ≡ 0)
      × (disconnect_hooks c.log ≡ 0)
      × (c.upstream ≡ has_upstream c.log)

  abbrev pub Keeps : Round Ctx Pipe → Type 0
  Keeps (goes_on c) = IsTracked c
  Keeps (stops e c) = IsTracked c

  if-Keeps : (b : Bool) (x y : Round Ctx Pipe) → Keeps x → Keeps y → Keeps (if b then x else y)
  if-Keeps true x y h k = h
  if-Keeps false x y h k = k

  option-Keeps :
      {A : Type 0} (o : Option A) (x : Round Ctx Pipe) (f : A → Round Ctx Pipe)
      → Keeps x
      → ((a : A) → Keeps (f a))
      → Keeps (elim o as (λ t. Round Ctx Pipe) [ none ↦ x | some a ↦ f a ])
  option-Keeps none x f h k = h
  option-Keeps (some a) x f h k = k a

  on_send-Keeps :
      (w : World Pipe) (c : Conn Ctx Pipe) (b : Bytes) → IsTracked c → Keeps (on_send w c b)
  unfolding on_send
  on_send-Keeps w c b h = if-Keeps (w.send_works c.log) _ _ h h

  on_need_data-Keeps : (c : Conn Ctx Pipe) → IsTracked c → Keeps (on_need_data c)
  unfolding on_need_data
  on_need_data-Keeps c h = ground arith

  on_authorize-Keeps :
      (hooks : Hooks Ctx Pipe) (c : Conn Ctx Pipe) (user password : Option Text)
      → IsTracked c
      → Keeps (on_authorize hooks c user password)
  unfolding on_authorize
  on_authorize-Keeps hooks c user password h = option-Keeps hooks.authorize _ _ h (λ hook. h)

  dial_result-Keeps :
      (c : Conn Ctx Pipe) (to : Text × ℤ) (r : Dial)
      → IsTracked c
      → Keeps (dial_result (did c (dialled to r)) r)
  unfolding dial_result
  dial_result-Keeps c to (Dial.opened host port) (d, u, k, o) = (d, u, k, refl)
  dial_result-Keeps c to (Dial.raises e) h = h
  dial_result-Keeps c to _ (d, u, k, o) = (d, u, k, refl)

  dial-Keeps : (w : World Pipe) (c : Conn Ctx Pipe) → IsTracked c → Keeps (dial w c)
  unfolding dial
  dial-Keeps w c h =
      option-Keeps c.sess.target _ _ h (λ to. dial_result-Keeps c to (w.dial c.log to) h)

  on_connect-Keeps :
      (hooks : Hooks Ctx Pipe) (w : World Pipe) (c : Conn Ctx Pipe) (host : Text) (port : ℕ)
      → IsTracked c
      → Keeps (on_connect hooks w c host port)
  unfolding on_connect
  on_connect-Keeps hooks w c host port h =
      let s = hooked hooks c host port in
      if-Keeps s.rejected _ _ h
        (if-Keeps s.intercepted _ _ h (dial-Keeps w (record c { sess = s }) h))

  run_pipe-Keeps :
      (streams : Bool) (w : World Pipe) (c : Conn Ctx Pipe) (fn : Pipe)
      → IsTracked c
      → Keeps (run_pipe streams w c fn)
  unfolding run_pipe
  run_pipe-Keeps streams w c fn h = option-Keeps (w.pipe_raises c.log fn) _ _ h (λ e. h)

  pub on_relay-Keeps : (w : World Pipe) (c : Conn Ctx Pipe) → IsTracked c → Keeps (on_relay w c)
  unfolding on_relay
  on_relay-Keeps w c h =
      option-Keeps c.sess.custom_pipe _ _ (if-Keeps c.upstream _ _ h h)
        (λ fn. run_pipe-Keeps false w c fn h)

  pub on_relay_async-Keeps :
      (w : World Pipe) (c : Conn Ctx Pipe) → IsTracked c → Keeps (on_relay_async w c)
  unfolding on_relay_async
  on_relay_async-Keeps w c h =
      option-Keeps c.sess.custom_pipe _ _ (if-Keeps c.upstream _ _ h h)
        (λ fn. run_pipe-Keeps true w c fn h)

module _ {Ctx Pipe : Type 0} (p : Platform) (relaying : World Pipe → Conn Ctx Pipe → Round Ctx Pipe)
    (hooks : Hooks Ctx Pipe) (w : World Pipe)
    (relay_keeps : (c : Conn Ctx Pipe) → IsTracked c → Keeps (relaying w c)) where
  on_event-Keeps :
      (c : Conn Ctx Pipe) (e : Event) → IsTracked c → Keeps (on_event relaying hooks w c e)
  on_event-Keeps c (send b) h = on_send-Keeps w c b h
  on_event-Keeps c need_data h = on_need_data-Keeps c h
  on_event-Keeps c (authorize user password) h = on_authorize-Keeps hooks c user password h
  on_event-Keeps c (connect cmd host port) h = on_connect-Keeps hooks w c host port h
  on_event-Keeps c (Event.relay host port) h = relay_keeps c h
  on_event-Keeps c (close reason) h = h

  on_next-Keeps :
      (c : Conn Ctx Pipe) (y : Yield Ctx Pipe) → IsTracked c → Keeps (on_next relaying hooks w c y)
  on_next-Keeps c (err e, s) h = h
  on_next-Keeps c (ok e, s) h = on_event-Keeps (record c { sess = s }) e h

  pub loop-IsTracked :
      (f : ℕ) (c : Conn Ctx Pipe) → IsTracked c → IsTracked (loop p relaying hooks w f c).1
  unfolding loop
  loop-IsTracked zero c h = h
  loop-IsTracked (suc f) c h =
      by_round (on_next relaying hooks w c (next_event p c.sess))
        (on_next-Keeps c (next_event p c.sess) h) (λ c'. loop-IsTracked f c')
    where
      by_round :
          (r : Round Ctx Pipe)
          → Keeps r
          → ((c' : Conn Ctx Pipe) → IsTracked c' → IsTracked (loop p relaying hooks w f c').1)
          → IsTracked
              (elim r as (λ t. Exit × Conn Ctx Pipe) [
                | goes_on c' ↦ loop p relaying hooks w f c'
                | stops e c' ↦ (e, c')
              ]).1
      by_round (goes_on c') k ih = ih c' k
      by_round (stops e c') k ih = k
