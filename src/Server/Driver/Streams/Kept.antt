-- ===== src/Server/Driver/Streams/Kept.antt =====
-- The turns of the drivers in src/optisocks5/server/server.py and aio.py that read nothing: the
-- stream and the session's queue and buffer.
use optisocks.Prelude.{
  ℕ, ℤ, pos, ◌≡◌, sym, ap, subst, ◌∙◌, Bool, true, false, Option, none, some, List, Text, IsByte,
  All, if◌then◌else◌,
}
use optisocks.Core.Types.{value, general_failure}
use optisocks.Server.Events.{Event, send, need_data, authorize, connect, relay, close}
use optisocks.Server.State.{ServerSession}
use optisocks.Server.Decisions
use optisocks.Server.Machine.Cuts.{IsTidy, no_need}
use optisocks.Server.Hooks.{Verdict, Hooks, Dial, World, Recv, dialled}
use optisocks.Server.Driver.{
  Conn, Round, goes_on, stops, did, run_hook, on_send, on_authorize, dial_result, dial, hooked,
  on_connect, run_pipe, on_relay, on_relay_async, on_event,
}
use optisocks.Server.Driver.Admission.{run_hook-IsUnmoved}
use optisocks.Server.Driver.Streams.Shifted.{IsOther}

module _ {Ctx Pipe : Type 0} (i : List Recv) where
  abbrev pub IsKept : Round Ctx Pipe → Type 0
  IsKept (goes_on c) = (c.incoming ≡ i) × IsTidy c.sess
  IsKept (stops e c) = c.incoming ≡ i

  if-IsKept : (b : Bool) (x y : Round Ctx Pipe) → IsKept x → IsKept y → IsKept (if b then x else y)
  if-IsKept true x y h k = h
  if-IsKept false x y h k = k

  option-IsKept :
      {A : Type 0} (o : Option A) (x : Round Ctx Pipe) (f : A → Round Ctx Pipe)
      → IsKept x
      → ((a : A) → IsKept (f a))
      → IsKept (elim o as (λ t. Round Ctx Pipe) [ none ↦ x | some a ↦ f a ])
  option-IsKept none x f h k = h
  option-IsKept (some a) x f h k = k a

  hook-IsTidy :
      (s : ServerSession Ctx Pipe) (v : Verdict Ctx Pipe) (rep : ℤ)
      → IsTidy s
      → IsTidy (run_hook s v rep)
  hook-IsTidy s v rep (n, d) =
      let u = run_hook-IsUnmoved s v rep in (ap no_need u.out ∙ n, subst (All IsByte) (sym u.buf) d)

  hooked-IsTidy :
      (hooks : Hooks Ctx Pipe) (c : Conn Ctx Pipe) (host : Text) (port : ℕ)
      → IsTidy c.sess
      → IsTidy (hooked hooks c host port)
  hooked-IsTidy hooks c host port t = by_hook hooks.on_connect
    where
      by_hook :
          (o : Option (ServerSession Ctx Pipe → Text → ℕ → Verdict Ctx Pipe))
          → IsTidy (elim o as (λ t. ServerSession Ctx Pipe) [
            | none ↦ c.sess
            | some hook ↦ run_hook c.sess (hook c.sess host port) (pos (value general_failure))
          ])
      by_hook none = t
      by_hook (some hook) = hook-IsTidy c.sess _ _ t

  dial_result-IsKept :
      (c : Conn Ctx Pipe) (r : Dial) → c.incoming ≡ i → IsTidy c.sess → IsKept (dial_result c r)
  unfolding dial_result Decisions.connected Decisions.connect_failed
  dial_result-IsKept c (Dial.raises e) h t = h
  dial_result-IsKept c _ h t = (h, t)

  on_connect-IsKept :
      (hooks : Hooks Ctx Pipe) (w : World Pipe) (c : Conn Ctx Pipe) (host : Text) (port : ℕ)
      → c.incoming ≡ i
      → IsTidy c.sess
      → IsKept (on_connect hooks w c host port)
  unfolding on_connect dial Decisions.connected
  on_connect-IsKept hooks w c host port h t =
      let s = hooked hooks c host port in
      let t' = hooked-IsTidy hooks c host port t in
      if-IsKept s.rejected _ _ (h, t')
        (if-IsKept s.intercepted _ _ (h, t')
          (option-IsKept s.target _ _ h (λ to.
            dial_result-IsKept (did (record c { sess = s }) (dialled to (w.dial c.log to)))
              (w.dial c.log to) h t')))

  run_pipe-IsKept :
      (streams : Bool) (w : World Pipe) (c : Conn Ctx Pipe) (fn : Pipe)
      → c.incoming ≡ i
      → IsKept (run_pipe streams w c fn)
  unfolding run_pipe
  run_pipe-IsKept streams w c fn h = option-IsKept (w.pipe_raises c.log fn) _ _ h (λ e. h)

  -- The branch for `Relay` reads nothing into the session.
  abbrev pub Leaves : (World Pipe → Conn Ctx Pipe → Round Ctx Pipe) → World Pipe → Type 0
  Leaves relaying w = (c : Conn Ctx Pipe) → c.incoming ≡ i → IsKept (relaying w c)

  pub on_relay-IsKept : (w : World Pipe) → Leaves on_relay w
  unfolding on_relay
  on_relay-IsKept w c h =
      option-IsKept c.sess.custom_pipe _ _ (if-IsKept c.upstream _ _ h h)
        (λ fn. run_pipe-IsKept false w c fn h)

  pub on_relay_async-IsKept : (w : World Pipe) → Leaves on_relay_async w
  unfolding on_relay_async
  on_relay_async-IsKept w c h =
      option-IsKept c.sess.custom_pipe _ _ (if-IsKept c.upstream _ _ h h)
        (λ fn. run_pipe-IsKept true w c fn h)

  pub on_event-IsKept :
      (relaying : World Pipe → Conn Ctx Pipe → Round Ctx Pipe) (hooks : Hooks Ctx Pipe)
      (w : World Pipe) (c : Conn Ctx Pipe) (e : Event)
      → Leaves relaying w
      → c.incoming ≡ i
      → IsTidy c.sess
      → IsOther e
      → IsKept (on_event relaying hooks w c e)
  unfolding on_send on_authorize Decisions.ok
  on_event-IsKept relaying hooks w c (send b) r h t o = if-IsKept (w.send_works c.log) _ _ (h, t) h
  on_event-IsKept relaying hooks w c need_data r h t o = absurd o
  on_event-IsKept relaying hooks w c (authorize user password) r h t o =
      option-IsKept hooks.authorize _ _ (h, t) (λ hook. (h, hook-IsTidy c.sess _ _ t))
  on_event-IsKept relaying hooks w c (connect cmd host port) r h t o =
      on_connect-IsKept hooks w c host port h t
  on_event-IsKept relaying hooks w c (relay host port) r h t o = r c h
  on_event-IsKept relaying hooks w c (close reason) r h t o = h
