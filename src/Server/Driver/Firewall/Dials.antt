-- ===== src/Server/Driver/Firewall/Dials.antt =====
-- `_handle` of src/optisocks5/server/server.py and aio.py dials only what the connect hook lets
-- through.
use optisocks.Prelude.{ℕ, zero, suc, ◌≡◌, refl, ◌∙◌, Bool, true, some, List, Text, ok, err, arith}
use optisocks.Codec.Platform.{Platform}
use optisocks.Server.Events.{Event, send, need_data, authorize, connect, close}
use optisocks.Server.State.{ServerSession, Endpoint, init}
use optisocks.Server.Machine.{Yield, next_event}
use optisocks.Server.Machine.Targets.{IsAimed, next_event-IsAimed}
use optisocks.Server.Hooks.{Verdict, Hooks, World, Recv}
use optisocks.Server.Driver.{
  Conn, Exit, Round, goes_on, stops, on_relay, on_relay_async, on_next, cleanup, start, enough,
  loop, run, handle, handle_async,
}
use optisocks.Server.Driver.Firewall.{
  all_allowed, Guards, IsGuarded, Keeps, Relays, on_send-Keeps, reading-Keeps, on_authorize-Keeps,
  on_connect-Keeps, on_relay-Keeps, on_relay_async-Keeps,
}

module _ {Ctx Pipe : Type 0} (p : Platform) (allows : Endpoint → Bool)
    (relaying : World Pipe → Conn Ctx Pipe → Round Ctx Pipe) (hooks : Hooks Ctx Pipe)
    (w : World Pipe) (hook : ServerSession Ctx Pipe → Text → ℕ → Verdict Ctx Pipe)
    (is_hook : hooks.on_connect ≡ some hook) (k : Guards allows hook)
    (relay_keeps : Relays allows relaying w) where
  aimed-Keeps :
      (c : Conn Ctx Pipe) (y : Yield Ctx Pipe)
      → all_allowed allows c.log ≡ true
      → IsAimed y
      → Keeps allows (on_next relaying hooks w c y)
  aimed-Keeps c (err e, s) g h = g
  aimed-Keeps c (ok (send b), s) g h = on_send-Keeps allows w (record c { sess = s }) b (g, h)
  aimed-Keeps c (ok need_data, s) g h = reading-Keeps allows s c.upstream c.incoming c.log g h
  aimed-Keeps c (ok (authorize user password), s) g h =
      on_authorize-Keeps allows hooks (record c { sess = s }) user password (g, h)
  aimed-Keeps c (ok (connect cmd host port), s) g (t, n) =
      on_connect-Keeps allows hooks w hook (record c { sess = s }) host port is_hook k t (g, n)
  aimed-Keeps c (ok (Event.relay host port), s) g h = relay_keeps (record c { sess = s }) g
  aimed-Keeps c (ok (close reason), s) g h = g

  loop-allowed :
      (f : ℕ) (c : Conn Ctx Pipe)
      → IsGuarded allows c
      → all_allowed allows (loop p relaying hooks w f c).1.log ≡ true
  unfolding loop
  loop-allowed zero c h = h.0
  loop-allowed (suc f) c h =
      by_round (on_next relaying hooks w c (next_event p c.sess))
        (aimed-Keeps c (next_event p c.sess) h.0 (next_event-IsAimed p c.sess h.1))
        (λ c'. loop-allowed f c')
    where
      by_round :
          (r : Round Ctx Pipe)
          → Keeps allows r
          → ((c' : Conn Ctx Pipe)
              → IsGuarded allows c'
              → all_allowed allows (loop p relaying hooks w f c').1.log ≡ true)
          → all_allowed allows
              (elim r as (λ t. Exit × Conn Ctx Pipe) [
                | goes_on c' ↦ loop p relaying hooks w f c'
                | stops e c' ↦ (e, c')
              ]).1.log
            ≡ true
      by_round (goes_on c') h' ih = ih c' h'
      by_round (stops e c') h' ih = h'

  cleanup-allowed :
      (c : Conn Ctx Pipe) → all_allowed allows (cleanup hooks c) ≡ all_allowed allows c.log
  unfolding cleanup
  cleanup-allowed c = ground arith

  start-IsGuarded : (incoming : List Recv) → IsGuarded allows (start hooks incoming)
  unfolding start init
  start-IsGuarded incoming = (refl, refl)

  run-allowed :
      (incoming : List Recv) → all_allowed allows (run p relaying hooks w incoming).1 ≡ true
  unfolding run
  run-allowed incoming =
      cleanup-allowed (loop p relaying hooks w (enough incoming) (start hooks incoming)).1
      ∙ loop-allowed (enough incoming) (start hooks incoming) (start-IsGuarded incoming)

-- With a connect hook that leaves only allowed targets, be it by rejecting, by an exception, by
-- intercepting or by another target: whatever the client sends, the authorize hook decides and the
-- sockets, dialling and relay functions do, the threaded driver and the asyncio one dial allowed
-- upstreams only.
pub handle-allowed :
    {Ctx Pipe : Type 0} (p : Platform) (allows : Endpoint → Bool) (hooks : Hooks Ctx Pipe)
    (w : World Pipe) (hook : ServerSession Ctx Pipe → Text → ℕ → Verdict Ctx Pipe)
    (incoming : List Recv)
    → hooks.on_connect ≡ some hook
    → Guards allows hook
    → (all_allowed allows (handle p hooks w incoming).1 ≡ true)
      × (all_allowed allows (handle_async p hooks w incoming).1 ≡ true)
unfolding handle handle_async
handle-allowed p allows hooks w hook incoming is_hook k = (
  run-allowed p allows on_relay hooks w hook is_hook k (on_relay-Keeps allows w) incoming,
  run-allowed p allows on_relay_async hooks w hook is_hook k (on_relay_async-Keeps allows w)
      incoming,
)
