-- ===== src/Server/Driver/Grammar/Runs.antt =====
-- `_handle` of src/optisocks5/server/server.py and aio.py, by the rule of Server/Driver/Grammar.antt.
use optisocks.Prelude.{◌≢◌, refl, subst, List, arith}
use optisocks.Codec.Platform.{Platform}
use optisocks.Server.State.{init}
use optisocks.Server.Machine.{next_event}
use optisocks.Server.Hooks.{Hooks, World, Recv}
use optisocks.Server.Driver.{
  Conn, Exit, Round, exhausted, on_relay, on_relay_async, cleanup, start, enough, run, handle,
  handle_async,
}
use optisocks.Server.Driver.Endings.{handle-ne-exhausted, handle_async-ne-exhausted}
use optisocks.Server.Driver.Streams.Joined.{Ends, stop, go, loop-Ends}
use optisocks.Server.Driver.Grammar.{silent}
use optisocks.Server.Driver.Grammar.Phases.{next_event-Next}
use optisocks.Server.Driver.Grammar.Turns.{IsSaid, Talks, Keeps}
use optisocks.Server.Driver.Grammar.Dials.{
  Relays, on_next-Keeps, on_relay-Keeps, on_relay_async-Keeps,
}

module _ {Ctx Pipe : Type 0} (p : Platform) (hooks : Hooks Ctx Pipe) (w : World Pipe) where
  cleanup-IsSaid : (c : Conn Ctx Pipe) → IsSaid c.log → IsSaid (cleanup hooks c)
  unfolding cleanup
  cleanup-IsSaid c (t, h) = (t, ground arith)

  start-Talks : (incoming : List Recv) → Talks (start hooks incoming)
  unfolding start init
  start-Talks incoming = (silent, refl, (tt, refl))

  module _ (relaying : World Pipe → Conn Ctx Pipe → Round Ctx Pipe) (r : Relays relaying w) where
    Ends-IsSaid :
        (c : Conn Ctx Pipe) (e : Exit × Conn Ctx Pipe)
        → Ends p relaying hooks w c e
        → Talks c
        → IsSaid e.1.log
    Ends-IsSaid c e (stop c0 c' x q) (t, h, f) = subst Keeps q (
        on_next-Keeps relaying hooks w c t (next_event p c.sess) r h (next_event-Next p t c.sess f))
    Ends-IsSaid c e (go c0 c' e' q sub) (t, h, f) = Ends-IsSaid c' e sub (
        subst Keeps q (
          on_next-Keeps relaying hooks w c t (next_event p c.sess) r h
            (next_event-Next p t c.sess f)))

    run-IsSaid :
        (incoming : List Recv)
        → (run p relaying hooks w incoming).0 ≢ exhausted
        → IsSaid (run p relaying hooks w incoming).1
    unfolding run
    run-IsSaid incoming ends = cleanup-IsSaid _ (
        Ends-IsSaid (start hooks incoming) _
          (loop-Ends p relaying hooks w (enough incoming) (start hooks incoming) ends)
          (start-Talks incoming))

  -- Whatever the client sends, the hooks decide and the sockets, dialling and relay functions do:
  -- what both drivers do, first to last, keeps to the protocol. They send a method selection first;
  -- they ask about credentials at most once and answer them at most once, and only behind the
  -- selection of that method; they dial and reply at most once, and only for a client that was let
  -- in; a reply behind a dial says `succeeded` exactly when the dial gave a connection; they relay
  -- at most once, behind a reply that says `succeeded` or without any; and behind a refusal, an
  -- error reply or the relay they only clean up.
  pub handle-IsSaid :
      (incoming : List Recv)
      → IsSaid (handle p hooks w incoming).1 × IsSaid (handle_async p hooks w incoming).1
  unfolding handle handle_async
  handle-IsSaid incoming = (
    run-IsSaid on_relay (on_relay-Keeps w) incoming (handle-ne-exhausted p hooks w incoming),
    run-IsSaid on_relay_async (on_relay_async-Keeps w) incoming
        (handle_async-ne-exhausted p hooks w incoming),
  )
