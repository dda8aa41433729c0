-- ===== src/Server/Driver/Teardown.antt =====
-- The `finally` of `_handle` in src/optisocks5/server/server.py and aio.py when its calls raise, and
-- `_handle` with it. `cleanup` is the same when none of them does.
use optisocks.Prelude.{
  ◌≡◌, refl, Bool, true, false, List, ◌∷◌, Exn, os_error, timeout_error, if◌then◌else◌,
}
use optisocks.Codec.Platform.{Platform}
use optisocks.Server.Hooks.{
  Hooks, Action, World, Recv, disconnect_hook, closed_downstream, closed_upstream,
}
use optisocks.Server.Driver.{Conn, Exit, start, enough, loop, on_relay, on_relay_async, cleanup}

-- How a call ends: it returns, or an Exception leaves it, or a BaseException that is none:
-- KeyboardInterrupt, SystemExit, or in aio.py the CancelledError of the task.
pub data Call : Type 0 where
  returns : Call
  raises : Exn → Call
  interrupted : Call

-- How the three calls of the `finally` end, if they are made.
pub record Calls : Type 0 where
  pub on_disconnect : Call
  pub close_downstream : Call
  pub close_upstream : Call

-- `except Exception: pass`
abbrev pub quietly : Call → Call
quietly (raises e) = returns
quietly k = k

-- `except OSError: pass`
abbrev pub spared : Call → Call
spared (raises os_error) = returns
spared (raises timeout_error) = returns
spared k = k

module _ {Pipe : Type 0} where
  -- What is raised skips the calls behind it.
  abbrev pub after :
      Call × List (Action Pipe)
      → (List (Action Pipe) → Call × List (Action Pipe))
      → Call × List (Action Pipe)
  after (returns, log) next = next log
  after (raises e, log) next = (raises e, log)
  after (interrupted, log) next = (interrupted, log)

  abbrev pub disconnecting : Bool → Call → List (Action Pipe) → Call × List (Action Pipe)
  disconnecting true k log = (quietly k, disconnect_hook ∷ log)
  disconnecting false k log = (returns, log)

  -- `upstream.close()`, or `upstream[1].close()`, if there is one.
  abbrev pub closing_upstream : Bool → Call → List (Action Pipe) → Call × List (Action Pipe)
  closing_upstream true k log = (k, closed_upstream ∷ log)
  closing_upstream false k log = (returns, log)

-- No call raises.
abbrev pub calm : Calls
calm = record { on_disconnect = returns; close_downstream = returns; close_upstream = returns }

module _ {Ctx Pipe : Type 0} where
  -- The `finally` of server.py.
  unfoldable pub finally_sync : Hooks Ctx Pipe → Calls → Conn Ctx Pipe → Call × List (Action Pipe)
  finally_sync hooks k c = after (disconnecting hooks.on_disconnect k.on_disconnect c.log) λ log.
      after (k.close_downstream, closed_downstream ∷ log)
        λ log'. closing_upstream c.upstream k.close_upstream log'

  -- The `finally` of aio.py.
  unfoldable pub finally_async : Hooks Ctx Pipe → Calls → Conn Ctx Pipe → Call × List (Action Pipe)
  finally_async hooks k c = after (disconnecting hooks.on_disconnect k.on_disconnect c.log) λ log.
      after (k.close_downstream, closed_downstream ∷ log)
        λ log'. closing_upstream c.upstream (spared k.close_upstream) log'

  -- `_handle`: how the body of the `try` ends, how the `finally` ends, and the log.
  unfoldable pub handle_through :
      Platform
      → Hooks Ctx Pipe
      → World Pipe
      → Calls
      → List Recv
      → Exit × (Call × List (Action Pipe))
  unfolding finally_sync
  handle_through p hooks w k incoming =
      let (e, c) = loop p on_relay hooks w (enough incoming) (start hooks incoming) in
      (e, finally_sync hooks k c)

  unfoldable pub handle_async_through :
      Platform
      → Hooks Ctx Pipe
      → World Pipe
      → Calls
      → List Recv
      → Exit × (Call × List (Action Pipe))
  unfolding finally_async
  handle_async_through p hooks w k incoming =
      let (e, c) = loop p on_relay_async hooks w (enough incoming) (start hooks incoming) in
      (e, finally_async hooks k c)

  finally_sync-calm :
      (hooks : Hooks Ctx Pipe) (c : Conn Ctx Pipe)
      → finally_sync hooks calm c ≡ (returns, cleanup hooks c)
  unfolding finally_sync cleanup
  finally_sync-calm hooks c = by_cases hooks.on_disconnect c.upstream
    where
      by_cases :
          (b t : Bool)
          → after
              (disconnecting b returns c.log)
              (λ log. after (returns, closed_downstream ∷ log) (closing_upstream t returns))
            ≡ (
              returns,
              let hooked_log = if b then disconnect_hook ∷ c.log else c.log in
                  if t
                  then closed_upstream ∷ closed_downstream ∷ hooked_log
                  else closed_downstream ∷ hooked_log,
            )
      by_cases true true = refl
      by_cases true false = refl
      by_cases false true = refl
      by_cases false false = refl
