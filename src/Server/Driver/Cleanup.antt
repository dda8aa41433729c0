-- ===== src/Server/Driver/Cleanup.antt =====
-- The `finally` of `_handle` in src/optisocks5/server/server.py and aio.py, after all that the loop
-- did.
use optisocks.Prelude.{
  ℕ, suc, ◌≡◌, refl, ap, ◌∙◌, Bool, true, false, not, ◌&&◌, List, [], ◌∷◌, if◌then◌else◌,
}
use optisocks.Codec.Platform.{Platform}
use optisocks.Server.Hooks.{Hooks, Action, World, Recv, disconnect_hook, closed_downstream}
use optisocks.Server.Driver.Teardown.{
  Call, Calls, returns, raises, interrupted, spared, after, disconnecting, closing_upstream,
  finally_sync, finally_async, handle_through, handle_async_through,
}
use optisocks.Server.Driver.{Conn, hooked, on_relay, on_relay_async, start, enough, loop}
use optisocks.Server.Driver.Tracked.{
  downstream_closings, upstream_closings, disconnect_hooks, has_upstream, IsTracked, on_relay-Keeps,
  on_relay_async-Keeps, loop-IsTracked,
}

-- Whether the disconnect hook raises what `except Exception` lets pass.
abbrev pub cuts_short : Bool → Call → Bool
cuts_short true interrupted = true
cuts_short hooked k = false

abbrev pub returned : Call → Bool
returned returns = true
returned k = false

abbrev pub first_raised : List Call → Call
first_raised [] = returns
first_raised (returns ∷ ks) = first_raised ks
first_raised (k ∷ ks) = k

abbrev pub once_if : Bool → ℕ
once_if b = if b then 1 else 0

-- How often each call of the `finally` is made, when the calls end as `hook`, `down` and `up` say, and
-- how the `finally` itself ends.
abbrev pub IsCleanedUp :
    {Pipe : Type 0} → Bool → Call → Call → Call → Call × List (Action Pipe) → Type 0
IsCleanedUp hooked hook down up (ended, log) =
    (disconnect_hooks log ≡ once_if hooked)
    × (downstream_closings log ≡ once_if (not (cuts_short hooked hook)))
    × (upstream_closings log
        ≡ once_if (has_upstream log && not (cuts_short hooked hook) && returned down))
    × (ended ≡ (
        if cuts_short hooked hook
        then interrupted
        else first_raised (down ∷ (if has_upstream log then up else returns) ∷ [])))

first_raised_one : (k : Call) → k ≡ first_raised (k ∷ [])
first_raised_one returns = refl
first_raised_one (raises e) = refl
first_raised_one interrupted = refl

-- The closes behind a disconnect hook that lets them be made.
closes-once :
    {Pipe : Type 0} (log : List (Action Pipe)) (m : ℕ) (t : Bool) (down up : Call)
    → disconnect_hooks log ≡ m
    → downstream_closings log ≡ 0
    → upstream_closings log ≡ 0
    → t ≡ has_upstream log
    → let (ended, out) =
        after (down, closed_downstream ∷ log) (λ log'. closing_upstream t up log') in
      (disconnect_hooks out ≡ m)
      × (downstream_closings out ≡ 1)
      × (upstream_closings out ≡ once_if (has_upstream out && true && returned down))
      × (ended ≡ first_raised (down ∷ (if has_upstream out then up else returns) ∷ []))
closes-once log m true returns up k d u e =
    (k, ap suc d, rw (← e) (ap suc u), rw (← e) (first_raised_one up))
closes-once log m true (raises x) up k d u e = (k, ap suc d, rw (← e) u, refl)
closes-once log m true interrupted up k d u e = (k, ap suc d, rw (← e) u, refl)
closes-once log m false returns up k d u e = (k, ap suc d, rw (← e) u, rw (← e) refl)
closes-once log m false (raises x) up k d u e = (k, ap suc d, rw (← e) u, refl)
closes-once log m false interrupted up k d u e = (k, ap suc d, rw (← e) u, refl)

finally-IsCleanedUp :
    {Ctx Pipe : Type 0} (c : Conn Ctx Pipe) (b : Bool) (hook down up : Call)
    → IsTracked c
    → IsCleanedUp b hook down up (
        after
          (disconnecting b hook c.log)
          λ log. after (down, closed_downstream ∷ log) λ log'. closing_upstream c.upstream up log')
finally-IsCleanedUp c true returns down up (d, u, k, e) =
    closes-once (disconnect_hook ∷ c.log) 1 c.upstream down up (ap suc k) d u e
finally-IsCleanedUp c true (raises x) down up (d, u, k, e) =
    closes-once (disconnect_hook ∷ c.log) 1 c.upstream down up (ap suc k) d u e
finally-IsCleanedUp c true interrupted down up (d, u, k, e) =
    (ap suc k, d, u ∙ none_due (has_upstream c.log), refl)
  where
    none_due : (t : Bool) → 0 ≡ once_if (t && false && returned down)
    none_due true = refl
    none_due false = refl
finally-IsCleanedUp c false hook down up (d, u, k, e) =
    closes-once c.log 0 c.upstream down up k d u e

module _ {Ctx Pipe : Type 0} (p : Platform) (hooks : Hooks Ctx Pipe) (w : World Pipe) (k : Calls)
    (incoming : List Recv) where
  -- Whatever the client sends, the hooks decide and the sockets do, also when an exception escapes, and
  -- however the calls of the `finally` end: the threaded driver's `_handle` calls the disconnect hook
  -- exactly once if there is one; unless the hook raises a BaseException that is no Exception, it calls
  -- the close of the client's connection exactly once; and when that close returns, it calls the close
  -- of the upstream's exactly once, if the latest dial gave a connection whose address could be read.
  -- When that close raises, or the hook does so, the upstream's is never called. The `finally` raises
  -- what the first of these calls raised, but for an Exception from the hook.
  pub handle_through-IsCleanedUp :
      IsCleanedUp hooks.on_disconnect k.on_disconnect k.close_downstream k.close_upstream
        (handle_through p hooks w k incoming).1
  unfolding handle_through finally_sync start
  handle_through-IsCleanedUp =
      finally-IsCleanedUp (loop p on_relay hooks w (enough incoming) (start hooks incoming)).1
        hooks.on_disconnect k.on_disconnect k.close_downstream k.close_upstream
        (loop-IsTracked p on_relay hooks w (on_relay-Keeps w) (enough incoming)
          (start hooks incoming) (refl, refl, refl, refl))

  -- Whatever the client sends, the hooks decide and the streams do, also when an exception escapes,
  -- and however the calls of the `finally` end: the asyncio driver's `_handle` calls the disconnect
  -- hook exactly once if there is one; unless the hook raises a BaseException that is no Exception,
  -- as it does when the task is cancelled while it is awaited, it calls the close of the client's
  -- writer exactly once; and when that close returns, it calls the close of the upstream's writer
  -- exactly once, if the latest dial gave a connection whose address could be read. When that close
  -- raises, or the hook does so, the upstream's is never called. The `finally` raises what the first
  -- of these calls raised, but for an Exception from the hook and an OSError from the upstream's
  -- close.
  pub handle_async_through-IsCleanedUp :
      IsCleanedUp hooks.on_disconnect k.on_disconnect k.close_downstream
        (spared k.close_upstream)
        (handle_async_through p hooks w k incoming).1
  unfolding handle_async_through finally_async start
  handle_async_through-IsCleanedUp =
      finally-IsCleanedUp (loop p on_relay_async hooks w (enough incoming) (start hooks incoming)).1
        hooks.on_disconnect k.on_disconnect k.close_downstream (spared k.close_upstream)
        (loop-IsTracked p on_relay_async hooks w (on_relay_async-Keeps w) (enough incoming)
          (start hooks incoming) (refl, refl, refl, refl))
