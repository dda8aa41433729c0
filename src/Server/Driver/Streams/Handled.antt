-- ===== src/Server/Driver/Streams/Handled.antt =====
-- `_handle` of src/optisocks5/server/server.py and aio.py, on streams that are cut into different
-- segments.
use optisocks.Prelude.{◌≡◌, ◌≢◌, refl, sym, ap, ◌∙◌, List, [], Bytes, IsByte, All}
use optisocks.Codec.Platform.{Platform}
use optisocks.Server.State.{init}
use optisocks.Server.Machine.Cuts.{IsTidy}
use optisocks.Server.Hooks.{Hooks, World, Action, Recv}
use optisocks.Server.Driver.{
  Conn, Exit, Round, exhausted, on_relay, on_relay_async, start, enough, cleanup, run, handle,
  handle_async,
}
use optisocks.Server.Driver.Endings.{handle-ne-exhausted, handle_async-ne-exhausted}
use optisocks.Server.Driver.Streams.{IsBlind, heard}
use optisocks.Server.Driver.Streams.Shifted.{shift, Shifts, on_relay-shift, on_relay_async-shift}
use optisocks.Server.Driver.Streams.Kept.{Leaves, on_relay-IsKept, on_relay_async-IsKept}
use optisocks.Server.Driver.Streams.Joined.{IsSame, Ends, loop-Ends, Ends-unique}
use optisocks.Server.Driver.Streams.Whole.{whole}

module _ {Ctx Pipe : Type 0} (hooks : Hooks Ctx Pipe) where
  -- What `finally` makes of an ending.
  abbrev pub closing : Exit × Conn Ctx Pipe → Exit × List (Action Pipe)
  closing r = (r.0, cleanup hooks r.1)

  closing-IsSame : (r r' : Exit × Conn Ctx Pipe) → IsSame r r' → closing r' ≡ closing r
  unfolding cleanup
  closing-IsSame (e, c) (e', c') h = rw (h.exit, h.log, h.upstream) refl

  -- The connection whose client has sent `d`, and nothing of it is left to read.
  abbrev pub all_read : Bytes → Conn Ctx Pipe
  all_read d = shift d [] (start hooks [])

  start-IsTidy : (xs : List Recv) → IsTidy (start hooks xs).sess
  unfolding start init
  start-IsTidy xs = (refl, tt)

module _ {Ctx Pipe : Type 0} (p : Platform) (hooks : Hooks Ctx Pipe) (w : World Pipe) where
  module _ (relaying : World Pipe → Conn Ctx Pipe → Round Ctx Pipe)
      (shifts : (d : Bytes) (more : List Recv) → Shifts d more relaying w)
      (leaves : (i : List Recv) → Leaves i relaying w)
      (ends : (xs : List Recv) → (run p relaying hooks w xs).0 ≢ exhausted) where
    run-all_read :
        (xs : List Recv)
        → IsBlind hooks
        → All IsByte (heard xs)
        → (r : Exit × Conn Ctx Pipe) × Ends p relaying hooks w (all_read hooks (heard xs)) r
          × (closing hooks r ≡ run p relaying hooks w xs)
    unfolding run start
    run-all_read xs k b =
        let (r, e, same) =
          whole p relaying hooks w k shifts leaves xs (start hooks xs) _ refl
            (start-IsTidy hooks xs) b
            (loop-Ends p relaying hooks w (enough xs) (start hooks xs) (ends xs)) in
        (r, e, closing-IsSame hooks _ r same)

    run-Ends :
        (xs : List Recv) (r : Exit × Conn Ctx Pipe)
        → IsBlind hooks
        → All IsByte (heard xs)
        → Ends p relaying hooks w (all_read hooks (heard xs)) r
        → run p relaying hooks w xs ≡ closing hooks r
    run-Ends xs r k b e =
        let (r', e', x) = run-all_read xs k b in
        sym x
        ∙ ap (closing hooks) (Ends-unique p relaying hooks w (all_read hooks (heard xs)) r' r e' e)

  -- Both drivers do what the connection does that has read all first.
  pub handle-Ends :
      (xs : List Recv) (r : Exit × Conn Ctx Pipe)
      → IsBlind hooks
      → All IsByte (heard xs)
      → Ends p on_relay hooks w (all_read hooks (heard xs)) r
      → handle p hooks w xs ≡ closing hooks r
  unfolding handle
  handle-Ends xs r k b e =
      run-Ends on_relay (λ d more. on_relay-shift d more w) (λ i. on_relay-IsKept i w)
        (handle-ne-exhausted p hooks w) xs r k b e

  pub handle_async-Ends :
      (xs : List Recv) (r : Exit × Conn Ctx Pipe)
      → IsBlind hooks
      → All IsByte (heard xs)
      → Ends p on_relay_async hooks w (all_read hooks (heard xs)) r
      → handle_async p hooks w xs ≡ closing hooks r
  unfolding handle_async
  handle_async-Ends xs r k b e =
      run-Ends on_relay_async (λ d more. on_relay_async-shift d more w)
        (λ i. on_relay_async-IsKept i w) (handle_async-ne-exhausted p hooks w) xs r k b e
