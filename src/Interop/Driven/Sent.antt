-- ===== src/Interop/Driven/Sent.antt =====
-- What the drivers of src/optisocks5/server/server.py and aio.py have sent to a client of this library.
use optisocks.Prelude.{
  ◌≡◌, refl, ap, true, false, Option, none, some, Bool, List, ◌∷◌, ◌++◌, Bytes, Text, arith,
}
use optisocks.Core.Session.Handshake.{answers}
use optisocks.Server.State
use optisocks.Server.State.{ServerSession}
use optisocks.Server.Hooks.{World, Dial, Action, sent, dialled, spliced}
use optisocks.Server.Driver.{Conn, stops, left, did, on_relay, on_relay_async}
use optisocks.Interop.Driven.{greeted, ending, sent_by}

module _ {Ctx Pipe : Type 0} (w : World Pipe) (c : Conn Ctx Pipe) where
  pub on_relay-spliced :
      c.sess.custom_pipe ≡ none → c.upstream ≡ true → on_relay w c ≡ stops left (did c spliced)
  unfolding on_relay
  on_relay-spliced e u = ground arith

  pub on_relay_async-spliced :
      c.sess.custom_pipe ≡ none
      → c.upstream ≡ true
      → on_relay_async w c ≡ stops left (did c spliced)
  unfolding on_relay_async
  on_relay_async-spliced e u = ground arith

module _ (Pipe : Type 0) where
  sent_by-ending :
      (hook : Bool) (d : Dial) (log : List (Action Pipe))
      → sent_by (ending hook d log) ≡ sent_by log
  sent_by-ending true (Dial.opened host port) log = refl
  sent_by-ending false (Dial.opened host port) log = refl
  sent_by-ending true Dial.refused log = refl
  sent_by-ending false Dial.refused log = refl
  sent_by-ending true Dial.timed_out log = refl
  sent_by-ending false Dial.timed_out log = refl
  sent_by-ending true Dial.net_unreachable log = refl
  sent_by-ending false Dial.net_unreachable log = refl
  sent_by-ending true Dial.other_os_error log = refl
  sent_by-ending false Dial.other_os_error log = refl
  sent_by-ending true Dial.nameless log = refl
  sent_by-ending false Dial.nameless log = refl
  sent_by-ending true (Dial.raises e) log = refl
  sent_by-ending false (Dial.raises e) log = refl

  -- The bytes that the driver has sent, and `rest` behind them, are what a server answers.
  pub sent_by-answers :
      (creds : Option (Text × Text)) (hook : Bool) (d d' : Dial) (to : State.Endpoint)
      (r rest : Bytes)
      → sent_by {Pipe = Pipe} (ending hook d (sent r ∷ dialled to d' ∷ greeted creds)) ++ rest
        ≡ answers creds (r ++ rest)
  sent_by-answers none hook d d' to r rest =
      ap (λ x. x ++ rest) (sent_by-ending hook d (sent r ∷ dialled to d' ∷ greeted none))
  sent_by-answers (some c) hook d d' to r rest =
      ap (λ x. x ++ rest) (sent_by-ending hook d (sent r ∷ dialled to d' ∷ greeted (some c)))
