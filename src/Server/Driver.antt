-- ===== src/Server/Driver.antt =====
-- `Server._handle`, `_dial` and `_relay` of src/optisocks5/server/server.py, and their mirror in
-- src/optisocks5/server/aio.py: one client's connection, from the first byte to the cleanup.
pub mod Endings
pub mod Teardown
pub mod Tracked
pub mod Cleanup
pub mod Admission
pub mod Gate
pub mod Firewall
pub mod Streams
pub mod Grammar
use optisocks.Prelude.{
  ℕ, zero, suc, ◌+◌, ◌*◌, ℤ, pos, Bool, true, false, Option, none, some, List, [], ◌∷◌, ◌++◌, Bytes,
  Text, Exn, Result, ok, err, os_error, timeout_error, incomplete_read, attribute_error, type_error,
  if◌then◌else◌, length,
}
use optisocks.Codec.Platform.{Platform}
use optisocks.Core.Types.{
  value, general_failure, not_allowed, net_unreachable, host_unreachable, conn_refused, ttl_expired,
}
use optisocks.Server.Events.{Event, send, need_data, authorize, connect, relay, close}
use optisocks.Server.State.{ServerSession, Endpoint, init}
use optisocks.Server.Decisions
use optisocks.Server.Machine.{Yield, next_event}
use optisocks.Server.Hooks.{
  Decision, Verdict, Hooks, Dial, Action, Recv, World, sent, asked, dialled, spliced, piped,
  disconnect_hook, closed_downstream, closed_upstream, chunk, broken, apply_all,
}

-- The local variables of `_handle`. `upstream` tells whether there is an upstream connection.
pub record Conn (Ctx Pipe : Type 0) : Type 0 where
  pub sess : ServerSession Ctx Pipe
  pub upstream : Bool
  pub incoming : List Recv
  pub log : List (Action Pipe)

-- How the body of the `try` ends. `exhausted` is no ending of the program: the fuel ran out.
pub data Exit : Type 0 where
  left : Exit
  escaped : Exn → Exit
  exhausted : Exit

pub data Round (Ctx Pipe : Type 0) : Type 0 where
  goes_on : Conn Ctx Pipe → Round Ctx Pipe
  stops : Exit → Conn Ctx Pipe → Round Ctx Pipe

-- `except (OSError, ConnectionError): pass`; a TimeoutError is an OSError.
unfoldable pub caught : Exn → Exit
caught os_error = left
caught timeout_error = left
caught e = escaped e

-- The same behind a relay function, where in aio.py (`streams`) the IncompleteReadError of a stream is
-- caught too; no other call in the loop raises one.
unfoldable pub caught_from : Bool → Exn → Exit
unfolding caught
caught_from true incomplete_read = left
caught_from streams e = caught e

module _ {Ctx Pipe : Type 0} where
  abbrev pub did : Conn Ctx Pipe → Action Pipe → Conn Ctx Pipe
  did c a = record c { log = a ∷ c.log }

  -- A hook's calls, and the `reject` with which the driver answers an exception from it.
  unfoldable pub run_hook : ServerSession Ctx Pipe → Verdict Ctx Pipe → ℤ → ServerSession Ctx Pipe
  run_hook s v rep =
      let s' = apply_all s v.calls in if v.raises then Decisions.reject s' rep else s'

  unfoldable pub on_send : World Pipe → Conn Ctx Pipe → Bytes → Round Ctx Pipe
  on_send w c b = if w.send_works c.log then goes_on (did c (sent b)) else stops left c

  unfoldable pub on_need_data : Conn Ctx Pipe → Round Ctx Pipe
  on_need_data c = elim c.incoming [
    | [] ↦ stops left c
    | broken ∷ more ↦ stops left (record c { incoming = more })
    | chunk [] ∷ more ↦ stops left (record c { incoming = more })
    | chunk (b ∷ bs) ∷ more ↦
        goes_on (record c { sess = Decisions.receive c.sess (b ∷ bs); incoming = more })
  ]

  unfoldable pub on_authorize :
      Hooks Ctx Pipe → Conn Ctx Pipe → Option Text → Option Text → Round Ctx Pipe
  unfolding run_hook
  on_authorize hooks c user password = elim hooks.authorize [
    | none ↦ goes_on (record c { sess = Decisions.ok c.sess none })
    | some hook ↦ goes_on (
        did
          (record c {
            sess = run_hook c.sess (hook c.sess user password) (pos (value not_allowed));
          })
          (asked user password))
  ]

  -- `_dial`: the exception's class chooses the reply code.
  unfoldable pub dial_result : Conn Ctx Pipe → Dial → Round Ctx Pipe
  dial_result c (Dial.opened host port) =
      goes_on (record c { sess = Decisions.connected c.sess host port; upstream = true })
  dial_result c Dial.refused = goes_on (record c {
    sess = Decisions.connect_failed c.sess (pos (value conn_refused));
    upstream = false;
  })
  dial_result c Dial.timed_out = goes_on (record c {
    sess = Decisions.connect_failed c.sess (pos (value ttl_expired));
    upstream = false;
  })
  dial_result c Dial.net_unreachable = goes_on (record c {
    sess = Decisions.connect_failed c.sess (pos (value net_unreachable));
    upstream = false;
  })
  dial_result c Dial.other_os_error = goes_on (record c {
    sess = Decisions.connect_failed c.sess (pos (value host_unreachable));
    upstream = false;
  })
  dial_result c Dial.nameless = goes_on (record c {
    sess = Decisions.connect_failed c.sess (pos (value host_unreachable));
    upstream = false;
  })
  dial_result c (Dial.raises e) = stops (caught e) c

  unfoldable pub dial : World Pipe → Conn Ctx Pipe → Round Ctx Pipe
  unfolding dial_result caught
  dial w c = elim c.sess.target [
    | none ↦ stops (escaped type_error) c
    | some to ↦ let r = w.dial c.log to in dial_result (did c (dialled to r)) r
  ]

  abbrev pub hooked : Hooks Ctx Pipe → Conn Ctx Pipe → Text → ℕ → ServerSession Ctx Pipe
  hooked hooks c host port = elim hooks.on_connect [
    | none ↦ c.sess
    | some hook ↦ run_hook c.sess (hook c.sess host port) (pos (value general_failure))
  ]

  unfoldable pub on_connect :
      Hooks Ctx Pipe → World Pipe → Conn Ctx Pipe → Text → ℕ → Round Ctx Pipe
  unfolding run_hook
  on_connect hooks w c host port =
      let s = hooked hooks c host port in
      if s.rejected
      then goes_on (record c { sess = s })
      else if s.intercepted
      then goes_on (record c { sess = Decisions.connected s host (pos port) })
      else dial w (record c { sess = s })

  unfoldable pub run_pipe : Bool → World Pipe → Conn Ctx Pipe → Pipe → Round Ctx Pipe
  unfolding caught_from
  run_pipe streams w c fn = elim (w.pipe_raises c.log fn) [
    | none ↦ stops left (did c (piped fn))
    | some e ↦ stops (caught_from streams e) (did c (piped fn))
  ]

  -- `_relay` of server.py: with no upstream, `splice` fails on `None`.
  unfoldable pub on_relay : World Pipe → Conn Ctx Pipe → Round Ctx Pipe
  unfolding run_pipe
  on_relay w c = elim c.sess.custom_pipe [
    | some fn ↦ run_pipe false w c fn
    | none ↦ if c.upstream then stops left (did c spliced) else stops (escaped attribute_error) c
  ]

  -- The same branch of aio.py: with no upstream it does nothing.
  unfoldable pub on_relay_async : World Pipe → Conn Ctx Pipe → Round Ctx Pipe
  unfolding run_pipe
  on_relay_async w c = elim c.sess.custom_pipe [
    | some fn ↦ run_pipe true w c fn
    | none ↦ if c.upstream then stops left (did c spliced) else stops left c
  ]

  -- One turn of the loop; `relaying` is the branch for `Relay`.
  abbrev pub on_event :
      (World Pipe → Conn Ctx Pipe → Round Ctx Pipe)
      → Hooks Ctx Pipe
      → World Pipe
      → Conn Ctx Pipe
      → Event
      → Round Ctx Pipe
  on_event relaying hooks w c (send b) = on_send w c b
  on_event relaying hooks w c need_data = on_need_data c
  on_event relaying hooks w c (authorize user password) = on_authorize hooks c user password
  on_event relaying hooks w c (connect cmd host port) = on_connect hooks w c host port
  on_event relaying hooks w c (relay host port) = relaying w c
  on_event relaying hooks w c (close reason) = stops left c

  -- What follows `ev = sess.next_event()`.
  abbrev pub on_next :
      (World Pipe → Conn Ctx Pipe → Round Ctx Pipe)
      → Hooks Ctx Pipe
      → World Pipe
      → Conn Ctx Pipe
      → Yield Ctx Pipe
      → Round Ctx Pipe
  on_next relaying hooks w c (err e, s) = stops (caught e) (record c { sess = s })
  on_next relaying hooks w c (ok ev, s) = on_event relaying hooks w (record c { sess = s }) ev

  -- `finally`, when none of its calls raises; Server/Driver/Teardown.antt has the others.
  unfoldable pub cleanup : Hooks Ctx Pipe → Conn Ctx Pipe → List (Action Pipe)
  cleanup hooks c =
      let hooked_log = if hooks.on_disconnect then disconnect_hook ∷ c.log else c.log in
      if c.upstream
      then closed_upstream ∷ closed_downstream ∷ hooked_log
      else closed_downstream ∷ hooked_log

  unfoldable pub start : Hooks Ctx Pipe → List Recv → Conn Ctx Pipe
  start hooks incoming = record {
    sess = init (elim hooks.authorize [ none ↦ false | some h ↦ true ]);
    upstream = false;
    incoming = incoming;
    log = [];
  }

-- Twelve turns for the states, and one for each chunk.
abbrev pub enough : List Recv → ℕ
enough incoming = 13 + length incoming

module _ {Ctx Pipe : Type 0} (p : Platform) (relaying : World Pipe → Conn Ctx Pipe → Round Ctx Pipe)
    (hooks : Hooks Ctx Pipe) (w : World Pipe) where
  unfoldable pub loop : ℕ → Conn Ctx Pipe → Exit × Conn Ctx Pipe
  loop zero c = (exhausted, c)
  loop (suc f) c = elim (on_next relaying hooks w c (next_event p c.sess)) [
    | goes_on c' ↦ loop f c'
    | stops e c' ↦ (e, c')
  ]

  unfoldable pub run : List Recv → Exit × List (Action Pipe)
  run incoming = let (e, c) = loop (enough incoming) (start hooks incoming) in (e, cleanup hooks c)

module _ {Ctx Pipe : Type 0} where
  -- `Server._handle`
  unfoldable pub handle :
      Platform → Hooks Ctx Pipe → World Pipe → List Recv → Exit × List (Action Pipe)
  unfolding run
  handle p = run p on_relay

  -- `AsyncServer._handle`
  unfoldable pub handle_async :
      Platform → Hooks Ctx Pipe → World Pipe → List Recv → Exit × List (Action Pipe)
  unfolding run
  handle_async p = run p on_relay_async
