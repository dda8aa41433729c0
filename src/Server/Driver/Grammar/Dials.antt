-- ===== src/Server/Driver/Grammar/Dials.antt =====
-- The turns of the drivers in src/optisocks5/server/server.py and aio.py that dial and relay, by the
-- rule of Server/Driver/Grammar.antt.
use optisocks.Prelude.{
  ℕ, Bool, pos, ◌≡◌, refl, ap, ◌∙◌, inl, inr, true, false, Bool-cases, Option, none, some, [], ◌∷◌,
  Text, ok, err,
}
use optisocks.Core.Types.{value, general_failure}
use optisocks.Server.Events.{Event, send, need_data, authorize, connect, close}
use optisocks.Server.State.{ServerSession, Endpoint, connect_wait}
use optisocks.Server.Decisions
use optisocks.Server.Machine.{Yield}
use optisocks.Server.Hooks.{Verdict, Hooks, Dial, World, dialled, spliced, piped}
use optisocks.Server.Driver.{
  Conn, Round, did, run_hook, dial_result, dial, hooked, on_connect, run_pipe, on_relay,
  on_relay_async, on_next,
}
use optisocks.Server.Driver.Admission.{run_hook-IsUnmoved}
use optisocks.Server.Driver.Grammar.{Talk, granted, dialling, relayed, can_relay, said, is_open}
use optisocks.Server.Driver.Grammar.Steps.{Next}
use optisocks.Server.Driver.Grammar.Turns.{
  Keeps, said_next, if-Keeps, option-Keeps, Fits-idle, on_send-Keeps, reading-Keeps,
  on_authorize-Keeps, run_hook-failed,
}

module _ {Ctx Pipe : Type 0} where
  -- The session waits for the driver, and no dial has failed.
  record IsHeld (s : ServerSession Ctx Pipe) : Type 0 where
    state : s.state ≡ connect_wait
    out : s.out ≡ []
    failed : s.failed ≡ false

  hooked-IsHeld :
      (hooks : Hooks Ctx Pipe) (c : Conn Ctx Pipe) (host : Text) (port : ℕ)
      → IsHeld c.sess
      → IsHeld (hooked hooks c host port)
  hooked-IsHeld hooks c host port h = by_hook hooks.on_connect
    where
      by_hook :
          (o : Option (ServerSession Ctx Pipe → Text → ℕ → Verdict Ctx Pipe))
          → IsHeld (elim o as (λ t. ServerSession Ctx Pipe) [
            | none ↦ c.sess
            | some hook ↦ run_hook c.sess (hook c.sess host port) (pos (value general_failure))
          ])
      by_hook none = h
      by_hook (some hook) =
          let v = hook c.sess host port in
          let i = run_hook-IsUnmoved c.sess v (pos (value general_failure)) in
          record {
            state = i.state ∙ h.state;
            out = i.out ∙ h.out;
            failed = run_hook-failed c.sess v (pos (value general_failure)) ∙ h.failed;
          }

  dial_result-Keeps :
      (c : Conn Ctx Pipe) (to : Endpoint) (d : Dial)
      → said c.log ≡ some granted
      → IsHeld c.sess
      → c.sess.rejected ≡ false
      → Keeps (dial_result (did c (dialled to d)) d)
  unfolding dial_result Decisions.connected Decisions.connect_failed
  dial_result-Keeps c to d g h r = by_dial d (said_next c.log (dialled to d) granted _ g refl)
    where
      by_dial :
          (d : Dial)
          → said (dialled to d ∷ c.log) ≡ some (dialling (is_open d))
          → Keeps (dial_result (did c (dialled to d)) d)
      by_dial (Dial.opened host port) k =
          (dialling true, k, Fits-idle (dialling true) _ connect_wait h.out h.state (r, h.failed))
      by_dial Dial.refused k = (
        dialling false,
        k,
        Fits-idle (dialling false) _ connect_wait h.out h.state (r, refl, refl),
      )
      by_dial Dial.timed_out k = (
        dialling false,
        k,
        Fits-idle (dialling false) _ connect_wait h.out h.state (r, refl, refl),
      )
      by_dial Dial.net_unreachable k = (
        dialling false,
        k,
        Fits-idle (dialling false) _ connect_wait h.out h.state (r, refl, refl),
      )
      by_dial Dial.other_os_error k = (
        dialling false,
        k,
        Fits-idle (dialling false) _ connect_wait h.out h.state (r, refl, refl),
      )
      by_dial Dial.nameless k = (
        dialling false,
        k,
        Fits-idle (dialling false) _ connect_wait h.out h.state (r, refl, refl),
      )
      by_dial (Dial.raises e) k = (dialling false, k)

  on_connect-Keeps :
      (hooks : Hooks Ctx Pipe) (w : World Pipe) (c : Conn Ctx Pipe) (host : Text) (port : ℕ)
      → said c.log ≡ some granted
      → IsHeld c.sess
      → Keeps (on_connect hooks w c host port)
  unfolding on_connect dial Decisions.connected
  on_connect-Keeps hooks w c host port g h =
      let s = hooked hooks c host port in
      let i = hooked-IsHeld hooks c host port h in
      elim (Bool-cases s.rejected) [
        | inl yes' ↦ rw yes' (granted, g, Fits-idle granted s connect_wait i.out i.state tt)
        | inr no' ↦ rw no' (
            if-Keeps s.intercepted _ _
              (granted, g, Fits-idle granted _ connect_wait i.out i.state tt)
              (option-Keeps s.target _ _ (granted, g)
                (λ to. dial_result-Keeps (record c { sess = s }) to (w.dial c.log to) g i no')))
      ]

  run_pipe-Keeps :
      (streams : Bool) (w : World Pipe) (c : Conn Ctx Pipe) (fn : Pipe) (t : Talk)
      → said c.log ≡ some t
      → can_relay t ≡ true
      → Keeps (run_pipe streams w c fn)
  unfolding run_pipe
  run_pipe-Keeps streams w c fn t h k =
      let after = said_next c.log (piped fn) t relayed h (rw k refl) in
      option-Keeps (w.pipe_raises c.log fn) _ _ (relayed, after) (λ e. (relayed, after))

  -- What the branch for `Relay` does.
  abbrev pub Relays : (World Pipe → Conn Ctx Pipe → Round Ctx Pipe) → World Pipe → Type 0
  Relays relaying w =
      (c : Conn Ctx Pipe) (t : Talk)
      → said c.log ≡ some t
      → can_relay t ≡ true
      → Keeps (relaying w c)

  pub on_relay-Keeps : (w : World Pipe) → Relays on_relay w
  unfolding on_relay
  on_relay-Keeps w c t h k =
      option-Keeps c.sess.custom_pipe _ _
        (if-Keeps c.upstream _ _ (relayed, said_next c.log spliced t relayed h (rw k refl)) (t, h))
        (λ fn. run_pipe-Keeps false w c fn t h k)

  pub on_relay_async-Keeps : (w : World Pipe) → Relays on_relay_async w
  unfolding on_relay_async
  on_relay_async-Keeps w c t h k =
      option-Keeps c.sess.custom_pipe _ _
        (if-Keeps c.upstream _ _ (relayed, said_next c.log spliced t relayed h (rw k refl)) (t, h))
        (λ fn. run_pipe-Keeps true w c fn t h k)

  pub on_next-Keeps :
      (relaying : World Pipe → Conn Ctx Pipe → Round Ctx Pipe) (hooks : Hooks Ctx Pipe)
      (w : World Pipe) (c : Conn Ctx Pipe) (t : Talk) (y : Yield Ctx Pipe)
      → Relays relaying w
      → said c.log ≡ some t
      → Next t y
      → Keeps (on_next relaying hooks w c y)
  on_next-Keeps relaying hooks w c t (err e, s) r h k = (t, h)
  on_next-Keeps relaying hooks w c t (ok (send b), s) r h (t', m, f) =
      on_send-Keeps w (record c { sess = s }) b t t' h m f
  on_next-Keeps relaying hooks w c t (ok need_data, s) r h k =
      reading-Keeps s c.upstream c.incoming c.log t h k
  on_next-Keeps relaying hooks w c t (ok (authorize user password), s) r h (e, st, o) =
      on_authorize-Keeps hooks (record c { sess = s }) user password (h ∙ ap some e) st o
  on_next-Keeps relaying hooks w c t (ok (connect cmd host port), s) r h (e, st, o, f) =
      on_connect-Keeps hooks w (record c { sess = s }) host port (h ∙ ap some e)
        record { state = st; out = o; failed = f }
  on_next-Keeps relaying hooks w c t (ok (Event.relay host port), s) r h k =
      r (record c { sess = s }) t h k
  on_next-Keeps relaying hooks w c t (ok (close reason), s) r h k = (t, h)
