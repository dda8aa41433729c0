-- ===== src/Server/Driver/Streams/Shifted.antt =====
-- A turn of the drivers in src/optisocks5/server/server.py and aio.py, and the same turn when more of
-- the client's bytes were already read.
use optisocks.Prelude.{
  ℕ, ℤ, pos, ◌≡◌, refl, ap, ◌∙◌, inl, inr, Bool, true, false, Option, none, some, Bool-cases, List,
  [], ◌∷◌, Bytes, Text, if◌then◌else◌,
}
use optisocks.Core.Types.{value, not_allowed, general_failure}
use optisocks.Server.Events.{Event, send, need_data, authorize, connect, relay, close}
use optisocks.Server.State.{ServerSession}
use optisocks.Server.Decisions
use optisocks.Server.Decisions.{receive}
use optisocks.Server.Hooks.{
  Decision, Verdict, Hooks, Dial, World, Recv, apply, apply_all, dialled, asked,
}
use optisocks.Server.Driver.{
  Conn, Round, goes_on, stops, did, run_hook, on_send, on_authorize, dial_result, dial, hooked,
  on_connect, run_pipe, on_relay, on_relay_async, on_event,
}
use optisocks.Server.Driver.Streams.{IsBlind}

-- Every event but the wish for bytes.
abbrev pub IsOther : Event → Type 0
IsOther need_data = ⊥
IsOther _ = Unit

module _ {Ctx Pipe : Type 0} (d : Bytes) where
  apply-receive :
      (s : ServerSession Ctx Pipe) (x : Decision Ctx Pipe)
      → apply (receive s d) x ≡ receive (apply s x) d
  unfolding apply receive Decisions.ok Decisions.reject Decisions.set_target Decisions.pipe
      Decisions.relay_raw Decisions.intercept
  apply-receive s (Decision.ok ctx) = refl
  apply-receive s (Decision.reject rep) = refl
  apply-receive s (Decision.set_target host port) = refl
  apply-receive s (Decision.pipe fn) = refl
  apply-receive s Decision.relay_raw = refl
  apply-receive s (Decision.intercept fn) = refl

  apply_all-receive :
      (s : ServerSession Ctx Pipe) (ds : List (Decision Ctx Pipe))
      → apply_all (receive s d) ds ≡ receive (apply_all s ds) d
  unfolding apply_all
  apply_all-receive s [] = refl
  apply_all-receive s (x ∷ ds) =
      ap (λ t. apply_all t ds) (apply-receive s x) ∙ apply_all-receive (apply s x) ds

  run_hook-receive :
      (s : ServerSession Ctx Pipe) (v : Verdict Ctx Pipe) (rep : ℤ)
      → run_hook (receive s d) v rep ≡ receive (run_hook s v rep) d
  unfolding run_hook Decisions.reject receive
  run_hook-receive s v rep = elim (Bool-cases v.raises) [
    | inl e ↦ rw (e, apply_all-receive s v.calls) refl
    | inr e ↦ rw (e, apply_all-receive s v.calls) refl
  ]

module _ {Ctx Pipe : Type 0} (d : Bytes) (more : List Recv) where
  -- The bytes `d` were read as well, and `more` is still to come.
  abbrev pub shift : Conn Ctx Pipe → Conn Ctx Pipe
  shift c = record c { sess = receive c.sess d; incoming = more }

  abbrev pub shifted : Round Ctx Pipe → Round Ctx Pipe
  shifted (goes_on c) = goes_on (shift c)
  shifted (stops e c) = stops e (shift c)

  if-shift :
      (b : Bool) (x y x' y' : Round Ctx Pipe)
      → x' ≡ shifted x
      → y' ≡ shifted y
      → (if b then x' else y') ≡ shifted (if b then x else y)
  if-shift true x y x' y' h k = h
  if-shift false x y x' y' h k = k

  option-shift :
      {A : Type 0} (o : Option A) (x x' : Round Ctx Pipe) (f f' : A → Round Ctx Pipe)
      → x' ≡ shifted x
      → ((a : A) → o ≡ some a → f' a ≡ shifted (f a))
      → (elim o as (λ t. Round Ctx Pipe) [ none ↦ x' | some a ↦ f' a ])
        ≡ shifted (elim o as (λ t. Round Ctx Pipe) [ none ↦ x | some a ↦ f a ])
  option-shift none x x' f f' h k = h
  option-shift (some a) x x' f f' h k = k a refl

  on_send-shift :
      (w : World Pipe) (c : Conn Ctx Pipe) (b : Bytes)
      → on_send w (shift c) b ≡ shifted (on_send w c b)
  unfolding on_send
  on_send-shift w c b = if-shift (w.send_works c.log) _ _ _ _ refl refl

  on_authorize-shift :
      (hooks : Hooks Ctx Pipe) (c : Conn Ctx Pipe) (user password : Option Text)
      → IsBlind hooks
      → on_authorize hooks (shift c) user password ≡ shifted (on_authorize hooks c user password)
  unfolding on_authorize Decisions.ok receive
  on_authorize-shift hooks c user password k = option-shift hooks.authorize _ _ _ _ refl (λ hook e.
      ap (λ t. goes_on (did (record c { sess = t; incoming = more }) (asked user password)))
        (ap (λ v. run_hook (receive c.sess d) v (pos (value not_allowed)))
            (k.authorize hook e c.sess d user password)
          ∙ run_hook-receive d c.sess (hook c.sess user password) (pos (value not_allowed))))

  dial_result-shift :
      (c : Conn Ctx Pipe) (r : Dial) → dial_result (shift c) r ≡ shifted (dial_result c r)
  unfolding dial_result Decisions.connected Decisions.connect_failed receive
  dial_result-shift c (Dial.opened host port) = refl
  dial_result-shift c Dial.refused = refl
  dial_result-shift c Dial.timed_out = refl
  dial_result-shift c Dial.net_unreachable = refl
  dial_result-shift c Dial.other_os_error = refl
  dial_result-shift c Dial.nameless = refl
  dial_result-shift c (Dial.raises e) = refl

  dial-shift : (w : World Pipe) (c : Conn Ctx Pipe) → dial w (shift c) ≡ shifted (dial w c)
  unfolding dial receive
  dial-shift w c =
      option-shift c.sess.target _ _ _ _ refl
        (λ to e. dial_result-shift (did c (dialled to (w.dial c.log to))) (w.dial c.log to))

  hooked-shift :
      (hooks : Hooks Ctx Pipe) (c : Conn Ctx Pipe) (host : Text) (port : ℕ)
      → IsBlind hooks
      → hooked hooks (shift c) host port ≡ receive (hooked hooks c host port) d
  hooked-shift hooks c host port k = by_hook hooks.on_connect refl
    where
      by_hook :
          (o : Option (ServerSession Ctx Pipe → Text → ℕ → Verdict Ctx Pipe))
          → hooks.on_connect ≡ o
          → (elim o as (λ t. ServerSession Ctx Pipe) [
            | none ↦ receive c.sess d
            | some hook ↦
                run_hook
                  (receive c.sess d)
                  (hook (receive c.sess d) host port)
                  (pos (value general_failure))
          ])
            ≡ receive
                (elim o as (λ t. ServerSession Ctx Pipe) [
                  | none ↦ c.sess
                  | some hook ↦
                      run_hook c.sess (hook c.sess host port) (pos (value general_failure))
                ])
                d
      by_hook none e = refl
      by_hook (some hook) e =
          ap (λ v. run_hook (receive c.sess d) v (pos (value general_failure)))
            (k.on_connect hook e c.sess d host port)
          ∙ run_hook-receive d c.sess (hook c.sess host port) (pos (value general_failure))

  -- `on_connect` behind its hook.
  abbrev connecting :
      World Pipe → Conn Ctx Pipe → Text → ℕ → ServerSession Ctx Pipe → Round Ctx Pipe
  connecting w c host port s =
      if s.rejected
      then goes_on (record c { sess = s })
      else if s.intercepted
      then goes_on (record c { sess = Decisions.connected s host (pos port) })
      else dial w (record c { sess = s })

  connecting-shift :
      (w : World Pipe) (c : Conn Ctx Pipe) (host : Text) (port : ℕ) (s : ServerSession Ctx Pipe)
      → connecting w (shift c) host port (receive s d) ≡ shifted (connecting w c host port s)
  unfolding Decisions.connected receive
  connecting-shift w c host port s =
      if-shift s.rejected _ _ _ _ refl
        (if-shift s.intercepted _ _ _ _ refl (dial-shift w (record c { sess = s })))

  on_connect-shift :
      (hooks : Hooks Ctx Pipe) (w : World Pipe) (c : Conn Ctx Pipe) (host : Text) (port : ℕ)
      → IsBlind hooks
      → on_connect hooks w (shift c) host port ≡ shifted (on_connect hooks w c host port)
  unfolding on_connect
  on_connect-shift hooks w c host port k =
      ap (connecting w (shift c) host port) (hooked-shift hooks c host port k)
      ∙ connecting-shift w c host port (hooked hooks c host port)

  run_pipe-shift :
      (streams : Bool) (w : World Pipe) (c : Conn Ctx Pipe) (fn : Pipe)
      → run_pipe streams w (shift c) fn ≡ shifted (run_pipe streams w c fn)
  unfolding run_pipe
  run_pipe-shift streams w c fn = option-shift (w.pipe_raises c.log fn) _ _ _ _ refl (λ x e. refl)

  -- What the branch for `Relay` does with the bytes that were read too many: nothing.
  abbrev pub Shifts : (World Pipe → Conn Ctx Pipe → Round Ctx Pipe) → World Pipe → Type 0
  Shifts relaying w = (c : Conn Ctx Pipe) → relaying w (shift c) ≡ shifted (relaying w c)

  pub on_relay-shift : (w : World Pipe) → Shifts on_relay w
  unfolding on_relay receive
  on_relay-shift w c =
      option-shift c.sess.custom_pipe _ _ _ _ (if-shift c.upstream _ _ _ _ refl refl)
        (λ fn e. run_pipe-shift false w c fn)

  pub on_relay_async-shift : (w : World Pipe) → Shifts on_relay_async w
  unfolding on_relay_async receive
  on_relay_async-shift w c =
      option-shift c.sess.custom_pipe _ _ _ _ (if-shift c.upstream _ _ _ _ refl refl)
        (λ fn e. run_pipe-shift true w c fn)

  pub on_event-shift :
      (relaying : World Pipe → Conn Ctx Pipe → Round Ctx Pipe) (hooks : Hooks Ctx Pipe)
      (w : World Pipe) (c : Conn Ctx Pipe) (e : Event)
      → IsBlind hooks
      → Shifts relaying w
      → IsOther e
      → on_event relaying hooks w (shift c) e ≡ shifted (on_event relaying hooks w c e)
  on_event-shift relaying hooks w c (send b) k r o = on_send-shift w c b
  on_event-shift relaying hooks w c need_data k r o = absurd o
  on_event-shift relaying hooks w c (authorize user password) k r o =
      on_authorize-shift hooks c user password k
  on_event-shift relaying hooks w c (connect cmd host port) k r o =
      on_connect-shift hooks w c host port k
  on_event-shift relaying hooks w c (relay host port) k r o = r c
  on_event-shift relaying hooks w c (close reason) k r o = refl
