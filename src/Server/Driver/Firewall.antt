-- ===== src/Server/Driver/Firewall.antt =====
-- The drivers of src/optisocks5/server/server.py and aio.py with a connect hook: which upstreams they
-- dial.
pub mod Dials
use optisocks.Prelude.{
  ℕ, zero, suc, ℤ, pos, ◌≡◌, refl, ap, ◌∙◌, inl, inr, Bool, true, false, ◌&&◌, Option, none, some,
  Bool-cases, Option-cases, List, [], ◌∷◌, Bytes, Text, ok, err, arith, if◌then◌else◌,
}
use optisocks.Codec.Platform.{Platform}
use optisocks.Core.Types.{value, general_failure, not_allowed}
use optisocks.Server.Events.{Event, send, need_data, authorize, connect, close}
use optisocks.Server.State.{ServerSession, Endpoint, init}
use optisocks.Server.Decisions
use optisocks.Server.Machine.{Yield, next_event}
use optisocks.Server.Machine.Targets.{IsAimed, no_connect, next_event-IsAimed}
use optisocks.Server.Hooks.{Verdict, Hooks, Dial, Action, World, Recv, dialled}
use optisocks.Server.Driver.{
  Conn, Exit, Round, goes_on, stops, did, on_send, on_need_data, on_authorize, dial_result, dial,
  run_hook, hooked, on_connect, run_pipe, on_relay, on_relay_async, on_next, cleanup, start, enough,
  loop, run, handle, handle_async,
}
use optisocks.Server.Driver.Admission.{and_true, run_hook-IsUnmoved}

-- Every upstream that was dialled is an allowed one.
abbrev pub all_allowed : {Pipe : Type 0} → (Endpoint → Bool) → List (Action Pipe) → Bool
all_allowed allows [] = true
all_allowed allows (dialled to r ∷ log) = allows to && all_allowed allows log
all_allowed allows (_ ∷ log) = all_allowed allows log

-- What the hook neither rejects nor intercepts, it leaves with an allowed target.
abbrev pub Guards :
    {Ctx Pipe : Type 0}
    → (Endpoint → Bool)
    → (ServerSession Ctx Pipe → Text → ℕ → Verdict Ctx Pipe)
    → Type 0
Guards allows hook =
    (s : _) (host : Text) (port : ℕ) (to : Endpoint)
    → s.target ≡ some (host, pos port)
    → (run_hook s (hook s host port) (pos (value general_failure))).rejected ≡ false
    → (run_hook s (hook s host port) (pos (value general_failure))).intercepted ≡ false
    → (run_hook s (hook s host port) (pos (value general_failure))).target ≡ some to
    → allows to ≡ true

module _ {Ctx Pipe : Type 0} (allows : Endpoint → Bool) where
  abbrev pub IsGuarded : Conn Ctx Pipe → Type 0
  IsGuarded c = (all_allowed allows c.log ≡ true) × (no_connect c.sess.out ≡ true)

  abbrev pub Keeps : Round Ctx Pipe → Type 0
  Keeps (goes_on c) = IsGuarded c
  Keeps (stops e c) = all_allowed allows c.log ≡ true

  if-Keeps :
      (b : Bool) (x y : Round Ctx Pipe)
      → (b ≡ true → Keeps x)
      → (b ≡ false → Keeps y)
      → Keeps (if b then x else y)
  if-Keeps true x y h k = h refl
  if-Keeps false x y h k = k refl

  option-Keeps :
      {A : Type 0} (o : Option A) (x : Round Ctx Pipe) (f : A → Round Ctx Pipe)
      → Keeps x
      → ((a : A) → o ≡ some a → Keeps (f a))
      → Keeps (elim o as (λ t. Round Ctx Pipe) [ none ↦ x | some a ↦ f a ])
  option-Keeps none x f h k = h
  option-Keeps (some a) x f h k = k a refl

  pub on_send-Keeps :
      (w : World Pipe) (c : Conn Ctx Pipe) (b : Bytes) → IsGuarded c → Keeps (on_send w c b)
  unfolding on_send
  on_send-Keeps w c b h = if-Keeps (w.send_works c.log) _ _ (λ e. h) (λ e. h.0)

  pub reading-Keeps :
      (s : ServerSession Ctx Pipe) (u : Bool) (incoming : List Recv) (log : List (Action Pipe))
      → all_allowed allows log ≡ true
      → no_connect s.out ≡ true
      → Keeps (on_need_data (record { sess = s; upstream = u; incoming = incoming; log = log }))
  unfolding on_need_data Decisions.receive
  reading-Keeps s u [] log g h = g
  reading-Keeps s u (Recv.broken ∷ more) log g h = g
  reading-Keeps s u (Recv.chunk [] ∷ more) log g h = g
  reading-Keeps s u (Recv.chunk (b ∷ bs) ∷ more) log g h = (g, h)

  hook_out :
      (s : ServerSession Ctx Pipe) (v : Verdict Ctx Pipe) (rep : ℤ)
      → no_connect s.out ≡ true
      → no_connect (run_hook s v rep).out ≡ true
  hook_out s v rep h = ap no_connect (run_hook-IsUnmoved s v rep).out ∙ h

  pub on_authorize-Keeps :
      (hooks : Hooks Ctx Pipe) (c : Conn Ctx Pipe) (user password : Option Text)
      → IsGuarded c
      → Keeps (on_authorize hooks c user password)
  unfolding on_authorize Decisions.ok
  on_authorize-Keeps hooks c user password (g, n) =
      option-Keeps hooks.authorize _ _ (g, n) (λ hook e. (g, hook_out c.sess _ _ n))

  dial_result-Keeps :
      (c : Conn Ctx Pipe) (to : Endpoint) (r : Dial)
      → allows to ≡ true
      → IsGuarded c
      → Keeps (dial_result (did c (dialled to r)) r)
  unfolding dial_result Decisions.connected Decisions.connect_failed
  dial_result-Keeps c to (Dial.raises e) a (g, n) = and_true a g
  dial_result-Keeps c to _ a (g, n) = (and_true a g, n)

  pub on_connect-Keeps :
      (hooks : Hooks Ctx Pipe) (w : World Pipe)
      (hook : ServerSession Ctx Pipe → Text → ℕ → Verdict Ctx Pipe) (c : Conn Ctx Pipe)
      (host : Text) (port : ℕ)
      → hooks.on_connect ≡ some hook
      → Guards allows hook
      → c.sess.target ≡ some (host, pos port)
      → IsGuarded c
      → Keeps (on_connect hooks w c host port)
  unfolding on_connect dial Decisions.connected
  on_connect-Keeps hooks w hook c host port is_hook k t (g, n) =
      let s = run_hook c.sess (hook c.sess host port) (pos (value general_failure)) in
      let n' = hook_out c.sess (hook c.sess host port) (pos (value general_failure)) n in
      rw is_hook (
        if-Keeps s.rejected _ _ (λ e. (g, n'))
          (λ r.
            if-Keeps s.intercepted _ _ (λ e. (g, n'))
              (λ i. option-Keeps s.target _ _ g (λ to e.
                dial_result-Keeps (record c { sess = s }) to (w.dial c.log to)
                  (k c.sess host port to t r i e) (g, n')))))

  run_pipe-Keeps :
      (streams : Bool) (w : World Pipe) (c : Conn Ctx Pipe) (fn : Pipe)
      → all_allowed allows c.log ≡ true
      → Keeps (run_pipe streams w c fn)
  unfolding run_pipe
  run_pipe-Keeps streams w c fn g = option-Keeps (w.pipe_raises c.log fn) _ _ g (λ e h. g)

  abbrev pub Relays : (World Pipe → Conn Ctx Pipe → Round Ctx Pipe) → World Pipe → Type 0
  Relays relaying w = (c : Conn Ctx Pipe) → all_allowed allows c.log ≡ true → Keeps (relaying w c)

  pub on_relay-Keeps : (w : World Pipe) → Relays on_relay w
  unfolding on_relay
  on_relay-Keeps w c g =
      option-Keeps c.sess.custom_pipe _ _ (if-Keeps c.upstream _ _ (λ e. g) (λ e. g))
        (λ fn e. run_pipe-Keeps false w c fn g)

  pub on_relay_async-Keeps : (w : World Pipe) → Relays on_relay_async w
  unfolding on_relay_async
  on_relay_async-Keeps w c g =
      option-Keeps c.sess.custom_pipe _ _ (if-Keeps c.upstream _ _ (λ e. g) (λ e. g))
        (λ fn e. run_pipe-Keeps true w c fn g)
