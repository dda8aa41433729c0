-- ===== src/Server/Driver/Admission/Kept.antt =====
-- Every turn of the drivers in src/optisocks5/server/server.py and aio.py keeps to the policy of the
-- authorize hook.
use optisocks.Prelude.{
  ℕ, ℤ, pos, ◌≡◌, inl, inr, ◌⊎◌, Bool, true, false, ◌||◌, Option, none, some, List, [], ◌∷◌, Bytes,
  Text, ok, err, arith, if◌then◌else◌, Bool-cases,
}
use optisocks.Codec.Platform.{Platform}
use optisocks.Core.Types.{value, not_allowed}
use optisocks.Server.Events.{Event, send, need_data, authorize, connect, close}
use optisocks.Server.State.{ServerSession}
use optisocks.Server.Decisions
use optisocks.Server.Machine.{Yield, next_event}
use optisocks.Server.Machine.Early.{IsAsking}
use optisocks.Server.Machine.Barred.{IsBarred, IsBarredYield, next_event-IsBarred}
use optisocks.Server.Hooks.{Verdict, Hooks, Dial, Action, World, Recv, dialled}
use optisocks.Server.Driver.{
  Conn, Round, goes_on, stops, did, on_send, on_need_data, on_authorize, dial_result, dial, hooked,
  on_connect, run_pipe, on_relay, on_relay_async, on_next,
}
use optisocks.Server.Driver.Admission.{
  Policy, has_passed, vetted, and_true, Enforces, run_hook-IsUnmoved, unmoved-IsAsking,
}

or_true : (a : Bool) {b : Bool} → b ≡ true → (a || b) ≡ true
or_true a h = ground arith

module _ {Ctx Pipe : Type 0} (accepts : Policy) where
  -- The log keeps to the policy, and without an accepted client the session is barred.
  abbrev pub IsVetted : Conn Ctx Pipe → Type 0
  IsVetted c = (vetted accepts c.log ≡ true) × ((has_passed accepts c.log ≡ true) ⊎ IsBarred c.sess)

  abbrev pub Keeps : Round Ctx Pipe → Type 0
  Keeps (goes_on c) = IsVetted c
  Keeps (stops e c) = vetted accepts c.log ≡ true

  if-Keeps : (b : Bool) (x y : Round Ctx Pipe) → Keeps x → Keeps y → Keeps (if b then x else y)
  if-Keeps true x y h k = h
  if-Keeps false x y h k = k

  option-Keeps :
      {A : Type 0} (o : Option A) (x : Round Ctx Pipe) (f : A → Round Ctx Pipe)
      → Keeps x
      → ((a : A) → Keeps (f a))
      → Keeps (elim o as (λ t. Round Ctx Pipe) [ none ↦ x | some a ↦ f a ])
  option-Keeps none x f h k = h
  option-Keeps (some a) x f h k = k a

  on_send-Keeps :
      (w : World Pipe) (c : Conn Ctx Pipe) (b : Bytes) → IsVetted c → Keeps (on_send w c b)
  unfolding on_send
  on_send-Keeps w c b h = if-Keeps (w.send_works c.log) _ _ h h.0

  reading-Keeps :
      (s : ServerSession Ctx Pipe) (u : Bool) (incoming : List Recv) (log : List (Action Pipe))
      → vetted accepts log ≡ true
      → (has_passed accepts log ≡ true) ⊎ IsBarred s
      → Keeps (on_need_data (record { sess = s; upstream = u; incoming = incoming; log = log }))
  unfolding on_need_data Decisions.receive
  reading-Keeps s u [] log g h = g
  reading-Keeps s u (Recv.broken ∷ more) log g h = g
  reading-Keeps s u (Recv.chunk [] ∷ more) log g h = g
  reading-Keeps s u (Recv.chunk (b ∷ bs) ∷ more) log g h = (g, h)

  on_need_data-Keeps : (c : Conn Ctx Pipe) → IsVetted c → Keeps (on_need_data c)
  on_need_data-Keeps c h = reading-Keeps c.sess c.upstream c.incoming c.log h.0 h.1

  module _ (hooks : Hooks Ctx Pipe)
      (hook : ServerSession Ctx Pipe → Option Text → Option Text → Verdict Ctx Pipe)
      (is_hook : hooks.authorize ≡ some hook) where
    asked_again-Keeps :
        (c : Conn Ctx Pipe) (user password : Option Text)
        → vetted accepts c.log ≡ true
        → has_passed accepts c.log ≡ true
        → Keeps (on_authorize hooks c user password)
    unfolding on_authorize
    asked_again-Keeps c user password g a = rw is_hook (g, inl (or_true (accepts user password) a))

    asked_first-Keeps :
        (c : Conn Ctx Pipe) (user password : Option Text)
        → Enforces accepts hook
        → vetted accepts c.log ≡ true
        → IsAsking c.sess
        → Keeps (on_authorize hooks c user password)
    unfolding on_authorize
    asked_first-Keeps c user password k g a = elim (Bool-cases (accepts user password)) [
      | inl fine ↦ rw is_hook (g, inl (ground arith))
      | inr refused ↦
          let v = hook c.sess user password in
          let i = run_hook-IsUnmoved c.sess v (pos (value not_allowed)) in
          rw is_hook (g, inr (inr (unmoved-IsAsking c.sess _ i a, k c.sess user password refused)))
    ]

  dial_result-Keeps :
      (c : Conn Ctx Pipe) (to : Text × ℤ) (r : Dial)
      → vetted accepts c.log ≡ true
      → has_passed accepts c.log ≡ true
      → Keeps (dial_result (did c (dialled to r)) r)
  unfolding dial_result
  dial_result-Keeps c to (Dial.raises e) g a = and_true a g
  dial_result-Keeps c to _ g a = (and_true a g, inl a)

  on_connect-Keeps :
      (hooks : Hooks Ctx Pipe) (w : World Pipe) (c : Conn Ctx Pipe) (host : Text) (port : ℕ)
      → vetted accepts c.log ≡ true
      → has_passed accepts c.log ≡ true
      → Keeps (on_connect hooks w c host port)
  unfolding on_connect dial
  on_connect-Keeps hooks w c host port g a =
      let s = hooked hooks c host port in
      if-Keeps s.rejected _ _ (g, inl a)
        (if-Keeps s.intercepted _ _ (g, inl a)
          (option-Keeps s.target _ _ g
            (λ to. dial_result-Keeps (record c { sess = s }) to (w.dial c.log to) g a)))

  run_pipe-Keeps :
      (streams : Bool) (w : World Pipe) (c : Conn Ctx Pipe) (fn : Pipe)
      → vetted accepts c.log ≡ true
      → has_passed accepts c.log ≡ true
      → Keeps (run_pipe streams w c fn)
  unfolding run_pipe
  run_pipe-Keeps streams w c fn g a =
      option-Keeps (w.pipe_raises c.log fn) _ _ (and_true a g) (λ e. and_true a g)

  -- What the branch for `Relay` does.
  abbrev pub Relays : (World Pipe → Conn Ctx Pipe → Round Ctx Pipe) → World Pipe → Type 0
  Relays relaying w =
      (c : Conn Ctx Pipe)
      → vetted accepts c.log ≡ true
      → has_passed accepts c.log ≡ true
      → Keeps (relaying w c)

  pub on_relay-Keeps : (w : World Pipe) → Relays on_relay w
  unfolding on_relay
  on_relay-Keeps w c g a =
      option-Keeps c.sess.custom_pipe _ _ (if-Keeps c.upstream _ _ (and_true a g) g)
        (λ fn. run_pipe-Keeps false w c fn g a)

  pub on_relay_async-Keeps : (w : World Pipe) → Relays on_relay_async w
  unfolding on_relay_async
  on_relay_async-Keeps w c g a =
      option-Keeps c.sess.custom_pipe _ _ (if-Keeps c.upstream _ _ (and_true a g) g)
        (λ fn. run_pipe-Keeps true w c fn g a)

module _ {Ctx Pipe : Type 0} (p : Platform) (accepts : Policy)
    (relaying : World Pipe → Conn Ctx Pipe → Round Ctx Pipe) (hooks : Hooks Ctx Pipe)
    (w : World Pipe) (hook : ServerSession Ctx Pipe → Option Text → Option Text → Verdict Ctx Pipe)
    (is_hook : hooks.authorize ≡ some hook) (k : Enforces accepts hook)
    (relay_keeps : Relays accepts relaying w) where
  passed-Keeps :
      (c : Conn Ctx Pipe) (y : Yield Ctx Pipe)
      → vetted accepts c.log ≡ true
      → has_passed accepts c.log ≡ true
      → Keeps accepts (on_next relaying hooks w c y)
  passed-Keeps c (err e, s) g a = g
  passed-Keeps c (ok (send b), s) g a = on_send-Keeps accepts w (record c { sess = s }) b (g, inl a)
  passed-Keeps c (ok need_data, s) g a =
      on_need_data-Keeps accepts (record c { sess = s }) (g, inl a)
  passed-Keeps c (ok (authorize user password), s) g a =
      asked_again-Keeps accepts hooks hook is_hook (record c { sess = s }) user password g a
  passed-Keeps c (ok (connect cmd host port), s) g a =
      on_connect-Keeps accepts hooks w (record c { sess = s }) host port g a
  passed-Keeps c (ok (Event.relay host port), s) g a = relay_keeps (record c { sess = s }) g a
  passed-Keeps c (ok (close reason), s) g a = g

  barred-Keeps :
      (c : Conn Ctx Pipe) (y : Yield Ctx Pipe)
      → vetted accepts c.log ≡ true
      → IsBarredYield y
      → Keeps accepts (on_next relaying hooks w c y)
  barred-Keeps c (err e, s) g h = g
  barred-Keeps c (ok (send b), s) g h = on_send-Keeps accepts w (record c { sess = s }) b (g, inr h)
  barred-Keeps c (ok need_data, s) g h =
      on_need_data-Keeps accepts (record c { sess = s }) (g, inr h)
  barred-Keeps c (ok (authorize user password), s) g h =
      asked_first-Keeps accepts hooks hook is_hook (record c { sess = s }) user password k g h
  barred-Keeps c (ok (connect cmd host port), s) g h = absurd (ground arith)
  barred-Keeps c (ok (Event.relay host port), s) g h = absurd (ground arith)
  barred-Keeps c (ok (close reason), s) g h = g

  pub on_next-Keeps :
      (c : Conn Ctx Pipe)
      → IsVetted accepts c
      → Keeps accepts (on_next relaying hooks w c (next_event p c.sess))
  on_next-Keeps c (g, inl a) = passed-Keeps c (next_event p c.sess) g a
  on_next-Keeps c (g, inr h) =
      barred-Keeps c (next_event p c.sess) g (next_event-IsBarred p c.sess h)
