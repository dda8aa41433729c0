-- ===== src/Server/Driver/Admission/Serving.antt =====
-- `_handle` of src/optisocks5/server/server.py and aio.py serves nobody whom the authorize hook
-- rejects.
use optisocks.Prelude.{
  ℕ, zero, suc, ◌≡◌, refl, ◌∙◌, inl, inr, true, Option, some, List, Text, arith,
}
use optisocks.Codec.Platform.{Platform}
use optisocks.Server.State.{ServerSession, init}
use optisocks.Server.Machine.{next_event}
use optisocks.Server.Hooks.{Verdict, Hooks, World, Recv}
use optisocks.Server.Driver.{
  Conn, Exit, Round, goes_on, stops, on_relay, on_relay_async, on_next, cleanup, start, enough,
  loop, run, handle, handle_async,
}
use optisocks.Server.Driver.Admission.{Policy, vetted, Enforces}
use optisocks.Server.Driver.Admission.Kept.{
  IsVetted, Keeps, Relays, on_relay-Keeps, on_relay_async-Keeps, on_next-Keeps,
}

module _ {Ctx Pipe : Type 0} (p : Platform) (accepts : Policy)
    (relaying : World Pipe → Conn Ctx Pipe → Round Ctx Pipe) (hooks : Hooks Ctx Pipe)
    (w : World Pipe) (hook : ServerSession Ctx Pipe → Option Text → Option Text → Verdict Ctx Pipe)
    (is_hook : hooks.authorize ≡ some hook) (k : Enforces accepts hook)
    (relay_keeps : Relays accepts relaying w) where
  loop-vetted :
      (f : ℕ) (c : Conn Ctx Pipe)
      → IsVetted accepts c
      → vetted accepts (loop p relaying hooks w f c).1.log ≡ true
  unfolding loop
  loop-vetted zero c h = h.0
  loop-vetted (suc f) c h =
      by_round (on_next relaying hooks w c (next_event p c.sess))
        (on_next-Keeps p accepts relaying hooks w hook is_hook k relay_keeps c h)
        (λ c'. loop-vetted f c')
    where
      by_round :
          (r : Round Ctx Pipe)
          → Keeps accepts r
          → ((c' : Conn Ctx Pipe)
              → IsVetted accepts c'
              → vetted accepts (loop p relaying hooks w f c').1.log ≡ true)
          → vetted accepts
              (elim r as (λ t. Exit × Conn Ctx Pipe) [
                | goes_on c' ↦ loop p relaying hooks w f c'
                | stops e c' ↦ (e, c')
              ]).1.log
            ≡ true
      by_round (goes_on c') h' ih = ih c' h'
      by_round (stops e c') h' ih = h'

  cleanup-vetted : (c : Conn Ctx Pipe) → vetted accepts (cleanup hooks c) ≡ vetted accepts c.log
  unfolding cleanup
  cleanup-vetted c = ground arith

  start-IsVetted : (incoming : List Recv) → IsVetted accepts (start hooks incoming)
  unfolding start init
  start-IsVetted incoming = (refl, inr (inl (rw is_hook refl, refl, refl)))

  pub run-vetted :
      (incoming : List Recv) → vetted accepts (run p relaying hooks w incoming).1 ≡ true
  unfolding run
  run-vetted incoming =
      cleanup-vetted (loop p relaying hooks w (enough incoming) (start hooks incoming)).1
      ∙ loop-vetted (enough incoming) (start hooks incoming) (start-IsVetted incoming)

-- With an authorize hook that rejects every client that a policy does not accept, be it by `reject`
-- or by an exception: whatever the client sends and the sockets, dialling and relay functions do,
-- the threaded driver and the asyncio one dial, splice or call a relay function only after the hook
-- was asked about credentials that the policy accepts.
pub handle-vetted :
    {Ctx Pipe : Type 0} (p : Platform) (accepts : Policy) (hooks : Hooks Ctx Pipe) (w : World Pipe)
    (hook : ServerSession Ctx Pipe → Option Text → Option Text → Verdict Ctx Pipe)
    (incoming : List Recv)
    → hooks.authorize ≡ some hook
    → Enforces accepts hook
    → (vetted accepts (handle p hooks w incoming).1 ≡ true)
      × (vetted accepts (handle_async p hooks w incoming).1 ≡ true)
unfolding handle handle_async
handle-vetted p accepts hooks w hook incoming is_hook k = (
  run-vetted p accepts on_relay hooks w hook is_hook k (on_relay-Keeps accepts w) incoming,
  run-vetted p accepts on_relay_async hooks w hook is_hook k (on_relay_async-Keeps accepts w)
      incoming,
)
