-- ===== src/Server/Driver/Grammar/Turns.antt =====
-- The turns of the drivers in src/optisocks5/server/server.py and aio.py, by the rule of
-- Server/Driver/Grammar.antt.
use optisocks.Prelude.{
  ℤ, pos, ◌≡◌, refl, sym, subst, ◌∙◌, inl, inr, Bool, true, false, Option, none, some, List, [],
  ◌∷◌, Bytes, Text, arith, if◌then◌else◌,
}
use optisocks.Core.Types.{value, not_allowed}
use optisocks.Server.State.{
  ServerSession, Phase, greeting, auth, auth_wait, request, connect_wait, relay, closed,
}
use optisocks.Server.Decisions
use optisocks.Server.Hooks.{
  Decision, Verdict, Hooks, Action, World, Recv, sent, asked, apply, apply_all,
}
use optisocks.Server.Driver.{
  Conn, Round, goes_on, stops, did, run_hook, on_send, on_need_data, on_authorize,
}
use optisocks.Server.Driver.Admission.{run_hook-IsUnmoved}
use optisocks.Server.Driver.Grammar.{
  Talk, silent, challenged, judged, granted, dialling, opened, relayed, over, message, next_talk,
  said,
}
use optisocks.Server.Driver.Grammar.Steps.{QueueFits, Waits, Stands, Fits}

module _ {Pipe : Type 0} where
  -- The log keeps to the rule.
  abbrev pub IsSaid : List (Action Pipe) → Type 0
  IsSaid log = (t : Talk) × (said log ≡ some t)

  pub said_next :
      (log : List (Action Pipe)) (a : Action Pipe) (t t' : Talk)
      → said log ≡ some t
      → next_talk t a ≡ some t'
      → said (a ∷ log) ≡ some t'
  said_next log a t t' h k = rw h k

module _ {Ctx Pipe : Type 0} where
  -- The session is where the log has led.
  abbrev pub Talks : Conn Ctx Pipe → Type 0
  Talks c = (t : Talk) × (said c.log ≡ some t) × Fits t c.sess

  abbrev pub Keeps : Round Ctx Pipe → Type 0
  Keeps (goes_on c) = Talks c
  Keeps (stops e c) = IsSaid c.log

  pub if-Keeps : (b : Bool) (x y : Round Ctx Pipe) → Keeps x → Keeps y → Keeps (if b then x else y)
  if-Keeps true x y h k = h
  if-Keeps false x y h k = k

  pub option-Keeps :
      {A : Type 0} (o : Option A) (x : Round Ctx Pipe) (f : A → Round Ctx Pipe)
      → Keeps x
      → ((a : A) → Keeps (f a))
      → Keeps (elim o as (λ t. Round Ctx Pipe) [ none ↦ x | some a ↦ f a ])
  option-Keeps none x f h k = h
  option-Keeps (some a) x f h k = k a

  pub Fits-idle :
      (t : Talk) (s : ServerSession Ctx Pipe) (st : Phase)
      → s.out ≡ []
      → s.state ≡ st
      → Stands st t s
      → Fits t s
  Fits-idle t s st o e h = (subst (QueueFits t) (sym o) tt, subst (λ x. Stands x t s) (sym e) h)

  Waits-receive :
      (t : Talk) (s : ServerSession Ctx Pipe) (d : Bytes)
      → Waits t s
      → Waits t (Decisions.receive s d)
  unfolding Decisions.receive
  Waits-receive granted s d h = tt
  Waits-receive (dialling true) s d h = h
  Waits-receive (dialling false) s d h = h
  Waits-receive silent s d h = absurd h
  Waits-receive challenged s d h = absurd h
  Waits-receive judged s d h = absurd h
  Waits-receive opened s d h = absurd h
  Waits-receive relayed s d h = absurd h
  Waits-receive over s d h = absurd h

  Stands-receive :
      (st : Phase) (t : Talk) (s : ServerSession Ctx Pipe) (d : Bytes)
      → Stands st t s
      → Stands st t (Decisions.receive s d)
  Stands-receive greeting t s d h = h
  Stands-receive auth t s d h = h
  Stands-receive auth_wait t s d h = h
  Stands-receive request t s d h = h
  Stands-receive connect_wait t s d h = Waits-receive t s d h
  Stands-receive relay t s d h = h
  Stands-receive closed t s d h = h

  pub on_send-Keeps :
      (w : World Pipe) (c : Conn Ctx Pipe) (b : Bytes) (t t' : Talk)
      → said c.log ≡ some t
      → message t b ≡ some t'
      → Fits t' c.sess
      → Keeps (on_send w c b)
  unfolding on_send
  on_send-Keeps w c b t t' h k f =
      if-Keeps (w.send_works c.log) _ _ (t', said_next c.log (sent b) t t' h k, f) (t, h)

  pub reading-Keeps :
      (s : ServerSession Ctx Pipe) (u : Bool) (incoming : List Recv) (log : List (Action Pipe))
      (t : Talk)
      → said log ≡ some t
      → Fits t s
      → Keeps (on_need_data (record { sess = s; upstream = u; incoming = incoming; log = log }))
  unfolding on_need_data Decisions.receive
  reading-Keeps s u [] log t h f = (t, h)
  reading-Keeps s u (Recv.broken ∷ more) log t h f = (t, h)
  reading-Keeps s u (Recv.chunk [] ∷ more) log t h f = (t, h)
  reading-Keeps s u (Recv.chunk (b ∷ bs) ∷ more) log t h (q, st) =
      (t, h, (q, Stands-receive s.state t s (b ∷ bs) st))

  pub on_authorize-Keeps :
      (hooks : Hooks Ctx Pipe) (c : Conn Ctx Pipe) (user password : Option Text)
      → said c.log ≡ some challenged
      → c.sess.state ≡ auth_wait
      → c.sess.out ≡ []
      → Keeps (on_authorize hooks c user password)
  unfolding on_authorize Decisions.ok
  on_authorize-Keeps hooks c user password h st o = by_hook hooks.authorize
    where
      by_hook :
          (a : Option (ServerSession Ctx Pipe → Option Text → Option Text → Verdict Ctx Pipe))
          → Keeps (elim a as (λ t. Round Ctx Pipe) [
            | none ↦ goes_on (record c { sess = Decisions.ok c.sess none })
            | some hook ↦ goes_on (
                did
                  (record c {
                    sess = run_hook c.sess (hook c.sess user password) (pos (value not_allowed));
                  })
                  (asked user password))
          ])
      by_hook none = (challenged, h, Fits-idle challenged _ auth_wait o st (inl refl))
      by_hook (some hook) =
          let i = run_hook-IsUnmoved c.sess (hook c.sess user password) (pos (value not_allowed)) in
          (
            judged,
            said_next c.log (asked user password) challenged judged h refl,
            Fits-idle judged _ auth_wait (i.out ∙ o) (i.state ∙ st) (inr refl),
          )

  -- A hook cannot report a dial.
  apply-failed :
      (s : ServerSession Ctx Pipe) (d : Decision Ctx Pipe) → (apply s d).failed ≡ s.failed
  unfolding apply Decisions.ok Decisions.reject Decisions.set_target Decisions.pipe
      Decisions.relay_raw Decisions.intercept
  apply-failed s (Decision.ok ctx) = refl
  apply-failed s _ = refl

  apply_all-failed :
      (s : ServerSession Ctx Pipe) (ds : List (Decision Ctx Pipe))
      → (apply_all s ds).failed ≡ s.failed
  unfolding apply_all
  apply_all-failed s [] = refl
  apply_all-failed s (d ∷ ds) = apply_all-failed (apply s d) ds ∙ apply-failed s d

  pub run_hook-failed :
      (s : ServerSession Ctx Pipe) (v : Verdict Ctx Pipe) (rep : ℤ)
      → (run_hook s v rep).failed ≡ s.failed
  unfolding run_hook Decisions.reject
  run_hook-failed s v rep = ground (arith, apply_all-failed s v.calls)
