-- ===== src/Server/Driver/Streams/Joined.antt =====
-- The loops of `_handle` in src/optisocks5/server/server.py and aio.py, and one that has read more of
-- the client's bytes before.
use optisocks.Prelude.{
  ℕ, zero, suc, ◌≡◌, ◌≢◌, refl, sym, ap, subst, ◌∙◌, ◌⊎◌, inl, inr, Bool, true, false, List, Bytes,
  ok, err,
}
use optisocks.Codec.Platform.{Platform}
use optisocks.Server.Events.{Event, send, need_data, authorize, connect, relay, close}
use optisocks.Server.State.{ServerSession}
use optisocks.Server.Decisions.{receive}
use optisocks.Server.Machine.{Yield, next_event}
use optisocks.Server.Machine.Cuts.{IsTidy, IsCut, next_event-IsCut}
use optisocks.Server.Machine.Segments.{later}
use optisocks.Server.Hooks.{Hooks, World, Recv}
use optisocks.Server.Driver.{Conn, Exit, Round, goes_on, stops, exhausted, on_next, loop}
use optisocks.Server.Driver.Streams.{IsBlind}
use optisocks.Server.Driver.Streams.Shifted.{shift, shifted, Shifts, IsOther, on_event-shift}
use optisocks.Server.Driver.Streams.Kept.{IsKept, Leaves, on_event-IsKept}

-- Two endings are the same to the world: the exit, what was done, and what is left to close.
pub record IsSame {Ctx Pipe : Type 0} (r r' : Exit × Conn Ctx Pipe) : Type 0 where
  pub exit : r'.0 ≡ r.0
  pub log : r'.1.log ≡ r.1.log
  pub upstream : r'.1.upstream ≡ r.1.upstream

module _ {Ctx Pipe : Type 0} where
  -- Where a turn that stops has stopped.
  abbrev pub ended : Round Ctx Pipe → Exit × Conn Ctx Pipe
  ended (goes_on c) = (exhausted, c)
  ended (stops e c) = (e, c)

  abbrev pub gone_to : Round Ctx Pipe → Conn Ctx Pipe
  gone_to (goes_on c) = c
  gone_to (stops e c) = c

  abbrev pub goes : Round Ctx Pipe → Bool
  goes (goes_on c) = true
  goes (stops e c) = false

module _ {Ctx Pipe : Type 0} (p : Platform) (relaying : World Pipe → Conn Ctx Pipe → Round Ctx Pipe)
    (hooks : Hooks Ctx Pipe) (w : World Pipe) where
  abbrev pub turn : Conn Ctx Pipe → Round Ctx Pipe
  turn c = on_next relaying hooks w c (next_event p c.sess)

  -- The loop as a relation: how it ends.
  pub data Ends : Conn Ctx Pipe → Exit × Conn Ctx Pipe → Type 0 where
    stop : (c c' : Conn Ctx Pipe) (e : Exit) → turn c ≡ stops e c' → Ends c (e, c')
    go :
        (c c' : Conn Ctx Pipe) (r : Exit × Conn Ctx Pipe)
        → turn c ≡ goes_on c'
        → Ends c' r
        → Ends c r

  pub loop-Ends :
      (f : ℕ) (c : Conn Ctx Pipe)
      → (loop p relaying hooks w f c).0 ≢ exhausted
      → Ends c (loop p relaying hooks w f c)
  unfolding loop
  loop-Ends zero c h = absurd (h refl)
  loop-Ends (suc f) c h = by_turn (turn c) refl (λ c'. loop-Ends f c') h
    where
      by_turn :
          (t : Round Ctx Pipe)
          → turn c ≡ t
          → ((c' : Conn Ctx Pipe)
              → (loop p relaying hooks w f c').0 ≢ exhausted
              → Ends c' (loop p relaying hooks w f c'))
          → (elim t as (λ x. Exit × Conn Ctx Pipe) [
            | goes_on c' ↦ loop p relaying hooks w f c'
            | stops e c' ↦ (e, c')
          ]).0
            ≢ exhausted
          → Ends c (elim t as (λ x. Exit × Conn Ctx Pipe) [
            | goes_on c' ↦ loop p relaying hooks w f c'
            | stops e c' ↦ (e, c')
          ])
      by_turn (goes_on c') e ih h' = go c c' _ e (ih c' h')
      by_turn (stops x c') e ih h' = stop c c' x e

  pub Ends-unique :
      (c : Conn Ctx Pipe) (r r' : Exit × Conn Ctx Pipe) → Ends c r → Ends c r' → r ≡ r'
  Ends-unique c r r' (stop c0 c1 e q) (stop c2 c3 e' q') = ap ended (sym q ∙ q')
  Ends-unique c r r' (stop c0 c1 e q) (go c2 c3 r3 q' y) =
      absurd (let h = ap goes (sym q ∙ q') in cc)
  Ends-unique c r r' (go c0 c1 r1 q x) (stop c2 c3 e' q') =
      absurd (let h = ap goes (sym q ∙ q') in cc)
  Ends-unique c r r' (go c0 c1 r1 q x) (go c2 c3 r3 q' y) =
      let same : c1 ≡ c3 = ap gone_to (sym q ∙ q') in
      Ends-unique c3 r1 r3 (subst (λ z. Ends z r1) same x) y

module _ {Ctx Pipe : Type 0} (p : Platform) (relaying : World Pipe → Conn Ctx Pipe → Round Ctx Pipe)
    (hooks : Hooks Ctx Pipe) (w : World Pipe) (d : Bytes) (i more : List Recv) where
  -- The connection that has read `d` ends the same way.
  abbrev pub Catches : Conn Ctx Pipe → Exit × Conn Ctx Pipe → Type 0
  Catches c r =
      (r' : Exit × Conn Ctx Pipe) × Ends p relaying hooks w (shift d more c) r' × IsSame r r'

  module _ (k : IsBlind hooks) (shifts : Shifts d more relaying w) (leaves : Leaves i relaying w)
      (advances : (s : ServerSession Ctx Pipe)
        → IsTidy s
        → (next_event p s ≡ (ok need_data, s))
          ⊎ (next_event p (receive s d) ≡ later d (next_event p s)))
      (reads : (c : Conn Ctx Pipe) (r : Exit × Conn Ctx Pipe)
        → c.incoming ≡ i
        → IsTidy c.sess
        → next_event p c.sess ≡ (ok need_data, c.sess)
        → Ends p relaying hooks w c r
        → Catches c r) where
    -- Two answers of a session lead to the same turn.
    abbrev Both : Conn Ctx Pipe → Yield Ctx Pipe → Yield Ctx Pipe → Type 0
    Both c y y' =
        (on_next relaying hooks w (shift d more c) y'
          ≡ shifted d more (on_next relaying hooks w c y))
        × IsKept i (on_next relaying hooks w c y)

    other_turn :
        (c : Conn Ctx Pipe) (ev : Event) (s : ServerSession Ctx Pipe)
        → c.incoming ≡ i
        → IsTidy s
        → IsOther ev
        → Both c (ok ev, s) (later d (ok ev, s))
    other_turn c ev s h t o = (
      on_event-shift d more relaying hooks w (record c { sess = s }) ev k shifts o,
      on_event-IsKept i relaying hooks w (record c { sess = s }) ev leaves h t o,
    )

    by_yield :
        (c : Conn Ctx Pipe) (y : Yield Ctx Pipe)
        → c.incoming ≡ i
        → IsCut c.sess y
        → (y ≡ (ok need_data, c.sess)) ⊎ Both c y (later d y)
    by_yield c (ok need_data, s) h cut = inl (ap (λ t. (ok need_data, t)) cut)
    by_yield c (ok (send b), s) h cut = inr (other_turn c (send b) s h cut tt)
    by_yield c (ok (authorize u q), s) h cut = inr (other_turn c (authorize u q) s h cut tt)
    by_yield c (ok (connect m a n), s) h cut = inr (other_turn c (connect m a n) s h cut tt)
    by_yield c (ok (relay a n), s) h cut = inr (other_turn c (relay a n) s h cut tt)
    by_yield c (ok (close x), s) h cut = inr (other_turn c (close x) s h cut tt)
    by_yield c (err e, s) h cut = inr (refl, h)

    -- The connection asks for bytes, or its turn is the same for both.
    classify :
        (c : Conn Ctx Pipe)
        → c.incoming ≡ i
        → IsTidy c.sess
        → (next_event p c.sess ≡ (ok need_data, c.sess))
          ⊎ Both c (next_event p c.sess) (next_event p (receive c.sess d))
    classify c h t = elim (advances c.sess t) [
      | inl asks ↦ inl asks
      | inr e ↦ elim (by_yield c (next_event p c.sess) h (next_event-IsCut p c.sess t)) [
        | inl asks ↦ inl asks
        | inr both ↦ inr (subst (Both c (next_event p c.sess)) (sym e) both)
      ]
    ]

    pub catches :
        (c : Conn Ctx Pipe) (r : Exit × Conn Ctx Pipe)
        → c.incoming ≡ i
        → IsTidy c.sess
        → Ends p relaying hooks w c r
        → Catches c r
    catches c r h t (stop c0 c' e q) = elim (classify c h t) [
      | inl asks ↦ reads c (e, c') h t asks (stop c c' e q)
      | inr (both, kept) ↦ (
        (e, shift d more c'),
        stop (shift d more c) (shift d more c') e (both ∙ ap (shifted d more) q),
        record { exit = refl; log = refl; upstream = refl },
      )
    ]
    catches c r h t (go c0 c' r0 q sub) = elim (classify c h t) [
      | inl asks ↦ reads c r0 h t asks (go c c' r0 q sub)
      | inr (both, kept) ↦
          let (h', t') = subst (IsKept i) q kept in
          let (r', x, same) = catches c' r0 h' t' sub in
          (r', go (shift d more c) (shift d more c') r' (both ∙ ap (shifted d more) q) x, same)
    ]
