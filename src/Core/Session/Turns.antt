-- ===== src/Core/Session/Turns.antt =====
-- One turn of the loop in `feed` of src/optisocks5/core/session.py: where it may lead.
use optisocks.Prelude.{ℕ, ◌<◌, ◌≡◌, refl, ◌≢◌, none, some, Exn, arith}
use optisocks.Codec.Platform.{Platform}
use optisocks.Core.Types.{Reply}
use optisocks.Core.Session.{
  Session, State, method, auth, reply, done, Turn, again, returns, raises, method_turn, auth_turn,
  reply_arrived, reply_turn, turn, turn_at,
}

-- How many turns may still go round.
abbrev pub rank : State → ℕ
rank method = 2
rank auth = 1
rank reply = 0
rank done = 0

-- A turn, split with its equation kept.
pub data TurnView (t : Turn) : Type 0 where
  is_again : (s : Session) → t ≡ again s → TurnView t
  is_none : (s : Session) → t ≡ returns none s → TurnView t
  is_some : (r : Reply) (s : Session) → t ≡ returns (some r) s → TurnView t
  is_raises : (e : Exn) (s : Session) → t ≡ raises e s → TurnView t

pub view : (t : Turn) → TurnView t
view (again s) = is_again s refl
view (returns none s) = is_none s refl
view (returns (some r) s) = is_some r s refl
view (raises e s) = is_raises e s refl

module _ (p : Platform) where
  method_turn-rank : (s s' : Session) → method_turn s ≡ again s' → rank s'.state < 2
  unfolding method_turn
  method_turn-rank s s' h = ground arith

  auth_turn-rank : (s s' : Session) → auth_turn s ≡ again s' → rank s'.state < 1
  unfolding auth_turn
  auth_turn-rank s s' h = ground arith

  reply_turn-rank : (s s' : Session) → reply_turn p s ≡ again s' → ⊥
  unfolding reply_turn reply_arrived
  reply_turn-rank s s' h = ground arith

  turn_at-rank : (st : State) (s s' : Session) → turn_at p st s ≡ again s' → rank s'.state < rank st
  turn_at-rank method s s' h = method_turn-rank s s' h
  turn_at-rank auth s s' h = auth_turn-rank s s' h
  turn_at-rank reply s s' h = absurd (reply_turn-rank s s' h)
  turn_at-rank done s s' h = cc

  pub turn-rank : (s s' : Session) → turn p s ≡ again s' → rank s'.state < rank s.state
  unfolding turn
  turn-rank s s' h = turn_at-rank s.state s s' h

  -- No turn that goes round again reaches the last state.
  method_turn-ne-done : (s s' : Session) → method_turn s ≡ again s' → s'.state ≢ done
  unfolding method_turn
  method_turn-ne-done s s' h = ground arith

  auth_turn-ne-done : (s s' : Session) → auth_turn s ≡ again s' → s'.state ≢ done
  unfolding auth_turn
  auth_turn-ne-done s s' h = ground arith

  turn_at-ne-done : (st : State) (s s' : Session) → turn_at p st s ≡ again s' → s'.state ≢ done
  turn_at-ne-done method s s' h = method_turn-ne-done s s' h
  turn_at-ne-done auth s s' h = auth_turn-ne-done s s' h
  turn_at-ne-done reply s s' h = absurd (reply_turn-rank s s' h)
  turn_at-ne-done done s s' h = cc

  pub turn-ne-done : (s s' : Session) → turn p s ≡ again s' → s'.state ≢ done
  unfolding turn
  turn-ne-done s s' h = turn_at-ne-done s.state s s' h

  -- A turn that asks for more bytes leaves the session as it is.
  method_turn-none : (s s' : Session) → method_turn s ≡ returns none s' → s' ≡ s
  unfolding method_turn
  method_turn-none s s' h = ground arith

  auth_turn-none : (s s' : Session) → auth_turn s ≡ returns none s' → s' ≡ s
  unfolding auth_turn
  auth_turn-none s s' h = ground arith

  reply_turn-none : (s s' : Session) → reply_turn p s ≡ returns none s' → s' ≡ s
  unfolding reply_turn reply_arrived
  reply_turn-none s s' h = ground arith

  turn_at-none : (st : State) (s s' : Session) → turn_at p st s ≡ returns none s' → s' ≡ s
  turn_at-none method s s' h = method_turn-none s s' h
  turn_at-none auth s s' h = auth_turn-none s s' h
  turn_at-none reply s s' h = reply_turn-none s s' h
  turn_at-none done s s' h = cc

  pub turn-none : (s s' : Session) → turn p s ≡ returns none s' → s' ≡ s
  unfolding turn
  turn-none s s' h = turn_at-none s.state s s' h

  -- A turn that returns a reply completes the session with it.
  reply_turn-some :
      (s s' : Session) {r : Reply}
      → reply_turn p s ≡ returns (some r) s'
      → (s'.state ≡ done) × (s'.answer ≡ some r)
  unfolding reply_turn reply_arrived
  reply_turn-some s s' h = ground arith

  method_turn-some : (s s' : Session) {r : Reply} → method_turn s ≡ returns (some r) s' → ⊥
  unfolding method_turn
  method_turn-some s s' h = ground arith

  auth_turn-some : (s s' : Session) {r : Reply} → auth_turn s ≡ returns (some r) s' → ⊥
  unfolding auth_turn
  auth_turn-some s s' h = ground arith

  turn_at-some :
      (st : State) (s s' : Session) {r : Reply}
      → st ≢ done
      → turn_at p st s ≡ returns (some r) s'
      → (s'.state ≡ done) × (s'.answer ≡ some r)
  turn_at-some method s s' h e = absurd (method_turn-some s s' e)
  turn_at-some auth s s' h e = absurd (auth_turn-some s s' e)
  turn_at-some reply s s' h e = reply_turn-some s s' e
  turn_at-some done s s' h e = absurd (h refl)

  pub turn-some :
      (s s' : Session) {r : Reply}
      → s.state ≢ done
      → turn p s ≡ returns (some r) s'
      → (s'.state ≡ done) × (s'.answer ≡ some r)
  unfolding turn
  turn-some s s' h e = turn_at-some s.state s s' h e
