-- ===== src/Server/Machine/Barred.antt =====
-- `_step` and `next_event` of src/optisocks5/server/session.py, for a session that requires an
-- authorization and has none: it has not asked, or the hook said no.
use optisocks.Prelude.{
  ◌≡◌, ◌⊎◌, inl, inr, refl, Bool, pos, true, false, if◌then◌else◌, List, [], ◌∷◌, ok, err, arith,
}
use optisocks.Codec.Platform.{Platform}
use optisocks.Server.Events.{Event, send, need_data, authorize, connect, relay, close, auth_refused}
use optisocks.Server.State.{ServerSession}
use optisocks.Codec.Binding
use optisocks.Server.Machine.{Yield, next_event, step, step_at, auth_wait_step, shut}
use optisocks.Server.Machine.Early.{
  IsEarly, IsEarlyYield, IsAsking, next_event-IsEarly, emit-IsEarly,
}

module _ {Ctx Pipe : Type 0} where
  -- It is early, or its client was refused.
  abbrev pub IsBarred : ServerSession Ctx Pipe → Type 0
  IsBarred s = IsEarly s ⊎ (IsAsking s × (s.rejected ≡ true))

  abbrev pub IsBarredYield : Yield Ctx Pipe → Type 0
  IsBarredYield (ok (send b), s) = IsBarred s
  IsBarredYield (ok need_data, s) = IsBarred s
  IsBarredYield (ok (authorize user password), s) = IsAsking s
  IsBarredYield (ok (connect cmd host port), s) = true ≡ false
  IsBarredYield (ok (relay host port), s) = true ≡ false
  IsBarredYield (_, s) = Unit

  barred_early : (y : Yield Ctx Pipe) → IsEarlyYield y → IsBarredYield y
  barred_early (ok (send b), s) h = inl h
  barred_early (ok need_data, s) h = inl h
  barred_early (ok (authorize user password), s) h = h
  barred_early (ok (connect cmd host port), s) h = h
  barred_early (ok (relay host port), s) h = h
  barred_early (ok (close reason), s) h = tt
  barred_early (err e, s) h = tt

  then-IsBarred :
      (b : Bool) (x y : Yield Ctx Pipe)
      → b ≡ true
      → IsEarlyYield x
      → IsBarredYield (if b then x else y)
  then-IsBarred true x y e h = barred_early x h
  then-IsBarred false x y e h = absurd (ground arith)

  auth_wait_step-IsBarred :
      (s : ServerSession Ctx Pipe)
      → IsAsking s
      → s.rejected ≡ true
      → s.out ≡ []
      → IsBarredYield (auth_wait_step s)
  unfolding auth_wait_step
  auth_wait_step-IsBarred s h r o =
      then-IsBarred s.rejected _ _ r (
        emit-IsEarly (shut s) (Binding.auth_reply (pos 1)) (close auth_refused ∷ []) o h.1 refl
          refl)

  refused-IsBarred :
      (p : Platform) (s : ServerSession Ctx Pipe)
      → IsAsking s
      → s.rejected ≡ true
      → IsBarredYield (next_event p s)
  unfolding next_event step auth_wait_step
  refused-IsBarred p s h r = by_queue s.out refl
    where
      by_queue :
          (q : List Event)
          → s.out ≡ q
          → IsBarredYield (elim q as (λ t. Yield Ctx Pipe) [
            | e ∷ q' ↦ (ok e, record s { out = q' })
            | [] ↦ step_at p s.state s
          ])
      by_queue [] o = rw h.0 (auth_wait_step-IsBarred s h r o)
      by_queue (send b ∷ q) o = inr ((h.0, h.1, rw o at h.2), r)
      by_queue (need_data ∷ q) o = inr ((h.0, h.1, rw o at h.2), r)
      by_queue (connect c host port ∷ q) o = ground arith
      by_queue (authorize user password ∷ q) o = absurd (ground arith)
      by_queue (relay host port ∷ q) o = ground arith
      by_queue (close reason ∷ q) o = tt

  -- A barred session asks for no connection and no relay, and stays barred until it asks for an
  -- authorization.
  pub next_event-IsBarred :
      (p : Platform) (s : ServerSession Ctx Pipe) → IsBarred s → IsBarredYield (next_event p s)
  next_event-IsBarred p s (inl h) = barred_early (next_event p s) (next_event-IsEarly p s h)
  next_event-IsBarred p s (inr (h, r)) = refused-IsBarred p s h r
