-- ===== src/Core/Session/Segments.antt =====
-- `feed` of src/optisocks5/core/session.py ends, and does not depend on how the stream is cut.
use optisocks.Prelude.{
  ℕ, zero, suc, ◌<◌, ◌≡◌, refl, sym, ap, ◌∙◌, ◌≢◌, inl, inr, none, some, ◌++◌, Bytes, arith,
  append_assoc,
}
use optisocks.Codec.Platform.{Platform}
use optisocks.Core.Types.{Reply}
use optisocks.Core.Session.{
  Session, State, method, auth, reply, done, Turn, returns, turn, turn_at, Outcome, returned,
  raised, diverges, loop, feed, keep,
}
use optisocks.Core.Session.Turns.{
  rank, is_again, is_none, is_some, is_raises, view, turn-rank, turn-ne-done, turn-none, turn-some,
}
use optisocks.Core.Session.Rounds.{behind, extend, turn-append}

-- What more bytes make of a call of `feed` that has ended.
abbrev pub resume : Platform → Bytes → Outcome × Session → Outcome × Session
resume p ys (returned none, s) = feed p s ys
resume p ys (returned (some r), s) = (returned (some r), behind s ys)
resume p ys (raised e, s) = (raised e, behind s ys)
resume p ys (diverges, s) = (diverges, s)

keep_buf : (st : State) (buf ys : Bytes) → st ≢ done → keep st buf ys ≡ buf ++ ys
keep_buf method buf ys h = refl
keep_buf auth buf ys h = refl
keep_buf reply buf ys h = refl
keep_buf done buf ys h = absurd (h refl)

module _ (p : Platform) where
  -- Past the rank, more turns change nothing.
  loop_enough :
      (f g : ℕ) (s : Session) → rank s.state < f → rank s.state < g → loop p f s ≡ loop p g s
  unfolding loop
  loop_enough zero g s hf hg = absurd (omega arith)
  loop_enough (suc f) zero s hf hg = absurd (omega arith)
  loop_enough (suc f) (suc g) s hf hg = elim (view (turn p s)) [
    | is_again s' e ↦
        rw (e, loop)
          (loop_enough f g s' (omega (arith, turn-rank p s s' e))
            (omega (arith, turn-rank p s s' e)))
    | is_none s' e ↦ rw (e, loop)
    | is_some r s' e ↦ rw (e, loop)
    | is_raises x s' e ↦ rw (e, loop)
  ]

  loop-ne-diverges : (f : ℕ) (s : Session) → rank s.state < f → (loop p f s).0 ≢ diverges
  unfolding loop
  loop-ne-diverges zero s h = absurd (omega arith)
  loop-ne-diverges (suc f) s h = elim (view (turn p s)) [
    | is_again s' e ↦ rw (e, loop) (loop-ne-diverges f s' (omega (arith, turn-rank p s s' e)))
    | is_none s' e ↦ rw (e, loop) (λ x. cc)
    | is_some r s' e ↦ rw (e, loop) (λ x. cc)
    | is_raises t s' e ↦ rw (e, loop) (λ x. cc)
  ]

  rank-lt : (st : State) → rank st < 3
  rank-lt method = omega arith
  rank-lt auth = omega arith
  rank-lt reply = omega arith
  rank-lt done = omega arith

  -- A call of `feed` ends, in every state and on every chunk: it returns or raises.
  pub feed-ne-diverges : (s : Session) (chunk : Bytes) → (feed p s chunk).0 ≢ diverges
  unfolding feed
  feed-ne-diverges s chunk = loop-ne-diverges 3 _ (rank-lt s.state)

  pub feed-loop : (s : Session) (ys : Bytes) → s.state ≢ done → feed p s ys ≡ loop p 3 (behind s ys)
  unfolding feed
  feed-loop s ys h = rw (keep_buf s.state s.buf ys h)

module _ (p : Platform) (ys : Bytes) where
  -- A turn that does not ask for more does the same with more bytes behind.
  turn-extend :
      (s : Session) (t : Turn)
      → s.state ≢ done
      → turn p s ≡ t
      → t ≢ returns none s
      → turn p (behind s ys) ≡ extend ys t
  turn-extend s t h e more = elim (turn-append p ys s h) [
    | inl asks ↦ absurd (more (sym e ∙ asks))
    | inr same ↦ same ∙ ap (extend ys) e
  ]

  loop_asks :
      (f : ℕ) (s s' : Session)
      → rank s.state < suc f
      → s.state ≢ done
      → turn p s ≡ returns none s'
      → loop p (suc f) (behind s ys) ≡ resume p ys (loop p (suc f) s)
  unfolding loop
  loop_asks f s s' hf h e =
      loop_enough p (suc f) 3 (behind s ys) hf (rank-lt p s.state)
      ∙ sym (feed-loop p s ys h)
      ∙ rw (e, loop, turn-none p s s' e)

  loop-append :
      (f : ℕ) (s : Session)
      → rank s.state < f
      → s.state ≢ done
      → loop p f (behind s ys) ≡ resume p ys (loop p f s)
  unfolding loop
  loop-append zero s hf h = absurd (omega arith)
  loop-append (suc f) s hf h = elim (view (turn p s)) [
    | is_again s' e ↦
        rw (turn-extend s _ h e (λ x. cc), e, loop)
          (loop-append f s' (omega (arith, turn-rank p s s' e)) (turn-ne-done p s s' e))
    | is_none s' e ↦ loop_asks f s s' hf h e
    | is_some r s' e ↦ rw (turn-extend s _ h e (λ x. cc), e, loop)
    | is_raises x s' e ↦ rw (turn-extend s _ h e (λ x. cc), e, loop)
  ]

  -- For a session that is not complete: feeding two segments as one is feeding the first and, if it
  -- asks for more, the second; what the first call returns or raises, it returns or raises with the
  -- second segment behind it, and those bytes stay in the buffer, unread.
  pub feed-append :
      (s : Session) (xs : Bytes) → s.state ≢ done → feed p s (xs ++ ys) ≡ resume p ys (feed p s xs)
  feed-append s xs h =
      feed-loop p s (xs ++ ys) h
      ∙ ap (λ b. loop p 3 (record s { buf = b })) (sym (append_assoc s.buf xs ys))
      ∙ loop-append 3 (behind s xs) (rank-lt p s.state) h
      ∙ ap (resume p ys) (sym (feed-loop p s xs h))

module _ (p : Platform) where
  -- Once complete, a session answers the same to every further call and reads nothing more.
  pub feed_done : (s : Session) (ys : Bytes) → s.state ≡ done → feed p s ys ≡ (returned s.answer, s)
  unfolding feed loop turn
  feed_done s ys h = rw (h, keep, turn_at) (ground arith)

  -- A call that asks for more leaves a session that is not complete.
  loop-ne-done :
      (f : ℕ) (s s' : Session) → s.state ≢ done → loop p f s ≡ (returned none, s') → s'.state ≢ done
  unfolding loop
  loop-ne-done zero s s' h e = cc
  loop-ne-done (suc f) s s' h e = elim (view (turn p s)) [
    | is_again t e' ↦ loop-ne-done f t s' (turn-ne-done p s t e') (rw (e', loop) at e)
    | is_none t e' ↦ ground (arith, turn-none p s t e')
    | is_some r t e' ↦ cc
    | is_raises x t e' ↦ cc
  ]

  pub feed-ne-done :
      (s s' : Session) (xs : Bytes)
      → s.state ≢ done
      → feed p s xs ≡ (returned none, s')
      → s'.state ≢ done
  feed-ne-done s s' xs h e = loop-ne-done 3 (behind s xs) s' h (sym (feed-loop p s xs h) ∙ e)

  -- A call that returns a reply for the first time completes the session with that reply.
  loop-some :
      (f : ℕ) (s s' : Session) {r : Reply}
      → s.state ≢ done
      → loop p f s ≡ (returned (some r), s')
      → (s'.state ≡ done) × (s'.answer ≡ some r)
  unfolding loop
  loop-some zero s s' h e = cc
  loop-some (suc f) s s' h e = elim (view (turn p s)) [
    | is_again t e' ↦ loop-some f t s' (turn-ne-done p s t e') (rw (e', loop) at e)
    | is_none t e' ↦ cc
    | is_some r t e' ↦ ground (arith, turn-some p s t h e')
    | is_raises x t e' ↦ cc
  ]

  pub feed-some :
      (s s' : Session) (xs : Bytes) {r : Reply}
      → s.state ≢ done
      → feed p s xs ≡ (returned (some r), s')
      → (s'.state ≡ done) × (s'.answer ≡ some r)
  feed-some s s' xs h e = loop-some 3 (behind s xs) s' h (sym (feed-loop p s xs h) ∙ e)
