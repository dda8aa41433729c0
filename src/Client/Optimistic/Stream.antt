-- ===== src/Client/Optimistic/Stream.antt =====
-- The optimistic clients read the stream as one, however it arrives: `connect` of
-- src/optisocks5/sync/client.py and `_negotiate` of src/optisocks5/aio/client.py.
use optisocks.Prelude.{
  ◌≡◌, refl, sym, ap, ◌∙◌, ◌≢◌, Option, none, some, List, [], ◌∷◌, ◌++◌, Bytes, Exn, Result, ok,
  err, arith, append-nil,
}
use optisocks.Codec.Platform.{Platform}
use optisocks.Core.Types.{Reply}
use optisocks.Core.Session.{Session, Outcome, returned, raised, diverges, feed, leftover, done}
use optisocks.Core.Session.Rounds.{behind}
use optisocks.Core.Session.Segments.{feed-append, feed-ne-done, feed-some, resume}
use optisocks.Client.Transport.{stream, Mode, Arrival, chunk, broken, late}
use optisocks.Client.Optimistic.{await_reply}

abbrev pub replied : Result (Reply × Bytes) × List Arrival → Option (Reply × Bytes)
replied (ok (r, rest), more) = some (r, rest ++ stream more)
replied (err e, more) = none

abbrev pub answered : Outcome × Session → Option (Reply × Bytes)
answered (returned (some r), s) = some (r, leftover s)
answered (o, s) = none

-- A call of `feed`, split with its equation kept.
data FeedView (y : Outcome × Session) : Type 0 where
  is_none : (s : Session) → y ≡ (returned none, s) → FeedView y
  is_some : (r : Reply) (s : Session) → y ≡ (returned (some r), s) → FeedView y
  is_raised : (e : Exn) (s : Session) → y ≡ (raised e, s) → FeedView y
  is_diverged : (s : Session) → y ≡ (diverges, s) → FeedView y

view : (y : Outcome × Session) → FeedView y
view (returned none, s) = is_none s refl
view (returned (some r), s) = is_some r s refl
view (raised e, s) = is_raised e s refl
view (diverges, s) = is_diverged s refl

leftover-behind :
    (s : Session) (ys : Bytes) → s.state ≡ done → leftover s ++ ys ≡ leftover (behind s ys)
unfolding leftover
leftover-behind s ys h = ground arith

module _ (p : Platform) (mode : Mode) where
  -- The session has read all that it was given: with nothing more it asks for more.
  abbrev pub IsIdle : Session → Type 0
  IsIdle s = feed p s [] ≡ (returned none, s)

  feed-IsIdle :
      (s s' : Session) (xs : Bytes) → s.state ≢ done → feed p s xs ≡ (returned none, s') → IsIdle s'
  feed-IsIdle s s' xs h e =
      ap (resume p []) (sym e) ∙ sym (feed-append p [] s xs h) ∙ ap (feed p s) (append-nil xs) ∙ e

  idle_answered : (s : Session) → IsIdle s → none ≡ answered (feed p s [])
  idle_answered s h = ap answered (sym h)

  -- With a session that is not complete and has read all that it was given, the client gets a reply
  -- exactly when one `feed` of the whole stream would return it, and it is that reply; the leftover
  -- bytes that it keeps, with those that it has not read, are the leftover bytes of that one `feed`.
  pub await_reply-stream :
      (s : Session) (incoming : List Arrival)
      → s.state ≢ done
      → IsIdle s
      → replied (await_reply p mode s incoming) ≡ answered (feed p s (stream incoming))
  unfolding await_reply
  await_reply-stream s [] h idle = idle_answered s idle
  await_reply-stream s (late ∷ more) h idle = idle_answered s idle
  await_reply-stream s (broken ∷ more) h idle = idle_answered s idle
  await_reply-stream s (chunk [] ∷ more) h idle = idle_answered s idle
  await_reply-stream s (chunk (b ∷ bs) ∷ more) h idle = elim (view (feed p s (b ∷ bs))) [
    | is_none s' e ↦
        rw (await_reply, e, feed-append p (stream more) s (b ∷ bs) h, e)
          (await_reply-stream s' more (feed-ne-done p s s' (b ∷ bs) h e)
            (feed-IsIdle s s' (b ∷ bs) h e))
    | is_some r s' e ↦
        rw (await_reply, e, feed-append p (stream more) s (b ∷ bs) h, e)
          (ap (λ l. some (r, l))
            (leftover-behind s' (stream more) (feed-some p s s' (b ∷ bs) h e).0))
    | is_raised x s' e ↦ rw (await_reply, e, feed-append p (stream more) s (b ∷ bs) h, e)
    | is_diverged s' e ↦ rw (await_reply, e, feed-append p (stream more) s (b ∷ bs) h, e)
  ]
