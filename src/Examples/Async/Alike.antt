-- ===== src/Examples/Async/Alike.antt =====
-- `optimistic_connect` of examples/async_connect.py against `AsyncOptimisticClient` of
-- src/optisocks5/aio/client.py.
use optisocks.Prelude.{
  ℕ, ℤ, pos, ◌≡◌, ◌⊎◌, inl, inr, refl, sym, ap, subst, ◌∙◌, Bool, true, false, Option, none, some,
  List, [], ◌∷◌, Bytes, Text, Exn, Result, ok, err, arith, All, socks5_error, request_failed,
  proxy_closed, closed_in_handshake, refused_unnumbered, if◌then◌else◌,
}
use optisocks.Codec.Platform.{Platform}
use optisocks.Core.Types
use optisocks.Core.Types.{Reply, is_ok}
use optisocks.Core.Session
use optisocks.Core.Session.{Session, Outcome, returned, raised, diverges, feed, leftover}
use optisocks.Client.Transport.{
  Mode, Arrival, chunk, broken, late, Link, M, continue, lift, sendall,
}
use optisocks.Client.Optimistic
use optisocks.Client.Connect.{
  Client, Connected, hang_up, finish, settle, connect_optimistic, connect_with, user_of,
  password_of,
}
use optisocks.Client.Connect.Answered.{new}
use optisocks.Examples.Async.{await_reply, receive_reply, negotiate, checked, optimistic_connect}

-- No time runs out.
abbrev pub IsTimely : Arrival → Type 0
IsTimely late = ⊥
IsTimely _ = Unit

-- The same exception, but that the example words two messages in its own way.
abbrev pub IsReworded : Exn → Exn → Type 0
IsReworded e e' =
    (e ≡ e')
    ⊎ ((e ≡ socks5_error closed_in_handshake) × (e' ≡ socks5_error proxy_closed)
        ⊎ (rep : ℕ) × (e ≡ socks5_error (refused_unnumbered rep))
          × (e' ≡ socks5_error (request_failed rep)))

-- The same result and the same rest, but for the bytes behind the reply.
abbrev Same : {B : Type 0} → Result Reply × B → Result (Reply × Bytes) × B → Type 0
Same (err e, b) (err e', b') = IsReworded e e' × (b ≡ b')
Same (ok r, b) (ok (r', rest), b') = (r ≡ r') × (b ≡ b')
Same _ _ = ⊥

await_reply-Same :
    (p : Platform) (mode : Mode) (s : Session) (xs : List Arrival)
    → All IsTimely xs
    → Same (await_reply p s xs) (Optimistic.await_reply p mode s xs)
unfolding await_reply Optimistic.await_reply
await_reply-Same p mode s [] h = (inr (inl (refl, refl)), refl)
await_reply-Same p mode s (late ∷ more) h = absurd h.0
await_reply-Same p mode s (broken ∷ more) h = (inl refl, refl)
await_reply-Same p mode s (chunk [] ∷ more) h = (inr (inl (refl, refl)), refl)
await_reply-Same p mode s (chunk (b ∷ bs) ∷ more) h =
    by_outcome (feed p s (b ∷ bs)).0 (feed p s (b ∷ bs)).1
      (await_reply-Same p mode (feed p s (b ∷ bs)).1 more h.1)
  where
    by_outcome :
        (o : Outcome) (s' : Session)
        → Same (await_reply p s' more) (Optimistic.await_reply p mode s' more)
        → Same
            (elim o as (λ t. Result Reply × List Arrival) [
              | returned r ↦ elim r as (λ t. Result Reply × List Arrival) [
                | none ↦ await_reply p s' more
                | some reply ↦ (ok reply, more)
              ]
              | raised e ↦ (err e, more)
              | diverges ↦ (err Exn.runtime_error, more)
            ])
            (elim o as (λ t. Result (Reply × Bytes) × List Arrival) [
              | returned r ↦ elim r as (λ t. Result (Reply × Bytes) × List Arrival) [
                | none ↦ Optimistic.await_reply p mode s' more
                | some reply ↦ (ok (reply, leftover s'), more)
              ]
              | raised e ↦ (err e, more)
              | diverges ↦ (err Exn.runtime_error, more)
            ])
    by_outcome (returned none) s' ih = ih
    by_outcome (returned (some reply)) s' ih = (refl, refl)
    by_outcome (raised e) s' ih = (inl refl, refl)
    by_outcome diverges s' ih = (inl refl, refl)

continue-Same :
    {A : Type 0} (x : Result A × Link) (f : A → M Reply) (g : A → M (Reply × Bytes))
    → ((a : A) (l : Link) → x ≡ (ok a, l) → Same (f a l) (g a l))
    → Same (continue x f) (continue x g)
continue-Same (err e, l) f g h = (inl refl, refl)
continue-Same (ok a, l) f g h = h a l refl

sendall-incoming : (b : Bytes) (l : Link) → (sendall b l).1.incoming ≡ l.incoming
unfolding sendall
sendall-incoming b l = ground arith

receive_reply-Same :
    (p : Platform) (s : Session) (l : Link)
    → All IsTimely l.incoming
    → Same (receive_reply p s l) (Optimistic.receive_reply p s l)
receive_reply-Same p s l h =
    moved (await_reply p s l.incoming) (Optimistic.await_reply p l.mode s l.incoming)
      (await_reply-Same p l.mode s l.incoming h)
  where
    moved :
        (x : Result Reply × List Arrival) (y : Result (Reply × Bytes) × List Arrival)
        → Same x y
        → Same (x.0, record l { incoming = x.1 }) (y.0, record l { incoming = y.1 })
    moved (err e, more) (err e', more') k = (k.0, ap (λ t. record l { incoming = t }) k.1)
    moved (ok r, more) (ok (r', rest), more') k = (k.0, ap (λ t. record l { incoming = t }) k.1)
    moved (ok r, more) (err e, more') k = absurd k
    moved (err e, more) (ok (r, rest), more') k = absurd k

negotiate-Same :
    (p : Platform) (user password : Option Text) (host : Text) (port : ℤ) (l : Link)
    → All IsTimely l.incoming
    → Same
        (negotiate p user password host port l)
        (Optimistic.negotiate p user password host port (pos Types.connect) l)
unfolding negotiate Optimistic.negotiate
negotiate-Same p user password host port l h =
    continue-Same (lift (Session.init user password) l) _ _ (λ s l1 e1.
      continue-Same (lift (Session.optimistic_pipeline p s host port (pos Types.connect)) l1) _ _
        (λ b l2 e2. continue-Same (sendall b l2) _ _ (λ u l3 e3. receive_reply-Same p s l3 (
          subst (All IsTimely)
            (ap (λ (x : Result Session × Link). x.1.incoming) e1
              ∙ ap (λ (x : Result Bytes × Link). x.1.incoming) e2
              ∙ sym (sendall-incoming b l2)
              ∙ ap (λ (x : Result (Unit {0}) × Link). x.1.incoming) e3)
            h))))

abbrev hung_up : Option Link → Option Link
hung_up none = none
hung_up (some l) = some (hang_up l)

-- The same reply, over the same connection; or the same exception but for its wording, where the
-- first may leave open the connection that the second has closed.
abbrev pub Alike : Result Reply × Option Link → Connected → Type 0
Alike (ok r, l) (ok r', c, l') = (r ≡ r') × (l ≡ l')
Alike (err e, l) (err e', c, l') = IsReworded e e' × (hung_up l ≡ l')
Alike _ _ = ⊥

checked-Alike :
    (c : Client) (x : Result Reply × Link) (y : Result (Reply × Bytes) × Link)
    → Same x y
    → Alike
        (checked x)
        (settle c (continue y (λ (z : Reply × Bytes) (l : Link). (ok (z.0, some z.1), l))))
unfolding settle finish
checked-Alike c (err e, l) (err e', l') h = (h.0, ap (λ t. some (hang_up t)) h.1)
checked-Alike c (ok r, l) (err e, l') h = absurd h
checked-Alike c (err e, l) (ok (r, rest), l') h = absurd h
checked-Alike c (ok r, l) (ok (r', rest), l') h = rw (← h.0, ← h.1) (by_code (is_ok r))
  where
    by_code :
        (b : Bool)
        → Alike
            (if b
              then (ok r, some l)
              else (err (socks5_error (refused_unnumbered r.rep)), some (hang_up l)))
            (if b
              then (
                ok r,
                record c { leftover = rest; sock = some l; bound = some (r.host, r.port) },
                some l,
              )
              else (
                err (socks5_error (request_failed r.rep)),
                record c { leftover = rest },
                some (hang_up l),
              ))
    by_code true = (refl, refl)
    by_code false = (inr (inr (r.rep, refl, refl)), refl)

-- As long as no time runs out, the example's connection is the one of the library: with both
-- credentials or with neither, whatever dialling gives, the proxy sends and the sockets do, it
-- returns the reply that `connect` of a new `AsyncOptimisticClient` returns, over the same
-- connection with the same bytes left to read; or both raise the same exception, but that the
-- example's message is "proxy closed during handshake" where the library's is "proxy closed
-- connection during handshake", that its "request failed" lacks the code in brackets, and that it
-- may then leave the connection open.
pub optimistic_connect-Alike :
    (p : Platform) (creds : Option (Text × Text)) (host : Text) (port : ℤ) (dial : Result Link)
    → ((l : Link) → dial ≡ ok l → All IsTimely l.incoming)
    → Alike
        (optimistic_connect p (user_of creds) (password_of creds) dial host port)
        (connect_optimistic p (new creds) dial host port (pos Types.connect))
unfolding optimistic_connect connect_optimistic connect_with
optimistic_connect-Alike p creds host port (err e) h = (inl refl, refl)
optimistic_connect-Alike p creds host port (ok l) h =
    checked-Alike (new creds) (negotiate p (user_of creds) (password_of creds) host port l)
      (Optimistic.negotiate p (user_of creds) (password_of creds) host port (pos Types.connect) l)
      (negotiate-Same p (user_of creds) (password_of creds) host port l (h l refl))
