-- ===== src/Interop.antt =====
-- The optimistic client of src/optisocks5/core/session.py against the server session of
-- src/optisocks5/server/session.py: the whole handshake in one segment.
pub mod Clients
pub mod Driven
use optisocks.Prelude.{
  ℕ, ℤ, pos, ◌≡◌, refl, ap, ◌∙◌, true, false, Option, none, some, [], ◌∷◌, ◌++◌, Bytes, Text,
  Result, ok, arith, append_assoc, >>=-eq-ok, ◌>>=◌,
}
use optisocks.Codec.Platform.{Platform, IsInet}
use optisocks.Codec.Address.RoundTrip.{canonical}
use optisocks.Codec.Messages
use optisocks.Codec.Binding
use optisocks.Core.Types
use optisocks.Core.Types.{Reply, no_auth, userpass, value, succeeded}
use optisocks.Core.Session.{Session, returned, feed, leftover, optimistic_pipeline, fresh}
use optisocks.Core.Session.Handshake.{feed-reply}
use optisocks.Server.Events.{send, authorize, connect, relay}
use optisocks.Server.State
use optisocks.Server.State.{ServerSession, Phase}
use optisocks.Server.Decisions
use optisocks.Server.Machine.{next_event, step, connect_wait_step, emit_send, auth_wait_step}
use optisocks.Server.Machine.Serving.{
  greeting_step_open, greeting_step_auth, auth_step_lem, request_step_lem, requested, questioned,
}

-- What the pipeline is made of.
pub pipeline_open :
    (p : Platform) (host : Text) (port cmd : ℤ) {b : Bytes}
    → optimistic_pipeline p (fresh none) host port cmd ≡ ok b
    → (q : Bytes) × (Binding.request p cmd host port ≡ ok q) × (b ≡ 0x05 ∷ 1 ∷ no_auth ∷ q)
unfolding optimistic_pipeline Binding.client_greeting Messages.client_greeting
pipeline_open p host port cmd h =
    let f : Bytes → Result Bytes = λ q. ok (0x05 ∷ 1 ∷ no_auth ∷ q) in
    let (q, made, whole) = >>=-eq-ok (Binding.request p cmd host port) f h in
    (q, made, ground arith)

pub pipeline_auth :
    (p : Platform) (user pass host : Text) (port cmd : ℤ) {b : Bytes}
    → optimistic_pipeline p (fresh (some (user, pass))) host port cmd ≡ ok b
    → (c : Bytes) × (q : Bytes) × (Binding.userpass_auth user pass ≡ ok c)
      × (Binding.request p cmd host port ≡ ok q)
      × (b ≡ 0x05 ∷ 1 ∷ userpass ∷ (c ++ q))
unfolding optimistic_pipeline Binding.client_greeting Messages.client_greeting
pipeline_auth p user pass host port cmd h =
    let g : Bytes → Bytes → Result Bytes = λ c q. ok (0x05 ∷ 1 ∷ userpass ∷ (c ++ q)) in
    let f : Bytes → Result Bytes = λ c. Binding.request p cmd host port >>= g c in
    let (c, creds, more) = >>=-eq-ok (Binding.userpass_auth user pass) f h in
    let (q, made, whole) = >>=-eq-ok (Binding.request p cmd host port) (g c) more in
    (c, q, creds, made, ground arith)

module _ {Ctx Pipe : Type 0} where
  abbrev pub granted : ServerSession Ctx Pipe → Bytes → ServerSession Ctx Pipe
  granted s buf = record s { buf = buf; state = State.request; out = [] }

  -- The session once the reply is made, and once it is sent.
  abbrev pub answering : ServerSession Ctx Pipe → Text → ℕ → Text → ℕ → ServerSession Ctx Pipe
  answering s t n bhost bn = record s {
    connected_bnd = some (bhost, pos bn);
    state = State.relay;
    out = relay t (pos n) ∷ [];
  }

  abbrev pub relaying : ServerSession Ctx Pipe → Text → ℕ → ServerSession Ctx Pipe
  relaying s bhost bn = record s {
    connected_bnd = some (bhost, pos bn);
    state = State.relay;
    out = [];
  }

module _ {Ctx Pipe : Type 0} (p : Platform) where
  -- The server's last two events, once the upstream is open.
  pub relay_events :
      (s : ServerSession Ctx Pipe) (t bhost : Text) (n bn : ℕ) (r : Bytes)
      → s.state ≡ State.connect_wait
      → s.out ≡ []
      → s.raw ≡ false
      → s.rejected ≡ false
      → s.failed ≡ false
      → s.target ≡ some (t, pos n)
      → Binding.reply p (pos (value succeeded)) bhost (pos bn) ≡ ok r
      → (next_event p (Decisions.connected s bhost (pos bn))
          ≡ (ok (send r), answering s t n bhost bn))
        × (next_event p (answering s t n bhost bn) ≡ (ok (relay t (pos n)), relaying s bhost bn))
  unfolding next_event step connect_wait_step emit_send Decisions.connected
  relay_events s t bhost n bn r st o raw rej f tg h = (ground arith, ground arith)

  -- One segment with the pipeline of a client without credentials, and `tail` behind it, leads the
  -- server through its events in order, with the request that the client meant; `tail` is left.
  pub serve-pipeline_open :
      (host : Text) (n : ℕ) (b tail : Bytes)
      → IsInet p
      → p.is_utf8 host ≡ true
      → optimistic_pipeline p (fresh none) host (pos n) (pos Types.connect) ≡ ok b
      → (t : Text) × (s1 : ServerSession Ctx Pipe) × (canonical p host ≡ some t)
        × (next_event p (Decisions.receive (State.init false) (b ++ tail))
            ≡ (ok (send (0x05 ∷ no_auth ∷ [])), s1))
        × (next_event p s1 ≡ (ok (connect Types.connect t n), requested s1 tail Types.connect t n))
  unfolding next_event step State.init Decisions.receive
  serve-pipeline_open host n b tail inet u h =
      let (q, made, whole) = pipeline_open p host (pos n) (pos Types.connect) h in
      let s0 : ServerSession Ctx Pipe = Decisions.receive (State.init false) (b ++ tail) in
      let s1 = granted s0 (q ++ tail) in
      let (t, can, e) = request_step_lem p s1 host n q tail inet u made refl in
      (t, s1, can, greeting_step_open s0 (q ++ tail) refl refl (ap (λ xs. xs ++ tail) whole), e)

  -- One segment with the pipeline of a client with credentials leads the server first to the question
  -- whether they are good; once that is answered by `ok`, to the request that the client meant.
  -- The texts are UTF-8, and the conversions of addresses keep their laws.
  pub serve-pipeline_auth :
      (user pass host : Text) (n : ℕ) (ctx : Option Ctx) (b tail : Bytes)
      → IsInet p
      → p.is_utf8 user ≡ true
      → p.is_utf8 pass ≡ true
      → p.is_utf8 host ≡ true
      → optimistic_pipeline p (fresh (some (user, pass))) host (pos n) (pos Types.connect) ≡ ok b
      → (t : Text) × (s1 : ServerSession Ctx Pipe) × (s2 : ServerSession Ctx Pipe)
        × (s3 : ServerSession Ctx Pipe) × (canonical p host ≡ some t)
        × (next_event p (Decisions.receive (State.init true) (b ++ tail))
            ≡ (ok (send (0x05 ∷ userpass ∷ [])), s1))
        × (next_event p s1 ≡ (ok (authorize (some user) (some pass)), s2))
        × (next_event p (Decisions.ok s2 ctx) ≡ (ok (send (0x01 ∷ 0x00 ∷ [])), s3))
        × (next_event p s3 ≡ (ok (connect Types.connect t n), requested s3 tail Types.connect t n))
  unfolding next_event step State.init Decisions.receive Decisions.ok auth_wait_step emit_send
      Binding.auth_reply Messages.auth_reply
  serve-pipeline_auth user pass host n ctx b tail inet hu hp u h =
      let (c, q, creds, made, whole) =
        pipeline_auth p user pass host (pos n) (pos Types.connect) h in
      let s0 : ServerSession Ctx Pipe = Decisions.receive (State.init true) (b ++ tail) in
      let s1 : ServerSession Ctx Pipe = record s0 {
        buf = c ++ (q ++ tail);
        state = State.auth;
        out = [];
      } in
      let s2 = questioned s1 (q ++ tail) in
      let s3 : ServerSession Ctx Pipe = record (Decisions.ok s2 ctx) {
        state = State.request;
        out = [];
      } in
      let (t, can, e) = request_step_lem p s3 host n q tail inet u made refl in
      let front : b ++ tail ≡ 0x05 ∷ 1 ∷ userpass ∷ (c ++ (q ++ tail)) =
        ap (λ xs. xs ++ tail) whole ∙ ap (λ xs. 0x05 ∷ 1 ∷ userpass ∷ xs) (append_assoc c q tail) in
      (
        t,
        s1,
        s2,
        s3,
        can,
        greeting_step_auth s0 (c ++ (q ++ tail)) refl refl front,
        auth_step_lem p s1 user pass c (q ++ tail) hu hp creds refl,
        refl,
        e,
      )

  -- The whole exchange without credentials: the bytes that the server sends for the pipeline, up to
  -- the reply with the address of the upstream, give the client this reply, and whatever the upstream
  -- sends first comes out as the leftover.
  -- The host texts are UTF-8, and the conversions of addresses keep their laws.
  pub feed-served :
      (host bhost : Text) (n bn : ℕ) (b tail r rest : Bytes)
      → IsInet p
      → p.is_utf8 host ≡ true
      → p.is_utf8 bhost ≡ true
      → optimistic_pipeline p (fresh none) host (pos n) (pos Types.connect) ≡ ok b
      → Binding.reply p (pos (value succeeded)) bhost (pos bn) ≡ ok r
      → (m : Bytes) × (t : Text) × (bt : Text) × (s1 : ServerSession Ctx Pipe) × (s2 : ServerSession
          Ctx Pipe)
        × (s3 : ServerSession Ctx Pipe) × (s4 : ServerSession Ctx Pipe) × (cs : Session)
        × (canonical p host ≡ some t)
        × (canonical p bhost ≡ some bt)
        × (next_event p (Decisions.receive (State.init false) (b ++ tail)) ≡ (ok (send m), s1))
        × (next_event p s1 ≡ (ok (connect Types.connect t n), s2))
        × (next_event p (Decisions.connected s2 bhost (pos bn)) ≡ (ok (send r), s3))
        × (next_event p s3 ≡ (ok (relay t (pos n)), s4))
        × (feed p (fresh none) (m ++ (r ++ rest))
            ≡ (returned (some (record { rep = value succeeded; host = bt; port = bn })), cs))
        × (leftover cs ≡ rest)
  unfolding next_event step State.init Decisions.receive
  feed-served host bhost n bn b tail r rest inet u ub h hr =
      let (q, made, whole) = pipeline_open p host (pos n) (pos Types.connect) h in
      let s0 : ServerSession Ctx Pipe = Decisions.receive (State.init false) (b ++ tail) in
      let s1 = granted s0 (q ++ tail) in
      let (t, can, e) = request_step_lem p s1 host n q tail inet u made refl in
      let s2 = requested s1 tail Types.connect t n in
      let (e3, e4) = relay_events s2 t bhost n bn r refl refl refl refl refl refl hr in
      let (bt, cs, bcan, fed, left) =
        feed-reply p none (value succeeded) bn bhost r rest inet ub hr in
      (
        0x05 ∷ no_auth ∷ [],
        t,
        bt,
        s1,
        s2,
        answering s2 t n bhost bn,
        relaying s2 bhost bn,
        cs,
        can,
        bcan,
        greeting_step_open s0 (q ++ tail) refl refl (ap (λ xs. xs ++ tail) whole),
        e,
        e3,
        e4,
        fed,
        left,
      )
