-- ===== src/Interop/Driven/Spoken.antt =====
-- `_handle` of src/optisocks5/server/server.py and aio.py, with what a client of this library
-- writes, to the end of the connection.
use optisocks.Prelude.{
  ℕ, pos, ◌≡◌, refl, sym, ap, subst, ◌∙◌, inl, inr, true, false, Option, none, some, Bool, List, [],
  ◌∷◌, ◌++◌, Bytes, Text, ok, arith, some_eq, append_assoc,
}
use optisocks.Codec.Platform.{Platform, IsInet}
use optisocks.Codec.Address.RoundTrip.{canonical}
use optisocks.Codec.Binding
use optisocks.Codec.Messages
use optisocks.Core.Types
use optisocks.Core.Types.{Reply, no_auth, userpass}
use optisocks.Server.Events.{send, connect}
use optisocks.Server.State
use optisocks.Server.State.{ServerSession}
use optisocks.Server.Decisions
use optisocks.Server.Machine.{next_event, step, greeting_step, emit_send, auth_wait_step}
use optisocks.Server.Machine.Serving.{
  greeting_step_open, greeting_step_auth, greeting_step_both, auth_step_lem, request_step_lem,
  requested, questioned,
}
use optisocks.Server.Hooks.{
  Hooks, Verdict, Decision, World, Dial, Action, Recv, sent, asked, dialled, spliced,
}
use optisocks.Server.Driver.{Conn, Exit, Round, stops, left, did, start}
use optisocks.Server.Driver.Streams.Joined.{Ends}
use optisocks.Server.Driver.Streams.{heard}
use optisocks.Server.Driver.Streams.Handled.{all_read, closing}
use optisocks.Interop.{granted}
use optisocks.Interop.Driven.{Greets, Speaks, answer_to, AreUtf8, Allows, Welcomes, greeted, ending}
use optisocks.Interop.Driven.Turns.{Serves, Serves-go, turn-send, turn-authorize, Ends-dialled}

greeting_step-Greets :
    {Ctx Pipe : Type 0} (s : ServerSession Ctx Pipe) (g rest : Bytes)
    → s.out ≡ []
    → s.require_auth ≡ true
    → Greets g
    → s.buf ≡ g ++ rest
    → greeting_step s
      ≡ (ok (send (0x05 ∷ userpass ∷ [])), record s { buf = rest; state = State.auth; out = [] })
greeting_step-Greets s g rest o need (inl e) same =
    greeting_step_auth s rest o need (same ∙ ap (λ x. x ++ rest) e)
greeting_step-Greets s g rest o need (inr e) same =
    greeting_step_both s rest o need (same ∙ ap (λ x. x ++ rest) e)

module _ {Ctx Pipe : Type 0} (p : Platform) (inet : IsInet p)
    (rel : World Pipe → Conn Ctx Pipe → Round Ctx Pipe) (hooks : Hooks Ctx Pipe) (w : World Pipe)
    (sends : (log : List (Action Pipe)) → w.send_works log ≡ true)
    (splices : (c : Conn Ctx Pipe)
      → c.sess.custom_pipe ≡ none
      → c.upstream ≡ true
      → rel w c ≡ stops left (did c spliced))
    (host t bhost : Text) (n code bn : ℕ) (d : Dial) (r : Bytes) (u : p.is_utf8 host ≡ true)
    (can : canonical p host ≡ some t) (allows : Allows hooks t n)
    (dials : (log : List (Action Pipe)) → w.dial log (t, pos n) ≡ d)
    (a : answer_to d ≡ some (code, bhost, bn))
    (made : Binding.reply p (pos code) bhost (pos bn) ≡ ok r) where
  -- A session that has the request before it, and nothing else on its mind.
  record IsReady (s : ServerSession Ctx Pipe) : Type 0 where
    state : s.state ≡ State.request
    out : s.out ≡ []
    raw : s.raw ≡ false
    intercepted : s.intercepted ≡ false
    custom_pipe : s.custom_pipe ≡ none

  Serves-request :
      (c : Conn Ctx Pipe) (q tail : Bytes)
      → Binding.request p (pos Types.connect) host (pos n) ≡ ok q
      → c.sess.buf ≡ q ++ tail
      → IsReady c.sess
      → Serves p rel hooks w sends splices c d (sent r ∷ dialled (t, pos n) d ∷ c.log)
  unfolding next_event step
  Serves-request c q tail h e i =
      let (t', can', stepped) = request_step_lem p c.sess host n q tail inet u h e in
      let same : t' ≡ t = some_eq (sym can' ∙ can) in
      let asked : next_event p c.sess
          ≡ (ok (connect Types.connect t n), requested c.sess tail Types.connect t n) =
        ground (arith, i.state, i.out, same, stepped) in
      Ends-dialled p rel hooks w sends splices c (requested c.sess tail Types.connect t n) t bhost n
        code bn d r asked allows
        record {
          state = refl;
          out = i.out;
          raw = i.raw;
          rejected = refl;
          failed = refl;
          intercepted = i.intercepted;
          custom_pipe = i.custom_pipe;
          target = refl;
        }
        (dials c.log) a made

  -- The connection that has read all it will, with or without a need for authorization.
  abbrev given : Bool → Bytes → Conn Ctx Pipe
  given need xs = record {
    sess = Decisions.receive (State.init need) xs;
    upstream = false;
    incoming = [];
    log = [];
  }

  all_read-none : (xs : Bytes) → hooks.authorize ≡ none → all_read hooks xs ≡ given false xs
  unfolding start
  all_read-none xs h = rw h refl

  all_read-some :
      (xs : Bytes) (hook : ServerSession Ctx Pipe → Option Text → Option Text → Verdict Ctx Pipe)
      → hooks.authorize ≡ some hook
      → all_read hooks xs ≡ given true xs
  unfolding start
  all_read-some xs hook h = rw h refl

  Serves-open :
      (b tail : Bytes)
      → Speaks p none host n b
      → Serves p rel hooks w sends splices
          (given false (b ++ tail))
          d
          (sent r ∷ dialled (t, pos n) d ∷ greeted none)
  unfolding next_event step State.init Decisions.receive
  Serves-open b tail (q, req, whole) =
      let s1 = granted (given false (b ++ tail)).sess (q ++ tail) in
      let m : Bytes = 0x05 ∷ no_auth ∷ [] in
      Serves-go p rel hooks w sends splices (given false (b ++ tail))
        (did (record (given false (b ++ tail)) { sess = s1 }) (sent m)) d _
        (turn-send p rel hooks w sends splices (given false (b ++ tail)) s1 m (
          greeting_step_open (given false (b ++ tail)).sess (q ++ tail) refl refl
            (ap (λ xs. xs ++ tail) whole)))
        (Serves-request (did (record (given false (b ++ tail)) { sess = s1 }) (sent m)) q tail req
          refl
          record { state = refl; out = refl; raw = refl; intercepted = refl; custom_pipe = refl })

  Serves-auth :
      (user password : Text) (b tail : Bytes)
      (hook : ServerSession Ctx Pipe → Option Text → Option Text → Verdict Ctx Pipe)
      → p.is_utf8 user ≡ true
      → p.is_utf8 password ≡ true
      → Speaks p (some (user, password)) host n b
      → hooks.authorize ≡ some hook
      → ((s : ServerSession Ctx Pipe)
          → (ctx : Option Ctx) × (hook s (some user) (some password)
              ≡ record { calls = Decision.ok ctx ∷ []; raises = false }))
      → Serves p rel hooks w sends splices
          (given true (b ++ tail))
          d
          (sent r ∷ dialled (t, pos n) d ∷ greeted (some (user, password)))
  unfolding next_event step State.init Decisions.receive Decisions.ok auth_wait_step emit_send
      Binding.auth_reply Messages.auth_reply
  Serves-auth user password b tail hook hu hp (g, c, q, greets, creds, req, whole) set says =
      let c0 = given true (b ++ tail) in
      let s1 : ServerSession Ctx Pipe = record c0.sess {
        buf = c ++ (q ++ tail);
        state = State.auth;
        out = [];
      } in
      let c1 : Conn Ctx Pipe = did (record c0 { sess = s1 }) (sent (0x05 ∷ userpass ∷ [])) in
      let s2 = questioned s1 (q ++ tail) in
      let (ctx, said) = says s2 in
      let c2 : Conn Ctx Pipe =
        did (record c1 { sess = Decisions.ok s2 ctx }) (asked (some user) (some password)) in
      let s3 : ServerSession Ctx Pipe = record c2.sess { state = State.request; out = [] } in
      let c3 : Conn Ctx Pipe = did (record c2 { sess = s3 }) (sent (0x01 ∷ 0x00 ∷ [])) in
      let front : b ++ tail ≡ g ++ (c ++ (q ++ tail)) =
        ap (λ xs. xs ++ tail) whole
        ∙ append_assoc g (c ++ q) tail
        ∙ ap (λ xs. g ++ xs) (append_assoc c q tail) in
      Serves-go p rel hooks w sends splices c0 c1 d _
        (turn-send p rel hooks w sends splices c0 s1 (0x05 ∷ userpass ∷ [])
          (greeting_step-Greets c0.sess g (c ++ (q ++ tail)) refl refl greets front))
        (Serves-go p rel hooks w sends splices c1 c2 d _
          (turn-authorize p rel hooks w sends splices c1 s2 (some user) (some password) ctx hook
            (auth_step_lem p s1 user password c (q ++ tail) hu hp creds refl) set said)
          (Serves-go p rel hooks w sends splices c2 c3 d _
            (turn-send p rel hooks w sends splices c2 s3 (0x01 ∷ 0x00 ∷ []) refl)
            (Serves-request c3 q tail req refl record {
              state = refl;
              out = refl;
              raw = refl;
              intercepted = refl;
              custom_pipe = refl;
            })))

  Serves-client :
      (creds : Option (Text × Text)) (b tail : Bytes)
      → AreUtf8 p creds
      → Speaks p creds host n b
      → Welcomes hooks creds
      → Serves p rel hooks w sends splices
          (all_read hooks (b ++ tail))
          d
          (sent r ∷ dialled (t, pos n) d ∷ greeted creds)
  Serves-client none b tail utf h free =
      subst
        (λ c. Serves p rel hooks w sends splices c d (sent r ∷ dialled (t, pos n) d ∷ greeted none))
        (sym (all_read-none (b ++ tail) free)) (Serves-open b tail h)
  Serves-client (some (user, password)) b tail (hu, hp) h (hook, set, says) =
      subst
        (λ c.
          Serves p rel hooks w sends splices c d
            (sent r ∷ dialled (t, pos n) d ∷ greeted (some (user, password))))
        (sym (all_read-some (b ++ tail) hook set))
        (Serves-auth user password b tail hook hu hp h set says)

  -- What a driver that ends as this loop does gives.
  pub Serves-run :
      (xs : List Recv) (ran : Exit × List (Action Pipe)) (creds : Option (Text × Text))
      (b tail : Bytes)
      → AreUtf8 p creds
      → Speaks p creds host n b
      → Welcomes hooks creds
      → heard xs ≡ b ++ tail
      → ((e : Exit × Conn Ctx Pipe)
          → Ends p rel hooks w (all_read hooks (heard xs)) e
          → ran ≡ closing hooks e)
      → ran ≡ (left, ending hooks.on_disconnect d (sent r ∷ dialled (t, pos n) d ∷ greeted creds))
  Serves-run xs ran creds b tail utf h welcome same settles =
      let (c', ends, closed) = Serves-client creds b tail utf h welcome in
      settles (left, c')
        (subst (λ x. Ends p rel hooks w (all_read hooks x) (left, c')) (sym same) ends)
      ∙ closed
