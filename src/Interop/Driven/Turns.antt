-- ===== src/Interop/Driven/Turns.antt =====
-- One turn of the loop of `_handle` (src/optisocks5/server/server.py and aio.py) after another, for an
-- optimistic client.
use optisocks.Prelude.{
  ℕ, ℤ, pos, negsuc, ◌≡◌, refl, ap, ◌∙◌, inl, inr, true, false, Option, none, some, List, [], ◌∷◌,
  Bytes, Text, ok, arith,
}
use optisocks.Codec.Platform.{Platform}
use optisocks.Codec.Binding
use optisocks.Core.Types
use optisocks.Core.Types.{value, succeeded}
use optisocks.Server.Events.{Event, send, authorize, connect, relay, close, upstream_failed}
use optisocks.Server.State
use optisocks.Server.State.{ServerSession}
use optisocks.Server.Decisions
use optisocks.Server.Machine.{next_event, step, connect_wait_step, emit_send, any_host}
use optisocks.Server.Hooks.{
  Hooks, Verdict, Decision, World, Dial, Action, apply, apply_all, sent, asked, dialled, spliced,
  closed_upstream, closed_downstream,
}
use optisocks.Server.Driver.{
  Conn, cleanup, Round, goes_on, stops, left, did, on_send, on_authorize, run_hook, hooked,
  on_connect, dial, dial_result, on_event, on_next,
}
use optisocks.Server.Driver.Streams.Joined.{turn, Ends, stop, go}
use optisocks.Server.Driver.Streams.Handled.{closing}
use optisocks.Interop.{relay_events, answering, relaying}
use optisocks.Interop.Driven.{Allows, answer_to, ending, parted}

module _ {Ctx Pipe : Type 0} (hooks : Hooks Ctx Pipe) where
  cleanup-true :
      (c : Conn Ctx Pipe)
      → c.upstream ≡ true
      → cleanup hooks c ≡ closed_upstream ∷ closed_downstream ∷ parted hooks.on_disconnect c.log
  unfolding cleanup
  cleanup-true c u = ground arith

  cleanup-false :
      (c : Conn Ctx Pipe)
      → c.upstream ≡ false
      → cleanup hooks c ≡ closed_downstream ∷ parted hooks.on_disconnect c.log
  unfolding cleanup
  cleanup-false c u = ground arith

  hooked-Allows :
      (c : Conn Ctx Pipe) (t : Text) (n : ℕ) → Allows hooks t n → hooked hooks c t n ≡ c.sess
  unfolding run_hook apply_all
  hooked-Allows c t n (inl e) = rw e refl
  hooked-Allows c t n (inr (hook, e, says)) = rw (e, says) refl

module _ {Ctx Pipe : Type 0} (p : Platform) where
  -- The session once an error reply is made.
  abbrev pub refusing : ServerSession Ctx Pipe → ℤ → ServerSession Ctx Pipe
  refusing s code = record s {
    failed = true;
    rep = code;
    state = State.closed;
    out = close upstream_failed ∷ [];
  }

  -- The server's last two events, when the dial has failed.
  refuse_events :
      (s : ServerSession Ctx Pipe) (code : ℤ) (r : Bytes)
      → s.state ≡ State.connect_wait
      → s.out ≡ []
      → s.raw ≡ false
      → s.rejected ≡ false
      → Binding.reply p code any_host (pos 0) ≡ ok r
      → (next_event p (Decisions.connect_failed s code) ≡ (ok (send r), refusing s code))
        × (next_event p (refusing s code)
            ≡ (ok (close upstream_failed), record (refusing s code) { out = [] }))
  unfolding next_event step connect_wait_step emit_send Decisions.connect_failed
  refuse_events s code r st o raw rej h = (ground arith, ground arith)

  -- The session waits for the upstream, and the hooks have asked for nothing else.
  pub record IsWaiting (s : ServerSession Ctx Pipe) (t : Text) (n : ℕ) : Type 0 where
    pub state : s.state ≡ State.connect_wait
    pub out : s.out ≡ []
    pub raw : s.raw ≡ false
    pub rejected : s.rejected ≡ false
    pub failed : s.failed ≡ false
    pub intercepted : s.intercepted ≡ false
    pub custom_pipe : s.custom_pipe ≡ none
    pub target : s.target ≡ some (t, pos n)

  module _ (rel : World Pipe → Conn Ctx Pipe → Round Ctx Pipe) (hooks : Hooks Ctx Pipe)
      (w : World Pipe) (sends : (log : _) → w.send_works log ≡ true)
      (splices : (c : Conn Ctx Pipe)
        → c.sess.custom_pipe ≡ none
        → c.upstream ≡ true
        → rel w c ≡ stops left (did c spliced)) where
    pub turn_lem :
        (c : Conn Ctx Pipe) (s : ServerSession Ctx Pipe) (e : Event)
        → next_event p c.sess ≡ (ok e, s)
        → turn p rel hooks w c ≡ on_event rel hooks w (record c { sess = s }) e
    turn_lem c s e h = ap (on_next rel hooks w c) h

    pub turn-send :
        (c : Conn Ctx Pipe) (s : ServerSession Ctx Pipe) (b : Bytes)
        → next_event p c.sess ≡ (ok (send b), s)
        → turn p rel hooks w c ≡ goes_on (did (record c { sess = s }) (sent b))
    unfolding on_send
    turn-send c s b h = turn_lem c s (send b) h ∙ (rw (sends c.log) refl)

    pub turn-authorize :
        (c : Conn Ctx Pipe) (s : ServerSession Ctx Pipe) (user password : Option Text)
        (ctx : Option Ctx)
        (hook : ServerSession Ctx Pipe → Option Text → Option Text → Verdict Ctx Pipe)
        → next_event p c.sess ≡ (ok (authorize user password), s)
        → hooks.authorize ≡ some hook
        → hook s user password ≡ record { calls = Decision.ok ctx ∷ []; raises = false }
        → turn p rel hooks w c
          ≡ goes_on (did (record c { sess = Decisions.ok s ctx }) (asked user password))
    unfolding on_authorize run_hook apply_all apply
    turn-authorize c s user password ctx hook h set says =
        turn_lem c s (authorize user password) h ∙ (rw (set, says) refl)

    turn-connect :
        (c : Conn Ctx Pipe) (s : ServerSession Ctx Pipe) (t : Text) (n : ℕ) (d : Dial)
        → next_event p c.sess ≡ (ok (connect Types.connect t n), s)
        → Allows hooks t n
        → IsWaiting s t n
        → w.dial c.log (t, pos n) ≡ d
        → turn p rel hooks w c ≡ dial_result (did (record c { sess = s }) (dialled (t, pos n) d)) d
    unfolding on_connect dial
    turn-connect c s t n d h allows i e =
        let same = hooked-Allows hooks (record c { sess = s }) t n allows in
        turn_lem c s (connect Types.connect t n) h
        ∙ ground (arith, same, i.rejected, i.intercepted, i.target)

    -- A connection opens: the reply is sent and the relay runs.
    Ends-opened :
        (c : Conn Ctx Pipe) (s : ServerSession Ctx Pipe) (t bhost : Text) (n bn : ℕ) (r : Bytes)
        → IsWaiting s t n
        → c.sess ≡ Decisions.connected s bhost (pos bn)
        → c.upstream ≡ true
        → Binding.reply p (pos (value succeeded)) bhost (pos bn) ≡ ok r
        → Ends p rel hooks w c
            (left, record c { sess = relaying s bhost bn; log = spliced ∷ sent r ∷ c.log })
    Ends-opened c s t bhost n bn r i same up h =
        let (e3, e4) =
          relay_events p s t bhost n bn r i.state i.out i.raw i.rejected i.failed i.target h in
        go c _ _ (turn-send c (answering s t n bhost bn) r (ap (next_event p) same ∙ e3)) (
          stop _ _ _ (
            turn_lem (did (record c { sess = answering s t n bhost bn }) (sent r))
              (relaying s bhost bn) (relay t (pos n)) e4
            ∙ splices _ i.custom_pipe up))

    -- The dial has failed: the reply with the code is sent, and that is all.
    Ends-failed :
        (c : Conn Ctx Pipe) (s : ServerSession Ctx Pipe) (t : Text) (n : ℕ) (code : ℤ) (r : Bytes)
        → IsWaiting s t n
        → c.sess ≡ Decisions.connect_failed s code
        → Binding.reply p code any_host (pos 0) ≡ ok r
        → Ends p rel hooks w c
            (left, record c { sess = record (refusing s code) { out = [] }; log = sent r ∷ c.log })
    Ends-failed c s t n code r i same h =
        let (e3, e4) = refuse_events s code r i.state i.out i.raw i.rejected h in
        go c _ _ (turn-send c (refusing s code) r (ap (next_event p) same ∙ e3)) (
          stop _ _ _ (
            turn_lem (did (record c { sess = refusing s code }) (sent r))
              (record (refusing s code) { out = [] }) (close upstream_failed) e4))

    -- The connection ends by itself, with the log that the dial leads to.
    abbrev pub Serves : Conn Ctx Pipe → Dial → List (Action Pipe) → Type 0
    Serves c d log =
        (c' : Conn Ctx Pipe) × Ends p rel hooks w c (left, c')
        × (closing hooks (left, c') ≡ (left, ending hooks.on_disconnect d log))

    pub Serves-go :
        (c c1 : Conn Ctx Pipe) (d : Dial) (log : List (Action Pipe))
        → turn p rel hooks w c ≡ goes_on c1
        → Serves c1 d log
        → Serves c d log
    Serves-go c c1 d log e (c', ends, closed) = (c', go c c1 _ e ends, closed)

    Serves-failed :
        (c c1 : Conn Ctx Pipe) (s : ServerSession Ctx Pipe) (t : Text) (n k code bn : ℕ)
        (bhost : Text) (r : Bytes)
        → turn p rel hooks w c ≡ goes_on c1
        → c1.upstream ≡ false
        → c1.sess ≡ Decisions.connect_failed s (pos k)
        → IsWaiting s t n
        → ◌≡◌ {A = Option (ℕ × Text × ℕ)} (some (k, any_host, 0)) (some (code, bhost, bn))
        → Binding.reply p (pos code) bhost (pos bn) ≡ ok r
        → Serves c Dial.refused (sent r ∷ c1.log)
    Serves-failed c c1 s t n k code bn bhost r e u same i a b =
        let made : Binding.reply p (pos k) any_host (pos 0) ≡ ok r = cc in
        (
          _,
          go c c1 _ e (Ends-failed c1 s t n (pos k) r i same made),
          ap (λ l. (left, l))
              (cleanup-false hooks
                (record c1 {
                  sess = record (refusing s (pos k)) { out = [] };
                  log = sent r ∷ c1.log;
                })
                u),
        )

    -- From the event `Connect` on.
    pub Ends-dialled :
        (c : Conn Ctx Pipe) (s : ServerSession Ctx Pipe) (t bhost : Text) (n code bn : ℕ) (d : Dial)
        (r : Bytes)
        → next_event p c.sess ≡ (ok (connect Types.connect t n), s)
        → Allows hooks t n
        → IsWaiting s t n
        → w.dial c.log (t, pos n) ≡ d
        → answer_to d ≡ some (code, bhost, bn)
        → Binding.reply p (pos code) bhost (pos bn) ≡ ok r
        → Serves c d (sent r ∷ dialled (t, pos n) d ∷ c.log)
    unfolding dial_result
    Ends-dialled c s t bhost n code bn (Dial.opened host (pos port)) r e h i de a b =
        let made : Binding.reply p (pos (value succeeded)) host (pos port) ≡ ok r = cc in
        (
          _,
          go c _ _ (turn-connect c s t n _ e h i de) (
              Ends-opened
                (record (did (record c { sess = s })
                  (dialled (t, pos n) (Dial.opened host (pos port)))) {
                    sess = Decisions.connected s host (pos port);
                    upstream = true;
                  })
                s t host n port r i refl refl made),
          ap (λ l. (left, l)) (cleanup-true hooks _ refl),
        )
    Ends-dialled c s t bhost n code bn (Dial.opened host (negsuc k)) r e h i de a b = absurd (cc)
    Ends-dialled c s t bhost n code bn Dial.refused r e h i de a b =
        Serves-failed c _ s t n _ code bn bhost r (turn-connect c s t n _ e h i de) refl refl i a b
    Ends-dialled c s t bhost n code bn Dial.timed_out r e h i de a b =
        Serves-failed c _ s t n _ code bn bhost r (turn-connect c s t n _ e h i de) refl refl i a b
    Ends-dialled c s t bhost n code bn Dial.net_unreachable r e h i de a b =
        Serves-failed c _ s t n _ code bn bhost r (turn-connect c s t n _ e h i de) refl refl i a b
    Ends-dialled c s t bhost n code bn Dial.other_os_error r e h i de a b =
        Serves-failed c _ s t n _ code bn bhost r (turn-connect c s t n _ e h i de) refl refl i a b
    Ends-dialled c s t bhost n code bn Dial.nameless r e h i de a b =
        Serves-failed c _ s t n _ code bn bhost r (turn-connect c s t n _ e h i de) refl refl i a b
    Ends-dialled c s t bhost n code bn (Dial.raises x) r e h i de a b = absurd (cc)
