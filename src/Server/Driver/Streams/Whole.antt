-- ===== src/Server/Driver/Streams/Whole.antt =====
-- The loop of `_handle` in src/optisocks5/server/server.py and aio.py, and the one that has read all of
-- the client's stream before its first turn.
use optisocks.Prelude.{
  ℕ, ◌≡◌, refl, sym, ap, subst, ◌∙◌, Bool, List, [], ◌∷◌, ◌++◌, Bytes, ok, IsByte, All, All-append,
  All-split, append-nil, append_assoc,
}
use optisocks.Codec.Platform.{Platform}
use optisocks.Server.Events.{need_data}
use optisocks.Server.State.{ServerSession}
use optisocks.Server.Decisions.{receive}
use optisocks.Server.Machine.{next_event}
use optisocks.Server.Machine.Cuts.{IsTidy}
use optisocks.Server.Machine.Segments.{next_event-receive}
use optisocks.Server.Hooks.{Hooks, World, Recv, chunk, broken}
use optisocks.Server.Driver.{Conn, Exit, Round, goes_on, stops, left, on_need_data, on_next}
use optisocks.Server.Driver.Streams.{IsBlind, heard}
use optisocks.Server.Driver.Streams.Shifted.{shift, Shifts}
use optisocks.Server.Driver.Streams.Kept.{Leaves}
use optisocks.Server.Driver.Streams.Joined.{
  IsSame, turn, Ends, stop, go, ended, gone_to, goes, Catches, catches,
}

module _ {Ctx Pipe : Type 0} where
  -- `on_need_data`, with the stream apart.
  abbrev reading : Conn Ctx Pipe → List Recv → Round Ctx Pipe
  reading c [] = stops left c
  reading c (broken ∷ more) = stops left (record c { incoming = more })
  reading c (chunk [] ∷ more) = stops left (record c { incoming = more })
  reading c (chunk (b ∷ bs) ∷ more) =
      goes_on (record c { sess = receive c.sess (b ∷ bs); incoming = more })

  on_need_data-reading :
      (s : ServerSession Ctx Pipe) (u : Bool) (i : List Recv) (log : _)
      → (let c : Conn Ctx Pipe = record { sess = s; upstream = u; incoming = i; log = log } in
          on_need_data c ≡ reading c i)
  unfolding on_need_data
  on_need_data-reading s u [] log = refl
  on_need_data-reading s u (broken ∷ more) log = refl
  on_need_data-reading s u (chunk [] ∷ more) log = refl
  on_need_data-reading s u (chunk (b ∷ bs) ∷ more) log = refl

  IsSame-refl : (r : Exit × Conn Ctx Pipe) → IsSame r r
  IsSame-refl r = record { exit = refl; log = refl; upstream = refl }

  IsSame-trans : (r r' r'' : Exit × Conn Ctx Pipe) → IsSame r r' → IsSame r' r'' → IsSame r r''
  IsSame-trans r r' r'' h k = record {
    exit = k.exit ∙ h.exit;
    log = k.log ∙ h.log;
    upstream = k.upstream ∙ h.upstream;
  }

  receive-nil : (s : ServerSession Ctx Pipe) → receive s [] ≡ s
  unfolding receive
  receive-nil s = ap (λ b. record s { buf = b }) (append-nil s.buf)

  receive-receive :
      (s : ServerSession Ctx Pipe) (d e : Bytes) → receive (receive s d) e ≡ receive s (d ++ e)
  unfolding receive
  receive-receive s d e = ap (λ b. record s { buf = b }) (append_assoc s.buf d e)

  -- With nothing to come, reading ends the loop.
  reading-dead :
      (c : Conn Ctx Pipe) (i : List Recv)
      → heard i ≡ []
      → (c' : Conn Ctx Pipe) × (reading c i ≡ stops left c')
        × (c'.log ≡ c.log)
        × (c'.upstream ≡ c.upstream)
  reading-dead c [] h = (c, refl, refl, refl)
  reading-dead c (broken ∷ more) h = (record c { incoming = more }, refl, refl, refl)
  reading-dead c (chunk [] ∷ more) h = (record c { incoming = more }, refl, refl, refl)
  reading-dead c (chunk (b ∷ bs) ∷ more) h = absurd (cc)

  IsTidy-receive :
      (s : ServerSession Ctx Pipe) (d : Bytes) → IsTidy s → All IsByte d → IsTidy (receive s d)
  unfolding receive
  IsTidy-receive s d (n, b) h = (n, All-append IsByte s.buf d b h)

module _ {Ctx Pipe : Type 0} (p : Platform) (relaying : World Pipe → Conn Ctx Pipe → Round Ctx Pipe)
    (hooks : Hooks Ctx Pipe) (w : World Pipe) (k : IsBlind hooks)
    (shifts : (d : Bytes) (more : List Recv) → Shifts d more relaying w)
    (leaves : (i : List Recv) → Leaves i relaying w) where
  asking :
      (c : Conn Ctx Pipe) (i : List Recv)
      → c.incoming ≡ i
      → next_event p c.sess ≡ (ok need_data, c.sess)
      → turn p relaying hooks w c ≡ reading c i
  asking c i h asks =
      ap (on_next relaying hooks w c) asks
      ∙ on_need_data-reading c.sess c.upstream c.incoming c.log
      ∙ ap (reading c) h

  -- It reads the next chunk.
  reads_chunk :
      (b : ℕ) (bs : Bytes) (more : List Recv) (c : Conn Ctx Pipe) (r : Exit × Conn Ctx Pipe)
      → c.incoming ≡ chunk (b ∷ bs) ∷ more
      → IsTidy c.sess
      → next_event p c.sess ≡ (ok need_data, c.sess)
      → Ends p relaying hooks w c r
      → Catches p relaying hooks w (b ∷ bs) (chunk (b ∷ bs) ∷ more) more c r
  reads_chunk b bs more c r h t asks (stop c0 c' e q) =
      absurd (let x = ap goes (sym (asking c _ h asks) ∙ q) in cc)
  reads_chunk b bs more c r h t asks (go c0 c' r0 q sub) =
      let same : c' ≡ shift (b ∷ bs) more c = ap gone_to (sym q ∙ asking c _ h asks) in
      (r0, subst (λ z. Ends p relaying hooks w z r0) same sub, IsSame-refl r0)

  -- Nothing more comes: an empty stretch of bytes changes nothing.
  reads_dead :
      (i : List Recv) (c : Conn Ctx Pipe) (r : Exit × Conn Ctx Pipe)
      → c.incoming ≡ i
      → heard i ≡ []
      → IsTidy c.sess
      → next_event p c.sess ≡ (ok need_data, c.sess)
      → Ends p relaying hooks w c r
      → Catches p relaying hooks w [] i [] c r
  reads_dead i c r h dead t asks (stop c0 c' e q) =
      let (c1, stopped, l, u) = reading-dead c i dead in
      let same : (left, c1) ≡ (e, c') = ap ended (sym stopped ∙ sym (asking c i h asks) ∙ q) in
      let still : next_event p (shift [] [] c).sess ≡ (ok need_data, (shift [] [] c).sess) =
        subst (λ s. next_event p s ≡ (ok need_data, s)) (sym (receive-nil c.sess)) asks in
      let x = ap (λ (z : Exit × Conn Ctx Pipe). z.0) same in
      let y = ap (λ (z : Exit × Conn Ctx Pipe). z.1) same in
      (
        (left, shift [] [] c),
        stop (shift [] [] c) (shift [] [] c) left (asking (shift [] [] c) [] refl still),
        record {
          exit = x;
          log = sym l ∙ ap (λ z. z.log) y;
          upstream = sym u ∙ ap (λ z. z.upstream) y;
        },
      )
  reads_dead i c r h dead t asks (go c0 c' r0 q sub) =
      let (c1, stopped, l, u) = reading-dead c i dead in
      absurd (let x = ap goes (sym stopped ∙ sym (asking c i h asks) ∙ q) in cc)

  whole_dead :
      (i : List Recv) (c : Conn Ctx Pipe) (r : Exit × Conn Ctx Pipe)
      → c.incoming ≡ i
      → heard i ≡ []
      → IsTidy c.sess
      → Ends p relaying hooks w c r
      → Catches p relaying hooks w [] i [] c r
  whole_dead i c r h dead t ends =
      catches p relaying hooks w [] i [] k (shifts [] []) (leaves i)
        (λ s t'. next_event-receive p [] s t'.1)
        (λ c' r' h' t' asks. reads_dead i c' r' h' dead t' asks) c r h t ends

  -- The connection that has read everything before its first turn ends the same way.
  pub whole :
      (i : List Recv) (c : Conn Ctx Pipe) (r : Exit × Conn Ctx Pipe)
      → c.incoming ≡ i
      → IsTidy c.sess
      → All IsByte (heard i)
      → Ends p relaying hooks w c r
      → Catches p relaying hooks w (heard i) i [] c r
  whole [] c r h t b ends = whole_dead [] c r h refl t ends
  whole (broken ∷ more) c r h t b ends = whole_dead _ c r h refl t ends
  whole (chunk [] ∷ more) c r h t b ends = whole_dead _ c r h refl t ends
  whole (chunk (x ∷ xs) ∷ more) c r h t b ends =
      let (now, after) = All-split IsByte (x ∷ xs) (heard more) b in
      let (r1, e1, same1) =
        catches p relaying hooks w (x ∷ xs) (chunk (x ∷ xs) ∷ more) more k (shifts (x ∷ xs) more)
          (leaves (chunk (x ∷ xs) ∷ more)) (λ s t'. next_event-receive p (x ∷ xs) s t'.1)
          (λ c' r' h' t' asks. reads_chunk x xs more c' r' h' t' asks) c r h t ends in
      let (r2, e2, same2) =
        whole more (shift (x ∷ xs) more c) r1 refl (IsTidy-receive c.sess (x ∷ xs) t now) after
          e1 in
      (
        r2,
        subst (λ s. Ends p relaying hooks w (record (shift (x ∷ xs) [] c) { sess = s }) r2)
            (receive-receive c.sess (x ∷ xs) (heard more)) e2,
        IsSame-trans r r1 r2 same1 same2,
      )
