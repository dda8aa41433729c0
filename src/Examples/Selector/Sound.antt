-- ===== src/Examples/Selector/Sound.antt =====
-- One handshake of examples/selector_connect.py.
use optisocks.Prelude.{
  ℕ, zero, suc, ◌-◌, ◌<◌, ◌≡◌, ◌≢◌, ◌⊎◌, refl, sym, ap, subst, ◌∙◌, ℤ, pos, inl, inr, true, false,
  Bool-cases, Option, none, some, List, [], ◌∷◌, ◌++◌, Bytes, Text, Exn, os_error, socks5_error,
  peer_closed, runtime_error, Result, ok, arith, ltb, ltb→le, length, take, drop, length-append,
  length-drop, append_assoc, append-nil, >>=-eq-ok, ◌>>=◌,
}
use optisocks.Codec.Platform.{Platform}
use optisocks.Core.Types.{Reply, connect}
use optisocks.Core.Session
use optisocks.Core.Session.{
  Session, Outcome, method, done, returned, raised, diverges, feed, fresh, optimistic_pipeline,
  loop, turn, method_turn,
}
use optisocks.Core.Session.Segments.{resume, feed-append}
use optisocks.Examples.Selector.{
  Pending, pending, wants_write, Ready, fails, works, Standing, waiting, failed, finished, escaped,
  on_writable, on_readable, caught, answered, on_ready, Board, run,
}
use optisocks.Examples.Selector.Alone.{run_one, reports_on, all_reports, run-run_one}
use optisocks.Examples.Selector.Portions.{drop_past, left_taken, send_more}

-- A handshake that began with the session `s0` has sent a front part of the pipeline, and `xs` is what
-- it has read; it reads nothing before the pipeline is out.
pub record IsOnTrack (p : Platform) (s0 : Session) (b : Bytes) (xs : Bytes) (c : Pending)
    : Type 0 where
  pub whole : c.pipeline ≡ b
  pub out : c.wire ++ drop c.sent b ≡ b
  pub measured : length c.wire ≡ c.sent
  pub fed : feed p s0 xs ≡ (returned none, c.sess)
  pub quiet : (xs ≡ []) ⊎ (ltb c.sent (length b) ≡ false)

-- What `recv` gave in these reports, each chunk whole, when `left` bytes of the pipeline are not out:
-- until they are, a report is of a `send`, which takes as many as there is room for.
abbrev pub received : ℕ → List Ready → Bytes
received left [] = []
received left (fails ∷ rs) = received left rs
received zero (works room chunk ∷ rs) = chunk ++ received zero rs
received (suc n) (works room chunk ∷ rs) = received (suc n - room) rs

sending :
    (left room : ℕ) (d : Bytes) (rs : List Ready)
    → 0 < left
    → received (left - room) rs ≡ received left (works room d ∷ rs)
sending zero room d rs h = absurd (omega arith)
sending (suc n) room d rs h = refl

-- A handshake that has finished with `r` has sent the whole pipeline, and `r` is what the session
-- makes of `read`.
pub record IsFinished (p : Platform) (s0 : Session) (b read : Bytes) (c : Pending) (r : Reply)
    : Type 0 where
  pub fed : feed p s0 read ≡ (returned (some r), c.sess)
  pub sent : c.wire ≡ b
  pub kept : c.reply ≡ some r

-- Behind the bytes `xs`, a handshake that finishes has read the chunks of the first reports.
abbrev Ends : Platform → Session → Bytes → Bytes → ℕ → List Ready → Standing → Type 0
Ends p s0 b xs left rs (finished c r) =
    (first rest : List Ready) × (rs ≡ first ++ rest)
    × IsFinished p s0 b (xs ++ received left first) c r
Ends p s0 b xs left rs _ = Unit

later :
    (p : Platform) (s0 : Session) (b xs ys : Bytes) (left left' : ℕ) (r : Ready) (rs : List Ready)
    (st : Standing)
    → ((first : List Ready) → ys ++ received left' first ≡ xs ++ received left (r ∷ first))
    → Ends p s0 b ys left' rs st
    → Ends p s0 b xs left (r ∷ rs) st
later p s0 b xs ys left left' r rs (finished c x) same (first, rest, parts, done') =
    (r ∷ first, rest, ap (◌∷◌ r) parts, subst (λ z. IsFinished p s0 b z c x) (same first) done')
later p s0 b xs ys left left' r rs (waiting c) same h = tt
later p s0 b xs ys left left' r rs (failed e) same h = tt
later p s0 b xs ys left left' r rs (escaped e) same h = tt

failed_stays : (p : Platform) (e : Exn) (rs : List Ready) → run_one p (failed e) rs ≡ failed e
unfolding run_one
failed_stays p e [] = refl
failed_stays p e (r ∷ rs) = failed_stays p e rs

escaped_stays : (p : Platform) (e : Exn) (rs : List Ready) → run_one p (escaped e) rs ≡ escaped e
unfolding run_one
escaped_stays p e [] = refl
escaped_stays p e (r ∷ rs) = escaped_stays p e rs

finished_stays :
    (p : Platform) (c : Pending) (x : Reply) (rs : List Ready)
    → run_one p (finished c x) rs ≡ finished c x
unfolding run_one
finished_stays p c x [] = refl
finished_stays p c x (r ∷ rs) = finished_stays p c x rs

module _ (p : Platform) (s0 : Session) (b : Bytes) where
  on_writable-IsOnTrack :
      (xs : Bytes) (c : Pending) (room : ℕ)
      → IsOnTrack p s0 b xs c
      → wants_write c ≡ true
      → IsOnTrack p s0 b xs (on_writable c room)
  unfolding on_writable
  on_writable-IsOnTrack xs c room t w = record {
    whole = t.whole;
    out = send_more c.wire c.sent room c.pipeline b t.whole t.out;
    measured = omega (arith, length-append c.wire (take room (drop c.sent c.pipeline)), t.measured);
    fed = t.fed;
    quiet = elim t.quiet [
      | inl none_read ↦ inl none_read
      | inr full ↦
          let open' : ltb c.sent (length b) ≡ true = rw t.whole at w in absurd (ground arith)
    ];
  }

  caught-Ends :
      (xs : Bytes) (left : ℕ) (rs rs' : List Ready) (e : Exn)
      → Ends p s0 b xs left rs (run_one p (caught e) rs')
  caught-Ends xs left rs rs' os_error = rw (failed_stays p os_error rs') tt
  caught-Ends xs left rs rs' (socks5_error f) = rw (failed_stays p (socks5_error f) rs') tt
  caught-Ends xs left rs rs' e = rw (escaped_stays p e rs') tt

  -- One report of a `recv`, and what follows it.
  on_readable-Ends :
      (xs : Bytes) (c : Pending) (room : ℕ) (d : Bytes) (rs : List Ready)
      → s0.state ≢ done
      → IsOnTrack p s0 b xs c
      → wants_write c ≡ false
      → ((ys : Bytes) (c' : Pending)
          → IsOnTrack p s0 b ys c'
          → c'.sent ≡ c.sent
          → Ends p s0 b ys 0 rs (run_one p (waiting c') rs))
      → Ends p s0 b xs 0 (works room d ∷ rs) (run_one p (on_readable p c d) rs)
  unfolding on_readable
  on_readable-Ends xs c room [] rs n t w ih = rw (failed_stays p (socks5_error peer_closed) rs) tt
  on_readable-Ends xs c room (x ∷ d) rs n t w ih = by_answer (feed p c.sess (x ∷ d)) refl
    where
      joined : (a : Outcome × Session) → feed p c.sess (x ∷ d) ≡ a → feed p s0 (xs ++ x ∷ d) ≡ a
      joined a e = feed-append p (x ∷ d) s0 xs n ∙ ap (resume p (x ∷ d)) t.fed ∙ e

      by_answer :
          (a : Outcome × Session)
          → feed p c.sess (x ∷ d) ≡ a
          → Ends p s0 b xs 0 (works room (x ∷ d) ∷ rs) (run_one p (answered c a) rs)
      by_answer (returned none, s) e =
          later p s0 b xs (xs ++ x ∷ d) 0 0 (works room (x ∷ d)) rs
            (run_one p (waiting (record c { sess = s })) rs)
            (λ first. append_assoc xs (x ∷ d) (received 0 first))
            (ih (xs ++ x ∷ d) (record c { sess = s })
              (record {
                whole = t.whole;
                out = t.out;
                measured = t.measured;
                fed = joined (returned none, s) e;
                quiet = inr (rw t.whole at w);
              })
              refl)
      by_answer (returned (some r), s) e =
          rw (finished_stays p (record c { sess = s; reply = some r }) r rs) (
            works room (x ∷ d) ∷ [],
            rs,
            refl,
            record {
              fed =
                  ap (λ z. feed p s0 (xs ++ z)) (append-nil (x ∷ d))
                  ∙ joined (returned (some r), s) e;
              kept = refl;
              sent =
                  sym (append-nil c.wire)
                  ∙ ap (λ z. c.wire ++ z)
                      (sym (drop_past c.sent b (ltb→le c.sent (length b) (rw t.whole at w))))
                  ∙ t.out;
            },
          )
      by_answer (raised e', s) e = caught-Ends xs 0 (works room (x ∷ d) ∷ rs) rs e'
      by_answer (diverges, s) e = rw (escaped_stays p runtime_error rs) tt

  -- The bytes that are left shrink by what a `send` took.
  left_after :
      (c : Pending) (room : ℕ)
      → c.pipeline ≡ b
      → length b - (on_writable c room).sent ≡ (length b - c.sent) - room
  unfolding on_writable
  left_after c room e = rw e (omega (arith, left_taken room (drop c.sent b), length-drop c.sent b))

  run_one-Ends :
      (xs : Bytes) (c : Pending) (rs : List Ready)
      → s0.state ≢ done
      → IsOnTrack p s0 b xs c
      → Ends p s0 b xs (length b - c.sent) rs (run_one p (waiting c) rs)
  unfolding run_one on_ready
  run_one-Ends xs c [] n t = tt
  run_one-Ends xs c (fails ∷ rs) n t = rw (failed_stays p os_error rs) tt
  run_one-Ends xs c (works room d ∷ rs) n t = elim (Bool-cases (wants_write c)) [
    | inl more ↦
        let open' : ltb c.sent (length b) ≡ true = rw t.whole at more in
        rw more (
          later p s0 b xs xs (length b - c.sent) (length b - (on_writable c room).sent)
            (works room d) rs (run_one p (waiting (on_writable c room)) rs)
            (λ first.
              ap (λ z. xs ++ z)
                (ap (λ k. received k first) (left_after c room t.whole)
                  ∙ sending (length b - c.sent) room d first (grind arith)))
            (run_one-Ends xs (on_writable c room) rs n (on_writable-IsOnTrack xs c room t more)))
    | inr out ↦
        let full : ltb c.sent (length b) ≡ false = rw t.whole at out in
        let none_left : length b - c.sent ≡ 0 = omega (arith, ltb→le c.sent (length b) full) in
        rw (out, none_left)
          (on_readable-Ends xs c room d rs n t out λ ys c' t' e.
            subst (λ k. Ends p s0 b ys k rs (run_one p (waiting c') rs))
              (ap (λ k. length b - k) e ∙ none_left) (run_one-Ends ys c' rs n t'))
  ]

fresh_idle :
    (p : Platform) (creds : Option (Text × Text))
    → feed p (fresh creds) [] ≡ (returned none, fresh creds)
unfolding feed loop turn method_turn
fresh_idle p creds = refl

fresh_state : (creds : Option (Text × Text)) → (fresh creds).state ≢ done
fresh_state creds h = absurd (ground arith)

init-fresh :
    (user password : Option Text) (s : Session)
    → Session.init user password ≡ ok s
    → (creds : Option (Text × Text)) × (fresh creds ≡ s)
unfolding Session.init
init-fresh none none s h = (none, ground arith)
init-fresh (some u) (some w) s h = (some (u, w), ground arith)
init-fresh none (some w) s h = cc
init-fresh (some u) none s h = cc

begun-IsOnTrack :
    (p : Platform) (creds : Option (Text × Text)) (sess : Session) (b : Bytes)
    → fresh creds ≡ sess
    → IsOnTrack p
        (fresh creds)
        b
        []
        (record { sess = sess; pipeline = b; sent = 0; reply = none; wire = [] })
begun-IsOnTrack p creds sess b e = rw (← e) (record {
  whole = refl;
  out = refl;
  measured = refl;
  fed = fresh_idle p creds;
  quiet = inl refl;
})

pending-IsOnTrack :
    (p : Platform) (host : Text) (port : ℤ) (user password : Option Text) (c : Pending)
    → pending p host port user password ≡ ok c
    → (s0 : Session) × (Session.init user password ≡ ok s0)
      × (s0.state ≢ done)
      × (c.sent ≡ 0)
      × IsOnTrack p s0 c.pipeline [] c
unfolding pending
pending-IsOnTrack p host port user password c h =
    let start : Session → Bytes → Pending =
      λ sess b. record { sess = sess; pipeline = b; sent = 0; reply = none; wire = [] } in
    let f : Session → Result Pending =
      λ sess. optimistic_pipeline p sess host port (pos connect) >>= λ b. ok (start sess b) in
    let (sess, made, more) = >>=-eq-ok (Session.init user password) f h in
    let (b, built, whole) =
      >>=-eq-ok (optimistic_pipeline p sess host port (pos connect)) (λ b. ok (start sess b))
        more in
    let (creds, e) = init-fresh user password sess made in
    let same : start sess b ≡ c = ground arith in
    (
      sess,
      made,
      subst (λ s. s.state ≢ done) e (fresh_state creds),
      ap (λ (x : Pending). x.sent) (sym same),
      subst (λ (x : Pending). IsOnTrack p sess x.pipeline [] x) same
          (subst (λ s. IsOnTrack p s b [] (start sess b)) e (begun-IsOnTrack p creds sess b e)),
    )

-- Of many handshakes on one thread, reported in any order and with partial sends: when one that began
-- with `PendingConnect` finishes, and no exception has escaped, the kernel has taken exactly its
-- pipeline, each byte once and in order; and its reply is what a new session with its credentials
-- makes of the chunks that `recv` gave on its socket in the first of its reports, each of them whole
-- and in order.
pub run-IsFinished :
    (p : Platform) (host : Text) (port : ℤ) (user password : Option Text) (c c' : Pending)
    (r : Reply) (board board' : Board) (n n' : ℕ) (log : List (List (ℕ × Ready))) (j : ℕ)
    → pending p host port user password ≡ ok c
    → board j ≡ waiting c
    → run p board n log ≡ some (board', n')
    → board' j ≡ finished c' r
    → (s0 : Session) × (first rest : List Ready) × (Session.init user password ≡ ok s0)
      × (reports_on j (all_reports log) ≡ first ++ rest)
      × IsFinished p s0 c.pipeline (received (length c.pipeline) first) c' r
run-IsFinished p host port user password c c' r board board' n n' log j made at ran done' =
    let (s0, new, live, zero_sent, t) = pending-IsOnTrack p host port user password c made in
    let (mine, later_on, split, stands) = run-run_one p board board' n n' log j ran in
    let alone : run_one p (waiting c) mine ≡ finished c' r =
      ap (λ st. run_one p st mine) (sym at) ∙ sym stands ∙ done' in
    let all_left : length c.pipeline - c.sent ≡ length c.pipeline = omega (arith, zero_sent) in
    let ends = run_one-Ends p s0 c.pipeline [] c mine live t in
    let (first, rest, parts, fin) =
      subst (Ends p s0 c.pipeline [] (length c.pipeline) mine) alone
        (subst (λ k. Ends p s0 c.pipeline [] k mine (run_one p (waiting c) mine)) all_left ends) in
    (
      s0,
      first,
      rest ++ later_on,
      new,
      split ∙ ap (λ z. z ++ later_on) parts ∙ append_assoc first rest later_on,
      fin,
    )
