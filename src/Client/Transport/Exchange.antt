-- ===== src/Client/Transport/Exchange.antt =====
-- Reads and writes on a connection to a proxy that answers and takes everything: what a negotiation of
-- src/optisocks5/sync/client.py or aio/client.py consumes of the stream, and what it sends.
use optisocks.Prelude.{
  ℕ, ◌+◌, ◌-◌, ◌≤◌, ◌≡◌, refl, sym, ap, ◌∙◌, inl, inr, Bool-cases, true, List, [], ◌∷◌, ◌++◌, Bytes,
  Result, ok, arith, leb, le→leb, length, take, drop, take_all, drop_all, length-append,
  append_assoc,
}
use optisocks.Client.Transport.{
  Mode, Arrival, chunk, broken, late, Link, stream, M, ◌>>=◌, continue, pure, lift, sendall,
  recv_loop, recv_exact,
}
use optisocks.Client.Transport.Exact.{length-recv_exact}

-- Nothing that is sent fails.
abbrev pub Takes : Link → Type 0
Takes l = (log : List Bytes) → l.send_works log ≡ true

-- The action reads exactly `xs` off the front of the stream, sends `out` (the latest first), and
-- returns `a`.
pub record Exchange {A : Type 0} (m : M A) (xs : Bytes) (a : A) (out : List Bytes) : Type 0 where
  pub runs :
      (l : Link) (rest : Bytes)
      → Takes l
      → stream l.incoming ≡ xs ++ rest
      → (l' : Link) × (m l ≡ (ok a, l'))
        × (stream l'.incoming ≡ rest)
        × (l'.sent ≡ out ++ l.sent)
        × Takes l'

pub bind-Exchange :
    {A B : Type 0} (m : M A) (f : A → M B) {xs ys : Bytes} {a : A} {b : B} {out out' : List Bytes}
    → Exchange m xs a out
    → Exchange (f a) ys b out'
    → Exchange (m >>= f) (xs ++ ys) b (out' ++ out)
bind-Exchange m f {xs} {ys} {out} {out'} h k = record {
  runs = λ l rest w e.
      let (l1, e1, s1, o1, w1) = h.runs l (ys ++ rest) w (e ∙ append_assoc xs ys rest) in
      let (l2, e2, s2, o2, w2) = k.runs l1 rest w1 s1 in
      (
        l2,
        ap (λ r. continue r f) e1 ∙ e2,
        s2,
        o2 ∙ ap (λ o. out' ++ o) o1 ∙ sym (append_assoc out' out l.sent),
        w2,
      );
}

pub pure-Exchange : {A : Type 0} (a : A) → Exchange (pure a) [] a []
pure-Exchange a = record { runs = λ l rest w e. (l, refl, e, refl, w) }

pub lift-Exchange : {A : Type 0} (r : Result A) {a : A} → r ≡ ok a → Exchange (lift r) [] a []
lift-Exchange r h = record { runs = λ l rest w e. (l, ap (λ t. (t, l)) h, e, refl, w) }

-- A last step that only computes.
pub last-Exchange :
    {A B : Type 0} (m : M A) (f : A → Result B) {xs : Bytes} {a : A} {b : B} {out : List Bytes}
    → Exchange m xs a out
    → f a ≡ ok b
    → Exchange (m >>= λ x. lift (f x)) xs b out
last-Exchange m f h e = record {
  runs = λ l rest w q.
      let (l1, e1, s1, o1, w1) = h.runs l rest w q in
      (l1, ap (λ r. continue r (λ x. lift (f x))) e1 ∙ ap (λ t. (t, l1)) e, s1, o1, w1);
}

pub sendall-Exchange : (b : Bytes) → Exchange (sendall b) [] tt (b ∷ [])
unfolding sendall
sendall-Exchange b = record {
  runs = λ l rest w e. (record l { sent = b ∷ l.sent }, rw (w l.sent), e, refl, w);
}

same_front :
    (b more xs rest : Bytes)
    → length b ≡ length xs
    → b ++ more ≡ xs ++ rest
    → (b ≡ xs) × (more ≡ rest)
same_front b more xs rest h e = (
  sym (take_all b more)
      ∙ ap (λ t. take (length b) t) e
      ∙ ap (λ n. take n (xs ++ rest)) h
      ∙ take_all xs rest,
  sym (drop_all b more)
      ∙ ap (λ t. drop (length b) t) e
      ∙ ap (λ n. drop n (xs ++ rest)) h
      ∙ drop_all xs rest,
)

-- Enough bytes before the stream ends or fails are read.
recv_loop-reads :
    (mode : Mode) (n : ℕ) (buf : Bytes) (incoming : List Arrival)
    → n ≤ length buf + length (stream incoming)
    → (b : Bytes) × (more : List Arrival) × (recv_loop mode n buf incoming ≡ (ok b, more))
unfolding recv_loop
recv_loop-reads mode n buf [] h = (buf, [], rw (le→leb n (length buf) (omega (arith, h))))
recv_loop-reads mode n buf (late ∷ more) h =
    (buf, late ∷ more, rw (le→leb n (length buf) (omega (arith, h))))
recv_loop-reads mode n buf (broken ∷ more) h =
    (buf, broken ∷ more, rw (le→leb n (length buf) (omega (arith, h))))
recv_loop-reads mode n buf (chunk [] ∷ more) h =
    (buf, chunk [] ∷ more, rw (le→leb n (length buf) (omega (arith, h))))
recv_loop-reads mode n buf (chunk (x ∷ xs) ∷ more) h = elim (Bool-cases (leb n (length buf))) [
  | inl full ↦ (buf, chunk (x ∷ xs) ∷ more, rw full)
  | inr short ↦ elim (Bool-cases (leb (length (x ∷ xs)) (n - length buf))) [
    | inl fits ↦
        let (b, left, e) =
          recv_loop-reads mode n (buf ++ x ∷ xs) more
            (omega (arith, h, length-append buf (x ∷ xs), length-append (x ∷ xs) (stream more))) in
        (b, left, rw (short, fits) e)
    | inr splits ↦
        let k = n - length buf in
        (buf ++ take k (x ∷ xs), chunk (drop k (x ∷ xs)) ∷ more, rw (short, splits))
  ]
]

pub recv_exact-Exchange : (n : ℕ) (xs : Bytes) → length xs ≡ n → Exchange (recv_exact n) xs xs []
unfolding recv_exact
recv_exact-Exchange n xs size = record {
  runs = λ l rest w e.
      let (b, more, read) =
        recv_loop-reads l.mode n [] l.incoming
          (rw e (omega (arith, size, length-append xs rest))) in
      let l' = record l { incoming = more } in
      let ran : recv_exact n l ≡ (ok b, l') = ap (λ r. (r.0, record l { incoming = r.1 })) read in
      let (long, whole) = length-recv_exact n l l' b ran in
      let (same, left) = same_front b (stream more) xs rest (long ∙ sym size) (whole ∙ e) in
      (l', ran ∙ ap (λ t. (ok t, l')) same, left, refl, w);
}
