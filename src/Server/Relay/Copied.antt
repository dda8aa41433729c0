-- ===== src/Server/Relay/Copied.antt =====
-- What `splice` and `async_splice` deliver.
use optisocks.Prelude.{
  ℕ, ◌≤◌, ◌≡◌, refl, sym, ap, ◌∙◌, Bool, true, false, ◌⊎◌, inl, inr, ◌++◌, Bytes, take, drop,
  append_assoc, append-nil, arith, take-append-drop,
}
use optisocks.Server.Relay.{
  Place, Tail, reading, writing, leaving, finished, Copy, Move, receive, end_of_stream,
  receive_fails, send, send_fails, half_close, half_close_fails, Splice, Step, thread, caller, join,
  Reach, here, next, fresh,
}

-- What `xs`, the whole stream of the source, has become at a place. After the end of the stream all of
-- it is delivered; a failure delivers a front part of it.
abbrev pub Accounted : Bytes → Place → Bytes → Bytes → Type 0
Accounted xs reading ahead delivered = xs ≡ delivered ++ ahead
Accounted xs (writing d) ahead delivered = xs ≡ delivered ++ (d ++ ahead)
Accounted xs (leaving true) ahead delivered = xs ≡ delivered
Accounted xs (leaving false) ahead delivered = (lost : Bytes) × (xs ≡ delivered ++ lost)
Accounted xs (finished true) ahead delivered = xs ≡ delivered
Accounted xs (finished false) ahead delivered = (lost : Bytes) × (xs ≡ delivered ++ lost)

-- The destination is half-closed at most once, and only on the way out.
abbrev pub closes_at : Place → ℕ
closes_at (finished b) = 1
closes_at _ = 0

pub record IsCopied (xs : Bytes) (c : Copy) : Type 0 where
  pub bytes : Accounted xs c.place c.ahead c.delivered
  pub closes : c.half_closes ≤ closes_at c.place

fresh-IsCopied : (timed : Bool) (xs : Bytes) (tail : Tail) → IsCopied xs (fresh timed xs tail)
fresh-IsCopied timed xs tail = record { bytes = refl; closes = omega arith }

cut :
    (out ahead : Bytes) (k : ℕ) (d : Bytes)
    → out ++ (d ++ ahead) ≡ (out ++ take k d) ++ (drop k d ++ ahead)
cut out ahead k d =
    ap (λ t. out ++ (t ++ ahead)) (sym (take-append-drop k d))
    ∙ ap (λ t. out ++ t) (append_assoc (take k d) (drop k d) ahead)
    ∙ sym (append_assoc out (take k d) (drop k d ++ ahead))

abbrev pub IsFinished : Copy → Type 0
IsFinished c = (b : Bool) × (c.place ≡ finished b)

-- A direction that has finished makes no move.
Move-unfinished : (c : Copy) {c' : Copy} → Move c c' → IsFinished c → ⊥
Move-unfinished c (receive d rest at e p q) (b, f) = absurd (ground arith)
Move-unfinished c (end_of_stream at e t) (b, f) = absurd (ground arith)
Move-unfinished c (receive_fails at why) (b, f) = absurd (ground arith)
Move-unfinished c (send d at) (b, f) = absurd (ground arith)
Move-unfinished c (send_fails d k at) (b, f) = absurd (ground arith)
Move-unfinished c (half_close b' at) (b, f) = absurd (ground arith)
Move-unfinished c (half_close_fails b' at) (b, f) = absurd (ground arith)

Move-IsCopied : (xs : Bytes) (c : Copy) {c' : Copy} → Move c c' → IsCopied xs c → IsCopied xs c'
Move-IsCopied xs c (receive d rest at e p q) i = record {
  bytes = (rw at at i.bytes) ∙ ap (λ t. c.delivered ++ t) e;
  closes = rw at at i.closes;
}
Move-IsCopied xs c (end_of_stream at e f) i = record {
  bytes = (rw at at i.bytes) ∙ ap (λ t. c.delivered ++ t) e ∙ append-nil c.delivered;
  closes = rw at at i.closes;
}
Move-IsCopied xs c (receive_fails at why) i = record {
  bytes = (c.ahead, rw at at i.bytes);
  closes = rw at at i.closes;
}
Move-IsCopied xs c (send d at) i = record {
  bytes = (rw at at i.bytes) ∙ sym (append_assoc c.delivered d c.ahead);
  closes = rw at at i.closes;
}
Move-IsCopied xs c (send_fails d k at) i = record {
  bytes = (drop k d ++ c.ahead, (rw at at i.bytes) ∙ cut c.delivered c.ahead k d);
  closes = rw at at i.closes;
}
Move-IsCopied xs c (half_close true at) i = record {
  bytes = rw at at i.bytes;
  closes = (let h : c.half_closes ≤ 0 = rw at at i.closes in omega arith);
}
Move-IsCopied xs c (half_close false at) i = record {
  bytes = rw at at i.bytes;
  closes = (let h : c.half_closes ≤ 0 = rw at at i.closes in omega arith);
}
Move-IsCopied xs c (half_close_fails true at) i = record {
  bytes = rw at at i.bytes;
  closes = (let h : c.half_closes ≤ 0 = rw at at i.closes in omega arith);
}
Move-IsCopied xs c (half_close_fails false at) i = record {
  bytes = rw at at i.bytes;
  closes = (let h : c.half_closes ≤ 0 = rw at at i.closes in omega arith);
}

-- Whether the relay has returned is not changed by a move, since then no direction moves.
unmoved_there :
    (s : Splice) {c : Copy}
    → Move s.there c
    → (s.returned ≡ false) ⊎ (IsFinished s.there × IsFinished s.back)
    → (s.returned ≡ false) ⊎ (IsFinished c × IsFinished s.back)
unmoved_there s m (inl h) = inl h
unmoved_there s m (inr (f, g)) = absurd (Move-unfinished s.there m f)

unmoved_back :
    (s : Splice) {c : Copy}
    → Move s.back c
    → (s.returned ≡ false) ⊎ (IsFinished s.there × IsFinished s.back)
    → (s.returned ≡ false) ⊎ (IsFinished s.there × IsFinished c)
unmoved_back s m (inl h) = inl h
unmoved_back s m (inr (f, g)) = absurd (Move-unfinished s.back m g)

-- Both directions are copied, and a relay that returned has finished both.
pub record IsSpliced (xs ys : Bytes) (s : Splice) : Type 0 where
  pub there : IsCopied xs s.there
  pub back : IsCopied ys s.back
  pub joined : (s.returned ≡ false) ⊎ (IsFinished s.there × IsFinished s.back)

Step-IsSpliced :
    {xs ys : Bytes} (s : Splice) {t : Splice} → Step s t → IsSpliced xs ys s → IsSpliced xs ys t
Step-IsSpliced s (thread m) i = record {
  there = Move-IsCopied _ s.there m i.there;
  back = i.back;
  joined = unmoved_there s m i.joined;
}
Step-IsSpliced s (caller m) i = record {
  there = i.there;
  back = Move-IsCopied _ s.back m i.back;
  joined = unmoved_back s m i.joined;
}
Step-IsSpliced s (join b b' e e' h) i = record {
  there = i.there;
  back = i.back;
  joined = inr ((b, e), (b', e'));
}

-- In every state that two interleaved copies reach, with an idle timeout or none, what each has
-- delivered is a front part of its source's stream, in order and without a byte twice; a direction
-- that left by the end of the stream has delivered all of it; no destination is half-closed twice;
-- and once the relay has returned, both directions have finished.
pub Reach-IsSpliced :
    (idle : Bool) (xs : Bytes) (tail : Tail) (ys : Bytes) (tail' : Tail) (n : ℕ) (s : Splice)
    → Reach idle xs tail ys tail' n s
    → IsSpliced xs ys s
Reach-IsSpliced idle xs tail ys tail' n s here = record {
  there = fresh-IsCopied idle xs tail;
  back = fresh-IsCopied idle ys tail';
  joined = inl refl;
}
Reach-IsSpliced idle xs tail ys tail' n s (next {n = k} {s = s0} r st) =
    Step-IsSpliced s0 st (Reach-IsSpliced idle xs tail ys tail' k s0 r)
