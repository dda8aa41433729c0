-- ===== src/Examples/Metered/Counted.antt =====
-- The counter of examples/server_metered.py.
use optisocks.Prelude.{ℕ, ◌+◌, ◌≤◌, ◌≡◌, Bytes, length, length-append, length-take_le, take, arith}
use optisocks.Examples.Metered.{
  Place, counting, writing, Copy, Move, receive, stop_reading, incr, send, send_fails, half_close,
  Metered, Step, thread, caller, Reach, here, next,
}

-- The bytes of a direction that are received and not counted yet, and those that are counted and not
-- handed on.
abbrev pub uncounted : Place → ℕ
uncounted (counting d) = length d
uncounted _ = 0

abbrev pub outstanding : Place → ℕ
outstanding (counting d) = length d
outstanding (writing d) = length d
outstanding _ = 0

uncounted-le-outstanding : (p : Place) → uncounted p ≤ outstanding p
uncounted-le-outstanding (writing d) = omega arith
uncounted-le-outstanding _ = omega arith

-- What a direction may still add to the counter.
abbrev pub to_count : Copy → ℕ
to_count c = length c.ahead + uncounted c.place

abbrev pub handled : Copy → ℕ
handled c = length c.delivered + outstanding c.place + length c.ahead

Move-counted :
    (n : ℕ) (c : Copy) {n' : ℕ} {c' : Copy} → Move n c n' c' → n' + to_count c' ≡ n + to_count c
Move-counted n c (receive d rest at e p q) = rw (at, e) (omega (arith, length-append d rest))
Move-counted n c (stop_reading at) = rw at (omega arith)
Move-counted n c (incr d at) = rw at (omega arith)
Move-counted n c (send d at) = rw at (omega arith)
Move-counted n c (send_fails d k at) = rw at (omega arith)
Move-counted n c (half_close at) = rw at (omega arith)

Move-handled : (n : ℕ) (c : Copy) {n' : ℕ} {c' : Copy} → Move n c n' c' → handled c' ≤ handled c
Move-handled n c (receive d rest at e p q) = rw (at, e) (omega (arith, length-append d rest))
Move-handled n c (stop_reading at) = rw at (omega arith)
Move-handled n c (incr d at) = rw at (omega arith)
Move-handled n c (send d at) = rw at (omega (arith, length-append c.delivered d))
Move-handled n c (send_fails d k at) =
    rw at (omega (arith, length-append c.delivered (take k d), length-take_le k d))
Move-handled n c (half_close at) = rw at (omega arith)

pub record IsCounted (n : ℕ) (xs ys : Bytes) (s : Metered) : Type 0 where
  pub counted : s.total + to_count s.there + to_count s.back ≡ n + length xs + length ys
  pub there : handled s.there ≤ length xs
  pub back : handled s.back ≤ length ys

Step-IsCounted :
    {n : ℕ} {xs ys : Bytes} (s : Metered) {t : Metered}
    → Step s t
    → IsCounted n xs ys s
    → IsCounted n xs ys t
Step-IsCounted s (thread m) i = record {
  counted = omega (arith, i.counted, Move-counted _ _ m);
  there = omega (arith, i.there, Move-handled _ _ m);
  back = i.back;
}
Step-IsCounted s (caller m) i = record {
  counted = omega (arith, i.counted, Move-counted _ _ m);
  there = i.there;
  back = omega (arith, i.back, Move-handled _ _ m);
}

Reach-IsCounted : (n : ℕ) (xs ys : Bytes) (s : Metered) → Reach n xs ys s → IsCounted n xs ys s
Reach-IsCounted n xs ys s here = record {
  counted = omega arith;
  there = omega arith;
  back = omega arith;
}
Reach-IsCounted n xs ys s (next {s = s0} r st) = Step-IsCounted s0 st (Reach-IsCounted n xs ys s0 r)

-- In every state that the two interleaved copies reach, the counter has grown by exactly the bytes of
-- both streams that were received, but for those that a copy has just received and is about to count;
-- and no more bytes have been delivered, in both directions together, than the counter has grown by.
pub Reach-counted :
    (n : ℕ) (xs ys : Bytes) (s : Metered)
    → Reach n xs ys s
    → (s.total + to_count s.there + to_count s.back ≡ n + length xs + length ys)
      × (n + length s.there.delivered + length s.back.delivered ≤ s.total)
Reach-counted n xs ys s r =
    let i = Reach-IsCounted n xs ys s r in
    (
      i.counted,
      omega (
        arith,
        i.counted,
        i.there,
        i.back,
        uncounted-le-outstanding s.there.place,
        uncounted-le-outstanding s.back.place,
      ),
    )
