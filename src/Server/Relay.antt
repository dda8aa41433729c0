-- ===== src/Server/Relay.antt =====
-- The relay phase: `splice` of src/optisocks5/server/server.py, with a thread for each direction, and
-- `async_splice` of src/optisocks5/server/aio.py, with a task for each.
pub mod Copied
pub mod Ends
use optisocks.Prelude.{
  ℕ, suc, ◌≤◌, ◌<◌, ◌≡◌, ◌⊎◌, Bool, true, false, List, [], ◌∷◌, ◌++◌, Bytes, length, take,
}

-- Where `copy` (or `_pump`) stands, with its local variable `data`. On the way out it is known whether
-- the `while` ended by the end of the stream, or by an exception or a transport that is closing.
pub data Place : Type 0 where
  reading : Place
  writing : (d : Bytes) → Place
  leaving : (by_end : Bool) → Place
  finished : (by_end : Bool) → Place

-- What a source does behind its last byte: it sends a FIN, or it stays silent; or its connection
-- breaks, before or behind that byte.
pub data Tail : Type 0 where
  closes stays breaks : Tail

-- One direction: the bytes that its source is still going to send, what it does then, whether its
-- socket has a timeout (`idle_timeout`; the streams of `_pump` have none), the bytes that were handed
-- to the destination, and the count of half-closes (`shutdown(SHUT_WR)`, `write_eof`).
pub record Copy : Type 0 where
  pub ahead : Bytes
  pub tail : Tail
  pub timed : Bool
  pub place : Place
  pub delivered : Bytes
  pub half_closes : ℕ

abbrev pub fresh : Bool → Bytes → Tail → Copy
fresh timed xs tail = record {
  ahead = xs;
  tail = tail;
  timed = timed;
  place = reading;
  delivered = [];
  half_closes = 0;
}

-- What one direction does next. What a `recv` returns, and which sends and half-closes fail, is left
-- open; a `recv` fails with the connection, or by the timeout, which a slow source meets before its
-- end, too.
pub data Move (c : Copy) : Copy → Type 0 where
  receive :
      (d rest : Bytes)
      → c.place ≡ reading
      → c.ahead ≡ d ++ rest
      → 0 < length d
      → length d ≤ 65536
      → Move c (record c { ahead = rest; place = writing d })
  end_of_stream :
      c.place ≡ reading
      → c.ahead ≡ []
      → c.tail ≡ closes
      → Move c (record c { place = leaving true })
  receive_fails :
      c.place ≡ reading
      → (c.tail ≡ breaks) ⊎ (c.timed ≡ true)
      → Move c (record c { place = leaving false })
  send :
      (d : Bytes)
      → c.place ≡ writing d
      → Move c (record c { place = reading; delivered = c.delivered ++ d })
  -- A `sendall` that fails may have sent a part; `_pump` sends nothing to a closing transport.
  send_fails :
      (d : Bytes) (k : ℕ)
      → c.place ≡ writing d
      → Move c (record c { place = leaving false; delivered = c.delivered ++ take k d })
  half_close :
      (b : Bool)
      → c.place ≡ leaving b
      → Move c (record c { place = finished b; half_closes = suc c.half_closes })
  -- The error is dropped, and `_pump` skips a closing transport.
  half_close_fails : (b : Bool) → c.place ≡ leaving b → Move c (record c { place = finished b })

-- `there` is the copy from `a` to `b` in the thread `t`, `back` the one in the calling thread, which
-- then joins `t`; with `asyncio.gather` the same without threads.
pub record Splice : Type 0 where
  pub there : Copy
  pub back : Copy
  pub returned : Bool

-- `settimeout` of both sockets, if there is an `idle_timeout`, and the two copies.
abbrev pub start : Bool → Bytes → Tail → Bytes → Tail → Splice
start idle xs tail ys tail' = record {
  there = fresh idle xs tail;
  back = fresh idle ys tail';
  returned = false;
}

pub data Step (s : Splice) : Splice → Type 0 where
  thread : {c : Copy} → Move s.there c → Step s (record s { there = c })
  caller : {c : Copy} → Move s.back c → Step s (record s { back = c })
  join :
      (b b' : Bool)
      → s.there.place ≡ finished b
      → s.back.place ≡ finished b'
      → s.returned ≡ false
      → Step s (record s { returned = true })

-- The states after `n` steps, in any order of the two.
pub data Reach (idle : Bool) (xs : Bytes) (tail : Tail) (ys : Bytes) (tail' : Tail)
    : ℕ → Splice → Type 0 where
  here : Reach idle xs tail ys tail' 0 (start idle xs tail ys tail')
  next :
      {n : ℕ} {s t : Splice}
      → Reach idle xs tail ys tail' n s
      → Step s t
      → Reach idle xs tail ys tail' (suc n) t
