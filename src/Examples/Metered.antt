-- ===== src/Examples/Metered.antt =====
-- examples/server_metered.py: its hooks, and its relay that counts bytes.
pub mod Counted
pub mod Admitted
use optisocks.Prelude.{
  ℕ, zero, suc, ◌+◌, ℤ, pos, ◌≤◌, ◌<◌, ◌≡◌, Bool, true, false, ◌&&◌, Option, none, some, List, [],
  ◌∷◌, ◌++◌, Bytes, Text, length, take, equal, codes, if◌then◌else◌,
}
use optisocks.Core.Types.{value, not_allowed}
use optisocks.Server.Hooks.{Decision, Verdict}

-- `Context`; the counter of a fresh one is made when it is first asked for, at zero.
pub record Context : Type 0 where
  pub user_id : ℕ

-- `metered_pipe`, the one relay function of this server.
pub data Pipe : Type 0 where
  metered_pipe : Pipe

abbrev alice : Text
alice = codes "alice"

abbrev pw : Text
pw = codes "pw"

-- `Db.get`
unfoldable pub get : Text → Text → Option ℕ
get username password = if equal username alice && equal password pw then some 42 else none

-- `username or ""`
abbrev pub or_empty : Option Text → Text
or_empty none = []
or_empty (some t) = t

unfoldable pub authorize : Option Text → Option Text → Verdict Context Pipe
unfolding get
authorize username password = elim (get (or_empty username) (or_empty password)) [
  | none ↦ record { calls = Decision.reject (pos (value not_allowed)) ∷ []; raises = false }
  | some uid ↦ record { calls = Decision.ok (some (record { user_id = uid })) ∷ []; raises = false }
]

abbrev pub metadata_host : Text
metadata_host = codes "169.254.169.254"

unfoldable pub on_connect : Text → ℕ → Verdict Context Pipe
on_connect host port =
    if equal host metadata_host
    then record { calls = Decision.reject (pos (value not_allowed)) ∷ []; raises = false }
    else record { calls = Decision.pipe metered_pipe ∷ []; raises = false }

-- Where `copy` in `metered_pipe` stands. It counts what it has received before it sends it.
pub data Place : Type 0 where
  reading : Place
  counting : (d : Bytes) → Place
  writing : (d : Bytes) → Place
  leaving : Place
  finished : Place

-- One direction: what its source is still going to send, and what was handed to the destination.
pub record Copy : Type 0 where
  pub ahead : Bytes
  pub place : Place
  pub delivered : Bytes

-- A direction's next step, with the user's counter (`AtomicDataCounter._n`) before and after it; the
-- lock makes `incr` one step.
pub data Move (n : ℕ) (c : Copy) : ℕ → Copy → Type 0 where
  receive :
      (d rest : Bytes)
      → c.place ≡ reading
      → c.ahead ≡ d ++ rest
      → 0 < length d
      → length d ≤ 65536
      → Move n c n (record c { ahead = rest; place = counting d })
  stop_reading : c.place ≡ reading → Move n c n (record c { place = leaving })
  incr :
      (d : Bytes) → c.place ≡ counting d → Move n c (n + length d) (record c { place = writing d })
  send :
      (d : Bytes)
      → c.place ≡ writing d
      → Move n c n (record c { place = reading; delivered = c.delivered ++ d })
  send_fails :
      (d : Bytes) (k : ℕ)
      → c.place ≡ writing d
      → Move n c n (record c { place = leaving; delivered = c.delivered ++ take k d })
  half_close : c.place ≡ leaving → Move n c n (record c { place = finished })

pub record Metered : Type 0 where
  pub total : ℕ
  pub there : Copy
  pub back : Copy

abbrev pub start : ℕ → Bytes → Bytes → Metered
start n xs ys = record {
  total = n;
  there = record { ahead = xs; place = reading; delivered = [] };
  back = record { ahead = ys; place = reading; delivered = [] };
}

pub data Step (s : Metered) : Metered → Type 0 where
  thread :
      {n : ℕ} {c : Copy} → Move s.total s.there n c → Step s (record s { total = n; there = c })
  caller : {n : ℕ} {c : Copy} → Move s.total s.back n c → Step s (record s { total = n; back = c })

pub data Reach (n : ℕ) (xs ys : Bytes) : Metered → Type 0 where
  here : Reach n xs ys (start n xs ys)
  next : {s t : Metered} → Reach n xs ys s → Step s t → Reach n xs ys t
