-- ===== src/Examples/Selector.antt =====
-- examples/selector_connect.py: many optimistic handshakes on non-blocking sockets, on one thread.
pub mod Alone
pub mod Portions
pub mod Sound
pub mod Remaining
use optisocks.Prelude.{
  ℕ, zero, suc, ◌+◌, ◌-◌, ℤ, Bool, true, false, Option, none, some, List, [], ◌∷◌, ◌++◌, Bytes,
  Text, Exn, Result, ok, err, os_error, socks5_error, peer_closed, runtime_error, ◌>>=◌, ◌==◌, ltb,
  if◌then◌else◌, length, take, drop,
}
use optisocks.Codec.Platform.{Platform}
use optisocks.Core.Types.{Reply, connect}
use optisocks.Core.Session
use optisocks.Core.Session.{Session, Outcome, returned, raised, diverges, feed, optimistic_pipeline}

-- `PendingConnect`. `wire` is what the kernel has taken of the pipeline.
pub record Pending : Type 0 where
  pub sess : Session
  pub pipeline : Bytes
  pub sent : ℕ
  pub reply : Option Reply
  pub wire : Bytes

-- `PendingConnect.__init__`
unfoldable pub pending : Platform → Text → ℤ → Option Text → Option Text → Result Pending
pending p host port user password = do
  sess ← Session.init user password
  pipeline ← optimistic_pipeline p sess host port (ℤ.pos connect)
  ok (record { sess = sess; pipeline = pipeline; sent = 0; reply = none; wire = [] })

-- `want`: whether the selector waits for the socket to be writable, else for it to be readable.
abbrev pub wants_write : Pending → Bool
wants_write c = ltb c.sent (length c.pipeline)

-- What the call on a ready socket gives, when it is a `send`, and when it is a `recv`: how many bytes
-- the kernel takes at most, and the bytes that arrived; or an OSError.
pub data Ready : Type 0 where
  fails : Ready
  works : (room : ℕ) (chunk : Bytes) → Ready

-- How a handshake stands. `escaped` is an exception that the loop does not catch.
pub data Standing : Type 0 where
  waiting : Pending → Standing
  failed : Exn → Standing
  finished : Pending → Reply → Standing
  escaped : Exn → Standing

unfoldable pub on_writable : Pending → ℕ → Pending
on_writable c room =
    let rest = take room (drop c.sent c.pipeline) in
    record c { sent = c.sent + length rest; wire = c.wire ++ rest }

-- `except (OSError, s5.Socks5Error)`
abbrev pub caught : Exn → Standing
caught os_error = failed os_error
caught (socks5_error f) = failed (socks5_error f)
caught e = escaped e

-- What follows `feed`, with `if pc.reply is not None`.
abbrev pub answered : Pending → Outcome × Session → Standing
answered c (returned none, s) = waiting (record c { sess = s })
answered c (returned (some r), s) = finished (record c { sess = s; reply = some r }) r
answered c (raised e, s) = caught e
answered c (diverges, s) = escaped runtime_error

unfoldable pub on_readable : Platform → Pending → Bytes → Standing
on_readable p c [] = failed (socks5_error peer_closed)
on_readable p c (b ∷ bs) = answered c (feed p c.sess (b ∷ bs))

-- The body of the inner loop for one key.
unfoldable pub on_ready : Platform → Pending → Ready → Standing
unfolding on_writable on_readable
on_ready p c fails = failed os_error
on_ready p c (works room chunk) =
    if wants_write c then waiting (on_writable c room) else on_readable p c chunk

-- The connections by their number; those that are not waiting are unregistered.
abbrev pub Board : Type 0
Board = ℕ → Standing

abbrev pub put : Board → ℕ → Standing → Board
put board i st j = if i == j then st else board j

abbrev pub is_escaped : Standing → Bool
is_escaped (escaped e) = true
is_escaped _ = false

-- One ready key; a selector reports only the sockets that are registered.
abbrev pub advance : Platform → Standing → Ready → Standing
advance p (waiting c) r = on_ready p c r
advance p st r = st

-- `remaining -= 1`, when a handshake fails or finishes.
abbrev pub remaining_after : Standing → Standing → ℕ → ℕ
remaining_after (waiting c) (waiting c') n = n
remaining_after (waiting c) st n = n - 1
remaining_after _ st n = n

-- The inner loop, over what one `select` reports, with `remaining`; an exception that is not caught
-- ends it, and `main`.
unfoldable pub on_batch : Platform → Board → ℕ → List (ℕ × Ready) → Option (Board × ℕ)
on_batch p board n [] = some (board, n)
on_batch p board n ((i, r) ∷ more) =
    let st = advance p (board i) r in
    let rest = on_batch p (put board i st) (remaining_after (board i) st n) more in
    if is_escaped st then none else rest

-- `while remaining`, over what the calls of `select` report.
unfoldable pub run : Platform → Board → ℕ → List (List (ℕ × Ready)) → Option (Board × ℕ)
run p board n [] = some (board, n)
run p board zero (batch ∷ more) = some (board, zero)
run p board (suc n) (batch ∷ more) = elim (on_batch p board (suc n) batch) [
  | none ↦ none
  | some (board', n') ↦ run p board' n' more
]
