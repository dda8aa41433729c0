-- ===== src/Server/Listener.antt =====
-- The listener of `Server` in src/optisocks5/server/server.py: `bind`, `serve_forever`, `serve`,
-- `close`, and the registration of hooks, which aio.py has as well.
pub mod Stopping
use optisocks.Prelude.{
  ℕ, ℤ, Bool, true, false, not, ◌||◌, Option, none, some, List, [], ◌∷◌, Bytes, Text, Exn, Result,
  ok, err, runtime_error, if◌then◌else◌,
}
use optisocks.Server.State.{ServerSession}
use optisocks.Server.State
use optisocks.Server.Hooks.{Hooks, Verdict}

-- The decorators: each sets its hook. `on_disconnect` keeps only whether there is one.
module _ {Ctx Pipe : Type 0} where
  unfoldable pub no_hooks : Hooks Ctx Pipe
  no_hooks = record { authorize = none; on_connect = none; on_disconnect = false }

  unfoldable pub authorize :
      Hooks Ctx Pipe
      → (ServerSession Ctx Pipe → Option Text → Option Text → Verdict Ctx Pipe)
      → Hooks Ctx Pipe
  authorize hooks fn = record hooks { authorize = some fn }

  unfoldable pub on_connect :
      Hooks Ctx Pipe → (ServerSession Ctx Pipe → Text → ℕ → Verdict Ctx Pipe) → Hooks Ctx Pipe
  on_connect hooks fn = record hooks { on_connect = some fn }

  unfoldable pub on_disconnect : Hooks Ctx Pipe → Hooks Ctx Pipe
  on_disconnect hooks = record hooks { on_disconnect = true }

  -- `new_session`
  unfoldable pub new_session : Hooks Ctx Pipe → ServerSession Ctx Pipe
  new_session hooks = State.init (elim hooks.authorize [ none ↦ false | some h ↦ true ])

-- `is_bound` tells whether `_sock` is set, `is_open` whether the socket that was bound last is open.
pub record Listener : Type 0 where
  pub is_bound : Bool
  pub is_open : Bool

abbrev pub unbound : Listener
unbound = record { is_bound = false; is_open = false }

-- `listening` is what the calls on the new socket give: its name, or an OSError.
unfoldable pub bind : Listener → Result (Text × ℤ) → Result (Text × ℤ) × Listener
bind l (err e) = (err e, l)
bind l (ok name) = (ok name, record l { is_bound = true; is_open = true })

unfoldable pub close : Listener → Listener
close l = if l.is_bound then record l { is_bound = false; is_open = false } else l

-- The errno of an OSError from `accept`.
pub data Errno : Type 0 where
  ebadf eintr_or_other einval : Errno

pub data Accepted (C : Type 0) : Type 0 where
  conn : C → Accepted C
  failed : Errno → Accepted C

-- One call of `accept`: whether another thread has called `close` by the time it returns, and what it
-- gives.
pub record Call (C : Type 0) : Type 0 where
  pub closed_by_then : Bool
  pub result : Accepted C

-- How `serve_forever` stands after the calls: it waits in the next one, has returned, or has raised.
pub data Standing : Type 0 where
  waiting returned : Standing
  raised : Exn → Standing

-- The connections whose threads were started, the first one first.
pub record Served (C : Type 0) : Type 0 where
  pub handled : List C
  pub listener : Listener
  pub standing : Standing

abbrev is_listener_gone : Errno → Bool
is_listener_gone ebadf = true
is_listener_gone einval = true
is_listener_gone eintr_or_other = false

module _ {C : Type 0} where
  abbrev pub handling : C → Served C → Served C
  handling c r = record r { handled = c ∷ r.handled }

  -- `finally`
  abbrev stopped : Served C
  stopped = record { handled = []; listener = unbound; standing = returned }

  abbrev on_accept : Listener → Accepted C → Served C → Served C
  on_accept l (conn c) rest = handling c rest
  on_accept l (failed e) rest = if not l.is_bound || is_listener_gone e then stopped else rest

  abbrev by_then : Call C → Listener → Listener
  by_then a l = if a.closed_by_then then close l else l

  unfoldable pub accept_loop : Listener → List (Call C) → Served C
  accept_loop l [] = record { handled = []; listener = l; standing = waiting }
  accept_loop l (a ∷ as') =
      let rest = accept_loop (by_then a l) as' in on_accept (by_then a l) a.result rest

  unfoldable pub serve_forever : Listener → List (Call C) → Served C
  unfolding accept_loop
  serve_forever l calls =
      if l.is_bound
      then accept_loop l calls
      else record { handled = []; listener = l; standing = raised runtime_error }

  unfoldable pub serve : Listener → Result (Text × ℤ) → List (Call C) → Served C
  unfolding bind serve_forever
  serve l listening calls =
      let (name, l') = bind l listening in
      elim name [
        | err e ↦ record { handled = []; listener = l'; standing = raised e }
        | ok n ↦ serve_forever l' calls
      ]
