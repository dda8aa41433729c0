-- ===== src/Server/Hooks.antt =====
-- The hooks that a server's user registers (src/optisocks5/server/server.py and aio.py), and the
-- world outside the drivers: sockets, dialling, and the user's relay functions.
use optisocks.Prelude.{ℕ, ℤ, Bool, Option, List, [], ◌∷◌, Bytes, Text, Exn}
use optisocks.Server.State.{ServerSession, Endpoint}
use optisocks.Server.Decisions

-- A call that a hook makes on the session it is given. `connected` and `connect_failed`, with which the
-- drivers report a dial, are no calls of a hook here.
pub data Decision (Ctx Pipe : Type 0) : Type 0 where
  ok : Option Ctx → Decision Ctx Pipe
  reject : ℤ → Decision Ctx Pipe
  set_target : Text → ℤ → Decision Ctx Pipe
  pipe : Pipe → Decision Ctx Pipe
  relay_raw : Decision Ctx Pipe
  intercept : Pipe → Decision Ctx Pipe

-- A hook runs some calls, in order, and may then raise.
pub record Verdict (Ctx Pipe : Type 0) : Type 0 where
  pub calls : List (Decision Ctx Pipe)
  pub raises : Bool

pub record Hooks (Ctx Pipe : Type 0) : Type 0 where
  pub authorize : Option (ServerSession Ctx Pipe → Option Text → Option Text → Verdict Ctx Pipe)
  pub on_connect : Option (ServerSession Ctx Pipe → Text → ℕ → Verdict Ctx Pipe)
  pub on_disconnect : Bool

-- What `socket.create_connection` or `asyncio.open_connection` does, and the reading of the local
-- address that follows it: that address, or an exception; `raises` is one that is no OSError.
-- `nameless`: the connection is open, and the reading of its address fails with an OSError.
pub data Dial : Type 0 where
  opened : Text → ℤ → Dial
  refused timed_out net_unreachable other_os_error nameless : Dial
  raises : Exn → Dial

-- What the driver does to the world, in the order of the log: the latest first.
pub data Action (Pipe : Type 0) : Type 0 where
  sent : Bytes → Action Pipe
  asked : Option Text → Option Text → Action Pipe
  dialled : Endpoint → Dial → Action Pipe
  spliced : Action Pipe
  piped : Pipe → Action Pipe
  disconnect_hook : Action Pipe
  closed_downstream : Action Pipe
  closed_upstream : Action Pipe

-- What `recv` gives: bytes (none at the end of the stream), or an OSError.
pub data Recv : Type 0 where
  chunk : Bytes → Recv
  broken : Recv

-- The world's answers may depend on all that happened before.
pub record World (Pipe : Type 0) : Type 0 where
  pub send_works : List (Action Pipe) → Bool
  pub dial : List (Action Pipe) → Endpoint → Dial
  pub pipe_raises : List (Action Pipe) → Pipe → Option Exn

module _ {Ctx Pipe : Type 0} where
  unfoldable pub apply : ServerSession Ctx Pipe → Decision Ctx Pipe → ServerSession Ctx Pipe
  apply s (ok ctx) = Decisions.ok s ctx
  apply s (reject rep) = Decisions.reject s rep
  apply s (set_target host port) = Decisions.set_target s host port
  apply s (pipe fn) = Decisions.pipe s fn
  apply s relay_raw = Decisions.relay_raw s
  apply s (intercept fn) = Decisions.intercept s fn

  unfoldable pub apply_all :
      ServerSession Ctx Pipe → List (Decision Ctx Pipe) → ServerSession Ctx Pipe
  apply_all s [] = s
  apply_all s (d ∷ ds) = apply_all (apply s d) ds
