-- ===== src/Server/Decisions.antt =====
-- The methods of `ServerSession` in src/optisocks5/server/session.py that hooks and drivers call
-- between events.
use optisocks.Prelude.{ℤ, true, false, Option, some, ◌++◌, Bytes, Text}
use optisocks.Server.State.{ServerSession}

module _ {Ctx Pipe : Type 0} (s : ServerSession Ctx Pipe) where
  unfoldable pub receive : Bytes → ServerSession Ctx Pipe
  receive chunk = record s { buf = s.buf ++ chunk }

  unfoldable pub ok : Option Ctx → ServerSession Ctx Pipe
  ok ctx = record s { ctx = ctx; rejected = false }

  unfoldable pub reject : ℤ → ServerSession Ctx Pipe
  reject rep = record s { rejected = true; rep = rep }

  unfoldable pub set_target : Text → ℤ → ServerSession Ctx Pipe
  set_target host port = record s { target = some (host, port) }

  unfoldable pub pipe : Pipe → ServerSession Ctx Pipe
  pipe fn = record s { custom_pipe = some fn }

  unfoldable pub relay_raw : ServerSession Ctx Pipe
  relay_raw = record s { raw = true }

  unfoldable pub intercept : Pipe → ServerSession Ctx Pipe
  intercept fn = record s { custom_pipe = some fn; intercepted = true }

  unfoldable pub connected : Text → ℤ → ServerSession Ctx Pipe
  connected host port = record s { connected_bnd = some (host, port) }

  unfoldable pub connect_failed : ℤ → ServerSession Ctx Pipe
  connect_failed rep = record s { failed = true; rep = rep }
