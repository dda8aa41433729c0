-- ===== src/Server/Driver/Streams.antt =====
-- The drivers of src/optisocks5/server/server.py and aio.py, and how the client's bytes are cut into
-- what single calls of `recv` give.
pub mod Shifted
pub mod Kept
pub mod Joined
pub mod Whole
pub mod Handled
use optisocks.Prelude.{
  ℕ, ◌≡◌, refl, ap, Bool, true, false, Option, none, some, List, [], ◌∷◌, ◌++◌, Bytes, Text,
}
use optisocks.Server.State.{ServerSession}
use optisocks.Server.Decisions.{receive}
use optisocks.Server.Hooks.{Verdict, Hooks, Recv, chunk, broken}

-- The bytes that arrive before the stream ends or fails.
abbrev pub heard : List Recv → Bytes
heard [] = []
heard (chunk [] ∷ more) = []
heard (chunk (b ∷ bs) ∷ more) = (b ∷ bs) ++ heard more
heard (broken ∷ more) = []

-- The hooks do not look into the session's private buffer.
pub record IsBlind {Ctx Pipe : Type 0} (hooks : Hooks Ctx Pipe) : Type 0 where
  pub authorize :
      (hook : ServerSession Ctx Pipe → Option Text → Option Text → Verdict Ctx Pipe)
      → hooks.authorize ≡ some hook
      → (s : ServerSession Ctx Pipe) (d : Bytes) (user password : Option Text)
      → hook (receive s d) user password ≡ hook s user password
  pub on_connect :
      (hook : ServerSession Ctx Pipe → Text → ℕ → Verdict Ctx Pipe)
      → hooks.on_connect ≡ some hook
      → (s : ServerSession Ctx Pipe) (d : Bytes) (host : Text) (port : ℕ)
      → hook (receive s d) host port ≡ hook s host port
