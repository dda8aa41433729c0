-- ===== src/Server/State.antt =====
-- The state of `ServerSession` in src/optisocks5/server/session.py. `downstream` and `upstream`,
-- which the session never reads, are the driver's.
use optisocks.Prelude.{ℕ, ℤ, pos, Bool, false, Option, none, List, [], Bytes, Text}
use optisocks.Core.Types.{value, general_failure}
use optisocks.Server.Events.{Event}

pub data Phase : Type 0 where
  greeting auth auth_wait request connect_wait relay closed : Phase

abbrev pub Endpoint : Type 0
Endpoint = Text × ℤ

pub record ServerSession (Ctx Pipe : Type 0) : Type 0 where
  pub require_auth : Bool
  pub buf : Bytes
  pub state : Phase
  pub out : List Event
  pub ctx : Option Ctx
  pub cmd : ℕ
  pub target : Option Endpoint
  pub custom_pipe : Option Pipe
  pub intercepted : Bool
  pub rejected : Bool
  pub rep : ℤ
  pub connected_bnd : Option Endpoint
  pub failed : Bool
  pub raw : Bool

-- `ServerSession.__init__`
unfoldable pub init : {Ctx Pipe : Type 0} → Bool → ServerSession Ctx Pipe
init require_auth = record {
  require_auth = require_auth;
  buf = [];
  state = greeting;
  out = [];
  ctx = none;
  cmd = 0;
  target = none;
  custom_pipe = none;
  intercepted = false;
  rejected = false;
  rep = pos (value general_failure);
  connected_bnd = none;
  failed = false;
  raw = false;
}
