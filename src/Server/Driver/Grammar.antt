-- ===== src/Server/Driver/Grammar.antt =====
-- What a SOCKS5 server says and does, in which order (RFC 1928 and RFC 1929): the rule that the drivers
-- of src/optisocks5/server/server.py and aio.py are held against.
pub mod Steps
pub mod Phases
pub mod Turns
pub mod Dials
pub mod Runs
use optisocks.Prelude.{
  ◌≡◌, Bool, true, false, ◌&&◌, Option, none, some, List, [], ◌∷◌, Bytes, ◌==◌, if◌then◌else◌,
}
use optisocks.Codec.Messages.{ver, auth_ver}
use optisocks.Core.Types.{no_auth, userpass, no_acceptable}
use optisocks.Server.Hooks.{Dial, Action}
use optisocks.Server.Hooks

-- How far a connection has come, as its client sees it.
pub data Talk : Type 0 where
  silent challenged judged granted : Talk
  dialling : Bool → Talk
  opened relayed over : Talk

-- The method selection.
abbrev pub selected : Bytes → Option Talk
selected (v ∷ m ∷ []) =
    if v == ver
    then if m == no_auth
      then some granted
      else if m == userpass
      then some challenged
      else if m == no_acceptable
      then some over
      else none
    else none
selected _ = none

-- The answer to the credentials.
abbrev pub judgement : Bytes → Option Talk
judgement (v ∷ status ∷ []) =
    if v == auth_ver then some (if status == 0 then granted else over) else none
judgement _ = none

abbrev pub ended_by : Bool → Talk
ended_by true = opened
ended_by false = over

-- The reply to the request.
abbrev pub replied : Bytes → Option Talk
replied (v ∷ code ∷ rsv ∷ rest) =
    if (v == ver) && (rsv == 0) then some (ended_by (code == 0)) else none
replied _ = none

-- The reply to a request that was dialled for tells how the dial went.
abbrev pub truly : Bool → Option Talk → Option Talk
truly true (some opened) = some opened
truly false (some over) = some over
truly _ _ = none

abbrev pub is_open : Dial → Bool
is_open (Dial.opened host port) = true
is_open _ = false

-- A message, and what it makes of the talk.
abbrev pub message : Talk → Bytes → Option Talk
message silent b = selected b
message challenged b = judgement b
message judged b = judgement b
message granted b = replied b
message (dialling ok) b = truly ok (replied b)
message _ b = none

-- Bytes pass only behind a reply that says `succeeded`, or where a hook wants them raw.
abbrev pub can_relay : Talk → Bool
can_relay granted = true
can_relay (dialling ok) = true
can_relay opened = true
can_relay _ = false

module _ {Pipe : Type 0} where
  abbrev pub next_talk : Talk → Action Pipe → Option Talk
  next_talk t (Hooks.sent b) = message t b
  next_talk challenged (Hooks.asked user password) = some judged
  next_talk t (Hooks.asked user password) = none
  next_talk granted (Hooks.dialled to d) = some (dialling (is_open d))
  next_talk t (Hooks.dialled to d) = none
  next_talk t Hooks.spliced = if can_relay t then some relayed else none
  next_talk t (Hooks.piped fn) = if can_relay t then some relayed else none
  next_talk t Hooks.disconnect_hook = some t
  next_talk t Hooks.closed_downstream = some t
  next_talk t Hooks.closed_upstream = some t

  -- Where the actions of a log lead, if they keep to the rule.
  abbrev pub said : List (Action Pipe) → Option Talk
  said [] = some silent
  said (a ∷ log) = elim (said log) [ none ↦ none | some t ↦ next_talk t a ]
