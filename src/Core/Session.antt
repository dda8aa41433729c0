-- ===== src/Core/Session.antt =====
-- src/optisocks5/core/session.py: the client's handshake without I/O.
pub mod Rounds
pub mod Turns
pub mod Segments
pub mod Handshake
use optisocks.Prelude.{
  ℕ, zero, suc, ◌+◌, ℤ, pos, Bool, true, false, ◌&&◌, ◌||◌, not, Option, none, some, [], ◌∷◌, ◌++◌,
  Bytes, Text, Exn, Result, ok, err, value_error, socks5_error, malformed_method_selection,
  no_acceptable_methods, unexpected_method, malformed_auth_reply, auth_rejected, unknown_atyp,
  malformed_reply, ◌>>=◌, ◌==◌, ltb, leb, if◌then◌else◌, length, take, drop, get_or,
}
use optisocks.Codec.Platform.{Platform}
use optisocks.Codec.Messages.{parse_method_selection, parse_auth_reply}
use optisocks.Codec.Binding
use optisocks.Core.Types.{Reply, no_auth, userpass, no_acceptable}

-- The length of the reply or request at the front of the buffer; `_request_len` of
-- src/optisocks5/server/session.py has the same text.
unfoldable pub reply_size : Bytes → Option ℕ
reply_size (v ∷ code ∷ rsv ∷ atyp ∷ d) =
    if atyp == 0x01
    then some (4 + 4 + 2)
    else if atyp == 0x04
    then some (4 + 16 + 2)
    else if atyp == 0x03
    then elim d [ [] ↦ none | len ∷ rest ↦ some (4 + 1 + len + 2) ]
    else none
reply_size _ = none

pub data State : Type 0 where
  method auth reply done : State

-- `creds` is the pair of `_user` and `_pass`, which the constructor wants both or neither.
pub record Session : Type 0 where
  pub creds : Option (Text × Text)
  pub buf : Bytes
  pub state : State
  pub answer : Option Reply

abbrev pub fresh : Option (Text × Text) → Session
fresh c = record { creds = c; buf = []; state = method; answer = none }

-- `Session.__init__`
unfoldable pub init : Option Text → Option Text → Result Session
init none none = ok (fresh none)
init (some u) (some w) = ok (fresh (some (u, w)))
init _ _ = err value_error

-- `_auth`
abbrev pub has_auth : Session → Bool
has_auth s = elim s.creds [ some c ↦ true | none ↦ false ]

-- The property `method`.
abbrev pub offered : Session → ℕ
offered s = if has_auth s then userpass else no_auth

abbrev auth_part : Option (Text × Text) → Result Bytes
auth_part none = ok []
auth_part (some (u, w)) = Binding.userpass_auth u w

unfoldable pub optimistic_pipeline : Platform → Session → Text → ℤ → ℤ → Result Bytes
optimistic_pipeline p s host port cmd = do
  greeting ← Binding.client_greeting (offered s ∷ [])
  auth' ← auth_part s.creds
  req ← Binding.request p cmd host port
  ok (greeting ++ (auth' ++ req))

-- What one turn of the loop in `feed` does: it goes round again, returns or raises.
pub data Turn : Type 0 where
  again : Session → Turn
  returns : Option Reply → Session → Turn
  raises : Exn → Session → Turn

unfoldable pub method_turn : Session → Turn
method_turn s =
    if ltb (length s.buf) 2 then returns none s else elim (parse_method_selection (take 2 s.buf)) [
      | none ↦ raises (socks5_error malformed_method_selection) s
      | some m ↦
          if m == offered s
          then again (record s { buf = drop 2 s.buf; state = if has_auth s then auth else reply })
          else if m == no_acceptable
          then raises (socks5_error no_acceptable_methods) s
          else raises (socks5_error (unexpected_method m (offered s))) s
    ]

unfoldable pub auth_turn : Session → Turn
auth_turn s =
    if ltb (length s.buf) 2 then returns none s else elim (parse_auth_reply (take 2 s.buf)) [
      | none ↦ raises (socks5_error malformed_auth_reply) s
      | some status ↦
          if status == 0
          then again (record s { buf = drop 2 s.buf; state = reply })
          else raises (socks5_error (auth_rejected (some status))) s
    ]

abbrev known_atyp : ℕ → Bool
known_atyp a = (a == 0x01) || (a == 0x03) || (a == 0x04)

-- The reply has arrived whole: `n` bytes at the front.
unfoldable pub reply_arrived : Platform → Session → ℕ → Turn
reply_arrived p s n = elim (Binding.parse_reply p (take n s.buf)) [
  | err e ↦ raises e s
  | ok none ↦ raises (socks5_error malformed_reply) s
  | ok (some (rep, host, port)) ↦
      let r : Reply = record { rep = rep; host = host; port = port } in
      returns (some r) (record s { buf = drop n s.buf; state = done; answer = some r })
]

unfoldable pub reply_turn : Platform → Session → Turn
reply_turn p s =
    if leb 4 (length s.buf) && not (known_atyp (get_or s.buf 3 0))
    then raises (socks5_error (unknown_atyp (get_or s.buf 3 0))) s
    else elim (reply_size s.buf) [
      | none ↦ returns none s
      | some n ↦ if ltb (length s.buf) n then returns none s else reply_arrived p s n
    ]

abbrev turn_at : Platform → State → Session → Turn
turn_at p method s = method_turn s
turn_at p auth s = auth_turn s
turn_at p reply s = reply_turn p s
turn_at p done s = returns s.answer s

unfoldable pub turn : Platform → Session → Turn
turn p s = turn_at p s.state s

-- What a call of `feed` does. `diverges` is no outcome of the program: the turns ran out.
pub data Outcome : Type 0 where
  returned : Option Reply → Outcome
  raised : Exn → Outcome
  diverges : Outcome

-- `while True`, with a bound on the turns.
unfoldable pub loop : Platform → ℕ → Session → Outcome × Session
loop p zero s = (diverges, s)
loop p (suc f) s = elim (turn p s) [
  | again s' ↦ loop p f s'
  | returns r s' ↦ (returned r, s')
  | raises e s' ↦ (raised e, s')
]

-- `if self._state != "done": self._buf += data`
abbrev keep : State → Bytes → Bytes → Bytes
keep done buf chunk = buf
keep _ buf chunk = buf ++ chunk

-- The states come in one order, so three turns reach `returns` or `raises`.
unfoldable pub feed : Platform → Session → Bytes → Outcome × Session
feed p s chunk = loop p 3 (record s { buf = keep s.state s.buf chunk })

unfoldable pub leftover : Session → Bytes
leftover s = elim s.state [ done ↦ s.buf | _ ↦ [] ]
