-- ===== src/Interop/Driven.antt =====
-- The optimistic client of src/optisocks5/core/session.py against the drivers of
-- src/optisocks5/server/server.py and aio.py: the terms of the meeting, and what is to come of it.
pub mod Turns
pub mod Spoken
pub mod Sent
pub mod Served
pub mod Staged
use optisocks.Prelude.{
  ℕ, ℤ, pos, negsuc, ◌≡◌, ◌⊎◌, Bool, true, false, Option, none, some, List, [], ◌∷◌, ◌++◌, Bytes,
  Text, ok,
}
use optisocks.Codec.Platform.{Platform}
use optisocks.Codec.Binding
use optisocks.Core.Types
use optisocks.Core.Types.{
  value, succeeded, net_unreachable, host_unreachable, conn_refused, ttl_expired, no_auth, userpass,
}
use optisocks.Server.State.{ServerSession}
use optisocks.Server.Machine.{any_host}
use optisocks.Server.Hooks
use optisocks.Server.Hooks.{
  Verdict, Hooks, World, Dial, Action, sent, asked, dialled, spliced, disconnect_hook,
  closed_downstream, closed_upstream,
}

-- What the client is to read of a dial that raised nothing but an OSError: the code and the address.
abbrev pub answer_to : Dial → Option (ℕ × Text × ℕ)
answer_to (Dial.opened host (pos port)) = some (value succeeded, host, port)
answer_to (Dial.opened host (negsuc k)) = none
answer_to Dial.refused = some (value conn_refused, any_host, 0)
answer_to Dial.timed_out = some (value ttl_expired, any_host, 0)
answer_to Dial.net_unreachable = some (value net_unreachable, any_host, 0)
answer_to Dial.other_os_error = some (value host_unreachable, any_host, 0)
answer_to Dial.nameless = some (value host_unreachable, any_host, 0)
answer_to (Dial.raises e) = none

-- The greetings of a client with credentials: for the one method, and for both.
abbrev pub Greets : Bytes → Type 0
Greets g = (g ≡ 0x05 ∷ 1 ∷ userpass ∷ []) ⊎ (g ≡ 0x05 ∷ 2 ∷ userpass ∷ no_auth ∷ [])

-- What a client writes for a connection: the greeting, the credentials, and the request.
abbrev pub Speaks : Platform → Option (Text × Text) → Text → ℕ → Bytes → Type 0
Speaks p none host n b =
    (q : Bytes) × (Binding.request p (pos Types.connect) host (pos n) ≡ ok q)
    × (b ≡ 0x05 ∷ 1 ∷ no_auth ∷ q)
Speaks p (some (user, password)) host n b =
    (g : Bytes) × (c : Bytes) × (q : Bytes) × Greets g
    × (Binding.userpass_auth user password ≡ ok c)
    × (Binding.request p (pos Types.connect) host (pos n) ≡ ok q)
    × (b ≡ g ++ (c ++ q))

-- The client's texts are UTF-8.
abbrev pub AreUtf8 : Platform → Option (Text × Text) → Type 0
AreUtf8 p none = Unit
AreUtf8 p (some (user, password)) = (p.is_utf8 user ≡ true) × (p.is_utf8 password ≡ true)

-- The messages of a staged client, the latest first; `c` are its credentials and `q` its request.
abbrev pub written : Option (Text × Text) → Bytes → Bytes → List Bytes
written none c q = q ∷ (0x05 ∷ 1 ∷ no_auth ∷ []) ∷ []
written (some (user, password)) c q = q ∷ c ∷ (0x05 ∷ 2 ∷ userpass ∷ no_auth ∷ []) ∷ []

abbrev pub joined : List Bytes → Bytes
joined [] = []
joined (b ∷ bs) = joined bs ++ b

-- The message with the credentials, if there are any.
abbrev pub Writes : Option (Text × Text) → Bytes → Type 0
Writes none c = c ≡ []
Writes (some (user, password)) c = Binding.userpass_auth user password ≡ ok c

module _ {Ctx Pipe : Type 0} where
  -- The server wants no credentials of a client without, and has an authorize hook that calls `ok` for
  -- the credentials of one with them.
  abbrev pub Welcomes : Hooks Ctx Pipe → Option (Text × Text) → Type 0
  Welcomes hooks none = hooks.authorize ≡ none
  Welcomes hooks (some (user, password)) =
      (hook : ServerSession Ctx Pipe → Option Text → Option Text → Verdict Ctx Pipe)
      × (hooks.authorize ≡ some hook)
      × ((s : ServerSession Ctx Pipe)
          → (ctx : Option Ctx) × (hook s (some user) (some password)
              ≡ record { calls = Hooks.Decision.ok ctx ∷ []; raises = false }))

  -- There is no connect hook, or it lets this target be.
  abbrev pub Allows : Hooks Ctx Pipe → Text → ℕ → Type 0
  Allows hooks host port =
      (hooks.on_connect ≡ none)
      ⊎ ((hook : ServerSession Ctx Pipe → Text → ℕ → Verdict Ctx Pipe) × (hooks.on_connect
            ≡ some hook)
          × ((s : ServerSession Ctx Pipe)
              → hook s host port ≡ record { calls = []; raises = false }))

module _ {Pipe : Type 0} where
  -- What the driver has done before it dials.
  abbrev pub greeted : Option (Text × Text) → List (Action Pipe)
  greeted none = sent (0x05 ∷ no_auth ∷ []) ∷ []
  greeted (some (user, password)) =
      sent (0x01 ∷ 0x00 ∷ []) ∷ asked (some user) (some password) ∷ sent (0x05 ∷ userpass ∷ []) ∷ []

  abbrev pub parted : Bool → List (Action Pipe) → List (Action Pipe)
  parted true log = disconnect_hook ∷ log
  parted false log = log

  -- What the driver does after it has sent the reply.
  abbrev pub ending : Bool → Dial → List (Action Pipe) → List (Action Pipe)
  ending hook (Dial.opened host port) log =
      closed_upstream ∷ closed_downstream ∷ parted hook (spliced ∷ log)
  ending hook d log = closed_downstream ∷ parted hook log

  -- All that a driver does for such a client.
  abbrev pub course : Bool → Dial → Bytes → Text → ℕ → Option (Text × Text) → List (Action Pipe)
  course hook d r t n creds = ending hook d (sent r ∷ dialled (t, pos n) d ∷ greeted creds)

  -- The bytes that were sent to the client, in order.
  abbrev pub sent_by : List (Action Pipe) → Bytes
  sent_by [] = []
  sent_by (sent b ∷ log) = sent_by log ++ b
  sent_by (a ∷ log) = sent_by log
