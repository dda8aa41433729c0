-- ===== src/Examples/Hello.antt =====
-- examples/async_server.py: its hooks, and the upstream that it serves from memory.
pub mod Guarded
use optisocks.Prelude.{
  ℕ, zero, suc, ◌+◌, ◌/◌, ◌%◌, pos, Bool, true, false, ◌&&◌, ◌==◌, ltb, Option, none, some, List,
  [], ◌∷◌, ◌++◌, Bytes, Text, length, equal, codes, if◌then◌else◌,
}
use optisocks.Core.Types.{value, not_allowed}
use optisocks.Server.Hooks.{Decision, Verdict, Hooks}

-- `Context`
pub record Context : Type 0 where
  pub username : Text

-- The one relay function of this server, `hello_upstream`.
pub data Pipe : Type 0 where
  greeter : Pipe

abbrev admitted : Option Text → Verdict Context Pipe
admitted none = record { calls = Decision.reject (pos (value not_allowed)) ∷ []; raises = false }
admitted (some []) = record {
  calls = Decision.reject (pos (value not_allowed)) ∷ [];
  raises = false;
}
admitted (some (c ∷ t)) = record {
  calls = Decision.ok (some (record { username = c ∷ t })) ∷ [];
  raises = false;
}

unfoldable pub authorize : Option Text → Option Text → Verdict Context Pipe
authorize username password = admitted username

-- The member of `INTERCEPT_HOSTS`.
abbrev pub intercept_host : Text
intercept_host = codes "ifconfig.me"

unfoldable pub on_connect : Text → ℕ → Verdict Context Pipe
on_connect host port =
    if equal host intercept_host && port == 80
    then record { calls = Decision.intercept greeter ∷ []; raises = false }
    else record { calls = []; raises = false }

-- The decorated functions.
abbrev pub hooks : Hooks Context Pipe
hooks = record {
  authorize = some (λ s user password. authorize user password);
  on_connect = some (λ s host port. on_connect host port);
  on_disconnect = false;
}

-- `str` of a number; a number has at most as many digits as its value and one.
unfoldable pub digits : ℕ → ℕ → Text
digits zero n = []
digits (suc fuel) n =
    let front = digits fuel (n / 10) in
    if ltb n 10 then (b'0' + n) ∷ [] else front ++ (b'0' + n % 10) ∷ []

abbrev pub str : ℕ → Text
str n = digits (suc n) n

abbrev pub greeting : Context → Bytes
greeting ctx = codes "hello, " ++ (ctx.username ++ 10 ∷ [])

-- What `hello_upstream` writes, whatever the request is and also when none comes.
unfoldable pub hello_upstream : Context → Bytes
hello_upstream ctx =
    codes "HTTP/1.1 200 OK\r\nContent-Type: text/plain\r\nContent-Length: "
    ++ (str (length (greeting ctx)) ++ (codes "\r\nConnection: close\r\n\r\n" ++ greeting ctx))
