-- ===== src/Cli/Fetching.antt =====
-- `cmd_fetch` of src/optisocks5/cli.py with a proxy that answers that the request succeeded.
use optisocks.Prelude.{ℕ, Bool, true, false, List, [], ◌∷◌, Bytes, Text, Result, ok, err, os_error}
use optisocks.Codec.Platform.{Platform}
use optisocks.Codec.Binding
use optisocks.Core.Types
use optisocks.Core.Types.{member, succeeded}
use optisocks.Client.Transport.{Arrival, chunk, broken, late}
use optisocks.Client.Connect.{Client}
use optisocks.Cli.Target.{Python}
use optisocks.Cli.Commands.{Run, fetch_handshake, exits, escapes, show_body}

-- How the bytes of a stream end: by the other side's FIN, by the timeout, or by a failing `recv`.
pub data End : Type 0 where
  fin times_out breaks : End

abbrev pub ends_by : List Arrival → End
ends_by [] = fin
ends_by (chunk [] ∷ more) = fin
ends_by (late ∷ more) = times_out
ends_by (broken ∷ more) = breaks
ends_by (chunk (b ∷ bs) ∷ more) = ends_by more

-- What reading to that end gives of the bytes before it.
abbrev read_to : End → Bytes → Result (Bytes × Bool)
read_to fin page = ok (page, false)
read_to times_out page = ok (page, true)
read_to breaks page = err os_error

-- The run that prints the handshake, and then the page up to a FIN or the timeout; a failing `recv`
-- raises in place of the page.
abbrev pub shown : Python → Text → ℕ → Bytes → End → Run
shown py host port page fin =
    (fetch_handshake (member succeeded) host port ∷ show_body py (page, false), exits 0)
shown py host port page times_out =
    (fetch_handshake (member succeeded) host port ∷ show_body py (page, true), exits 0)
shown py host port page breaks =
    (fetch_handshake (member succeeded) host port ∷ [], escapes os_error)
