-- ===== src/Examples/Curl.antt =====
-- `main` of examples/curl_through.py: one GET through a proxy.
pub mod Fetched
use optisocks.Prelude.{
  ℕ, pos, Bool, true, false, ◌&&◌, ◌||◌, Option, none, some, List, [], ◌∷◌, ◌++◌, Text, Exn, Result,
  ok, err, attribute_error, if◌then◌else◌, equal, codes,
}
use optisocks.Codec.Platform.{Platform}
use optisocks.Core.Types
use optisocks.Core.Types.{RepName, rep_name}
use optisocks.Client.Transport.{Link, sendall}
use optisocks.Client.Connect.{Connected}
use optisocks.Cli.Target.{Python, Proxy, parse_proxy, partition}
use optisocks.Cli.Commands
use optisocks.Cli.Commands.{client, handshake, read_body, show_body, http_get}

-- What is printed: the handshake with its mode, and the lines about the answer, which are those of the
-- command line's `fetch`.
pub data Line : Type 0 where
  shaken : (staged : Bool) → RepName → Text → ℕ → Line
  shown : Commands.Line → Line

-- How the script ends; `index_error` is the lack of an argument.
pub data Ended : Type 0 where
  finished bad_proxy index_error : Ended
  escapes : Exn → Ended

abbrev pub Run : Type 0
Run = List Line × Ended

abbrev pub is_flag : Text → Bool
is_flag a = equal a (codes "--staged")

-- `"--staged" in argv`
unfoldable pub has_flag : List Text → Bool
has_flag [] = false
has_flag (a ∷ more) = is_flag a || has_flag more

unfoldable pub without_flag : List Text → List Text
without_flag [] = []
without_flag (a ∷ more) = let rest = without_flag more in if is_flag a then rest else a ∷ rest

abbrev pub all_shown : List Commands.Line → List Line
all_shown [] = []
all_shown (l ∷ ls) = shown l ∷ all_shown ls

-- The body of the `with`, and the lines behind it.
abbrev pub read_page : Python → Line → Result (Unit {0}) × Link → Run
read_page py first (err e, l) = (first ∷ [], escapes e)
read_page py first (ok u, l) = elim (read_body [] l.incoming) [
  | err e ↦ (first ∷ [], escapes e)
  | ok got ↦ (first ∷ all_shown (show_body py got), finished)
]

abbrev pub browse : Python → Text → Text → Line → Option Link → Run
browse py path host first none = (first ∷ [], escapes attribute_error)
browse py path host first (some l) = read_page py first (sendall (http_get path host) l)

-- Behind `client.connect`.
abbrev pub fetched : Python → Text → Text → Bool → Connected → Run
fetched py path host staged (err e, c, l) = ([], escapes e)
fetched py path host staged (ok r, c, l) =
    browse py path host (shaken staged (rep_name r.rep) r.host r.port) c.sock

-- A value, or the exception that is let out.
abbrev pub or_escape : {A : Type 0} → Result A → (A → Run) → Run
or_escape (err e) run = ([], escapes e)
or_escape (ok a) run = run a

-- Behind the split of the target; `resolve` is `socket.gethostbyname`.
abbrev pub fetch_from :
    Python → Platform → Proxy → Bool → (Text → Result Text) → Result Link → Text × Bool × Text → Run
fetch_from py p q staged resolve dial (host, found, rest) = or_escape (resolve host) λ ip.
    or_escape (client q) λ c.
      fetched py (codes "/" ++ rest) host staged
        (handshake p staged c dial ip (pos 80) (pos Types.connect))

abbrev pub with_proxy : Option Proxy → (Proxy → Run) → Run
with_proxy none run = ([], bad_proxy)
with_proxy (some q) run = run q

abbrev pub fetch_through :
    Python → Platform → Bool → (Text → Result Text) → Result Link → Text → Text → Run
fetch_through py p staged resolve dial proxy target =
    or_escape (parse_proxy py proxy)
      λ o. with_proxy o λ q. fetch_from py p q staged resolve dial (partition (codes "/") target)

abbrev pub with_arguments : List Text → (Text → Text → Run) → Run
with_arguments (proxy ∷ target ∷ more) run = run proxy target
with_arguments _ run = ([], index_error)

unfoldable pub main : Python → Platform → List Text → (Text → Result Text) → Result Link → Run
unfolding has_flag without_flag partition
main py p argv resolve dial =
    with_arguments (without_flag argv) (fetch_through py p (has_flag argv) resolve dial)
