-- ===== src/Examples/Curl/Fetched.antt =====
-- `main` of examples/curl_through.py beside `cmd_fetch` of src/optisocks5/cli.py.
use optisocks.Prelude.{
  ℕ, pos, ◌≡◌, refl, sym, ap, ◌∙◌, subst, Bool, Option, none, some, List, [], ◌∷◌, ◌++◌, Bytes,
  Text, Result, ok, err, codes,
}
use optisocks.Codec.Platform.{Platform}
use optisocks.Core.Types
use optisocks.Core.Types.{Reply, RepName, rep_name}
use optisocks.Client.Transport.{Link, sendall}
use optisocks.Client.Connect.{Client, Connected}
use optisocks.Cli.Target.{Python, Proxy, parse_proxy, split_target, partition}
use optisocks.Cli.Commands
use optisocks.Cli.Commands.{
  client, cmd_fetch, handshake, read_body, show_body, http_get, fetch_error,
}
use optisocks.Examples.Curl.{
  Line, shaken, shown, finished, bad_proxy, index_error, escapes, Run, has_flag, without_flag,
  all_shown, read_page, browse, fetched, fetch_from, fetch_through, with_arguments, with_proxy,
  or_escape, main,
}

abbrev line_of : Line → Commands.Line
line_of (shaken staged name host port) = Commands.fetch_handshake name host port
line_of (shown l) = l

abbrev lines_of : List Line → List Commands.Line
lines_of [] = []
lines_of (l ∷ ls) = line_of l ∷ lines_of ls

-- The same run, where `fetch` looks at the exception first if nothing was printed.
abbrev pub as_fetch : Run → Commands.Run
as_fetch (ls, finished) = (lines_of ls, Commands.exits 0)
as_fetch (ls, bad_proxy) = (lines_of ls, Commands.bad_proxy)
as_fetch (ls, index_error) = (lines_of ls, Commands.bad_target)
as_fetch ([], escapes e) = fetch_error e
as_fetch (l ∷ ls, escapes e) = (line_of l ∷ lines_of ls, Commands.escapes e)

lines_of-all_shown : (ls : List Commands.Line) → lines_of (all_shown ls) ≡ ls
lines_of-all_shown [] = refl
lines_of-all_shown (l ∷ ls) = ap (λ x. l ∷ x) (lines_of-all_shown ls)

-- Behind the sending of the request.
as_fetch-read_page :
    (py : Python) (staged : Bool) (name : RepName) (host : Text) (port : ℕ)
    (x : Result (Unit {0}) × Link)
    → as_fetch (read_page py (shaken staged name host port) x)
      ≡ Commands.read_page py (Commands.fetch_handshake name host port ∷ []) x
as_fetch-read_page py staged name host port (err e, l) = refl
as_fetch-read_page py staged name host port (ok u, l) = by_body (read_body [] l.incoming)
  where
    by_body :
        (r : Result (Bytes × Bool))
        → as_fetch (elim r as (λ t. Run) [
          | err e ↦ (shaken staged name host port ∷ [], escapes e)
          | ok got ↦ (shaken staged name host port ∷ all_shown (show_body py got), finished)
        ])
          ≡ (elim r as (λ t. Commands.Run) [
            | err e ↦ (Commands.fetch_handshake name host port ∷ [], Commands.escapes e)
            | ok got ↦ (
              (Commands.fetch_handshake name host port ∷ []) ++ show_body py got,
              Commands.exits 0,
            )
          ])
    by_body (err e) = refl
    by_body (ok got) =
        ap
          (λ (ls : List Commands.Line).
            (Commands.fetch_handshake name host port ∷ ls, Commands.exits 0))
          (lines_of-all_shown (show_body py got))

as_fetch-browse :
    (py : Python) (path host : Text) (staged : Bool) (r : Reply) (k : Option Link)
    → as_fetch (browse py path host (shaken staged (rep_name r.rep) r.host r.port) k)
      ≡ Commands.tunnelled py path host k
          (Commands.fetch_handshake (rep_name r.rep) r.host r.port ∷ [])
as_fetch-browse py path host staged r none = refl
as_fetch-browse py path host staged r (some l) =
    as_fetch-read_page py staged (rep_name r.rep) r.host r.port (sendall (http_get path host) l)

as_fetch-fetched :
    (py : Python) (path host : Text) (staged : Bool) (x : Connected)
    → as_fetch (fetched py path host staged x) ≡ Commands.fetched py path host x
as_fetch-fetched py path host staged (err e, c, l) = refl
as_fetch-fetched py path host staged (ok r, c, l) = as_fetch-browse py path host staged r c.sock

module _ (py : Python) (p : Platform) (staged : Bool) (proxy : Text) (q : Proxy) (c : Client)
    (resolve : Text → Result Text) (dial : Result Link) (hq : parse_proxy py proxy ≡ ok (some q))
    (hc : client q ≡ ok c) where
  -- Behind the resolution of the host.
  as_fetch-resolved :
      (path host : Text) (r : Result Text)
      → as_fetch (
          or_escape r (λ ip. or_escape (ok c) (λ c'.
            fetched py path host staged
              (handshake p staged c' dial ip (pos 80) (pos Types.connect)))))
        ≡ (elim r as (λ t. Commands.Run) [
          | err e ↦ fetch_error e
          | ok ip ↦
              Commands.fetched py path host
                (handshake p staged c dial ip (pos 80) (pos Types.connect))
        ])
  as_fetch-resolved path host (err e) = refl
  as_fetch-resolved path host (ok ip) =
      as_fetch-fetched py path host staged
        (handshake p staged c dial ip (pos 80) (pos Types.connect))

  as_fetch-fetch_from :
      (host path : Text) (found : Bool)
      → split_target py host (pos 80) ≡ ok (host, pos 80)
      → as_fetch (fetch_from py p q staged resolve dial (host, found, path))
        ≡ Commands.fetch_from py p proxy staged resolve dial (host, found, path)
  as_fetch-fetch_from host path found ht =
      rw (fetch_from, Commands.fetch_from, Commands.with_target, hq, ht, hc)
        (as_fetch-resolved (codes "/" ++ path) host (resolve host))

  as_fetch-fetch_through :
      (target host path : Text) (found : Bool)
      → partition (codes "/") target ≡ (host, found, path)
      → split_target py host (pos 80) ≡ ok (host, pos 80)
      → as_fetch (fetch_through py p staged resolve dial proxy target)
        ≡ cmd_fetch py p proxy target staged resolve dial
  unfolding cmd_fetch
  as_fetch-fetch_through target host path found hp ht =
      ap
        (λ r. as_fetch (
          or_escape r (λ o.
            with_proxy o
              (λ q'. fetch_from py p q' staged resolve dial (partition (codes "/") target)))))
        hq
      ∙ subst
          (λ x.
            as_fetch (fetch_from py p q staged resolve dial x)
            ≡ Commands.fetch_from py p proxy staged resolve dial x)
          (sym hp) (as_fetch-fetch_from host path found ht)

-- With a target that names no port, a proxy that can be read, and both credentials or neither: the
-- script prints what `fetch` of the command line prints for the same arguments, but for the mode in the
-- line about the handshake, and ends alike, but that `fetch` reports an OSError or a Socks5Error of the
-- resolution or the handshake with the exit status 1, and the script lets it out.
pub main-cmd_fetch :
    (py : Python) (p : Platform) (argv more : List Text) (proxy target host path : Text)
    (found : Bool) (q : Proxy) (c : Client) (resolve : Text → Result Text) (dial : Result Link)
    → without_flag argv ≡ proxy ∷ target ∷ more
    → parse_proxy py proxy ≡ ok (some q)
    → client q ≡ ok c
    → partition (codes "/") target ≡ (host, found, path)
    → split_target py host (pos 80) ≡ ok (host, pos 80)
    → as_fetch (main py p argv resolve dial)
      ≡ cmd_fetch py p proxy target (has_flag argv) resolve dial
unfolding main
main-cmd_fetch py p argv more proxy target host path found q c resolve dial ha hq hc hp ht =
    ap (λ a. as_fetch (with_arguments a (fetch_through py p (has_flag argv) resolve dial))) ha
    ∙ as_fetch-fetch_through py p (has_flag argv) proxy q c resolve dial hq hc target host path
        found hp ht
