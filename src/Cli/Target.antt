-- ===== src/Cli/Target.antt =====
-- `_parse_proxy` and `_split_target` of src/optisocks5/cli.py.
pub mod Forms
use optisocks.Prelude.{
  ℕ, suc, ◌+◌, ℤ, pos, Bool, true, false, ◌&&◌, Option, none, some, List, [], ◌∷◌, ◌++◌, Text,
  Result, ok, err, value_error, ◌>>=◌, ◌==◌, if◌then◌else◌, length, drop, starts_with, codes,
}

-- What `urlparse` gives of a URL. The property `port` raises a ValueError when it is no number up to
-- 65535.
pub record Url : Type 0 where
  pub hostname : Option Text
  pub port : Result (Option ℤ)
  pub username : Option Text
  pub password : Option Text

-- What the program takes from Python: `int` of a text, which reads the digits of every script,
-- `urlparse`, and for the answer of `fetch` the decoding of bytes, the first line of a text, and
-- `strip`.
pub record Python : Type 0 where
  pub int : Text → Option ℤ
  pub urlparse : Text → Result Url
  pub decode : List ℕ → Text
  pub first_line : Text → Text
  pub strip : Text → Text

-- `str.partition`: what stands before the first separator, whether there is one, and what stands
-- behind.
unfoldable pub partition : Text → Text → Text × Bool × Text
partition sep [] = ([], false, [])
partition sep (c ∷ t) =
    let (head, found, rest) = partition sep t in
    if starts_with sep (c ∷ t)
    then ([], true, drop (length sep) (c ∷ t))
    else (c ∷ head, found, rest)

-- `str.count` of one character.
unfoldable pub count : ℕ → Text → ℕ
count c [] = 0
count c (x ∷ t) = if x == c then suc (count c t) else count c t

abbrev pub colon : Text
colon = b':' ∷ []

abbrev pub bracket : Text
bracket = b']' ∷ []

unfoldable pub int_of : Python → Text → Result ℤ
int_of py t = elim (py.int t) [ some n ↦ ok n | none ↦ err value_error ]

-- Behind the bracket that opens.
unfoldable pub split_bracketed : Python → Text → ℤ → Result (Text × ℤ)
unfolding partition int_of
split_bracketed py t default_port =
    let (host, found, rest) = partition bracket t in
    if found && starts_with colon rest
    then (do port ← int_of py (drop 1 rest); ok (host, port))
    else ok (host, default_port)

-- `rsplit` at the colon, of which there is one.
unfoldable pub split_once : Python → Text → Result (Text × ℤ)
unfolding partition int_of
split_once py t =
    let (host, found, rest) = partition colon t in (do port ← int_of py rest; ok (host, port))

unfoldable pub split_target : Python → Text → ℤ → Result (Text × ℤ)
unfolding count
split_target py target default_port =
    if starts_with (b'[' ∷ []) target
    then split_bracketed py (drop 1 target) default_port
    else if count b':' target == 1
    then split_once py target
    else ok (target, default_port)

abbrev scheme_mark : Text
scheme_mark = codes "://"

abbrev scheme : Text
scheme = codes "socks5://"

-- The proxy's address and the credentials. `none` is the SystemExit for a URL without host or port.
pub record Proxy : Type 0 where
  pub host : Text
  pub port : ℤ
  pub username : Option Text
  pub password : Option Text

-- `u.port` is not read when there is no host.
abbrev pub with_port : Url → Text → Option ℤ → Option Proxy
with_port u host none = none
with_port u host (some port) =
    some (record { host = host; port = port; username = u.username; password = u.password })

abbrev pub proxy_of : Url → Result (Option Proxy)
proxy_of u = elim u.hostname [
  | none ↦ ok none
  | some host ↦ (do port ← u.port; ok (with_port u host port))
]

abbrev pub full_url : Text → Text
full_url url =
    let (head, found, rest) = partition scheme_mark url in if found then url else scheme ++ url

unfoldable pub parse_proxy : Python → Text → Result (Option Proxy)
unfolding partition
parse_proxy py url = do u ← py.urlparse (full_url url); proxy_of u
