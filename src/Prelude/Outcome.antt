-- ===== src/Prelude/Outcome.antt =====
-- What a call can do besides returning: the exceptions of the C++ codec and of Python.
use Prim.Native.Nat.{ℕ, ◌<◌}
use mathlib.Core.Path.{◌≡◌, refl}
use Prim.Native.Char.{code}
use Prim.Native.String.{String}
use mathlib.Core.List.{List, [], ◌∷◌}
use mathlib.Core.Option.{Option}

abbrev pub Bytes : Type 0
Bytes = List ℕ

-- A Python `str`, or a `std::string`, by its UTF-8 bytes.
abbrev pub Text : Type 0
Text = List ℕ

-- The bytes of an ASCII literal.
abbrev pub codes : String → List ℕ
codes String.[] = []
codes (String.◌∷◌ c s) = code c ∷ codes s

abbrev pub IsByte : ℕ → Type 0
IsByte b = b < 256

-- The messages of `Socks5Error`. The examples word three of them differently: in
-- examples/async_connect.py, `closed_in_handshake` is "proxy closed during handshake" and
-- `refused_unnumbered` is "request failed" without the code in brackets; `peer_closed` of
-- examples/selector_connect.py names the proxy's address.
pub data Failure : Type 0 where
  malformed_method_selection : Failure
  no_acceptable_methods : Failure
  unexpected_method : ℕ → ℕ → Failure
  malformed_auth_reply : Failure
  auth_rejected : Option ℕ → Failure
  unknown_atyp : ℕ → Failure
  malformed_reply : Failure
  userpass_demanded : Failure
  no_acceptable_method : ℕ → Failure
  request_failed : ℕ → Failure
  proxy_closed : Failure
  closed_in_handshake : Failure
  peer_closed : Failure
  refused_unnumbered : ℕ → Failure
  timed_out : Failure

pub data Exn : Type 0 where
  length_error : Exn
  value_error : Exn
  overflow_error : Exn
  unicode_error : Exn
  runtime_error : Exn
  os_error : Exn
  timeout_error : Exn
  incomplete_read : Exn
  attribute_error : Exn
  type_error : Exn
  socks5_error : Failure → Exn

-- What a call returns, or the exception that leaves it.
pub data Result {ℓ} (A : Type ℓ) : Type ℓ where
  err : Exn → Result A
  ok : A → Result A

module _ {ℓ κ} {A : Type ℓ} {B : Type κ} where
  infixl 5 ◌>>=◌
  -- An exception ends the chain.
  abbrev pub ◌>>=◌ : Result A → (A → Result B) → Result B
  err e >>= k = err e
  ok x >>= k = k x

  -- To invert a chain that succeeded.
  pub >>=-eq-ok :
      (r : Result A) (k : A → Result B) {y : B}
      → (r >>= k) ≡ ok y
      → (x : A) × (r ≡ ok x) × (k x ≡ ok y)
  >>=-eq-ok (err e) k h = cc
  >>=-eq-ok (ok x) k h = (x, refl, h)
