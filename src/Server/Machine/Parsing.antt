-- ===== src/Server/Machine/Parsing.antt =====
-- The parsers that src/optisocks5/server/session.py applies to its buffer, when more bytes stand
-- behind those that they read.
use optisocks.Prelude.{
  ℕ, zero, suc, ap, ◌≢◌, ◌+◌, ◌≤◌, ◌<◌, ◌≡◌, refl, true, false, none, some, [], ◌∷◌, ◌++◌, Bytes,
  Text, IsByte, arith, length, take, drop, get_or, All, length-append, length-drop, All-drop,
  take-append, drop-append, get_or-append,
}
use optisocks.Codec.Messages
use optisocks.Codec.Messages.{parse_greeting}
use optisocks.Server.Machine.{request_len, wrong_version, userpass_size}

-- A whole greeting is in the buffer, and read the same with more bytes behind it.
pub parse_greeting-append :
    (xs ys : Bytes) {ms : Bytes}
    → parse_greeting xs ≡ some ms
    → (parse_greeting (xs ++ ys) ≡ some ms) × (2 + get_or xs 1 0 ≤ length xs) × (2 ≤ length xs)
unfolding parse_greeting
parse_greeting-append [] ys h = cc
parse_greeting-append (v ∷ []) ys h = cc
parse_greeting-append (v ∷ n ∷ d) ys h = ground (arith, length-append d ys, take-append n d ys)

-- With the right version, a greeting that is not whole has at most 256 bytes.
pub parse_greeting_short :
    (xs : Bytes)
    → All IsByte xs
    → wrong_version xs ≡ false
    → parse_greeting xs ≡ none
    → length xs < 257
unfolding parse_greeting
parse_greeting_short [] b v h = omega arith
parse_greeting_short (a ∷ []) b v h = omega arith
parse_greeting_short (a ∷ n ∷ d) b v h = ground arith

pub get_or-drop :
    (n : ℕ) (d : Bytes) {x : ℕ} {r : Bytes}
    → drop n d ≡ x ∷ r
    → (get_or d n 0 ≡ x) × (length d ≡ n + 1 + length r)
get_or-drop zero [] h = cc
get_or-drop zero (y ∷ d) h = ground arith
get_or-drop (suc n) [] h = cc
get_or-drop (suc n) (y ∷ d) h = ground (arith, get_or-drop n d h)

-- PLEN and PASSWD are in the buffer, and read the same with more bytes behind.
pub parse_password-append :
    (user : Text) (tail ys : Bytes) {uw : Text × Text}
    → Messages.parse_password user tail ≡ some uw
    → (Messages.parse_password user (tail ++ ys) ≡ some uw)
      × (x : ℕ) × (r : Bytes) × (tail ≡ x ∷ r)
      × (x ≤ length r)
unfolding Messages.parse_password
parse_password-append user [] ys h = cc
parse_password-append user (x ∷ r) ys h =
    (ground (arith, length-append r ys, take-append x r ys), x, r, refl, ground arith)

pub raw_userpass_cases :
    (v n : ℕ) (d : Bytes) {uw : Text × Text}
    → Messages.parse_userpass (v ∷ n ∷ d) ≡ some uw
    → (v ≡ Messages.auth_ver)
      × (n + 1 ≤ length d)
      × (Messages.parse_password (take n d) (drop n d) ≡ some uw)
unfolding Messages.parse_userpass
raw_userpass_cases v n d h = ground arith

pub raw_userpass_size :
    (n : ℕ) (d : Bytes) {x : ℕ} {r : Bytes}
    → drop n d ≡ x ∷ r
    → x ≤ length r
    → 3 + n + get_or d n 0 ≤ suc (suc (length d))
raw_userpass_size n d e h = let (g, l) = get_or-drop n d e in omega arith

-- The user name and the password are in the buffer, of the size that is removed.
pub raw_userpass-append :
    (xs ys : Bytes) {uw : Text × Text}
    → Messages.parse_userpass xs ≡ some uw
    → (Messages.parse_userpass (xs ++ ys) ≡ some uw)
      × (userpass_size xs ≤ length xs)
      × (userpass_size (xs ++ ys) ≡ userpass_size xs)
unfolding Messages.parse_userpass
raw_userpass-append [] ys h = cc
raw_userpass-append (v ∷ []) ys h = cc
raw_userpass-append (v ∷ n ∷ d) ys h =
    let (hv, hn, hp) = raw_userpass_cases v n d h in
    let (more, x, r, e, small) = parse_password-append (take n d) (drop n d) ys hp in
    (
      ground (arith, length-append d ys, take-append n d ys, drop-append n d ys),
      raw_userpass_size n d e small,
      ap (λ k. 3 + n + k) (get_or-append d ys n 0 (omega arith)),
    )

pub parse_password_total :
    (user : Text) (tail : Bytes)
    → All IsByte tail
    → 256 ≤ length tail
    → Messages.parse_password user tail ≢ none
unfolding Messages.parse_password
parse_password_total user [] b l = absurd (omega arith)
parse_password_total user (x ∷ r) b l = ground arith

-- With the right version, credentials that are not whole have at most 512 bytes.
pub raw_userpass_short :
    (xs : Bytes)
    → All IsByte xs
    → Messages.parse_userpass xs ≡ none
    → 513 < length xs
    → (v : ℕ) × (d : Bytes) × (xs ≡ v ∷ d) × (v ≢ Messages.auth_ver)
unfolding Messages.parse_userpass
raw_userpass_short [] b h l = absurd (omega arith)
raw_userpass_short (v ∷ []) b h l = absurd (omega arith)
raw_userpass_short (v ∷ n ∷ d) b h l = (
  v,
  n ∷ d,
  refl,
  λ e.
      parse_password_total (take n d) (drop n d) (All-drop IsByte n d b.1.1)
        (rw length-drop (omega arith)) (ground arith),
)

-- A wrong version stays wrong.
pub raw_userpass_bad :
    (xs ys : Bytes) (v : ℕ) (d : Bytes)
    → xs ≡ v ∷ d
    → v ≢ Messages.auth_ver
    → Messages.parse_userpass (xs ++ ys) ≡ none
unfolding Messages.parse_userpass
raw_userpass_bad [] ys v d e ne = cc
raw_userpass_bad (a ∷ []) [] v d e ne = refl
raw_userpass_bad (a ∷ []) (y ∷ ys) v d e ne = ground arith
raw_userpass_bad (a ∷ n ∷ xs) ys v d e ne = ground arith

pub request_len-append :
    (xs ys : Bytes) {n : ℕ} → request_len xs ≡ some n → request_len (xs ++ ys) ≡ some n
unfolding request_len
request_len-append [] ys h = cc
request_len-append (a ∷ []) ys h = cc
request_len-append (a ∷ b ∷ []) ys h = cc
request_len-append (a ∷ b ∷ c ∷ []) ys h = cc
request_len-append (a ∷ b ∷ c ∷ d ∷ []) ys h = ground arith
request_len-append (a ∷ b ∷ c ∷ d ∷ e ∷ xs) ys h = h

-- A buffer of five bytes that has no length has an unknown ATYP, and keeps it.
pub request_len-none :
    (xs ys : Bytes) → 5 ≤ length xs → request_len xs ≡ none → request_len (xs ++ ys) ≡ none
unfolding request_len
request_len-none [] ys l h = absurd (omega arith)
request_len-none (a ∷ []) ys l h = absurd (omega arith)
request_len-none (a ∷ b ∷ []) ys l h = absurd (omega arith)
request_len-none (a ∷ b ∷ c ∷ []) ys l h = absurd (omega arith)
request_len-none (a ∷ b ∷ c ∷ d ∷ []) ys l h = absurd (omega arith)
request_len-none (a ∷ b ∷ c ∷ d ∷ e ∷ xs) ys l h = h

-- The longest request that `request_len` expects.
pub request_len-le : (xs : Bytes) {n : ℕ} → All IsByte xs → request_len xs ≡ some n → n ≤ 262
unfolding request_len
request_len-le [] b h = cc
request_len-le (a ∷ []) b h = cc
request_len-le (a ∷ b' ∷ []) b h = cc
request_len-le (a ∷ b' ∷ c ∷ []) b h = cc
request_len-le (a ∷ b' ∷ c ∷ d ∷ []) b h = ground arith
request_len-le (a ∷ b' ∷ c ∷ d ∷ e ∷ xs) b h = ground arith

pub wrong_version-append :
    (xs ys : Bytes) → wrong_version xs ≡ true → wrong_version (xs ++ ys) ≡ true
wrong_version-append [] ys h = cc
wrong_version-append (v ∷ xs) ys h = h

pub right_version-append :
    (xs ys : Bytes) → 1 ≤ length xs → wrong_version xs ≡ false → wrong_version (xs ++ ys) ≡ false
right_version-append [] ys l h = absurd (omega arith)
right_version-append (v ∷ xs) ys l h = h

-- A buffer with no length yet has at most four bytes, or an ATYP that has no length.
pub request_len_small : (xs : Bytes) {n : ℕ} → request_len xs ≡ some n → 4 ≤ length xs
unfolding request_len
request_len_small [] h = cc
request_len_small (a ∷ []) h = cc
request_len_small (a ∷ b ∷ []) h = cc
request_len_small (a ∷ b ∷ c ∷ []) h = cc
request_len_small (a ∷ b ∷ c ∷ d ∷ xs) h = omega arith
