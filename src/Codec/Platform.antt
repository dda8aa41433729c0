-- ===== src/Codec/Platform.antt =====
-- What csrc/socks5_codec.cpp and csrc/module.cpp take from the C library and from CPython: the
-- conversions between IP addresses and their text, and the check of UTF-8.
use optisocks.Prelude.{
  ◌≡◌, Bool, true, Option, none, some, [], ◌∷◌, Bytes, Text, IsByte, ◌==◌, if◌then◌else◌, length,
  All,
}

pub record Platform : Type 0 where
  pub inet_pton4 : Text → Option Bytes
  pub inet_pton6 : Text → Option Bytes
  pub inet_ntop4 : Bytes → Option Text
  pub inet_ntop6 : Bytes → Option Text
  pub is_utf8 : Bytes → Bool

-- `std::string::c_str()` as a C function reads it: up to the first NUL.
unfoldable pub c_str : Text → Text
c_str [] = []
c_str (c ∷ s) = if c == 0 then [] else c ∷ c_str s

-- The text is plain: a C string, and UTF-8.
abbrev pub IsPlain : Platform → Text → Type 0
IsPlain p t = (c_str t ≡ t) × (p.is_utf8 t ≡ true)

-- What the manual pages of inet_pton(3) and inet_ntop(3) say: an address has 4 or 16 bytes, every
-- address has a text, this text is plain and reads back as the address, and the text of an IPv6
-- address, with its colons, is no IPv4 text.
pub record IsInet (p : Platform) : Type 0 where
  pub length-pton4 : (t : Text) (b : Bytes) → p.inet_pton4 t ≡ some b → length b ≡ 4
  pub length-pton6 : (t : Text) (b : Bytes) → p.inet_pton6 t ≡ some b → length b ≡ 16
  pub ntop4 :
      (b : Bytes)
      → length b ≡ 4
      → All IsByte b
      → (t : Text) × (p.inet_ntop4 b ≡ some t) × (p.inet_pton4 t ≡ some b) × IsPlain p t
  pub ntop6 :
      (b : Bytes)
      → length b ≡ 16
      → All IsByte b
      → (t : Text) × (p.inet_ntop6 b ≡ some t)
        × (p.inet_pton6 t ≡ some b)
        × (p.inet_pton4 t ≡ none)
        × IsPlain p t
  pub pton4_bytes : (t : Text) (b : Bytes) → p.inet_pton4 t ≡ some b → All IsByte b
  pub pton6_bytes : (t : Text) (b : Bytes) → p.inet_pton6 t ≡ some b → All IsByte b
