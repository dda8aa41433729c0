-- ===== src/Tests/Inet.antt =====
-- A simple pair of conversions between addresses and texts, which shows that the laws of
-- Codec/Platform.antt can hold: a marker, and then every byte of the address one higher, so that no
-- text has a NUL in it.
use optisocks.Prelude.{
  ℕ, zero, suc, ◌≡◌, refl, ap, ◌∙◌, true, Option, none, some, [], ◌∷◌, Bytes, Text, IsByte, arith,
  length, All, ◌==◌, ltb, if◌then◌else◌, inl, inr, Option-cases, Bool-cases, some_eq, ltb→lt,
}
use optisocks.Codec.Platform.{Platform, IsInet, c_str}

-- Each byte one higher.
unfoldable pub raise : Bytes → Text
raise [] = []
raise (b ∷ bs) = suc b ∷ raise bs

unfoldable pub lower : Text → Option Bytes
lower [] = some []
lower (zero ∷ t) = none
lower (suc b ∷ t) =
    let rest = lower t in
    if ltb b 256 then elim rest [ none ↦ none | some bs ↦ some (b ∷ bs) ] else none

abbrev read : ℕ → ℕ → Text → Option Bytes
read m n [] = none
read m n (c ∷ t) = if c == m then if length t == n then lower t else none else none

abbrev pub toy : Platform
toy = record {
  inet_pton4 = read 52 4;
  inet_pton6 = read 54 16;
  inet_ntop4 = λ b. some (52 ∷ raise b);
  inet_ntop6 = λ b. some (54 ∷ raise b);
  is_utf8 = λ b. true;
}

length-lower : (t : Text) (b : Bytes) → lower t ≡ some b → length b ≡ length t
unfolding lower
length-lower [] b h = ground arith
length-lower (zero ∷ t) b h = absurd (ground arith)
length-lower (suc c ∷ t) b h = elim (Option-cases (lower t)) [
  | inl e ↦ absurd (ground arith)
  | inr (bs, e) ↦ ground (arith, length-lower t bs e)
]

lower_bytes : (t : Text) (b : Bytes) → lower t ≡ some b → All IsByte b
unfolding lower
lower_bytes [] [] h = tt
lower_bytes [] (x ∷ b) h = absurd (ground arith)
lower_bytes (zero ∷ t) b h = absurd (ground arith)
lower_bytes (suc c ∷ t) b h = elim (Option-cases (lower t)) [
  | inl e ↦ absurd (ground arith)
  | inr (bs, e) ↦ elim (Bool-cases (ltb c 256)) [
    | inl small ↦
        let same : c ∷ bs ≡ b = some_eq (rw (e, small) at h) in
        rw (← same) (ltb→lt c 256 small, lower_bytes t bs e)
    | inr big ↦ absurd (ground arith)
  ]
]

lower-raise : (b : Bytes) → All IsByte b → lower (raise b) ≡ some b
unfolding lower raise
lower-raise [] h = refl
lower-raise (x ∷ b) h = rw (lower-raise b h.1) (ground arith)

length-raise : (b : Bytes) → length (raise b) ≡ length b
unfolding raise
length-raise [] = refl
length-raise (x ∷ b) = omega (arith, length-raise b)

c_str-raise : (b : Bytes) → c_str (raise b) ≡ raise b
unfolding raise c_str
c_str-raise [] = refl
c_str-raise (x ∷ b) = ground (arith, c_str-raise b)

read-some :
    (m n : ℕ) (t : Text) (b : Bytes)
    → read m n t ≡ some b
    → (t' : Text) × (length t' ≡ n) × (lower t' ≡ some b)
read-some m n [] b h = absurd (ground arith)
read-some m n (c ∷ t) b h = (t, ground arith, ground arith)

read-raise : (m n : ℕ) (b : Bytes) → length b ≡ n → All IsByte b → read m n (m ∷ raise b) ≡ some b
read-raise m n b l h = ground (arith, lower-raise b h, length-raise b)

pub toy-IsInet : IsInet toy
unfolding c_str
toy-IsInet = record {
  length-pton4 = λ t b h. let (t', l, e) = read-some 52 4 t b h in length-lower t' b e ∙ l;
  length-pton6 = λ t b h. let (t', l, e) = read-some 54 16 t b h in length-lower t' b e ∙ l;
  ntop4 = λ b l h. (52 ∷ raise b, refl, read-raise 52 4 b l h, (ap (◌∷◌ 52) (c_str-raise b), refl));
  ntop6 = λ b l h.
      (54 ∷ raise b, refl, read-raise 54 16 b l h, refl, (ap (◌∷◌ 54) (c_str-raise b), refl));
  pton4_bytes = λ t b h. let (t', l, e) = read-some 52 4 t b h in lower_bytes t' b e;
  pton6_bytes = λ t b h. let (t', l, e) = read-some 54 16 t b h in lower_bytes t' b e;
}
