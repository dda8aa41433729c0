-- ===== src/Client/Transport/Exact.antt =====
-- `_recv_exact` of src/optisocks5/sync/client.py reads exactly what it is asked for.
use optisocks.Prelude.{
  take-append-drop, ℕ, ◌-◌, ◌≤◌, ◌<◌, ◌≡◌, inl, inr, refl, sym, ap, ◌∙◌, true, false, List, [], ◌∷◌,
  ◌++◌, Bytes, ok, arith, leb, leb→le, length, take, drop, length-append, length-take, length-drop,
  append_assoc, Bool-cases,
}
use optisocks.Client.Transport.{
  Mode, Arrival, chunk, broken, late, Link, stream, recv_loop, recv_exact,
}

stream-chunk :
    (xs : Bytes) (more : List Arrival)
    → 0 < length xs
    → stream (chunk xs ∷ more) ≡ xs ++ stream more
stream-chunk [] more h = absurd (omega arith)
stream-chunk (x ∷ xs) more h = refl

-- The read bytes are `n`, and with what is left they are what there was.
abbrev Exactly : ℕ → Bytes → List Arrival → Bytes → List Arrival → Type 0
Exactly n buf incoming b more = (length b ≡ n) × (b ++ stream more ≡ buf ++ stream incoming)

enough_read :
    (n : ℕ) (buf : Bytes) (incoming : List Arrival)
    → length buf ≤ n
    → leb n (length buf) ≡ true
    → Exactly n buf incoming buf incoming
enough_read n buf incoming l h = (omega (arith, leb→le n (length buf) h), refl)

lt_of_leb : (a b : ℕ) → leb a b ≡ false → b < a
lt_of_leb a b h = ground arith

join : (buf t d s : Bytes) {c : Bytes} → t ++ d ≡ c → (buf ++ t) ++ (d ++ s) ≡ buf ++ (c ++ s)
join buf t d s {c} h = rw (← h) (simp append_assoc)

split_chunk :
    (n : ℕ) (buf d : Bytes) (more : List Arrival)
    → length buf ≤ n
    → leb (length d) (n - length buf) ≡ false
    → Exactly n buf
        (chunk d ∷ more)
        (buf ++ take (n - length buf) d)
        (chunk (drop (n - length buf) d) ∷ more)
split_chunk n buf d more l h =
    let k = n - length buf in
    let small : k < length d = lt_of_leb (length d) k h in
    (
      omega (arith, length-append buf (take k d), length-take k d (omega (arith, small))),
      rw (stream-chunk (drop k d) more (omega (arith, small, length-drop k d))) (
          join buf (take k d) (drop k d) (stream more) (take-append-drop k d)
          ∙ ap (λ t. buf ++ t) (sym (stream-chunk d more (omega (arith, small))))),
    )

grown :
    (n : ℕ) (buf d : Bytes)
    → leb n (length buf) ≡ false
    → leb (length d) (n - length buf) ≡ true
    → length (buf ++ d) ≤ n
grown n buf d short fits = omega (
  arith,
  length-append buf d,
  lt_of_leb n (length buf) short,
  leb→le (length d) (n - length buf) fits,
)

recv_loop-Exactly :
    (mode : Mode) (n : ℕ) (buf : Bytes) (incoming : List Arrival) (b : Bytes) (more : List Arrival)
    → length buf ≤ n
    → recv_loop mode n buf incoming ≡ (ok b, more)
    → Exactly n buf incoming b more
unfolding recv_loop
recv_loop-Exactly mode n buf [] b more l h = ground (arith, enough_read n buf [])
recv_loop-Exactly mode n buf (chunk (x ∷ xs) ∷ rest) b more l h =
    elim (Bool-cases (leb n (length buf))) [
      | inl full ↦ ground (arith, enough_read n buf (chunk (x ∷ xs) ∷ rest))
      | inr short ↦ elim (Bool-cases (leb (length (x ∷ xs)) (n - length buf))) [
        | inl fits ↦
            let e : recv_loop mode n (buf ++ x ∷ xs) rest ≡ (ok b, more) =
              rw (recv_loop, short, fits) at h in
            let (size, whole) =
              recv_loop-Exactly mode n (buf ++ x ∷ xs) rest b more (grown n buf (x ∷ xs) short fits)
                e in
            (size, whole ∙ append_assoc buf (x ∷ xs) (stream rest))
        | inr splits ↦ ground (arith, split_chunk n buf (x ∷ xs) rest l splits)
      ]
    ]
recv_loop-Exactly mode n buf (late ∷ rest) b more l h =
    ground (arith, enough_read n buf (late ∷ rest))
recv_loop-Exactly mode n buf (broken ∷ rest) b more l h =
    ground (arith, enough_read n buf (broken ∷ rest))
recv_loop-Exactly mode n buf (chunk [] ∷ rest) b more l h =
    ground (arith, enough_read n buf (chunk [] ∷ rest))

-- When `_recv_exact` returns, it has read exactly as many bytes as it was asked for, and what it
-- returns, with what it leaves to be read, is what the link had before.
pub length-recv_exact :
    (n : ℕ) (l l' : Link) (b : Bytes)
    → recv_exact n l ≡ (ok b, l')
    → (length b ≡ n) × (b ++ stream l'.incoming ≡ stream l.incoming)
unfolding recv_exact
length-recv_exact n l l' b h =
    recv_loop-Exactly l.mode n [] l.incoming b l'.incoming (omega arith)
      (ap (λ x. (x.0, x.1.incoming)) h)
