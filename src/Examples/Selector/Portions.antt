-- ===== src/Examples/Selector/Portions.antt =====
-- Bytes that go out in portions.
use optisocks.Prelude.{
  ℕ, zero, suc, ◌+◌, ◌-◌, ◌≤◌, ◌≡◌, refl, sym, ap, ◌∙◌, [], ◌∷◌, ◌++◌, Bytes, arith, length, take,
  drop, append_assoc,
}

drop_nil : (m : ℕ) → drop {A = ℕ} m [] ≡ []
drop_nil zero = refl
drop_nil (suc m) = refl

drop-add : (n m k : ℕ) (xs : Bytes) → k ≡ n + m → drop k xs ≡ drop m (drop n xs)
drop-add zero m k xs e = let same : k ≡ m = omega arith in ap (λ i. drop i xs) same
drop-add (suc n) m zero xs e = absurd (omega arith)
drop-add (suc n) m (suc k) [] e = sym (drop_nil m)
drop-add (suc n) m (suc k) (x ∷ xs) e = drop-add n m k xs (omega arith)

taken : (k : ℕ) (xs : Bytes) → take k xs ++ drop (length (take k xs)) xs ≡ xs
taken zero xs = refl
taken (suc k) [] = refl
taken (suc k) (x ∷ xs) = ap (◌∷◌ x) (taken k xs)

pub drop_past : (n : ℕ) (xs : Bytes) → length xs ≤ n → drop n xs ≡ []
drop_past zero [] h = refl
drop_past (suc n) [] h = refl
drop_past zero (x ∷ xs) h = absurd (omega arith)
drop_past (suc n) (x ∷ xs) h = drop_past n xs (omega arith)

pub left_taken : (k : ℕ) (xs : Bytes) → length xs - length (take k xs) ≡ length xs - k
left_taken zero xs = refl
left_taken (suc k) [] = omega arith
left_taken (suc k) (x ∷ xs) = omega (arith, left_taken k xs)

pub send_more :
    (wire : Bytes) (n room : ℕ) (q b : Bytes)
    → q ≡ b
    → wire ++ drop n b ≡ b
    → (wire ++ take room (drop n q)) ++ drop (n + length (take room (drop n q))) b ≡ b
send_more wire n room q b e h =
    let t = take room (drop n b) in
    rw e (
      append_assoc wire t (drop (n + length t) b)
      ∙ ap (λ r. wire ++ (t ++ r)) (drop-add n (length t) (n + length t) b refl)
      ∙ ap (λ r. wire ++ r) (taken room (drop n b))
      ∙ h)
