-- ===== src/Examples/Selector/Remaining.antt =====
-- `remaining` of examples/selector_connect.py.
use optisocks.Prelude.{
  ℕ, zero, suc, ◌+◌, ◌≤◌, ◌<◌, ◌≡◌, refl, sym, ap, ◌∙◌, inl, inr, Bool-cases, Option, none, some,
  some_eq, List, [], ◌∷◌, All, arith, ◌==◌, ==_iff,
}
use optisocks.Codec.Platform.{Platform}
use optisocks.Examples.Selector.{
  Standing, Ready, waiting, failed, finished, escaped, Board, put, is_escaped, advance,
  remaining_after, on_batch, run,
}

-- How many of the first `k` handshakes still wait.
abbrev pub one_if_waiting : Standing → ℕ
one_if_waiting (waiting c) = 1
one_if_waiting _ = 0

abbrev pub waiting_below : ℕ → Board → ℕ
waiting_below zero board = 0
waiting_below (suc k) board = one_if_waiting (board k) + waiting_below k board

put-here : (board : Board) (i : ℕ) (st : Standing) → put board i st i ≡ st
put-here board i st = rw ((==_iff i i).1 refl) refl

waiting_below-put_above :
    (k i : ℕ) (board : Board) (st : Standing)
    → k ≤ i
    → waiting_below k (put board i st) ≡ waiting_below k board
waiting_below-put_above zero i board st h = refl
waiting_below-put_above (suc k) i board st h = elim (Bool-cases (i == k)) [
  | inl same ↦ let eq = (==_iff i k).0 same in absurd (omega (arith, eq))
  | inr other ↦
      rw other (
        ap (λ t. one_if_waiting (board k) + t) (waiting_below-put_above k i board st (omega arith)))
]

waiting_below-put :
    (k i : ℕ) (board : Board) (st : Standing)
    → i < k
    → waiting_below k (put board i st) + one_if_waiting (board i)
      ≡ waiting_below k board + one_if_waiting st
waiting_below-put zero i board st h = absurd (omega arith)
waiting_below-put (suc k) i board st h = elim (Bool-cases (i == k)) [
  | inl same ↦
      let eq = (==_iff i k).0 same in
      let above = waiting_below-put_above k i board st (omega (arith, eq)) in
      let at : board i ≡ board k = ap board eq in rw (same, at) (omega (arith, above))
  | inr other ↦
      let below : i < k = grind (arith, (==_iff i k).1) in
      rw other (omega (arith, waiting_below-put k i board st below))
]

-- One report keeps `remaining` as the number of those that wait.
advance-remaining :
    (p : Platform) (w n w' : ℕ) (st : Standing) (r : Ready)
    → n ≡ w
    → w' + one_if_waiting st ≡ w + one_if_waiting (advance p st r)
    → remaining_after st (advance p st r) n ≡ w'
advance-remaining p w n w' (waiting c) r h e = by_next (advance p (waiting c) r) e
  where
    by_next :
        (st : Standing) → w' + 1 ≡ w + one_if_waiting st → remaining_after (waiting c) st n ≡ w'
    by_next (waiting c') k = omega arith
    by_next (failed x) k = omega arith
    by_next (finished c' x) k = omega arith
    by_next (escaped x) k = omega arith
advance-remaining p w n w' (failed x) r h e = omega arith
advance-remaining p w n w' (finished c x) r h e = omega arith
advance-remaining p w n w' (escaped x) r h e = omega arith

-- The selector reports sockets with a number below `m`.
abbrev pub AreBelow : ℕ → List (ℕ × Ready) → Type 0
AreBelow m = All (λ (x : ℕ × Ready). x.0 < m)

on_batch-remaining :
    (p : Platform) (m : ℕ) (board board' : Board) (n n' : ℕ) (log : List (ℕ × Ready))
    → AreBelow m log
    → n ≡ waiting_below m board
    → on_batch p board n log ≡ some (board', n')
    → n' ≡ waiting_below m board'
unfolding on_batch
on_batch-remaining p m board board' n n' [] known h e =
    let same = some_eq e in
    sym (ap (λ (x : Board × ℕ). x.1) same) ∙ h ∙ ap (λ (x : Board × ℕ). waiting_below m x.0) same
on_batch-remaining p m board board' n n' ((i, r) ∷ more) known h e =
    let st = advance p (board i) r in
    elim (Bool-cases (is_escaped st)) [
      | inl gone ↦ absurd (ground arith)
      | inr fine ↦
          on_batch-remaining p m (put board i st) board' (remaining_after (board i) st n) n' more
            known.1
            (advance-remaining p (waiting_below m board) n (waiting_below m (put board i st))
              (board i) r h (waiting_below-put m i board st known.0))
            (rw (on_batch, fine) at e)
    ]

-- With as many handshakes as `remaining` says, and reports on their sockets only, `remaining` is in the
-- end again the number of the handshakes that still wait, if no exception escapes: so `while remaining`
-- ends when the last of them has failed or finished, and not before.
pub run-remaining :
    (p : Platform) (m : ℕ) (board board' : Board) (n n' : ℕ) (log : List (List (ℕ × Ready)))
    → All (AreBelow m) log
    → n ≡ waiting_below m board
    → run p board n log ≡ some (board', n')
    → n' ≡ waiting_below m board'
unfolding run
run-remaining p m board board' n n' [] known h e =
    let same = some_eq e in
    sym (ap (λ (x : Board × ℕ). x.1) same) ∙ h ∙ ap (λ (x : Board × ℕ). waiting_below m x.0) same
run-remaining p m board board' zero n' (batch ∷ more) known h e =
    let same = some_eq e in
    sym (ap (λ (x : Board × ℕ). x.1) same) ∙ h ∙ ap (λ (x : Board × ℕ). waiting_below m x.0) same
run-remaining p m board board' (suc n) n' (batch ∷ more) known h e =
    by_batch (on_batch p board (suc n) batch) refl
      (λ b k. run-remaining p m b board' k n' more known.1) e
  where
    by_batch :
        (o : Option (Board × ℕ))
        → on_batch p board (suc n) batch ≡ o
        → ((b : Board) (k : ℕ)
            → k ≡ waiting_below m b
            → run p b k more ≡ some (board', n')
            → n' ≡ waiting_below m board')
        → (elim o as (λ t. Option (Board × ℕ)) [ none ↦ none | some (b, k) ↦ run p b k more ])
          ≡ some (board', n')
        → n' ≡ waiting_below m board'
    by_batch none at ih e' = absurd (ground arith)
    by_batch (some (b, k)) at ih e' =
        ih b k (on_batch-remaining p m board b (suc n) k batch known.0 h at) e'
