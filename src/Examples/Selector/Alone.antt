-- ===== src/Examples/Selector/Alone.antt =====
-- The handshakes of examples/selector_connect.py do not disturb each other.
use optisocks.Prelude.{
  ℕ, zero, suc, ◌≡◌, refl, Option, none, ◌++◌, append_assoc, sym, ap, ◌∙◌, inl, inr, Bool-cases,
  some, some_eq, List, [], ◌∷◌, arith, ◌==◌, ==_iff, if◌then◌else◌,
}
use optisocks.Codec.Platform.{Platform}
use optisocks.Examples.Selector.{
  Standing, Ready, Board, put, is_escaped, advance, remaining_after, on_batch, run,
}

-- One handshake with the reports on its own socket.
unfoldable pub run_one : Platform → Standing → List Ready → Standing
run_one p st [] = st
run_one p st (r ∷ rs) = run_one p (advance p st r) rs

unfoldable pub reports_on : ℕ → List (ℕ × Ready) → List Ready
reports_on j [] = []
reports_on j ((i, r) ∷ more) = let rest = reports_on j more in if i == j then r ∷ rest else rest

advance-at :
    (p : Platform) (board : Board) (i j : ℕ) (r : Ready) (rs : List Ready)
    → run_one p (put board i (advance p (board i) r) j) rs
      ≡ run_one p (board j) (if i == j then r ∷ rs else rs)
unfolding run_one
advance-at p board i j r rs = elim (Bool-cases (i == j)) [
  | inl same ↦ rw same (ap (λ k. run_one p (advance p (board k) r) rs) ((==_iff i j).0 same))
  | inr other ↦ rw other
]

-- Whatever order the selector reports the sockets in, if no exception escapes, each handshake stands
-- as if it had been run alone with the reports on its own socket.
on_batch-run_one :
    (p : Platform) (board board' : Board) (n n' : ℕ) (log : List (ℕ × Ready)) (j : ℕ)
    → on_batch p board n log ≡ some (board', n')
    → board' j ≡ run_one p (board j) (reports_on j log)
unfolding on_batch run_one reports_on
on_batch-run_one p board board' n n' [] j h = ap (λ (x : Board × ℕ). x.0 j) (sym (some_eq h))
on_batch-run_one p board board' n n' ((i, r) ∷ more) j h =
    let st = advance p (board i) r in
    elim (Bool-cases (is_escaped st)) [
      | inl gone ↦ absurd (ground arith)
      | inr fine ↦
          on_batch-run_one p (put board i st) board' (remaining_after (board i) st n) n' more j
            (rw (on_batch, fine) at h)
          ∙ advance-at p board i j r (reports_on j more)
    ]

run_one-append :
    (p : Platform) (st : Standing) (xs ys : List Ready)
    → run_one p (run_one p st xs) ys ≡ run_one p st (xs ++ ys)
unfolding run_one
run_one-append p st [] ys = refl
run_one-append p st (x ∷ xs) ys = run_one-append p (advance p st x) xs ys

reports_on-append :
    (j : ℕ) (xs ys : List (ℕ × Ready))
    → reports_on j (xs ++ ys) ≡ reports_on j xs ++ reports_on j ys
unfolding reports_on
reports_on-append j [] ys = refl
reports_on-append j ((i, r) ∷ xs) ys = elim (Bool-cases (i == j)) [
  | inl same ↦ rw same (ap (◌∷◌ r) (reports_on-append j xs ys))
  | inr other ↦ rw other (reports_on-append j xs ys)
]

-- The reports of all batches, one behind the other.
abbrev pub all_reports : List (List (ℕ × Ready)) → List (ℕ × Ready)
all_reports [] = []
all_reports (batch ∷ more) = batch ++ all_reports more

-- A handshake stands as after the first of the reports on its socket, those before the loop ended.
pub run-run_one :
    (p : Platform) (board board' : Board) (n n' : ℕ) (log : List (List (ℕ × Ready))) (j : ℕ)
    → run p board n log ≡ some (board', n')
    → (mine rest : List Ready) × (reports_on j (all_reports log) ≡ mine ++ rest)
      × (board' j ≡ run_one p (board j) mine)
unfolding run run_one
run-run_one p board board' n n' [] j h =
    ([], reports_on j [], refl, ap (λ (x : Board × ℕ). x.0 j) (sym (some_eq h)))
run-run_one p board board' zero n' (batch ∷ more) j h = (
  [],
  reports_on j (all_reports (batch ∷ more)),
  refl,
  ap (λ (x : Board × ℕ). x.0 j) (sym (some_eq h)),
)
run-run_one p board board' (suc n) n' (batch ∷ more) j h =
    by_batch (on_batch p board (suc n) batch) refl (λ b k e. run-run_one p b board' k n' more j e) h
  where
    by_batch :
        (o : Option (Board × ℕ))
        → on_batch p board (suc n) batch ≡ o
        → ((b : Board) (k : ℕ)
            → run p b k more ≡ some (board', n')
            → (mine rest : List Ready) × (reports_on j (all_reports more) ≡ mine ++ rest)
              × (board' j ≡ run_one p (b j) mine))
        → (elim o as (λ t. Option (Board × ℕ)) [ none ↦ none | some (b, k) ↦ run p b k more ])
          ≡ some (board', n')
        → (mine rest : List Ready) × (reports_on j (all_reports (batch ∷ more)) ≡ mine ++ rest)
          × (board' j ≡ run_one p (board j) mine)
    by_batch none at ih h' = absurd (ground arith)
    by_batch (some (b, k)) at ih h' =
        let (mine, rest, parts, stands) = ih b k h' in
        (
          reports_on j batch ++ mine,
          rest,
          reports_on-append j batch (all_reports more)
              ∙ ap (λ z. reports_on j batch ++ z) parts
              ∙ sym (append_assoc (reports_on j batch) mine rest),
          stands
              ∙ ap (λ st. run_one p st mine) (on_batch-run_one p board b (suc n) k batch j at)
              ∙ run_one-append p (board j) (reports_on j batch) mine,
        )
