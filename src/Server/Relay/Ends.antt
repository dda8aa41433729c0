-- ===== src/Server/Relay/Ends.antt =====
-- How a relay by `splice` or `async_splice` ends, or waits.
use optisocks.Prelude.{
  ℕ, ◌+◌, ◌*◌, ◌≡◌, ◌||◌, Bool, true, false, ◌⊎◌, [], Bytes, length, if◌then◌else◌,
}
use optisocks.Server.Relay.{
  Place, Tail, stays, reading, writing, leaving, finished, Copy, Splice, Step,
}

-- An upper bound on the moves that a direction still makes.
abbrev pub left_at : Place → ℕ → ℕ
left_at reading n = 2 * n + 2
left_at (writing d) n = 2 * n + 3
left_at (leaving b) n = 1
left_at (finished b) n = 0

abbrev pub moves_left : Copy → ℕ
moves_left c = left_at c.place (length c.ahead)

abbrev pub steps_left : Splice → ℕ
steps_left s = moves_left s.there + moves_left s.back + (if s.returned then 0 else 1)

-- Whether a direction waits for a source that has sent all and stays silent, with no timeout.
abbrev waits : Bool → Tail → Place → Bytes → Bool
waits false stays reading [] = true
waits idle tail at ahead = false

abbrev pub blocked : Bool → Tail → Copy → Bool
blocked idle tail c = waits idle tail c.place c.ahead

abbrev pub CanStep : Splice → Type 0
CanStep s = (t : Splice) × Step s t

-- A relay with a blocked direction has not returned; one without has returned or can make a step.
abbrev pub Stands : Bool → Tail → Tail → Splice → Type 0
Stands idle tail tail' s =
    (((blocked idle tail s.there || blocked idle tail' s.back) ≡ true) × (s.returned ≡ false))
    ⊎ (((blocked idle tail s.there || blocked idle tail' s.back) ≡ false)
        × ((s.returned ≡ true) ⊎ CanStep s))
