-- ===== src/Core/Session/Rounds.antt =====
-- One turn of the loop in `feed` of src/optisocks5/core/session.py, when more bytes stand behind.
use optisocks.Prelude.{
  ℕ, ◌≤◌, ◌≡◌, refl, ◌≢◌, ◌⊎◌, inl, inr, none, some, ◌++◌, ◌&&◌, not, [], ◌∷◌, Bytes, arith, ltb,
  leb, length, get_or, length-append, take-append, drop-append, get_or-append, Bool-cases,
  Option-cases,
}
use optisocks.Codec.Platform.{Platform}
use optisocks.Core.Session.{
  Session, State, method, auth, reply, done, Turn, again, returns, raises, method_turn, auth_turn,
  reply_arrived, reply_turn, reply_size, turn, turn_at, known_atyp,
}

-- The session with more bytes behind its buffer.
abbrev pub behind : Session → Bytes → Session
behind s ys = record s { buf = s.buf ++ ys }

abbrev pub extend : Bytes → Turn → Turn
extend ys (again s) = again (behind s ys)
extend ys (returns r s) = returns r (behind s ys)
extend ys (raises e s) = raises e (behind s ys)

module _ (p : Platform) (ys : Bytes) where
  method_turn-append :
      (s : Session)
      → (method_turn s ≡ returns none s) ⊎ (method_turn (behind s ys) ≡ extend ys (method_turn s))
  unfolding method_turn
  method_turn-append s = elim (Bool-cases (ltb (length s.buf) 2)) [
    | inl short ↦ inl (rw short)
    | inr long ↦
        inr (ground (arith, take-append 2 s.buf ys, drop-append 2 s.buf ys, length-append s.buf ys))
  ]

  auth_turn-append :
      (s : Session)
      → (auth_turn s ≡ returns none s) ⊎ (auth_turn (behind s ys) ≡ extend ys (auth_turn s))
  unfolding auth_turn
  auth_turn-append s = elim (Bool-cases (ltb (length s.buf) 2)) [
    | inl short ↦ inl (rw short)
    | inr long ↦
        inr (ground (arith, take-append 2 s.buf ys, drop-append 2 s.buf ys, length-append s.buf ys))
  ]

  pub reply_size-append :
      (xs : Bytes) {n : ℕ} → reply_size xs ≡ some n → reply_size (xs ++ ys) ≡ some n
  unfolding reply_size
  reply_size-append [] h = cc
  reply_size-append (a ∷ []) h = cc
  reply_size-append (a ∷ b ∷ []) h = cc
  reply_size-append (a ∷ b ∷ c ∷ []) h = cc
  reply_size-append (a ∷ b ∷ c ∷ d ∷ []) h = ground arith
  reply_size-append (a ∷ b ∷ c ∷ d ∷ e ∷ xs) h = h

  reply_arrived-append :
      (s : Session) (n : ℕ)
      → n ≤ length s.buf
      → reply_arrived p (behind s ys) n ≡ extend ys (reply_arrived p s n)
  unfolding reply_arrived
  reply_arrived-append s n h = ground (arith, take-append n s.buf ys, drop-append n s.buf ys)

  -- From four bytes on, the ATYP is known, and stays.
  atyp-append : (xs : Bytes) → 4 ≤ length xs → get_or (xs ++ ys) 3 0 ≡ get_or xs 3 0
  atyp-append xs h = get_or-append xs ys 3 0 (omega arith)

  reply_size_four : (xs : Bytes) {n : ℕ} → reply_size xs ≡ some n → 4 ≤ length xs
  unfolding reply_size
  reply_size_four [] h = cc
  reply_size_four (a ∷ []) h = cc
  reply_size_four (a ∷ b ∷ []) h = cc
  reply_size_four (a ∷ b ∷ c ∷ []) h = cc
  reply_size_four (a ∷ b ∷ c ∷ d ∷ xs) h = omega arith

  reply_turn-append :
      (s : Session)
      → (reply_turn p s ≡ returns none s)
        ⊎ (reply_turn p (behind s ys) ≡ extend ys (reply_turn p s))
  unfolding reply_turn
  reply_turn-append s =
      elim (Bool-cases (leb 4 (length s.buf) && not (known_atyp (get_or s.buf 3 0)))) [
        | inl bad ↦ inr (ground (arith, length-append s.buf ys, atyp-append s.buf))
        | inr good ↦ elim (Option-cases (reply_size s.buf)) [
          | inl unsized ↦ inl (rw (good, unsized))
          | inr (n, sized) ↦ elim (Bool-cases (ltb (length s.buf) n)) [
            | inl short ↦ inl (rw (good, sized, short))
            | inr whole ↦ inr (
                ground (
                  arith,
                  length-append s.buf ys,
                  atyp-append s.buf,
                  reply_size_four s.buf sized,
                  reply_size-append s.buf sized,
                  reply_arrived-append s n,
                ))
          ]
        ]
      ]

  -- A turn that does not ask for more bytes does the same with more bytes behind, and leaves them.
  turn_at-append :
      (st : State) (s : Session)
      → st ≢ done
      → (turn_at p st s ≡ returns none s)
        ⊎ (turn_at p st (behind s ys) ≡ extend ys (turn_at p st s))
  turn_at-append method s h = method_turn-append s
  turn_at-append auth s h = auth_turn-append s
  turn_at-append reply s h = reply_turn-append s
  turn_at-append done s h = absurd (h refl)

  pub turn-append :
      (s : Session)
      → s.state ≢ done
      → (turn p s ≡ returns none s) ⊎ (turn p (behind s ys) ≡ extend ys (turn p s))
  unfolding turn
  turn-append s h = turn_at-append s.state s h
