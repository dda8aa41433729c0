-- ===== src/Examples/Hello/Guarded.antt =====
-- The server of examples/async_server.py: whom it serves, what it dials, and the length that it
-- announces.
use optisocks.Prelude.{
  ℕ, zero, suc, ◌+◌, ◌*◌, ◌-◌, ◌<◌, ◌≡◌, refl, ◌∙◌, inl, inr, ◌/◌, ◌%◌, sym, pos, some_eq, true,
  false, Bool, Bool-cases, not, ◌&&◌, none, some, List, [], ◌∷◌, ◌++◌, Text, arith, equal, ◌==◌,
  ltb, ltb→le,
}
use optisocks.Codec.Platform.{Platform}
use optisocks.Server.State.{Endpoint}
use optisocks.Server.Decisions
use optisocks.Server.Hooks.{World, Recv, apply, apply_all}
use optisocks.Server.Driver.{run_hook, handle_async}
use optisocks.Server.Driver.Admission.{Policy, vetted, Enforces}
use optisocks.Server.Driver.Admission.Serving.{handle-vetted}
use optisocks.Server.Driver.Firewall.{all_allowed, Guards}
use optisocks.Server.Driver.Firewall.Dials.{handle-allowed}
use optisocks.Examples.Hello.{Context, Pipe, authorize, intercept_host, on_connect, hooks, digits}

-- A user is named.
abbrev pub is_named : Policy
is_named none password = false
is_named (some []) password = false
is_named (some (c ∷ t)) password = true

abbrev pub is_real : Endpoint → Bool
is_real (host, pos port) = not (equal host intercept_host && port == 80)
is_real (host, _) = true

authorize-Enforces :
    Enforces {Ctx = Context} {Pipe = Pipe} is_named (λ s user password. authorize user password)
unfolding authorize run_hook apply_all apply Decisions.reject
authorize-Enforces s none password h = refl
authorize-Enforces s (some []) password h = refl
authorize-Enforces s (some (c ∷ t)) password h = absurd (ground arith)

on_connect-Guards :
    Guards {Ctx = Context} {Pipe = Pipe} is_real (λ s host port. on_connect host port)
unfolding on_connect run_hook apply_all apply Decisions.intercept
on_connect-Guards s host port to t r i e =
    elim (Bool-cases (equal host intercept_host && port == 80)) [
      | inl same ↦ absurd (ground arith)
      | inr other ↦
          let same : (host, pos port) ≡ to = some_eq (sym t ∙ (rw (on_connect, other) at e)) in
          rw (← same, other) refl
    ]

-- Whatever clients send and the streams do, the server dials and relays only after a client gave a
-- name, and it never dials the host that it serves from memory.
pub hooks-intercepted :
    (p : Platform) (w : World Pipe) (incoming : List Recv)
    → (vetted is_named (handle_async p hooks w incoming).1 ≡ true)
      × (all_allowed is_real (handle_async p hooks w incoming).1 ≡ true)
hooks-intercepted p w incoming = (
  (handle-vetted p is_named hooks w _ incoming refl authorize-Enforces).1,
  (handle-allowed p is_real hooks w _ incoming refl on_connect-Guards).1,
)

-- The number that digits stand for, behind a front part.
abbrev pub number : ℕ → Text → ℕ
number n [] = n
number n (c ∷ t) = number (10 * n + (c - b'0')) t

number-append : (n : ℕ) (s t : Text) → number n (s ++ t) ≡ number (number n s) t
number-append n [] t = refl
number-append n (c ∷ s) t = number-append (10 * n + (c - b'0')) s t

-- The digits of `str` stand for its number.
pub number-digits : (fuel n : ℕ) → n < fuel → number 0 (digits fuel n) ≡ n
unfolding digits
number-digits zero n h = absurd (omega arith)
number-digits (suc fuel) n h = elim (Bool-cases (ltb n 10)) [
  | inl small ↦ rw small (omega arith)
  | inr large ↦
      let ih = number-digits fuel (n / 10) (omega (arith, h, ltb→le n 10 large)) in
      rw (large, number-append 0 (digits fuel (n / 10)) ((b'0' + n % 10) ∷ []), ih) (omega arith)
]
