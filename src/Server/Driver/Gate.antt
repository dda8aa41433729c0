-- ===== src/Server/Driver/Gate.antt =====
-- The drivers of src/optisocks5/server/server.py and aio.py with an authorize hook: what comes before
-- the first dial.
use optisocks.Prelude.{
  ◌≡◌, refl, ◌≢◌, inl, inr, Bool, true, false, ◌&&◌, none, Option-cases, List, [], ◌∷◌, arith,
}
use optisocks.Codec.Platform.{Platform}
use optisocks.Server.Hooks.{Hooks, Action, World, Recv, dialled, asked, spliced, piped}
use optisocks.Server.Hooks
use optisocks.Server.Driver.{handle, handle_async}
use optisocks.Server.Driver.Admission.{Policy, has_passed, vetted}
use optisocks.Server.Driver.Admission.Serving.{handle-vetted}

-- The policy that accepts every client.
abbrev anyone : Policy
anyone user password = true

module _ {Pipe : Type 0} where
  abbrev pub has_asked : List (Action Pipe) → Bool
  has_asked [] = false
  has_asked (asked user password ∷ log) = true
  has_asked (_ ∷ log) = has_asked log

  -- Before every dial the hook was asked.
  abbrev pub gated : List (Action Pipe) → Bool
  gated [] = true
  gated (dialled to r ∷ log) = has_asked log && gated log
  gated (_ ∷ log) = gated log

  asked_passed : (log : List (Action Pipe)) → has_passed anyone log ≡ true → has_asked log ≡ true
  asked_passed [] h = h
  asked_passed (asked user password ∷ log) h = refl
  asked_passed (Hooks.sent b ∷ log) h = asked_passed log h
  asked_passed (dialled to r ∷ log) h = asked_passed log h
  asked_passed (spliced ∷ log) h = asked_passed log h
  asked_passed (piped fn ∷ log) h = asked_passed log h
  asked_passed (Hooks.disconnect_hook ∷ log) h = asked_passed log h
  asked_passed (Hooks.closed_downstream ∷ log) h = asked_passed log h
  asked_passed (Hooks.closed_upstream ∷ log) h = asked_passed log h

  gated-vetted : (log : List (Action Pipe)) → vetted anyone log ≡ true → gated log ≡ true
  gated-vetted [] h = h
  gated-vetted (asked user password ∷ log) h = gated-vetted log h
  gated-vetted (Hooks.sent b ∷ log) h = gated-vetted log h
  gated-vetted (dialled to r ∷ log) h = ground (arith, asked_passed log, gated-vetted log)
  gated-vetted (spliced ∷ log) h = ground (arith, gated-vetted log)
  gated-vetted (piped fn ∷ log) h = ground (arith, gated-vetted log)
  gated-vetted (Hooks.disconnect_hook ∷ log) h = gated-vetted log h
  gated-vetted (Hooks.closed_downstream ∷ log) h = gated-vetted log h
  gated-vetted (Hooks.closed_upstream ∷ log) h = gated-vetted log h

module _ {Ctx Pipe : Type 0} (p : Platform) (hooks : Hooks Ctx Pipe) (w : World Pipe) where
  both_gated :
      (incoming : List Recv)
      → hooks.authorize ≢ none
      → (gated (handle p hooks w incoming).1 ≡ true)
        × (gated (handle_async p hooks w incoming).1 ≡ true)
  both_gated incoming k = elim (Option-cases hooks.authorize) [
    | inl e ↦ absurd (k e)
    | inr (hook, e) ↦
        let (h, h') =
          handle-vetted p anyone hooks w hook incoming e (λ s u q r. absurd (ground arith)) in
        (
          gated-vetted (handle p hooks w incoming).1 h,
          gated-vetted (handle_async p hooks w incoming).1 h',
        )
  ]

  -- With an authorize hook, whatever the client sends, the hooks decide and the sockets do: the
  -- threaded driver dials no upstream before it has asked the hook.
  pub handle-gated :
      (incoming : List Recv) → hooks.authorize ≢ none → gated (handle p hooks w incoming).1 ≡ true
  handle-gated incoming k = (both_gated incoming k).0

  -- With an authorize hook, whatever the client sends, the hooks decide and the streams do: the asyncio
  -- driver dials no upstream before it has asked the hook.
  pub handle_async-gated :
      (incoming : List Recv)
      → hooks.authorize ≢ none
      → gated (handle_async p hooks w incoming).1 ≡ true
  handle_async-gated incoming k = (both_gated incoming k).1
