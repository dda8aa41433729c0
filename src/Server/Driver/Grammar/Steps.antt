-- ===== src/Server/Driver/Grammar/Steps.antt =====
-- What the events of src/optisocks5/server/session.py may do by the rule of Server/Driver/Grammar.antt.
use optisocks.Prelude.{
  ℤ, pos, ◌≡◌, refl, ◌⊎◌, Bool, true, false, Option, none, some, List, [], ◌∷◌, Bytes, Text, Result,
  ok, err, if◌then◌else◌, ◌==◌,
}
use optisocks.Codec.Platform.{Platform}
use optisocks.Codec.Binding
use optisocks.Codec.Binding.RoundTrip.{reply-IsFramed}
use optisocks.Codec.Messages
use optisocks.Codec.Messages.{parse_greeting}
use optisocks.Core.Types.{no_auth, userpass, no_acceptable}
use optisocks.Server.Events.{Event, CloseReason, send, need_data, authorize, connect, close}
use optisocks.Server.State.{
  ServerSession, Phase, greeting, auth, auth_wait, request, connect_wait, relay, closed,
}
use optisocks.Server.Machine.{Yield, emit, emit_send}
use optisocks.Server.Driver.Grammar.{
  Talk, silent, challenged, judged, granted, dialling, over, message, can_relay, ended_by, selected,
  judgement, replied,
}

-- Only the two last events wait in a queue, the relay where it may run.
abbrev pub QueueFits : Talk → List Event → Type 0
QueueFits t [] = Unit
QueueFits t (Event.relay host port ∷ q) = (can_relay t ≡ true) × QueueFits t q
QueueFits t (close reason ∷ q) = QueueFits t q
QueueFits t (_ ∷ q) = ⊥

abbrev pub is_success : ℤ → Bool
is_success (pos n) = n == 0
is_success _ = false

-- What each message makes of the talk.
pub selected_open :
    (b : Bytes) → Binding.method_selection (pos no_auth) ≡ ok b → selected b ≡ some granted
unfolding Binding.method_selection Messages.method_selection
selected_open b e = let same : b ≡ 5 ∷ 0 ∷ [] = cc in rw same refl

pub selected_auth :
    (b : Bytes) → Binding.method_selection (pos userpass) ≡ ok b → selected b ≡ some challenged
unfolding Binding.method_selection Messages.method_selection
selected_auth b e = let same : b ≡ 5 ∷ 2 ∷ [] = cc in rw same refl

pub selected_none :
    (b : Bytes) → Binding.method_selection (pos no_acceptable) ≡ ok b → selected b ≡ some over
unfolding Binding.method_selection Messages.method_selection
selected_none b e = let same : b ≡ 5 ∷ 255 ∷ [] = cc in rw same refl

pub judged_good : (b : Bytes) → Binding.auth_reply (pos 0) ≡ ok b → judgement b ≡ some granted
unfolding Binding.auth_reply Messages.auth_reply
judged_good b e = let same : b ≡ 1 ∷ 0 ∷ [] = cc in rw same refl

pub judged_bad : (b : Bytes) → Binding.auth_reply (pos 1) ≡ ok b → judgement b ≡ some over
unfolding Binding.auth_reply Messages.auth_reply
judged_bad b e = let same : b ≡ 1 ∷ 1 ∷ [] = cc in rw same refl

pub replied_code :
    (p : Platform) (code : ℤ) (host : Text) (port : ℤ) (b : Bytes)
    → Binding.reply p code host port ≡ ok b
    → replied b ≡ some (ended_by (is_success code))
replied_code p code host port b e =
    let f = reply-IsFramed p code host port b e in rw (f.is_code, f.bytes) refl

module _ {Ctx Pipe : Type 0} where
  -- The reply that is to come tells how the dial went.
  abbrev pub Waits : Talk → ServerSession Ctx Pipe → Type 0
  Waits granted s = Unit
  Waits (dialling true) s = (s.rejected ≡ false) × (s.failed ≡ false)
  Waits (dialling false) s = (s.rejected ≡ false) × (s.failed ≡ true) × (is_success s.rep ≡ false)
  Waits _ s = ⊥

  abbrev pub Stands : Phase → Talk → ServerSession Ctx Pipe → Type 0
  Stands greeting t s = t ≡ silent
  Stands auth t s = t ≡ challenged
  Stands auth_wait t s = (t ≡ challenged) ⊎ (t ≡ judged)
  Stands request t s = t ≡ granted
  Stands connect_wait t s = Waits t s
  Stands relay t s = Unit
  Stands closed t s = Unit

  -- The session is where the talk is.
  abbrev pub Fits : Talk → ServerSession Ctx Pipe → Type 0
  Fits t s = QueueFits t s.out × Stands s.state t s

  -- What an event may do at this point of the talk.
  abbrev pub Next : Talk → Yield Ctx Pipe → Type 0
  Next t (ok (send b), s) = (t' : Talk) × (message t b ≡ some t') × Fits t' s
  Next t (ok need_data, s) = Fits t s
  Next t (ok (authorize user password), s) = (t ≡ challenged) × (s.state ≡ auth_wait) × (s.out ≡ [])
  Next t (ok (connect cmd host port), s) =
      (t ≡ granted) × (s.state ≡ connect_wait) × (s.out ≡ []) × (s.failed ≡ false)
  Next t (ok (Event.relay host port), s) = can_relay t ≡ true
  Next t (ok (close reason), s) = Unit
  Next t (err e, s) = Unit

  module _ (t : Talk) where
    pub if-Next :
        (b : Bool) (x y : Yield Ctx Pipe) → Next t x → Next t y → Next t (if b then x else y)
    if-Next true x y h k = h
    if-Next false x y h k = k

    pub then-Next :
        (b : Bool) (x y : Yield Ctx Pipe) → b ≡ true → Next t x → Next t (if b then x else y)
    then-Next b x y e h = rw e h

    pub else-Next :
        (b : Bool) (x y : Yield Ctx Pipe) → b ≡ false → Next t y → Next t (if b then x else y)
    else-Next b x y e h = rw e h

    pub option-Next :
        {A : Type 0} (o : Option A) (x : Yield Ctx Pipe) (f : A → Yield Ctx Pipe)
        → Next t x
        → ((a : A) → Next t (f a))
        → Next t (elim o as (λ t. Yield Ctx Pipe) [ none ↦ x | some a ↦ f a ])
    option-Next none x f h k = h
    option-Next (some a) x f h k = k a

    pub emit-Next :
        (s : ServerSession Ctx Pipe) (r : Result Bytes) (es : List Event) (t' : Talk)
        → s.out ≡ []
        → ((b : Bytes) → r ≡ ok b → message t b ≡ some t')
        → QueueFits t' es
        → Stands s.state t' (record s { out = es })
        → Next t (emit_send s r es)
    unfolding emit_send emit
    emit-Next s (ok b) es t' o says q h = rw o (t', says b refl, (q, h))
    emit-Next s (err e) es t' o says q h = tt

    pub close-Next :
        (s : ServerSession Ctx Pipe) (r : CloseReason) → s.out ≡ [] → Next t (emit s (close r) [])
    unfolding emit
    close-Next s r o = rw o tt
