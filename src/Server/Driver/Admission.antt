-- ===== src/Server/Driver/Admission.antt =====
-- The drivers of src/optisocks5/server/server.py and aio.py with an authorize hook: whom they serve.
pub mod Kept
pub mod Serving
use optisocks.Prelude.{
  ℕ, zero, suc, ℤ, pos, ◌≡◌, refl, ap, ◌∙◌, inl, inr, ◌⊎◌, Bool, true, false, ◌&&◌, ◌||◌, Option,
  none, some, List, [], ◌∷◌, Bytes, Text, ok, err, arith, if◌then◌else◌, Bool-cases,
}
use optisocks.Codec.Platform.{Platform}
use optisocks.Core.Types.{value, not_allowed}
use optisocks.Server.Events.{Event, send, need_data, authorize, connect, close}
use optisocks.Server.State.{ServerSession, init}
use optisocks.Server.Decisions
use optisocks.Server.Machine.{Yield, next_event}
use optisocks.Server.Machine.Early.{IsEarly, IsAsking, only_answers}
use optisocks.Server.Machine.Barred.{IsBarred, IsBarredYield, next_event-IsBarred}
use optisocks.Server.Hooks.{
  Decision, Verdict, Hooks, Dial, Action, World, Recv, dialled, asked, spliced, piped, apply,
  apply_all,
}
use optisocks.Server.Driver.{
  Conn, Exit, Round, goes_on, stops, did, on_send, on_need_data, on_authorize, dial_result, dial,
  run_hook, hooked, on_connect, run_pipe, on_relay, on_relay_async, on_next, cleanup, start, enough,
  loop, run, handle, handle_async,
}

-- Which credentials a hook may accept.
abbrev pub Policy : Type 0
Policy = Option Text → Option Text → Bool

module _ {Pipe : Type 0} (accepts : Policy) where
  -- The hook was asked about credentials that it accepts.
  abbrev pub has_passed : List (Action Pipe) → Bool
  has_passed [] = false
  has_passed (asked user password ∷ log) = accepts user password || has_passed log
  has_passed (_ ∷ log) = has_passed log

  -- Before every dial and every relaying it was.
  abbrev pub vetted : List (Action Pipe) → Bool
  vetted [] = true
  vetted (dialled to r ∷ log) = has_passed log && vetted log
  vetted (spliced ∷ log) = has_passed log && vetted log
  vetted (piped fn ∷ log) = has_passed log && vetted log
  vetted (_ ∷ log) = vetted log

pub and_true : {a b : Bool} → a ≡ true → b ≡ true → (a && b) ≡ true
and_true h k = ground arith

module _ {Ctx Pipe : Type 0} where
  -- The calls of a hook leave the phase and the queue alone.
  pub record IsUnmoved (s t : ServerSession Ctx Pipe) : Type 0 where
    pub state : t.state ≡ s.state
    pub require_auth : t.require_auth ≡ s.require_auth
    pub out : t.out ≡ s.out
    pub buf : t.buf ≡ s.buf

  apply-IsUnmoved : (s : ServerSession Ctx Pipe) (d : Decision Ctx Pipe) → IsUnmoved s (apply s d)
  unfolding apply Decisions.ok Decisions.reject Decisions.set_target Decisions.pipe
      Decisions.relay_raw Decisions.intercept
  apply-IsUnmoved s (Decision.ok ctx) = record {
    state = refl;
    require_auth = refl;
    out = refl;
    buf = refl;
  }
  apply-IsUnmoved s (Decision.reject rep) = record {
    state = refl;
    require_auth = refl;
    out = refl;
    buf = refl;
  }
  apply-IsUnmoved s (Decision.set_target host port) = record {
    state = refl;
    require_auth = refl;
    out = refl;
    buf = refl;
  }
  apply-IsUnmoved s (Decision.pipe fn) = record {
    state = refl;
    require_auth = refl;
    out = refl;
    buf = refl;
  }
  apply-IsUnmoved s Decision.relay_raw = record {
    state = refl;
    require_auth = refl;
    out = refl;
    buf = refl;
  }
  apply-IsUnmoved s (Decision.intercept fn) = record {
    state = refl;
    require_auth = refl;
    out = refl;
    buf = refl;
  }

  apply_all-IsUnmoved :
      (s : ServerSession Ctx Pipe) (ds : List (Decision Ctx Pipe)) → IsUnmoved s (apply_all s ds)
  unfolding apply_all
  apply_all-IsUnmoved s [] = record { state = refl; require_auth = refl; out = refl; buf = refl }
  apply_all-IsUnmoved s (d ∷ ds) =
      let i = apply-IsUnmoved s d in
      let j = apply_all-IsUnmoved (apply s d) ds in
      record {
        state = j.state ∙ i.state;
        require_auth = j.require_auth ∙ i.require_auth;
        out = j.out ∙ i.out;
        buf = j.buf ∙ i.buf;
      }

  pub run_hook-IsUnmoved :
      (s : ServerSession Ctx Pipe) (v : Verdict Ctx Pipe) (rep : ℤ) → IsUnmoved s (run_hook s v rep)
  unfolding run_hook Decisions.reject
  run_hook-IsUnmoved s v rep = by_raise v.raises (apply_all-IsUnmoved s v.calls)
    where
      by_raise :
          (b : Bool)
          → IsUnmoved s (apply_all s v.calls)
          → IsUnmoved s
              (if b then Decisions.reject (apply_all s v.calls) rep else apply_all s v.calls)
      by_raise true i = record {
        state = i.state;
        require_auth = i.require_auth;
        out = i.out;
        buf = i.buf;
      }
      by_raise false i = i

  unmoved-IsAsking : (s t : ServerSession Ctx Pipe) → IsUnmoved s t → IsAsking s → IsAsking t
  unmoved-IsAsking s t i (st, a, o) = (i.state ∙ st, i.require_auth ∙ a, ap only_answers i.out ∙ o)

-- The hook rejects what the policy does not accept: it leaves the session rejected, or raises.
abbrev pub Enforces :
    {Ctx Pipe : Type 0}
    → Policy
    → (ServerSession Ctx Pipe → Option Text → Option Text → Verdict Ctx Pipe)
    → Type 0
Enforces accepts hook =
    (s : _) (user password : Option Text)
    → accepts user password ≡ false
    → (run_hook s (hook s user password) (pos (value not_allowed))).rejected ≡ true
