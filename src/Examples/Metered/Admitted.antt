-- ===== src/Examples/Metered/Admitted.antt =====
-- The server of examples/server_metered.py: whom it serves, and what it dials for them.
use optisocks.Prelude.{
  pos, some_eq, ◌≡◌, ◌∙◌, refl, sym, true, false, Bool, Bool-cases, inl, inr, not, none, some,
  Option-cases, List, arith, equal,
}
use optisocks.Codec.Platform.{Platform}
use optisocks.Server.State.{Endpoint}
use optisocks.Server.Decisions
use optisocks.Server.Hooks.{Hooks, World, Recv, apply, apply_all}
use optisocks.Server.Driver.{run_hook, handle}
use optisocks.Server.Driver.Admission.{Policy, vetted, Enforces}
use optisocks.Server.Driver.Admission.Serving.{handle-vetted}
use optisocks.Server.Driver.Firewall.{all_allowed, Guards}
use optisocks.Server.Driver.Firewall.Dials.{handle-allowed}
use optisocks.Examples.Metered.{Context, Pipe, get, or_empty, authorize, metadata_host, on_connect}

-- The decorated functions.
abbrev pub hooks : Hooks Context Pipe
hooks = record {
  authorize = some (λ s user password. authorize user password);
  on_connect = some (λ s host port. on_connect host port);
  on_disconnect = true;
}

-- The users in the store.
abbrev pub is_known : Policy
is_known user password = elim (get (or_empty user) (or_empty password)) [
  | none ↦ false
  | some uid ↦ true
]

abbrev pub is_open : Endpoint → Bool
is_open (host, port) = not (equal host metadata_host)

pub authorize-Enforces :
    Enforces {Ctx = Context} {Pipe = Pipe} is_known (λ s user password. authorize user password)
unfolding authorize run_hook apply_all apply Decisions.reject
authorize-Enforces s user password h =
    elim (Option-cases (get (or_empty user) (or_empty password))) [
      | inl e ↦ rw (authorize, e) refl
      | inr (uid, e) ↦ absurd (ground arith)
    ]

pub on_connect-Guards :
    Guards {Ctx = Context} {Pipe = Pipe} is_open (λ s host port. on_connect host port)
unfolding on_connect run_hook apply_all apply Decisions.reject Decisions.pipe
on_connect-Guards s host port to t r i e = elim (Bool-cases (equal host metadata_host)) [
  | inl same ↦ absurd (ground arith)
  | inr other ↦
      let same : (host, pos port) ≡ to = some_eq (sym t ∙ (rw (on_connect, other) at e)) in
      rw (← same, other) refl
]

-- Whatever clients send and the sockets do, the metered server dials and relays only after a client
-- gave the credentials of a user in its store, and it never dials the metadata host by this name.
pub hooks-guarded :
    (p : Platform) (w : World Pipe) (incoming : List Recv)
    → (vetted is_known (handle p hooks w incoming).1 ≡ true)
      × (all_allowed is_open (handle p hooks w incoming).1 ≡ true)
hooks-guarded p w incoming = (
  (handle-vetted p is_known hooks w _ incoming refl authorize-Enforces).0,
  (handle-allowed p is_open hooks w _ incoming refl on_connect-Guards).0,
)
