-- ===== src/Tests/Serving.antt =====
-- The drivers with the hooks of examples/server_metered.py at concrete inputs.
use optisocks.Prelude.{◌≡◌, refl, pos, none, true, [], ◌∷◌, List}
use optisocks.Server.Hooks.{World, Dial, Recv}
use optisocks.Server.Driver.{handle, handle_async}
use optisocks.Server.Driver.Admission.{vetted}
use optisocks.Server.Driver.Admission.Serving.{handle-vetted}
use optisocks.Server.Driver.Firewall.{all_allowed}
use optisocks.Server.Driver.Firewall.Dials.{handle-allowed}
use optisocks.Examples.Metered
use optisocks.Examples.Metered.Admitted.{
  hooks-guarded, hooks, is_known, is_open, authorize-Enforces, on_connect-Guards,
}
use optisocks.Tests.Inet.{toy}
use optisocks.Tests.Samples.{name}

abbrev world : World Metered.Pipe
world = record {
  send_works = λ log. true;
  dial = λ log e. Dial.opened name (pos 80);
  pipe_raises = λ log f. none;
}

-- The client offers credentials, sends those of alice, and asks for a connection.
abbrev incoming : List Recv
incoming =
    Recv.chunk (5 ∷ 1 ∷ 2 ∷ [])
    ∷ Recv.chunk (1 ∷ 5 ∷ 97 ∷ 108 ∷ 105 ∷ 99 ∷ 101 ∷ 2 ∷ 112 ∷ 119 ∷ [])
    ∷ Recv.chunk (5 ∷ 1 ∷ 0 ∷ 3 ∷ 2 ∷ 97 ∷ 98 ∷ 0 ∷ 80 ∷ [])
    ∷ []

handle-vetted_example :
    (vetted is_known (handle toy hooks world incoming).1 ≡ true)
    × (vetted is_known (handle_async toy hooks world incoming).1 ≡ true)
handle-vetted_example =
    handle-vetted toy is_known hooks world (λ s user password. Metered.authorize user password)
      incoming refl authorize-Enforces

handle-allowed_example :
    (all_allowed is_open (handle toy hooks world incoming).1 ≡ true)
    × (all_allowed is_open (handle_async toy hooks world incoming).1 ≡ true)
handle-allowed_example =
    handle-allowed toy is_open hooks world (λ s host port. Metered.on_connect host port) incoming
      refl on_connect-Guards

hooks-guarded_example :
    (vetted is_known (handle toy hooks world incoming).1 ≡ true)
    × (all_allowed is_open (handle toy hooks world incoming).1 ≡ true)
hooks-guarded_example = hooks-guarded toy world incoming
