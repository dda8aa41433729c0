-- ===== src/Tests/Witnesses.antt =====
-- The theorems at concrete inputs.
use optisocks.Prelude.{
  ℕ, pos, ◌≡◌, ◌≢◌, ◌≤◌, ◌⊎◌, refl, true, false, none, some, [], ◌∷◌, ◌++◌, Text, ok, All, IsByte,
  arith, length, os_error,
}
use optisocks.Codec.Address.RoundTrip.{canonical}
use optisocks.Codec.Binding.{parse_request, parse_reply, parse_userpass, udp_decapsulate}
use optisocks.Codec.Binding.RoundTrip.{
  IsFramed, parse_request-request, parse_reply-reply, request-IsFramed,
}
use optisocks.Codec.Binding.RoundTripOther.{
  parse_userpass-userpass_auth, udp_decapsulate-udp_encapsulate,
}
use optisocks.Core.Types
use optisocks.Core.Session.{Session, returned, diverges, feed, leftover, fresh}
use optisocks.Core.Session.Segments.{resume, feed-append, feed-ne-diverges}
use optisocks.Core.Session.Handshake.{answers, feed-reply}
use optisocks.Server.Events.{need_data}
use optisocks.Server.State
use optisocks.Server.State.{ServerSession}
use optisocks.Server.Decisions
use optisocks.Server.Machine.{next_event, step}
use optisocks.Server.Machine.Segments.{later, next_event-receive}
use optisocks.Server.Machine.Moves.{CanEnter, step-CanEnter}
use optisocks.Server.Machine.Bounds.{decided, room, reads, step-decided}
use optisocks.Server.Hooks.{Hooks, World, Recv, Dial}
use optisocks.Server.Driver.{exhausted, handle, handle_async}
use optisocks.Server.Driver.Teardown.{
  Calls, returns, raises, interrupted, spared, calm, handle_through, handle_async_through,
}
use optisocks.Server.Driver.Cleanup.{
  IsCleanedUp, handle_through-IsCleanedUp, handle_async_through-IsCleanedUp,
}
use optisocks.Server.Driver.Endings.{handle-ne-exhausted, handle_async-ne-exhausted}
use optisocks.Client.Transport.{Mode, Arrival, stream}
use optisocks.Client.Optimistic.{await_reply}
use optisocks.Client.Optimistic.Stream.{replied, answered, await_reply-stream}
use optisocks.Client.Transport.{Link, recv_exact, recv_loop}
use optisocks.Client.Transport.Exact.{length-recv_exact}
use optisocks.Client.Connect.{Client, connect_staged, connect_optimistic}
use optisocks.Client.Connect.Settling.{
  IsSettled, connect_staged-IsSettled, connect_optimistic-IsSettled,
}
use optisocks.Tests.Inet.{toy, toy-IsInet}
use optisocks.Tests.Samples
use optisocks.Tests.Samples.{
  name, pipeline, auth_pipeline, user, password, request_run, reply_run, pipeline_run,
  auth_pipeline_run, greeting_run, userpass_run, udp_run, name_run, fresh_state, fresh_idle,
}

-- The test session of a server: no context, and a number for a relay function.
abbrev Server : Type 0
Server = ServerSession ℕ ℕ

abbrev greeted : Server
greeted = record (State.init true) { buf = 5 ∷ 1 ∷ 2 ∷ [] }

abbrev half : Server
half = record {
  require_auth = false;
  buf = 5 ∷ 2 ∷ 0 ∷ [];
  state = State.greeting;
  out = [];
  ctx = none;
  cmd = 0;
  target = none;
  custom_pipe = none;
  intercepted = false;
  rejected = false;
  rep = pos 0;
  connected_bnd = none;
  failed = false;
  raw = false;
}

half_bytes : All IsByte half.buf
half_bytes = (omega arith, (omega arith, (omega arith, tt)))

feed-append_example :
    feed toy (fresh none) ((5 ∷ []) ++ (0 ∷ 5 ∷ []))
    ≡ resume toy (0 ∷ 5 ∷ []) (feed toy (fresh none) (5 ∷ []))
feed-append_example = feed-append toy (0 ∷ 5 ∷ []) (fresh none) (5 ∷ []) fresh_state

feed-ne-diverges_example : (feed toy (fresh none) (5 ∷ 0 ∷ 5 ∷ [])).0 ≢ diverges
feed-ne-diverges_example = feed-ne-diverges toy (fresh none) (5 ∷ 0 ∷ 5 ∷ [])

next_event-receive_example :
    (next_event toy half ≡ (ok need_data, half))
    ⊎ (next_event toy (Decisions.receive half (2 ∷ [])) ≡ later (2 ∷ []) (next_event toy half))
next_event-receive_example = next_event-receive toy (2 ∷ []) half half_bytes

step-CanEnter_example : CanEnter greeted (step toy greeted).1.state
step-CanEnter_example = step-CanEnter toy greeted

step-decided_example :
    (decided (step toy half).0 ≡ true)
    ⊎ (((step toy half).0 ≡ ok need_data)
        × (reads half.state ≡ true)
        × (length half.buf ≤ room half.state))
step-decided_example = step-decided toy half refl half_bytes

await_reply-stream_example :
    replied (
      await_reply toy Mode.blocking
        (fresh none)
        (Arrival.chunk (5 ∷ []) ∷ Arrival.chunk (0 ∷ []) ∷ []))
    ≡ answered
        (feed toy (fresh none) (stream (Arrival.chunk (5 ∷ []) ∷ Arrival.chunk (0 ∷ []) ∷ [])))
await_reply-stream_example =
    await_reply-stream toy Mode.blocking (fresh none)
      (Arrival.chunk (5 ∷ []) ∷ Arrival.chunk (0 ∷ []) ∷ []) fresh_state fresh_idle

feed-reply_example :
    (t : Text) × (s : Session) × (canonical toy name ≡ some t)
    × (feed toy
          (fresh (some (user, password)))
          (answers (some (user, password)) (Samples.replied ++ (9 ∷ [])))
        ≡ (returned (some (record { rep = 0; host = t; port = 80 })), s))
    × (leftover s ≡ 9 ∷ [])
feed-reply_example =
    feed-reply toy (some (user, password)) 0 80 name Samples.replied (9 ∷ []) toy-IsInet refl
      reply_run

quiet : Hooks ℕ ℕ
quiet = record { authorize = none; on_connect = none; on_disconnect = true }

world : World ℕ
world = record {
  send_works = λ log. true;
  dial = λ log e. Dial.opened name (pos 80);
  pipe_raises = λ log f. none;
}

handle-ne-exhausted_example :
    (handle toy quiet world (Recv.chunk pipeline ∷ Recv.chunk [] ∷ [])).0 ≢ exhausted
handle-ne-exhausted_example =
    handle-ne-exhausted toy quiet world (Recv.chunk pipeline ∷ Recv.chunk [] ∷ [])

handle_async-ne-exhausted_example :
    (handle_async toy quiet world (Recv.chunk pipeline ∷ Recv.broken ∷ [])).0 ≢ exhausted
handle_async-ne-exhausted_example =
    handle_async-ne-exhausted toy quiet world (Recv.chunk pipeline ∷ Recv.broken ∷ [])

parse_request-request_example :
    (t : Text) × (canonical toy name ≡ some t)
    × (parse_request toy ((5 ∷ 1 ∷ 0 ∷ 3 ∷ 2 ∷ 97 ∷ 98 ∷ 0 ∷ 80 ∷ []) ++ (9 ∷ []))
        ≡ ok (some (1, t, 80)))
parse_request-request_example =
    parse_request-request toy 1 80 name (5 ∷ 1 ∷ 0 ∷ 3 ∷ 2 ∷ 97 ∷ 98 ∷ 0 ∷ 80 ∷ []) (9 ∷ [])
      toy-IsInet refl request_run

parse_reply-reply_example :
    (t : Text) × (canonical toy name ≡ some t)
    × (parse_reply toy (Samples.replied ++ (9 ∷ [])) ≡ ok (some (0, t, 80)))
parse_reply-reply_example =
    parse_reply-reply toy 0 80 name Samples.replied (9 ∷ []) toy-IsInet refl reply_run

request-IsFramed_example :
    IsFramed toy (pos 1) name (pos 80) (5 ∷ 1 ∷ 0 ∷ 3 ∷ 2 ∷ 97 ∷ 98 ∷ 0 ∷ 80 ∷ [])
request-IsFramed_example =
    request-IsFramed toy (pos 1) name (pos 80) (5 ∷ 1 ∷ 0 ∷ 3 ∷ 2 ∷ 97 ∷ 98 ∷ 0 ∷ 80 ∷ [])
      request_run

parse_userpass-userpass_auth_example :
    parse_userpass toy ((1 ∷ 1 ∷ 117 ∷ 2 ∷ 112 ∷ 119 ∷ []) ++ (9 ∷ [])) ≡ ok (some (user, password))
parse_userpass-userpass_auth_example =
    parse_userpass-userpass_auth toy user password (1 ∷ 1 ∷ 117 ∷ 2 ∷ 112 ∷ 119 ∷ []) (9 ∷ []) refl
      refl userpass_run

udp_decapsulate-udp_encapsulate_example :
    (t : Text) × (canonical toy name ≡ some t)
    × (udp_decapsulate toy (0 ∷ 0 ∷ 0 ∷ 3 ∷ 2 ∷ 97 ∷ 98 ∷ 0 ∷ 80 ∷ 7 ∷ 8 ∷ [])
        ≡ ok (some (0, t, 80, 7 ∷ 8 ∷ [])))
udp_decapsulate-udp_encapsulate_example =
    udp_decapsulate-udp_encapsulate toy name 80 0 (7 ∷ 8 ∷ [])
      (0 ∷ 0 ∷ 0 ∷ 3 ∷ 2 ∷ 97 ∷ 98 ∷ 0 ∷ 80 ∷ 7 ∷ 8 ∷ []) toy-IsInet refl udp_run

proxy : Link
proxy = record {
  mode = Mode.blocking;
  incoming = Arrival.chunk (5 ∷ 0 ∷ []) ∷ Arrival.chunk Samples.replied ∷ [];
  sent = [];
  send_works = λ log. true;
  is_open = true;
}

abbrev client : Client
client = record { creds = none; sock = none; bound = none; leftover = [] }

connect_staged-IsSettled_example :
    IsSettled client (connect_staged toy client (ok proxy) name (pos 80) (pos Types.connect))
connect_staged-IsSettled_example =
    connect_staged-IsSettled toy client (ok proxy) name (pos 80) (pos Types.connect)

connect_optimistic-IsSettled_example :
    IsSettled client (connect_optimistic toy client (ok proxy) name (pos 80) (pos Types.connect))
connect_optimistic-IsSettled_example =
    connect_optimistic-IsSettled toy client (ok proxy) name (pos 80) (pos Types.connect)

abbrev two_chunks : Link
two_chunks = record {
  mode = Mode.blocking;
  incoming = Arrival.chunk (1 ∷ []) ∷ Arrival.chunk (2 ∷ 3 ∷ []) ∷ [];
  sent = [];
  send_works = λ log. true;
  is_open = true;
}

abbrev one_chunk : Link
one_chunk = record two_chunks { incoming = Arrival.chunk (3 ∷ []) ∷ [] }

two_chunks_run : recv_exact 2 two_chunks ≡ (ok (1 ∷ 2 ∷ []), one_chunk)
unfolding recv_exact recv_loop
two_chunks_run = refl

length-recv_exact_example :
    (length {A = ℕ} (1 ∷ 2 ∷ []) ≡ 2)
    × ((1 ∷ 2 ∷ []) ++ stream one_chunk.incoming ≡ stream two_chunks.incoming)
length-recv_exact_example = length-recv_exact 2 two_chunks one_chunk (1 ∷ 2 ∷ []) two_chunks_run

-- The client's close fails; and the hook is cancelled.
abbrev stuck : Calls
stuck = record {
  on_disconnect = returns;
  close_downstream = raises os_error;
  close_upstream = returns;
}

abbrev cancelled : Calls
cancelled = record calm { on_disconnect = interrupted }

handle_through-IsCleanedUp_example :
    IsCleanedUp quiet.on_disconnect stuck.on_disconnect stuck.close_downstream stuck.close_upstream
      (handle_through toy quiet world stuck (Recv.chunk pipeline ∷ Recv.chunk [] ∷ [])).1
handle_through-IsCleanedUp_example =
    handle_through-IsCleanedUp toy quiet world stuck (Recv.chunk pipeline ∷ Recv.chunk [] ∷ [])

handle_async_through-IsCleanedUp_example :
    IsCleanedUp quiet.on_disconnect cancelled.on_disconnect cancelled.close_downstream
      (spared cancelled.close_upstream)
      (handle_async_through toy quiet world cancelled (Recv.chunk pipeline ∷ Recv.broken ∷ [])).1
handle_async_through-IsCleanedUp_example =
    handle_async_through-IsCleanedUp toy quiet world cancelled
      (Recv.chunk pipeline ∷ Recv.broken ∷ [])
