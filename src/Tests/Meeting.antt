-- ===== src/Tests/Meeting.antt =====
-- Whole connections at concrete inputs: a client with credentials, whose pipeline is cut into pieces.
use optisocks.Prelude.{
  ℕ, pos, ◌≡◌, refl, inl, true, false, Option, none, some, List, [], ◌∷◌, ◌++◌, Text, All, IsByte,
  arith, some_eq, Bytes, ok,
}
use optisocks.Codec.Address.RoundTrip.{canonical}
use optisocks.Core.Session.{Session, returned, feed, leftover, fresh}
use optisocks.Server.State.{ServerSession}
use optisocks.Server.Hooks.{Verdict, Decision, Hooks, World, Dial, Action, Recv, sent, dialled}
use optisocks.Server.Driver.{left, handle, handle_async}
use optisocks.Server.Driver.Streams.{IsBlind, heard}
use optisocks.Server.Driver.Grammar.Turns.{IsSaid}
use optisocks.Server.Driver.Grammar.Runs.{handle-IsSaid}
use optisocks.Interop.Driven.Staged.{handle-negotiate}
use optisocks.Client.Staged.{negotiate}
use optisocks.Client.Transport.{Link, Mode, Arrival, stream}
use optisocks.Core.Types
use optisocks.Interop.Driven.{course, written, greeted, ending, sent_by}
use optisocks.Interop.Driven.Served.{handle-feed}
use optisocks.Tests.Inet.{toy, toy-IsInet}
use optisocks.Tests.Samples.{
  name, user, password, replied, auth_pipeline, auth_pipeline_run, reply_run, name_run,
  userpass_run, request_run,
}

-- An authorize hook that accepts everyone.
abbrev accept : ServerSession ℕ ℕ → Option Text → Option Text → Verdict ℕ ℕ
accept s u q = record { calls = Decision.ok (some 1) ∷ []; raises = false }

abbrev hooks : Hooks ℕ ℕ
hooks = record { authorize = some accept; on_connect = none; on_disconnect = true }

abbrev world : World ℕ
world = record {
  send_works = λ log. true;
  dial = λ log e. Dial.opened name (pos 80);
  pipe_raises = λ log f. none;
}

-- The pipeline with one more byte behind it, in three pieces, and then the end of the stream.
abbrev pieces : List Recv
pieces =
    Recv.chunk (5 ∷ 1 ∷ [])
    ∷ Recv.chunk (2 ∷ 1 ∷ 1 ∷ 117 ∷ 2 ∷ 112 ∷ 119 ∷ 5 ∷ 1 ∷ 0 ∷ 3 ∷ 2 ∷ [])
    ∷ Recv.chunk (97 ∷ 98 ∷ 0 ∷ 80 ∷ 9 ∷ [])
    ∷ Recv.chunk []
    ∷ []

abbrev one_piece : List Recv
one_piece = Recv.chunk (auth_pipeline ++ (9 ∷ [])) ∷ Recv.broken ∷ []

same_verdict :
    (hook : ServerSession ℕ ℕ → Option Text → Option Text → Verdict ℕ ℕ)
    → some accept ≡ some hook
    → (s s' : ServerSession ℕ ℕ) (u q : Option Text) → hook s u q ≡ hook s' u q
same_verdict hook e s s' u q = rw (← some_eq e) refl

hooks-IsBlind : IsBlind hooks
hooks-IsBlind = record {
  authorize = λ hook e s d u q. same_verdict hook e _ _ u q;
  on_connect = λ hook e s d host port. absurd (cc);
}

pieces_bytes : All IsByte (heard pieces)
pieces_bytes = omega arith

handle-feed_example :
    (log : List (Action ℕ)) × (bt : Text) × (s : Session) × (log
      ≡ ending true (Dial.opened name (pos 80)) (
          sent replied
          ∷ dialled (name, pos 80) (Dial.opened name (pos 80))
          ∷ greeted (some (user, password))))
    × (handle toy hooks world pieces ≡ (left, log))
    × (handle_async toy hooks world pieces ≡ (left, log))
    × (canonical toy name ≡ some bt)
    × (feed toy (fresh (some (user, password))) (sent_by log ++ (7 ∷ []))
        ≡ (returned (some (record { rep = 0; host = bt; port = 80 })), s))
    × (leftover s ≡ 7 ∷ [])
handle-feed_example =
    handle-feed toy hooks world pieces (some (user, password)) name name name 80 0 80
      (Dial.opened name (pos 80)) auth_pipeline (9 ∷ []) replied (7 ∷ []) toy-IsInet (refl, refl)
      refl refl name_run auth_pipeline_run refl pieces_bytes hooks-IsBlind
      (accept, refl, λ s. (some 1, refl)) (inl refl) (λ log. refl) (λ log. refl) refl reply_run

handle-IsSaid_example :
    IsSaid (handle toy hooks world pieces).1 × IsSaid (handle_async toy hooks world pieces).1
handle-IsSaid_example = handle-IsSaid toy hooks world pieces

-- The messages of the staged client with these credentials, in two pieces.
abbrev staged_pieces : List Recv
staged_pieces =
    Recv.chunk (5 ∷ 2 ∷ 2 ∷ 0 ∷ 1 ∷ 1 ∷ 117 ∷ [])
    ∷ Recv.chunk (2 ∷ 112 ∷ 119 ∷ 5 ∷ 1 ∷ 0 ∷ 3 ∷ 2 ∷ 97 ∷ 98 ∷ 0 ∷ 80 ∷ [])
    ∷ []

abbrev creds_message : Bytes
creds_message = 1 ∷ 1 ∷ 117 ∷ 2 ∷ 112 ∷ 119 ∷ []

abbrev request_message : Bytes
request_message = 5 ∷ 1 ∷ 0 ∷ 3 ∷ 2 ∷ 97 ∷ 98 ∷ 0 ∷ 80 ∷ []

abbrev log : List (Action ℕ)
log = course true (Dial.opened name (pos 80)) replied name 80 (some (user, password))

-- The client reads the server's answers in two pieces, and a byte of the tunnel behind them.
abbrev link : Link
link = record {
  mode = Mode.asyncio;
  incoming =
      Arrival.chunk (5 ∷ 2 ∷ 1 ∷ [])
      ∷ Arrival.chunk (0 ∷ 5 ∷ 0 ∷ 0 ∷ 3 ∷ 2 ∷ 97 ∷ 98 ∷ 0 ∷ 80 ∷ 7 ∷ [])
      ∷ [];
  sent = [];
  send_works = λ log. true;
  is_open = true;
}

handle-negotiate_example :
    (bt : Text) × (l' : Link) × (canonical toy name ≡ some bt)
    × (handle toy hooks world staged_pieces ≡ (left, log))
    × (handle_async toy hooks world staged_pieces ≡ (left, log))
    × (negotiate toy (some (user, password)) name (pos 80) (pos Types.connect) link
        ≡ (ok (record { rep = 0; host = bt; port = 80 }), l'))
    × (l'.sent ≡ written (some (user, password)) creds_message request_message ++ [])
    × (stream l'.incoming ≡ 7 ∷ [])
handle-negotiate_example =
    handle-negotiate toy hooks world staged_pieces link (some (user, password)) name name name 80 0
      80 (Dial.opened name (pos 80)) creds_message request_message replied [] (7 ∷ []) toy-IsInet
      (refl, refl) refl refl name_run userpass_run request_run refl (omega arith) hooks-IsBlind
      (accept, refl, λ s. (some 1, refl)) (inl refl) (λ log. refl) (λ log. refl) refl reply_run
      (λ log. refl) refl
