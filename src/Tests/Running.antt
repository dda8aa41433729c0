-- ===== src/Tests/Running.antt =====
-- The clients, the command line and the selector example at concrete inputs.
use optisocks.Prelude.{
  ℕ, ℤ, pos, Result, ap, ◌≡◌, ◌++◌, refl, true, false, none, some, Option, List, [], ◌∷◌, ok, err,
  value_error, os_error, codes, take, length, All, arith,
}
use optisocks.Codec.Address.{decode_address}
use optisocks.Codec.Messages
use optisocks.Codec.Binding
use optisocks.Core.Types
use optisocks.Core.Types.{Reply}
use optisocks.Core.Session
use optisocks.Core.Session.{
  Session, returned, feed, leftover, fresh, optimistic_pipeline, loop, turn, method_turn,
  reply_turn, reply_size, reply_arrived,
}
use optisocks.Client.Transport.{Mode, chunk, Link, stream}
use optisocks.Client.Transport.Exchange.{Takes}
use optisocks.Client.Staged.{negotiate}
use optisocks.Client.Connect.Answered.{new}
use optisocks.Client.Connect
use optisocks.Interop.Clients.{negotiate-feed}
use optisocks.Cli.Target.{Python, Url, Proxy, split_target, parse_proxy, count, partition, int_of}
use optisocks.Cli.Target.Forms.{Form, named, named_port, text, meant, split_target-text}
use optisocks.Cli.Commands
use optisocks.Cli.Commands.{cmd_connect, cmd_probe, probed, verdict, byte_exact, exits}
use optisocks.Cli.Raises.{IsUrlparse}
use optisocks.Cli.Outcomes.{IsReported, IsJudged, cmd_connect-IsReported, cmd_probe-IsJudged}
use optisocks.Cli.Probing.{cmd_probe-byte_exact}
use optisocks.Examples.Selector
use optisocks.Examples.Selector.{
  Pending, pending, Board, Ready, works, Standing, run, on_batch, on_ready, on_writable,
  on_readable, put,
}
use optisocks.Examples.Selector.Alone.{reports_on, all_reports}
use optisocks.Examples.Selector.Remaining.{AreBelow, waiting_below, run-remaining}
use optisocks.Examples.Selector.Sound.{IsFinished, received, run-IsFinished}
use optisocks.Tests.Inet.{toy, toy-IsInet}
use optisocks.Tests.Samples
use optisocks.Tests.Samples.{name, pipeline, pipeline_run, reply_run}

-- The answer of the proxy in two chunks, with a byte behind it.
abbrev pub link : Link
link = record {
  mode = Mode.blocking;
  incoming = chunk (5 ∷ 0 ∷ 5 ∷ []) ∷ chunk (0 ∷ 0 ∷ 3 ∷ 2 ∷ 97 ∷ 98 ∷ 0 ∷ 80 ∷ 9 ∷ []) ∷ [];
  sent = [];
  send_works = λ log. true;
  is_open = true;
}

negotiate-feed_example :
    (reply : Reply) × (l' : Link) × (s : Session) × (reply.rep ≡ 0)
    × (reply.port ≡ 80)
    × (negotiate toy none name (pos 80) (pos 1) link ≡ (ok reply, l'))
    × (stream l'.incoming ≡ 9 ∷ [])
    × Takes l'
    × (feed toy (fresh none) (stream link.incoming) ≡ (returned (some reply), s))
    × (leftover s ≡ 9 ∷ [])
negotiate-feed_example =
    negotiate-feed toy none name name (pos 80) (pos 1) pipeline Samples.replied (9 ∷ []) 0 80 link
      toy-IsInet refl pipeline_run reply_run (λ log. refl) refl

-- A Python whose `int` knows one number, and whose `urlparse` always finds one proxy.
abbrev pub python : Python
python = record {
  int = λ t. elim t [ [] ↦ none | c ∷ cs ↦ some (pos 80) ];
  urlparse = λ t.
      ok (record {
        hostname = some t;
        port = ok (some (pos 1080));
        username = none;
        password = none;
      });
  decode = λ t. t;
  first_line = λ t. t;
  strip = λ t. t;
}

abbrev form : Form
form = named_port name (codes "80")

split_target-text_example : split_target python (text form) (pos 443) ≡ meant python form (pos 443)
unfolding count
split_target-text_example = split_target-text python form (pos 443) (refl, refl, refl)

abbrev pub proxy : Proxy
proxy = record { host = codes "socks5://p"; port = pos 1080; username = none; password = none }

pub proxy_run : parse_proxy python (codes "p") ≡ ok (some proxy)
unfolding parse_proxy partition
proxy_run = refl

pub client_run : Commands.client proxy ≡ ok (new none)
unfolding Connect.init
client_run = refl

target_run : split_target python (text form) (pos 0) ≡ ok (name, pos 80)
unfolding count int_of
target_run = split_target-text python form (pos 0) (refl, refl, refl)

cmd_probe-byte_exact_example : cmd_probe python toy (codes "p") (text form) (ok link) (ok link) ≡ (
  probed false (ok (Types.member Types.succeeded))
      ∷ probed true (ok (Types.member Types.succeeded))
      ∷ verdict byte_exact
      ∷ [],
  exits 0,
)
cmd_probe-byte_exact_example =
    cmd_probe-byte_exact python toy (codes "p") (text form) proxy none name name (pos 80) pipeline
      Samples.replied (9 ∷ []) (9 ∷ []) 80 link link toy-IsInet refl proxy_run client_run target_run
      refl pipeline_run reply_run (λ log. refl) (λ log. refl) refl refl

-- The port in what `urlparse` gave, or the one that `python` always gives.
abbrev port_of : Result Url → Result (Option ℤ)
port_of (ok u) = u.port
port_of (err e) = ok (some (pos 1080))

python-IsUrlparse : IsUrlparse python
python-IsUrlparse = record {
  bad_url = λ t e h. cc;
  bad_port = λ t u e at h. let port : ok (some (pos 1080)) ≡ u.port = ap port_of at in cc;
}

cmd_connect-IsReported_example :
    IsReported python
      (codes "p")
      (text form)
      true
      none
      (cmd_connect python toy (codes "p") (text form) true false (ok link) none)
cmd_connect-IsReported_example =
    cmd_connect-IsReported python toy (codes "p") (text form) true false (ok link) none
      python-IsUrlparse

cmd_probe-IsJudged_example :
    IsJudged python
      (codes "p")
      (text form)
      (cmd_probe python toy (codes "p") (text form) (ok link) (err value_error))
cmd_probe-IsJudged_example =
    cmd_probe-IsJudged python toy (codes "p") (text form) (ok link) (err value_error)
      python-IsUrlparse

abbrev begun : Pending
begun = record { sess = fresh none; pipeline = pipeline; sent = 0; reply = none; wire = [] }

begun_run : pending toy name (pos 80) none none ≡ ok begun
unfolding pending Session.init
begun_run = rw pipeline_run refl

-- The socket 3 of several, the others of which have failed.
abbrev board : Board
board = put (λ i. Selector.failed os_error) 3 (Selector.waiting begun)

-- The pipeline goes out in two sends, the answer arrives in two parts, and another socket is reported
-- in between.
abbrev log : List (List (ℕ × Ready))
log =
    ((3, works 5 []) ∷ [])
    ∷ ((3, works 100 []) ∷ [])
    ∷ ((3, works 0 (5 ∷ 0 ∷ 5 ∷ [])) ∷ (4, Selector.fails) ∷ [])
    ∷ ((3, works 0 (0 ∷ 0 ∷ 3 ∷ 2 ∷ 97 ∷ 98 ∷ 0 ∷ 80 ∷ 9 ∷ [])) ∷ [])
    ∷ []

abbrev reply : Reply
reply = record { rep = 0; host = name; port = 80 }

-- Where the socket 3 stands after each of its reports.
abbrev part : Pending
part = record {
  sess = fresh none;
  pipeline = pipeline;
  sent = 5;
  reply = none;
  wire = take 5 pipeline;
}

abbrev written : Pending
written = record {
  sess = fresh none;
  pipeline = pipeline;
  sent = 12;
  reply = none;
  wire = pipeline;
}

abbrev asked : Pending
asked = record written { sess = record (fresh none) { buf = 5 ∷ []; state = Session.reply } }

abbrev closed : Pending
closed = record written {
  sess = record (fresh none) { buf = 9 ∷ []; state = Session.done; answer = some reply };
  reply = some reply;
}

abbrev board' : Board
board' =
    put
      (put
        (put (put (put board 3 (Selector.waiting part)) 3 (Selector.waiting written)) 3
          (Selector.waiting asked))
        4 (Selector.failed os_error))
      3 (Selector.finished closed reply)

whole_run : run toy board 1 log ≡ some (board', 0)
unfolding run on_batch on_ready on_writable on_readable feed loop turn method_turn reply_turn
    Messages.parse_method_selection reply_size reply_arrived Binding.parse_reply
    Messages.parse_reply decode_address
whole_run = refl

run-IsFinished_example :
    (s0 : Session) × (first rest : List Ready) × (Session.init none none ≡ ok s0)
    × (reports_on 3 (all_reports log) ≡ first ++ rest)
    × IsFinished toy s0 begun.pipeline (received (length begun.pipeline) first) closed reply
run-IsFinished_example =
    run-IsFinished toy name (pos 80) none none begun closed reply board board' 1 0 log 3 begun_run
      refl whole_run refl

log-AreBelow : All (AreBelow 5) log
log-AreBelow = (
  (omega arith, tt),
  ((omega arith, tt), ((omega arith, (omega arith, tt)), ((omega arith, tt), tt))),
)

run-remaining_example : 0 ≡ waiting_below 5 board'
run-remaining_example = run-remaining toy 5 board board' 1 0 log log-AreBelow refl whole_run

pub page_run : partition (codes "/") (name ++ codes "/x") ≡ (name, true, codes "x")
unfolding partition
page_run = refl

pub bare_run : split_target python name (pos 80) ≡ ok (name, pos 80)
unfolding count
bare_run = split_target-text python (named name) (pos 80) (refl, refl)
