-- ===== src/Tests/Scripts.antt =====
-- The scripts of examples/ at concrete inputs.
use optisocks.Prelude.{◌≡◌, refl, pos, true, none, List, [], ◌∷◌, ◌++◌, Text, ok, codes, All}
use optisocks.Core.Types
use optisocks.Client.Transport.{Link}
use optisocks.Client.Connect.{connect_optimistic}
use optisocks.Client.Connect.Answered.{new}
use optisocks.Cli.Commands.{cmd_fetch}
use optisocks.Examples.Curl.{main, without_flag, has_flag}
use optisocks.Examples.Curl.Fetched.{as_fetch, main-cmd_fetch}
use optisocks.Examples.Async.{optimistic_connect}
use optisocks.Examples.Async.Alike.{IsTimely, Alike, optimistic_connect-Alike}
use optisocks.Tests.Inet.{toy}
use optisocks.Tests.Samples.{name}
use optisocks.Tests.Running.{link, python, proxy, proxy_run, client_run, page_run, bare_run}

abbrev argv : List Text
argv = codes "p" ∷ codes "--staged" ∷ (name ++ codes "/x") ∷ []

argv_run : without_flag argv ≡ codes "p" ∷ (name ++ codes "/x") ∷ []
unfolding without_flag
argv_run = refl

main-cmd_fetch_example :
    as_fetch (main python toy argv (λ t. ok t) (ok link))
    ≡ cmd_fetch python toy (codes "p") (name ++ codes "/x") (has_flag argv) (λ t. ok t) (ok link)
main-cmd_fetch_example =
    main-cmd_fetch python toy argv [] (codes "p") (name ++ codes "/x") name (codes "x") true proxy
      (new none) (λ t. ok t) (ok link) argv_run proxy_run client_run page_run bare_run

link-IsTimely : (l : Link) → ok link ≡ ok l → All IsTimely l.incoming
link-IsTimely l e = let same : link ≡ l = cc in rw (← same) (tt, (tt, tt))

optimistic_connect-Alike_example :
    Alike
      (optimistic_connect toy none none (ok link) name (pos 80))
      (connect_optimistic toy (new none) (ok link) name (pos 80) (pos Types.connect))
optimistic_connect-Alike_example =
    optimistic_connect-Alike toy none name (pos 80) (ok link) link-IsTimely
