-- ===== src/Cli/Outcomes.antt =====
-- How the subcommands of src/optisocks5/cli.py end.
use optisocks.Prelude.{
  ℕ, ℤ, pos, ◌≡◌, refl, ap, ◌∙◌, Bool, true, false, ◌&&◌, Option, none, some, [], ◌∷◌, Text, Exn,
  Result, ok, err, if◌then◌else◌,
}
use optisocks.Codec.Platform.{Platform}
use optisocks.Core.Types.{RepName, member, rep_name, rep_of, succeeded, is_ok}
use optisocks.Client.Transport.{Link}
use optisocks.Client.Connect.{Client, Connected}
use optisocks.Client.Connect.Settling.{
  IsSettled, connect_staged-IsSettled, connect_optimistic-IsSettled,
}
use optisocks.Cli.Target.{Python, Proxy, parse_proxy, split_target}
use optisocks.Cli.Commands.{
  Run, Ended, connected, handshake_failed, probed, verdict, Verdict, byte_exact, recv_per_phase,
  anomalous, unreachable, exits, bad_proxy, bad_target, escapes, client, handshake, is_caught,
  is_zero, with_target, with_client, report, cmd_connect, cmd_probe, attempt, both,
}
use optisocks.Cli.Raises.{
  IsUrlparse, IsSilent, value_passes, split_target-raises, parse_proxy-raises, init-raises,
  is_zero-eq,
}

-- What holds of every silent ending holds of the steps before the handshake.
with_client-runs :
    (Q : Run → Type 0) (q : Proxy) (body : Client → Run)
    → ((e : Exn) → is_caught e ≡ false → Q ([], escapes e))
    → ((c' : Client) → Q (body c'))
    → Q (with_client (client q) body)
with_client-runs Q q body h k = by_client (client q) refl
  where
    by_client : (c : Result Client) → client q ≡ c → Q (with_client c body)
    by_client (err e) at = h e (value_passes e (init-raises q.username q.password e at))
    by_client (ok c) at = k c

with_target-runs :
    (Q : Run → Type 0) (py : Python) (proxy target : Text) (body : Proxy → Text → ℤ → Run)
    → IsUrlparse py
    → ((e : Ended) → IsSilent py proxy target e → Q ([], e))
    → ((q : Proxy) (host : Text) (port : ℤ) → Q (body q host port))
    → Q (with_target py proxy target (pos 0) true body)
with_target-runs Q py proxy target body law silent go =
    by_proxy (parse_proxy py proxy) refl (split_target py target (pos 0)) refl
  where
    by_port :
        (t : Bool) (q : Proxy) (host : Text) (port : ℤ)
        → is_zero port ≡ t
        → split_target py target (pos 0) ≡ ok (host, port)
        → Q (if true && t then ([], bad_target) else body q host port)
    by_port true q host port z at =
        silent bad_target (host, at ∙ ap (λ n. ok (host, n)) (is_zero-eq port z))
    by_port false q host port z at = go q host port

    by_target :
        (q : Proxy) (t : Result (Text × ℤ))
        → split_target py target (pos 0) ≡ t
        → Q (elim t [
          | err e ↦ ([], escapes e)
          | ok (host, port) ↦ if true && is_zero port then ([], bad_target) else body q host port
        ])
    by_target q (err e) at =
        silent (escapes e) (value_passes e (split_target-raises py target (pos 0) e at))
    by_target q (ok (host, port)) at = by_port (is_zero port) q host port refl at

    by_proxy :
        (o : Result (Option Proxy))
        → parse_proxy py proxy ≡ o
        → (t : Result (Text × ℤ)) → split_target py target (pos 0) ≡ t
        → Q (elim o [
          | err e ↦ ([], escapes e)
          | ok none ↦ ([], bad_proxy)
          | ok (some q) ↦ elim t [
            | err e ↦ ([], escapes e)
            | ok (host, port) ↦ if true && is_zero port then ([], bad_target) else body q host port
          ]
        ])
    by_proxy (err e) found t at =
        silent (escapes e) (value_passes e (parse_proxy-raises py proxy e law found))
    by_proxy (ok none) found t at = silent bad_proxy found
    by_proxy (ok (some q)) found t at = by_target q t at

-- One line with the ending that fits it, or a run that prints nothing.
abbrev pub IsReported : Python → Text → Text → Bool → Option Exn → Run → Type 0
IsReported py proxy target staged close_raises ([], e) = IsSilent py proxy target e
IsReported py proxy target staged close_raises (connected s name host port ∷ [], exits n) =
    (s ≡ staged) × (name ≡ member succeeded) × (close_raises ≡ none) × (n ≡ 0)
IsReported py proxy target staged close_raises (connected s name host port ∷ [], escapes e) =
    (s ≡ staged) × (name ≡ member succeeded) × (close_raises ≡ some e)
IsReported py proxy target staged close_raises (handshake_failed s e ∷ [], exits n) =
    (s ≡ staged) × (is_caught e ≡ true) × (n ≡ 1)
IsReported py proxy target staged close_raises _ = ⊥

handshake-IsSettled :
    (p : Platform) (staged : Bool) (c : Client) (dial : Result Link) (host : Text) (port cmd : ℤ)
    → IsSettled c (handshake p staged c dial host port cmd)
unfolding handshake
handshake-IsSettled p true c dial host port cmd = connect_staged-IsSettled p c dial host port cmd
handshake-IsSettled p false c dial host port cmd =
    connect_optimistic-IsSettled p c dial host port cmd

report-IsReported :
    (py : Python) (proxy target : Text) (staged : Bool) (close_raises : Option Exn) (c : Client)
    (x : Connected)
    → IsSettled c x
    → IsReported py proxy target staged close_raises (report staged close_raises x.0)
unfolding is_ok rep_name rep_of
report-IsReported py proxy target staged none c (ok r, c', k) (h, more, kept, at) =
    rw h (refl, refl, refl, refl)
report-IsReported py proxy target staged (some e) c (ok r, c', k) (h, more, kept, at) =
    rw h (refl, refl, refl)
report-IsReported py proxy target staged close_raises c (err e, c', k) h =
    by_catch (is_caught e) refl
  where
    by_catch :
        (t : Bool)
        → is_caught e ≡ t
        → IsReported py proxy target staged close_raises
            (if t then (handshake_failed staged e ∷ [], exits 1) else ([], escapes e))
    by_catch true h = (refl, h, refl)
    by_catch false h = h

-- Whatever the arguments are, the proxy sends and the sockets do, `connect` ends in one of these
-- ways: it prints nothing and ends by the SystemExit for a proxy URL that has no host or no port, by
-- the one for a target whose port is 0 or missing, or by an exception that is neither an OSError nor
-- a Socks5Error; it prints the line of a completed handshake, with the reply `succeeded` and of the
-- chosen mode, and its exit status is 0, or if `client.close()` raises, that exception escapes; or it
-- prints the line of a failure, of an error that is an OSError or a Socks5Error, and its exit status
-- is 1. What `urlparse` and its `port` raise are ValueErrors.
pub cmd_connect-IsReported :
    (py : Python) (p : Platform) (proxy target : Text) (staged associate : Bool)
    (dial : Result Link) (close_raises : Option Exn)
    → IsUrlparse py
    → IsReported py proxy target staged close_raises
        (cmd_connect py p proxy target staged associate dial close_raises)
unfolding cmd_connect
cmd_connect-IsReported py p proxy target staged associate dial close_raises law =
    with_target-runs (IsReported py proxy target staged close_raises) py proxy target _ law
      (λ e h. h)
      λ q host port.
        with_client-runs (IsReported py proxy target staged close_raises) q _ (λ e h. h)
          λ c.
            report-IsReported py proxy target staged close_raises c _
              (handshake-IsSettled p staged c dial host port _)

-- What a line tells of a handshake.
abbrev pub IsCompleted : Result RepName → Type 0
IsCompleted (ok name) = name ≡ member succeeded
IsCompleted (err e) = is_caught e ≡ true

-- The verdict and the status that fit what was found.
abbrev pub Fits : Result RepName → Result RepName → Verdict → ℕ → Type 0
Fits (ok a) (ok b) v n = (v ≡ byte_exact) × (n ≡ 0)
Fits (err e) (ok b) v n = (v ≡ recv_per_phase) × (n ≡ 0)
Fits (ok a) (err e) v n = (v ≡ anomalous) × (n ≡ 0)
Fits (err e) (err e') v n = (v ≡ unreachable) × (n ≡ 1)

abbrev pub IsJudged : Python → Text → Text → Run → Type 0
IsJudged py proxy target ([], e) = IsSilent py proxy target e
IsJudged py proxy target (probed a optimistic ∷ probed b staged ∷ verdict v ∷ [], exits n) =
    (a ≡ false)
    × (b ≡ true)
    × IsCompleted optimistic
    × IsCompleted staged
    × Fits optimistic staged v n
IsJudged py proxy target _ = ⊥

-- What is kept of an attempt is a completed handshake or an error that was caught; what escapes is
-- not to be caught.
abbrev IsKept : Result (Result RepName) → Type 0
IsKept (err e) = is_caught e ≡ false
IsKept (ok o) = IsCompleted o

attempt-IsKept : (c : Client) (x : Connected) → IsSettled c x → IsKept (attempt x.0)
unfolding is_ok rep_name rep_of
attempt-IsKept c (ok r, c', k) (h, more, kept, at) = rw h refl
attempt-IsKept c (err e, c', k) h = by_catch (is_caught e) refl
  where
    by_catch : (t : Bool) → is_caught e ≡ t → IsKept (if t then ok (err e) else err e)
    by_catch true h = h
    by_catch false h = h

both-IsJudged :
    (py : Python) (proxy target : Text) (o s : Result (Result RepName))
    → IsKept o
    → IsKept s
    → IsJudged py proxy target (both o s)
both-IsJudged py proxy target (err e) s h k = h
both-IsJudged py proxy target (ok o) (err e) h k = k
both-IsJudged py proxy target (ok (ok a)) (ok (ok b)) h k = (refl, refl, h, k, (refl, refl))
both-IsJudged py proxy target (ok (ok a)) (ok (err e)) h k = (refl, refl, h, k, (refl, refl))
both-IsJudged py proxy target (ok (err e)) (ok (ok b)) h k = (refl, refl, h, k, (refl, refl))
both-IsJudged py proxy target (ok (err e)) (ok (err e')) h k = (refl, refl, h, k, (refl, refl))

-- Whatever the arguments are, the proxy sends and the sockets do, `probe` prints nothing and ends by
-- the SystemExit for a proxy URL that has no host or no port, by the one for a target whose port is 0
-- or missing, or by an exception that is neither an OSError nor a Socks5Error; or it prints three
-- lines, of the optimistic handshake, of the staged one and of the verdict; a handshake is there as
-- completed only with the reply `succeeded`, as failed only with an OSError or a Socks5Error; the
-- verdict is the one of the four that fits the two, and the exit status is 1 exactly when both
-- failed. What `urlparse` and its `port` raise are ValueErrors.
pub cmd_probe-IsJudged :
    (py : Python) (p : Platform) (proxy target : Text) (dial dial' : Result Link)
    → IsUrlparse py
    → IsJudged py proxy target (cmd_probe py p proxy target dial dial')
unfolding cmd_probe
cmd_probe-IsJudged py p proxy target dial dial' law =
    with_target-runs (IsJudged py proxy target) py proxy target _ law (λ e h. h)
      λ q host port.
        with_client-runs (IsJudged py proxy target) q _ (λ e h. h)
          λ c.
            both-IsJudged py proxy target _ _
              (attempt-IsKept c _ (handshake-IsSettled p false c dial host port _))
              (attempt-IsKept c _ (handshake-IsSettled p true c dial' host port _))
