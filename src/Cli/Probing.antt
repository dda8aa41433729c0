-- ===== src/Cli/Probing.antt =====
-- `cmd_probe` of src/optisocks5/cli.py with a proxy that reads and answers exactly.
use optisocks.Prelude.{
  ℕ, ℤ, pos, ◌≡◌, ap, refl, true, false, Option, some, [], ◌∷◌, ◌++◌, Bytes, Text, Result, ok,
}
use optisocks.Codec.Platform.{Platform, IsInet}
use optisocks.Codec.Binding
use optisocks.Core.Types
use optisocks.Core.Types.{Reply, Rep, member, rep_name, rep_of, succeeded}
use optisocks.Core.Session.{fresh, optimistic_pipeline}
use optisocks.Core.Session.Handshake.{answers}
use optisocks.Client.Transport.{Link, stream}
use optisocks.Client.Transport.Exchange.{Takes}
use optisocks.Client.Connect.Answered.{new, connect_staged-IsOpened, connect_optimistic-IsOpened}
use optisocks.Cli.Target.{Python, Proxy, parse_proxy, split_target}
use optisocks.Cli.Commands.{
  probed, verdict, byte_exact, exits, client, handshake, is_zero, cmd_probe, attempt, with_target,
}

attempt-ok :
    (x : Result Reply) (r : Reply) → r.rep ≡ 0 → x ≡ ok r → attempt x ≡ ok (ok (member succeeded))
unfolding rep_name rep_of
attempt-ok x r zero_rep e = rw (e, zero_rep) refl

-- Where both connections that `probe` opens take what is sent and carry the accepting messages, the
-- same reply, which says `succeeded`, and then anything, each cut into chunks in any way, it prints
-- both handshakes as completed and the verdict byte-exact, and its exit status is 0. The arguments
-- are read as a proxy with both credentials or with neither, and a target with a port other than 0;
-- the client's own messages can be built, the host text in the reply is UTF-8, and the conversions
-- of addresses keep their laws.
pub cmd_probe-byte_exact :
    (py : Python) (p : Platform) (proxy target : Text) (q : Proxy) (creds : Option (Text × Text))
    (host bhost : Text) (port : ℤ) (b r rest rest' : Bytes) (n : ℕ) (l l' : Link)
    → IsInet p
    → p.is_utf8 bhost ≡ true
    → parse_proxy py proxy ≡ ok (some q)
    → client q ≡ ok (new creds)
    → split_target py target (pos 0) ≡ ok (host, port)
    → is_zero port ≡ false
    → optimistic_pipeline p (fresh creds) host port (pos Types.connect) ≡ ok b
    → Binding.reply p (pos 0) bhost (pos n) ≡ ok r
    → Takes l
    → Takes l'
    → stream l.incoming ≡ answers creds (r ++ rest)
    → stream l'.incoming ≡ answers creds (r ++ rest')
    → cmd_probe py p proxy target (ok l) (ok l') ≡ (
      probed false (ok (member succeeded))
          ∷ probed true (ok (member succeeded))
          ∷ verdict byte_exact
          ∷ [],
      exits 0,
    )
unfolding cmd_probe handshake
cmd_probe-byte_exact py p proxy target q creds host bhost port b r rest rest' n l l' inet u hq hc ht
      hz h hr w w' e e' =
    let (kept, o) =
      connect_optimistic-IsOpened p creds host bhost port (pos Types.connect) b r rest n l inet u h
        hr w e in
    let s =
      connect_staged-IsOpened p creds host bhost port (pos Types.connect) b r rest' n l' inet u h hr
        w' e' in
    rw
      (
        cmd_probe,
        with_target,
        hq,
        ht,
        hz,
        hc,
        handshake,
        attempt-ok _ o.reply o.succeeds (ap (λ t. t.0) o.returns),
        attempt-ok _ s.reply s.succeeds (ap (λ t. t.0) s.returns),
      )
      refl
