-- ===== src/Interop/Clients.antt =====
-- The staged and the optimistic clients of src/optisocks5/sync/client.py and aio/client.py, with the
-- same proxy.
use optisocks.Prelude.{
  ℕ, ℤ, pos, ◌≡◌, refl, sym, ap, ◌∙◌, true, Option, none, some, List, ◌++◌, Bytes, Text, ok,
  some_eq,
}
use optisocks.Codec.Platform.{Platform, IsInet}
use optisocks.Codec.Address.RoundTrip.{canonical}
use optisocks.Codec.Binding
use optisocks.Core.Types.{Reply}
use optisocks.Core.Session.{Session, returned, feed, leftover, fresh, optimistic_pipeline}
use optisocks.Core.Session.Handshake.{answers, feed-reply}
use optisocks.Client.Transport.{Link, stream}
use optisocks.Client.Transport.Exchange.{Takes, Exchange}
use optisocks.Client.Staged.{negotiate}
use optisocks.Client.Staged.Exchanged.{negotiate-Exchange-none, negotiate-Exchange-some}
use optisocks.Interop.{pipeline_open, pipeline_auth}

staged-reads :
    (p : Platform) (creds : Option (Text × Text)) (host bhost : Text) (port cmd : ℤ) (b r : Bytes)
    (c n : ℕ)
    → IsInet p
    → p.is_utf8 bhost ≡ true
    → optimistic_pipeline p (fresh creds) host port cmd ≡ ok b
    → Binding.reply p (pos c) bhost (pos n) ≡ ok r
    → (t : Text) × (out : List Bytes) × (canonical p bhost ≡ some t)
      × Exchange
          (negotiate p creds host port cmd)
          (answers creds r)
          (record { rep = c; host = t; port = n })
          out
staged-reads p none host bhost port cmd b r c n inet u h hr =
    let (q, made, whole) = pipeline_open p host port cmd h in
    let (t, can, x) = negotiate-Exchange-none p host bhost port cmd q r c n inet u made hr in
    (t, _, can, x)
staged-reads p (some (user, password)) host bhost port cmd b r c n inet u h hr =
    let (k, q, creds, made, whole) = pipeline_auth p user password host port cmd h in
    let (t, can, x) =
      negotiate-Exchange-some p host bhost port cmd q r c n inet u made hr user password k creds in
    (t, _, can, x)

pub answers-append :
    (creds : Option (Text × Text)) (r rest : Bytes)
    → answers creds r ++ rest ≡ answers creds (r ++ rest)
answers-append none r rest = refl
answers-append (some c) r rest = refl

-- A proxy that takes what is sent and answers with the accepting messages and a reply: cut into chunks
-- in any way, with any bytes behind the reply, the staged client and the optimistic session make the
-- same reply of its stream, with the code and the port that the proxy gave, and both leave exactly the
-- bytes behind the reply, the one on its connection, which still takes what is sent, the other as its
-- leftover. The client's own messages can be built, the host text in the reply is UTF-8, and the
-- conversions of addresses keep their laws.
pub negotiate-feed :
    (p : Platform) (creds : Option (Text × Text)) (host bhost : Text) (port cmd : ℤ)
    (b r rest : Bytes) (c n : ℕ) (l : Link)
    → IsInet p
    → p.is_utf8 bhost ≡ true
    → optimistic_pipeline p (fresh creds) host port cmd ≡ ok b
    → Binding.reply p (pos c) bhost (pos n) ≡ ok r
    → Takes l
    → stream l.incoming ≡ answers creds (r ++ rest)
    → (reply : Reply) × (l' : Link) × (s : Session) × (reply.rep ≡ c)
      × (reply.port ≡ n)
      × (negotiate p creds host port cmd l ≡ (ok reply, l'))
      × (stream l'.incoming ≡ rest)
      × Takes l'
      × (feed p (fresh creds) (stream l.incoming) ≡ (returned (some reply), s))
      × (leftover s ≡ rest)
negotiate-feed p creds host bhost port cmd b r rest c n l inet u h hr w e =
    let (t, out, can, x) = staged-reads p creds host bhost port cmd b r c n inet u h hr in
    let (l', ran, left, sent, w') = x.runs l rest w (e ∙ sym (answers-append creds r rest)) in
    let (t', s, can', fed, over) = feed-reply p creds c n bhost r rest inet u hr in
    let same : t' ≡ t = some_eq (sym can' ∙ can) in
    (
      record { rep = c; host = t; port = n },
      l',
      s,
      refl,
      refl,
      ran,
      left,
      w',
      ap (feed p (fresh creds)) e ∙ (rw same at fed),
      over,
    )
