-- ===== src/Client/Connect/Answered.antt =====
-- `connect` of the clients of src/optisocks5/sync/client.py and aio/client.py with a proxy that takes
-- what is sent and answers that the request succeeded.
use optisocks.Prelude.{
  some_eq, ℕ, ℤ, pos, ◌≡◌, ◌≢◌, true, refl, ap, ◌∙◌, Option, none, some, List, [], ◌∷◌, ◌++◌, Bytes,
  Text, Result, ok, err, arith,
}
use optisocks.Codec.Platform.{Platform, IsInet}
use optisocks.Codec.Binding
use optisocks.Core.Types.{Reply, is_ok}
use optisocks.Core.Session
use optisocks.Core.Session.{
  Session, Outcome, returned, feed, leftover, fresh, optimistic_pipeline, done, loop, turn,
  method_turn, auth_turn,
}
use optisocks.Core.Session.Handshake.{answers, feed-reply}
use optisocks.Client.Transport.{Arrival, Link, stream, sendall}
use optisocks.Client.Transport.Exchange.{Takes}
use optisocks.Client.Optimistic
use optisocks.Client.Optimistic.{await_reply}
use optisocks.Client.Optimistic.Stream.{replied, answered, await_reply-stream}
use optisocks.Client.Connect
use optisocks.Client.Connect.{
  Connected, Client, connect_with, connect_staged, connect_optimistic, settle, finish,
}
use optisocks.Interop.Clients.{negotiate-feed}

-- A client that was just made.
abbrev pub new : Option (Text × Text) → Client
new creds = record { creds = creds; sock = none; bound = none; leftover = [] }

fresh_ne_done : (creds : Option (Text × Text)) → (fresh creds).state ≢ done
fresh_ne_done none h = absurd (ground arith)
fresh_ne_done (some c) h = absurd (ground arith)

fresh_idle :
    (p : Platform) (creds : Option (Text × Text))
    → feed p (fresh creds) [] ≡ (returned none, fresh creds)
unfolding feed loop turn method_turn
fresh_idle p none = refl
fresh_idle p (some c) = refl

awaited :
    (x : Result (Reply × Bytes) × List Arrival) (r : Reply) (rest : Bytes)
    → replied x ≡ some (r, rest)
    → (kept : Bytes) × (more : List Arrival) × (x ≡ (ok (r, kept), more))
      × (kept ++ stream more ≡ rest)
awaited (ok (r', kept), more) r rest h =
    (kept, more, ap (λ t. (ok (t.0, kept), more)) (some_eq h), ap (λ t. t.1) (some_eq h))
awaited (err e, more) r rest h = absurd (ground arith)

negotiated :
    (p : Platform) (creds : Option (Text × Text)) (host : Text) (port cmd : ℤ) (b kept : Bytes)
    (l : Link) (reply : Reply) (more : List Arrival)
    → optimistic_pipeline p (fresh creds) host port cmd ≡ ok b
    → l.send_works l.sent ≡ true
    → await_reply p l.mode (fresh creds) l.incoming ≡ (ok (reply, kept), more)
    → Connect.optimistic p host port cmd (new creds) l
      ≡ (ok (reply, some kept), record l { incoming = more; sent = b ∷ l.sent })
unfolding Optimistic.negotiate sendall Session.init
negotiated p none host port cmd b kept l reply more h w e = rw (h, w, e)
negotiated p (some c) host port cmd b kept l reply more h w e = rw (h, w, e)

-- `connect` returned a reply that says `succeeded`; the client keeps the link, which still takes
-- what is sent, and of what was behind the reply, `kept` was read with it and the rest is to be
-- read.
pub record IsOpened (x : Connected) (kept rest : Bytes) : Type 0 where
  pub reply : Reply
  pub client : Client
  pub link : Link
  pub succeeds : reply.rep ≡ 0
  pub returns : x ≡ (ok reply, client, some link)
  pub keeps : client.sock ≡ some link
  pub takes : Takes link
  pub left : client.leftover ≡ kept
  pub divides : kept ++ stream link.incoming ≡ rest

-- What `connect` returns on a link whose stream is the accepting messages and a reply that says
-- `succeeded`, with any bytes behind it.
module _ (p : Platform) (creds : Option (Text × Text)) (host bhost : Text) (port cmd : ℤ)
    (b r rest : Bytes) (n : ℕ) (l : Link) (inet : IsInet p) (u : p.is_utf8 bhost ≡ true)
    (h : optimistic_pipeline p (fresh creds) host port cmd ≡ ok b)
    (hr : Binding.reply p (pos 0) bhost (pos n) ≡ ok r) (w : Takes l)
    (e : stream l.incoming ≡ answers creds (r ++ rest)) where
  finish_lem :
      (c : Client) (reply : Reply) (k : Link)
      → reply.rep ≡ 0
      → finish c k reply
        ≡ (ok reply, record c { sock = some k; bound = some (reply.host, reply.port) }, some k)
  unfolding finish is_ok
  finish_lem c reply k h = rw h

  -- The staged client has read nothing behind the reply.
  pub connect_staged-IsOpened : IsOpened (connect_staged p (new creds) (ok l) host port cmd) [] rest
  unfolding connect_staged connect_with settle
  connect_staged-IsOpened =
      let (reply, l', s, zero_rep, same_port, ran, left, takes, fed, over) =
        negotiate-feed p creds host bhost port cmd b r rest 0 n l inet u h hr w e in
      record {
        reply = reply;
        client = record (new creds) { sock = some l'; bound = some (reply.host, reply.port) };
        link = l';
        succeeds = zero_rep;
        returns = rw ran (finish_lem (new creds) reply l' zero_rep);
        keeps = refl;
        left = refl;
        takes = takes;
        divides = left;
      }

  pub connect_optimistic-IsOpened :
      (kept : Bytes) × IsOpened (connect_optimistic p (new creds) (ok l) host port cmd) kept rest
  unfolding connect_optimistic connect_with settle
  connect_optimistic-IsOpened =
      let (t, s, can, fed, over) = feed-reply p creds 0 n bhost r rest inet u hr in
      let reply : Reply = record { rep = 0; host = t; port = n } in
      let whole : replied (await_reply p l.mode (fresh creds) l.incoming)
          ≡ some (reply, leftover s) =
        await_reply-stream p l.mode (fresh creds) l.incoming (fresh_ne_done creds)
          (fresh_idle p creds)
        ∙ ap (λ t. answered (feed p (fresh creds) t)) e
        ∙ ap answered fed in
      let (kept, more, ran, parts) = awaited _ reply (leftover s) whole in
      let done_so = negotiated p creds host port cmd b kept l reply more h (w l.sent) ran in
      let k : Link = record l { incoming = more; sent = b ∷ l.sent } in
      (
        kept,
        record {
          reply = reply;
          client = record (new creds) { sock = some k; bound = some (t, n); leftover = kept };
          link = k;
          succeeds = refl;
          returns = rw done_so (finish_lem (record (new creds) { leftover = kept }) reply k refl);
          keeps = refl;
          left = refl;
          takes = w;
          divides = parts ∙ over;
        },
      )
