-- ===== src/Interop/Driven/Staged.antt =====
-- The staged clients of src/optisocks5/sync/client.py and aio/client.py, and `_handle` of
-- src/optisocks5/server/server.py and aio.py.
use optisocks.Prelude.{
  ℕ, pos, ◌≡◌, refl, sym, ◌∙◌, inr, true, Option, none, some, List, [], ◌∷◌, ◌++◌, Bytes, Text, ok,
  All, IsByte,
}
use optisocks.Codec.Platform.{Platform, IsInet}
use optisocks.Codec.Address.RoundTrip.{canonical}
use optisocks.Codec.Binding
use optisocks.Core.Types
use optisocks.Core.Types.{Reply, no_auth, userpass}
use optisocks.Core.Session.Handshake.{answers}
use optisocks.Server.Hooks.{Hooks, World, Dial, Action, Recv}
use optisocks.Server.Driver.{left, on_relay, on_relay_async, handle, handle_async}
use optisocks.Server.Driver.Streams.{IsBlind, heard}
use optisocks.Server.Driver.Streams.Handled.{handle-Ends, handle_async-Ends}
use optisocks.Client.Transport.{Link, stream}
use optisocks.Client.Transport.Exchange.{Takes, Exchange}
use optisocks.Client.Staged.{negotiate}
use optisocks.Client.Staged.Exchanged.{negotiate-Exchange-none, negotiate-Exchange-some}
use optisocks.Interop.Clients.{answers-append}
use optisocks.Interop.Driven.{
  Speaks, answer_to, AreUtf8, Allows, Welcomes, course, sent_by, written, joined, Writes,
}
use optisocks.Interop.Driven.Spoken.{Serves-run}
use optisocks.Interop.Driven.Sent.{on_relay-spliced, on_relay_async-spliced, sent_by-answers}

written-Speaks :
    (p : Platform) (creds : Option (Text × Text)) (host : Text) (n : ℕ) (c q : Bytes)
    → Writes creds c
    → Binding.request p (pos Types.connect) host (pos n) ≡ ok q
    → Speaks p creds host n (joined (written creds c q))
written-Speaks p none host n c q h made = (q, made, refl)
written-Speaks p (some (user, password)) host n c q h made =
    (0x05 ∷ 2 ∷ userpass ∷ no_auth ∷ [], c, q, inr refl, h, made, refl)

negotiate-written :
    (p : Platform) (creds : Option (Text × Text)) (host bhost : Text) (n code bn : ℕ)
    (c q r : Bytes)
    → IsInet p
    → p.is_utf8 bhost ≡ true
    → Writes creds c
    → Binding.request p (pos Types.connect) host (pos n) ≡ ok q
    → Binding.reply p (pos code) bhost (pos bn) ≡ ok r
    → (t : Text) × (canonical p bhost ≡ some t)
      × Exchange
          (negotiate p creds host (pos n) (pos Types.connect))
          (answers creds r)
          (record { rep = code; host = t; port = bn })
          (written creds c q)
negotiate-written p none host bhost n code bn c q r inet u h made hr =
    negotiate-Exchange-none p host bhost (pos n) (pos Types.connect) q r code bn inet u made hr
negotiate-written p (some (user, password)) host bhost n code bn c q r inet u h made hr =
    negotiate-Exchange-some p host bhost (pos n) (pos Types.connect) q r code bn inet u made hr user
      password c h

-- A staged client and a server whose hooks call `ok` for its credentials, let the target be and do not
-- look into the session's buffer, where sends work on both sides and a dial of the target gives a
-- connection or an OSError: what each side sends is what the other one waits for. When both drivers
-- hear the client's messages, cut in any way and with anything behind them, they take the course that
-- fits the dial's result; and when the client's stream is what they then have sent, cut in any way and
-- with any bytes behind it, its negotiation sends exactly these messages and returns the reply with the
-- code of the dial's result and the canonical bound address, with the bytes behind it unread. The
-- messages and the reply can be built, the texts are UTF-8, and the conversions of addresses keep their
-- laws.
pub handle-negotiate :
    {Ctx Pipe : Type 0} (p : Platform) (hooks : Hooks Ctx Pipe) (w : World Pipe) (xs : List Recv)
    (l : Link) (creds : Option (Text × Text)) (host t bhost : Text) (n code bn : ℕ) (d : Dial)
    (c q r tail rest : Bytes)
    → IsInet p
    → AreUtf8 p creds
    → p.is_utf8 host ≡ true
    → p.is_utf8 bhost ≡ true
    → canonical p host ≡ some t
    → Writes creds c
    → Binding.request p (pos Types.connect) host (pos n) ≡ ok q
    → heard xs ≡ joined (written creds c q) ++ tail
    → All IsByte (heard xs)
    → IsBlind hooks
    → Welcomes hooks creds
    → Allows hooks t n
    → ((log : List (Action Pipe)) → w.send_works log ≡ true)
    → ((log : List (Action Pipe)) → w.dial log (t, pos n) ≡ d)
    → answer_to d ≡ some (code, bhost, bn)
    → Binding.reply p (pos code) bhost (pos bn) ≡ ok r
    → Takes l
    → stream l.incoming ≡ sent_by {Pipe = Pipe} (course hooks.on_disconnect d r t n creds) ++ rest
    → (bt : Text) × (l' : Link) × (canonical p bhost ≡ some bt)
      × (handle p hooks w xs ≡ (left, course hooks.on_disconnect d r t n creds))
      × (handle_async p hooks w xs ≡ (left, course hooks.on_disconnect d r t n creds))
      × (negotiate p creds host (pos n) (pos Types.connect) l
          ≡ (ok (record { rep = code; host = bt; port = bn }), l'))
      × (l'.sent ≡ written creds c q ++ l.sent)
      × (stream l'.incoming ≡ rest)
handle-negotiate p hooks w xs l creds host t bhost n code bn d c q r tail rest inet utf u ub can hc
      hq same bytes k welcome allows sends dials a made takes fed =
    let (bt, bcan, x) = negotiate-written p creds host bhost n code bn c q r inet ub hc hq made in
    let (l', ran, after, sent', takes') = x.runs l rest takes (
      fed
      ∙ sent_by-answers _ creds hooks.on_disconnect d d (t, pos n) r rest
      ∙ sym (answers-append creds r rest)) in
    let speaks = written-Speaks p creds host n c q hc hq in
    (
      bt,
      l',
      bcan,
      Serves-run p inet on_relay hooks w sends (on_relay-spliced w) host t bhost n code bn d r u can
          allows dials a made xs (handle p hooks w xs) creds (joined (written creds c q)) tail utf
          speaks welcome same (λ e. handle-Ends p hooks w xs e k bytes),
      Serves-run p inet on_relay_async hooks w sends (on_relay_async-spliced w) host t bhost n code
          bn d r u can allows dials a made xs (handle_async p hooks w xs) creds
          (joined (written creds c q)) tail utf speaks welcome same
          (λ e. handle_async-Ends p hooks w xs e k bytes),
      ran,
      sent',
      after,
    )
