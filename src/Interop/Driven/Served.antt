-- ===== src/Interop/Driven/Served.antt =====
-- A client with an optimistic pipeline of src/optisocks5/core/session.py, and `_handle` of
-- src/optisocks5/server/server.py and aio.py, to the end of the connection.
use optisocks.Prelude.{
  ℕ, pos, ◌≡◌, refl, ap, ◌∙◌, inl, true, Option, none, some, List, [], ◌∷◌, ◌++◌, Bytes, Text, ok,
  All, IsByte,
}
use optisocks.Codec.Platform.{Platform, IsInet}
use optisocks.Codec.Address.RoundTrip.{canonical}
use optisocks.Codec.Binding
use optisocks.Core.Types
use optisocks.Core.Types.{Reply, no_auth, userpass}
use optisocks.Core.Session.{Session, returned, feed, leftover, optimistic_pipeline, fresh}
use optisocks.Core.Session.Handshake.{feed-reply}
use optisocks.Server.Hooks.{Hooks, World, Dial, Action, Recv, sent, dialled}
use optisocks.Server.Driver.{left, on_relay, on_relay_async, handle, handle_async}
use optisocks.Server.Driver.Streams.{IsBlind, heard}
use optisocks.Server.Driver.Streams.Handled.{handle-Ends, handle_async-Ends}
use optisocks.Interop.{pipeline_open, pipeline_auth}
use optisocks.Interop.Driven.{
  Speaks, answer_to, AreUtf8, Allows, Welcomes, greeted, ending, sent_by,
}
use optisocks.Interop.Driven.Spoken.{Serves-run}
use optisocks.Interop.Driven.Sent.{on_relay-spliced, on_relay_async-spliced, sent_by-answers}

pipeline-Speaks :
    (p : Platform) (creds : Option (Text × Text)) (host : Text) (n : ℕ) {b : Bytes}
    → optimistic_pipeline p (fresh creds) host (pos n) (pos Types.connect) ≡ ok b
    → Speaks p creds host n b
pipeline-Speaks p none host n h = pipeline_open p host (pos n) (pos Types.connect) h
pipeline-Speaks p (some (user, password)) host n h =
    let (c, q, creds, req, whole) =
      pipeline_auth p user password host (pos n) (pos Types.connect) h in
    (0x05 ∷ 1 ∷ userpass ∷ [], c, q, inl refl, creds, req, whole)

-- An optimistic client, with or without credentials, sends its pipeline cut in any way, with anything
-- behind it. The server's hooks call `ok` for these credentials (without credentials there is no
-- authorize hook), let the target be and do not look into the session's buffer; sends work, and a dial
-- of the target gives a connection or an OSError. Then both drivers send the accepting messages, ask
-- about exactly these credentials, dial exactly the canonical target, send the reply that fits the
-- dial's result, relay exactly when it is a connection, and close what is open; and the bytes that they
-- have sent, with any others behind them, make the client's `feed` return the reply with this code and
-- the canonical bound address, and leave the others. The client's pipeline and the reply can be built,
-- the texts are UTF-8, and the conversions of addresses keep their laws.
pub handle-feed :
    {Ctx Pipe : Type 0} (p : Platform) (hooks : Hooks Ctx Pipe) (w : World Pipe) (xs : List Recv)
    (creds : Option (Text × Text)) (host t bhost : Text) (n code bn : ℕ) (d : Dial)
    (b tail r rest : Bytes)
    → IsInet p
    → AreUtf8 p creds
    → p.is_utf8 host ≡ true
    → p.is_utf8 bhost ≡ true
    → canonical p host ≡ some t
    → optimistic_pipeline p (fresh creds) host (pos n) (pos Types.connect) ≡ ok b
    → heard xs ≡ b ++ tail
    → All IsByte (heard xs)
    → IsBlind hooks
    → Welcomes hooks creds
    → Allows hooks t n
    → ((log : List (Action Pipe)) → w.send_works log ≡ true)
    → ((log : List (Action Pipe)) → w.dial log (t, pos n) ≡ d)
    → answer_to d ≡ some (code, bhost, bn)
    → Binding.reply p (pos code) bhost (pos bn) ≡ ok r
    → (log : List (Action Pipe)) × (bt : Text) × (s : Session) × (log
        ≡ ending hooks.on_disconnect d (sent r ∷ dialled (t, pos n) d ∷ greeted creds))
      × (handle p hooks w xs ≡ (left, log))
      × (handle_async p hooks w xs ≡ (left, log))
      × (canonical p bhost ≡ some bt)
      × (feed p (fresh creds) (sent_by log ++ rest)
          ≡ (returned (some (record { rep = code; host = bt; port = bn })), s))
      × (leftover s ≡ rest)
handle-feed p hooks w xs creds host t bhost n code bn d b tail r rest inet utf u ub can h same bytes
      k welcome allows sends dials a made =
    let log = ending hooks.on_disconnect d (sent r ∷ dialled (t, pos n) d ∷ greeted creds) in
    let (bt, s, bcan, fed, over) = feed-reply p creds code bn bhost r rest inet ub made in
    (
      log,
      bt,
      s,
      refl,
      Serves-run p inet on_relay hooks w sends (on_relay-spliced w) host t bhost n code bn d r u can
          allows dials a made xs (handle p hooks w xs) creds b tail utf
          (pipeline-Speaks p creds host n h) welcome same (λ e. handle-Ends p hooks w xs e k bytes),
      Serves-run p inet on_relay_async hooks w sends (on_relay_async-spliced w) host t bhost n code
          bn d r u can allows dials a made xs (handle_async p hooks w xs) creds b tail utf
          (pipeline-Speaks p creds host n h) welcome same
          (λ e. handle_async-Ends p hooks w xs e k bytes),
      bcan,
      ap (feed p (fresh creds)) (sent_by-answers _ creds hooks.on_disconnect d d (t, pos n) r rest)
          ∙ fed,
      over,
    )
