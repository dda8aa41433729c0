-- ===== src/Lib.antt =====
-- optisocks5: a SOCKS5 codec without I/O, client sessions, and a server that is driven by hooks.
--
-- The program has three layers, and the modules follow them.
--
-- Codec/ is the C++ extension. Codec/Address.antt and Codec/Messages.antt are csrc/socks5_codec.cpp
-- (`push_port`, `classify_host`, `encode_address`, `decode_address`, and a builder and a parser for each
-- message); Codec/Binding.antt is csrc/module.cpp and src/optisocks5/core/codec.py, with the range checks
-- and the exceptions that Python sees. inet_pton, inet_ntop and the check of UTF-8 are the record
-- `Platform` of Codec/Platform.antt; what their manuals say of them is `IsInet` there.
--
-- Core/Types.antt is src/optisocks5/core/types.py. Core/Session.antt is src/optisocks5/core/session.py: the
-- record `Session` for the object's fields, `init` for the constructor, `optimistic_pipeline`, `feed`,
-- `leftover`; each turn of the `while True` in `feed` is `turn`, one function for each state.
--
-- Server/ is src/optisocks5/server: Server/Events.antt events.py; Server/State.antt, Server/Decisions.antt
-- and Server/Machine.antt session.py (the fields; the methods that hooks and drivers call; `_step` with one
-- function for each state, and `next_event`); Server/Hooks.antt and Server/Driver.antt `_handle`, `_dial`
-- and `_relay` of server.py and their mirror in aio.py. A driver pulls events from the session and
-- answers them: `on_event` has one function for each class of event. The sockets, dialling and the
-- user's relay functions are the record `World`, whose answers may depend on all that happened before;
-- a hook is a list of calls on the session, after which it may raise.
-- Server/Driver/Teardown.antt is the `finally` of `_handle`, whose calls may raise, and `_handle` with it;
-- `handle` and `handle_async` are the case in which none of them does. Server/Listener.antt is the rest of
-- the class `Server`: the registration of hooks, and the listener with `bind`, `serve_forever`, `serve`
-- and `close`, over a list of what `accept` gives. Server/Relay.antt is `splice` of server.py and `_pump`
-- and `async_splice` of aio.py: two copy loops as one step relation, in which calls may fail,
-- sources may stay silent, and an idle timeout may be set.
--
-- Client/ is src/optisocks5/sync/client.py and src/optisocks5/aio/client.py, which mirror each other:
-- Client/Transport.antt the reads (`_arm`, `_recv_exact`), Client/Staged.antt and Client/Optimistic.antt
-- the negotiations, Client/Connect.antt the base classes and `connect`. `Mode` tells the blocking clients
-- from the asyncio ones where their exceptions differ. Client/Transport/Exchange.antt is the reading of an
-- action on a link as an exchange: what it consumes, what it sends, and what it returns.
--
-- Cli/ is src/optisocks5/cli.py: Cli/Target.antt `_parse_proxy` and `_split_target`, Cli/Commands.antt the
-- subcommands, which give the lines that they print and how they end. `int`, `urlparse` and the text
-- functions of Python are the record `Python`.
--
-- Examples/Metered.antt is examples/server_metered.py, its hooks and its relay, and
-- Examples/Metered/Admitted.antt gives the hooks to the drivers; Examples/Selector.antt is
-- examples/selector_connect.py, a table of handshakes over what the calls of `select` report, with
-- `remaining`;
-- Examples/Hello.antt is examples/async_server.py, its hooks and the bytes that it answers from memory;
-- Examples/Curl.antt is `main` of examples/curl_through.py, and Examples/Async.antt `optimistic_connect` of
-- examples/async_connect.py.
--
-- Server/Driver/Admission.antt and Server/Driver/Firewall.antt state what a hook must do for a policy to
-- hold, and their child modules follow it through the drivers.
--
-- Server/Driver/Streams.antt reads what `recv` gives as one stream, `heard`, and its child modules compare
-- two runs of a driver's loop, the relation `Ends` of Server/Driver/Streams/Joined.antt, of which one has
-- read more of the stream before. `IsBlind` says that hooks do not look into `_buf` of the session.
-- Server/Driver/Grammar.antt is the protocol of RFC 1928 and 1929 as a rule over a driver's actions, an
-- automaton on `Talk`, and its child modules follow the drivers by it.
--
-- Interop.antt puts the client's session and the server's together, Interop/Clients.antt the staged and
-- the optimistic client, Interop/Driven.antt each of them and the drivers. Tests/ has runs on concrete
-- inputs.
-- Prelude/ has the shared types: bytes and texts are lists of numbers, a text by its UTF-8 bytes, and a
-- call that may raise returns `Result`. A function that changes an object returns the object beside its
-- result, also when it raises.
--
-- Loops: `feed` has fuel for three turns, since its states come in one order and the fourth, `done`,
-- returns at once. The drivers have fuel for 13 turns and one for each chunk, since every turn either
-- reads a chunk, or moves the session on, or empties its queue; Server/Machine/Weight.antt has the
-- measure. Both have a result of their own for running out of fuel. The read loops follow the list of
-- what arrives, and the relays are step relations without fuel.
--
-- Not modelled: `serve` and `serve_forever` of aio.py, which only call `asyncio.start_server`; the
-- arguments (`build_parser`, `main`) and the timings of cli.py; the other parts of the examples, which read
-- arguments and print; the re-exports of the packages; tests and the build. Hooks
-- that call `connected` or `connect_failed` themselves, and the closes of `probe` that raise, are left out.
pub mod Prelude
pub mod Codec
pub mod Core
pub mod Server
pub mod Client
pub mod Interop
pub mod Cli
pub mod Examples
pub mod Tests
