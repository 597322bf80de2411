-- ===== src/Lib.antt =====
-- Network Ultra Server: a rendezvous and audio relay. Clients open a WebSocket, say hello,
-- create or join rooms, and send audio frames, which the server fans out to the other members of
-- the room over WebSocket or, for clients that bind one, over a UDP data plane.
--
-- The files follow the packages of the repository:
-- - Prelude: lists, maps and tests that the components share. A Go map is an association list, and
--   the order in which Go ranges over it is the list's.
-- - Proto: internal/proto. Proto/Audio is audio_frame.go (Pack, Unpack), Proto/Udp is udp_frame.go.
--   A byte slice is a list of numbers; the buffer that a caller hands over for reuse is the list of
--   its whole backing array. Proto/Audio/Wire and Proto/Udp/Wire are about the layouts.
-- - RateLimit: internal/ratelimit/limiter.go (Allow, AllowPair and their helpers). Times are
--   nanoseconds, and the clock's reading is an argument. Live says which entries count at a time,
--   Allow and Pair what a call does to them, Window what a sequence of calls lets through.
-- - Room: internal/room. State has Peer, Room and Registry: the shared objects live in two stores,
--   keyed by the UUID that tells a pointer from every other. Ops is room.go and peer.go (Add, Remove,
--   scheduleDestroyIfEmpty), Registry is registry.go (Create, Find, destroy, PublishUpdate), Audio the
--   frame's path through Forward, forwardLoop, fanOut and SendBinary. Invariant has what holds between
--   two operations and one child module per operation; Lifetime is about the destroy timers.
-- - Udp: internal/udp/server.go. State has Server and binding, Handlers is readLoop's dispatch with
--   handleHello, handlePing and handleAudio, and the sessions' MintToken, AttachPeer and DetachPeer;
--   Sweep is expireIdle and the sender of makeUdpSender. Binding has the invariant, Security what
--   datagrams cannot do, Expiry what silence does.
-- - Ws: internal/ws. State has dispatch.go's Server with the registry's world (Hub), the messages before
--   they are encoded, and the other libraries' functions (Libraries); Labels the input checks; Rooms
--   and Control the handlers of control messages and of audio; Session the part of `run` around its
--   loop. Steps, Refinement and Messages relate the handlers to the registry's steps; Access,
--   Admission, Audio, Disconnect, Closing and Sources are about single requests. Conn is conn.go's
--   write queue, Writer the same connection with its writer goroutine and senders one select at a time,
--   Delivery is about the messages on their way, Kept and Turns about writeAudio among them.
--   Http is HandleHTTP's gate and the welcome's endpoint, with Capacity and Endpoint about them.
--   ClientIp is client_ip.go, on lists of bytes: Walk and Quotes say whose address a forwarding header
--   comes to, Forwarded and Printed that a header which is written is read back.
--   Delta is delta.go's broker, which stands alone, since nothing subscribes to it.
-- - Relay: all of it together, with one kind of event for each thing that can happen to the server.
-- - Bridge: cmd/bridge/main.go. Proxy is udpProxy with its two loops, Welcome newUDPProxy,
--   welcomeUDPRewriter and relayWithRewrite. Sources is about the runs of a proxy, Handshake about a
--   proxy with the server behind it, Rewriting and Relaying about the messages. Launch is the start of
--   the bridge, up to its listener.
-- - Config: internal/config/config.go. Validate has validate and Load; Usable, Settled and Loaded are
--   about the settings that come out, Proxies about trusted proxies.
-- - Startup: cmd/server/main.go, what `run` makes of the settings; Validated is about that.
-- - Metrics: internal/metrics/metrics.go, a labelled family's counters. Runs has the calls of Inc that
--   run side by side.
-- - Strings and Net: what these parts use of Go's packages strings, strconv, net and net/netip.
--
-- How they interact: the UDP handlers call the limiters of RateLimit and the readers of Proto,
-- look their peers up in Room's store, and hand a frame to the room's queue, whose forwarder
-- asks each peer's UDP route before it falls back to the WebSocket.
--
-- Each critical section is one step, and the steps of different goroutines interleave in any
-- order: the step relations Room.Invariant.Runs.Step, Udp.Binding.Runs.Step, Metrics.Runs.Step,
-- Ws.Conn.Writer.Turn and Relay.Runs.Step have one constructor for each, timers and sweeps
-- included, which may come at any time. Room.Add is one step although it records the peer's room
-- just behind its critical section, and so is Room.Remove; Registry.Create is one although it
-- arms the destroy timer under the room's lock, behind the registry's. Counters of type uint64
-- wrap at 2 ^ 64; Go's int is a natural number, since the code only counts and compares it.
--
-- A control message is handled in one step, although the source lets go of its locks between the
-- registry's operations; that the registry may interleave those of several sessions is what its
-- own step relation says.
--
-- Loops are recursions on their lists. Two of them have fuel: write_audio in Ws/Conn, whose
-- turns of the loop of writeAudio are counted (what is enough, and when nothing is, are theorems
-- of Ws/Conn/Displace), and itoa in Strings, which prints at most twenty digits, as many as a
-- number below 2 ^ 64 has. wait_until_free in Bridge/Launch counts down the source's own twenty
-- polls.
--
-- Not modelled: sockets, TLS, HTTP, JSON and TOML encoding, and logging; the metrics beyond
-- labelled families (the registry's names, gauges, and the text that is printed); the flags,
-- listeners and signals of the server's executable and of the bridge, with the bridge's health
-- page and its taking of a port from another process; the HTTP handlers that print counts; the
-- other executables of cmd. Functions of other libraries are arguments of the definitions that
-- use them: bcrypt's hash and comparison, the printing of a UUID, strings.ToLower, and the
-- parsers of net, net/netip, net/url and TOML; so are the results of uuid.New, crypto/rand and
-- the clock.
pub mod Prelude
pub mod Strings
pub mod Net
pub mod Proto
pub mod RateLimit
pub mod Room
pub mod Udp
pub mod Ws
pub mod Relay
pub mod Bridge
pub mod Config
pub mod Startup
pub mod Metrics
