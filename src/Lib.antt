-- ===== src/Lib.antt =====
-- Symphony is a TLS proxy: it peeks at the ClientHello of each connection, checks the client
-- against its limits, chooses an upstream and copies bytes both ways, with a PROXY protocol
-- header in front. This library models the parts of it that decide something.
--
-- Protection (src/protection.rs) decides on a new connection: static lists first, then the state
-- of the client's address. TokenBucket holds the buckets of that state, and Hex the digests of a
-- fingerprint blocklist. The table of addresses is a list of places, and an `Arc<IpState>` is the
-- place of a state, which outlives its entry in the table. Protection/Connections has the
-- histories of a listener: connections come and go, entries are evicted and the configuration
-- changes, in any order, each operation alone. The arithmetic of `f64` and the matching of CIDR
-- networks are parameters.
--
-- Sni (src/sni.rs) is what is learned from a client's first bytes, which are peeked at and stay
-- unread. Sni/Records puts TLS records together into the handshake message that they carry, by
-- fuel: a round takes five bytes or more, so that one more than the number of bytes is enough.
-- Sni/Peek has the polls of a stream as a list, each with the bytes that have arrived by then;
-- its end is the timeout. Sni/Parser and Sni/Hello read the ClientHello, Sni/ServerName and
-- Sni/Alpn its extensions, Sni/Ja3 and Sni/Ja4 make the fingerprints, whose digests are
-- parameters, and Sni/Info puts it all together. Protection takes the result, and
-- Protection/Fingerprints states what holds of both.
--
-- Router (src/router.rs) is the table of routes. Router/Spec, Router/Slots and Router/Build make
-- a route of its spec, Router/Install is what a route takes over from the one before and how it
-- comes into the table, and Router/Table is a whole reload: one spec after the other, by
-- recursion on the list. Router resolves a name. Router/Reloads has the histories of a listener:
-- reloads, each committed or abandoned, at any time, with any configurations still held by
-- connections. What a reload shares with the table before by an `Arc` it copies here, and the
-- `Arc`s that are compared are numbers, four for each spec from a base. Tls (src/tls.rs) is the
-- cache of TLS configurations, which a reload goes through; Errors (src/error.rs) has the errors.
-- The digest, the building of a configuration, and the reading of addresses and networks are
-- parameters. Float is the `f64` of these parts: the operations, and what is promised of casts
-- and bounds.
--
-- Failover (src/failover.rs) hands connections to peers. Failover has the peers with their packed
-- words, and the choice of candidates; Failover/Policy the configured policy; Failover/Spill the
-- spill-over controller and its admission; Failover/Rebuild what a reload continues;
-- Failover/Forward the forwarding of one connection, where what each attempt comes to and the
-- clock are given round by round. Its loop is over the candidates. Failover/Poll stores the
-- answers to load queries and runs the controllers over a table's failover routes. Router calls
-- Policy and Rebuild, and asks Failover/Spill whether a route is down.
--
-- Balancer (src/balancer.rs) chooses among the sockets of an upstream: by affinity, by refusals
-- and by score. Balancer/Rebuild is a balancer that is made anew. ThreadCpu (src/thread_cpu.rs)
-- is the thread behind a slot: ThreadCpu has its discovery, ThreadCpu/Sampling the passes that
-- measure it, where the procfs is a parameter that answers for one pass, and ThreadCpu/Smoothing
-- the load that a balancer publishes. ThreadCpu/History keeps beside the program what its passes
-- have seen. Destination is a route's upstream and its published load,
-- which Router and Failover read.
--
-- Pipeline (src/proxy_conn.rs) puts the decisions of one connection together, as `handle` does up
-- to the handshake: the peer that may speak for a client, the protection, the route of the name,
-- its allowlist and its tokens, and whether the connection is served, suspended or given to a
-- peer, where it calls Failover/Forward and serves what that leaves to this node. What the header
-- reader and the protection come to is a parameter there, so that it stands for those of Ingress
-- and Protection at any of their states.
--
-- Suspended (src/suspended.rs) is the registry of connections that wait for their route;
-- Suspended/Answers has the histories of it, and what the connections are sent;
-- Suspended/Resolution is the route that an answer is made into.
--
-- Liveness (src/liveness.rs) is the bound on half-closed connections: the watch of each
-- connection, the gauge of src/metrics.rs that the watches move, and the loop that gives a quiet
-- connection up. There the timer, the recorded activity and the time of the notification are
-- parameters, and the fuel is the number of rounds that sleep: each brings the clock forward, so
-- that the nanoseconds to the end of the window behind the last activity are enough.
--
-- Ingress (src/ingress.rs) is the receiving end of peer failover: the PROXY v2 header that it
-- reads off a stream, and the load query that a peer sends in one. A stream is the bytes that
-- arrive within the time limit and whether the peer closes it behind them, so that a read either
-- is filled, fails or times out. Its fuel for a loop over bytes is the number of bytes, of which
-- a round takes one at least. LoadAnswer (src/ingress.rs) is the text that answers a load query.
-- Upstream (src/upstream.rs) is the header that is written in front of a forwarded connection,
-- which Ingress reads. Net and Utf8 hold what the code uses of the standard library's addresses
-- and of its UTF-8 validation; Prelude holds what the modules share. A Tests module under a
-- component runs it at concrete input and applies each theorem there.
--
-- Not modelled: the handshake, the copying between sockets and the accept loops
-- (src/proxy_conn.rs, src/proxy.rs, src/http_proxy.rs, src/listener.rs, src/http_listener.rs),
-- which are I/O around these decisions; the recovery probe of src/failover.rs and its queries,
-- the text of /proc in src/thread_cpu.rs, the list of metric identities in src/router.rs; the
-- other counters of src/metrics.rs; and the TLS configurations themselves (src/tls.rs,
-- src/mtls.rs), which a library builds.
pub mod Prelude
pub mod Net
pub mod Utf8
pub mod Hex
pub mod TokenBucket
pub mod Sni
pub mod Protection
pub mod Float
pub mod Destination
pub mod ThreadCpu
pub mod Balancer
pub mod Liveness
pub mod Failover
pub mod Errors
pub mod Tls
pub mod Router
pub mod Suspended
pub mod Pipeline
pub mod Ingress
pub mod LoadAnswer
pub mod Upstream
