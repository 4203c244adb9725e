-- ===== src/Lib.antt =====
-- rustbond: a client and a server of the MetalBond route distribution protocol.
--
-- Peers announce routes to a server: a route is a destination prefix and a next hop, in a virtual
-- network (VNI). The server distributes each update to the subscribers of its VNI. A client is
-- connected to several servers, and calls the handler of its user when a route is to be installed
-- or removed.
--
-- The parts, with their files here and in the repository:
--   Types: src/types.rs, src/error.rs, proto/metalbond.proto. Address has the addresses, next hops
--     and destinations, Proto the records that prost makes of the protocol file, Convert the
--     conversions between them (`TryFrom` and `From`), with what they accept in Convert/Accepts and
--     the way there and back in Convert/RoundTrip; Display has the texts (`Display`).
--   Route: src/route.rs. `RouteTable` is a map from VNIs to maps from destinations to sets of next
--     hops, and each method a function of its name (`table_is_empty` for `is_empty`). Hops looks a
--     route up, Clean is the well-formedness of a table, Count and Listing are on `len` and the
--     listing functions, History on the table after any changes.
--   Handler: the trait `RouteHandler` of src/lib.rs, by the calls that were made.
--   Wire: src/wire.rs. Message is the message type, Codec has `encode` and `decode`; Framing is the
--     loop over the receive buffer that src/peer.rs and src/server.rs share, Framing/Chunks what it
--     does when messages arrive in pieces.
--   Peer: src/peer.rs. Received is `handle_message`, Session the state and the commands, Task the
--     steps of `peer_task` and `run_connection`. The connection state is the state of the machine;
--     an event is the outcome of what the task awaits, and says how many writes succeed after it.
--   Client: src/client.rs. Tracker is `RouteOriginTracker`, Dedup the `DeduplicatingHandler` of
--     each server and `remove_server_routes`: the tracker's change is a step, and each call of the
--     user's handler that follows is another, so that the steps of several tasks may come in any
--     order. Interleaved is on all such orders, Steady and Installed on those where no task comes
--     between the two steps for one route, as with one task alone (Alone), Race on two tasks that
--     do. Api has the commands of `MetalBondClient` to its peers and its state. Wait has the
--     functions that wait for a connection, over the changes that wake them; Connect is `connect`,
--     and the methods that list and count.
--   Server: src/server.rs. Actor and Peers are `RoutingActor`, Events its loop `run`, Connection
--     the `handle_message` of one peer. Ownership is on routes and their owners, Delivery and
--     Disconnect on what is sent to whom, Subscribers and Invariant on the subscriptions. Session is
--     `handle_peer` as a state machine, with the writer of Batch; Sessions are all connections of a
--     server and the state that they share, and Served is on whom it serves.
--   Handshake: the two sides of a new connection, src/peer.rs and src/server.rs, together.
--   Netlink: src/netlink.rs. Config has `NetlinkConfig` and `NetlinkClient`, with the kernel's state
--     passed on; Matches, Remove, RoundTrip and Cleanup are on its methods.
--   Examples: examples/client.rs. Announcement is what its texts mean, Written the texts of the
--     documented format, Program its set-up and its run; Announced and Documented are on the routes
--     that it announces. Text has the functions on texts, Text/Decimal the numbers in them.
--   Collections: the maps and sets of the standard library, as lists without repetitions. Prelude:
--     names and lemmas that all share. Tests: the theorems at concrete values.
--
-- How the parts interact: a peer's bytes go through Wire/Framing to a handler of messages, that of
-- Peer/Received at the client, which calls the handler of Client/Dedup, and that of
-- Server/Connection at the server, which gives commands to the actor. The actor sends updates to
-- channels (Server/Channel).
--
-- Third-party code is an interface with its documented behaviour: `IpNetLib` for the crate ipnet,
-- `Prost` for prost (decoding what was encoded gives it back; sizes are bounded), `Mpsc` for the
-- bounded channels of tokio, `Rtnetlink` for the crates rtnetlink and netlink_packet_route, with
-- `Kernel` for the routing tables of Linux behind them, and `AddressText` for the texts of prefixes
-- and addresses. Tests has an instance of each.
--
-- Numbers are natural numbers; the casts `as u8` and `as u16` are remainders, and the theorems that
-- need it take values within the ranges of their types as a hypothesis. The message loop runs on
-- fuel, one unit for each byte of the buffer, which is enough because a message takes four bytes at
-- least. A hash map or set has an order here, that of insertion; the statements are on membership,
-- or hold for the order given.
--
-- Not modelled: the other command line programs under examples/, what examples/client.rs prints and
-- the tasks that its handler starts, the build script, and logging.
-- Time is left out: a time-out is an event that may happen when the task waits, and the end of the
-- server's accept loop at its shutdown is not modelled. The routing actor handles a command when it
-- is sent; its queue keeps that order. The kernel's routes are taken to change by the program's own
-- requests alone.
pub mod Prelude
pub mod Collections
pub mod Text
pub mod Types
pub mod Route
pub mod Handler
pub mod Netlink
pub mod Client
pub mod Wire
pub mod Peer
pub mod Server
pub mod Handshake
pub mod Examples
pub mod Tests
