-- ===== src/Lib.antt =====
-- A model of rosrust-async, a ROS 1 client library on top of tokio, and proofs about it. All paths
-- below are under rosrust-async/src.
--
-- A node registers publishers, subscribers and services with the ROS master by XML-RPC, and talks to
-- other nodes over TCPROS, whose connections start with a header. Each kind of resource belongs to
-- an actor, which takes one message at a time; handles that are given out share a guard, whose drop
-- tells the actor. A clock task follows the simulated time of a topic and wakes sleepers.
--
-- Tcpros: the wire protocol.
--   Bytes: read_tcpros_frame (tcpros/mod.rs) over a stream as the list of the bytes to come, with the
--     little-endian lengths of byteorder.
--   Utf8: String::from_utf8, as the table of well-formed byte sequences.
--   Spec: Topic, TopicSpec, Service, ServiceSpec, are_fields_compatible (tcpros/mod.rs).
--   Header.Defs: the headers with their names on the wire (tcpros/header/mod.rs, error.rs).
--   Header.Ser: Serializer and to_bytes (tcpros/header/ser.rs).
--   Header.De, Header.Visit: Deserializer, HeaderMap, from_bytes, from_async_read
--     (tcpros/header/de.rs). The visitor that serde derives for a struct is a parameter, Visitor; what
--     is relied on of it is Header.Derive, and Header.Samples has visitors that meet it.
--   Header.Wire: the format as lists of keys and values, a description of its own that serializer and
--     deserializer are compared with in Header.Parse, Header.RoundTrip and Header.Rejects.
--   Header.Compat: validate_pubsub_compatibility and its siblings (tcpros/header/mod.rs).
--   Net: connections as the bytes to come and those written, with what setting TCP_NODELAY gives, and the
--     network as a parameter.
--   Service: handle_request and rpc_task (tcpros/service/server.rs), with ServiceProvider::new in Provider
--     and listener_task in Listener. Handshake is about the first bytes of a connection, Rpc about the calls,
--     Sessions about a client among others. The user's callback is a parameter.
--   ServiceClient: tcpros/service/client.rs, the task of a client's calls; Calls sets it against the server's.
--   Subscription: tcpros/subscription.rs, a task per publisher; Delivery and Interleaved are about
--     what reaches the handles.
--   Publication: tcpros/publication.rs, the listener, the set-up of a connection and a task per subscriber;
--     Handshake and Delivery set them against Subscription.
-- Xmlrpc: the calls of the master.
--   Dxr: what the code uses of the dxr crate, a parameter. Samples has one that meets its laws.
--   Protocol: ApiResponse and Client::response_to_result (xmlrpc/protocol); Client has call_raw.
--   Master: RosMasterClient (xmlrpc/master.rs). What the master answers is the parameter World.
--   SystemState: what the master tells of all nodes (xmlrpc/master.rs).
--   Slave: RosSlaveClient (xmlrpc/slave.rs), the calls of another node.
-- Node: the actors (node/actors). A handler is an Action (Base.Action): a function of the actor's state
--   and the world that gives a result and the new state, errors included.
--   Port: the reply of a message, which fails the handler where the caller is gone. The state is by then what the
--     handler has made of it, and ractor ends the actor without post_stop: no more messages follow.
--   Guards: PublisherGuard and the like, with the count of handles that an Arc keeps; Handles is about their
--     clones and drops, with those of each kind in Handles of Subscriber and Service.
--   Parameter: the parameter actor (node/actors/parameter.rs); Cache and Reads are about its cache.
--   Publisher: the publisher actor (node/actors/publisher.rs) with Publication::new
--     (tcpros/publication.rs); Messages has its handle and post_stop; Registry, Linked and Lifetime are
--     about the registry, its invariant, and the end of a publication.
--   Service: the service actor (node/actors/service.rs); Offers has its abstract state, the services on
--     offer, which it refines, and Race a registration that fails and its drop message.
--   Subscriber: the subscriber actor (node/actors/subscriber.rs) with the tasks of its subscriptions;
--     Receive has the handles, Linked, Growth, Preserved and Reachable the invariant, Shared what a joining handle gets and
--     what an update of the publishers does. The other nodes are the parameter Peers.
--   Api: the XML-RPC API of a node (node/api): Handlers has router.rs, Server has server.rs, and Calls sets
--     them against the client of Xmlrpc.Slave, Wire against call_raw. XML and the reading of parameters are
--     parameters.
--   Shutdown: the end of a node (node/mod.rs), which stops the actors; Stopping and Farewell are about what the
--     master is told then. Task is the task that waits for the shutdown, with shutdown_and_wait, as a step
--     relation that lets callers, actors and the API server act in between, also between the stops of two
--     actors: Tokens, Phases, Complete and Waits are about when the shutdown is complete, over Cells, one actor's
--     stop.
--   Typed: the typed ends of topics and services (node/actors/publisher.rs, node/actors/service.rs) and the
--     callbacks of subscribe_callback and advertise_service (node/mod.rs). Delivery joins a publisher's handle
--     to a subscriber's callback over Tcpros, Answers a client's handle to a service's callback.
--   Dynamic: hash_message and the topic of publish_dynamic (node/mod.rs). Sums says what the sum of a
--     definition is, which Hashes compares with.
--   Handle: the calls of Node (node/mod.rs) and NodeError (node/error.rs), with those about parameters in
--     Parameters; Cached is about parameters.
--   Builder: node/builder.rs and Node::new; Precedence is about where the configuration comes from.
-- Clock: clock/mod.rs, sleep.rs and rate.rs. Encoded is EncodedTime; Timers has the task as a function of
--   the list of the events that its select! takes, the queue, SleepFuture and Rate; Firing and Waking are
--   about which timers are notified and when.
--
-- Teleop: examples/turtle_teleop.rs of the repository, the steering of a turtle by a gamepad; Pen and Sync
--   are about its pen. Floating-point numbers and the simulator are parameters.
--
-- Integers: a u32 or u64 is a natural number with its wrap-around written out; lengths that the code
-- casts to u32 are taken modulo 2 ^ 32. An i32 is its bit pattern.
-- Fuel: the loop over the fields of a header has fuel. It gets the length of the input, and each
-- round takes four bytes or more, so that it ends by itself; Header.Ends shows this.
--   A decimal number is printed with 20 digits as fuel, which suffices for 64 bits. The depth of the calls of
--   hash_message is fuel, of which more than the rank of the definition among its dependencies is enough.
-- Time: the order and the sum of rosrust's times are the parameter TimeOps, with the laws of a total
-- order.
--
-- Select: a loop over a select! is a function of the list of the events that it takes, so it ends with
-- the list, and theorems say how many events are enough.
--
-- Time between two steps: a handler or a round of a loop is one step. Only the shutdown of a node and the
-- listener of a publication are taken apart further. So a new handle of a shared subscription gets the latched
-- messages and its place in the channel at once (Node.Subscriber.share); in the code the one comes after the
-- other, and what a subscriber task receives in between is in neither.
-- A client of a service that connects, sends no whole header and stays open keeps the service's loop waiting:
-- ListenerEvent.silent of Tcpros.Service.Listener.
--
-- Not modelled: what the API server does when it is shut down, and how sockets and connections end then,
-- since they are calls of axum and tokio. The shutdown manager of async_shutdown, the HTTP and XML of a call,
-- sockets, broadcast channels and logging belong to other libraries; where their results matter they are
-- parameters. The other examples and the tests are left out: they only call the library.
pub mod Base
pub mod Tcpros
pub mod Xmlrpc
pub mod Node
pub mod Clock
pub mod Teleop
