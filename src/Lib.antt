-- ===== src/Lib.antt =====
-- A model of n-dhcp4, a DHCPv4 client and server library in C. Paths are those of the
-- repository; src/n-dhcp4-*.c is meant where only the end of a name stands.
-- Base has the names that all modules share. A run of the C code is an `Option`, whose `none`
-- is a fault: an access outside the memory that the code owns, a failed c_assert or a loop that
-- does not end. Error codes are values of `Result` or, beside a changed object, an `Option
-- Error`.
-- Protocol has the numbers and error codes of n-dhcp4-private.h and n-dhcp4.h. Memory models
-- allocated blocks, with memcpy, memset and single bytes. Whether an allocation succeeds is an
-- argument of the functions that allocate.
-- Incoming is n-dhcp4-incoming.c, the parser. Incoming.Scan describes a message by its entries;
-- Prefetch, Merge, Walk, Linear and Linearize follow the loops of the code, and Refine, Accept
-- and Typed state what a caller sees. The loops run on fuel, one more than the bytes that are
-- left; each round moves on by at least one byte.
-- Outgoing is n-dhcp4-outgoing.c, the builder; Outgoing.Valid is what holds of a message
-- between two calls, and Outgoing.Carries says which options it carries. RoundTrip is a message
-- of the builder that is read by the parser.
-- Lease is n-dhcp4-c-lease.c: the timeouts of a lease and the accessors of the client API. A
-- probe that a lease is linked into is a number.
-- Connection is n-dhcp4-c-connection.c: the sockets and the state (listen, connect, close),
-- Connection.Requests builds the requests, Connection.Io sends them and verifies and dispatches
-- the replies. System calls, the allocator and random numbers are arguments; nothing loops.
-- Sockets is a step relation of all calls, Verify and Replies say which messages are passed on,
-- Timer, Backoff and Secs when and how a request is sent, Build, Made and All that requests are
-- valid messages.
-- Probe is n-dhcp4-c-probe.c: one function per transition, the dispatch of timers and messages,
-- and in Probe.User the calls of n-dhcp4-c-lease.c for a lease. A lease object is the number of
-- its creation, so that pointers to it are compared as the code does; the events of the client,
-- and its `preempted` flag, stand in the probe. Probe.Graph is the state machine, Runs has the
-- lemmas on runs, Inv and Steps the invariant over every call. The timer of the client that two
-- transitions arm is not modelled.
-- Checksum is util/packet.c: the internet checksum on a little-endian host, and that of an UDP
-- packet with its pseudo header. The fuel of the fold is one more than the sum, since every
-- round makes the sum less.
-- Packet is the rest of util/packet.c and the packet sockets of n-dhcp4-socket.c:
-- Packet.RoundTrip is a packet that is sent and received, Packet.Checked any datagram that is
-- received.
-- Server is n-dhcp4-s-connection.c and n-dhcp4-server.c: Server.Classify says which kind of
-- request a message is, Replies that replies are valid messages, Routes where they are sent,
-- and Rounds how the dispatch loop ends.
-- Probe.InTime and Probe.Progress are about the timer call of a probe and what it leaves to
-- wait for, after Connection.Fresh, which is about the timer of the connection. Probe.Malformed
-- is about messages that cannot be read.
-- ProbeConfig models the configuration of a probe and n_dhcp4_client_probe_new: the lists of
-- options and requested parameters, the copy that a probe keeps, the first state and the random
-- delay of the first DISCOVER. The 32-bit random number is an argument.
-- Client is n-dhcp4-client.c: Client.Settings has the configuration, New the checks of
-- n_dhcp4_client_new, Queue the events and log messages, Calls the other calls, and Client
-- itself the timer and dispatch. A probe gets the `preempted` flag of the client and an empty
-- list of events for a call, which are taken back after it. Queue.Fifo is the specification of
-- the queue. Scheduled has what arming the timer leaves, Armed for which time the timer is set
-- after a call of dispatch, and Failed when it is not set.
-- Not modelled: reference counts, leases and events of the server, UDP sockets, the creation of
-- sockets with their packet filters, and memory that is freed.
pub mod Base
pub mod Protocol
pub mod Memory
pub mod Incoming
pub mod Outgoing
pub mod RoundTrip
pub mod Lease
pub mod Connection
pub mod Probe
pub mod Checksum
pub mod Packet
pub mod Server
pub mod ProbeConfig
pub mod Client
