-- ===== src/Lib.antt =====
-- A model of the enetcpp networking library, reliable and unreliable packets over UDP, and theorems on
-- it.
--
-- The program. A host keeps an array of peers. The application sends packets through a peer
-- (src/peer.cpp, `peer_send`): a packet becomes one command, or a command for each fragment, which is
-- numbered on its channel and put into one of the peer's outgoing queues with a counted reference to
-- the packet. Commands that arrive go to the handlers of src/protocol.cpp; those with data are put in
-- order into the queues of a channel (`peer_queue_incoming_command`), and what is complete and next is
-- moved to the peer's dispatched commands, from which `peer_receive` takes it. Acknowledgements remove
-- reliable commands from the sent queue. Connecting, disconnecting and resetting change the state of a
-- peer and the counters of its host.
--
-- The files.
--   Base          words of a fixed width, Boolean tests, lists on native numbers
--   Time          include/enetcpp/time.h and utility.h; Time/Wrap its exactness
--   Memory        the allocator behind src/callbacks.cpp, as a parameter, and memcpy with its fault
--   Command       include/enetcpp/protocol.h: commands, numbers, limits, sizes; Command/Bytes the bytes of
--                 the packed structures, and their round trip
--   Packet        src/packet.cpp; Packet/Store the packets alive and their reference counts; Packet/Crc
--                 the checksum `crc32`, with the division one bit at a time in Packet/Crc/Exact
--   Peer          the records of include/enetcpp/enetcpp.h; its children follow src/peer.cpp: Throttle,
--                 Window, Connection, Outgoing, Send, Acknowledge, Dispatch, Incoming, Reset, Receive,
--                 Disconnect. Counters and References state what is counted
--   Host          the part of a host that its peers share, and src/host.cpp: Configure the settings,
--                 Bandwidth and Recalculate the two parts of `host_bandwidth_throttle`, Create, Destroy
--                 and Broadcast the functions of those names
--   Links         include/enetcpp/list.h on the memory of the links; Links/Refinement and Links/Moving
--                 relate it to the lists of elements that all other files use
--   Protocol      src/protocol.cpp: Change (states and events), Sent, Session, Connect (with
--                 `host_connect`), Verify, Control, Clock, Acknowledge, Receive, Unsequenced, Fragment.
--                 Counting carries the counters through some of them; Fragment/Reassembly and Completion
--                 follow the fragments of one packet
--                 The loops of that file: Datagram (the arrays of a datagram and the acknowledgements),
--                 Timeout (`check_timeouts`), Outgoing (`check_outgoing_commands`), Sending
--                 (`send_outgoing_commands`; its Length compares what is sent with
--                 the MTU), Incoming (`handle_incoming_commands`), Delivery
--                 (`dispatch_incoming_commands`), Service (`host_service` and what it calls)
--   Callbacks     src/callbacks.cpp and the version numbers of include/enetcpp/enetcpp.h
--   Examples      the theorems applied to a concrete host
--
-- How state and operations correspond. `Conn` is a peer with its host, `World` a host with all peers;
-- an operation that changes them returns the new ones. Names are those of the source in snake_case,
-- without its prefix `enet_protocol_` for the handlers. Numbers are unbounded, with each wrap of a
-- 16-, 32- or 64-bit word written out. A field in network order is the number it stands for, since
-- each is converted once each way. The union of commands is a data type; the field of an unreliable
-- command that lies over the first field of a fragment is read there too. A `List` of the source is
-- the list of its elements, an iterator a division of it. Packets live in a store by address. A bit
-- set is a list or a function of bits, and the two peer flags are Booleans. A pointer to an event is an
-- option. `none` stands for a fault where a handler could read or write out of bounds, and the flag
-- `faulted` of the loop that fills a datagram for the null pointer that it could read. An address that
-- has been freed is not used again.
--
-- The loops. `check_outgoing_commands` keeps its two iterators as a division of each queue into what it
-- has passed over and what is before it; the queues of the peer are put together when it ends. A
-- datagram is the commands and the buffers in use; the buffer of the header, with the checksum, is made
-- when they are sent (`Outbound`). In `host_service`
-- each step is given the host as the step before has left it.
--
-- Fuel. The loop that cuts a packet runs on fuel; it gets one round more than the packet has bytes,
-- and each round takes at least one. The loop that fills a datagram has a round for each queued
-- command, the loop that reads one a round for each byte, and the loops that share bandwidth a pass
-- for each peer and one more. The passes of `send_outgoing_commands` and the rounds of `host_service`
-- depend on the socket, the clock and the commands that are queued meanwhile: they take any fuel, and
-- say so when it ends. `list_size` takes any fuel and has enough with one round more than there are
-- elements. All other loops are recursive on a list.
--
-- Parameters. Each call of the allocator may fail, and a fresh block has its size and any contents.
-- `host_flush` is a function that the disconnects and the acknowledgements take, since it sends for
-- every peer of the host. `crc32` takes the conversion to the byte order of the network, which depends
-- on the platform. The socket, the clock, the compressor, the checksum and the interceptor are
-- functions: what they return may depend on the number of the call or on what has been sent. Bytes that
-- an array has after a datagram are any bytes.
--
-- Not modelled: the range coder of src/compress.cpp, and the sockets of each platform, which are system
-- calls. The callback that frees a packet is not observed, and the counts of all data sent and
-- received are kept with the loops and not in the record of the host.
pub mod Base
pub mod Time
pub mod Memory
pub mod Command
pub mod Packet
pub mod Peer
pub mod Host
pub mod Links
pub mod Callbacks
pub mod Protocol
pub mod Examples
