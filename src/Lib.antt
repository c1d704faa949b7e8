-- ===== src/Lib.antt =====
-- A model of the OpenFlow 1.3 controller: a single process that accepts switches, shakes hands
-- with each, learns source addresses from packet-in messages and keeps a graph of the links
-- between switches, which it searches for loops.
--
-- The parts and their files:
-- - openflow.h: the enumerations and constants that the program uses are in Wire/Enums and the
--   others in the modules below it, the match fields are in Wire/Oxm and Wire/Oxm/Fields (their
--   packing in Wire/Oxm/Packing), and the structures, as the lists of the types of their fields,
--   in Wire/Layout where the program uses them, and in Wire/Actions, Messages and Multipart
--   otherwise; Wire/Declared is about all of their layouts. Wire/Decode is no part of the
--   program: it reads a message as the OpenFlow specification lays it out, and is what the
--   messages written are held against.
-- - controller.h: struct of_switch is Switch, struct network and struct node are Network.
-- - rw_packets.c: write_to, read_from and resize_buffer are in Transfer; the messages are in
--   Packets, one module for a group of them (Requests, Echo, PacketOut, FlowMod, PacketIn,
--   PortMod, Ports), each function under its own name.
-- - controller.c: the loop search is Network/Search; the globals, add_connection and
--   free_switch_buffers are in Controller; the handlers of a socket are Controller/Read and
--   Controller/Write; new connections are Controller/Setup, and the select loop is
--   Controller/Select. main is Program, with its arguments, create_listening_socket and what is
--   freed at the end in Program/Arguments, Listening and Shutdown.
-- - the proofs stand in modules below the part they are about: Packets/Framing, Packets/Echoed,
--   Packets/FlowMod/Rules and Learned, Packets/PacketIn/Ports and Learning, Packets/Ports/Table
--   and Closed for the messages; Transfer/Chunks, Controller/Write/Sends and Handshake,
--   Controller/Read/Receives, Frames and Failure for the two handlers; Network/Links, Kept,
--   Marks, Total, Simple and Forest for the graph, where Forest is about graphs without loops,
--   and Controller/Links, Links/Trees and Tracking for the graph and the list of switches
--   together; Controller/EchoExchange for a whole request and its reply; Controller/Select/Sets
--   for the descriptor sets and Controller/Running for the rounds of the loop from the start on,
--   with the modules named Kept for what single calls keep of a switch, and those named Sound,
--   below Packets, Controller/Write and Controller/Running, for its buffers; Program/Ends and the
--   modules below Program/Arguments, Listening and Shutdown for the whole run. Tests has runs at
--   concrete inputs.
--
-- State. A function that changes a switch through its pointer takes the switch and returns the
-- new one; a function that reaches the globals takes and returns the record Controller. A buffer
-- is a block of memory with its size, a function from offsets to bytes, and a flag that an access
-- out of bounds or after free sets and nothing clears; what the memory holds outside its size is
-- of no meaning. The buffers stand apart from each other: what a store past the end of one, of
-- connected_ports or of an argument's array, does to its neighbour in memory is not modelled, and
-- results about whole runs exclude such a store. Stores and copies are recorded, and reads at offsets that the message gives;
-- reads of fields at fixed offsets, and those of the search for the input port, lie below 300 and
-- are not. The store of a message is a list of fields of given width and value in network order,
-- put at an offset. 8-, 16- and 32-bit counters wrap as in C. A run of the code ends as Outcome
-- says: with a result, by exit, by a null dereference, or out of fuel.
--
-- Interplay. select_loop makes the descriptor sets, hands the ready ones to handle_all_sockets,
-- which calls handle_read_socket or handle_write_socket on each switch; both use read_from and
-- write_to, and the dispatch calls the message functions. read_packet_in does not call
-- add_connection itself: it returns the two ends of the link, and the read side calls it on the
-- controller.
--
-- Arguments of the model. The answers of select, accept, send, recv and realloc, and the
-- interrupt flag, come as lists or arguments of the functions that ask for them, and those of
-- getaddrinfo, socket, bind, listen and getsockname in the record System; nothing else of the
-- operating system is assumed. Where a result is about all rounds of the loop, Controller/Running and
-- the modules below it say what may be answered: memory can be had, a connection comes while list
-- and table have room, and a probe names a known device. recv and send do not fail and answer with
-- no more bytes than they were asked for, a switch is served for reading while it reads and for
-- writing while it writes, and a message that a switch sends fits in the read buffer, is of a known
-- type, as long as its type wants, and names only ports that the table has entries for. A link is
-- not reported while another switch has sent a part of a message, where the code may start a second
-- message over the first.
--
-- Bounds. loop_exists gives the recursion one unit of fuel for each device of the table and one
-- more: each call that goes on marks one more device. The search for the input port has one round
-- for each value of its 8-bit offset, so that more rounds would only repeat.
--
-- Not modelled: make_non_blocking, which only calls the operating system; printing; and
-- smartalloc.c and checksum.c, which are copies of other projects' code.
pub mod Prelude
pub mod Memory
pub mod Wire
pub mod Switch
pub mod Outcome
pub mod Transfer
pub mod Network
pub mod Packets
pub mod Controller
pub mod Program
mod Tests
