-- ===== src/Lib.antt =====
-- Hairgap sends a stream through a network diode: one way, over UDP, with a fountain code in place of
-- acknowledgements. The sender cuts its input into chunks, encodes each and emits packets of it; the
-- receiver reassembles the chunks and writes them out. This library models the parts that decide
-- which bytes come out.
--
-- The parts and their files, each named with the source that it follows:
--   Code.antt: the result codes of src/lib/hairgap.h, HGAP_SELECT_ERROR of src/lib/common.h, which
--     Selection is about, and hgap_err_str of src/lib/error.c.
--   Proto.antt: the packets of src/lib/proto.h and src/lib/proto.c. Layout is about the bytes of a
--     header, Parse about hgap_pkt_parse and hgap_pkt_type.
--   Channel.antt: the ring of src/lib/channel.c that passes data from one thread to the next. Queue
--     is the bounded queue that it stands for, Valid its invariant, Indices about its indices, Refine
--     the relation of the two. Threads interleaves the two threads that use it, with Control and
--     Handover about their control flow, Contents about the ring between their moves, Moves about
--     each move, Invariant and Wakeups about every interleaving, Progress about who can go on,
--     Alone and Unread about a call that is not interrupted and a producer that nobody reads from.
--   Wirehair.antt: the fountain code and the arithmetic of `double` as records of operations.
--   Encoding.antt: the structures of src/lib/encoding.c. Encode and Decode hold the functions of
--     the encoder and the decoder under their names in the code without the hgap_ prefix. Emission,
--     Written and Emit are about what the encoder emits, Packet, Reading and Delivery about what the
--     decoder does with it, Safe, Absorbing and Safety about the decoder on arbitrary bytes, Signals
--     about the packets that begin and end a transfer.
--   Send.antt: the threads of src/lib/hgap_send.c. Reader, Cutting and Failing are about
--     read_loop,
--     Preparing and Numbering about encode_loop, Sender, Rounds and Bursts about the emission loop of
--     send_loop, Loop, Groups and Sending about all of it.
--   Receive.antt: the decoder thread (decloop of src/lib/hgap_receive.c) in Decloop, with Events,
--     Stream, Transfer, Truncated and Hollow about whole transfers; the thread that writes the chunks
--     out (writer) in Writer, with Output about what it writes; the one that reads the socket
--     (hgapr_net_reader) in Network and Socket, with Forwarding and Reader about what it hands over and
--     closes.
--   Pipeline.antt: the threads of the sender, the network between, and those of the receiver.
--     Arrivals and Flight are about what arrives of a chunk and of a transfer, Onward about what the
--     network thread makes of it, Transport about the whole way.
--   Limiter.antt: the rate limiter of src/lib/limiter.c, with Pacing about the rate that it keeps.
--   Socket.antt: the sender's socket of src/lib/sender.c, with Salve about sending on it, Keepalive
--     about the thread of the keepalives.
--   Session.antt: hgap_send and hgap_receive themselves, with Sizes about the sizes that they
--     compute and Results about what they return.
--   Cli.antt: the programs src/hairgaps.c and src/hairgapr.c, with Choice about the options of the
--     first.
--   Programs.antt: hgap_send and hgap_receive with their threads, each thread on what the one
--     before it hands over. Sender and Receiver hold the two compositions. Sent is about the
--     first, Received, Landed and Interrupted about the second on what arrives, Diode about the
--     second behind the first, and Broken about both on an input that fails. Transmission puts
--     send_loop and the socket of the sender together, which Wire is about.
--   Config.antt: the defaults and the checks of src/lib/config.c.
--   Prelude.antt: lists over the native numbers, bytes, memory, and case splits.
--   Tests.antt: runs, and each theorem at a concrete input.
--
-- How code becomes definitions. A structure is a record, a pointer that may be NULL an Option, a
-- buffer the list of its bytes, and a function takes the structures that it changes and returns them.
-- Reading or writing outside a buffer is the outcome `fault`, a call of exit or a failed assertion is
-- `exited`, so a theorem that a call returns says that neither happens. Integers are natural numbers
-- with the wrap-around of their width written out; a difference of size_t wraps as well. A call that
-- waits on a condition answers `blocked`. A thread is a function of the list of its rounds, each with
-- what the channels answered in it; the list is as long as the run, so no bound is needed, and a
-- thread whose list has run out is one that waits. The clock, the sockets and the wake-ups are lists
-- of answers in the same way (of a datagram that is longer than its slot, the slot keeps the front), and an interleaving of the threads of a channel is the list of who
-- moves; memory is taken to be sequentially consistent. Two loops run on fuel: read_chunk, which
-- takes the size of its buffer as fuel and always returns, and the emission loop of send_loop, for
-- which the fuel that is enough is the number of bytes that the redundancy asks for.
--
-- Wirehair is a git submodule and not part of the repository: the record Wirehair lists the calls, and
-- the record Recovers what they are relied on for, which is that a decoder that reports itself ready
-- gives back the message that was encoded. A decoder may take more blocks than it needs in theory, so
-- whether enough arrived is asked of the decoder itself. The memory that malloc returns, the content
-- of an uninitialised packet, address resolution, stdio and the standard streams are parameters as well.
--
-- Not modelled: getopt and the conversions of texts, what is printed, and the release of memory.
pub mod Prelude
pub mod Code
pub mod Proto
pub mod Channel
pub mod Wirehair
pub mod Config
pub mod Encoding
pub mod Receive
pub mod Send
pub mod Pipeline
pub mod Limiter
pub mod Socket
pub mod Session
pub mod Cli
pub mod Programs
mod Tests
