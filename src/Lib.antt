-- ===== src/Lib.antt =====
-- simple-quic, a user-space QUIC transport: the parts of its library under `src` that carry the
-- protocol, as functions, and the theorems that make them correct.
--
-- The parts and the files that model them:
-- - Common: the Boolean tests, lists, bit operations and errors that all files share. A failed
--   assert, a C++ exception, a read past an array and a division by zero are the errors of `Result`.
-- - Utils/ByteStream (`src/utils/bytestream.hh`): a buffer with a cursor. The functions of the
--   program that take a `ByteStream&` are actions of the state monad `Io` over it. An error ends the
--   action and yields no stream: the program aborts or drops the packet there.
-- - Utils/Codec (`src/utils/variable_codec.cc`): encodeUInt, decodeUint, encodeVarInt, decodeVarInt,
--   encodeVarIntLen, encodeBuffer and decodeBuffer.
-- - Utils/Interval (`src/utils/interval.hh`): Interval, with PointComp, RangeComp, Merge and
--   Complement, and IntervalSet, the list of intervals from the highest down.
-- - Context/ConnectionId (`src/context/connection_id.cc`): ConnectionID, its order and its wire form,
--   and ConnectionIDGenerator (Generator).
-- - Context/Floats: the arithmetic of float and double that the limits of flow control use.
-- - Context/Stream (`src/context/connection.hh`, Stream): the receive buffer and the limits of a
--   stream, with the part of SocketLoop (`src/context/quic.cc`) that hands received data over.
-- - Context/Congestion (`src/context/connection.hh`, Connection): the congestion window, its threshold
--   and state, and the bytes in flight.
-- - Context/Queue, Context/Ledger, Context/Streams, Context/Unsent (`src/context/connection.hh`,
--   Connection): the packets that wait to be sent; the packets sent and received, with their timers;
--   the table of streams and their numbers; the data that is not in packets yet.
--   Streams/Limits holds the tests on when a limit is raised, and Context/Rtt the round-trip times.
-- - Context/Sending (`src/context/quic.cc`): for one connection, the loops of SocketLoop that send what
--   waits (Loop) and queue again what is not acknowledged (Resend), and encodeDatagram (Datagram).
-- - Context/Incoming (`src/context/quic.cc`, incomingMsg): the frames of a ONE_RTT packet, for the
--   connections of an endpoint. Incoming holds ACK and the limits, Frames holds RESET_STREAM,
--   CONNECTION_CLOSE and PING, Data holds STREAM, and OneRtt is the loop over the frames.
-- - Context/Closing, Context/Handshake, Context/Timeouts (`src/context/quic.cc`): CloseConnection,
--   CloseStream and the alarm that ends the wait for the peer; CreateConnection and the case of INITIAL
--   packets, with the switch of incomingMsg, from the packet (incoming_msg) and from the datagram
--   (incoming_datagram) (Receive); the probe timeout, the idle timeout and the
--   packet that acknowledges what has been received.
-- - Context/SocketLoop (`src/context/quic.cc`, SocketLoop): a turn of the loop over the connections,
--   composed of these blocks, and the runs of an endpoint (Events).
-- - Context/States: the diagram of the states of a connection, as a step relation.
-- - Payload/Frame (`src/payload/frame.hh`): one constructor per class of frame. Encode, Length and
--   Parse hold Encode, EncodeLen and the constructors from a stream; Wire describes the bytes of a
--   frame independently of them.
-- - Payload/Packet (`src/payload/packet.hh`): headers (Codec, Make), payloads (Frames) and whole
--   packets (Whole), and Wire, the bytes of a header described independently of the code.
--
-- How they interact: Frame::Parse takes the bytes of a stream through decodeVarInt and decodeUint,
-- and an ACK frame fills an IntervalSet through AddInterval. A packet is a header and a list of
-- frames; CollectACKRange unites the sets of its ACK frames. Interval sets hold the packet numbers
-- that a connection has received. The loop over received STREAM frames calls WhetherTpUper,
-- UpdateExpOffset, GetBufferedStream and AddToBufferedStream of the stream. SendData puts data into
-- the unsent buffers, GetPktFromUnsentBuf makes packets of STREAM frames out of it, within the limits
-- of the stream and the connection, and AddPacket queues them. The loop of SocketLoop takes packets
-- from the queue, drops those that are acknowledged, and sends the others as datagrams; those that
-- need an acknowledgement get a timer in the ledger. The handler of ACK frames removes timers
-- (remNeedACKPkt), tells congestion control, and notes the numbers; the loop over the timers that are
-- left puts late packets back into the queue. An INITIAL packet makes a connection at the
-- server, and moves those that are known on from CREATED and PEER_ESTABLISHED; a ONE_RTT packet is
-- given, frame by frame, to the first connection that fits it. CloseConnection, called by the handler
-- of STREAM frames, by the idle timeout and by the user, queues a packet with CONNECTION_CLOSE and
-- waits for its acknowledgement, the peer's own packet or the alarm.
--
-- Numbers: uint64_t values are natural numbers. Where the source can wrap, the model has `sub64`
-- or `% 2 ^ 64`; the theorems on intervals ask for ends below 2 ^ 64 - 1 where the source adds one.
--
-- Loops: they recurse on a list or a count. The loops of PaddingFrame and of Payload have fuel, the
-- number of free bytes, since each turn takes at least one; when no byte is left, a further turn
-- fails an assertion, which is the last clause of each.
--
-- SocketLoop visits as many connections as there are, with their number as the fuel. The loop over
-- GetBufferedStream has fuel, the number of buffered chunks, and the loop over the
-- pending packets the number of packets, since each turn takes one.
--
-- ConnectionIDGenerator draws at most 16 times, as MAX_REGENERATION has it, and fails then.
--
-- Floats: `size >= limit * FLOW_CONTROL_THRESH` and `cur_limit * 1.414` are computed on natural numbers
-- with the rounding of the 24 or 53 bits of the type, to nearest and to even.
--
-- Time: a call of gettimeofday is a parameter, and the calls in one turn of a loop give one time.
--
-- Not modelled: sockets, the clock and logging, which are calls of the system; the bytes that
-- RandomByteGenerator::Fill writes, which are a parameter; callbacks; the addresses of peers; the fields
-- of Connection that nothing reads; the endless loop of SocketLoop, of which any
-- number of turns is modelled; ChunkStream (`src/utils/chunkstream.hh`), which no
-- other file uses; and the example programs.
pub mod Common
pub mod Utils
pub mod Context
pub mod Payload
