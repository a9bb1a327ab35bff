-- ===== src/Context.antt =====
-- src/context: connection identifiers and the state of streams and connections.
pub mod ConnectionId
pub mod Stream
pub mod Streams
pub mod Unsent
pub mod Queue
pub mod Ledger
pub mod Rtt
pub mod Floats
pub mod Sending
pub mod Incoming
pub mod Closing
pub mod Handshake
pub mod SocketLoop
pub mod States
pub mod Timeouts
pub mod Congestion
