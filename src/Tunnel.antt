-- ===== src/Tunnel.antt =====
-- A proxied connection as a whole: two relays of lib/tcprelay.cpp, the local one and that of the
-- server, with the stream of the TCP connection between them.
pub mod Streams
pub mod Runs
pub mod Arrivals
pub mod Destination
pub mod Begun
pub mod Reached
pub mod Total
pub mod Session
pub mod Answers
pub mod Tests
