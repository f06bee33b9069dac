-- ===== src/Usbip.antt =====
-- esp-daplink-host/src/usbip.rs: the USB/IP server. Stream is the client's connection, Reply what is
-- written to it, Control the control endpoint, Serve the loop over the client's URBs, Attach the
-- handshake in front of it. Client and Parse are the client's side of the protocol, Session and
-- Exchange what it gets, Bulk a DAP command, Handshake a whole connection, Total the end of the loop.
pub mod Stream
pub mod Reply
pub mod Control
pub mod Serve
pub mod Client
pub mod Parse
pub mod Session
pub mod Exchange
pub mod Bulk
pub mod Tally
pub mod Attach
pub mod Describe
pub mod Handshake
pub mod Total
pub mod Loopback
mod Tests
