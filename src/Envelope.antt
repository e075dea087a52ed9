-- ===== src/Envelope.antt =====
-- The envelopes of crates/ruststream-fred/src/envelope: how a message's payload and headers make
-- the value that travels, and how a delivery reads them back.
pub mod Wire
pub mod Seal
pub mod RustStream
pub mod FastStream
pub mod NoOp
pub mod Body
pub mod RoundTrips
pub mod Framing
pub mod Tests
