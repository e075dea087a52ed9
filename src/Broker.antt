-- ===== src/Broker.antt =====
-- The parts of crates/ruststream-fred/src that a broker is made of, beside the server that tests
-- run it on.
pub mod Calls
pub mod Routes
pub mod Delay
pub mod Recovery
pub mod Claims
pub mod Tests
