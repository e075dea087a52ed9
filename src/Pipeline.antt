-- ===== src/Pipeline.antt =====
-- The pipelines of crates/ruststream-fred/src/pipeline: the commands that the handlers of a
-- subscription queue until their deliveries settle.
pub mod Slots
pub mod Rounds
pub mod Window
pub mod Tests
