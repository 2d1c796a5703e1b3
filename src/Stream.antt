-- ===== src/Stream.antt =====
-- The package stream and the packages below it: one remote file, read through a ring buffer that
-- a background transfer fills.
pub mod Size
pub mod External
pub mod Connection
pub mod Transfer
pub mod Core
pub mod Tests
pub mod Factory
pub mod Shared
