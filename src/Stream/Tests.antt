-- ===== src/Stream/Tests.antt =====
-- A network and a ring buffer on which the stream packages run, and the theorems on them.
pub mod Setup
mod TransferTests
mod CoreTests
mod FactoryTests
