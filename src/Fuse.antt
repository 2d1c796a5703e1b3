-- ===== src/Fuse.antt =====
-- filesystem/server/provider/fuse: the nodes and handles that the FUSE library calls.
pub mod Pool
pub mod Handles
pub mod Interfaces
pub mod Symlink
pub mod Factories
pub mod Server
pub mod Service
pub mod Root
pub mod Registry
pub mod File
pub mod Directory
pub mod FileSystem
pub mod Streamable
mod Tests
mod NodeTests
pub mod SessionTests
mod OverlapTests
mod FactoryTests
