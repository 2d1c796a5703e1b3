-- ===== src/Fuse/Streamable.antt =====
-- filesystem/server/provider/fuse/filesystem/streamable: the handles through which a video is read.
pub mod Handle
pub mod World
pub mod Stopping
pub mod Reading
pub mod Node
pub mod Serving
