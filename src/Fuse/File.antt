-- ===== src/Fuse/File.antt =====
-- filesystem/server/provider/fuse/filesystem/file: files that are not streamed.
pub mod Handle
pub mod Node
