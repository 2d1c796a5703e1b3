-- ===== src/Lib.antt =====
-- Verification of fuse_video_streamer, a FUSE server in Go that shows remote files and streams
-- videos over HTTP.
--
-- The program. The kernel asks the FUSE library, which calls nodes and handles
-- (filesystem/server/provider/fuse). A streamable handle reads through a Stream (stream/main.go):
-- a ring buffer that a Transfer (stream/transfer/main.go) fills from a Connection
-- (stream/connection/main.go), which is one HTTP range request. A seek out of the ring buffer
-- closes the transfer and starts another one at the new position. The address of a file comes from
-- a remote file system (filesystem/client), by way of a factory that keeps it
-- (stream/factory/main.go).
--
-- Base, Go            numbers, lists, int64 arithmetic; Go's errors, panics and results
-- Stream/Size         calculateBufferSize, calculatePreloadSize, the start position of
--                     newTransfer
-- Stream/External     net/http and ring_buffer_go, as parameters
-- Stream/Connection   NewConnection, Read, Close; Laws: the order of the bytes; Answering: reads
--                     from a server that answers
-- Stream/Transfer     NewTransfer, start, copyData, Close, step by step; Threads: the invariant
--                     of the threads; Aligned, Copying, Alignment: the bytes in the ring buffer;
--                     Weights, Ending, Closing: how the threads end; Races: interleavings with
--                     Close; Filling, Filled: transfers that nobody closes; Buffers: the pool of
--                     byte buffers
-- Stream/Core         the type Stream: New, ReadAt, Close, newTransfer; Starting: newTransfer;
--                     Placed: the invariant; Reading: what ReadAt gives; Closing: Close
-- Stream/Factory      New, NewStream, getStreamUrl, Close; Cache: the kept address
-- Stream/Shared       stream/pool.go and stream/map.go; Laws
-- Client              the interfaces of filesystem/client/interfaces/main.go; Grpc: the file
--                     system over grpc, its Answers, and Provider: New; Repository: the clients
--                     by name; Connecting: the configured ones
-- Fuse/Pool           the byte buffers of filesystem/server/provider/fuse/pool/main.go; Sizes
-- Fuse/Streamable     filesystem/streamable under it: Handle: handle/main.go; Replies: its byte
--                     buffers; Serving: its Read, down to the file; Node: node/main.go and
--                     handle/service/main.go; World, Stopping, Reading: the shared streams;
--                     Node/Opening, Node/Closing, Node/Holding, Node/Racing: the node and its
--                     handles; Node/Serving: Open and Read
-- Fuse/Handles        lists of handles that a node holds
-- Fuse/Interfaces     interfaces: the methods of the nodes and handles; Assertions
-- Fuse/Symlink        filesystem/symlink/main.go
-- Fuse/Registry       registry/main.go: GetInstance, Add
-- Fuse/File           filesystem/file: Handle and its Laws; Node: Open and Close; Closing;
--                     Racing: two Opens at a time
-- Fuse/Directory      filesystem/directory: Handle: ReadDirAll; Services: the node services;
--                     Requests: the requests of a directory; Listing, Laws; Registered, Served,
--                     Tidy, Grows, Kept, Made: nodes and registries; Pointers: nil nodes
-- Fuse/Factories      the factories and services of the nodes with their loggers; Known: the map
--                     of the loggers; Refines: where no logger fails
-- Fuse/Root           filesystem/root/node/main.go: the directory of the clients; Clients, Made
-- Fuse/FileSystem     filesystem/main.go, filesystem/root/node/service/main.go, and CloseNodes
--                     and Close of registry/main.go; Follows, Nodes, Closing: closing all nodes;
--                     Reach: the requests as steps from session to session; Advances, Good,
--                     Reached: what holds of all of them; Overlap: Close step by step between
--                     requests; Overlap/Shut, Due, Calm, Covered, Closed: what it closes;
--                     Overlap/Outlives: what it does not
-- Fuse/Server         main.go of filesystem/server/provider/fuse: unmount and Close; Unmount;
--                     Serving: Serve; Ending: with the file system
-- Fuse/Service        service/main.go: the making of a server
-- Program             main.go; Starting: what it asks of the configuration; Ending: its whole run
-- Config, Logger      config/main.go; logger/main.go: the making of loggers; Cached: the map of
--                     them; Lines: what they write
-- Stream/Tests, Client/Tests, Logger/Tests, Program/Tests, Fuse/Tests, NodeTests, SessionTests,
--                      OverlapTests, FactoryTests: concrete inputs
--
-- Concurrency. Each goroutine is a thread whose step is one action on shared data; a schedule is a
-- list of moves and the theorems about the transfer quantify over schedules, or name one. A call
-- of Read or Close of a connection is one step, and a copyData has a byte buffer of its own.
-- ReadAt takes the mutex of its stream, so that two reads of a stream do not interleave; Close
-- takes none, and is an event of its own. What waits (a full channel, a wait group) makes no step,
-- and a call whose schedule is too short for it gives none; a thread that panics is stopped, and
-- the others go on, where in Go the panic ends the process; termination is stated by counting the
-- moves of a thread. Only the loop of unmount has fuel: as many iterations as there are busy
-- tries, and one more, are enough. In Fuse/FileSystem a request and the Close of a node are one
-- step each, and Fuse/FileSystem/Overlap has the Close of the file system step by step between
-- them; the schedules of the streams that are closed in it are arguments.
--
-- Parameters. Http and Ring (Stream/External) are the operations of net/http and of the ring
-- buffer; Serves says that a server has a file at an address, keeps to the range asked for, and a
-- body gives its bytes in order; Buffers says that a ring buffer holds consecutive bytes from a
-- first position on, that a write appends and may drop from the front, and that a read gives a
-- part of what it holds; Answers (Stream/Connection/Answering), that requests get partial content
-- and reads get bytes. Api (Client/Grpc) are the stubs of stream_mount_api. Stream/Tests has a
-- network and a ring buffer that satisfy the hypotheses. The clock and the choice of sync.Pool are
-- arguments. Os (Logger), Output (Logger/Lines), Paths (Fuse/Symlink), Fs (Fuse/Interfaces) and
-- the dialling of a target (Client/Grpc) are the standard library's and the packages' operations
-- there, and Kernel (Fuse/Service) is fuse.Mount. Runtime (Fuse/FileSystem) says in which order Go
-- runs the goroutines of CloseNodes and goes through a map; IsFair, that it leaves none out.
--
-- Not modelled: the flags, the FUSE library, the waiting for a signal, Go's own test for
-- overlapping uses of a map, and the factories of the root and of the handles, which only make
-- their services; filesystem/interfaces and filesystem/server/service, which only hand on to the
-- service of the server. Outside of Fuse/Factories a logger is taken to be made without an error.
pub mod Base
pub mod Go
pub mod Logger
pub mod Stream
pub mod Client
pub mod Config
pub mod Fuse
pub mod Program
