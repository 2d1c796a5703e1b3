-- ===== src/Fuse/File/Handle.antt =====
-- filesystem/server/provider/fuse/filesystem/file/handle/main.go. Of the node a handle uses the
-- identifier and the size, which do not change. `R` is the state of the remote file system.
pub mod Laws
use fuse_video_streamer.Base.{ℕ, ◌+◌, ◌%◌, ◌^◌, Bool, true, false, none, some, List, if◌then◌else◌}
use fuse_video_streamer.Base.Int.{ℤ, bits64, signed64}
use fuse_video_streamer.Go.{GoError, enoent, Error, Outcome, ok, err}
use fuse_video_streamer.Client.{Client}

pub record Handle : Type 0 where
  pub id : ℕ
  pub node_identifier : ℕ
  pub node_size : ℕ
  pub closed : Bool

-- `handle.New`, with the counter `incrementId`, a uint64.
unfoldable pub new_handle : ℕ → ℕ → ℕ → Handle × ℕ
new_handle increment_id node_identifier node_size =
    let id = (increment_id + 1) % 2 ^ 64 in
    (
      record { id = id; node_identifier = node_identifier; node_size = node_size; closed = false },
      id,
    )

-- `if err != nil { return err }`, else the value.
abbrev pub outcome_of : {A : Type 0} → A × Error → Outcome A
outcome_of (a, some e) = err e
outcome_of (a, none) = ok a

module _ {R : Type 0} (client : Client R) where
  unfoldable pub read_all : R → Handle → Outcome (List ℕ) × R
  read_all r h =
      if h.closed
      then (err enoent, r)
      else let (answer, r') = client.file_system.read_file r h.node_identifier 0 h.node_size in
        (outcome_of answer, r')

  -- `Read` of `size` bytes at `offset`: an int and an int64, converted to uint64.
  unfoldable pub read : R → Handle → ℤ → ℤ → Outcome (List ℕ) × R
  read r h offset size =
      if h.closed
      then (err enoent, r)
      else let (answer, r') =
          client.file_system.read_file r h.node_identifier (bits64 offset) (bits64 size) in
        (outcome_of answer, r')

  -- `int(bytesWritten)` of a `WriteFile` that succeeded.
  abbrev pub written : ℕ × Error → Outcome ℤ
  written (n, some e) = err e
  written (n, none) = ok (signed64 n)

  -- `Write`, whose result is `writeResponse.Size`.
  unfoldable pub write : R → Handle → ℤ → List ℕ → Outcome ℤ × R
  write r h offset bytes =
      if h.closed
      then (err enoent, r)
      else let (answer, r') =
          client.file_system.write_file r h.node_identifier (bits64 offset) bytes in
        (written answer, r')

unfoldable pub release : Handle → Error
release h = if h.closed then some enoent else none

unfoldable pub flush : Handle → Error
flush h = if h.closed then some enoent else none

unfoldable pub fsync : Handle → Error
fsync h = if h.closed then some enoent else none

-- `Close`, which always returns nil.
unfoldable pub close : Handle → Handle
close h = if h.closed then h else record h { closed = true }
