-- ===== src/Stream/Transfer/Alignment.antt =====
-- Theorems about the bytes that the transfer of stream/transfer/main.go puts into the ring buffer.
use Prim.Native.String.{String}
use fuse_video_streamer.Base.{
  ℕ, ◌≡◌, refl, inl, inr, Bool, true, false, Option, none, some, List, [], ◌∷◌, drop, Bool-cases,
  ◌==◌,
}
use fuse_video_streamer.Base.Int.{pos}
use fuse_video_streamer.Go.{Error}
use fuse_video_streamer.Stream.External.{Http, Ring, Serves, Buffers}
use fuse_video_streamer.Stream.Connection.{Connection}
use fuse_video_streamer.Stream.Connection.Laws.{close-closed}
use fuse_video_streamer.Stream.Transfer.Threads.{Inv, Born, step-Inv, new_transfer-Inv}
use fuse_video_streamer.Stream.Transfer.{
  Transfer, StartPc, adding, spawning, selecting, stopping, marking, finishing, ended, unborn,
  ClosePc, swapping, closing, canceling, waiting, returned, new_transfer, Move, starts, copies,
  closes, start_step, close_step, select_step, stop_connection, close_connection, step, run,
}
use fuse_video_streamer.Stream.Transfer.Aligned.{Aligned, reading-Follows}
use fuse_video_streamer.Stream.Transfer.Copying.{copy_step-Aligned}

module _ {W B : Type 0} (file : List ℕ) (unread : W → ℕ → List ℕ) (first : B → ℕ)
    (window : B → List ℕ) (url : String) (start : ℕ) (http : Http W) (ring : Ring B)
    (serves : Serves http url file unread) (buffers : Buffers ring first window) where
  select_step-Aligned :
      (choice : Bool) (t : Transfer W B) (canceled : Bool) (done : List Error)
      → Aligned file unread first window url start t
      → Aligned file unread first window url start (select_step http ring choice t canceled done)
  unfolding select_step
  select_step-Aligned choice t false [] v = v
  select_step-Aligned choice t true [] v = v
  select_step-Aligned choice t false (e ∷ rest) v = v
  select_step-Aligned true t true (e ∷ rest) v = v
  select_step-Aligned false t true (e ∷ rest) v = v

  stop_connection-Aligned :
      (t : Transfer W B) (c : Option Connection)
      → Aligned file unread first window url start t
      → Aligned file unread first window url start (stop_connection http ring t c)
  unfolding stop_connection
  stop_connection-Aligned t none v = v
  stop_connection-Aligned t (some c) (rest, a, f) = (rest, a, inr tt)

  close_connection-Aligned :
      (t : Transfer W B) (c : Option Connection)
      → t.connection ≡ c
      → Aligned file unread first window url start t
      → Aligned file unread first window url start (close_connection http ring t c)
  unfolding close_connection
  close_connection-Aligned t none e v = v
  close_connection-Aligned t (some c) e (rest, a, f) =
      (rest, a, inr (inl (close-closed http t.network c)))

  start_step-Aligned :
      (choice : Bool) (t : Transfer W B) (pc : StartPc)
      → t.starter ≡ pc
      → Born t.starter t.copier
      → Aligned file unread first window url start t
      → Aligned file unread first window url start (start_step http ring choice t pc)
  unfolding start_step
  start_step-Aligned choice t adding e b v = v
  start_step-Aligned choice t spawning e b (rest, a, f) =
      let u : t.copier ≡ unborn = rw e at b in
      (
        rest,
        rw u at a,
        inr (
            reading-Follows file unread first window url start unborn t.network rest t.connection
              refl (rw u at f)),
      )
  start_step-Aligned choice t selecting e b v = select_step-Aligned choice t t.canceled t.done v
  start_step-Aligned choice t stopping e b v = stop_connection-Aligned t t.connection v
  start_step-Aligned choice t marking e b (rest, a, f) =
      let (kept, same) = buffers.marker_keeps t.buffer in (rest, rw (kept, same) a, f)
  start_step-Aligned choice t finishing e b v = v
  start_step-Aligned choice t ended e b v = v

  close_step-Aligned :
      (t : Transfer W B) (pc : ClosePc)
      → t.closer ≡ pc
      → Aligned file unread first window url start t
      → Aligned file unread first window url start (close_step http ring t pc)
  unfolding close_step
  close_step-Aligned t swapping e v = elim (Bool-cases t.closed) [
    | inl on ↦ rw (on, close_step) v
    | inr off ↦ rw (off, close_step) v
  ]
  close_step-Aligned t closing e v = close_connection-Aligned t t.connection refl v
  close_step-Aligned t canceling e v = v
  close_step-Aligned t waiting e v = elim (Bool-cases (t.wg == 0)) [
    | inl on ↦ rw (on, close_step) v
    | inr off ↦ rw (off, close_step) v
  ]
  close_step-Aligned t returned e v = v

  pub step-Aligned :
      (m : Move) (t : Transfer W B)
      → Inv t
      → Aligned file unread first window url start t
      → Aligned file unread first window url start (step http ring m t)
  unfolding step
  step-Aligned (starts choice) t v a = start_step-Aligned choice t t.starter refl v.born a
  step-Aligned copies t v a =
      copy_step-Aligned file unread first window url start http ring serves buffers t t.copier refl
        a
  step-Aligned closes t v a = close_step-Aligned t t.closer refl a

  pub run-Aligned :
      (ms : List Move) (t : Transfer W B)
      → Inv t
      → Aligned file unread first window url start t
      → Aligned file unread first window url start (run http ring ms t)
  unfolding run
  run-Aligned [] t v a = a
  run-Aligned (m ∷ ms) t v a =
      run-Aligned ms (step http ring m t) (step-Inv http ring m t v) (step-Aligned m t v a)

  -- The transfer that `newTransfer` makes: a connection for a position, and the buffer reset to it.
  pub new_transfer-Aligned :
      (w : W) (b : B) (c : Connection)
      → c.body ≡ none
      → c.url ≡ url
      → c.start_position ≡ pos start
      → Aligned file unread first window url start
          (new_transfer w (ring.reset_to_position b (pos start)) c)
  unfolding new_transfer
  new_transfer-Aligned w b c unset here at_start =
      let (begins, empty) = buffers.reset_empties b start in
      (drop start file, rw (begins, empty), inr (inr (rw unset, at_start, here)))

  -- A transfer whose fresh connection is to an address where the server has a file, and asks for
  -- the position that the ring buffer was reset to, stays aligned over every schedule of start,
  -- copyData and Close: the file from the buffer's first position on is what the buffer holds,
  -- then what copyData has in hand, then what the connection still gives.
  pub run-new_transfer-Aligned :
      (ms : List Move) (w : W) (b : B) (c : Connection)
      → c.body ≡ none
      → c.url ≡ url
      → c.start_position ≡ pos start
      → Aligned file unread first window url start
          (run http ring ms (new_transfer w (ring.reset_to_position b (pos start)) c))
  run-new_transfer-Aligned ms w b c unset here at_start =
      run-Aligned ms _ (new_transfer-Inv w (ring.reset_to_position b (pos start)) c)
        (new_transfer-Aligned w b c unset here at_start)
