-- ===== src/Stream/Transfer/Closing.antt =====
-- What a caller of `Transfer.Close` in stream/transfer/main.go waits for.
use fuse_video_streamer.Base.{◌≤◌, ◌≡◌, refl, ap, Bool, List, [], ◌∷◌, arith}
use fuse_video_streamer.Stream.External.{Http, Ring}
use fuse_video_streamer.Stream.Transfer.Threads.{Inv, step-Inv, run-Inv}
use fuse_video_streamer.Stream.Transfer.Ending.{canceled-run_starts}
use fuse_video_streamer.Stream.Transfer.Weights.{
  IsOver, starts_in, ended_of_weight, start_weight-le,
}
use fuse_video_streamer.Stream.Transfer.{
  Transfer, StartPc, adding, spawning, selecting, stopping, marking, finishing, ended, CopyPc,
  unborn, checking, reading, writing, sending, halted, crashed, ClosePc, swapping, closing,
  canceling, waiting, returned, Move, starts, copies, closes, start_step, copy_step, close_step,
  step, run,
}

-- `Close` has come to its wait.
abbrev pub Waits : ClosePc → Type 0
Waits waiting = Unit {0}
Waits returned = Unit {0}
Waits _ = ⊥

-- `start` is behind `wg.Add(1)`, and `Close` has not returned unless `start` is at its end.
abbrev pub Joined : ClosePc → StartPc → Type 0
Joined _ adding = ⊥
Joined returned ended = Unit {0}
Joined returned _ = ⊥
Joined _ _ = Unit {0}

-- None of the threads will make a step.
abbrev pub IsQuiet : {W B : Type 0} → Transfer W B → Type 0
IsQuiet t = (t.starter ≡ ended) × (t.closer ≡ returned) × IsOver t.copier

module _ {W B : Type 0} (http : Http W) (ring : Ring B) where
  closer-start_step :
      (choice : Bool) (t : Transfer W B) (pc : StartPc)
      → (start_step http ring choice t pc).closer ≡ t.closer
  unfolding start_step
  closer-start_step choice t adding = refl
  closer-start_step choice t spawning = refl
  closer-start_step choice t selecting = ground arith
  closer-start_step choice t stopping = ground arith
  closer-start_step choice t marking = refl
  closer-start_step choice t finishing = refl
  closer-start_step choice t ended = refl

  threads-copy_step :
      (t : Transfer W B) (pc : CopyPc)
      → ((copy_step http ring t pc).closer ≡ t.closer)
        × ((copy_step http ring t pc).starter ≡ t.starter)
  unfolding copy_step
  threads-copy_step t unborn = (refl, refl)
  threads-copy_step t checking = ground arith
  threads-copy_step t reading = ground arith
  threads-copy_step t (writing bytes e) = (refl, refl)
  threads-copy_step t (sending e) = ground arith
  threads-copy_step t halted = (refl, refl)
  threads-copy_step t crashed = (refl, refl)

  Waits-close_step :
      (t : Transfer W B) (pc : ClosePc)
      → t.closer ≡ pc
      → Waits pc
      → Waits (close_step http ring t pc).closer
  unfolding close_step
  Waits-close_step t swapping e h = absurd h
  Waits-close_step t closing e h = absurd h
  Waits-close_step t canceling e h = absurd h
  Waits-close_step t waiting e h = ground arith
  Waits-close_step t returned e h = ground arith

  Waits-run :
      (ms : List Move) (t : Transfer W B) → Waits t.closer → Waits (run http ring ms t).closer
  unfolding run step
  Waits-run [] t h = h
  Waits-run (starts choice ∷ ms) t h =
      Waits-run ms (start_step http ring choice t t.starter)
        (rw (closer-start_step choice t t.starter) h)
  Waits-run (copies ∷ ms) t h =
      Waits-run ms (copy_step http ring t t.copier) (rw (threads-copy_step t t.copier).0 h)
  Waits-run (closes ∷ ms) t h =
      Waits-run ms (close_step http ring t t.closer) (Waits-close_step t t.closer refl h)

  return-close_step :
      (t : Transfer W B) (pc : ClosePc)
      → Waits pc
      → t.closer ≡ pc
      → t.wg ≡ 0
      → (close_step http ring t pc).closer ≡ returned
  unfolding close_step
  return-close_step t swapping h e z = absurd h
  return-close_step t closing h e z = absurd h
  return-close_step t canceling h e z = absurd h
  return-close_step t waiting h e z = ground arith
  return-close_step t returned h e z = e

  -- In a state that keeps the threads' invariant, a Close of the transfer that waits returns: once
  -- start has made six more moves, however the other threads run in between, start is at its end
  -- and the next step of Close is its return.
  pub close_returns :
      (ms : List Move) (t : Transfer W B)
      → Inv t
      → t.closer ≡ waiting
      → 6 ≤ starts_in ms
      → ((run http ring ms t).starter ≡ ended)
        × ((step http ring closes (run http ring ms t)).closer ≡ returned)
  unfolding step
  close_returns ms t v x six =
      let v' = run-Inv http ring ms t v in
      let weight = canceled-run_starts http ring ms t v (rw x at v.flags).1 in
      let over =
        ended_of_weight (run http ring ms t).starter
          (omega (arith, weight, start_weight-le t.starter)) in
      (
        over,
        return-close_step (run http ring ms t) (run http ring ms t).closer
            (Waits-run ms t (rw x tt)) refl (rw over at v'.counted),
      )

  Joined-start_step :
      (choice : Bool) (t : Transfer W B) (pc : StartPc)
      → t.starter ≡ pc
      → Joined t.closer pc
      → Joined (start_step http ring choice t pc).closer (start_step http ring choice t pc).starter
  unfolding start_step
  Joined-start_step choice t adding e j = absurd j
  Joined-start_step choice t spawning e j = ground arith
  Joined-start_step choice t selecting e j = ground arith
  Joined-start_step choice t stopping e j = ground arith
  Joined-start_step choice t marking e j = ground arith
  Joined-start_step choice t finishing e j = ground arith
  Joined-start_step choice t ended e j = ground arith

  Joined-close_step :
      (t : Transfer W B) (pc : ClosePc)
      → t.closer ≡ pc
      → Inv t
      → Joined pc t.starter
      → Joined (close_step http ring t pc).closer (close_step http ring t pc).starter
  unfolding close_step
  Joined-close_step t swapping e v j = ground arith
  Joined-close_step t closing e v j = ground arith
  Joined-close_step t canceling e v j = ground arith
  Joined-close_step t waiting e v j = ground arith
  Joined-close_step t returned e v j = rw e j

  -- In a state that keeps the threads' invariant, once start is behind its wg.Add(1) and Close has
  -- not returned before it, no schedule lets the transfer's Close return before start is at its
  -- end.
  pub close_waits :
      (ms : List Move) (t : Transfer W B)
      → Inv t
      → Joined t.closer t.starter
      → Joined (run http ring ms t).closer (run http ring ms t).starter
  unfolding run step
  close_waits [] t v j = j
  close_waits (starts choice ∷ ms) t v j =
      close_waits ms (start_step http ring choice t t.starter)
        (step-Inv http ring (starts choice) t v) (Joined-start_step choice t t.starter refl j)
  close_waits (copies ∷ ms) t v j =
      close_waits ms (copy_step http ring t t.copier) (step-Inv http ring copies t v)
        (rw (threads-copy_step t t.copier).0 (rw (threads-copy_step t t.copier).1 j))
  close_waits (closes ∷ ms) t v j =
      close_waits ms (close_step http ring t t.closer) (step-Inv http ring closes t v)
        (Joined-close_step t t.closer refl v j)

  over-copy_step : (t : Transfer W B) (pc : CopyPc) → IsOver pc → copy_step http ring t pc ≡ t
  unfolding copy_step
  over-copy_step t unborn h = absurd h
  over-copy_step t checking h = absurd h
  over-copy_step t reading h = absurd h
  over-copy_step t (writing bytes e) h = absurd h
  over-copy_step t (sending e) h = absurd h
  over-copy_step t halted h = refl
  over-copy_step t crashed h = refl

  pub quiet_step : (m : Move) (t : Transfer W B) → IsQuiet t → step http ring m t ≡ t
  unfolding step start_step close_step
  quiet_step (starts choice) t (a, b, c) = ap (start_step http ring choice t) a
  quiet_step closes t (a, b, c) = ap (close_step http ring t) b
  quiet_step copies t (a, b, c) = over-copy_step t t.copier c
