-- ===== src/Stream/Transfer/Threads.antt =====
-- The invariant of the three threads of stream/transfer/main.go, over every schedule.
use fuse_video_streamer.Base.{
  ℕ, ◌≤◌, ◌≡◌, refl, ◌⊎◌, Bool, true, false, Option, none, some, List, [], ◌∷◌, arith, length,
}
use fuse_video_streamer.Go.{Error}
use fuse_video_streamer.Stream.External.{Http, Ring}
use fuse_video_streamer.Stream.Connection.{Connection}
use fuse_video_streamer.Stream.Transfer.{
  Transfer, StartPc, adding, spawning, selecting, stopping, marking, finishing, ended, CopyPc,
  unborn, checking, reading, writing, sending, halted, crashed, ClosePc, swapping, closing,
  canceling, waiting, returned, new_transfer, Move, starts, copies, closes, start_step, copy_step,
  close_step, step, run,
}

-- The wait group counts `start` while it runs.
abbrev pub Counted : StartPc → ℕ → Type 0
Counted adding wg = wg ≡ 0
Counted ended wg = wg ≡ 0
Counted _ wg = wg ≡ 1

-- `copyData` runs once `start` has spawned it.
abbrev pub Born : StartPc → CopyPc → Type 0
Born adding c = c ≡ unborn
Born spawning c = c ≡ unborn
Born _ unborn = ⊥
Born _ _ = Unit {0}

-- Until `copyData` has sent its result the channel is empty.
abbrev pub Sent : CopyPc → List Error → Type 0
Sent halted done = length done ≤ 1
Sent _ done = done ≡ []

abbrev pub Flags : ClosePc → Bool → Bool → Type 0
Flags swapping closed canceled = (closed ≡ false) × (canceled ≡ false)
Flags closing closed canceled = (closed ≡ true) × (canceled ≡ false)
Flags canceling closed canceled = (closed ≡ true) × (canceled ≡ false)
Flags _ closed canceled = (closed ≡ true) × (canceled ≡ true)

abbrev pub Present : Option Connection → Type 0
Present none = ⊥
Present (some c) = Unit {0}

-- The connection is nil only behind the case of `context.Done()`.
abbrev pub Held : StartPc → Option Connection → Bool → Type 0
Held stopping c canceled = Present c × (canceled ≡ true)
Held marking c canceled = Present c ⊎ (canceled ≡ true)
Held finishing c canceled = Present c ⊎ (canceled ≡ true)
Held ended c canceled = Present c ⊎ (canceled ≡ true)
Held _ c canceled = Present c

abbrev pub Crashed : CopyPc → Option Connection → Type 0
Crashed crashed c = c ≡ none
Crashed _ c = Unit {0}

pub record Inv {W B : Type 0} (t : Transfer W B) : Type 0 where
  pub counted : Counted t.starter t.wg
  pub born : Born t.starter t.copier
  pub sent : Sent t.copier t.done
  pub flags : Flags t.closer t.closed t.canceled
  pub held : Held t.starter t.connection t.canceled
  pub gone : Crashed t.copier t.connection

pub new_transfer-Inv :
    {W B : Type 0} (network : W) (buffer : B) (c : Connection) → Inv (new_transfer network buffer c)
unfolding new_transfer
new_transfer-Inv network buffer c = ground arith

module _ {W B : Type 0} (http : Http W) (ring : Ring B) where
  start_step-Inv :
      (choice : Bool) (t : Transfer W B) (pc : StartPc)
      → t.starter ≡ pc
      → Inv t
      → Inv (start_step http ring choice t pc)
  unfolding start_step
  start_step-Inv choice t adding e v = ground arith
  start_step-Inv choice t spawning e v = ground arith
  start_step-Inv choice t selecting e v = ground arith
  start_step-Inv choice t stopping e v = ground arith
  start_step-Inv choice t marking e v = ground arith
  start_step-Inv choice t finishing e v = ground arith
  start_step-Inv choice t ended e v = v

  copy_step-Inv :
      (t : Transfer W B) (pc : CopyPc) → t.copier ≡ pc → Inv t → Inv (copy_step http ring t pc)
  unfolding copy_step
  copy_step-Inv t unborn e v = v
  copy_step-Inv t checking e v = ground arith
  copy_step-Inv t reading e v = ground arith
  copy_step-Inv t (writing bytes r) e v = ground arith
  copy_step-Inv t (sending r) e v = ground arith
  copy_step-Inv t halted e v = v
  copy_step-Inv t crashed e v = v

  close_step-Inv :
      (t : Transfer W B) (pc : ClosePc) → t.closer ≡ pc → Inv t → Inv (close_step http ring t pc)
  unfolding close_step
  close_step-Inv t swapping e v = ground arith
  close_step-Inv t closing e v = ground arith
  close_step-Inv t canceling e v = ground arith
  close_step-Inv t waiting e v = ground arith
  close_step-Inv t returned e v = v

  pub step-Inv : (m : Move) (t : Transfer W B) → Inv t → Inv (step http ring m t)
  unfolding step
  step-Inv (starts choice) t v = start_step-Inv choice t t.starter refl v
  step-Inv copies t v = copy_step-Inv t t.copier refl v
  step-Inv closes t v = close_step-Inv t t.closer refl v

  pub run-Inv : (ms : List Move) (t : Transfer W B) → Inv t → Inv (run http ring ms t)
  unfolding run
  run-Inv [] t v = v
  run-Inv (m ∷ ms) t v = run-Inv ms (step http ring m t) (step-Inv m t v)
