-- ===== src/Stream/Transfer/Ending.antt =====
-- Theorems about how the goroutines of stream/transfer/main.go end.
use fuse_video_streamer.Base.{◌-◌, ◌≤◌, ◌≡◌, refl, ap, ◌∙◌, Bool, true, List, [], ◌∷◌, arith}
use fuse_video_streamer.Stream.External.{Http, Ring}
use fuse_video_streamer.Stream.Transfer.Threads.{Inv, step-Inv}
use fuse_video_streamer.Stream.Transfer.{
  Transfer, StartPc, adding, spawning, selecting, stopping, marking, finishing, ended, CopyPc,
  unborn, checking, reading, writing, sending, halted, crashed, ClosePc, swapping, closing,
  canceling, waiting, returned, Move, starts, copies, closes, start_step, copy_step, close_step,
  step, run,
}
use fuse_video_streamer.Stream.Transfer.Weights.{
  start_weight, copy_weight, copy_weight-le, is_born, starts_in, copies_in, IsOver,
  IsOver-of_weight,
}

module _ {W B : Type 0} (http : Http W) (ring : Ring B) where
  canceled-start_step :
      (choice : Bool) (t : Transfer W B) (pc : StartPc)
      → t.starter ≡ pc
      → t.canceled ≡ true
      → ((start_step http ring choice t pc).canceled ≡ true)
        × (start_weight (start_step http ring choice t pc).starter ≤ start_weight pc - 1)
  unfolding start_step
  canceled-start_step choice t adding e c = ground arith
  canceled-start_step choice t spawning e c = ground arith
  canceled-start_step choice t selecting e c = ground arith
  canceled-start_step choice t stopping e c = ground arith
  canceled-start_step choice t marking e c = ground arith
  canceled-start_step choice t finishing e c = ground arith
  canceled-start_step choice t ended e c = ground arith

  canceled-copy_step :
      (t : Transfer W B) (pc : CopyPc)
      → t.copier ≡ pc
      → Inv t
      → t.canceled ≡ true
      → ((copy_step http ring t pc).canceled ≡ true)
        × ((copy_step http ring t pc).starter ≡ t.starter)
        × (is_born (copy_step http ring t pc).copier ≡ is_born pc)
        × (is_born pc ≡ true → copy_weight (copy_step http ring t pc).copier ≤ copy_weight pc - 1)
  unfolding copy_step
  canceled-copy_step t unborn e v c = ground arith
  canceled-copy_step t checking e v c = ground arith
  canceled-copy_step t reading e v c = ground arith
  canceled-copy_step t (writing bytes r) e v c = ground arith
  canceled-copy_step t (sending r) e v c = ground arith
  canceled-copy_step t halted e v c = ground arith
  canceled-copy_step t crashed e v c = ground arith

  canceled-close_step :
      (t : Transfer W B) (pc : ClosePc)
      → t.canceled ≡ true
      → ((close_step http ring t pc).canceled ≡ true)
        × ((close_step http ring t pc).starter ≡ t.starter)
        × ((close_step http ring t pc).copier ≡ t.copier)
  unfolding close_step
  canceled-close_step t swapping c = ground arith
  canceled-close_step t closing c = ground arith
  canceled-close_step t canceling c = ground arith
  canceled-close_step t waiting c = ground arith
  canceled-close_step t returned c = ground arith

  born-start_step :
      (choice : Bool) (t : Transfer W B) (pc : StartPc)
      → t.starter ≡ pc
      → Inv t
      → is_born t.copier ≡ true
      → (start_step http ring choice t pc).copier ≡ t.copier
  unfolding start_step
  born-start_step choice t adding e v b = ground arith
  born-start_step choice t spawning e v b = ground (arith, v.born)
  born-start_step choice t selecting e v b = ground arith
  born-start_step choice t stopping e v b = ground arith
  born-start_step choice t marking e v b = ground arith
  born-start_step choice t finishing e v b = ground arith
  born-start_step choice t ended e v b = ground arith

  -- Once the context is canceled, each move of a goroutine uses up one of its steps.
  pub canceled-run_starts :
      (ms : List Move) (t : Transfer W B)
      → Inv t
      → t.canceled ≡ true
      → start_weight (run http ring ms t).starter ≤ start_weight t.starter - starts_in ms
  unfolding run step
  canceled-run_starts [] t v c = omega arith
  canceled-run_starts (starts choice ∷ ms) t v c =
      let (c', less) = canceled-start_step choice t t.starter refl c in
      omega (
        arith,
        less,
        canceled-run_starts ms (start_step http ring choice t t.starter)
            (step-Inv http ring (starts choice) t v) c',
      )
  canceled-run_starts (copies ∷ ms) t v c =
      let (c', same, kept, less) = canceled-copy_step t t.copier refl v c in
      omega (
        arith,
        ap start_weight same,
        canceled-run_starts ms (copy_step http ring t t.copier) (step-Inv http ring copies t v) c',
      )
  canceled-run_starts (closes ∷ ms) t v c =
      let (c', same, kept) = canceled-close_step t t.closer c in
      omega (
        arith,
        ap start_weight same,
        canceled-run_starts ms (close_step http ring t t.closer) (step-Inv http ring closes t v) c',
      )

  canceled-run_copies :
      (ms : List Move) (t : Transfer W B)
      → Inv t
      → t.canceled ≡ true
      → is_born t.copier ≡ true
      → (is_born (run http ring ms t).copier ≡ true)
        × (copy_weight (run http ring ms t).copier ≤ copy_weight t.copier - copies_in ms)
  unfolding run step
  canceled-run_copies [] t v c b = (b, omega arith)
  canceled-run_copies (starts choice ∷ ms) t v c b =
      let (c', less) = canceled-start_step choice t t.starter refl c in
      let same = born-start_step choice t t.starter refl v b in
      let (b', weight) =
        canceled-run_copies ms (start_step http ring choice t t.starter)
          (step-Inv http ring (starts choice) t v) c' (ap is_born same ∙ b) in
      (b', omega (arith, weight, ap copy_weight same))
  canceled-run_copies (copies ∷ ms) t v c b =
      let (c', same, kept, less) = canceled-copy_step t t.copier refl v c in
      let (b', weight) =
        canceled-run_copies ms (copy_step http ring t t.copier) (step-Inv http ring copies t v) c'
          (kept ∙ b) in
      (b', omega (arith, weight, less b))
  canceled-run_copies (closes ∷ ms) t v c b =
      let (c', kept, same) = canceled-close_step t t.closer c in
      let (b', weight) =
        canceled-run_copies ms (close_step http ring t t.closer) (step-Inv http ring closes t v) c'
          (ap is_born same ∙ b) in
      (b', omega (arith, weight, ap copy_weight same))

  -- In a state that keeps the threads' invariant, once the context of the transfer is canceled and
  -- copyData was spawned, copyData has returned or panicked after at most four more of its own
  -- steps, however the other threads run in between.
  pub canceled-IsOver :
      (ms : List Move) (t : Transfer W B)
      → Inv t
      → t.canceled ≡ true
      → is_born t.copier ≡ true
      → 4 ≤ copies_in ms
      → IsOver (run http ring ms t).copier
  canceled-IsOver ms t v c b four =
      IsOver-of_weight (run http ring ms t).copier
        (omega (arith, (canceled-run_copies ms t v c b).1, copy_weight-le t.copier))
