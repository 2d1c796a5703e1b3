-- ===== src/Stream/Transfer/Filled.antt =====
-- Theorems about copyData of stream/transfer/main.go at the end of its file, under the schedules in
-- which nobody closes the transfer.
use Prim.Native.String.{String}
use fuse_video_streamer.Base.{
  ℕ, ◌+◌, ◌-◌, ◌*◌, ◌≤◌, ◌≡◌, refl, ap, ◌∙◌, ◌⊎◌, inl, inr, Bool, false, none, some, List, [], ◌∷◌,
  append-nil, arith, length, drop,
}
use fuse_video_streamer.Base.Int.{pos}
use fuse_video_streamer.Go.{Error}
use fuse_video_streamer.Stream.External.{Http, Ring, Serves, Buffers}
use fuse_video_streamer.Stream.Connection.Laws.{fresh}
use fuse_video_streamer.Stream.Connection.Answering.{Answers}
use fuse_video_streamer.Stream.Transfer.Weights.{copies_in}
use fuse_video_streamer.Stream.Transfer.Filling.{
  fill_weight, Selects, Waits, Fills, copy_step-Fills,
}
use fuse_video_streamer.Stream.Transfer.{
  Transfer, StartPc, adding, spawning, selecting, stopping, marking, finishing, ended, CopyPc,
  unborn, checking, reading, writing, sending, halted, crashed, new_transfer, Move, starts, copies,
  closes, start_step, copy_step, step, run,
}

-- No move of a caller of `Close`.
abbrev pub WithoutClose : List Move → Type 0
WithoutClose [] = Unit {0}
WithoutClose (closes ∷ ms) = ⊥
WithoutClose (_ ∷ ms) = WithoutClose ms

module _ {W B : Type 0} (file : List ℕ) (unread : W → ℕ → List ℕ) (first : B → ℕ)
    (window : B → List ℕ) (url : String) (start : ℕ) (http : Http W) (ring : Ring B)
    (serves : Serves http url file unread) (answers : Answers http unread)
    (buffers : Buffers ring first window)
    (writes : (b : B) (bytes : List ℕ) → (ring.write b bytes).0 ≡ none) where
  Waits-cases :
      (pc : CopyPc) (t : Transfer W B)
      → Waits file unread first window url start pc t
      → ((pc ≡ halted) × Selects t.starter) ⊎ ((t.starter ≡ selecting) × (t.done ≡ []))
  Waits-cases unborn t v = inr v
  Waits-cases checking t v = inr v
  Waits-cases reading t v = inr v
  Waits-cases (writing bytes e) t v = inr v
  Waits-cases (sending e) t v = inr v
  Waits-cases halted t v = inl (refl, v)
  Waits-cases crashed t v = inr v

  select-Selects :
      (choice : Bool) (t : Transfer W B) (done : List Error)
      → t.canceled ≡ false
      → t.starter ≡ selecting
      → t.done ≡ done
      → Fills file unread first window url start halted t []
      → Fills file unread first window url start halted (start_step http ring choice t selecting) []
  unfolding start_step
  select-Selects choice t [] on e d (a, on', g, s) = rw (on, d, start_step) (a, refl, g, s)
  select-Selects choice t (x ∷ rest) on e d (a, on', g, s) = rw (on, d, start_step) (a, refl, g, tt)

  -- Behind copyData's end, `start` finishes and leaves the bytes.
  halted-start_step :
      (choice : Bool) (t : Transfer W B) (pc : StartPc)
      → t.starter ≡ pc
      → Fills file unread first window url start halted t []
      → Fills file unread first window url start halted (start_step http ring choice t pc) []
  unfolding start_step
  halted-start_step choice t adding e (a, on, g, s) = absurd (rw e at s)
  halted-start_step choice t spawning e (a, on, g, s) = absurd (rw e at s)
  halted-start_step choice t selecting e (a, on, g, s) =
      select-Selects choice t t.done on e refl (a, on, g, s)
  halted-start_step choice t stopping e (a, on, g, s) = absurd (rw e at s)
  halted-start_step choice t marking e (a, on, g, s) =
      let (kept, same) = buffers.marker_keeps t.buffer in (rw (kept, same) a, on, g, tt)
  halted-start_step choice t finishing e (a, on, g, s) = (a, on, g, tt)
  halted-start_step choice t ended e v = v

  -- Until the result is sent, `start` stays at its select.
  selecting-start_step :
      (choice : Bool) (t : Transfer W B)
      → t.canceled ≡ false
      → t.starter ≡ selecting
      → t.done ≡ []
      → start_step http ring choice t t.starter ≡ t
  unfolding start_step
  selecting-start_step choice t on selects empty = ground arith

  copier-start_step :
      (choice : Bool) (t : Transfer W B) (pc : StartPc)
      → Selects pc
      → (start_step http ring choice t pc).copier ≡ t.copier
  unfolding start_step
  copier-start_step choice t adding s = absurd s
  copier-start_step choice t spawning s = absurd s
  copier-start_step choice t selecting s = ground arith
  copier-start_step choice t stopping s = absurd s
  copier-start_step choice t marking s = refl
  copier-start_step choice t finishing s = refl
  copier-start_step choice t ended s = refl

  -- The moves of `start` take nothing from what copyData has to do.
  start_step-Fills :
      (choice : Bool) (t : Transfer W B) (rest : List ℕ)
      → Fills file unread first window url start t.copier t rest
      → Fills file unread first window url start
          (start_step http ring choice t t.starter).copier
          (start_step http ring choice t t.starter)
          rest
        × ((start_step http ring choice t t.starter).copier ≡ t.copier)
  start_step-Fills choice t rest (a, on, g, waits) = elim (Waits-cases t.copier t waits) [
    | inr (selects, empty) ↦
        rw (selecting-start_step choice t on selects empty) ((a, on, g, waits), refl)
    | inl (over, s) ↦
        let same = copier-start_step choice t t.starter s in
        let none_left = rw over at g in
        (
          rw (same ∙ over, none_left)
              (halted-start_step choice t t.starter refl (rw (over, none_left) at a, on, refl, s)),
          same,
        )
  ]

  -- How far copyData came, after the moves of the goroutines.
  run-Fills :
      (ms : List Move) (t : Transfer W B) (rest : List ℕ)
      → WithoutClose ms
      → Fills file unread first window url start t.copier t rest
      → (rest' : List ℕ) × Fills file unread first window url start
          (run http ring ms t).copier
          (run http ring ms t)
          rest'
        × (fill_weight (run http ring ms t).copier (length rest')
            ≤ fill_weight t.copier (length rest) - copies_in ms)
  unfolding run step
  run-Fills [] t rest quiet v = (rest, v, omega arith)
  run-Fills (starts choice ∷ ms) t rest quiet v =
      let (v', same) = start_step-Fills choice t rest v in
      let (rest', w, less) = run-Fills ms (start_step http ring choice t t.starter) rest quiet v' in
      (rest', w, omega (arith, less, ap (λ pc. fill_weight pc (length rest)) same))
  run-Fills (copies ∷ ms) t rest quiet v =
      let (rest1, v', fewer) =
        copy_step-Fills file unread first window url start http ring serves answers buffers writes t
          t.copier rest refl v in
      let (rest', w, less) = run-Fills ms (copy_step http ring t t.copier) rest1 quiet v' in
      (rest', w, omega (arith, less, fewer))
  run-Fills (closes ∷ ms) t rest quiet v = absurd quiet

  -- Without work left, copyData has sent its result and the file is in the buffer.
  halted-of_weight :
      (pc : CopyPc) (t : Transfer W B) (rest : List ℕ)
      → Fills file unread first window url start pc t rest
      → fill_weight pc (length rest) ≤ 0
      → (pc ≡ halted) × (drop (first t.buffer) file ≡ window t.buffer)
  halted-of_weight unborn t rest (a, on, g, w) h = absurd g
  halted-of_weight checking t rest v h = absurd (omega arith)
  halted-of_weight reading t rest v h = absurd (omega arith)
  halted-of_weight (writing bytes none) t rest v h = absurd (omega arith)
  halted-of_weight (writing bytes (some e)) t rest v h = absurd (omega arith)
  halted-of_weight (sending e) t rest v h = absurd (omega arith)
  halted-of_weight halted t rest (a, on, g, w) h =
      (refl, rw (g, append-nil (window t.buffer), append-nil (window t.buffer)) at a)
  halted-of_weight crashed t rest (a, on, g, w) h = absurd g

  begun-Fills :
      (w : W) (b : B) (first_choice second_choice : Bool)
      → Fills file unread first window url start checking
          (run http ring
            (starts first_choice ∷ starts second_choice ∷ [])
            (new_transfer w (ring.reset_to_position b (pos start)) (fresh url (pos start))))
          (drop start file)
  unfolding run step start_step new_transfer
  begun-Fills w b first_choice second_choice =
      let (begins, empty) = buffers.reset_empties b start in
      (rw (begins, empty) refl, refl, (refl, refl, refl, refl, refl), (refl, refl))

  -- If the server has a file at an address, answers requests with partial content and a read of a
  -- body gives bytes until its end, and writes to the ring buffer succeed, then a transfer whose
  -- fresh connection to that address asks for the position that the ring buffer was reset to
  -- copies its file to the end: once start has spawned copyData, under every schedule without a
  -- Close in which copyData makes at least four steps and three for each byte of the range,
  -- copyData has sent its result, and the ring buffer holds the file from its first position to
  -- the end.
  pub copies_whole_file :
      (w : W) (b : B) (first_choice second_choice : Bool) (ms : List Move)
      → WithoutClose ms
      → 4 + 3 * length (drop start file) ≤ copies_in ms
      → let t =
          run http ring
            (starts first_choice ∷ starts second_choice ∷ ms)
            (new_transfer w (ring.reset_to_position b (pos start)) (fresh url (pos start))) in
        (t.copier ≡ halted) × (drop (first t.buffer) file ≡ window t.buffer)
  unfolding run step start_step new_transfer
  copies_whole_file w b first_choice second_choice ms quiet enough =
      let (rest, v, less) =
        run-Fills ms _ (drop start file) quiet (begun-Fills w b first_choice second_choice) in
      halted-of_weight _ _ rest v (omega (arith, less))
