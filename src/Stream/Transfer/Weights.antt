-- ===== src/Stream/Transfer/Weights.antt =====
-- How many steps the goroutines of stream/transfer/main.go still make, and how many a schedule has.
use fuse_video_streamer.Base.{ℕ, suc, ◌≤◌, ◌≡◌, refl, Bool, true, false, List, [], ◌∷◌, arith}
use fuse_video_streamer.Stream.Transfer.{
  StartPc, adding, spawning, selecting, stopping, marking, finishing, ended, CopyPc, unborn,
  checking, reading, writing, sending, halted, crashed, Move, starts, copies,
}

-- How many steps the thread can still make once the context is canceled.
abbrev pub start_weight : StartPc → ℕ
start_weight adding = 6
start_weight spawning = 5
start_weight selecting = 4
start_weight stopping = 3
start_weight marking = 2
start_weight finishing = 1
start_weight ended = 0

abbrev pub copy_weight : CopyPc → ℕ
copy_weight unborn = 4
copy_weight checking = 2
copy_weight reading = 4
copy_weight (writing bytes e) = 3
copy_weight (sending e) = 1
copy_weight halted = 0
copy_weight crashed = 0

pub copy_weight-le : (pc : CopyPc) → copy_weight pc ≤ 4
copy_weight-le unborn = omega arith
copy_weight-le checking = omega arith
copy_weight-le reading = omega arith
copy_weight-le (writing bytes e) = omega arith
copy_weight-le (sending e) = omega arith
copy_weight-le halted = omega arith
copy_weight-le crashed = omega arith

pub start_weight-le : (pc : StartPc) → start_weight pc ≤ 6
start_weight-le adding = omega arith
start_weight-le spawning = omega arith
start_weight-le selecting = omega arith
start_weight-le stopping = omega arith
start_weight-le marking = omega arith
start_weight-le finishing = omega arith
start_weight-le ended = omega arith

abbrev pub is_born : CopyPc → Bool
is_born unborn = false
is_born _ = true

abbrev pub starts_in : List Move → ℕ
starts_in [] = 0
starts_in (starts choice ∷ ms) = suc (starts_in ms)
starts_in (_ ∷ ms) = starts_in ms

abbrev pub copies_in : List Move → ℕ
copies_in [] = 0
copies_in (copies ∷ ms) = suc (copies_in ms)
copies_in (_ ∷ ms) = copies_in ms

-- The goroutine returned, or a panic stopped it.
abbrev pub IsOver : CopyPc → Type 0
IsOver halted = Unit {0}
IsOver crashed = Unit {0}
IsOver _ = ⊥

pub IsOver-of_weight : (pc : CopyPc) → copy_weight pc ≤ 0 → IsOver pc
IsOver-of_weight unborn h = absurd (omega arith)
IsOver-of_weight checking h = absurd (omega arith)
IsOver-of_weight reading h = absurd (omega arith)
IsOver-of_weight (writing bytes e) h = absurd (omega arith)
IsOver-of_weight (sending e) h = absurd (omega arith)
IsOver-of_weight halted h = tt
IsOver-of_weight crashed h = tt

pub ended_of_weight : (pc : StartPc) → start_weight pc ≤ 0 → pc ≡ ended
ended_of_weight adding h = absurd (omega arith)
ended_of_weight spawning h = absurd (omega arith)
ended_of_weight selecting h = absurd (omega arith)
ended_of_weight stopping h = absurd (omega arith)
ended_of_weight marking h = absurd (omega arith)
ended_of_weight finishing h = absurd (omega arith)
ended_of_weight ended h = refl
