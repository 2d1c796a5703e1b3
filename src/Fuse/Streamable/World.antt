-- ===== src/Fuse/Streamable/World.antt =====
-- The streams that the handles of filesystem/server/provider/fuse/filesystem/streamable share: what a
-- `Close` of one of them leaves of the others.
use fuse_video_streamer.Base.{
  ℕ, ◌≡◌, Bool, true, false, Option, none, some, List, [], ◌∷◌, ◌++◌, zero, suc, get_elem?, set,
}
use fuse_video_streamer.Stream.Core.{Stream}
use fuse_video_streamer.Fuse.Streamable.Handle.{Handle}

-- There is a stream, and it is closed if `must`.
abbrev pub StreamBy : {W B : Type 0} → Bool → Option (Stream W B) → Type 0
StreamBy must none = ⊥
StreamBy false (some s) = Unit {0}
StreamBy true (some s) = s.closed ≡ true

StreamBy-some :
    {W B : Type 0} (must : Bool) (s : Stream W B) → s.closed ≡ true → StreamBy must (some s)
StreamBy-some false s c = tt
StreamBy-some true s c = c

pub StreamBy-weaken :
    {W B : Type 0} (must : Bool) (s : Option (Stream W B)) → StreamBy must s → StreamBy false s
StreamBy-weaken must none b = b
StreamBy-weaken must (some s) b = tt

-- The streams that there were are there, and those that were closed are closed.
abbrev pub Extends : {W B : Type 0} → List (Stream W B) → List (Stream W B) → Type 0
Extends ss ts =
    (i : ℕ) (must : Bool) → StreamBy must (get_elem? ss i) → StreamBy must (get_elem? ts i)

pub Extends-set :
    {W B : Type 0} (ss : List (Stream W B)) (i : ℕ) (s : Stream W B)
    → s.closed ≡ true
    → Extends ss (set ss i s)
Extends-set [] i s c j must b = b
Extends-set (x ∷ ss) zero s c zero must b = StreamBy-some must s c
Extends-set (x ∷ ss) zero s c (suc j) must b = b
Extends-set (x ∷ ss) (suc i) s c zero must b = b
Extends-set (x ∷ ss) (suc i) s c (suc j) must b = Extends-set ss i s c j must b

pub set-StreamBy :
    {W B : Type 0} (ss : List (Stream W B)) (i : ℕ) (s : Stream W B)
    → s.closed ≡ true
    → StreamBy false (get_elem? ss i)
    → StreamBy true (get_elem? (set ss i s) i)
set-StreamBy [] i s c b = b
set-StreamBy (x ∷ ss) zero s c b = c
set-StreamBy (x ∷ ss) (suc i) s c b = set-StreamBy ss i s c b

pub Extends-append :
    {W B : Type 0} (ss : List (Stream W B)) (s : Stream W B) → Extends ss (ss ++ s ∷ [])
Extends-append [] s i must b = absurd b
Extends-append (x ∷ ss) s zero must b = b
Extends-append (x ∷ ss) s (suc i) must b = Extends-append ss s i must b

-- The handle's stream is there, and closed if the handle is.
abbrev pub SettledBy : {W B : Type 0} → List (Stream W B) → Bool → Option ℕ → Type 0
SettledBy ss closed none = Unit {0}
SettledBy ss closed (some i) = StreamBy closed (get_elem? ss i)

abbrev pub Settled : {W B : Type 0} → List (Stream W B) → Handle → Type 0
Settled ss h = SettledBy ss h.closed h.stream

pub SettledBy-Extends :
    {W B : Type 0} (ss ts : List (Stream W B)) (closed : Bool) (i : Option ℕ)
    → Extends ss ts
    → SettledBy ss closed i
    → SettledBy ts closed i
SettledBy-Extends ss ts closed none e s = tt
SettledBy-Extends ss ts closed (some i) e s = e i closed s

-- The handle is closed, and so is its stream.
abbrev pub Over : {W B : Type 0} → List (Stream W B) → Handle → Type 0
Over ss h = (h.closed ≡ true) × Settled ss h

module _ {W B : Type 0} where
  abbrev pub AllSettled : List (Stream W B) → List Handle → Type 0
  AllSettled ss [] = Unit {0}
  AllSettled ss (h ∷ hs) = Settled ss h × AllSettled ss hs

  abbrev pub AllOver : List (Stream W B) → List Handle → Type 0
  AllOver ss [] = Unit {0}
  AllOver ss (h ∷ hs) = Over ss h × AllOver ss hs

  pub AllSettled-Extends :
      (ss ts : List (Stream W B)) (hs : List Handle)
      → Extends ss ts
      → AllSettled ss hs
      → AllSettled ts hs
  AllSettled-Extends ss ts [] e p = tt
  AllSettled-Extends ss ts (h ∷ hs) e p =
      (SettledBy-Extends ss ts h.closed h.stream e p.0, AllSettled-Extends ss ts hs e p.1)

  pub AllOver-Extends :
      (ss ts : List (Stream W B)) (hs : List Handle) → Extends ss ts → AllOver ss hs → AllOver ts hs
  AllOver-Extends ss ts [] e p = tt
  AllOver-Extends ss ts (h ∷ hs) e p =
      ((p.0.0, SettledBy-Extends ss ts h.closed h.stream e p.0.1), AllOver-Extends ss ts hs e p.1)

  pub AllSettled-snoc :
      (ss : List (Stream W B)) (hs : List Handle) (h : Handle)
      → AllSettled ss hs
      → Settled ss h
      → AllSettled ss (hs ++ h ∷ [])
  AllSettled-snoc ss [] h p s = (s, tt)
  AllSettled-snoc ss (x ∷ hs) h p s = (p.0, AllSettled-snoc ss hs h p.1 s)

  pub AllOver-snoc :
      (ss : List (Stream W B)) (hs : List Handle) (h : Handle)
      → AllOver ss hs
      → Over ss h
      → AllOver ss (hs ++ h ∷ [])
  AllOver-snoc ss [] h p s = (s, tt)
  AllOver-snoc ss (x ∷ hs) h p s = (p.0, AllOver-snoc ss hs h p.1 s)
