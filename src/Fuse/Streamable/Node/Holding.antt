-- ===== src/Fuse/Streamable/Node/Holding.antt =====
-- A node of filesystem/server/provider/fuse/filesystem/streamable/node/main.go while one of its handles is
-- used.
use mathlib.Core.Path.{subst}
use fuse_video_streamer.Base.{
  ℕ, ◌+◌, ◌≡◌, true, false, Bool, Option, none, some, List, [], ◌∷◌, zero, suc, get_elem?, set,
}
use fuse_video_streamer.Stream.Core.{Stream}
use fuse_video_streamer.Fuse.Handles.{Held}
use fuse_video_streamer.Fuse.Streamable.Handle.{Handle}
use fuse_video_streamer.Fuse.Streamable.World.{
  Extends, Settled, SettledBy-Extends, Over, AllSettled, AllOver, AllSettled-Extends,
  AllOver-Extends,
}
use fuse_video_streamer.Fuse.Streamable.Reading.{Carried}
use fuse_video_streamer.Fuse.Streamable.Node.{Node}
use fuse_video_streamer.Fuse.Streamable.Node.Closing.{WellBy, IsWell}

Held-set :
    (i : ℕ) (is : List (Option ℕ)) (hs : List Handle) (j : ℕ) (h : Handle)
    → Held i is hs
    → Held i is (set hs j h)
Held-set i [] [] j h p = p
Held-set i [] (x ∷ hs) j h p = absurd p
Held-set i (none ∷ is) hs j h p = absurd p
Held-set i (some k ∷ is) [] j h p = absurd p
Held-set i (some k ∷ is) (x ∷ hs) zero h p = p
Held-set i (some k ∷ is) (x ∷ hs) (suc j) h p = (p.0, Held-set (i + 1) is hs j h p.1)

module _ {W B : Type 0} (ss ts : List (Stream W B)) where
  AllSettled-set :
      (hs : List Handle) (j : ℕ) (h : Handle)
      → Extends ss ts
      → Settled ts h
      → AllSettled ss hs
      → AllSettled ts (set hs j h)
  AllSettled-set [] j h e s all = tt
  AllSettled-set (x ∷ hs) zero h e s all = (s, AllSettled-Extends ss ts hs e all.1)
  AllSettled-set (x ∷ hs) (suc j) h e s all =
      (SettledBy-Extends ss ts x.closed x.stream e all.0, AllSettled-set hs j h e s all.1)

  AllOver-set :
      (hs : List Handle) (j : ℕ) (h : Handle)
      → Extends ss ts
      → Over ts h
      → AllOver ss hs
      → AllOver ts (set hs j h)
  AllOver-set [] j h e s all = tt
  AllOver-set (x ∷ hs) zero h e s all = (s, AllOver-Extends ss ts hs e all.1)
  AllOver-set (x ∷ hs) (suc j) h e s all =
      ((all.0.0, SettledBy-Extends ss ts x.closed x.stream e all.0.1), AllOver-set hs j h e s all.1)

  AllSettled-get :
      (hs : List Handle) (j : ℕ) (h : Handle)
      → AllSettled ss hs
      → get_elem? hs j ≡ some h
      → Settled ss h
  AllSettled-get [] j h all e = cc
  AllSettled-get (x ∷ hs) zero h all e = let same : x ≡ h = cc in subst (Settled ss) same all.0
  AllSettled-get (x ∷ hs) (suc j) h all e = AllSettled-get hs j h all.1 e

  AllOver-get :
      (hs : List Handle) (j : ℕ) (h : Handle) → AllOver ss hs → get_elem? hs j ≡ some h → Over ss h
  AllOver-get [] j h all e = cc
  AllOver-get (x ∷ hs) zero h all e = let same : x ≡ h = cc in subst (Over ss) same all.0
  AllOver-get (x ∷ hs) (suc j) h all e = AllOver-get hs j h all.1 e

  handle-Settled :
      (closed : Bool) (n : Node) (j : ℕ) (h : Handle)
      → WellBy closed ss n
      → get_elem? n.objects j ≡ some h
      → Settled ss h
  handle-Settled false n j h (c, f, held, all) e = AllSettled-get n.objects j h all e
  handle-Settled true n j h all e = (AllOver-get n.objects j h all e).1

  -- The handles of a well-formed node are settled.
  pub IsWell-Settled :
      (n : Node) (j : ℕ) (h : Handle) → IsWell ss n → get_elem? n.objects j ≡ some h → Settled ss h
  IsWell-Settled n j h = handle-Settled n.closed n j h

  Carried-WellBy :
      (closed : Bool) (n : Node) (j : ℕ) (h h' : Handle)
      → WellBy closed ss n
      → get_elem? n.objects j ≡ some h
      → Carried ss h h' ts
      → WellBy closed ts (record n { objects = set n.objects j h' })
  Carried-WellBy false n j h h' (c, f, held, all) e (s, k, more) =
      (c, f, Held-set 0 n.handles n.objects j h' held, AllSettled-set n.objects j h' more s all)
  Carried-WellBy true n j h h' all e (s, k, more) =
      AllOver-set n.objects j h' more (k (AllOver-get n.objects j h all e).0, s) all

  -- The node stays well-formed while one of its handles is used.
  pub Carried-IsWell :
      (n : Node) (j : ℕ) (h h' : Handle)
      → IsWell ss n
      → get_elem? n.objects j ≡ some h
      → Carried ss h h' ts
      → IsWell ts (record n { objects = set n.objects j h' })
  Carried-IsWell n j h h' = Carried-WellBy n.closed n j h h'
