-- ===== src/Stream/Transfer/Aligned.antt =====
-- What it means that the bytes in the ring buffer and those still to come are the file's, for the
-- transfer of stream/transfer/main.go.
use Prim.Native.String.{String}
use fuse_video_streamer.Base.{
  ℕ, ◌+◌, ◌≡◌, refl, sym, ◌∙◌, ◌⊎◌, inl, inr, Bool, true, false, Option, none, some, List, [], ◌∷◌,
  ◌++◌, append_assoc, append-nil, length, drop, drop-add, drop-append,
}
use fuse_video_streamer.Base.Int.{pos}
use fuse_video_streamer.Go.{GoError, Error}
use fuse_video_streamer.Stream.Connection.{Connection, ReadResult}
use fuse_video_streamer.Stream.Connection.Laws.{pending}
use fuse_video_streamer.Stream.Transfer.{
  Transfer, CopyPc, writing, sending, halted, crashed, after_read, after_bytes,
}

-- The bytes that `copyData` has read and not yet written.
abbrev pub hand : CopyPc → List ℕ
hand (writing bytes e) = bytes
hand _ = []

-- Whether `copyData` may still read.
abbrev pub reads_on : CopyPc → Bool
reads_on (sending e) = false
reads_on halted = false
reads_on crashed = false
reads_on _ = true

module _ {W B : Type 0} (file : List ℕ) (unread : W → ℕ → List ℕ) (first : B → ℕ)
    (window : B → List ℕ) (url : String) (start : ℕ) where
  -- What the connection will still give: nothing once it is closed or nil.
  abbrev pub Follows : W → List ℕ → Option Connection → Type 0
  Follows w rest none = Unit {0}
  Follows w rest (some c) =
      (c.closed ≡ true)
      ⊎ ((rest ≡ pending file unread start w c.body)
          × (c.start_position ≡ pos start)
          × (c.url ≡ url))

  abbrev pub Continues : CopyPc → W → List ℕ → Option Connection → Type 0
  Continues pc w rest c = (reads_on pc ≡ false) ⊎ Follows w rest c

  -- The file from the buffer's first position on is what the buffer holds, then what `copyData`
  -- has in hand, then the rest, which the connection will give as long as it is read.
  abbrev pub Aligned : Transfer W B → Type 0
  Aligned t =
      (rest : List ℕ) × (drop (first t.buffer) file ≡ window t.buffer ++ hand t.copier ++ rest)
      × Continues t.copier t.network rest t.connection

  pub hand-after_read : (e : Error) → hand (after_read e) ≡ []
  hand-after_read none = refl
  hand-after_read (some GoError.eof) = refl
  hand-after_read (some _) = refl

  pub hand-after_bytes : (r : ReadResult) → hand (after_bytes r) ≡ r.0
  hand-after_bytes ([], e) = hand-after_read e
  hand-after_bytes (x ∷ xs, e) = refl

  -- A write takes the bytes in hand over into the window, whatever it drops from the front.
  pub shift :
      (m : ℕ) (old new bytes dropped rest : List ℕ)
      → drop m file ≡ old ++ bytes ++ rest
      → old ++ bytes ≡ dropped ++ new
      → drop (m + length dropped) file ≡ new ++ rest
  shift m old new bytes dropped rest a d =
      rw (drop-add m (length dropped) file, a, d, append_assoc dropped new rest)
        (drop-append dropped (new ++ rest))

  pub reading-Follows :
      (pc : CopyPc) (w : W) (rest : List ℕ) (c : Option Connection)
      → reads_on pc ≡ true
      → Continues pc w rest c
      → Follows w rest c
  reading-Follows pc w rest c r (inl stopped) = cc
  reading-Follows pc w rest c r (inr f) = f

  pub place :
      (pc : CopyPc) (m : ℕ) (new rest : List ℕ)
      → hand pc ≡ []
      → drop m file ≡ new ++ rest
      → drop m file ≡ new ++ hand pc ++ rest
  place pc m new rest h a = rw (h, append-nil new) a

  pub take_up :
      (pc : CopyPc) (old bytes rest rest' : List ℕ)
      → hand pc ≡ bytes
      → rest ≡ bytes ++ rest'
      → old ++ [] ++ rest ≡ old ++ hand pc ++ rest'
  take_up pc old bytes rest rest' h e =
      rw (h, append-nil old, e) (sym (append_assoc old bytes rest'))

  -- So the buffer holds a part of the file, at its place in the file.
  pub Aligned-window :
      (t : Transfer W B)
      → Aligned t
      → (rest : List ℕ) × (drop (first t.buffer) file ≡ window t.buffer ++ rest)
  Aligned-window t (rest, a, f) = (hand t.copier ++ rest, a ∙ append_assoc _ _ rest)
