-- ===== src/Stream/Core/Placed.antt =====
-- The invariant of a Stream of stream/main.go on the address of a file: what its ring buffer holds is a part of the file, at its
-- place in the file, and its transfer will go on from there.
use Prim.Native.String.{String}
use fuse_video_streamer.Base.{
  min, ℕ, zero, suc, ◌≡◌, refl, inl, inr, Option, none, some, List, [], ◌∷◌, ◌++◌, arith, drop,
  get_elem?, set, Option-cases,
}
use fuse_video_streamer.Base.Int.{ℤ, pos, negsuc, ◌≤ℤ◌}
use fuse_video_streamer.Stream.Size.Bounds.{small, calculate_buffer_size-pos}
use fuse_video_streamer.Stream.External.{Http, Ring, Serves, Buffers}
use fuse_video_streamer.Stream.Connection.Laws.{fresh}
use fuse_video_streamer.Stream.Transfer.{
  Transfer, Move, starts, copies, closes, run, step, ended, returned, StartPc, CopyPc, ClosePc,
}
use fuse_video_streamer.Stream.Transfer
use fuse_video_streamer.Stream.Transfer.Threads.{Inv, step-Inv, new_transfer-Inv}
use fuse_video_streamer.Stream.Transfer.Aligned.{Aligned, Aligned-window}
use fuse_video_streamer.Stream.Transfer.Alignment.{step-Aligned, new_transfer-Aligned}
use fuse_video_streamer.Stream.Transfer.Closing.{IsQuiet, quiet_step}
use fuse_video_streamer.Stream.Core.{
  Stream, new, attach, close_former, Event, moves, strays, occur, occurs,
}
use fuse_video_streamer.Stream.Core.Starting.{restarted}

-- No other goroutine closes the stream meanwhile.
abbrev pub Undisturbed : List Event → Type 0
Undisturbed [] = Unit {0}
Undisturbed (moves m ∷ es) = Undisturbed es
Undisturbed (strays i m ∷ es) = Undisturbed es
Undisturbed (Event.closes ms ∷ es) = ⊥

-- The transfer that is closed is through with all that it does when its `Close` returns: no
-- thread of it will write to the ring buffer any more.
abbrev pub ClosesQuietly :
    {W B : Type 0} → Http W → Ring B → List Move → Stream W B → Option (Transfer W B) → Type 0
ClosesQuietly http ring ms s none = Unit {0}
ClosesQuietly http ring ms s (some t) = IsQuiet (run http ring ms (attach s t))

module _ {W B : Type 0} (file : List ℕ) (unread : W → ℕ → List ℕ) (first : B → ℕ)
    (window : B → List ℕ) (url : String) where
  abbrev pub Slice : B → Type 0
  Slice b = (rest : List ℕ) × (drop (first b) file ≡ window b ++ rest)

  -- The stream's transfer is aligned with its ring buffer, or, where it has none, the buffer holds
  -- a part of the file at its place.
  abbrev pub PlacedBy : Stream W B → Option (Transfer W B) → Type 0
  PlacedBy s none = Slice s.ring
  PlacedBy s (some t) =
      Inv t × ((start : ℕ) × Aligned file unread first window url start (attach s t))

  abbrev pub AllQuiet : List (Transfer W B) → Type 0
  AllQuiet [] = Unit {0}
  AllQuiet (t ∷ ts) = IsQuiet t × AllQuiet ts

  pub record IsPlaced (s : Stream W B) : Type 0 where
    pub located : s.url ≡ url
    pub placed : PlacedBy s s.transfer
    pub quiet : AllQuiet s.former

  pub PlacedBy-Slice : (s : Stream W B) (t : Option (Transfer W B)) → PlacedBy s t → Slice s.ring
  PlacedBy-Slice s none p = p
  PlacedBy-Slice s (some t) (v, (start, a)) =
      Aligned-window file unread first window url start (attach s t) a

  attach-Inv : (s : Stream W B) (t : Transfer W B) → Inv t → Inv (attach s t)
  attach-Inv s t v = record {
    counted = v.counted;
    born = v.born;
    sent = v.sent;
    flags = v.flags;
    held = v.held;
    gone = v.gone;
  }

  module _ (http : Http W) (ring : Ring B) (serves : Serves http url file unread)
      (buffers : Buffers ring first window) where
    pub close_former-AllQuiet :
        (ms : List Move) (s : Stream W B) (t : Option (Transfer W B)) {s' : Stream W B}
        → s.transfer ≡ t
        → ClosesQuietly http ring ms s t
        → IsPlaced s
        → close_former http ring ms s t ≡ some s'
        → AllQuiet s'.former
    unfolding close_former
    close_former-AllQuiet ms s none e q p c = ground (arith, p.quiet)
    close_former-AllQuiet ms s (some t) e q p c = ground (arith, p.quiet)

    pub close_former-url :
        (ms : List Move) (s : Stream W B) (t : Option (Transfer W B)) {s' : Stream W B}
        → IsPlaced s
        → close_former http ring ms s t ≡ some s'
        → s'.url ≡ url
    unfolding close_former
    close_former-url ms s none p c = ground (arith, p.located)
    close_former-url ms s (some t) p c = ground (arith, p.located)

    -- The stream behind `newTransfer` is placed, whatever was in the ring buffer before.
    pub restarted-IsPlaced :
        (s : Stream W B) (start : ℤ)
        → pos 0 ≤ℤ start
        → s.url ≡ url
        → AllQuiet s.former
        → IsPlaced (restarted http ring s start)
    unfolding Transfer.new_transfer
    restarted-IsPlaced s (negsuc n) h here q = absurd (omega arith)
    restarted-IsPlaced s (pos n) h here q = record {
      located = here;
      placed = (
        new_transfer-Inv s.network (ring.reset_to_position s.ring (pos n)) (fresh s.url (pos n)),
        (
          n,
          new_transfer-Aligned file unread first window url n http ring serves buffers s.network
              s.ring (fresh s.url (pos n)) refl here refl,
        ),
      );
      quiet = q;
    }

    abbrev pub IfReturns : Option (Stream W B) → Type 0
    IfReturns none = Unit {0}
    IfReturns (some s) = IsPlaced s

    moves-IsPlaced :
        (m : Move) (s : Stream W B) → IsPlaced s → IfReturns (occur http ring (moves m) s)
    unfolding occur
    moves-IsPlaced m s p = elim (Option-cases s.transfer) [
      | inl e ↦ rw (e, occur) p
      | inr (t, e) ↦
          let (v, (start, a)) = rw e at p.placed in
          let v' = attach-Inv s t v in
          rw (e, occur)
            (record {
              located = p.located;
              placed = (
                step-Inv http ring m (attach s t) v',
                (
                  start,
                  step-Aligned file unread first window url start http ring serves buffers m
                      (attach s t) v' a,
                ),
              );
              quiet = p.quiet;
            })
    ]

    AllQuiet-get_elem? :
        (ts : List (Transfer W B)) (i : ℕ) {t : Transfer W B}
        → AllQuiet ts
        → get_elem? ts i ≡ some t
        → IsQuiet t
    AllQuiet-get_elem? [] i q e = cc
    AllQuiet-get_elem? (x ∷ ts) zero q e = ground (arith, q.0)
    AllQuiet-get_elem? (x ∷ ts) (suc i) q e = AllQuiet-get_elem? ts i q.1 e

    AllQuiet-set :
        (ts : List (Transfer W B)) (i : ℕ) (t : Transfer W B)
        → AllQuiet ts
        → IsQuiet t
        → AllQuiet (set ts i t)
    AllQuiet-set [] i t q h = q
    AllQuiet-set (x ∷ ts) zero t q h = (h, q.1)
    AllQuiet-set (x ∷ ts) (suc i) t q h = (q.0, AllQuiet-set ts i t q.1 h)

    strays-IsPlaced :
        (i : ℕ) (m : Move) (s : Stream W B)
        → IsPlaced s
        → IfReturns (occur http ring (strays i m) s)
    unfolding occur
    strays-IsPlaced i m s p = elim (Option-cases (get_elem? s.former i)) [
      | inl e ↦ rw (e, occur) p
      | inr (t, e) ↦
          let q : IsQuiet t = AllQuiet-get_elem? s.former i p.quiet e in
          rw (e, occur, quiet_step http ring m (attach s t) q)
            (record {
              located = p.located;
              placed = p.placed;
              quiet = AllQuiet-set s.former i (attach s t) p.quiet q;
            })
    ]

    pub occurs-IsPlaced :
        (es : List Event) (s : Stream W B)
        → Undisturbed es
        → IsPlaced s
        → IfReturns (occurs http ring es s)
    unfolding occurs
    occurs-IsPlaced [] s u p = p
    occurs-IsPlaced (moves m ∷ es) s u p = elim (Option-cases (occur http ring (moves m) s)) [
      | inl e ↦ rw (e, occurs) tt
      | inr (s', e) ↦ rw (e, occurs) (occurs-IsPlaced es s' u (rw e at (moves-IsPlaced m s p)))
    ]
    occurs-IsPlaced (strays i m ∷ es) s u p = elim (Option-cases (occur http ring (strays i m) s)) [
      | inl e ↦ rw (e, occurs) tt
      | inr (s', e) ↦ rw (e, occurs) (occurs-IsPlaced es s' u (rw e at (strays-IsPlaced i m s p)))
    ]
    occurs-IsPlaced (Event.closes ms ∷ es) s u p = absurd u

    -- A new stream of a file that is not of negative size.
    pub new-IsPlaced :
        (now : String) (w : W) (size : ℕ) → IsPlaced (new http ring now w url (pos size))
    unfolding new
    new-IsPlaced now w size =
        let (begins, empty) = buffers.new_empties (min size small) in
        record {
          located = refl;
          placed = (file, rw (calculate_buffer_size-pos size, begins, empty) refl);
          quiet = tt;
        }
